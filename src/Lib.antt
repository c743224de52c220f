-- ===== src/Lib.antt =====
-- A mobile-robot software stack in C: the coordination libraries, the five_c runtime of schedules
-- and activities, and the activities built on it. All paths are below the repository's root.
--
-- The parts and how they work together. An activity owns a life-cycle state machine and a table of
-- schedules. A schedule is an array of named functions; the eventloop of an activity is an array of
-- schedules that one pass executes in order. The functions of the schedules fire events of the
-- life-cycle machine, and put other schedules into the eventloop when the machine changes state.
-- Beside the life cycle there is a general machine that reads its transitions from a table, and Petri
-- nets whose tokens are coupled to flags. Three activities are built on this: the drive, which talks to
-- the wheels over EtherCAT, the proprioception, which turns the data of the wheels into an odometry,
-- and the navigation, which commands the drive. They meet in a table of shared variables.
--
-- Which file models what:
--   Common: arrays as lists, faults as `none`, strings, and uthash as an interface
--     (Common/StringMap.antt): a type of tables with find and add, whose laws are those that the
--     code relies on; a list of pairs shows that the laws can be met.
--   Lcsm: mobile_platform_5c/baseline/coordination_libraries/src/lcsm.c. Lcsm.antt has the struct and
--     the functions `init_lcsm`, `update_lcsm`, `add_event`; Lcsm/Diagram.antt the transition diagram
--     as an indexed type, Lcsm/Refine.antt the queue of events that the array implements.
--   Fsm: mobile_platform_5c/baseline/coordination_libraries/src/FSM.c. Fsm.antt has the structs and
--     the functions; Fsm/Index.antt the index that `init_fsm` makes, Fsm/Update.antt what `update_fsm`
--     does, Fsm/Names.antt the tables of names, Fsm/TopLevel.antt the instance in
--     mobile_platform_5c/baseline/coordination_libraries/src/top-level_4_state_lcsm.c.
--   Schedule: mobile_platform_5c/baseline/five_c/src/schedule.c. Schedule.antt has the structs and the
--     functions; Schedule/Table.antt is about registration and the adding of schedules,
--     Schedule/Remove.antt and Schedule/Neighbours.antt about their removal, Schedule/Execute.antt
--     about the order of execution, Schedule/Slot.antt about a schedule that one of its own functions
--     replaces.
--   Activity: mobile_platform_5c/baseline/five_c/src/activity.c. Activity.antt has the struct, whose
--     four allocations have types that each activity chooses, and the functions;
--     Activity/Superstate.antt the three superstates.
--   Thread: mobile_platform_5c/baseline/five_c/src/thread.c. Thread.antt has the struct and the
--     functions, Thread/Loop.antt what the loop runs and when it ends.
--   Registration: mobile_platform_5c/baseline/data_structure/src/registration and the macros of
--     include/data_structure/registration/hash_table_variable.h there, which share variables between
--     activities. What `malloc` returns is an argument of the definitions.
--   Navigation: navigation_template/src/activity/navigation_with_kelo_control.c. Navigation.antt has
--     the data; Navigation/Behaviour.antt the functions that coordinate, compute and communicate;
--     Navigation/Lifecycle.antt those that exchange schedules, the registration of the schedules, and
--     the creation and configuration. Navigation/Slots.antt, Navigation/Configure.antt and
--     Navigation/Pass.antt reduce a pass of the eventloop to the calls that it makes;
--     Navigation/Invariant.antt, Navigation/Start.antt, Navigation/Reach.antt and
--     Navigation/Deletion.antt follow the life cycle of the activity, and Navigation/Memory.antt is
--     about memory that is not initialised. The numbers of type `double`, the members that are only
--     copied as a whole and the two hash tables are the record `Platform`. The requests are as they
--     stand during a pass, and the other threads' writes happen between passes.
--   Petrinet: mobile_platform_5c/baseline/coordination_libraries/src/petrinet.c. Petrinet.antt has the
--     tokens of a place, the standard behaviour, the conversions of flags and the trigger loop, and
--     Petrinet/Selective.antt the behaviours that choose places by name. The graph and the records of
--     its nodes are cgraph's: the interfaces `Graph` and `Records`. Petrinet/Flags.antt has the
--     functions on arrays of flags, which are known by their addresses, and Petrinet/Places.antt
--     those on arrays of names of places, with Petrinet/Places/Moves.antt. Petrinet/Tokens.antt counts
--     tokens, Petrinet/Firing.antt and Petrinet/Selective/Balance.antt are about firing,
--     Petrinet/Flags/Track.antt and Petrinet/Flags/Convert.antt about flags, and
--     Petrinet/Trigger.antt is about the loop. Petrinet/Scheduler.antt is
--     mobile_platform_5c/baseline/five_c/src/petrinet_scheduler.c, which couples nets to flags, and
--     Petrinet/Scheduler/Coordinate.antt is about what it leaves.
--   Dag: mobile_platform_5c/baseline/coordination_libraries/src/DAG.c, the making and finding of edges
--     by their numbers, over cgraph's interface `Cgraph`; Dag/Numbers.antt is about the numbers.
--   Activity/Exchange.antt, Schedule/Single.antt: what activities have in common whose schedules have
--     one function each, as the drive activity: the interface `SingleActivity`, which asks what each
--     function may do to the state and to the schedules, and what then holds of every pass.
--     Activity/Exchange/Pass.antt has sequences of such passes with steps of the others between them,
--     the relation `Reaches`.
--     Activity/Exchange/Configured.antt is the shape of the functions that exchange the schedule.
--   ReadFile: mobile_platform_5c/baseline/read_parameter_struct/src/read_file.c, over the files and
--     cJSON as the interface `Cjson`. ReadFile/Path.antt is about the paths of the parameters and
--     ReadFile/Entries.antt about reading a list of them, and ReadFile/Kept.antt about what the reading
--     leaves alone.
--   Drive: mobile_platform_5c/baseline/mobile_platform_drive. Drive.antt has the messages and the
--     interface `Soem` of the EtherCAT library, Drive/Ethercat.antt and Drive/Sensor.antt the functions
--     of src/kelo/kelo_soem.c, with Drive/Found.antt and Drive/Detect.antt about the wheels that
--     the detection finds and stores, Drive/Waiting.antt about the loop that waits for the slaves and
--     Drive/Connect.antt about an attempt to connect. Drive/Activity.antt has the data of src/activity/kelo_drive_activity.c,
--     Drive/Activity/Configuration.antt the parameters from a file, Drive/Activity/Wheels.antt the
--     bodies of the loops over the wheels, Drive/Activity/Connection.antt the connection and the
--     registration of the wheels, Drive/Activity/Behaviour.antt the other functions that compute,
--     coordinate and communicate, and Drive/Activity/Lifecycle.antt the schedules, the creation and
--     the configuration. Drive/Activity/Keeps.antt, Drive/Activity/Stays.antt and
--     Drive/Activity/Exchanges.antt fill `SingleActivity` for Drive/Activity/Invariant.antt;
--     Drive/Activity/Commands.antt is about the commands to the wheel.
--   MathRob: mobile_platform_5c/baseline/math_rob_c/src/numbers/numbers.c over abstract numbers, the
--     record `Reals`; MathRob/Smallest.antt is about the smallest value.
--   Proprioception: mobile_platform_5c/baseline/mobile_platform_proprioception. Proprioception.antt has
--     the data, Proprioception/Encoders.antt the odometry of src/delta_tricycle.c, and of
--     src/activity/activity.c Proprioception/Behaviour.antt has the functions that coordinate, compute
--     and communicate, Proprioception/Resources.antt the parameters from a file and the shared
--     variables, and Proprioception/Lifecycle.antt the schedules, the creation and the configuration.
--     Proprioception/Exchanges.antt fills `SingleActivity` for Proprioception/Invariant.antt,
--     Proprioception/Publish.antt is about what the running state publishes, and Proprioception/Waiting.antt and
--     Proprioception/Taken.antt about a platform that is registered by another activity.
--
-- How C is read. An array is the list of its cells; a read or write outside it, and a read through a
-- null pointer, is a fault, the value `none` of Option. A pointer into an array is an index. A
-- function pointer with its argument is a value of a type `F`, and a call of it is `call f`, which may
-- change all state, the schedules that are being executed among it. `snprintf` into a field of n
-- bytes keeps n - 1 characters. Memory is not given back in the model.
--
-- Rounds. The `for` loops over an array are recursions on the number of rounds. Where the body may
-- change the bound of the loop, the rounds are the length of the array, and a loop that would go on
-- after them is a fault, since its next read is outside the array. The loop that triggers a Petri net
-- takes a number of rounds and tells whether it was too few; Petrinet/Trigger.antt and
-- Petrinet/Scheduler/Coordinate.antt say how many are enough. The loop that waits for the EtherCAT
-- slaves has the 41 rounds of the code, and the loop over a path of parameters one round more than the
-- path has characters, which ReadFile/Path.antt shows to be enough.
--
-- Not modelled: the release of memory, the sleeping of the thread loop, printing and tracing to files,
-- and the copies of other projects' libraries (uthash, cJSON, SOEM), of which the code's calls are
-- interfaces; the navigation with control of the platform, which has the shape of the activities here;
-- the execution of flowcharts; and the tutorial programs. The counters of C are `int`; they are
-- bounded by the arrays wherever they matter.
pub mod Common
pub mod Lcsm
pub mod Fsm
pub mod Schedule
pub mod Activity
pub mod Thread
pub mod Registration
pub mod Navigation
pub mod Petrinet
pub mod Dag
pub mod ReadFile
pub mod Drive
pub mod MathRob
pub mod Proprioception
