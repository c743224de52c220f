-- ===== src/Navigation/Lifecycle.antt =====
-- The schedules of the navigation activity and the functions that exchange them
-- (navigation_template/src/activity/navigation_with_kelo_control.c).
use ecs_private.Common.{
  List, [], ◌∷◌, Option, none, some, Bool, true, false, if◌then◌else◌, ◌>>=◌, String,
}
use ecs_private.Common.StringMap.{StringMap}
use ecs_private.Lcsm.{
  State, creation, resource_configuration, capability_configuration, pausing, running, cleaning,
  done,
}
use ecs_private.Schedule.{
  Schedule, ScheduleTable, new_schedule, register_function, register_schedule,
  add_schedule_to_eventloop, remove_schedule_from_eventloop,
}
use ecs_private.Activity.{initialisation, Activity, configure_lcsm_activity, do_activity}
use ecs_private.Navigation.{
  Platform, Params, Continuous, Coordination, Function, activity_config, creation_coordinate,
  creation_configure, creation_compute, resource_configuration_coordinate,
  resource_configuration_configure, resource_configuration_compute,
  capability_configuration_coordinate, capability_configuration_configure,
  capability_configuration_compute, running_communicate_sensor_and_estimation, running_coordinate,
  running_configure, running_compute, running_communicate_control, running_logging, World,
  navigation_types,
}
use ecs_private.Navigation.Behaviour as behaviour

-- `==` on states
unfoldable pub same_state : State → State → Bool
same_state creation creation = true
same_state resource_configuration resource_configuration = true
same_state capability_configuration capability_configuration = true
same_state pausing pausing = true
same_state running running = true
same_state cleaning cleaning = true
same_state done done = true
same_state _ _ = false

module _ (platform : Platform) where
  open platform use {schedule_map}

  abbrev pub Table : Type 0
  Table = ScheduleTable (StringMap.Map schedule_map) Function

  abbrev pub schedule_table : World platform → Table
  schedule_table w = w.activity.schedule_table

  abbrev pub set_schedule_table : World platform → Table → World platform
  set_schedule_table w t = record w { activity = record (w.activity) { schedule_table = t } }

  -- The `switch` of `navigation_activity_config`; PAUSING has no case.
  unfoldable pub add_schedule_of : State → Table → Option Table
  add_schedule_of creation t = add_schedule_to_eventloop schedule_map t "creation"
  add_schedule_of resource_configuration t =
      add_schedule_to_eventloop schedule_map t "resource_configuration"
  add_schedule_of capability_configuration t =
      add_schedule_to_eventloop schedule_map t "capability_configuration"
  add_schedule_of running t = add_schedule_to_eventloop schedule_map t "running"
  add_schedule_of _ t = some t

  unfoldable pub navigation_activity_config : World platform → Option (World platform)
  unfolding add_schedule_of
  navigation_activity_config w = do
    removed ← remove_schedule_from_eventloop (schedule_table w) "activity_config"
    t ← add_schedule_of w.activity.lcsm.state removed
    some (set_schedule_table w t)

  -- What the four functions of configuration share: `activity_config` is added, and the schedule of
  -- the state that was left is removed.
  unfoldable pub leave : String → World platform → Option (World platform)
  leave name w = do
    t ← add_schedule_to_eventloop schedule_map (schedule_table w) "activity_config"
    t' ← remove_schedule_from_eventloop t name
    some (set_schedule_table w t')

  unfoldable pub navigation_creation_configure : World platform → Option (World platform)
  unfolding leave same_state
  navigation_creation_configure w =
      let left = leave "creation" w in
      if same_state w.activity.lcsm.state creation then some w else left

  unfoldable pub navigation_resource_configuration_configure :
      World platform → Option (World platform)
  unfolding leave same_state
  navigation_resource_configuration_configure w =
      let left = leave "resource_configuration" w >>= λ w'.
      some (behaviour.set_resource_complete platform w' false) in
      if same_state w.activity.lcsm.state resource_configuration then some w else left

  unfoldable pub navigation_capability_configuration_configure :
      World platform → Option (World platform)
  unfolding leave same_state
  navigation_capability_configuration_configure w =
      let left = leave "capability_configuration" w in
      if same_state w.activity.lcsm.state capability_configuration then some w else left

  unfoldable pub navigation_running_configure : World platform → Option (World platform)
  unfolding leave same_state
  navigation_running_configure w =
      let left = leave "running" w in
      if same_state w.activity.lcsm.state running then some w else left

  -- A call of a function pointer, with the activity as its argument.
  unfoldable pub call : Function → World platform → Option (World platform)
  unfolding navigation_activity_config navigation_creation_configure
      navigation_resource_configuration_configure navigation_capability_configuration_configure
      navigation_running_configure
  call activity_config w = navigation_activity_config w
  call creation_coordinate w = behaviour.creation_coordinate platform w
  call creation_configure w = navigation_creation_configure w
  call creation_compute w = behaviour.creation_compute platform w
  call resource_configuration_coordinate w = behaviour.resource_configuration_coordinate platform w
  call resource_configuration_configure w = navigation_resource_configuration_configure w
  call resource_configuration_compute w = behaviour.resource_configuration_compute platform w
  call capability_configuration_coordinate w =
      behaviour.capability_configuration_coordinate platform w
  call capability_configuration_configure w = navigation_capability_configuration_configure w
  call capability_configuration_compute w = behaviour.capability_configuration_compute platform w
  call running_communicate_sensor_and_estimation w =
      behaviour.running_communicate_sensor_and_estimation platform w
  call running_coordinate w = behaviour.running_coordinate platform w
  call running_configure w = navigation_running_configure w
  call running_compute w = behaviour.running_compute platform w
  call running_communicate_control w = behaviour.running_communicate_control platform w
  call running_logging w = behaviour.running_logging platform w

  -- One pass of the eventloop of this activity.
  abbrev pub pass : World platform → Option (World platform)
  pass w = do_activity call schedule_table w

  -- One schedule: the registration of its functions, all under its name, and its own.
  unfoldable pub register_all :
      String → List Function → Schedule Function → Option (Schedule Function)
  register_all name [] schedule = some schedule
  register_all name (f ∷ fs) schedule = do
    schedule' ← register_function schedule f name
    register_all name fs schedule'

  unfoldable pub register_named : Table → String → List Function → Option Table
  unfolding register_all
  register_named t name fs = do
    schedule ← register_all name fs new_schedule
    some (register_schedule schedule_map t schedule name)

  unfoldable pub navigation_register_schedules : Table → Option Table
  unfolding register_named
  navigation_register_schedules t = do
    t1 ← register_named t "activity_config" (activity_config ∷ [])
    t2 ←
        register_named t1 "creation"
          (creation_compute ∷ creation_coordinate ∷ creation_configure ∷ [])
    t3 ← register_named t2 "resource_configuration" (
        resource_configuration_compute ∷ resource_configuration_coordinate
        ∷ resource_configuration_configure ∷ [])
    t4 ← register_named t3 "capability_configuration" (
        capability_configuration_compute ∷ capability_configuration_coordinate
        ∷ capability_configuration_configure ∷ [])
    register_named t4 "running" (
        running_communicate_sensor_and_estimation ∷ running_coordinate ∷ running_configure
        ∷ running_compute ∷ running_communicate_control ∷ running_logging ∷ [])

  -- `malloc` gives memory with the contents of its arguments; the code does not test the results, and
  -- a null pointer is a fault. `rt_drive` keeps what was in the memory.
  unfoldable pub navigation_create_lcsm :
      Option (Params platform.Double platform.Config platform.Sensor)
      → Option Continuous
      → Option Coordination
      → Activity (navigation_types platform)
      → Option (Activity (navigation_types platform))
  navigation_create_lcsm params_memory continuous_memory coordination_memory activity = do
    params ← params_memory
    coordination ← coordination_memory
    some (record activity {
      params = some (record params {
        rt_range_scan = none;
        rt_range_sensor = none;
        rt_odometry = none;
        rt_platform = none;
      });
      continuous = continuous_memory;
      discrete = some tt;
      coordination_state = some (record coordination {
        drive_lock = none;
        odometry_lock = none;
        range_scan_lock = none;
        range_sensor_lock = none;
        platform_lock = none;
      });
    })

  unfoldable pub navigation_configure_lcsm :
      Activity (navigation_types platform) → Option (Activity (navigation_types platform))
  unfolding navigation_register_schedules
  navigation_configure_lcsm activity = do
    let a1 = configure_lcsm_activity activity tt
    let a2 = record a1 {
      lcsm = record (a1.lcsm) { state = creation };
      lcsm_protocol = initialisation;
    }
    t ← navigation_register_schedules a2.schedule_table
    t' ← add_schedule_to_eventloop schedule_map t "activity_config"
    some (record a2 { schedule_table = t' })
