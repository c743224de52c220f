-- ===== src/Proprioception/Tests.antt =====
-- The theorems on the proprioception at a concrete activity.
use ecs_private.Common.{
  ◌≡◌, refl, sym, ◌∙◌, [], some, true, false, String, replicate, arith, ltb, subst, eq_of_some,
  none-ne-some,
}
use ecs_private.Common.StringMap.{StringMap}
use ecs_private.Lcsm.{
  State, creation, resource_configuration, capability_configuration, pausing, running, cleaning,
  done, init_lcsm,
}
use ecs_private.Schedule.{
  Schedule, new_schedule, do_schedule_eventloop, execute_schedule, execute_named_function,
  remove_schedule_from_eventloop, add_schedule_to_eventloop,
}
use ecs_private.Schedule.Remove
use ecs_private.Schedule.Remove.{eventloop}
use ecs_private.Schedule.Execute.{IsBounded, Stays, runs, StaysRuns, do_schedule_eventloop_lem}
use ecs_private.Schedule.Single.{single_schedule}
use ecs_private.Registration.{get_variable_in_table, register_and_get_variable_in_table}
use ecs_private.Activity.{Activity, do_activity}
use ecs_private.Activity.Exchange.{SingleActivity, config_table, Holds, Consistent, configuring}
use ecs_private.Activity.Exchange.Pass.{start, pass, other}
use ecs_private.ReadFile.{read_from_input_file}
use ecs_private.Proprioception.{
  Function, World, types, proprioception_config, proprioception_resource_configuration,
  proprioception_running,
}
use ecs_private.Proprioception.Exchanges.{main_of}
use ecs_private.Proprioception.Behaviour.{
  resource_configuration_coordinate, running_communicate_with_drive, running_coordinate,
  running_compute, running_communicate_odometry,
}
use ecs_private.Proprioception.Resources.{
  resource_configuration_compute, get_drive, get_platform, get_odometry, register_and_get,
}
use ecs_private.Proprioception.Lifecycle.{
  schedule_name, schedule_table, activity_config, activity_resource_configuration,
  running_configure, activity_running, call,
}
use ecs_private.Proprioception.Invariant.{proprioception_activity, proprioception_passes-Consistent}
use ecs_private.Proprioception.Waiting.{Waiting, complete}
use ecs_private.Proprioception.Taken.{HoldsResources, platform_taken}
use ecs_private.Proprioception.Publish.{Ready, ExactZero, published, running_once}
use ecs_private.Proprioception.Sample.{
  setting, drive, at_rest, params, coordination, continuous, activity_in, world_of,
}

abbrev configuring_world : World setting
configuring_world = world_of (
    activity_in resource_configuration params
      (single_schedule "activity_config" proprioception_config))

abbrev resources_world : World setting
resources_world = world_of (
    activity_in resource_configuration params
      (single_schedule "resource_configuration" proprioception_resource_configuration))

abbrev Found : State → String → Type 0
Found s name =
    StringMap.find setting.schedule_map configuring_world.activity.schedule_table.hash_map name
    ≡ some (single_schedule name (main_of s))

lookup_by_name : (s : State) (name : String) → schedule_name s ≡ some name → Found s name
unfolding schedule_name
lookup_by_name resource_configuration name n =
    subst (Found resource_configuration) (eq_of_some n) refl
lookup_by_name pausing name n = subst (Found pausing) (eq_of_some n) refl
lookup_by_name running name n = subst (Found running) (eq_of_some n) refl
lookup_by_name creation name n = absurd (none-ne-some n)
lookup_by_name capability_configuration name n = absurd (none-ne-some n)
lookup_by_name cleaning name n = absurd (none-ne-some n)
lookup_by_name done name n = absurd (none-ne-some n)

held :
    (c : Schedule Function)
    → Holds setting.schedule_map
        (proprioception_activity setting)
        c
        (activity_in resource_configuration params c).schedule_table
held c = record {
  hash_map = configuring_world.activity.schedule_table.hash_map;
  number = 4;
  dead = new_schedule;
  rest = replicate 30 new_schedule;
  registered = record { find_config = refl; find_state = lookup_by_name };
  rest_length = refl;
  same = refl;
}

-- The drive sends another message, and all the flags are raised.
abbrev later_world : World setting
later_world = record resources_world { drives = λ a. drive 9000000; flags = λ a. true }

one_pass :
    do_activity
      (call setting)
      (SingleActivity.table (proprioception_activity setting))
      configuring_world
    ≡ some resources_world
unfolding do_activity do_schedule_eventloop call activity_config config_table schedule_name
    execute_schedule execute_named_function remove_schedule_from_eventloop add_schedule_to_eventloop
    init_lcsm
one_pass = refl

proprioception_passes-Consistent_example :
    Consistent setting.schedule_map (proprioception_activity setting) later_world
proprioception_passes-Consistent_example =
    proprioception_passes-Consistent setting configuring_world later_world
      (configuring (held (single_schedule "activity_config" proprioception_config)))
      (other (pass start one_pass) (refl, refl))

-- An activity with an empty hash table.
abbrev new_activity : Activity (types setting)
new_activity = record (activity_in resource_configuration params new_schedule) {
  schedule_table = record {
    hash_map = [];
    eventloop_schedules = replicate 32 new_schedule;
    number_of_schedules = 0;
    number_of_eventloop_schedules = 0;
  };
}

waiting : Waiting setting resources_world
waiting = record {
  entry = record { pointer = 40; mutex = 41; mutex_init = false };
  request = 2;
  no_pointer = refl;
  taken = refl;
  request_at = refl;
  no_request = refl;
}

-- Another message of the drive, and no request.
abbrev driven_world : World setting
driven_world = record resources_world { drives = λ a. drive 9000000 }

idle_pass :
    do_activity
      (call setting)
      (SingleActivity.table (proprioception_activity setting))
      resources_world
    ≡ some resources_world
unfolding do_activity do_schedule_eventloop call activity_resource_configuration execute_schedule
    execute_named_function init_lcsm read_from_input_file resource_configuration_coordinate
    resource_configuration_compute get_drive get_platform get_odometry register_and_get
    register_and_get_variable_in_table get_variable_in_table
idle_pass = refl

driven_pass :
    do_activity (call setting) (SingleActivity.table (proprioception_activity setting)) driven_world
    ≡ some driven_world
unfolding do_activity do_schedule_eventloop call activity_resource_configuration execute_schedule
    execute_named_function init_lcsm read_from_input_file resource_configuration_coordinate
    resource_configuration_compute get_drive get_platform get_odometry register_and_get
    register_and_get_variable_in_table get_variable_in_table
driven_pass = refl

-- Two passes and a message later the activity is still in the same state.
platform_taken_example :
    (driven_world.activity.lcsm.state ≡ resource_configuration)
    × HoldsResources setting driven_world
    × Waiting setting driven_world
    × (complete setting driven_world ≡ false)
platform_taken_example =
    platform_taken setting resources_world driven_world refl
      (held (single_schedule "resource_configuration" proprioception_resource_configuration))
      waiting refl (pass (other (pass start idle_pass) (refl, refl, λ request e. refl)) driven_pass)

abbrev running_world : World setting
running_world = world_of (
    activity_in running (record params { rt_platform = some 40 })
      (single_schedule "running" proprioception_running))

abbrev ready : Ready setting running_world
ready = record {
  params = record params { rt_platform = some 40 };
  coordination = coordination;
  continuous = continuous;
  drive = 30;
  tricycle = 40;
  odometry = 50;
  request = 2;
  params_at = refl;
  coordination_at = refl;
  continuous_at = refl;
  drive_at = refl;
  tricycle_at = refl;
  odometry_at = refl;
  request_at = refl;
  no_request = refl;
  state_at = refl;
}

naturals-ExactZero : ExactZero setting
naturals-ExactZero = record {
  minus_self = λ n h. omega arith;
  times_zero = refl;
  divide_zero = refl;
  plus_zero = refl;
  not_less = refl;
}

abbrev first_run : World setting
first_run = published setting running_world ready

first_run_is : activity_running setting running_world ≡ some first_run
unfolding activity_running running_communicate_with_drive running_coordinate running_configure
    running_compute running_communicate_odometry init_lcsm
first_run_is = refl

-- Another activity writes the shared odometry, and all flags but the request are raised.
abbrev between : World setting
between = record first_run {
  odometries = λ a. record at_rest { pose = record { x = 9; y = 9; yaw = 9 } };
  flags = λ a. ltb 2 a;
}

running_once_example :
    (w2 : World setting) × (activity_running setting between ≡ some w2)
    × (w2.odometries 50 ≡ first_run.odometries 50)
    × (w2.activity.continuous ≡ first_run.activity.continuous)
running_once_example =
    running_once setting naturals-ExactZero running_world first_run between ready first_run_is refl
      refl refl (omega arith) (omega arith)

-- The pass of the eventloop makes one call, which stays in the running state.
running_call :
    execute_named_function
      (call setting)
      (some (record { name = "running"; function = proprioception_running }))
      running_world
    ≡ some first_run
unfolding execute_named_function call
running_call = first_run_is

running_world-StaysRuns :
    StaysRuns
      (call setting)
      (schedule_table setting)
      (eventloop (schedule_table setting running_world))
      running_world
unfolding StaysRuns Stays
running_world-StaysRuns = (
  λ s' e.
      subst (λ u. (schedule_table setting u ≡ schedule_table setting running_world) × Unit)
        (eq_of_some (sym running_call ∙ e)) (refl, tt),
  λ s' e. tt,
)

running_world-IsValid : Remove.IsValid (schedule_table setting running_world)
running_world-IsValid = record { cells_length = refl; number_le = omega arith }

running-IsBounded : IsBounded (single_schedule "running" proprioception_running)
running-IsBounded = record { cells_length = refl; number_le = omega arith }

do_schedule_eventloop_lem_example :
    do_schedule_eventloop (call setting) (schedule_table setting) running_world
    ≡ runs
        (call setting)
        (schedule_table setting)
        (eventloop (schedule_table setting running_world))
        running_world
do_schedule_eventloop_lem_example =
    do_schedule_eventloop_lem (call setting) (schedule_table setting) running_world
      running_world-StaysRuns running_world-IsValid (running-IsBounded, tt)
