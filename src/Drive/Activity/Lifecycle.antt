-- ===== src/Drive/Activity/Lifecycle.antt =====
-- The schedules of the drive activity, its creation and its configuration
-- (mobile_platform_drive/src/activity/kelo_drive_activity.c).
use ecs_private.Common.{
  List, [], ◌∷◌, Option, none, some, false, if◌then◌else◌, ◌>>=◌, String, replicate,
}
use ecs_private.Common.StringMap.{StringMap}
use ecs_private.Lcsm.{State, creation, resource_configuration, capability_configuration, running}
use ecs_private.Schedule.{ScheduleTable, add_schedule_to_eventloop}
use ecs_private.Activity.{initialisation, Activity, configure_lcsm_activity}
use ecs_private.Activity.Exchange.{leave_table, config_table}
use ecs_private.Activity.Exchange.Register.{register_singles}
use ecs_private.Navigation.Lifecycle.{same_state}
use ecs_private.Drive.{max_number_smartwheels}
use ecs_private.Drive.Activity.{
  Platform, Function, kelo_activity_config, kelo_activity_creation,
  kelo_activity_resource_configuration, kelo_activity_capability_configuration,
  kelo_activity_running, Params, Continuous, DiscreteState, Coordination, World, types,
}
use ecs_private.Drive.Activity.Behaviour as behaviour
use ecs_private.Drive.Activity.Connection as connection

-- The schedule that `..._config` adds in a state; three states have none.
unfoldable pub schedule_name : State → Option String
schedule_name creation = some "creation"
schedule_name resource_configuration = some "resource_configuration"
schedule_name capability_configuration = some "capability_configuration"
schedule_name running = some "running"
schedule_name _ = none

module _ (platform : Platform) where
  open platform use {numbers, schedule_map}
  open numbers use {less}

  abbrev pub Table : Type 0
  Table = ScheduleTable (StringMap.Map schedule_map) Function

  abbrev pub schedule_table : World platform → Table
  schedule_table w = w.activity.schedule_table

  abbrev pub set_schedule_table : World platform → Table → World platform
  set_schedule_table w t = record w { activity = record (w.activity) { schedule_table = t } }

  unfoldable pub activity_config : World platform → Option (World platform)
  unfolding config_table schedule_name
  activity_config w = do
    t ← config_table schedule_map (schedule_name w.activity.lcsm.state) (schedule_table w)
    some (set_schedule_table w t)

  -- What the functions of configuration do when the state is another one.
  unfoldable pub leave : String → World platform → Option (World platform)
  unfolding leave_table
  leave name w = do
    t ← leave_table schedule_map name (schedule_table w)
    some (set_schedule_table w t)

  unfoldable pub creation_configure : World platform → Option (World platform)
  unfolding leave same_state
  creation_configure w =
      let left = leave "creation" w in
      if same_state w.activity.lcsm.state creation then some w else left

  unfoldable pub resource_configuration_configure : World platform → Option (World platform)
  unfolding leave same_state
  resource_configuration_configure w =
      let left = leave "resource_configuration" w >>= λ w'.
      some (connection.set_resource_complete platform w' false) in
      if same_state w.activity.lcsm.state resource_configuration then some w else left

  unfoldable pub capability_configuration_configure : World platform → Option (World platform)
  unfolding leave same_state
  capability_configuration_configure w =
      let left = leave "capability_configuration" w in
      if same_state w.activity.lcsm.state capability_configuration then some w else left

  unfoldable pub running_configure : World platform → Option (World platform)
  unfolding leave same_state
  running_configure w =
      let left = leave "running" w in
      if same_state w.activity.lcsm.state running then some w else left

  unfoldable pub activity_creation : World platform → Option (World platform)
  unfolding creation_configure
  activity_creation w = do
    w1 ← behaviour.creation_compute platform w
    w2 ← behaviour.creation_coordinate platform w1
    creation_configure w2

  -- The test whether it is time for another attempt.
  unfoldable pub compute_in_time : World platform → Option (World platform)
  compute_in_time w = do
    params ← w.activity.params
    continuous ← w.activity.continuous
    let time =
        behaviour.elapsed platform w.clocktime continuous.clocktime_at_last_connection_attempt
    let computed = connection.resource_configuration_compute platform w
    (if less params.min_time_between_connection_attempts time then computed else some w)

  unfoldable pub activity_resource_configuration : World platform → Option (World platform)
  unfolding compute_in_time resource_configuration_configure
  activity_resource_configuration w = do
    w1 ← compute_in_time w
    w2 ← behaviour.resource_configuration_coordinate platform w1
    resource_configuration_configure w2

  unfoldable pub activity_capability_configuration : World platform → Option (World platform)
  unfolding capability_configuration_configure
  activity_capability_configuration w = do
    w1 ← behaviour.capability_configuration_communicate platform w
    w2 ← behaviour.capability_configuration_coordinate platform w1
    w3 ← capability_configuration_configure w2
    behaviour.capability_configuration_compute platform w3

  unfoldable pub activity_running : World platform → Option (World platform)
  unfolding running_configure
  activity_running w = do
    w1 ← behaviour.running_communicate platform w
    w2 ← behaviour.running_coordinate platform w1
    running_configure w2

  -- A call of a function pointer, with the activity as its argument.
  unfoldable pub call : Function → World platform → Option (World platform)
  unfolding activity_config activity_creation activity_resource_configuration
      activity_capability_configuration activity_running
  call kelo_activity_config w = activity_config w
  call kelo_activity_creation w = activity_creation w
  call kelo_activity_resource_configuration w = activity_resource_configuration w
  call kelo_activity_capability_configuration w = activity_capability_configuration w
  call kelo_activity_running w = activity_running w

  -- The five schedules, each with its only function.
  abbrev pub schedules : List (String × Function)
  schedules =
      ("activity_config", kelo_activity_config)
      ∷ ("creation", kelo_activity_creation)
      ∷ ("resource_configuration", kelo_activity_resource_configuration)
      ∷ ("capability_configuration", kelo_activity_capability_configuration)
      ∷ ("running", kelo_activity_running)
      ∷ []

  unfoldable pub register_schedules : Table → Option Table
  unfolding register_singles
  register_schedules t = register_singles schedule_map schedules t

  -- `malloc` gives memory with the contents of its arguments.
  unfoldable pub create_lcsm :
      Option (Params platform)
      → Option (Continuous platform)
      → Option (DiscreteState platform)
      → Option (Coordination platform)
      → Activity (types platform)
      → Activity (types platform)
  create_lcsm params continuous discrete coordination activity = record activity {
    params = params;
    continuous = continuous;
    discrete = discrete;
    coordination_state = coordination;
  }

  unfoldable pub configure_lcsm : Activity (types platform) → Option (Activity (types platform))
  unfolding register_schedules
  configure_lcsm activity = do
    coord ← activity.coordination_state
    params ← activity.params
    let a1 = configure_lcsm_activity activity tt
    let a2 = record a1 {
      lcsm = record (a1.lcsm) { state = creation };
      lcsm_protocol = initialisation;
      coordination_state = some (record coord {
        execution_request = none;
        deleting_request = none;
        configuration_request = none;
        drive_lock = replicate max_number_smartwheels none;
      });
      params = some (record params { rt_drive = replicate max_number_smartwheels none });
    }
    t ← register_schedules a2.schedule_table
    t' ← add_schedule_to_eventloop schedule_map t "activity_config"
    some (record a2 { schedule_table = t' })
