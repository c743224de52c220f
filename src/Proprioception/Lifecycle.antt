-- ===== src/Proprioception/Lifecycle.antt =====
-- The schedules of the proprioception, its creation and its configuration
-- (mobile_platform_proprioception/src/activity/activity.c).
use ecs_private.Common.{List, [], ◌∷◌, Option, none, some, false, if◌then◌else◌, ◌>>=◌, String}
use ecs_private.Common.StringMap.{StringMap}
use ecs_private.Lcsm.{State, creation, resource_configuration, pausing, running}
use ecs_private.Schedule.{ScheduleTable, add_schedule_to_eventloop}
use ecs_private.Activity.{initialisation, Activity, configure_lcsm_activity}
use ecs_private.Activity.Exchange.{leave_table, config_table}
use ecs_private.Activity.Exchange.Register.{register_singles}
use ecs_private.Navigation.Lifecycle.{same_state}
use ecs_private.Proprioception.{
  Setting, Function, proprioception_config, proprioception_resource_configuration,
  proprioception_pausing, proprioception_running, Params, Continuous, Coordination, World, types,
}
use ecs_private.Proprioception.Behaviour as behaviour
use ecs_private.Proprioception.Resources as resources

-- The schedule that `..._config` adds in a state; the other states have none.
unfoldable pub schedule_name : State → Option String
schedule_name resource_configuration = some "resource_configuration"
schedule_name pausing = some "pausing"
schedule_name running = some "running"
schedule_name _ = none

module _ (setting : Setting) where
  open setting use {schedule_map}

  abbrev pub Table : Type 0
  Table = ScheduleTable (StringMap.Map schedule_map) Function

  abbrev pub schedule_table : World setting → Table
  schedule_table w = w.activity.schedule_table

  abbrev pub set_schedule_table : World setting → Table → World setting
  set_schedule_table w t = record w { activity = record (w.activity) { schedule_table = t } }

  unfoldable pub activity_config : World setting → Option (World setting)
  unfolding config_table schedule_name
  activity_config w = do
    t ← config_table schedule_map (schedule_name w.activity.lcsm.state) (schedule_table w)
    some (set_schedule_table w t)

  -- What the functions of configuration do when the state is another one.
  unfoldable pub leave : String → World setting → Option (World setting)
  unfolding leave_table
  leave name w =
      leave_table schedule_map name (schedule_table w) >>= λ t. some (set_schedule_table w t)

  unfoldable pub creation_configure : World setting → Option (World setting)
  unfolding leave same_state
  creation_configure w =
      let left = leave "creation" w >>= λ w'. some (
        behaviour.set_flags setting w'
          (record (w'.activity.lcsm_flags) { creation_complete = false })) in
      if same_state w.activity.lcsm.state creation then some w else left

  -- The functions of the creation; no schedule has them.
  unfoldable pub activity_creation : World setting → Option (World setting)
  unfolding creation_configure
  activity_creation w = do
    w1 ← behaviour.creation_coordinate setting w
    w2 ← creation_configure w1
    behaviour.creation_compute setting w2

  unfoldable pub resource_configuration_configure : World setting → Option (World setting)
  unfolding leave same_state
  resource_configuration_configure w =
      let left = leave "resource_configuration" w >>= λ w'.
      some (behaviour.set_resource_complete setting w' false) in
      if same_state w.activity.lcsm.state resource_configuration then some w else left

  unfoldable pub activity_resource_configuration : World setting → Option (World setting)
  unfolding resource_configuration_configure
  activity_resource_configuration w = do
    w1 ← behaviour.resource_configuration_coordinate setting w
    w2 ← resource_configuration_configure w1
    resources.resource_configuration_compute setting w2

  unfoldable pub pausing_configure : World setting → Option (World setting)
  unfolding leave same_state
  pausing_configure w =
      let left = leave "pausing" w in
      if same_state w.activity.lcsm.state pausing then some w else left

  unfoldable pub activity_pausing : World setting → Option (World setting)
  unfolding pausing_configure
  activity_pausing w = do w1 ← behaviour.pausing_coordinate setting w; pausing_configure w1

  unfoldable pub running_configure : World setting → Option (World setting)
  unfolding leave same_state
  running_configure w =
      let left = leave "running" w in
      if same_state w.activity.lcsm.state running then some w else left

  unfoldable pub activity_running : World setting → Option (World setting)
  unfolding running_configure
  activity_running w = do
    w1 ← behaviour.running_communicate_with_drive setting w
    w2 ← behaviour.running_coordinate setting w1
    w3 ← running_configure w2
    w4 ← behaviour.running_compute setting w3
    behaviour.running_communicate_odometry setting w4

  -- A call of a function pointer, with the activity as its argument.
  unfoldable pub call : Function → World setting → Option (World setting)
  unfolding activity_config activity_resource_configuration activity_pausing activity_running
  call proprioception_config w = activity_config w
  call proprioception_resource_configuration w = activity_resource_configuration w
  call proprioception_pausing w = activity_pausing w
  call proprioception_running w = activity_running w

  -- The four schedules, each with its only function.
  abbrev pub schedules : List (String × Function)
  schedules =
      ("activity_config", proprioception_config)
      ∷ ("resource_configuration", proprioception_resource_configuration)
      ∷ ("pausing", proprioception_pausing)
      ∷ ("running", proprioception_running)
      ∷ []

  unfoldable pub register_schedules : Table → Option Table
  unfolding register_singles
  register_schedules t = register_singles schedule_map schedules t

  -- `malloc` gives memory with the contents of its arguments. The pointer to the mutex of the platform
  -- keeps what it holds.
  unfoldable pub create_lcsm :
      Option (Params setting)
      → Option (Continuous setting)
      → Option (Unit {0})
      → Option (Coordination setting)
      → Activity (types setting)
      → Option (Activity (types setting))
  create_lcsm params_memory continuous_memory discrete_memory coordination_memory activity = do
    params ← params_memory
    coordination ← coordination_memory
    some (record activity {
      params = some (record params { rt_drive = none; rt_platform = none; rt_odometry = none });
      discrete = discrete_memory;
      continuous = continuous_memory;
      coordination_state = some (record coordination {
        deleting_request = none;
        execution_request = none;
        drive_lock = none;
        odometry_lock = none;
      });
    })

  unfoldable pub configure_lcsm : Activity (types setting) → Option (Activity (types setting))
  unfolding register_schedules
  configure_lcsm activity = do
    let a1 = configure_lcsm_activity activity tt
    let a2 = record a1 {
      lcsm = record (a1.lcsm) { state = resource_configuration };
      lcsm_protocol = initialisation;
    }
    t ← register_schedules a2.schedule_table
    t' ← add_schedule_to_eventloop schedule_map t "activity_config"
    some (record a2 { schedule_table = t' })
