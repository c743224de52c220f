-- ===== src/Navigation/Behaviour.antt =====
-- The functions of the navigation activity that leave its schedules alone
-- (navigation_template/src/activity/navigation_with_kelo_control.c). A read through a null pointer,
-- and a lock of a null mutex, is a fault.
use ecs_private.Common.{
  ℕ, ◌+◌, [], ◌∷◌, ◌++◌, Option, none, some, Bool, true, false, ltb, ◌==◌, if◌then◌else◌, ◌>>=◌,
  ◌>>◌, guard,
}
use ecs_private.Lcsm.{State, resource_configuration, capability_configuration, running, done}
use ecs_private.Registration.{HashResult, entry_not_found, get_variable_in_table}
use ecs_private.Activity.{Protocol, initialisation, execution, deinitialisation, LcsmFlags}
use ecs_private.Navigation.{
  Platform, Wheels, Actuation, Drive, Params, Coordination, command_mode_torque,
  command_mode_velocity, World,
}

abbrev pub experiment_use_velocity_control : Bool
experiment_use_velocity_control = true

-- What is found is in shared memory; what is not is asked for again.
unfoldable pub not_found : HashResult → Bool
not_found entry_not_found = true
not_found _ = false

-- The largest value of an `int`: to increment it is undefined.
abbrev pub int_max : ℕ
int_max = 2147483647

module _ (platform : Platform) where
  open platform use {Double, literal, of_nat, times, less, Config, Sensor, variable_map}

  abbrev pub W : Type 0
  W = World platform

  abbrev pub P : Type 0
  P = Params Double Config Sensor

  -- Writes of single members of the activity.
  abbrev pub set_state : W → State → W
  set_state w s = record w {
    activity = record (w.activity) { lcsm = record (w.activity.lcsm) { state = s } };
  }

  abbrev pub set_protocol : W → Protocol → W
  set_protocol w p = record w { activity = record (w.activity) { lcsm_protocol = p } }

  abbrev pub set_flags : W → LcsmFlags → W
  set_flags w f = record w { activity = record (w.activity) { lcsm_flags = f } }

  abbrev pub set_params : W → P → W
  set_params w p = record w { activity = record (w.activity) { params = some p } }

  abbrev pub set_coordination : W → Coordination → W
  set_coordination w c = record w { activity = record (w.activity) { coordination_state = some c } }

  unfoldable pub creation_compute : W → Option W
  creation_compute w = do
    params ← w.activity.params
    continuous ← w.activity.continuous
    let w1 = set_params w (record params { actuation_chunk_id = 0 })
    let w2 = record w1 {
      activity = record (w1.activity) {
        continuous = some (record continuous { iteration_count = 0 });
      };
    }
    some (set_flags w2 (record (w2.activity.lcsm_flags) { creation_complete = true }))

  unfoldable pub creation_coordinate : W → Option W
  creation_coordinate w =
      if w.activity.lcsm_flags.creation_complete
      then some (set_state w resource_configuration)
      else some w

  -- The test for the deletion request, which two functions make.
  abbrev pub heed_deletion : W → W
  heed_deletion w = if w.deleting_request then set_protocol w deinitialisation else w

  -- The `switch` on the protocol.
  unfoldable pub resources_complete : W → Protocol → W
  resources_complete w initialisation = set_state w capability_configuration
  resources_complete w execution = set_state w running
  resources_complete w deinitialisation =
      let w' = set_state w done in
      set_flags w' (record (w'.activity.lcsm_flags) { deletion_complete = true })

  unfoldable pub resource_configuration_coordinate : W → Option W
  unfolding resources_complete
  resource_configuration_coordinate w = do
    coordination ← w.activity.coordination_state
    let w1 =
        (if w.deleting_request
          then (let w' = set_protocol w deinitialisation in
              set_flags w'
                (record (w'.activity.lcsm_flags) { resource_configuration_complete = true }))
          else w)
    some (
        if w1.activity.lcsm_flags.resource_configuration_complete
        then resources_complete w1 w1.activity.lcsm_protocol
        else w1)

  abbrev pub set_resource_complete : W → Bool → W
  set_resource_complete w b =
      set_flags w (record (w.activity.lcsm_flags) { resource_configuration_complete = b })

  -- The block that asks for the drive.
  unfoldable pub get_drive : W → Option W
  unfolding not_found
  get_drive w = do
    params ← w.activity.params
    coordination ← w.activity.coordination_state
    elim params.rt_drive [
      | some p ↦ some w
      | none ↦ do
        table ← w.activity.table
        (result, pointer, mutex) ←
            get_variable_in_table variable_map w.variables "kelo_drive" "differential_drive_t"
              params.rt_drive coordination.drive_lock
        let w1 = set_params w (record params { rt_drive = pointer })
        let w2 = set_coordination w1 (record coordination { drive_lock = mutex })
        some (if not_found result then set_resource_complete w2 false else w2)
    ]

  -- The block that asks for the odometry.
  unfoldable pub get_odometry : W → Option W
  unfolding not_found
  get_odometry w = do
    params ← w.activity.params
    coordination ← w.activity.coordination_state
    elim params.rt_odometry [
      | some p ↦ some w
      | none ↦ do
        table ← w.activity.table
        (result, pointer, mutex) ←
            get_variable_in_table variable_map w.variables "odometry" "odometry2d_t"
              params.rt_odometry coordination.odometry_lock
        let w1 = set_params w (record params { rt_odometry = pointer })
        let w2 = set_coordination w1 (record coordination { odometry_lock = mutex })
        some (if not_found result then set_resource_complete w2 false else w2)
    ]

  unfoldable pub resource_configuration_compute : W → Option W
  unfolding get_drive get_odometry
  resource_configuration_compute w = do
    w' ← get_drive (set_resource_complete w true)
    get_odometry w'

  -- The `switch` on the protocol.
  unfoldable pub capabilities_next : W → Protocol → W
  capabilities_next w initialisation = w
  capabilities_next w execution = set_state w running
  capabilities_next w deinitialisation = set_state w resource_configuration

  unfoldable pub capability_configuration_coordinate : W → Option W
  unfolding capabilities_next
  capability_configuration_coordinate w = do
    coordination ← w.activity.coordination_state
    let w1 = if w.execution_request then set_protocol w execution else w
    let w2 = heed_deletion w1
    some (capabilities_next w2 w2.activity.lcsm_protocol)

  -- The body is left to be written in the source.
  unfoldable pub capability_configuration_compute : W → Option W
  capability_configuration_compute w = some w

  unfoldable pub running_communicate_sensor_and_estimation : W → Option W
  running_communicate_sensor_and_estimation w = do
    params ← w.activity.params
    coordination ← w.activity.coordination_state
    lock ← coordination.drive_lock
    rt_drive ← params.rt_drive
    let shared = w.drives rt_drive
    some (
        set_params w (record params {
          drive = record (params.drive) { config = shared.config; sensor = shared.sensor };
        }))

  -- The `switch` on the protocol.
  unfoldable pub running_next : W → Protocol → W
  running_next w deinitialisation = set_state w resource_configuration
  running_next w _ = w

  unfoldable pub running_coordinate : W → Option W
  unfolding running_next
  running_coordinate w = do
    coordination ← w.activity.coordination_state
    let w1 = heed_deletion w
    some (running_next w1 w1.activity.lcsm_protocol)

  -- `elapsed_time < EXPERIMENT_DURATION`
  abbrev pub in_time : ℕ → Bool
  in_time n = less (times (of_nat n) (literal "0.050")) (literal "10.0")

  abbrev pub both : Double → Wheels Double
  both v = record { left_wheel = v; right_wheel = v }

  -- The command of the experiment.
  abbrev pub command : Actuation Double
  command =
      if experiment_use_velocity_control
      then record {
        mode = command_mode_velocity;
        velocity = both (literal "0.5");
        current = both (literal "0");
      }
      else record {
        mode = command_mode_torque;
        velocity = both (literal "0");
        current = both (literal "2.0");
      }

  unfoldable pub running_compute : W → Option W
  running_compute w = do
    params ← w.activity.params
    continuous ← w.activity.continuous
    let w1 = set_params w (record params { drive = record (params.drive) { actuation = command } })
    let w2 = record w1 {
      activity = record (w1.activity) {
        continuous = some (record continuous { iteration_count = continuous.iteration_count + 1 });
      };
    }
    some (if in_time continuous.iteration_count then w2 else w)

  -- The memory with another drive at an address.
  abbrev pub write_drive :
      (ℕ → Drive Double Config Sensor)
      → ℕ
      → Drive Double Config Sensor
      → ℕ
      → Drive Double Config Sensor
  write_drive drives p d q = if p == q then d else drives q

  unfoldable pub running_communicate_control : W → Option W
  running_communicate_control w = do
    params ← w.activity.params
    coordination ← w.activity.coordination_state
    lock ← coordination.drive_lock
    rt_drive ← params.rt_drive
    let shared = record (w.drives rt_drive) { actuation = params.drive.actuation }
    some (record w { drives = write_drive w.drives rt_drive shared })

  unfoldable pub running_logging : W → Option W
  running_logging w = do
    params ← w.activity.params
    guard (ltb params.actuation_chunk_id int_max)
    let w' = record w {
      trace = w.trace ++ (params.actuation_chunk_id, params.drive.actuation) ∷ [];
    }
    some (set_params w' (record params { actuation_chunk_id = params.actuation_chunk_id + 1 }))
