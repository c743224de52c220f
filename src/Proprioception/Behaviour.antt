-- ===== src/Proprioception/Behaviour.antt =====
-- The functions of the proprioception that leave its schedules alone
-- (mobile_platform_proprioception/src/activity/activity.c). A read through a null pointer is a fault.
-- A mutex is locked and unlocked within one function, and not at all when its pointer is null.
use ecs_private.Common.{◌*◌, Option, none, some, Bool, true, ◌==◌, ◌&&◌, if◌then◌else◌, ◌>>=◌}
use ecs_private.Lcsm.{State, resource_configuration, pausing, running, done}
use ecs_private.Activity.{
  Protocol, initialisation, execution, deinitialisation, LcsmFlags, update_super_state_lcsm_flags,
}
use ecs_private.Drive.{Timestamp}
use ecs_private.Proprioception.{Setting, Odometry, Params, Continuous, Coordination, World}
use ecs_private.Proprioception.Encoders.{odometry_from_encoders_delta_tricycle}

module _ (setting : Setting) where
  open setting use {reals, Float, cjson, double_read, unset, variable_map}
  open reals use {Double, literal, of_nat, plus, minus, times, divide, less}

  abbrev pub W : Type 0
  W = World setting

  -- Writes of single members of the activity.
  abbrev pub set_state : W → State → W
  set_state w s = record w {
    activity = record (w.activity) { lcsm = record (w.activity.lcsm) { state = s } };
  }

  abbrev pub set_protocol : W → Protocol → W
  set_protocol w p = record w { activity = record (w.activity) { lcsm_protocol = p } }

  abbrev pub set_flags : W → LcsmFlags → W
  set_flags w f = record w { activity = record (w.activity) { lcsm_flags = f } }

  abbrev pub set_params : W → Params setting → W
  set_params w p = record w { activity = record (w.activity) { params = some p } }

  abbrev pub set_continuous : W → Continuous setting → W
  set_continuous w c = record w { activity = record (w.activity) { continuous = some c } }

  abbrev pub set_coordination : W → Coordination setting → W
  set_coordination w c = record w { activity = record (w.activity) { coordination_state = some c } }

  abbrev pub set_resource_complete : W → Bool → W
  set_resource_complete w b =
      set_flags w (record (w.activity.lcsm_flags) { resource_configuration_complete = b })

  -- `update_super_state_lcsm_flags(&activity->state.lcsm_flags, activity->lcsm.state)`
  unfoldable pub update_super_state : W → W
  update_super_state w =
      set_flags w (update_super_state_lcsm_flags w.activity.lcsm_flags w.activity.lcsm.state)

  -- `memset(odometry, 0, sizeof(odometry2d_t))`
  abbrev pub no_motion : Odometry Double
  no_motion = record {
    pose = record { x = literal "0"; y = literal "0"; yaw = literal "0" };
    velocity = record { vx = literal "0"; vy = literal "0"; w = literal "0" };
  }

  -- The `switch` on the protocol that the creation and the configuration of the resources share.
  unfoldable pub completed : W → Protocol → W
  completed w initialisation = set_state w pausing
  completed w execution = set_state w running
  completed w deinitialisation =
      let w' = set_state w done in
      set_flags w' (record (w'.activity.lcsm_flags) { deletion_complete = true })

  unfoldable pub creation_coordinate : W → Option W
  unfolding completed update_super_state
  creation_coordinate w = some (
      if w.activity.lcsm_flags.creation_complete
      then update_super_state (completed w w.activity.lcsm_protocol)
      else w)

  unfoldable pub creation_compute : W → Option W
  creation_compute w = do
    continuous ← w.activity.continuous
    coordination ← w.activity.coordination_state
    let initialised =
        set_flags (set_continuous w (record continuous { odometry = no_motion }))
          (record (w.activity.lcsm_flags) { creation_complete = true })
    some (elim coordination.deleting_request [
      | none ↦ w
      | some d ↦ elim coordination.execution_request [ none ↦ w | some e ↦ initialised ]
    ])

  unfoldable pub resource_configuration_coordinate : W → Option W
  unfolding completed update_super_state
  resource_configuration_coordinate w = do
    coordination ← w.activity.coordination_state
    request ← coordination.deleting_request
    let w1 =
        if w.flags request then set_resource_complete (set_protocol w deinitialisation) true else w
    some (
        if w1.activity.lcsm_flags.resource_configuration_complete
        then update_super_state (completed w1 w1.activity.lcsm_protocol)
        else w1)

  -- The `switch` on the protocol, which has two cases.
  unfoldable pub pausing_next : W → Protocol → W
  pausing_next w initialisation = w
  pausing_next w execution = set_state w running
  pausing_next w deinitialisation = set_state w resource_configuration

  unfoldable pub pausing_coordinate : W → Option W
  unfolding pausing_next update_super_state
  pausing_coordinate w = do
    coordination ← w.activity.coordination_state
    execution_request ← coordination.execution_request
    let w1 = if w.flags execution_request then set_protocol w execution else w
    deleting_request ← coordination.deleting_request
    let w2 = if w.flags deleting_request then set_protocol w1 deinitialisation else w1
    some (update_super_state (pausing_next w2 w2.activity.lcsm_protocol))

  unfoldable pub running_communicate_with_drive : W → Option W
  running_communicate_with_drive w = do
    params ← w.activity.params
    coordination ← w.activity.coordination_state
    drive_address ← params.rt_drive
    platform_address ← params.rt_platform
    let shared = w.drives drive_address
    some (
        set_params w (record params {
          drive = record (params.drive) { config = shared.config; sensor = shared.sensor };
          platform = w.tricycles platform_address;
        }))

  unfoldable pub running_coordinate : W → Option W
  unfolding update_super_state
  running_coordinate w = do
    coordination ← w.activity.coordination_state
    request ← coordination.deleting_request
    some (
        if w.flags request
        then update_super_state (set_protocol (set_state w resource_configuration) deinitialisation)
        else w)

  -- The time between two messages, in milliseconds.
  abbrev pub sampling_time : Timestamp → Timestamp → Double
  sampling_time timestamp previous =
      plus (times (minus (of_nat timestamp.seconds) (of_nat previous.seconds)) (literal "1000")) (
        divide (minus (of_nat timestamp.nanoseconds) (of_nat previous.nanoseconds))
          (of_nat (1000 * 1000)))

  unfoldable pub running_compute : W → Option W
  unfolding odometry_from_encoders_delta_tricycle
  running_compute w = do
    params ← w.activity.params
    continuous ← w.activity.continuous
    let timestamp = params.drive.sensor.timestamp
    let time = sampling_time timestamp continuous.previous_timestamp
    let moved =
        odometry_from_encoders_delta_tricycle reals Float params.platform params.drive time
          continuous.odometry
    some (
        set_continuous w (record {
          odometry =
              if less time params.sampling_time_tolerance && less (literal "0") time
              then moved
              else continuous.odometry;
          previous_timestamp = timestamp;
        }))

  unfoldable pub running_communicate_odometry : W → Option W
  running_communicate_odometry w = do
    params ← w.activity.params
    continuous ← w.activity.continuous
    coordination ← w.activity.coordination_state
    a ← params.rt_odometry
    some (record w { odometries = λ b. if a == b then continuous.odometry else w.odometries b })
