-- ===== src/Drive/Activity/Behaviour.antt =====
-- The functions of the drive activity that leave its schedules alone
-- (mobile_platform_drive/src/activity/kelo_drive_activity.c). A read through a null pointer, and a
-- lock of a null mutex, is a fault.
use ecs_private.Common.{
  ℕ, ◌+◌, [], ◌∷◌, ◌++◌, Option, none, some, true, false, ltb, if◌then◌else◌, ◌>>=◌, ◌>>◌, guard,
  get_elem?,
}
use ecs_private.Lcsm.{State, resource_configuration, capability_configuration, running, done}
use ecs_private.Activity.{
  Protocol, initialisation, execution, deinitialisation, LcsmFlags, update_super_state_lcsm_flags,
}
use ecs_private.Navigation.Behaviour.{int_max}
use ecs_private.Drive.Activity.{Timespec, Platform, DiscreteState, Coordination, for_range}
use ecs_private.Drive.Activity.Wheels.{
  W, set_params, write_flag, for_wheels, communicate_mode, compute_mode, communicate_setpoint,
  send_setpoint, read_sensor, share_sensor, exchange_messages,
}

module _ (platform : Platform) where
  open platform use {numbers, soem, variable_map}
  open numbers use {
    Double, Float, Int, literal, float_of, of_difference, plus, times, less, int_of, int_eq, int_le,
  }

  -- Writes of single members of the activity.
  abbrev pub set_state : W platform → State → W platform
  set_state w s = record w {
    activity = record (w.activity) { lcsm = record (w.activity.lcsm) { state = s } };
  }

  abbrev pub set_protocol : W platform → Protocol → W platform
  set_protocol w p = record w { activity = record (w.activity) { lcsm_protocol = p } }

  abbrev pub set_flags : W platform → LcsmFlags → W platform
  set_flags w f = record w { activity = record (w.activity) { lcsm_flags = f } }

  abbrev pub set_discrete : W platform → DiscreteState platform → W platform
  set_discrete w d = record w { activity = record (w.activity) { discrete = some d } }

  abbrev pub set_coordination : W platform → Coordination platform → W platform
  set_coordination w c = record w { activity = record (w.activity) { coordination_state = some c } }

  -- `update_super_state_lcsm_flags(&activity->state.lcsm_flags, activity->lcsm.state)`
  unfoldable pub update_super_state : W platform → W platform
  update_super_state w =
      set_flags w (update_super_state_lcsm_flags w.activity.lcsm_flags w.activity.lcsm.state)

  -- `malloc`
  unfoldable pub malloc : W platform → Option ℕ × W platform
  malloc w = elim w.mallocs [ [] ↦ (none, w) | p ∷ ps ↦ (p, record w { mallocs = ps }) ]

  unfoldable pub creation_compute : W platform → Option (W platform)
  unfolding malloc
  creation_compute w = do
    coord ← w.activity.coordination_state
    discrete ← w.activity.discrete
    params ← w.activity.params
    let w1 = set_flags w (record (w.activity.lcsm_flags) { creation_complete = true })
    let w2 = set_discrete w1 (record discrete { number_of_connection_attempts = 0 })
    let w3 =
        set_params platform w2
          (record params { max_number_of_connection_attempts = int_of 0; sensor_chunk_id = 0 })
    elim coord.configuration_request [
      | some request ↦ some w3
      | none ↦
          let (memory, w4) = malloc w3 in
          let w5 = set_coordination w4 (record coord { configuration_request = memory }) in
          elim memory [
            | none ↦
                some (set_flags w5 (record (w5.activity.lcsm_flags) { creation_complete = false }))
            | some request ↦ some (write_flag platform w5 request false)
          ]
    ]

  unfoldable pub creation_coordinate : W platform → Option (W platform)
  unfolding update_super_state
  creation_coordinate w =
      if w.activity.lcsm_flags.creation_complete
      then some (update_super_state (set_state w resource_configuration))
      else some w

  -- The `switch` on the protocol.
  unfoldable pub resources_complete : W platform → Protocol → W platform
  resources_complete w initialisation = set_state w capability_configuration
  resources_complete w execution = set_state w running
  resources_complete w deinitialisation =
      let w' = set_state w done in
      set_flags w' (record (w'.activity.lcsm_flags) { deletion_complete = true })

  -- `*coord_state->deleting_request`, and what is done with it.
  unfoldable pub heed_deletion : W platform → Option (W platform)
  heed_deletion w = do
    coord ← w.activity.coordination_state
    request ← coord.deleting_request
    some (if w.flags request then set_protocol w deinitialisation else w)

  unfoldable pub resource_configuration_coordinate : W platform → Option (W platform)
  unfolding heed_deletion resources_complete update_super_state
  resource_configuration_coordinate w = do
    w1 ← heed_deletion w
    some (
        if w1.activity.lcsm_flags.resource_configuration_complete
        then update_super_state (resources_complete w1 w1.activity.lcsm_protocol)
        else if w1.activity.lcsm_flags.resource_configuration_failed
        then (let w2 = set_state w1 done in
            update_super_state
              (set_flags w2 (record (w2.activity.lcsm_flags) { deletion_complete = true })))
        else w1)

  -- `time_elapsed_since_last_connection_attempt`
  abbrev pub elapsed : Timespec → Timespec → Float
  elapsed now last = float_of (
      plus (of_difference now.tv_sec last.tv_sec)
        (times (literal "0.000000001") (of_difference now.tv_nsec last.tv_nsec)))

  unfoldable pub capability_configuration_communicate : W platform → Option (W platform)
  unfolding communicate_mode for_range
  capability_configuration_communicate w = for_wheels platform (communicate_mode platform) w

  -- The `switch` on the protocol.
  unfoldable pub capabilities_next : W platform → Protocol → W platform
  capabilities_next w initialisation = w
  capabilities_next w execution = set_state w running
  capabilities_next w deinitialisation = set_state w resource_configuration

  unfoldable pub capability_configuration_coordinate : W platform → Option (W platform)
  unfolding heed_deletion capabilities_next update_super_state
  capability_configuration_coordinate w = do
    coord ← w.activity.coordination_state
    request ← coord.execution_request
    w1 ← heed_deletion (if w.flags request then set_protocol w execution else w)
    some (update_super_state (capabilities_next w1 w1.activity.lcsm_protocol))

  unfoldable pub capability_configuration_compute : W platform → Option (W platform)
  unfolding compute_mode for_range
  capability_configuration_compute w = for_wheels platform (compute_mode platform) w

  -- The trace has the sensor data of the first drive.
  unfoldable pub log_sensor : W platform → Option (W platform)
  log_sensor w = do
    params ← w.activity.params
    d ← get_elem? params.drive 0
    guard (ltb params.sensor_chunk_id int_max)
    some (
        set_params platform
          (record w { trace = w.trace ++ (params.sensor_chunk_id, d.sensor) ∷ [] })
          (record params { sensor_chunk_id = params.sensor_chunk_id + 1 }))

  unfoldable pub running_communicate : W platform → Option (W platform)
  unfolding communicate_setpoint send_setpoint exchange_messages read_sensor share_sensor for_range
      log_sensor
  running_communicate w = do
    w1 ← for_wheels platform (communicate_setpoint platform) w
    w2 ← for_wheels platform (send_setpoint platform) w1
    w3 ← exchange_messages platform w2
    w4 ← for_wheels platform (read_sensor platform) w3
    w5 ← for_wheels platform (share_sensor platform) w4
    log_sensor w5

  -- A request for another mode is answered, one for the deletion has the last word.
  unfoldable pub running_coordinate : W platform → Option (W platform)
  unfolding update_super_state
  running_coordinate w = do
    coord ← w.activity.coordination_state
    request ← coord.configuration_request
    let w1 =
        (if w.flags request
          then write_flag platform (set_state w capability_configuration) request false
          else w)
    deletion ← coord.deleting_request
    let w2 =
        (if w1.flags deletion
          then set_state (set_protocol w1 deinitialisation) resource_configuration
          else w1)
    some (update_super_state w2)
