-- ===== src/Drive/Activity/Connection.antt =====
-- The connection of the drive activity to its wheels, and the registration of the wheels
-- (mobile_platform_drive/src/activity/kelo_drive_activity.c).
use ecs_private.Common.{
  ℕ, zero, suc, ◌+◌, List, [], ◌∷◌, Option, none, some, Bool, true, false, ltb, ◌==◌, if◌then◌else◌,
  ◌>>=◌, ◌>>◌, guard, get_elem?, set, String,
}
use ecs_private.Registration.{used_by, register_variable_in_table, get_variable_in_table}
use ecs_private.Activity.{initialisation, execution, deinitialisation}
use ecs_private.ReadFile.{failed}
use ecs_private.Navigation.{command_mode_velocity}
use ecs_private.Navigation.Behaviour.{int_max, not_found}
use ecs_private.Drive.{Soem, SoemState}
use ecs_private.Drive.Ethercat.{initialise_ethercat_master}
use ecs_private.Drive.Activity.{
  Platform, WheelId, KeloDrive, Params, Continuous, DiscreteState, for_range,
}
use ecs_private.Drive.Activity.Configuration.{configure_from_file}
use ecs_private.Drive.Activity.Wheels.{
  W, set_params, set_soem_state, write_drive, no_wheels, for_wheels, reset_message, reset_drive,
}
use ecs_private.Drive.Activity.Behaviour.{set_discrete, set_coordination, set_flags, malloc}

module _ (platform : Platform) where
  open platform use {numbers, soem, variable_map}
  open numbers use {
    Double, Float, Int, literal, float_of, of_difference, plus, times, less, int_of, int_eq, int_le,
  }

  -- The loop that looks for the name of a wheel by its serial number.
  unfoldable pub find_name : List (WheelId Int) → Int → Option String
  find_name [] number = none
  find_name (i ∷ is) number =
      let rest = find_name is number in
      if int_eq number i.sw_serial_number then some i.name else rest

  -- `REGISTER_VARIABLE_IN_TABLE`
  unfoldable pub register_drive : W platform → String → Option (W platform)
  unfolding malloc
  register_drive w name =
      let (entry, w1) = malloc platform w in
      let (object, w2) = malloc platform w1 in
      do
        (result, variables) ←
            register_variable_in_table variable_map entry object w.variables name
              "differential_drive_t"
        let used = used_by result entry
        let mallocs = if used == 0 then w.mallocs else if used == 1 then w1.mallocs else w2.mallocs
        some (record w { variables = variables; mallocs = mallocs })

  -- What other activities find in the drive: the configuration, and no motion.
  unfoldable pub initialise_shared : KeloDrive platform → KeloDrive platform → KeloDrive platform
  initialise_shared d shared = record shared {
    config = d.config;
    actuation = record (shared.actuation) {
      mode = command_mode_velocity;
      velocity = no_wheels platform;
      current = no_wheels platform;
    };
  }

  -- The loop that registers the wheels, from index `i`. A wheel with an unknown number, or one that is
  -- not found, ends the whole function.
  unfoldable pub register_loop : ℕ → ℕ → W platform → Option (Bool × W platform)
  unfolding find_name register_drive initialise_shared not_found
  register_loop zero i w = some (true, w)
  register_loop (suc rounds) i w = do
    params ← w.activity.params
    coord ← w.activity.coordination_state
    c ← w.activity.continuous
    number ← get_elem? c.kelo_soem_state.sw_serial_number i
    elim (find_name params.id number) [
      | none ↦ some (false, w)
      | some name ↦ do
        w1 ← register_drive w name
        old ← get_elem? params.rt_drive i
        old_lock ← get_elem? coord.drive_lock i
        (result, pointer, mutex) ←
            get_variable_in_table variable_map w1.variables name "differential_drive_t" old old_lock
        let w2 = set_params platform w1 (record params { rt_drive = set params.rt_drive i pointer })
        let w3 =
            set_coordination platform w2
              (record coord { drive_lock = set coord.drive_lock i mutex })
        (if not_found result then some (false, w3) else (do
          a ← pointer
          d ← get_elem? params.drive i
          register_loop rounds (i + 1)
              (write_drive platform w3 a (initialise_shared d (w3.drives a)))))
    ]

  abbrev pub set_resource_complete : W platform → Bool → W platform
  set_resource_complete w b =
      set_flags platform w (record (w.activity.lcsm_flags) { resource_configuration_complete = b })

  -- The case of a connection.
  unfoldable pub connected : W platform → Option (W platform)
  unfolding reset_message reset_drive register_loop for_range
  connected w = do
    w1 ← for_wheels platform (reset_message platform) w
    w2 ← for_wheels platform (reset_drive platform) w1
    c ← w2.activity.continuous
    (registered, w3) ← register_loop c.kelo_soem_state.nb_smart_wheel_detected 0 w2
    some (if registered then set_resource_complete w3 true else w3)

  -- What follows an attempt: no more attempts are made when there were enough.
  unfoldable pub after_attempt : Bool → Bool → W platform → Option (W platform)
  unfolding connected
  after_attempt result enough w =
      let success = connected w in
      if result
      then success
      else if enough
      then some (
          set_flags platform w
            (record (w.activity.lcsm_flags) { resource_configuration_failed = true }))
      else some w

  -- What an attempt leaves in the memory of the activity.
  abbrev pub attempted :
      Continuous platform
      → DiscreteState platform
      → W platform
      → Bool × SoemState Int × Soem.E soem
      → W platform
  attempted continuous discrete w (result, s, e) =
      set_discrete platform
        (set_soem_state platform (record w { ethercat = e })
          (record continuous { clocktime_at_last_connection_attempt = w.clocktime }) s)
        (record discrete {
          number_of_connection_attempts = discrete.number_of_connection_attempts + 1;
          ethercat_master_connected = result;
        })

  -- `number_of_connection_attempts >= max_number_of_connection_attempts`, after the attempt
  abbrev pub enough_attempts : Params platform → DiscreteState platform → Bool
  enough_attempts params discrete =
      int_le params.max_number_of_connection_attempts
        (int_of (discrete.number_of_connection_attempts + 1))

  -- An attempt, with the parameters that were read.
  unfoldable pub attempt :
      Params platform
      → Continuous platform
      → DiscreteState platform
      → W platform
      → Option (W platform)
  unfolding initialise_ethercat_master after_attempt
  attempt params continuous discrete w = do
    r ← initialise_ethercat_master soem params.ifname continuous.kelo_soem_state w.ethercat
    after_attempt r.0 (enough_attempts params discrete) (attempted continuous discrete w r)

  -- The case of the initialisation.
  unfoldable pub attempt_connection : W platform → Option (W platform)
  unfolding configure_from_file attempt
  attempt_connection w = do
    params ← w.activity.params
    continuous ← w.activity.continuous
    discrete ← w.activity.discrete
    (status, params') ← configure_from_file platform params.configuration_file failed params
    guard (ltb discrete.number_of_connection_attempts int_max)
    attempt params' continuous discrete (set_params platform w params')

  -- The protocol of the execution has no case.
  unfoldable pub resource_configuration_compute : W platform → Option (W platform)
  unfolding attempt_connection
  resource_configuration_compute w = elim w.activity.lcsm_protocol [
    | initialisation ↦ attempt_connection w
    | execution ↦ some w
    | deinitialisation ↦ some (set_resource_complete w true)
  ]
