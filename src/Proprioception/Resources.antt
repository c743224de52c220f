-- ===== src/Proprioception/Resources.antt =====
-- The configuration of the resources of the proprioception: the parameters from a file, and the shared
-- variables (mobile_platform_proprioception/src/activity/activity.c).
use ecs_private.Common.{
  ℕ, List, [], ◌∷◌, Option, none, some, Bool, true, false, ◌==◌, if◌then◌else◌, ◌>>=◌, String,
}
use ecs_private.Registration.{
  HashResult, entry_added, used_by, get_variable_in_table, register_and_get_variable_in_table,
}
use ecs_private.ReadFile.{
  Status, succeeded, failed, Value, double_value, Param, double, read_from_input_file,
}
use ecs_private.Navigation.Behaviour.{not_found}
use ecs_private.Proprioception.{Setting, Pose, Tricycle, Params, Continuous, Coordination}
use ecs_private.Proprioception.Behaviour.{
  W, set_params, set_coordination, set_continuous, set_resource_complete, no_motion,
}

module _ (setting : Setting) where
  open setting use {reals, cjson, double_read, unset, variable_map}
  open reals use {Double, literal}

  abbrev pub Written : Type 0
  Written = Value cjson.Int cjson.Double → Params setting → Option (Params setting)

  -- Pointers into the parameters.
  abbrev pub to_tolerance : Written
  to_tolerance (double_value v) p = some (record p { sampling_time_tolerance = double_read v })
  to_tolerance _ p = none

  abbrev pub to_platform : (Double → Tricycle Double → Tricycle Double) → Written
  to_platform write (double_value v) p =
      some (record p { platform = write (double_read v) p.platform })
  to_platform write _ p = none

  abbrev pub to_wheel : (Double → Pose Double → Pose Double) → Written
  to_wheel write = to_platform (λ v t. record t { wheel = write v t.wheel })

  abbrev pub param_array : List (Param cjson (Params setting))
  param_array =
      record {
        param_name = "sampling_time_tolerance";
        param_pointer = to_tolerance;
        param_type = double;
      }
      ∷ record {
        param_name = "platform/wheel/pose/x";
        param_pointer = to_wheel (λ v q. record q { x = v });
        param_type = double;
      }
      ∷ record {
        param_name = "platform/wheel/pose/y";
        param_pointer = to_wheel (λ v q. record q { y = v });
        param_type = double;
      }
      ∷ record {
        param_name = "platform/wheel/pose/yaw";
        param_pointer = to_wheel (λ v q. record q { yaw = v });
        param_type = double;
      }
      ∷ record {
        param_name = "platform/length";
        param_pointer = to_platform (λ v t. record t { length = v });
        param_type = double;
      }
      ∷ record {
        param_name = "platform/width";
        param_pointer = to_platform (λ v t. record t { width = v });
        param_type = double;
      }
      ∷ []

  unfoldable pub load_configuration_file :
      String → Params setting → Option (Status × Params setting)
  load_configuration_file path_to_file p =
      read_from_input_file cjson path_to_file param_array unset p

  -- The block that asks for the drive.
  unfoldable pub get_drive : W setting → Option (W setting)
  unfolding not_found
  get_drive w = do
    params ← w.activity.params
    coordination ← w.activity.coordination_state
    elim params.rt_drive [
      | some p ↦ some w
      | none ↦ do
        table ← w.activity.table
        (result, pointer, mutex) ←
            get_variable_in_table variable_map w.variables "kelo_drive" "differential_drive_t"
              params.rt_drive coordination.drive_lock
        let w1 = set_params setting w (record params { rt_drive = pointer })
        let w2 = set_coordination setting w1 (record coordination { drive_lock = mutex })
        some (if not_found result then set_resource_complete setting w2 false else w2)
    ]

  -- `malloc`
  abbrev pub next_malloc : List (Option ℕ) → Option ℕ × List (Option ℕ)
  next_malloc [] = (none, [])
  next_malloc (p ∷ ps) = (p, ps)

  -- `REGISTER_AND_GET_VARIABLE_IN_TABLE`
  unfoldable pub register_and_get :
      W setting
      → String
      → String
      → Option ℕ
      → Option ℕ
      → Option ((HashResult × (Option ℕ × Option ℕ)) × W setting)
  register_and_get w name datatype pointer mutex =
      let (entry, left) = next_malloc w.mallocs in
      let (object, left') = next_malloc left in
      do
        ((result, variables), pointers) ←
            register_and_get_variable_in_table variable_map entry object w.variables name datatype
              pointer mutex
        let used = used_by result entry
        let mallocs = if used == 0 then w.mallocs else if used == 1 then left else left'
        some ((result, pointers), record w { variables = variables; mallocs = mallocs })

  unfoldable pub was_added : HashResult → Bool
  was_added entry_added = true
  was_added _ = false

  -- The block that registers the platform.
  unfoldable pub get_platform : W setting → Option (W setting)
  unfolding was_added
  get_platform w = do
    params ← w.activity.params
    coordination ← w.activity.coordination_state
    elim params.rt_platform [
      | some p ↦ some w
      | none ↦ do
        table ← w.activity.table
        ((result, (pointer, mutex)), w1) ←
            register_and_get w "platform" "delta_tricycle_t" params.rt_platform
              coordination.platform_lock
        let w2 = set_params setting w1 (record params { rt_platform = pointer })
        let w3 = set_coordination setting w2 (record coordination { platform_lock = mutex })
        (if was_added result
            then (do
              a ← pointer
              some (record w3 {
                tricycles = λ b. if a == b then params.platform else w3.tricycles b;
              }))
            else some (set_resource_complete setting w3 false))
    ]

  -- What follows the registration of the odometry.
  unfoldable pub odometry_registered :
      Params setting
      → Coordination setting
      → Continuous setting
      → (HashResult × (Option ℕ × Option ℕ)) × W setting
      → Option (W setting)
  unfolding was_added
  odometry_registered params coordination continuous ((result, (pointer, mutex)), w1) =
      let w2 = set_params setting w1 (record params { rt_odometry = pointer }) in
      let w3 = set_coordination setting w2 (record coordination { odometry_lock = mutex }) in
      let w4 = set_continuous setting w3 (record continuous { odometry = no_motion setting }) in
      if was_added result
      then (do
        a ← pointer
        some
            (record w4 { odometries = λ b. if a == b then no_motion setting else w4.odometries b }))
      else some (set_resource_complete setting w3 false)

  -- The block that registers the odometry.
  unfoldable pub get_odometry : W setting → Option (W setting)
  unfolding odometry_registered
  get_odometry w = do
    params ← w.activity.params
    coordination ← w.activity.coordination_state
    continuous ← w.activity.continuous
    elim params.rt_odometry [
      | some p ↦ some w
      | none ↦ do
        table ← w.activity.table
        registered ←
            register_and_get w "odometry" "odometry2d_t" params.rt_odometry
              coordination.odometry_lock
        odometry_registered params coordination continuous registered
    ]

  -- What is done when the parameters were read.
  unfoldable pub get_variables : W setting → Option (W setting)
  unfolding get_drive get_platform get_odometry
  get_variables w = do
    w1 ← get_drive (set_resource_complete setting w true)
    w2 ← get_platform w1
    get_odometry w2

  -- `continuous_state->odometry.pose.yaw = 0`
  unfoldable pub clear_yaw : W setting → Option (W setting)
  clear_yaw w = do
    continuous ← w.activity.continuous
    let odometry = continuous.odometry
    some (
        set_continuous setting w (record continuous {
          odometry = record odometry { pose = record (odometry.pose) { yaw = literal "0" } };
        }))

  abbrev pub when_read : Status → W setting → Option (W setting)
  when_read failed w = some w
  when_read succeeded w = get_variables w

  unfoldable pub resource_configuration_compute : W setting → Option (W setting)
  unfolding load_configuration_file get_variables clear_yaw
  resource_configuration_compute w = do
    params ← w.activity.params
    (status, params') ← load_configuration_file params.configuration_file params
    w1 ← when_read status (set_params setting w params')
    clear_yaw w1
