-- ===== src/Drive/Activity/Configuration.antt =====
-- The configuration file of the drive activity
-- (mobile_platform_drive/src/activity/kelo_drive_activity.c).
use ecs_private.Common.{List, [], ◌∷◌, Option, none, some, ltb, ◌>>◌, guard, String, characters}
use ecs_private.ReadFile.{
  int, float, double, char, Value, int_value, float_value, double_value, text_value, Status, Param,
  read_from_input_file,
}
use ecs_private.Drive.Activity.{Platform, DriveConfig, DriveParams, DriveLimits, WheelId, Params}

module _ (platform : Platform) where
  open platform use {numbers, cjson, int_read, double_read}
  open numbers use {Double, Float, Int, float_of}

  abbrev pub Written : Type 0
  Written = Value cjson.Int cjson.Double → Params platform → Option (Params platform)

  -- A write of a number into the configuration of the first drive.
  abbrev pub in_config : (DriveConfig Double → Double → DriveConfig Double) → Written
  in_config write (double_value v) p = elim p.drive [
    | [] ↦ none
    | d ∷ ds ↦ some (record p { drive = record d { config = write d.config (double_read v) } ∷ ds })
  ]
  in_config write _ p = none

  -- A write into the first member of `id`.
  abbrev pub in_id : (WheelId Int → WheelId Int) → Params platform → Option (Params platform)
  in_id write p = elim p.id [ [] ↦ none | i ∷ is ↦ some (record p { id = write i ∷ is }) ]

  abbrev pub to_port : Written
  to_port (text_value t) p = do guard (ltb (characters t) 20); some (record p { ifname = t })
  to_port _ p = none

  abbrev pub to_attempts : Written
  to_attempts (int_value v) p = some (record p { max_number_of_connection_attempts = int_read v })
  to_attempts _ p = none

  abbrev pub to_min_time : Written
  to_min_time (float_value v) p =
      some (record p { min_time_between_connection_attempts = float_of (double_read v) })
  to_min_time _ p = none

  abbrev pub to_name : Written
  to_name (text_value t) p = do guard (ltb (characters t) 50); in_id (λ i. record i { name = t }) p
  to_name _ p = none

  abbrev pub to_serial_number : Written
  to_serial_number (int_value v) p = in_id (λ i. record i { sw_serial_number = int_read v }) p
  to_serial_number _ p = none

  abbrev pub set_params :
      (DriveParams Double → DriveParams Double) → DriveConfig Double → DriveConfig Double
  set_params write c = record c { params = write c.params }

  abbrev pub set_limits :
      (DriveLimits Double → DriveLimits Double) → DriveConfig Double → DriveConfig Double
  set_limits write c = record c { limits = write c.limits }

  -- `param_array`, with the two parameters of the only wheel.
  abbrev pub param_array : List (Param cjson (Params platform))
  param_array =
      record { param_name = "kelo/port"; param_pointer = to_port; param_type = char }
      ∷ record {
        param_name = "kelo/max_number_of_connection_attempts";
        param_pointer = to_attempts;
        param_type = int;
      }
      ∷ record {
        param_name = "kelo/min_time_between_connection_attempts";
        param_pointer = to_min_time;
        param_type = float;
      }
      ∷ record {
        param_name = "kelo/config/params/pivot_offset";
        param_pointer = in_config (λ c v. set_params (λ q. record q { pivot_offset = v }) c);
        param_type = double;
      }
      ∷ record {
        param_name = "kelo/config/params/wheel_radius";
        param_pointer = in_config (λ c v. set_params (λ q. record q { wheel_radius = v }) c);
        param_type = double;
      }
      ∷ record {
        param_name = "kelo/config/params/wheel_track";
        param_pointer = in_config (λ c v. set_params (λ q. record q { wheel_track = v }) c);
        param_type = double;
      }
      ∷ record {
        param_name = "kelo/config/limits/max_wheel_velocity";
        param_pointer = in_config (λ c v. set_limits (λ q. record q { max_wheel_velocity = v }) c);
        param_type = double;
      }
      ∷ record {
        param_name = "kelo/config/limits/max_wheel_acceleration";
        param_pointer =
            in_config (λ c v. set_limits (λ q. record q { max_wheel_acceleration = v }) c);
        param_type = double;
      }
      ∷ record { param_name = "kelo/id/wheel_0/name"; param_pointer = to_name; param_type = char }
      ∷ record {
        param_name = "kelo/id/wheel_0/sw_serial_number";
        param_pointer = to_serial_number;
        param_type = int;
      }
      ∷ []

  -- The status that is not set is the one of the caller's variable.
  unfoldable pub configure_from_file :
      String → Status → Params platform → Option (Status × Params platform)
  configure_from_file file_path status p = read_from_input_file cjson file_path param_array status p
