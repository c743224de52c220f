-- ===== src/Drive/Activity/Tests.antt =====
-- The theorems on the drive activity at a concrete activity with one wheel.
use ecs_private.Common.{
  ℕ, ◌≡◌, refl, [], ◌∷◌, none, some, true, false, String, replicate, ◌>>=◌, subst, eq_of_some,
  none-ne-some,
}
use ecs_private.Common.HashMap.{pairs_map}
use ecs_private.Common.StringMap.{StringMap, assoc_map}
use ecs_private.Lcsm.{
  State, creation, resource_configuration, capability_configuration, pausing, running, cleaning,
  done, init_lcsm,
}
use ecs_private.Schedule.{
  Schedule, new_schedule, do_schedule_eventloop, execute_schedule, execute_named_function,
  remove_schedule_from_eventloop, add_schedule_to_eventloop,
}
use ecs_private.Schedule.Single.{single_schedule}
use ecs_private.Drive.Activity.Exchanges.{main_of}
use ecs_private.Registration.{sid_eq, VariableEntry}
use ecs_private.Activity.{LcsmFlags, execution, Activity, do_activity}
use ecs_private.Activity.Exchange.{
  SingleActivity, config_table, Holds, Consistent, configuring, config_schedule,
}
use ecs_private.Activity.Exchange.Pass.{start, pass, other}
use ecs_private.ReadFile.{Cjson}
use ecs_private.Drive.Sensor.{txpdo1_to_differential_drive_sensor}
use ecs_private.Drive.Tests.{numbers, soem, memory, detected, reading}
use ecs_private.Drive.Activity.{
  Platform, Function, Params, Continuous, Coordination, KeloDrive, World, types,
  kelo_activity_config, kelo_activity_creation, kelo_activity_resource_configuration,
  kelo_activity_capability_configuration, kelo_activity_running,
}
use ecs_private.Drive.Activity.Wheels.{for_wheels, communicate_setpoint, send_setpoint}
use ecs_private.Drive.Activity.Lifecycle.{
  Table, configure_lcsm, schedule_name, activity_config, call,
}
use ecs_private.Drive.Activity.Commands.{OneWheel, commands_lem}
use ecs_private.Drive.Activity.Invariant.{
  drive_activity, drive_passes-Consistent, configured_activity, drive_configure_lem,
}

abbrev no_document : Cjson
no_document = record {
  Node = ℕ;
  Int = ℕ;
  Double = ℕ;
  file = λ name. none;
  parse = λ text. none;
  item = λ n name. none;
  valueint = λ n. n;
  valuedouble = λ n. n;
  valuestring = λ n. none;
}

abbrev platform : Platform
platform = record {
  numbers = numbers;
  soem = soem;
  cjson = no_document;
  int_read = λ n. n;
  double_read = λ d. d;
  variable_map = pairs_map sid_eq VariableEntry;
  schedule_map = assoc_map (Schedule Function);
}

-- A drive whose wheels turn with a velocity.
abbrev drive : ℕ → ℕ → KeloDrive platform
drive mode velocity = record {
  config = record {
    params = record { wheel_radius = 1; wheel_track = 2; pivot_offset = 0 };
    limits = record { max_wheel_velocity = 9; max_wheel_acceleration = 9 };
  };
  sensor = txpdo1_to_differential_drive_sensor numbers reading;
  actuation = record {
    mode = mode;
    velocity = record { left_wheel = velocity; right_wheel = velocity };
    current = record { left_wheel = 0; right_wheel = 0 };
  };
}

abbrev params : Params platform
params = record {
  configuration_file = "drive.json";
  max_number_of_connection_attempts = 3;
  min_time_between_connection_attempts = 1;
  ifname = "eth0";
  rt_drive = some 40 ∷ [];
  drive = drive 8 0 ∷ [];
  id = record { name = "kelo_drive"; sw_serial_number = 5 } ∷ [];
  sensor_chunk_id = 0;
}

abbrev coordination : Coordination platform
coordination = record {
  execution_request = some 1;
  deleting_request = some 2;
  configuration_request = some 3;
  drive_lock = some 50 ∷ [];
}

abbrev continuous : Continuous platform
continuous = record {
  clocktime_at_last_connection_attempt = record { tv_sec = 0; tv_nsec = 0 };
  kelo_soem_state = record (detected 1) { cmd_data_smart_wheel = some 20 ∷ [] };
}

abbrev flags : LcsmFlags
flags = record {
  creation_complete = true;
  creation_failed = false;
  resource_configuration_complete = false;
  resource_configuration_failed = false;
  capability_configuration_complete = false;
  capability_configuration_failed = false;
  running_complete = false;
  deletion_complete = false;
  active = true;
  ready = true;
  deployment = false;
}

abbrev activity : Activity (types platform)
activity = record {
  lcsm = record init_lcsm { state = running };
  params = some params;
  discrete = some (record { ethercat_master_connected = true; number_of_connection_attempts = 1 });
  continuous = some continuous;
  coordination_state = some coordination;
  lcsm_flags = flags;
  lcsm_protocol = execution;
  schedule_table = record {
    hash_map = [];
    eventloop_schedules = replicate 32 new_schedule;
    number_of_schedules = 0;
    number_of_eventloop_schedules = 0;
  };
  table = some tt;
}

-- The shared drive asks for a mode and a velocity of 7.
abbrev asks_for : ℕ → World platform
asks_for mode = record {
  activity = activity;
  ethercat = memory;
  clocktime = record { tv_sec = 5; tv_nsec = 0 };
  drives = λ a. drive mode 7;
  variables = [];
  flags = λ a. false;
  mallocs = [];
  trace = [];
}

abbrev one_wheel : (mode : ℕ) → OneWheel platform (asks_for mode)
one_wheel mode = record {
  params = params;
  continuous = continuous;
  coordination = coordination;
  drive = drive 8 0;
  shared = 40;
  lock = 50;
  request = 3;
  message = 20;
  params_at = refl;
  continuous_at = refl;
  coordination_at = refl;
}

-- The torque mode is asked for, and the wheel is in the velocity mode.
commands_lem_example :
    (w' : World platform) × ((for_wheels platform (communicate_setpoint platform) (asks_for 0)
        >>= for_wheels platform (send_setpoint platform))
      ≡ some w')
    × ((w'.ethercat 20).setpoint1 ≡ 0)
    × ((w'.ethercat 20).setpoint2 ≡ 0)
    × (w'.flags 3 ≡ true)
commands_lem_example = commands_lem platform (asks_for 0) (one_wheel 0)

nothing_registered :
    (j : String) → StringMap.find platform.schedule_map activity.schedule_table.hash_map j ≡ none
nothing_registered j = refl

drive_configure_lem_example :
    (t : Table platform) × (configure_lcsm platform activity
      ≡ some (configured_activity platform activity params coordination t))
    × Holds platform.schedule_map
        (drive_activity platform)
        (config_schedule platform.schedule_map (drive_activity platform))
        t
drive_configure_lem_example =
    drive_configure_lem platform activity params coordination new_schedule new_schedule
      (replicate 30 new_schedule) refl refl refl refl nothing_registered

-- The same activity with all its schedules, in its first state, with `c` in the eventloop.
abbrev in_creation : Schedule Function → World platform
in_creation c = record (asks_for 8) {
  activity = record activity {
    lcsm = init_lcsm;
    schedule_table = record {
      hash_map =
          ("running", single_schedule "running" kelo_activity_running)
          ∷ (
            "capability_configuration",
            single_schedule "capability_configuration" kelo_activity_capability_configuration,
          )
          ∷ (
            "resource_configuration",
            single_schedule "resource_configuration" kelo_activity_resource_configuration,
          )
          ∷ ("creation", single_schedule "creation" kelo_activity_creation)
          ∷ ("activity_config", single_schedule "activity_config" kelo_activity_config)
          ∷ [];
      eventloop_schedules = c ∷ replicate 31 new_schedule;
      number_of_schedules = 5;
      number_of_eventloop_schedules = 1;
    };
  };
}

abbrev Found : State → String → Type 0
Found s name =
    StringMap.find platform.schedule_map (in_creation new_schedule).activity.schedule_table.hash_map
      name
    ≡ some (single_schedule name (main_of s))

lookup_by_name : (s : State) (name : String) → schedule_name s ≡ some name → Found s name
unfolding schedule_name
lookup_by_name creation name n = subst (Found creation) (eq_of_some n) refl
lookup_by_name resource_configuration name n =
    subst (Found resource_configuration) (eq_of_some n) refl
lookup_by_name capability_configuration name n =
    subst (Found capability_configuration) (eq_of_some n) refl
lookup_by_name running name n = subst (Found running) (eq_of_some n) refl
lookup_by_name pausing name n = absurd (none-ne-some n)
lookup_by_name cleaning name n = absurd (none-ne-some n)
lookup_by_name done name n = absurd (none-ne-some n)

abbrev configuring_world : World platform
configuring_world = in_creation (single_schedule "activity_config" kelo_activity_config)

abbrev created_world : World platform
created_world = in_creation (single_schedule "creation" kelo_activity_creation)

configuring_world-Consistent :
    Consistent platform.schedule_map (drive_activity platform) configuring_world
configuring_world-Consistent = configuring (record {
  hash_map = configuring_world.activity.schedule_table.hash_map;
  number = 5;
  dead = new_schedule;
  rest = replicate 30 new_schedule;
  registered = record { find_config = refl; find_state = lookup_by_name };
  rest_length = refl;
  same = refl;
})

-- Another activity requests something, the clock goes on, and the shared drives change.
abbrev later_world : World platform
later_world = record created_world {
  clocktime = record { tv_sec = 6; tv_nsec = 0 };
  drives = λ a. drive 0 3;
  flags = λ a. true;
}

one_pass :
    do_activity (call platform) (SingleActivity.table (drive_activity platform)) configuring_world
    ≡ some created_world
unfolding do_activity do_schedule_eventloop call activity_config config_table schedule_name
    execute_schedule execute_named_function remove_schedule_from_eventloop add_schedule_to_eventloop
    init_lcsm
one_pass = refl

drive_passes-Consistent_example :
    Consistent platform.schedule_map (drive_activity platform) later_world
drive_passes-Consistent_example =
    drive_passes-Consistent platform configuring_world later_world configuring_world-Consistent
      (other (pass start one_pass) (refl, refl))
