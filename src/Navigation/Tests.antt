-- ===== src/Navigation/Tests.antt =====
-- The theorems on the navigation activity at a concrete world.
use ecs_private.Common.{
  ℕ, ◌≡◌, refl, [], ◌∷◌, Option, none, some, Bool, true, false, replicate, ltb, String, ◌*◌, str_eq,
  if◌then◌else◌,
}
use ecs_private.Common.HashMap.{pairs_map}
use ecs_private.Common.StringMap.{StringMap, assoc_map}
use ecs_private.Lcsm.{
  State, creation, resource_configuration, capability_configuration, pausing, running, cleaning,
  done,
}
use ecs_private.Lcsm.Refine.{machine}
use ecs_private.Schedule.{Schedule}
use ecs_private.Registration.{sid_eq, VariableEntry}
use ecs_private.Activity.{initialisation, LcsmFlags, Activity}
use ecs_private.Navigation.{
  Platform, Function, World, Params, Coordination, Drive, Actuation, navigation_types,
}
use ecs_private.Navigation.Behaviour.{command}
use ecs_private.Navigation.Lifecycle.{pass, navigation_configure_lcsm}
use ecs_private.Navigation.Slots.{
  is_active, schedule_of, config_schedule, Registered, Holds, installed, emptied, name_of,
}
use ecs_private.Navigation.Pass.{
  whole_schedule, rest_of_schedule, pass_schedule, pass_config, pass_config_last,
}
use ecs_private.Navigation.Invariant.{Consistent, configuring, pass-Consistent}
use ecs_private.Navigation.Start.{configure_lcsm_lem}
use ecs_private.Navigation.Steps.{passes}
use ecs_private.Navigation.Deletion.{Deleted, deletion_running}
use ecs_private.Navigation.Startup.{Prepared}
use ecs_private.Navigation.Reach.{startup_reaches_running}

-- Numbers of hundredths stand for `double`, enough for the test of the time.
abbrev literal : String → ℕ
literal text =
    if str_eq text "0.050"
    then 5
    else if str_eq text "10.0"
    then 1000
    else if str_eq text "0.5"
    then 50
    else 0

abbrev platform : Platform
platform = record {
  Double = ℕ;
  literal = literal;
  of_nat = λ n. n;
  times = λ m n. m * n;
  less = ltb;
  Config = Unit;
  Sensor = ℕ;
  variable_map = pairs_map sid_eq VariableEntry;
  schedule_map = assoc_map (Schedule Function);
}

abbrev stop_command : Actuation ℕ
stop_command = record {
  mode = 0;
  velocity = record { left_wheel = 0; right_wheel = 0 };
  current = record { left_wheel = 0; right_wheel = 0 };
}

abbrev some_drive : Drive ℕ Unit ℕ
some_drive = record { config = tt; sensor = 7; actuation = stop_command }

abbrev params : Option ℕ → Params ℕ Unit ℕ
params pointer = record {
  rt_drive = pointer;
  drive = some_drive;
  rt_odometry = none;
  rt_range_scan = none;
  rt_range_sensor = none;
  rt_platform = none;
  actuation_chunk_id = 0;
}

abbrev locks : Option ℕ → Coordination
locks lock = record {
  drive_lock = lock;
  odometry_lock = none;
  range_scan_lock = none;
  range_sensor_lock = none;
  platform_lock = none;
}

abbrev flags : LcsmFlags
flags = record {
  creation_complete = false;
  creation_failed = false;
  resource_configuration_complete = false;
  resource_configuration_failed = false;
  capability_configuration_complete = false;
  capability_configuration_failed = false;
  running_complete = false;
  deletion_complete = false;
  active = false;
  ready = false;
  deployment = false;
}

abbrev schedules : StringMap.Map (assoc_map (Schedule Function))
schedules =
    ("activity_config", config_schedule)
    ∷ ("creation", schedule_of creation)
    ∷ ("resource_configuration", schedule_of resource_configuration)
    ∷ ("capability_configuration", schedule_of capability_configuration)
    ∷ ("running", schedule_of running)
    ∷ []

find_schedules :
    (s : State)
    → is_active s ≡ true
    → StringMap.find (assoc_map (Schedule Function)) schedules (name_of s) ≡ some (schedule_of s)
find_schedules creation a = refl
find_schedules resource_configuration a = refl
find_schedules capability_configuration a = refl
find_schedules pausing a = cc
find_schedules running a = refl
find_schedules cleaning a = cc
find_schedules done a = cc

schedules-Registered : Registered platform schedules
schedules-Registered = record { find_config = refl; find_state = find_schedules }

-- A world in a state, with the schedule `c` in the eventloop.
abbrev world : State → Schedule Function → Bool → Option ℕ → World platform
world s c deleting pointer = record {
  activity = record {
    lcsm = record (machine creation []) { state = s };
    params = some (params pointer);
    discrete = some tt;
    continuous = some (record { iteration_count = 3 });
    coordination_state = some (locks pointer);
    lcsm_flags = flags;
    lcsm_protocol = initialisation;
    schedule_table = record {
      hash_map = schedules;
      eventloop_schedules = c ∷ c ∷ replicate 30 config_schedule;
      number_of_schedules = 5;
      number_of_eventloop_schedules = 1;
    };
    table = some tt;
  };
  drives = λ n. some_drive;
  variables =
      (
        record { model = "odometry"; meta_model = "odometry2d_t" },
        record { pointer = 50; mutex = 51; mutex_init = true },
      )
      ∷ (
        record { model = "kelo_drive"; meta_model = "differential_drive_t" },
        record { pointer = 40; mutex = 41; mutex_init = true },
      )
      ∷ [];
  execution_request = true;
  deleting_request = deleting;
  trace = [];
}

world-Holds :
    (s : State) (c : Schedule Function) (deleting : Bool) (pointer : Option ℕ)
    → Holds platform c (world s c deleting pointer)
world-Holds s c deleting pointer = record {
  hash_map = schedules;
  number = 5;
  dead = c;
  rest = replicate 30 config_schedule;
  registered = schedules-Registered;
  rest_length = refl;
  same = refl;
}

-- A running activity; one in creation that was just configured; one that is done.
abbrev in_running : World platform
in_running = world running (schedule_of running) true (some 40)

abbrev in_creation : World platform
in_creation = world creation config_schedule false none

abbrev in_done : World platform
in_done = world done config_schedule true (some 40)

pass_schedule_example : pass platform in_running ≡ whole_schedule platform running in_running
pass_schedule_example =
    pass_schedule platform running in_running refl
      (world-Holds running (schedule_of running) true (some 40))

pass_config_example :
    pass platform in_creation
    ≡ rest_of_schedule platform creation
        (installed platform in_creation (world-Holds creation config_schedule false none))
pass_config_example =
    pass_config platform in_creation (world-Holds creation config_schedule false none) refl

pass-Consistent_example :
    Consistent platform (emptied platform in_done (world-Holds done config_schedule true (some 40)))
pass-Consistent_example =
    pass-Consistent platform in_done
      (emptied platform in_done (world-Holds done config_schedule true (some 40)))
      (configuring (world-Holds done config_schedule true (some 40)))
      (pass_config_last platform in_done (world-Holds done config_schedule true (some 40)) refl)

-- An activity that has its memory, and nothing registered.
abbrev unconfigured : World platform
unconfigured = record in_creation {
  activity = record (in_creation.activity) {
    schedule_table = record {
      hash_map = [];
      eventloop_schedules = replicate 32 config_schedule;
      number_of_schedules = 9;
      number_of_eventloop_schedules = 9;
    };
  };
}

configure_lcsm_lem_example :
    (activity : Activity (navigation_types platform)) × (navigation_configure_lcsm platform
        unconfigured.activity
      ≡ some activity)
    × (activity.lcsm ≡ machine creation [])
    × (activity.lcsm_protocol ≡ initialisation)
    × Holds platform config_schedule (record unconfigured { activity = activity })
configure_lcsm_lem_example =
    configure_lcsm_lem platform unconfigured 9 9 config_schedule config_schedule
      (replicate 30 config_schedule) refl refl

deletion_running_example :
    (w' : World platform) × (passes platform 3 in_running ≡ some w')
    × Deleted platform in_running w'
deletion_running_example =
    deletion_running platform in_running (params (some 40)) (locks (some 40)) 40 40
      (world-Holds running (schedule_of running) true (some 40)) refl refl refl refl refl refl

abbrev in_capability : World platform
in_capability = world capability_configuration (schedule_of capability_configuration) true none

in_creation-Prepared : Prepared platform in_creation
in_creation-Prepared = record {
  params = params none;
  continuous = record { iteration_count = 3 };
  coordination = locks none;
  drive_entry = record { pointer = 40; mutex = 41; mutex_init = true };
  odometry_entry = record { pointer = 50; mutex = 51; mutex_init = true };
  params_at = refl;
  continuous_at = refl;
  coordination_at = refl;
  table_at = refl;
  no_drive = refl;
  no_odometry = refl;
  execution_requested = refl;
  deleting_not_requested = refl;
  drive_found = refl;
  odometry_found = refl;
}

startup_reaches_running_example :
    (w' : World platform) × (passes platform 6 in_creation ≡ some w')
    × Holds platform (schedule_of running) w'
    × (w'.activity.lcsm.state ≡ running)
    × ((w'.drives in_creation-Prepared.drive_entry.pointer).actuation ≡ command platform)
startup_reaches_running_example =
    startup_reaches_running platform in_creation in_creation-Prepared
      (world-Holds creation config_schedule false none) refl refl refl refl refl
