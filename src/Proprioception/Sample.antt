-- ===== src/Proprioception/Sample.antt =====
-- A concrete activity of the proprioception, at which its theorems are tried
-- (mobile_platform_proprioception).
use ecs_private.Common.{ℕ, [], ◌∷◌, none, some, false, replicate}
use ecs_private.Common.HashMap.{pairs_map}
use ecs_private.Common.StringMap.{assoc_map}
use ecs_private.Lcsm.{State, init_lcsm}
use ecs_private.Schedule.{Schedule, new_schedule}
use ecs_private.Schedule.Single.{single_schedule}
use ecs_private.Registration.{sid_eq, VariableEntry}
use ecs_private.Activity.{LcsmFlags, initialisation, Activity}
use ecs_private.ReadFile.{Cjson, failed}
use ecs_private.MathRob.Tests.{naturals}
use ecs_private.Drive.{Axes}
use ecs_private.Proprioception.{
  Setting, Function, Params, Continuous, Coordination, KeloDrive, Odometry, Tricycle, World, types,
  proprioception_config, proprioception_resource_configuration, proprioception_pausing,
  proprioception_running,
}

-- A document that has every parameter, with the value 7.
abbrev pub document : Cjson
document = record {
  Node = ℕ;
  Int = ℕ;
  Double = ℕ;
  file = λ name. some "{}";
  parse = λ text. some 7;
  item = λ n name. some n;
  valueint = λ n. n;
  valuedouble = λ n. n;
  valuestring = λ n. none;
}

abbrev pub setting : Setting
setting = record {
  reals = naturals;
  Float = ℕ;
  cjson = document;
  double_read = λ d. d;
  unset = failed;
  variable_map = pairs_map sid_eq VariableEntry;
  schedule_map = assoc_map (Schedule Function);
}

abbrev pub axes : Axes ℕ
axes = record { x = 0; y = 0; z = 0 }

abbrev pub drive : ℕ → KeloDrive setting
drive nanoseconds = record {
  config = record {
    params = record { wheel_radius = 1; wheel_track = 2; pivot_offset = 0 };
    limits = record { max_wheel_velocity = 9; max_wheel_acceleration = 9 };
  };
  sensor = record {
    timestamp = record { seconds = 0; nanoseconds = nanoseconds };
    accelerometer = axes;
    gyroscope = axes;
    encoder = record {
      left_wheel = record { position = 1; velocity = 5 };
      right_wheel = record { position = 1; velocity = 3 };
    };
    pivot = record { position = 1; velocity = 0 };
    temperature = record { left_wheel = 0; right_wheel = 0 };
    voltage_pwm = record { left_wheel = 0; right_wheel = 0 };
    voltage_u = record { left_wheel = 0; right_wheel = 0 };
    voltage_v = record { left_wheel = 0; right_wheel = 0 };
    voltage_w = record { left_wheel = 0; right_wheel = 0 };
    voltage_bus = 0;
    current_d = record { left_wheel = 0; right_wheel = 0 };
    current_q = record { left_wheel = 0; right_wheel = 0 };
    current_u = record { left_wheel = 0; right_wheel = 0 };
    current_v = record { left_wheel = 0; right_wheel = 0 };
    current_w = record { left_wheel = 0; right_wheel = 0 };
  };
  actuation = record {
    mode = 8;
    velocity = record { left_wheel = 0; right_wheel = 0 };
    current = record { left_wheel = 0; right_wheel = 0 };
  };
}

abbrev pub tricycle : Tricycle ℕ
tricycle = record { wheel = record { x = 7; y = 7; yaw = 7 }; width = 7; length = 7 }

abbrev pub at_rest : Odometry ℕ
at_rest = record {
  pose = record { x = 0; y = 0; yaw = 0 };
  velocity = record { vx = 0; vy = 0; w = 0 };
}

abbrev pub flags : LcsmFlags
flags = record {
  creation_complete = false;
  creation_failed = false;
  resource_configuration_complete = false;
  resource_configuration_failed = false;
  capability_configuration_complete = false;
  capability_configuration_failed = false;
  running_complete = false;
  deletion_complete = false;
  active = false;
  ready = false;
  deployment = false;
}

abbrev pub params : Params setting
params = record {
  configuration_file = "platform.json";
  rt_drive = some 30;
  drive = drive 0;
  rt_platform = none;
  platform = tricycle;
  rt_odometry = some 50;
  sampling_time_tolerance = 7;
}

abbrev pub coordination : Coordination setting
coordination = record {
  execution_request = some 1;
  deleting_request = some 2;
  drive_lock = none;
  odometry_lock = none;
  platform_lock = none;
}

abbrev pub continuous : Continuous setting
continuous = record {
  odometry = at_rest;
  previous_timestamp = record { seconds = 0; nanoseconds = 0 };
}

-- The activity in a state, with `c` in the eventloop.
abbrev pub activity_in : State → Params setting → Schedule Function → Activity (types setting)
activity_in state p c = record {
  lcsm = record init_lcsm { state = state };
  params = some p;
  discrete = some tt;
  continuous = some continuous;
  coordination_state = some coordination;
  lcsm_flags = flags;
  lcsm_protocol = initialisation;
  schedule_table = record {
    hash_map =
        ("running", single_schedule "running" proprioception_running)
        ∷ ("pausing", single_schedule "pausing" proprioception_pausing)
        ∷ (
          "resource_configuration",
          single_schedule "resource_configuration" proprioception_resource_configuration,
        )
        ∷ ("activity_config", single_schedule "activity_config" proprioception_config)
        ∷ [];
    eventloop_schedules = c ∷ replicate 31 new_schedule;
    number_of_schedules = 4;
    number_of_eventloop_schedules = 1;
  };
  table = some tt;
}

abbrev pub world_of : Activity (types setting) → World setting
world_of activity = record {
  activity = activity;
  drives = λ a. drive 5000000;
  tricycles = λ a. tricycle;
  odometries = λ a. at_rest;
  variables =
      (
        record { model = "platform"; meta_model = "delta_tricycle_t" },
        record { pointer = 40; mutex = 41; mutex_init = false },
      )
      ∷ [];
  flags = λ a. false;
  mallocs = [];
}
