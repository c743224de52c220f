-- ===== src/Drive/Sensor.antt =====
-- The sensor data of a wheel in the library's own structure, and their time
-- (mobile_platform_drive/src/kelo/kelo_soem.c).
use ecs_private.Common.{◌+◌, ◌*◌, ◌/◌, ◌%◌, ◌^◌, ◌<◌, ◌≡◌, arith}
use ecs_private.Drive.{Numbers, Motor, Axes, Txpdo, Encoder, Pair, DriveSensor}

module _ (numbers : Numbers) where
  open numbers use {Double, Float, double_of}

  abbrev pub axes_of : Axes Float → Axes Double
  axes_of a = record { x = double_of a.x; y = double_of a.y; z = double_of a.z }

  abbrev pub encoder_of : Float → Float → Encoder Double
  encoder_of position velocity = record {
    position = double_of position;
    velocity = double_of velocity;
  }

  -- Motor 1 drives the right wheel.
  abbrev pub pair_of : Txpdo Float → (Motor Float → Float) → Pair Float
  pair_of t member = record { right_wheel = member t.motor1; left_wheel = member t.motor2 }

  unfoldable pub txpdo1_to_differential_drive_sensor : Txpdo Float → DriveSensor Double Float
  txpdo1_to_differential_drive_sensor t = record {
    encoder = record {
      right_wheel = encoder_of t.motor1.encoder t.motor1.velocity;
      left_wheel = encoder_of t.motor2.encoder t.motor2.velocity;
    };
    pivot = encoder_of t.encoder_pivot t.velocity_pivot;
    accelerometer = axes_of t.accel;
    gyroscope = axes_of t.gyro;
    temperature = pair_of t (λ m. m.temperature);
    voltage_bus = t.voltage_bus;
    voltage_pwm = pair_of t (λ m. m.voltage);
    voltage_u = pair_of t (λ m. m.voltage_u);
    voltage_v = pair_of t (λ m. m.voltage_v);
    voltage_w = pair_of t (λ m. m.voltage_w);
    current_d = pair_of t (λ m. m.current_d);
    current_q = pair_of t (λ m. m.current_q);
    current_u = pair_of t (λ m. m.current_u);
    current_v = pair_of t (λ m. m.current_v);
    current_w = pair_of t (λ m. m.current_w);
    timestamp = record {
      seconds = t.sensor_ts / 1000000000;
      nanoseconds = t.sensor_ts % 1000000000;
    };
  }

  -- The time stamp of a message loses nothing: its seconds and nanoseconds make up the number of
  -- nanoseconds of the wheel, the nanoseconds are less than a second, and for a number of 64 bits
  -- the seconds fit into 35 bits.
  pub sensor_timestamp :
      (t : Txpdo Float)
      → t.sensor_ts < 2 ^ 64
      → let time = (txpdo1_to_differential_drive_sensor t).timestamp in
        (time.seconds * 1000000000 + time.nanoseconds ≡ t.sensor_ts)
        × (time.nanoseconds < 1000000000)
        × (time.seconds < 2 ^ 35)
  unfolding txpdo1_to_differential_drive_sensor
  sensor_timestamp t h = (omega arith, omega arith, omega (arith, h))
