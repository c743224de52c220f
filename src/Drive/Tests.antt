-- ===== src/Drive/Tests.antt =====
-- The theorems on the connection to the wheels at a concrete network.
use ecs_private.Common.{
  ℕ, ◌+◌, ◌-◌, ◌*◌, ◌<◌, ◌^◌, ◌≡◌, refl, [], ◌∷◌, none, some, Bool, true, false, arith, ltb, leb,
  ◌==◌, if◌then◌else◌,
}
use ecs_private.Drive.{
  smartwheel_vendor_id, Numbers, Rxpdo, Motor, Txpdo, Soem, SoemState, no_frame, work_counter,
}
use ecs_private.Drive.Ethercat.{initialise_ethercat_master}
use ecs_private.Drive.Sensor.{txpdo1_to_differential_drive_sensor, sensor_timestamp}
use ecs_private.Drive.Detect.{IsSized, wheels}
use ecs_private.Drive.Connect.{Attempted, initialise_ethercat_master_lem, second_attempt_overflows}

-- Numbers that only count.
abbrev pub numbers : Numbers
numbers = record {
  Double = ℕ;
  Float = ℕ;
  Int = ℕ;
  literal = λ text. 0;
  float_of = λ d. d;
  double_of = λ f. f;
  of_difference = λ a b. a - b;
  plus = λ a b. a + b;
  times = λ a b. a * b;
  less = ltb;
  int_of = λ n. n;
  int_eq = λ a b. a == b;
  int_le = leb;
}

abbrev pub still_motor : Motor ℕ
still_motor = record {
  encoder = 0;
  velocity = 0;
  current_d = 0;
  current_q = 0;
  current_u = 0;
  current_v = 0;
  current_w = 0;
  voltage = 0;
  voltage_u = 0;
  voltage_v = 0;
  voltage_w = 0;
  temperature = 300;
}

abbrev pub reading : Txpdo ℕ
reading = record {
  sensor_ts = 2000000007;
  motor1 = still_motor;
  motor2 = still_motor;
  encoder_pivot = 0;
  velocity_pivot = 0;
  voltage_bus = 24;
  accel = record { x = 0; y = 0; z = 10 };
  gyro = record { x = 0; y = 0; z = 0 };
}

abbrev pub empty_message : Rxpdo ℕ
empty_message = record {
  command1 = 8;
  command2 = 0;
  setpoint1 = 0;
  setpoint2 = 0;
  limit1_p = 4;
  limit1_n = 4;
  limit2_p = 4;
  limit2_n = 4;
}

-- One wheel, which is always ready. The state is the memory of the messages.
abbrev pub soem : Soem ℕ ℕ
soem = record {
  E = ℕ → Rxpdo ℕ;
  ec_init = λ name e. (true, e);
  ec_config_init = λ e. (1, e);
  ec_config_map = λ e. e;
  ec_configdc = λ e. e;
  ec_statecheck = λ n s e. e;
  ec_readstate = λ e. e;
  ec_writestate = λ n e. e;
  ec_send_processdata = λ e. e;
  ec_receive_processdata = λ e. (work_counter 3, e);
  ec_close = λ e. e;
  ec_sdoread = λ n e. (some 5, e);
  ec_slavecount = λ e. 1;
  eep_id = λ e n. smartwheel_vendor_id;
  outputs = λ e n. 20;
  inputs = λ e n. 30;
  slave_state = λ e n. 8;
  set_slave_state = λ e n s. e;
  outputs_wkc = λ e. 1;
  inputs_wkc = λ e. 1;
  rx = λ e a. e a;
  write_rx = λ e a r b. if a == b then r else e b;
  tx = λ e a. reading;
  eep_id-sdoread = λ n e cnt. refl;
  slavecount-sdoread = λ n e. refl;
  rx-write = λ e a b r. refl;
}

abbrev pub memory : ℕ → Rxpdo ℕ
memory a = empty_message

abbrev pub detected : ℕ → SoemState ℕ
detected n = record {
  cmd_data_smart_wheel = none ∷ [];
  sensor_data_smart_wheel = none ∷ [];
  sw_serial_number = 0 ∷ [];
  expected_work_counter = 0;
  has_new_measurement = false;
  nb_smart_wheel_detected = n;
  in_operational_state = false;
  smart_wheel_status = 0 ∷ [];
  work_counter = no_frame;
}

detected-IsSized : (n : ℕ) → IsSized soem (detected n)
detected-IsSized n = record {
  cmd_length = refl;
  sensor_length = refl;
  serial_length = refl;
  status_length = refl;
}

one_wheel : wheels soem 1 1 memory ≡ 1
unfolding wheels
one_wheel = refl

sensor_timestamp_example :
    let time = (txpdo1_to_differential_drive_sensor numbers reading).timestamp in
    (time.seconds * 1000000000 + time.nanoseconds ≡ 2000000007)
    × (time.nanoseconds < 1000000000)
    × (time.seconds < 2 ^ 35)
sensor_timestamp_example = sensor_timestamp numbers reading (omega arith)

initialise_ethercat_master_lem_example :
    (connected : Bool) × (s' : SoemState ℕ) × (e' : ℕ → Rxpdo ℕ) × (initialise_ethercat_master soem
        "eth0"
        (detected 0)
        memory
      ≡ some (connected, s', e'))
    × Attempted soem "eth0" (detected 0) memory connected s' e'
initialise_ethercat_master_lem_example =
    initialise_ethercat_master_lem soem "eth0" (detected 0) memory (detected-IsSized 0) refl
      (omega (arith, one_wheel))

second_attempt_overflows_example : initialise_ethercat_master soem "eth0" (detected 1) memory ≡ none
second_attempt_overflows_example =
    second_attempt_overflows soem "eth0" (detected 1) memory (detected-IsSized 1) refl refl
      (omega (arith, one_wheel))
