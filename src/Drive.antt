-- ===== src/Drive.antt =====
-- The drive with its wheels on EtherCAT: mobile_platform_5c/baseline/mobile_platform_drive, the files
-- src/kelo/kelo_soem.c, src/activity/kelo_drive_activity.c and their headers.
-- This file has the data. SOEM, cJSON and uthash are interfaces; the memory that SOEM exchanges with
-- the wheels is part of SOEM's state.
pub mod Ethercat
pub mod Sensor
pub mod Connect
pub mod Found
pub mod Detect
pub mod Waiting
pub mod Activity
mod Tests
use ecs_private.Common.{ℕ, List, Option, Bool, ◌≡◌, ◌==◌, if◌then◌else◌, String}
use ecs_private.ReadFile.{Cjson}

-- `MAX_NUMBER_SMARTWHEELS`
abbrev pub max_number_smartwheels : ℕ
max_number_smartwheels = 1

-- `SMARTWHEEL_VENDOR_ID`
abbrev pub smartwheel_vendor_id : ℕ
smartwheel_vendor_id = 0x2001001

-- The numbers of type `double`, `float` and `int`, with what the code does with them.
pub record Numbers : Type 1 where
  pub Double : Type 0
  pub Float : Type 0
  pub Int : Type 0
  pub literal : String → Double
  pub float_of : Double → Float
  pub double_of : Float → Double
  pub of_difference : ℕ → ℕ → Double
  pub plus : Double → Double → Double
  pub times : Double → Double → Double
  pub less : Float → Float → Bool
  pub int_of : ℕ → Int
  pub int_eq : Int → Int → Bool
  pub int_le : Int → Int → Bool

-- `rxpdo1_t`, the message to a wheel; the last member is not written
pub record Rxpdo (Float : Type 0) : Type 0 where
  pub command1 : ℕ
  pub command2 : ℕ
  pub setpoint1 : Float
  pub setpoint2 : Float
  pub limit1_p : Float
  pub limit1_n : Float
  pub limit2_p : Float
  pub limit2_n : Float

-- The members that `txpdo1_t` has for each of its two motors
pub record Motor (Float : Type 0) : Type 0 where
  pub encoder : Float
  pub velocity : Float
  pub current_d : Float
  pub current_q : Float
  pub current_u : Float
  pub current_v : Float
  pub current_w : Float
  pub voltage : Float
  pub voltage_u : Float
  pub voltage_v : Float
  pub voltage_w : Float
  pub temperature : Float

pub record Axes (A : Type 0) : Type 0 where
  pub x : A
  pub y : A
  pub z : A

-- `txpdo1_t`, the message from a wheel, with the members that are read
pub record Txpdo (Float : Type 0) : Type 0 where
  pub sensor_ts : ℕ
  pub motor1 : Motor Float
  pub motor2 : Motor Float
  pub encoder_pivot : Float
  pub velocity_pivot : Float
  pub voltage_bus : Float
  pub accel : Axes Float
  pub gyro : Axes Float

-- `timestamp_t`
pub record Timestamp : Type 0 where
  pub seconds : ℕ
  pub nanoseconds : ℕ

-- `encoder_t`
pub record Encoder (Double : Type 0) : Type 0 where
  pub position : Double
  pub velocity : Double

-- A member of each of the two wheels
pub record Pair (A : Type 0) : Type 0 where
  pub left_wheel : A
  pub right_wheel : A

-- `differential_drive_sensor_t`
pub record DriveSensor (Double Float : Type 0) : Type 0 where
  pub timestamp : Timestamp
  pub accelerometer : Axes Double
  pub gyroscope : Axes Double
  pub encoder : Pair (Encoder Double)
  pub pivot : Encoder Double
  pub temperature : Pair Float
  pub voltage_pwm : Pair Float
  pub voltage_u : Pair Float
  pub voltage_v : Pair Float
  pub voltage_w : Pair Float
  pub voltage_bus : Float
  pub current_d : Pair Float
  pub current_q : Pair Float
  pub current_u : Pair Float
  pub current_v : Pair Float
  pub current_w : Pair Float

-- What `ec_receive_processdata` returns: a work counter, or a negative number.
pub data Received : Type 0 where
  no_frame : Received
  work_counter : ℕ → Received

-- SOEM: its state, with the list of slaves `ec_slave`, whose member 0 stands for all of them, and its
-- functions. The messages of the wheels lie at the addresses `outputs` and `inputs` in its memory.
pub record Soem (Float Int : Type 0) : Type 1 where
  pub E : Type 0
  pub ec_init : String → E → Bool × E
  pub ec_config_init : E → ℕ × E
  pub ec_config_map : E → E
  pub ec_configdc : E → E
  pub ec_statecheck : ℕ → ℕ → E → E
  pub ec_readstate : E → E
  pub ec_writestate : ℕ → E → E
  pub ec_send_processdata : E → E
  pub ec_receive_processdata : E → Received × E
  pub ec_close : E → E
  pub ec_sdoread : ℕ → E → Option Int × E
  pub ec_slavecount : E → ℕ
  pub eep_id : E → ℕ → ℕ
  pub outputs : E → ℕ → ℕ
  pub inputs : E → ℕ → ℕ
  pub slave_state : E → ℕ → ℕ
  pub set_slave_state : E → ℕ → ℕ → E
  pub outputs_wkc : E → ℕ
  pub inputs_wkc : E → ℕ
  pub rx : E → ℕ → Rxpdo Float
  pub write_rx : E → ℕ → Rxpdo Float → E
  pub tx : E → ℕ → Txpdo Float
  -- Reading an object of a slave leaves the list of slaves alone.
  pub eep_id-sdoread : (n : ℕ) (e : E) (cnt : ℕ) → eep_id (ec_sdoread n e).1 cnt ≡ eep_id e cnt
  pub slavecount-sdoread : (n : ℕ) (e : E) → ec_slavecount (ec_sdoread n e).1 ≡ ec_slavecount e
  -- The messages to the wheels are memory, apart from the other ones.
  pub rx-write :
      (e : E) (a b : ℕ) (r : Rxpdo Float) → rx (write_rx e a r) b ≡ (if a == b then r else rx e b)

-- `kelo_soem_state_t`: the arrays of pointers and numbers have `max_number_smartwheels` cells. `IOmap`
-- is SOEM's memory.
pub record SoemState (Int : Type 0) : Type 0 where
  pub cmd_data_smart_wheel : List (Option ℕ)
  pub sensor_data_smart_wheel : List (Option ℕ)
  pub sw_serial_number : List Int
  pub expected_work_counter : ℕ
  pub has_new_measurement : Bool
  pub nb_smart_wheel_detected : ℕ
  pub in_operational_state : Bool
  pub smart_wheel_status : List ℕ
  pub work_counter : Received
