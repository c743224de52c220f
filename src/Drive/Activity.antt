-- ===== src/Drive/Activity.antt =====
-- The data of the drive activity:
-- mobile_platform_drive/include/mobile_platform_drive/activity/kelo_drive_activity.h.
-- A pointer to a request is the address of a flag. Arrays have `max_number_smartwheels` cells. The two
-- requests for the operation mode, which no code reads, are left out.
pub mod Configuration
pub mod Wheels
pub mod Behaviour
pub mod Connection
pub mod Lifecycle
pub mod Commands
pub mod Keeps
pub mod Stays
pub mod Exchanges
pub mod Invariant
mod Tests
use ecs_private.Common.{ℕ, zero, suc, ◌+◌, List, Option, none, some, Bool, ◌>>=◌, get_elem?, String}
use ecs_private.Common.HashMap.{HashMap}
use ecs_private.Common.StringMap.{StringMap}
use ecs_private.Schedule.{Schedule}
use ecs_private.Registration.{SemanticId, sid_eq, VariableEntry}
use ecs_private.Activity.{Types, Activity}
use ecs_private.ReadFile.{Cjson}
use ecs_private.Drive.{Numbers, Soem, SoemState, DriveSensor}
use ecs_private.Navigation.{Drive}

-- `struct timespec`
pub record Timespec : Type 0 where
  pub tv_sec : ℕ
  pub tv_nsec : ℕ

-- `differential_drive_params_t`
pub record DriveParams (Double : Type 0) : Type 0 where
  pub wheel_radius : Double
  pub wheel_track : Double
  pub pivot_offset : Double

-- `differential_drive_limits_t`
pub record DriveLimits (Double : Type 0) : Type 0 where
  pub max_wheel_velocity : Double
  pub max_wheel_acceleration : Double

-- `differential_drive_config_t`
pub record DriveConfig (Double : Type 0) : Type 0 where
  pub params : DriveParams Double
  pub limits : DriveLimits Double

-- The structure `id` of the parameters
pub record WheelId (Int : Type 0) : Type 0 where
  pub name : String
  pub sw_serial_number : Int

-- The functions that are registered in schedules
pub data Function : Type 0 where
  kelo_activity_config kelo_activity_creation kelo_activity_resource_configuration : Function
  kelo_activity_capability_configuration kelo_activity_running : Function

-- What is outside this code. The numbers of the configuration file are taken over as they are read.
pub record Platform : Type 1 where
  pub numbers : Numbers
  pub soem : Soem numbers.Float numbers.Int
  pub cjson : Cjson
  pub int_read : cjson.Int → numbers.Int
  pub double_read : cjson.Double → numbers.Double
  pub variable_map : HashMap SemanticId sid_eq VariableEntry
  pub schedule_map : StringMap (Schedule Function)

module _ (platform : Platform) where
  open platform use {numbers, soem}
  open numbers use {Double, Float, Int}

  -- `differential_drive_t`
  abbrev pub KeloDrive : Type 0
  KeloDrive = Drive Double (DriveConfig Double) (DriveSensor Double Float)

  -- `mobile_platform_drive_kelo_activity_params_t`
  pub record Params : Type 0 where
    pub configuration_file : String
    pub max_number_of_connection_attempts : Int
    pub min_time_between_connection_attempts : Float
    pub ifname : String
    pub rt_drive : List (Option ℕ)
    pub drive : List KeloDrive
    pub id : List (WheelId Int)
    pub sensor_chunk_id : ℕ

  -- `mobile_platform_drive_kelo_activity_continuous_state_t`
  pub record Continuous : Type 0 where
    pub clocktime_at_last_connection_attempt : Timespec
    pub kelo_soem_state : SoemState Int

  -- `mobile_platform_drive_kelo_activity_discrete_state_t`
  pub record DiscreteState : Type 0 where
    pub ethercat_master_connected : Bool
    pub number_of_connection_attempts : ℕ

  -- `mobile_platform_drive_kelo_activity_coordination_state_t`
  pub record Coordination : Type 0 where
    pub execution_request : Option ℕ
    pub deleting_request : Option ℕ
    pub configuration_request : Option ℕ
    pub drive_lock : List (Option ℕ)

  abbrev pub types : Types
  types = record {
    Params = Params;
    Continuous = Continuous;
    DiscreteState = DiscreteState;
    Coordination = Coordination;
    F = Function;
    Map = StringMap.Map platform.schedule_map;
    VariableTable = Unit;
  }

  -- All that the functions can reach: the activity, SOEM, the clock of the thread, the drives in shared
  -- memory, the table of variables, the flags that requests point to, what the next calls of `malloc`
  -- return (after the end of the list, a null pointer), and the trace that was written.
  pub record World : Type 0 where
    pub activity : Activity types
    pub ethercat : Soem.E soem
    pub clocktime : Timespec
    pub drives : ℕ → KeloDrive
    pub variables : HashMap.Map platform.variable_map
    pub flags : ℕ → Bool
    pub mallocs : List (Option ℕ)
    pub trace : List (ℕ × DriveSensor Double Float)

-- The pointer in a cell of an array; null pointers and cells past the array are faults.
abbrev pub pointer_at : List (Option ℕ) → ℕ → Option ℕ
pointer_at cells i = get_elem? cells i >>= λ p. p

-- `for (int i = ...; ...; i++)`, with the rounds that are left.
unfoldable pub for_range : {S : Type 0} → ℕ → ℕ → (ℕ → S → Option S) → S → Option S
for_range zero i body s = some s
for_range (suc rounds) i body s = do s' ← body i s; for_range rounds (i + 1) body s'
