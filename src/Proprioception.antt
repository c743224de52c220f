-- ===== src/Proprioception.antt =====
-- The proprioception: mobile_platform_5c/baseline/mobile_platform_proprioception.
-- A pointer to a shared object is its address, and the objects of each type are a function of it.
pub mod Encoders
pub mod Behaviour
pub mod Resources
pub mod Lifecycle
pub mod Exchanges
pub mod Invariant
pub mod Waiting
pub mod Taken
pub mod Publish
mod Sample
mod Tests
use ecs_private.Common.{ℕ, List, Option, Bool, String}
use ecs_private.Common.HashMap.{HashMap}
use ecs_private.Common.StringMap.{StringMap}
use ecs_private.Schedule.{Schedule}
use ecs_private.Registration.{SemanticId, sid_eq, VariableEntry}
use ecs_private.Activity.{Types, Activity}
use ecs_private.ReadFile.{Cjson, Status}
use ecs_private.MathRob.{Reals}
use ecs_private.Navigation.{Drive}
use ecs_private.Drive.{Timestamp, DriveSensor}
use ecs_private.Drive.Activity.{DriveConfig}

-- `pose2d_t`
pub record Pose (Double : Type 0) : Type 0 where
  pub x : Double
  pub y : Double
  pub yaw : Double

-- `velocity2d_t`
pub record Velocity (Double : Type 0) : Type 0 where
  pub vx : Double
  pub vy : Double
  pub w : Double

-- `odometry2d_t`
pub record Odometry (Double : Type 0) : Type 0 where
  pub pose : Pose Double
  pub velocity : Velocity Double

-- `delta_tricycle_t`; the pointer of the wheel to its drive is not used
pub record Tricycle (Double : Type 0) : Type 0 where
  pub wheel : Pose Double
  pub width : Double
  pub length : Double

-- The functions that the schedules call.
pub data Function : Type 0 where
  proprioception_config proprioception_resource_configuration : Function
  proprioception_pausing proprioception_running : Function

-- The numbers, the files, and the two hash tables. `unset` is what a variable holds that is not
-- initialised, read as a status.
pub record Setting : Type 1 where
  pub reals : Reals
  pub Float : Type 0
  pub cjson : Cjson
  pub double_read : cjson.Double → reals.Double
  pub unset : Status
  pub variable_map : HashMap SemanticId sid_eq VariableEntry
  pub schedule_map : StringMap (Schedule Function)

module _ (setting : Setting) where
  open setting use {reals, Float}
  open reals use {Double}

  abbrev pub KeloDrive : Type 0
  KeloDrive = Drive Double (DriveConfig Double) (DriveSensor Double Float)

  -- `mobile_platform_proprioception_activity_params_t`
  pub record Params : Type 0 where
    pub configuration_file : String
    pub rt_drive : Option ℕ
    pub drive : KeloDrive
    pub rt_platform : Option ℕ
    pub platform : Tricycle Double
    pub rt_odometry : Option ℕ
    pub sampling_time_tolerance : Double

  -- `mobile_platform_proprioception_activity_continuous_state_t`
  pub record Continuous : Type 0 where
    pub odometry : Odometry Double
    pub previous_timestamp : Timestamp

  -- `mobile_platform_proprioception_activity_coordination_state_t`
  pub record Coordination : Type 0 where
    pub execution_request : Option ℕ
    pub deleting_request : Option ℕ
    pub drive_lock : Option ℕ
    pub odometry_lock : Option ℕ
    pub platform_lock : Option ℕ

  -- The discrete state has no member.
  abbrev pub types : Types
  types = record {
    Params = Params;
    Continuous = Continuous;
    DiscreteState = Unit;
    Coordination = Coordination;
    F = Function;
    Map = StringMap.Map setting.schedule_map;
    VariableTable = Unit;
  }

  -- The activity, the shared objects, the table of variables, the requests, and what the next calls
  -- of `malloc` return.
  pub record World : Type 0 where
    pub activity : Activity types
    pub drives : ℕ → KeloDrive
    pub tricycles : ℕ → Tricycle Double
    pub odometries : ℕ → Odometry Double
    pub variables : HashMap.Map setting.variable_map
    pub flags : ℕ → Bool
    pub mallocs : List (Option ℕ)
