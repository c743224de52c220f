-- ===== src/Navigation.antt =====
-- The navigation activity with control of the drive:
-- navigation_template/src/activity/navigation_with_kelo_control.c and
-- navigation_template/include/navigation/activity/navigation_activity.h.
-- This file has the data; Navigation/Behaviour.antt the functions of the schedules,
-- Navigation/Lifecycle.antt the configuration, the schedules and the life cycle.
pub mod Behaviour
pub mod Lifecycle
pub mod Keeps
pub mod Slots
pub mod Configure
pub mod Pass
pub mod Invariant
pub mod Start
pub mod Steps
pub mod Deletion
pub mod Startup
pub mod Reach
pub mod Memory
mod Tests
use ecs_private.Common.{ℕ, List, Option, Bool, String}
use ecs_private.Common.HashMap.{HashMap}
use ecs_private.Common.StringMap.{StringMap}
use ecs_private.Schedule.{Schedule}
use ecs_private.Registration.{SemanticId, sid_eq, VariableEntry}
use ecs_private.Activity.{Types, Activity}

-- The members `velocity` and `current` of `differential_drive_actuation_t`
pub record Wheels (Double : Type 0) : Type 0 where
  pub left_wheel : Double
  pub right_wheel : Double

-- `DIFFERENTIAL_DRIVE_COMMAND_MODE_TORQUE`, `DIFFERENTIAL_DRIVE_COMMAND_MODE_VELOCITY`
abbrev pub command_mode_torque : ℕ
command_mode_torque = 0

abbrev pub command_mode_velocity : ℕ
command_mode_velocity = 8

-- `differential_drive_actuation_t`, without its time stamp
pub record Actuation (Double : Type 0) : Type 0 where
  pub mode : ℕ
  pub velocity : Wheels Double
  pub current : Wheels Double

-- `differential_drive_t`; the configuration and the sensor data are only copied as a whole
pub record Drive (Double Config Sensor : Type 0) : Type 0 where
  pub config : Config
  pub sensor : Sensor
  pub actuation : Actuation Double

-- `navigation_activity_params_t`: the pointers, the local drive, and the counter of the log
pub record Params (Double Config Sensor : Type 0) : Type 0 where
  pub rt_drive : Option ℕ
  pub drive : Drive Double Config Sensor
  pub rt_odometry : Option ℕ
  pub rt_range_scan : Option ℕ
  pub rt_range_sensor : Option ℕ
  pub rt_platform : Option ℕ
  pub actuation_chunk_id : ℕ

-- `navigation_activity_continuous_state_t`, with the member that the source file uses
pub record Continuous : Type 0 where
  pub iteration_count : ℕ

-- `navigation_activity_coordination_state_t`: the pointers to mutexes
pub record Coordination : Type 0 where
  pub drive_lock : Option ℕ
  pub odometry_lock : Option ℕ
  pub range_scan_lock : Option ℕ
  pub range_sensor_lock : Option ℕ
  pub platform_lock : Option ℕ

-- The functions of this file that are registered in schedules
pub data Function : Type 0 where
  activity_config creation_coordinate creation_configure creation_compute : Function
  resource_configuration_coordinate resource_configuration_configure : Function
  resource_configuration_compute capability_configuration_coordinate : Function
  capability_configuration_configure capability_configuration_compute : Function
  running_communicate_sensor_and_estimation running_coordinate running_configure : Function
  running_compute running_communicate_control running_logging : Function

-- What is outside this code: the numbers of type `double`, of which the activity only writes
-- literals and compares a product; the members of a drive that are only copied as a whole; and uthash,
-- for the table of variables and for the schedules.
pub record Platform : Type 1 where
  pub Double : Type 0
  pub literal : String → Double
  pub of_nat : ℕ → Double
  pub times : Double → Double → Double
  pub less : Double → Double → Bool
  pub Config : Type 0
  pub Sensor : Type 0
  pub variable_map : HashMap SemanticId sid_eq VariableEntry
  pub schedule_map : StringMap (Schedule Function)

abbrev pub navigation_types : Platform → Types
navigation_types platform = record {
  Params = Params platform.Double platform.Config platform.Sensor;
  Continuous = Continuous;
  DiscreteState = Unit;
  Coordination = Coordination;
  F = Function;
  Map = StringMap.Map platform.schedule_map;
  VariableTable = Unit;
}

-- All that the functions can reach: the activity; the drives in shared memory, by their address; the
-- table of variables that `activity->table` points to; the cells that `execution_request` and
-- `deleting_request` point to, which the application sets before the threads start; and the trace
-- that was written.
pub record World (platform : Platform) : Type 0 where
  pub activity : Activity (navigation_types platform)
  pub drives : ℕ → Drive platform.Double platform.Config platform.Sensor
  pub variables : HashMap.Map platform.variable_map
  pub execution_request : Bool
  pub deleting_request : Bool
  pub trace : List (ℕ × Actuation platform.Double)
