-- ===== src/Activity.antt =====
-- Activities: mobile_platform_5c/baseline/five_c/src/activity.c and
-- include/five_c/activity/activity.h.
-- A pointer is `none` when it is null. The fields that no code of the activities reads (`mid`, `fsm`,
-- `petrinet`, `petrinet_flag_map`) and the pointer to the thread's clock are left out.
pub mod Superstate
pub mod Exchange
mod Tests
use ecs_private.Common.{ℕ, List, Option, none, some, Bool, true, false}
use ecs_private.Lcsm.{
  State, creation, resource_configuration, capability_configuration, pausing, running, cleaning,
  done, Lcsm, init_lcsm,
}
use ecs_private.Schedule.{ScheduleTable, do_schedule_eventloop}

-- `lcsm_protocol_t`
pub data Protocol : Type 0 where
  initialisation execution deinitialisation : Protocol

-- `lcsm_flags_t`
pub record LcsmFlags : Type 0 where
  pub creation_complete : Bool
  pub creation_failed : Bool
  pub resource_configuration_complete : Bool
  pub resource_configuration_failed : Bool
  pub capability_configuration_complete : Bool
  pub capability_configuration_failed : Bool
  pub running_complete : Bool
  pub deletion_complete : Bool
  pub active : Bool
  pub ready : Bool
  pub deployment : Bool

-- The types that an activity chooses: those of its four allocations, of its function pointers, of
-- the hash table of its schedules, and of the table of variables.
pub record Types : Type 1 where
  pub Params : Type 0
  pub Continuous : Type 0
  pub DiscreteState : Type 0
  pub Coordination : Type 0
  pub F : Type 0
  pub Map : Type 0
  pub VariableTable : Type 0

-- `activity_t`, with its `activity_conf_t` and its `activity_state_t`
pub record Activity (types : Types) : Type 0 where
  pub lcsm : Lcsm
  pub params : Option types.Params
  pub discrete : Option types.DiscreteState
  pub continuous : Option types.Continuous
  pub coordination_state : Option types.Coordination
  pub lcsm_flags : LcsmFlags
  pub lcsm_protocol : Protocol
  pub schedule_table : ScheduleTable types.Map types.F
  pub table : Option types.VariableTable

unfoldable pub do_activity :
    {S F Map : Type 0} → (F → S → Option S) → (S → ScheduleTable Map F) → S → Option S
do_activity call schedule_table s = do_schedule_eventloop call schedule_table s

unfoldable pub update_super_state_lcsm_flags : LcsmFlags → State → LcsmFlags
update_super_state_lcsm_flags flags creation = record flags {
  deployment = true;
  active = false;
  ready = false;
}
update_super_state_lcsm_flags flags resource_configuration = record flags {
  deployment = true;
  active = false;
  ready = false;
}
update_super_state_lcsm_flags flags capability_configuration = record flags {
  deployment = false;
  active = true;
  ready = false;
}
update_super_state_lcsm_flags flags pausing = record flags {
  deployment = false;
  active = true;
  ready = true;
}
update_super_state_lcsm_flags flags running = record flags {
  deployment = false;
  active = true;
  ready = true;
}
update_super_state_lcsm_flags flags cleaning = record flags {
  deployment = true;
  active = false;
  ready = false;
}
update_super_state_lcsm_flags flags done = record flags {
  deployment = false;
  active = false;
  ready = false;
}

unfoldable pub create_lcsm_activity : {types : Types} → Activity types → Activity types
create_lcsm_activity activity = activity

-- The flags that `configure_lcsm_activity` sets; it leaves `capability_configuration_failed` alone.
unfoldable pub configured_flags : LcsmFlags → LcsmFlags
configured_flags flags = record flags {
  creation_complete = false;
  creation_failed = false;
  resource_configuration_complete = false;
  resource_configuration_failed = false;
  capability_configuration_complete = false;
  running_complete = false;
  deletion_complete = false;
  active = false;
  ready = false;
  deployment = false;
}

-- `schedule_table.hash_map` is left as it was.
unfoldable pub configure_lcsm_activity :
    {types : Types} → Activity types → types.VariableTable → Activity types
unfolding configured_flags
configure_lcsm_activity activity table = record activity {
  lcsm = init_lcsm;
  lcsm_flags = configured_flags activity.lcsm_flags;
  schedule_table = record (activity.schedule_table) {
    number_of_schedules = 0;
    number_of_eventloop_schedules = 0;
  };
  table = some table;
}
