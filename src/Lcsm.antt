-- ===== src/Lcsm.antt =====
-- The life-cycle state machine: mobile_platform_5c/baseline/coordination_libraries/src/lcsm.c and
-- include/coordination_libraries/lcsm/lcsm.h.
-- `event_queue` is the array of the struct; a read past it is a fault (`none`).
pub mod Diagram
pub mod Refine
mod Tests
use ecs_private.Common.{
  ℕ, zero, suc, ◌+◌, List, ◌∷◌, Option, none, some, get_elem?, set, replicate, ltb, if◌then◌else◌,
  ◌>>=◌,
}

-- `LCSM_state_t`
pub data State : Type 0 where
  creation resource_configuration capability_configuration pausing running cleaning done : State

-- `LCSM_event_t`
pub data Event : Type 0 where
  create created configure_resources resources_configured configure_capabilities : Event
  capabilities_configured start stop cleanup_resources cleaned empty : Event

abbrev pub max_event_queue : ℕ
max_event_queue = 5

-- `LCSM_t`. The counter is only incremented and set to 0, so it is never negative.
pub record Lcsm : Type 0 where
  pub state : State
  pub event_queue : List Event
  pub number_of_events : ℕ

-- What the C functions return: 0, or -1.
pub data Ret : Type 0 where
  ret_ok ret_fail : Ret

-- The argument is the memory that `sm` points to; its array has `max_event_queue` cells.
unfoldable pub init_lcsm : Lcsm
init_lcsm = record {
  state = creation;
  event_queue = replicate max_event_queue empty;
  number_of_events = 0;
}

-- The `switch` of `update_lcsm`.
unfoldable pub next : State → Event → State
next creation created = resource_configuration
next resource_configuration resources_configured = capability_configuration
next resource_configuration cleanup_resources = cleaning
next capability_configuration capabilities_configured = pausing
next capability_configuration configure_resources = resource_configuration
next pausing start = running
next pausing configure_capabilities = capability_configuration
next running stop = pausing
next cleaning cleaned = done
next done create = creation
next s _ = s

-- The `for` loop from index `i`, with the rounds that are left.
unfoldable pub update_loop : ℕ → ℕ → Lcsm → Option Lcsm
update_loop zero i sm = some sm
update_loop (suc rounds) i sm = do
  event ← get_elem? sm.event_queue i
  update_loop rounds (i + 1)
      (record sm { state = next sm.state event; event_queue = set sm.event_queue i empty })

unfoldable pub update_lcsm : Lcsm → Option Lcsm
unfolding update_loop
update_lcsm sm = do
  sm' ← update_loop sm.number_of_events 0 sm
  some (record sm' { number_of_events = 0 })

unfoldable pub add_event : Lcsm → Event → Ret × Lcsm
add_event sm event =
    if ltb sm.number_of_events max_event_queue
    then (
      ret_ok,
      record sm {
        event_queue = set sm.event_queue sm.number_of_events event;
        number_of_events = sm.number_of_events + 1;
      },
    )
    else (ret_fail, sm)
