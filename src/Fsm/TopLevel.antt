-- ===== src/Fsm/TopLevel.antt =====
-- The instance for the overall life cycle:
-- mobile_platform_5c/baseline/coordination_libraries/src/top-level_4_state_lcsm.c.
use ecs_private.Common.{
  ℕ, ◌+◌, ◌%◌, ◌<◌, ◌≡◌, refl, List, [], ◌∷◌, String, arith, ◌==◌, if◌then◌else◌,
}
use ecs_private.Fsm.{Entry, Configuration}
use ecs_private.Fsm.Index.{IsValid}
use ecs_private.Fsm.Names.{HasNames}
use ecs_private.Fsm.Update.{react, scan}
use ecs_private.Common.StringMap.{StringMap}

abbrev pub lcsm_4state_names : List String
lcsm_4state_names = "Idle" ∷ "Initialization" ∷ "Execution" ∷ "Deinitialization" ∷ []

abbrev pub lcsm_4event_names : List String
lcsm_4event_names = "start" ∷ "start_execution" ∷ "stop_execution" ∷ "stop" ∷ []

abbrev pub entry : ℕ → ℕ → ℕ → Entry
entry s e t = record { state1 = s; transition_event = e; state2 = t }

abbrev pub top_level_entries : List Entry
top_level_entries = entry 0 0 1 ∷ entry 1 1 2 ∷ entry 2 2 3 ∷ entry 3 3 0 ∷ []

abbrev pub top_level_lcsm : Configuration
top_level_lcsm = record {
  entries = top_level_entries;
  number_of_transitions = 4;
  state_names = lcsm_4state_names;
  number_of_states = 4;
  default_state = 0;
  event_names = lcsm_4event_names;
  number_of_events = 4;
}

-- The table is one that `init_fsm` and `update_fsm` accept.
pub top_level_lcsm-IsValid : IsValid top_level_lcsm
top_level_lcsm-IsValid = omega arith

pub top_level_lcsm-HasNames : (uthash : StringMap ℕ) → HasNames uthash top_level_lcsm
top_level_lcsm-HasNames uthash = record {
  distinct_states = ((refl, (refl, (refl, tt))), ((refl, (refl, tt)), ((refl, tt), (tt, tt))));
  distinct_events = ((refl, (refl, (refl, tt))), ((refl, (refl, tt)), ((refl, tt), (tt, tt))));
}

-- In each of the four states one event counts, that of the state's number, and it leads to the next
-- state round the cycle; every other event is ignored.
pub top_level_cycle :
    (s event : ℕ)
    → s < 4
    → react top_level_entries s event ≡ (if event == s then (s + 1) % 4 else s)
unfolding scan
top_level_cycle s event h = ground arith
