-- ===== src/Fsm/Tests.antt =====
-- Runs of the table-driven machine on the four-state life cycle, and the theorems on it there.
use ecs_private.Common.{
  ℕ, ◌≡◌, ◌<◌, refl, List, [], ◌∷◌, Option, some, String, arith, ◌>>=◌, replicate,
}
use ecs_private.Common.StringMap.{StringMap, assoc_map}
use ecs_private.Fsm.{Fsm, init_fsm, add_event_fsm, add_event_fsm_int, update_fsm, make_index}
use ecs_private.Fsm.Index.{index_of, make_index_lem}
use ecs_private.Fsm.Update.{pending, run_table, run_table_lt, IsReady, updated, update_fsm_lem}
use ecs_private.Fsm.Names.{number_of, init_fsm_lem, add_event_fsm_by_name}
use ecs_private.Fsm.TopLevel.{
  top_level_lcsm, top_level_entries, top_level_lcsm-IsValid, top_level_lcsm-HasNames,
}

abbrev uthash : StringMap ℕ
uthash = assoc_map ℕ

-- examples/test_FSM.c: `update_fsm` after each event; the states that it passes through.
states : List String → Fsm (StringMap.Map uthash) → Option (List ℕ)
states [] fsm = some []
states (name ∷ names) fsm = do
  (r, fired) ← add_event_fsm uthash fsm name
  fsm' ← update_fsm fired
  rest ← states names fsm'
  some (fsm'.state ∷ rest)

test_fsm :
    (do
      fsm ← init_fsm uthash top_level_lcsm
      states ("start" ∷ "start_execution" ∷ "stop_execution" ∷ "stop" ∷ []) fsm)
    ≡ some (1 ∷ 2 ∷ 3 ∷ 0 ∷ [])
unfolding states init_fsm add_event_fsm add_event_fsm_int update_fsm
test_fsm = refl

-- The machine in the state Idle, with the event "start" waiting.
abbrev started : Fsm (StringMap.Map uthash)
started = record {
  state = 0;
  event_queue = replicate 10 0;
  number_of_events = 1;
  fsm_configuration = top_level_lcsm;
  state_entries = index_of top_level_lcsm;
  state_names = [];
  event_names = [];
}

started-IsReady : IsReady started
started-IsReady = record {
  configured = top_level_lcsm-IsValid;
  indexed = refl;
  state_in = omega arith;
  queue_length = refl;
  events_in = omega arith;
}

make_index_lem_example : make_index top_level_lcsm ≡ some (index_of top_level_lcsm)
make_index_lem_example = make_index_lem top_level_lcsm top_level_lcsm-IsValid

update_fsm_lem_example : (update_fsm started ≡ some (updated started)) × IsReady (updated started)
update_fsm_lem_example = update_fsm_lem started started-IsReady

run_table_lt_example : run_table top_level_entries 0 (0 ∷ 1 ∷ []) < 4
run_table_lt_example =
    run_table_lt top_level_lcsm 0 (0 ∷ 1 ∷ []) top_level_lcsm-IsValid (omega arith)

init_fsm_lem_example :
    (fsm : Fsm (StringMap.Map uthash)) × (init_fsm uthash top_level_lcsm ≡ some fsm)
    × IsReady fsm
    × (fsm.fsm_configuration ≡ top_level_lcsm)
    × (fsm.state ≡ 0)
    × (pending fsm ≡ [])
    × ((k : String)
        → StringMap.find uthash fsm.event_names k ≡ number_of top_level_lcsm.event_names 0 k)
init_fsm_lem_example =
    init_fsm_lem uthash top_level_lcsm top_level_lcsm-IsValid (top_level_lcsm-HasNames uthash)

initial : (fsm : Fsm (StringMap.Map uthash)) × (init_fsm uthash top_level_lcsm ≡ some fsm)
unfolding init_fsm
initial = (_, refl)

add_event_fsm_by_name_example :
    add_event_fsm uthash initial.0 "start_execution" ≡ some (add_event_fsm_int initial.0 1)
add_event_fsm_by_name_example =
    add_event_fsm_by_name uthash top_level_lcsm 1 "start_execution" top_level_lcsm-IsValid
      (top_level_lcsm-HasNames uthash) initial.1 refl (omega arith)
