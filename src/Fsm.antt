-- ===== src/Fsm.antt =====
-- The table-driven state machine: mobile_platform_5c/baseline/coordination_libraries/src/FSM.c and
-- include/coordination_libraries/fsm/FSM.h.
-- A pointer into the transition table is the index of its entry, and a cell of a fresh allocation
-- holds `none`; a read of such a cell, or past an array, is a fault.
pub mod Index
pub mod Update
pub mod Names
pub mod TopLevel
mod Tests
use ecs_private.Common.{
  ℕ, zero, suc, ◌+◌, ◌≡◌, List, ◌∷◌, [], Option, none, some, get_elem?, set, replicate, ltb, ◌==◌,
  if◌then◌else◌, ◌>>=◌, ◌>>◌, guard, length, String, str_take, map,
}
use ecs_private.Common.StringMap.{StringMap}

abbrev pub max_length_fsm_event_queue : ℕ
max_length_fsm_event_queue = 10

abbrev pub max_length_index_map_name : ℕ
max_length_index_map_name = 32

-- `transition_table_entry_t`
pub record Entry : Type 0 where
  pub state1 : ℕ
  pub transition_event : ℕ
  pub state2 : ℕ

-- `FSM_configuration_t`, with its `transition_table_t`
pub record Configuration : Type 0 where
  pub entries : List Entry
  pub number_of_transitions : ℕ
  pub state_names : List String
  pub number_of_states : ℕ
  pub default_state : ℕ
  pub event_names : List String
  pub number_of_events : ℕ

-- `transition_index_table_t`
pub record IndexTable : Type 0 where
  pub pointers : List (Option ℕ)
  pub number_of_transitions : ℕ

-- `FSM_t`; `Map` is the type of the two hash tables
pub record Fsm (Map : Type 0) : Type 0 where
  pub state : ℕ
  pub event_queue : List ℕ
  pub number_of_events : ℕ
  pub fsm_configuration : Configuration
  pub state_entries : List IndexTable
  pub state_names : Map
  pub event_names : Map

-- The loop that counts the transitions of each state, from index `i`.
unfoldable pub count_loop : List Entry → ℕ → ℕ → List IndexTable → Option (List IndexTable)
count_loop ts zero i indices = some indices
count_loop ts (suc rounds) i indices = do
  t ← get_elem? ts i
  n ← get_elem? indices t.state1
  count_loop ts rounds (i + 1)
      (set indices t.state1 (record n { number_of_transitions = n.number_of_transitions + 1 }))

-- `malloc` of as many pointers as were counted, and the reset of the count.
unfoldable pub allocate : IndexTable → IndexTable
allocate n = record { pointers = replicate n.number_of_transitions none; number_of_transitions = 0 }

-- The write of one pointer behind the others, and the increment of the count.
unfoldable pub store : IndexTable → ℕ → Option IndexTable
store n i = do
  guard (ltb n.number_of_transitions (length n.pointers))
  some (record n {
    pointers = set n.pointers n.number_of_transitions (some i);
    number_of_transitions = n.number_of_transitions + 1;
  })

-- The loop that stores `&transition_table_entries[i]` in the index of its state.
unfoldable pub fill_loop : List Entry → ℕ → ℕ → List IndexTable → Option (List IndexTable)
fill_loop ts zero i indices = some indices
fill_loop ts (suc rounds) i indices = do
  t ← get_elem? ts i
  n ← get_elem? indices t.state1
  n' ← store n i
  fill_loop ts rounds (i + 1) (set indices t.state1 n')

-- Lines 79 to 110 of `init_fsm`.
unfoldable pub make_index : Configuration → Option (List IndexTable)
unfolding count_loop allocate store fill_loop
make_index c = do
  counted ←
      count_loop c.entries c.number_of_transitions 0
        (replicate c.number_of_states (record { pointers = []; number_of_transitions = 0 }))
  fill_loop c.entries c.number_of_transitions 0 (map allocate counted)

-- The inner loop of `update_fsm`, over a copy of the index of the state at its start.
unfoldable pub match_loop : List Entry → List ℕ → ℕ → IndexTable → ℕ → ℕ → ℕ → Option ℕ
match_loop ts queue i index zero j state = some state
match_loop ts queue i index (suc rounds) j state = do
  cell ← get_elem? index.pointers j
  p ← cell
  t ← get_elem? ts p
  event ← get_elem? queue i
  match_loop ts queue i index rounds (j + 1)
      (if event == t.transition_event then t.state2 else state)

-- The outer loop, over the events.
unfoldable pub event_loop : List Entry → List ℕ → List IndexTable → ℕ → ℕ → ℕ → Option ℕ
unfolding match_loop
event_loop ts queue indices zero i state = some state
event_loop ts queue indices (suc rounds) i state = do
  index ← get_elem? indices state
  state' ← match_loop ts queue i index index.number_of_transitions 0 state
  event_loop ts queue indices rounds (i + 1) state'

unfoldable pub update_fsm : {Map : Type 0} → Fsm Map → Option (Fsm Map)
unfolding event_loop
update_fsm fsm = do
  state' ←
      event_loop fsm.fsm_configuration.entries fsm.event_queue fsm.state_entries
        fsm.number_of_events 0 fsm.state
  some (record fsm { state = state'; number_of_events = 0 })

-- What `add_event_fsm` returns: 0, or -1.
pub data Ret : Type 0 where
  ret_ok ret_fail : Ret

unfoldable pub add_event_fsm_int : {Map : Type 0} → Fsm Map → ℕ → Ret × Fsm Map
add_event_fsm_int fsm event =
    if ltb fsm.number_of_events max_length_fsm_event_queue
    then (
      ret_ok,
      record fsm {
        event_queue = set fsm.event_queue fsm.number_of_events event;
        number_of_events = fsm.number_of_events + 1;
      },
    )
    else (ret_fail, fsm)

module _ (uthash : StringMap ℕ) where
  open uthash use {Map, empty, find, add}

  -- The code reads `s->index` without a test: a name that is not found is a null pointer.
  unfoldable pub index_lookup : Map → String → Option ℕ
  index_lookup table name = find table name

  -- `snprintf` keeps one byte less than the size of the field.
  unfoldable pub new_string_index_entry : Map → String → ℕ → Map
  new_string_index_entry table name index = add table (str_take 31 name) index

  unfoldable pub create_index_loop : List String → ℕ → ℕ → Map → Option Map
  unfolding new_string_index_entry
  create_index_loop names zero i table = some table
  create_index_loop names (suc rounds) i table = do
    name ← get_elem? names i
    create_index_loop names rounds (i + 1) (new_string_index_entry table name i)

  unfoldable pub create_index_hash_table : Map → List String → ℕ → Option Map
  unfolding create_index_loop
  create_index_hash_table table names n = create_index_loop names n 0 table

  unfoldable pub add_event_fsm : Fsm Map → String → Option (Ret × Fsm Map)
  unfolding index_lookup
  add_event_fsm fsm event_name = do
    event_int ← index_lookup fsm.event_names event_name
    some (add_event_fsm_int fsm event_int)

  unfoldable pub init_fsm : Configuration → Option (Fsm Map)
  unfolding make_index create_index_hash_table
  init_fsm c = do
    indices ← make_index c
    states ← create_index_hash_table empty c.state_names c.number_of_states
    events ← create_index_hash_table empty c.event_names c.number_of_events
    some (record {
      state = c.default_state;
      event_queue = replicate max_length_fsm_event_queue 0;
      number_of_events = 0;
      fsm_configuration = c;
      state_entries = indices;
      state_names = states;
      event_names = events;
    })
