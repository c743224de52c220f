-- ===== src/Fsm/Update.antt =====
-- `update_fsm` (FSM.c) looks an event up in the index of one state; it does what a scan of the
-- whole transition table does.
use ecs_private.Common.{
  ℕ, ◌+◌, ◌<◌, ◌≤◌, ◌≡◌, refl, ◌∙◌, inl, inr, List, [], ◌∷◌, ◌++◌, map, Option, some, true, arith,
  length, get_elem?, set, All, ltb, ◌==◌, if◌then◌else◌, Bool-cases, length-append, append_assoc,
  append-nil, take, drop, ◌&&◌, get_elem?-append, get_elem?-tabulate, take-append-drop, length-take,
  ltb→lt, length-set, add-one, take-set_end,
}
use ecs_private.Fsm.{
  Entry, Configuration, Fsm, ret_ok, ret_fail, max_length_fsm_event_queue, match_loop, event_loop,
  update_fsm, add_event_fsm_int,
}
use ecs_private.Fsm.Index.{IsValid, positions, bucket, index_of}

-- The reference: read the whole table; the last transition that leaves `s` on `event` decides.
unfoldable pub scan : List Entry → ℕ → ℕ → ℕ → ℕ
scan [] s event state = state
scan (t ∷ ts) s event state =
    scan ts s event (if t.state1 == s && event == t.transition_event then t.state2 else state)

abbrev pub react : List Entry → ℕ → ℕ → ℕ
react ts s event = scan ts s event s

unfoldable pub run_table : List Entry → ℕ → List ℕ → ℕ
run_table ts s [] = s
run_table ts s (event ∷ events) = run_table ts (react ts s event) events

match_loop_lem :
    (pre ts : List Entry) (queue : List ℕ) (i event s : ℕ) (seen : List (Option ℕ)) (n state : ℕ)
    → get_elem? queue i ≡ some event
    → match_loop
        (pre ++ ts)
        queue
        i
        (record {
          pointers = seen ++ map some (positions s ts (length pre));
          number_of_transitions = n;
        })
        (length (positions s ts (length pre)))
        (length seen)
        state
      ≡ some (scan ts s event state)
unfolding match_loop positions scan
match_loop_lem pre [] queue i event s seen n state h = refl
match_loop_lem pre (t ∷ ts) queue i event s seen n state h = elim (Bool-cases (t.state1 == s)) [
  | inl same ↦
      rw
        (
          same,
          get_elem?-append (some (length pre)) seen (map some (positions s ts (length pre + 1))),
          get_elem?-append t pre ts,
          h,
        )
        (simp (append_assoc, length-append {0}) at
          (match_loop_lem (pre ++ t ∷ []) ts queue i event s (seen ++ some (length pre) ∷ []) n
            (if event == t.transition_event then t.state2 else state) h))
  | inr other ↦ rw (other) (
      simp (append_assoc, length-append {0}) at
        (match_loop_lem (pre ++ t ∷ []) ts queue i event s seen n state h))
]

scan_lt :
    (states : ℕ) (ts : List Entry) (s event state : ℕ)
    → All (λ t. t.state2 < states) ts
    → state < states
    → scan ts s event state < states
unfolding scan
scan_lt states [] s event state h lt = lt
scan_lt states (t ∷ ts) s event state h lt =
    scan_lt states ts s event
      (if t.state1 == s && event == t.transition_event then t.state2 else state) h.1 (ground arith)

-- The transitions lead from states to states, so the machine is always in one.
pub run_table_lt :
    (c : Configuration) (s : ℕ) (events : List ℕ)
    → IsValid c
    → s < c.number_of_states
    → run_table c.entries s events < c.number_of_states
unfolding run_table
run_table_lt c s [] v lt = lt
run_table_lt c s (event ∷ events) v lt =
    run_table_lt c (react c.entries s event) events v
      (scan_lt c.number_of_states c.entries s event s v.targets lt)

event_loop_lem :
    (c : Configuration) (pre events rest : List ℕ) (s : ℕ)
    → IsValid c
    → s < c.number_of_states
    → event_loop c.entries (pre ++ (events ++ rest)) (index_of c) (length events) (length pre) s
      ≡ some (run_table c.entries s events)
unfolding event_loop run_table
event_loop_lem c pre [] rest s v lt = refl
event_loop_lem c pre (event ∷ events) rest s v lt =
    rw
      (
        get_elem?-tabulate c.number_of_states (λ u. bucket (positions u c.entries 0) 0) s lt,
        append-nil (map {B = Option ℕ} some (positions s c.entries 0)),
        match_loop_lem [] c.entries (pre ++ (event ∷ events ++ rest)) (length pre) event s []
            (length (positions s c.entries 0)) s (get_elem?-append event pre (events ++ rest)),
      )
      (simp (append_assoc, length-append {0}) at
        (event_loop_lem c (pre ++ event ∷ []) events rest (react c.entries s event) v
          (scan_lt c.number_of_states c.entries s event s v.targets lt)))

-- What holds of a machine between two calls.
pub record IsReady {Map : Type 0} (fsm : Fsm Map) : Type 0 where
  pub configured : IsValid fsm.fsm_configuration
  pub indexed : fsm.state_entries ≡ index_of fsm.fsm_configuration
  pub state_in : fsm.state < fsm.fsm_configuration.number_of_states
  pub queue_length : length fsm.event_queue ≡ max_length_fsm_event_queue
  pub events_in : fsm.number_of_events ≤ max_length_fsm_event_queue

-- The events that wait in the queue.
abbrev pub pending : {Map : Type 0} → Fsm Map → List ℕ
pending fsm = take fsm.number_of_events fsm.event_queue

-- The state that a scan of the whole table gives for the waiting events, and an empty queue.
abbrev pub updated : {Map : Type 0} → Fsm Map → Fsm Map
updated fsm = record fsm {
  state = run_table fsm.fsm_configuration.entries fsm.state (pending fsm);
  number_of_events = 0;
}

-- `update_fsm` never reads outside an array. It leaves the state that a scan of the whole table
-- gives for the waiting events, in their order, and an empty queue; the machine stays ready.
pub update_fsm_lem :
    {Map : Type 0} (fsm : Fsm Map)
    → IsReady fsm
    → (update_fsm fsm ≡ some (updated fsm)) × IsReady (updated fsm)
unfolding update_fsm
update_fsm_lem fsm r = (rw (r.indexed, loop) refl, ready)
  where
    c : Configuration
    c = fsm.fsm_configuration

    loop :
        event_loop c.entries fsm.event_queue (index_of c) fsm.number_of_events 0 fsm.state
        ≡ some (run_table c.entries fsm.state (pending fsm))
    loop =
        rw
          (
            take-append-drop fsm.number_of_events fsm.event_queue,
            length-take fsm.number_of_events fsm.event_queue (omega arith),
          )
          at
          (event_loop_lem c [] (pending fsm) (drop fsm.number_of_events fsm.event_queue) fsm.state
            r.configured r.state_in)

    ready : IsReady (updated fsm)
    ready = record {
      configured = r.configured;
      indexed = r.indexed;
      state_in = run_table_lt c fsm.state (pending fsm) r.configured r.state_in;
      queue_length = r.queue_length;
      events_in = omega arith;
    }

-- While fewer than ten events wait, `add_event_fsm_int` puts the event behind them; otherwise it
-- fails and changes nothing.
pub add_event_fsm_int_lem :
    {Map : Type 0} (fsm : Fsm Map) (event : ℕ)
    → IsReady fsm
    → let (r, fsm') = add_event_fsm_int fsm event in
      IsReady fsm'
      × (fsm'.state ≡ fsm.state)
      × (pending fsm'
          ≡ (if ltb fsm.number_of_events 10 then pending fsm ++ event ∷ [] else pending fsm))
      × (r ≡ (if ltb fsm.number_of_events 10 then ret_ok else ret_fail))
unfolding add_event_fsm_int
add_event_fsm_int_lem fsm event r =
    elim (Bool-cases (ltb fsm.number_of_events max_length_fsm_event_queue)) [
      | inl room ↦ rw room (ready room, refl, appended room, refl)
      | inr full ↦ rw full (r, refl, refl, refl)
    ]
  where
    appended :
        ltb fsm.number_of_events 10 ≡ true
        → take (fsm.number_of_events + 1) (set fsm.event_queue fsm.number_of_events event)
          ≡ pending fsm ++ event ∷ []
    appended room =
        rw add-one
          (take-set_end fsm.event_queue fsm.number_of_events event (omega (arith, ltb→lt _ _ room)))

    ready :
        ltb fsm.number_of_events 10 ≡ true
        → IsReady (record fsm {
          event_queue = set fsm.event_queue fsm.number_of_events event;
          number_of_events = fsm.number_of_events + 1;
        })
    ready room = record {
      configured = r.configured;
      indexed = r.indexed;
      state_in = r.state_in;
      queue_length = length-set fsm.event_queue fsm.number_of_events event ∙ r.queue_length;
      events_in = omega (arith, ltb→lt _ _ room);
    }
