-- ===== src/Lcsm/Refine.antt =====
-- The life-cycle machine (lcsm.c) behaves as a state with a bounded queue of pending events.
use mathlib.Core.List.{append_assoc}
use ecs_private.Common.{
  ℕ, zero, suc, ◌+◌, ◌-◌, ◌≤◌, ◌<◌, ◌≡◌, refl, ap, sym, ◌∙◌, List, [], ◌∷◌, ◌++◌, Option, some,
  arith, length, set, replicate, ltb, if◌then◌else◌, ◌>>=◌, length-append, get_elem?-append,
  set-append, ltb→lt, Bool-cases, inl, inr, true,
}
use ecs_private.Lcsm.{
  State, Event, empty, creation, Lcsm, Ret, ret_ok, ret_fail, max_event_queue, init_lcsm, next,
  update_loop, update_lcsm, add_event,
}
use ecs_private.Lcsm.Diagram.{run}

-- The array that holds the pending events, and then empty cells.
abbrev pub cells : List Event → List Event
cells ps = ps ++ replicate (max_event_queue - length ps) empty

-- The machine of a state and its pending events.
abbrev pub machine : State → List Event → Lcsm
machine s ps = record { state = s; event_queue = cells ps; number_of_events = length ps }

-- A new machine is in creation and has no pending event.
pub init_lcsm_lem : init_lcsm ≡ machine creation []
unfolding init_lcsm
init_lcsm_lem = refl

module _ {ℓ} {A : Type ℓ} (x : A) where
  replicate-append : (m n : ℕ) → replicate m x ++ replicate n x ≡ replicate (m + n) x
  replicate-append zero n = ap (λ k. replicate k x) (omega arith)
  replicate-append (suc m) n =
      ap (λ l. x ∷ l) (replicate-append m n)
      ∙ ap (λ k. replicate k x) {x = suc (m + n)} {y = suc m + n} (omega arith)

-- The loop, with the cells `pre` behind it and `ps` to be taken.
update_loop_lem :
    (s : State) (pre ps rest : List Event) (n : ℕ)
    → update_loop
        (length ps)
        (length pre)
        (record { state = s; event_queue = pre ++ (ps ++ rest); number_of_events = n })
      ≡ some (record {
        state = run s ps;
        event_queue = pre ++ (replicate (length ps) empty ++ rest);
        number_of_events = n;
      })
unfolding update_loop run
update_loop_lem s pre [] rest n = refl
update_loop_lem s pre (p ∷ ps) rest n =
    rw (get_elem?-append p pre (ps ++ rest), set-append empty p pre (ps ++ rest))
      (simp (append_assoc, length-append {0}) at
        (update_loop_lem (next s p) (pre ++ empty ∷ []) ps rest n))

-- `update_lcsm` takes all the pending events, in order, and leaves none.
pub update_lcsm_lem :
    (s : State) (ps : List Event)
    → length ps ≤ max_event_queue
    → update_lcsm (machine s ps) ≡ some (machine (run s ps) [])
unfolding update_lcsm
update_lcsm_lem s ps h =
    rw (update_loop_lem s [] ps (replicate (max_event_queue - length ps) empty) (length ps))
      (rw (replicate-append empty (length ps) (max_event_queue - length ps), whole) refl)
  where
    whole : length ps + (max_event_queue - length ps) ≡ max_event_queue
    whole = omega arith

room_cell :
    (ps : List Event) (e : Event)
    → length ps < max_event_queue
    → replicate (max_event_queue - length ps) empty
      ≡ empty ∷ replicate (max_event_queue - length (ps ++ e ∷ [])) empty
room_cell ps e h = ap (λ k. replicate k empty) left
  where
    left : max_event_queue - length ps ≡ suc (max_event_queue - length (ps ++ e ∷ []))
    left = omega (arith, length-append ps (e ∷ []))

cells-append :
    (ps : List Event) (e : Event)
    → length ps < max_event_queue
    → set (cells ps) (length ps) e ≡ cells (ps ++ e ∷ [])
cells-append ps e h =
    rw (room_cell ps e h, set-append e empty ps _) (sym (append_assoc ps (e ∷ []) _))

-- `add_event` appends to the pending events while there is room for one more.
pub add_event_lem :
    (s : State) (ps : List Event) (e : Event)
    → add_event (machine s ps) e ≡ (
        if ltb (length ps) max_event_queue
        then (ret_ok, machine s (ps ++ e ∷ []))
        else (ret_fail, machine s ps))
unfolding add_event
add_event_lem s ps e = elim (Bool-cases (ltb (length ps) max_event_queue)) [
  | inl room ↦
      rw (room, cells-append ps e (ltb→lt _ _ room))
        (ap (λ n. (ret_ok, record (machine s (ps ++ e ∷ [])) { number_of_events = n }))
          (sym (length-append ps (e ∷ []))))
  | inr full ↦ rw (full) refl
]

-- What a client may ask of a machine.
pub data Call : Type 0 where
  fire : Event → Call
  update : Call

-- The calls made on the C structure, with what each `add_event` returned.
unfoldable pub calls : List Call → Lcsm → Option (List Ret × Lcsm)
calls [] sm = some ([], sm)
calls (fire e ∷ cs) sm = do
  let (r, sm') = add_event sm e
  (rs, sm'') ← calls cs sm'
  some (r ∷ rs, sm'')
calls (update ∷ cs) sm = do sm' ← update_lcsm sm; calls cs sm'

-- The same calls on a state and a queue that holds at most `max_event_queue` events.
unfoldable pub queue_calls : List Call → State → List Event → List Ret × State × List Event
queue_calls [] s ps = ([], s, ps)
queue_calls (fire e ∷ cs) s ps =
    let room = ltb (length ps) max_event_queue in
    let (rs, s', ps') = queue_calls cs s (if room then ps ++ e ∷ [] else ps) in
    ((if room then ret_ok else ret_fail) ∷ rs, s', ps')
queue_calls (update ∷ cs) s ps = queue_calls cs (run s ps) []

-- No sequence of calls reads outside the array, and none tells the structure from a state with
-- the queue of its pending events.
pub calls_refine :
    (cs : List Call) (s : State) (ps : List Event)
    → length ps ≤ max_event_queue
    → let (rs, s', ps') = queue_calls cs s ps in calls cs (machine s ps) ≡ some (rs, machine s' ps')
unfolding calls queue_calls
calls_refine [] s ps h = refl
calls_refine (fire e ∷ cs) s ps h = elim (Bool-cases (ltb (length ps) max_event_queue)) [
  | inl room ↦
      rw (add_event_lem s ps e, room) (rw (calls_refine cs s (ps ++ e ∷ []) (fits room)) refl)
  | inr full ↦ rw (add_event_lem s ps e, full) (rw (calls_refine cs s ps h) refl)
]
  where
    fits : ltb (length ps) max_event_queue ≡ true → length (ps ++ e ∷ []) ≤ max_event_queue
    fits room = omega (arith, length-append ps (e ∷ []), ltb→lt _ _ room)
calls_refine (update ∷ cs) s ps h =
    rw (update_lcsm_lem s ps h) (calls_refine cs (run s ps) [] (omega arith))
