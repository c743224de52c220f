-- ===== src/Schedule/Remove.antt =====
-- What `remove_schedule_from_eventloop` (five_c/src/schedule.c) leaves in the eventloop.
use ecs_private.Common.{
  ℕ, zero, suc, ◌+◌, ◌-◌, ◌≤◌, ◌≡◌, refl, sym, ap, ap₂, ◌∙◌, inl, inr, List, [], ◌∷◌, ◌++◌, some,
  true, false, arith, length, take, drop, ◌==◌, if◌then◌else◌, ◌>>=◌, Bool-cases, length-append,
  append_assoc, get_elem?-append, get_elem?-append_next, set-append, take-append, take-append-drop,
  length-take, String, str_eq, lt→ltb, le→ltb_false,
}
use ecs_private.Schedule.{
  Schedule, ScheduleTable, max_number_of_schedules, shift_loop, remove_at, remove_loop,
  remove_schedule_from_eventloop,
}

module _ {Map F : Type 0} where
  -- The table with other cells and another count.
  abbrev pub with_cells : ScheduleTable Map F → List (Schedule F) → ℕ → ScheduleTable Map F
  with_cells table cells n = record table {
    eventloop_schedules = cells;
    number_of_eventloop_schedules = n;
  }

  -- What holds of a table between two calls.
  pub record IsValid (table : ScheduleTable Map F) : Type 0 where
    pub cells_length : length table.eventloop_schedules ≡ max_number_of_schedules
    pub number_le : table.number_of_eventloop_schedules ≤ max_number_of_schedules

  -- The schedules that are in the eventloop, in order.
  abbrev pub eventloop : ScheduleTable Map F → List (Schedule F)
  eventloop table = take table.number_of_eventloop_schedules table.eventloop_schedules

-- One pass over the eventloop: a schedule of the name goes, and the one that moves to its place is
-- passed over.
unfoldable pub remove_pass : {F : Type 0} → String → List (Schedule F) → List (Schedule F)
remove_pass name [] = []
remove_pass name (s ∷ []) = if str_eq s.name name then [] else s ∷ []
remove_pass name (s ∷ s' ∷ ss) =
    let gone = s' ∷ remove_pass name ss in
    let kept = s ∷ remove_pass name (s' ∷ ss) in if str_eq s.name name then gone else kept

shift_loop_lem :
    {F : Type 0} (pre : List (Schedule F)) (s : Schedule F) (ss dead : List (Schedule F))
    → (x : Schedule F) × (shift_loop (length ss) (length pre) (pre ++ s ∷ (ss ++ dead))
        ≡ some (pre ++ (ss ++ x ∷ dead)))
unfolding shift_loop
shift_loop_lem pre s [] dead = (s, refl)
shift_loop_lem pre s (s' ∷ ss) dead =
    let ih = shift_loop_lem (pre ++ s' ∷ []) s' ss dead in
    (
      ih.0,
      rw (get_elem?-append_next s s' pre (ss ++ dead), set-append s' s pre (s' ∷ (ss ++ dead)))
          (simp (append_assoc, length-append {0}) at ih.1),
    )

module _ {Map F : Type 0} (table : ScheduleTable Map F) where
  -- The table of the live cells `live` behind `pre`, and `dead` cells behind those.
  abbrev split : List (Schedule F) → List (Schedule F) → List (Schedule F) → ScheduleTable Map F
  split pre live dead = with_cells table (pre ++ (live ++ dead)) (length pre + length live)

  remove_at_lem :
      (pre : List (Schedule F)) (s : Schedule F) (ss dead : List (Schedule F))
      → (x : Schedule F) × (remove_at (split pre (s ∷ ss) dead) (length pre)
          ≡ some (split pre ss (x ∷ dead)))
  unfolding remove_at
  remove_at_lem pre s [] dead = (
    s,
    rw same (
        ap (λ n. some (with_cells table (pre ++ s ∷ dead) n)) {x = length pre + 1 - 1}
          {y = length pre + 0} (omega arith)),
  )
    where
      same : (length pre == length pre + 1 - 1) ≡ true
      same = ground arith
  remove_at_lem pre s (s' ∷ ss) dead = (
    shifted.0,
    rw (differ, rounds)
        (rw shifted.1
          (ap (λ n. some (with_cells table (pre ++ s' ∷ (ss ++ shifted.0 ∷ dead)) n)) last)),
  )
    where
      shifted :
          (x : Schedule F) × (shift_loop
              (suc (length ss))
              (length pre)
              (pre ++ s ∷ (s' ∷ (ss ++ dead)))
            ≡ some (pre ++ s' ∷ (ss ++ x ∷ dead)))
      shifted = shift_loop_lem pre s (s' ∷ ss) dead

      differ : (length pre == length pre + suc (suc (length ss)) - 1) ≡ false
      differ = ground arith

      rounds : length pre + suc (suc (length ss)) - 1 - length pre ≡ suc (length ss)
      rounds = omega arith

      last : length pre + suc (suc (length ss)) - 1 ≡ length pre + suc (length ss)
      last = omega arith

  resplit :
      (pre : List (Schedule F)) (s : Schedule F) (ss dead : List (Schedule F))
      → split pre (s ∷ ss) dead ≡ split (pre ++ s ∷ []) ss dead
  resplit pre s ss dead =
      ap₂ (with_cells table) (sym (append_assoc pre (s ∷ []) (ss ++ dead)))
        (omega (arith, length-append pre (s ∷ [])))

  loop_ends :
      (name : String) (rounds i : ℕ) (t : ScheduleTable Map F)
      → t.number_of_eventloop_schedules ≤ i
      → remove_loop rounds i name t ≡ some t
  unfolding remove_loop
  loop_ends name zero i t h = rw (le→ltb_false i t.number_of_eventloop_schedules h) refl
  loop_ends name (suc rounds) i t h =
      rw (le→ltb_false i t.number_of_eventloop_schedules h, remove_loop) refl

  loop_step :
      (name : String) (rounds : ℕ) (pre : List (Schedule F)) (s : Schedule F)
      (ss dead : List (Schedule F))
      → remove_loop (suc rounds) (length pre) name (split pre (s ∷ ss) dead) ≡ (
          (if str_eq s.name name
            then remove_at (split pre (s ∷ ss) dead) (length pre)
            else some (split pre (s ∷ ss) dead))
          >>= remove_loop rounds (length pre + 1) name)
  unfolding remove_loop
  loop_step name rounds pre s ss dead =
      rw
        (
          lt→ltb (length pre) (length pre + suc (length ss)) (omega arith),
          remove_loop,
          get_elem?-append s pre (ss ++ dead),
        )
        refl

  next_index : (pre : List (Schedule F)) (s : Schedule F) → length pre + 1 ≡ length (pre ++ s ∷ [])
  next_index pre s = sym (length-append pre (s ∷ []))

  -- The loop from the first live cell, with a round for each cell that is left.
  remove_loop_lem :
      (name : String) (rounds : ℕ) (pre live dead : List (Schedule F))
      → rounds ≡ length live + length dead
      → (dead' : List (Schedule F)) × (remove_loop rounds (length pre) name (split pre live dead)
          ≡ some (split pre (remove_pass name live) dead'))
        × (length (remove_pass name live) + length dead' ≡ length live + length dead)
  unfolding remove_pass
  remove_loop_lem name rounds pre [] dead e =
      (dead, loop_ends name rounds (length pre) (split pre [] dead) (omega arith), refl)
  remove_loop_lem name zero pre (s ∷ ss) dead e = absurd (omega arith)
  remove_loop_lem name (suc rounds) pre (s ∷ []) dead e = elim (Bool-cases (str_eq s.name name)) [
    | inl gone ↦
        let r = remove_at_lem pre s [] dead in
        rw (loop_step name rounds pre s [] dead, gone, r.1)
          (
            r.0 ∷ dead,
            loop_ends name rounds (length pre + 1) (split pre [] (r.0 ∷ dead)) (omega arith),
            omega arith,
          )
    | inr kept ↦
        rw (loop_step name rounds pre s [] dead, kept)
          (
            dead,
            loop_ends name rounds (length pre + 1) (split pre (s ∷ []) dead) (omega arith),
            refl,
          )
  ]
  remove_loop_lem name (suc rounds) pre (s ∷ s' ∷ ss) dead e =
      elim (Bool-cases (str_eq s.name name)) [
        | inl gone ↦
            let r = remove_at_lem pre s (s' ∷ ss) dead in
            let ih = remove_loop_lem name rounds (pre ++ s' ∷ []) ss (r.0 ∷ dead) (omega arith) in
            rw
              (
                loop_step name rounds pre s (s' ∷ ss) dead,
                gone,
                r.1,
                next_index pre s',
                resplit pre s' ss (r.0 ∷ dead),
              )
              (ih.0, rw (resplit pre s' (remove_pass name ss) ih.0) ih.1, omega (arith, ih.2))
        | inr kept ↦
            let ih = remove_loop_lem name rounds (pre ++ s ∷ []) (s' ∷ ss) dead (omega arith) in
            rw
              (
                loop_step name rounds pre s (s' ∷ ss) dead,
                kept,
                next_index pre s,
                resplit pre s (s' ∷ ss) dead,
              )
              (ih.0, rw (resplit pre s (remove_pass name (s' ∷ ss)) ih.0) ih.1, omega (arith, ih.2))
      ]

split_table :
    {Map F : Type 0} (table : ScheduleTable Map F)
    → table.number_of_eventloop_schedules ≤ length table.eventloop_schedules
    → table
      ≡ split table []
          (eventloop table)
          (drop table.number_of_eventloop_schedules table.eventloop_schedules)
split_table table h =
    ap₂ (with_cells table)
      (sym (take-append-drop table.number_of_eventloop_schedules table.eventloop_schedules))
      (omega (arith, length-take table.number_of_eventloop_schedules table.eventloop_schedules h))

-- On a valid table the call comes to an end with no access past the array. It changes the eventloop
-- as one pass does that takes out each schedule of the name and passes over the one behind it; the
-- table stays valid, and the registered schedules are as they were.
pub remove_schedule_lem :
    {Map F : Type 0} (table : ScheduleTable Map F) (name : String)
    → IsValid table
    → (table' : ScheduleTable Map F) × (remove_schedule_from_eventloop table name ≡ some table')
      × IsValid table'
      × (eventloop table' ≡ remove_pass name (eventloop table))
      × (table'.hash_map ≡ table.hash_map)
unfolding remove_schedule_from_eventloop
remove_schedule_lem {Map} {F} table name v = (result, runs, valid, left, refl)
  where
    live : List (Schedule F)
    live = eventloop table

    dead : List (Schedule F)
    dead = drop table.number_of_eventloop_schedules table.eventloop_schedules

    inside : table.number_of_eventloop_schedules ≤ length table.eventloop_schedules
    inside = omega (arith, v.cells_length, v.number_le)

    cells : max_number_of_schedules ≡ length live + length dead
    cells =
        sym v.cells_length
        ∙ ap length
            (sym (take-append-drop table.number_of_eventloop_schedules table.eventloop_schedules))
        ∙ length-append live dead

    pass :
        (dead' : List (Schedule F)) × (remove_loop max_number_of_schedules 0 name
            (split table [] live dead)
          ≡ some (split table [] (remove_pass name live) dead'))
        × (length (remove_pass name live) + length dead' ≡ length live + length dead)
    pass = remove_loop_lem table name max_number_of_schedules [] live dead cells

    result : ScheduleTable Map F
    result = split table [] (remove_pass name live) pass.0

    runs : remove_loop max_number_of_schedules 0 name table ≡ some result
    runs = ap (remove_loop max_number_of_schedules 0 name) (split_table table inside) ∙ pass.1

    valid : IsValid result
    valid = record {
      cells_length = length-append (remove_pass name live) pass.0 ∙ pass.2 ∙ sym cells;
      number_le = omega (arith, pass.2, cells);
    }

    left : eventloop result ≡ remove_pass name live
    left =
        ap (λ n. take n (remove_pass name live ++ pass.0)) {x = 0 + length (remove_pass name live)}
          {y = length (remove_pass name live)} (omega arith)
        ∙ take-append (remove_pass name live) pass.0
