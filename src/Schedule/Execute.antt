-- ===== src/Schedule/Execute.antt =====
-- What `execute_schedule` and `do_schedule_eventloop` (five_c/src/schedule.c) run, and in what order,
-- as long as no call that they make changes the schedules that are being run.
use ecs_private.Common.{
  ℕ, zero, suc, ◌+◌, ◌<◌, ◌≤◌, ◌≡◌, refl, sym, ap, ◌∙◌, inl, inr, List, [], ◌∷◌, ◌++◌, Option, none,
  some, arith, length, get_elem?, drop, All, ◌>>=◌, Option-cases, eq_of_some, none-ne-some,
  length-append, append_assoc, get_elem?-append, take-append-drop, length-take,
}
use ecs_private.Schedule.{
  NamedFunction, Schedule, ScheduleTable, max_number_of_functions, max_number_of_schedules,
  execute_named_function, execute_loop, execute_schedule, eventloop_schedule, eventloop_loop,
  do_schedule_eventloop,
}
use ecs_private.Schedule.Remove.{eventloop}
use ecs_private.Schedule.Remove
use ecs_private.Schedule.Table.{functions}

-- A schedule within its array.
pub record IsBounded {F : Type 0} (schedule : Schedule F) : Type 0 where
  pub cells_length : length schedule.named_functions ≡ max_number_of_functions
  pub number_le : schedule.number_of_functions ≤ max_number_of_functions

module _ {S F : Type 0} (call : F → S → Option S) where
  -- The calls of a list, one after the other; the first fault ends them.
  unfoldable pub calls : List (Option (NamedFunction F)) → S → Option S
  calls [] s = some s
  calls (f ∷ fs) s = do s' ← execute_named_function call f s; calls fs s'

  -- No call of the list, when they are made one after the other, changes what `read` finds.
  unfoldable pub Stays : {A : Type 0} → (S → A) → List (Option (NamedFunction F)) → S → Type 0
  Stays read [] s = Unit
  Stays read (f ∷ fs) s =
      (s' : S) → execute_named_function call f s ≡ some s' → (read s' ≡ read s) × Stays read fs s'

  -- What no function ever changes, the calls of a list do not change.
  pub Keeps-Stays :
      {A : Type 0} (read : S → A)
      → ((f : F) (s s' : S) → call f s ≡ some s' → read s' ≡ read s)
      → (fs : List (Option (NamedFunction F))) (s : S) → Stays read fs s
  unfolding Stays execute_named_function
  Keeps-Stays read k [] s = tt
  Keeps-Stays read k (none ∷ fs) s = λ s' e. absurd (none-ne-some e)
  Keeps-Stays read k (some f ∷ fs) s = λ s' e. (k f.function s s' e, Keeps-Stays read k fs s')

  -- What is read is enough to know what a part of it is.
  Stays-part :
      {A B : Type 0} (read : S → A) (part : A → B) (fs : List (Option (NamedFunction F))) (s : S)
      → Stays read fs s
      → Stays (λ u. part (read u)) fs s
  unfolding Stays
  Stays-part read part [] s k = tt
  Stays-part read part (f ∷ fs) s k =
      λ s' e. (ap part (k s' e).0, Stays-part read part fs s' (k s' e).1)

  Stays-calls :
      {A : Type 0} (read : S → A) (fs : List (Option (NamedFunction F))) (s : S) {s' : S}
      → Stays read fs s
      → calls fs s ≡ some s'
      → read s' ≡ read s
  unfolding calls Stays
  Stays-calls read [] s k e = ap read (sym (eq_of_some e))
  Stays-calls read (f ∷ fs) s k e = elim (Option-cases (execute_named_function call f s)) [
    | inl fault ↦ absurd (none-ne-some (rw fault at e))
    | inr (s1, done) ↦ Stays-calls read fs s1 (k s1 done).1 (rw done at e) ∙ (k s1 done).0
  ]

  -- The loop ends where the count is reached.
  pub loop_stops :
      (read : S → Option (Schedule F)) (schedule : Schedule F) (rounds i : ℕ) (s : S)
      → read s ≡ some schedule
      → schedule.number_of_functions ≤ i
      → execute_loop call read rounds i s ≡ some s
  unfolding execute_loop
  loop_stops read schedule zero i s e h = ground arith
  loop_stops read schedule (suc rounds) i s e h = ground arith

  -- Below the count it calls the function in the cell, and goes on in what that leaves.
  pub loop_goes :
      (read : S → Option (Schedule F)) (schedule : Schedule F) (f : Option (NamedFunction F))
      (rounds i : ℕ) (s : S)
      → read s ≡ some schedule
      → i < schedule.number_of_functions
      → get_elem? schedule.named_functions i ≡ some f
      → execute_loop call read (suc rounds) i s
        ≡ (execute_named_function call f s >>= execute_loop call read rounds (i + 1))
  unfolding execute_loop
  loop_goes read schedule f rounds i s e h c = ground arith

  execute_loop_lem :
      (read : S → Option (Schedule F)) (schedule : Schedule F)
      (pre fs rest : List (Option (NamedFunction F))) (rounds : ℕ) (s : S)
      → Stays read fs s
      → read s ≡ some schedule
      → schedule.named_functions ≡ pre ++ (fs ++ rest)
      → schedule.number_of_functions ≡ length pre + length fs
      → rounds ≡ length fs + length rest
      → execute_loop call read rounds (length pre) s ≡ calls fs s
  unfolding calls Stays
  execute_loop_lem read schedule pre [] rest rounds s k e c n r =
      loop_stops read schedule rounds (length pre) s e (omega arith)
  execute_loop_lem read schedule pre (f ∷ fs) rest zero s k e c n r = absurd (omega arith)
  execute_loop_lem read schedule pre (f ∷ fs) rest (suc rounds) s k e c n r =
      rw
        (loop_goes read schedule f rounds (length pre) s e (omega arith)
          (rw (c, get_elem?-append f pre (fs ++ rest)) refl))
        (elim (Option-cases (execute_named_function call f s)) [
          | inl fault ↦ rw fault refl
          | inr (s1, done) ↦
              rw (done, sym (length-append pre (f ∷ [])))
                (execute_loop_lem read schedule (pre ++ f ∷ []) fs rest rounds s1 (k s1 done).1
                  ((k s1 done).0 ∙ e) (c ∙ sym (append_assoc pre (f ∷ []) (fs ++ rest)))
                  (omega (arith, length-append pre (f ∷ []))) (omega arith))
        ])

  -- A schedule runs its functions once each, in the order in which they were registered, and no
  -- others, if no call of them changes the schedule.
  pub execute_schedule_lem :
      (read : S → Option (Schedule F)) (schedule : Schedule F) (s : S)
      → Stays read (functions schedule) s
      → IsBounded schedule
      → read s ≡ some schedule
      → execute_schedule call read s ≡ calls (functions schedule) s
  unfolding execute_schedule
  execute_schedule_lem read schedule s k b e =
      execute_loop_lem read schedule [] (functions schedule)
        (drop schedule.number_of_functions schedule.named_functions) max_number_of_functions s k e
        (sym split) (omega (arith, shorter))
        (sym b.cells_length ∙ ap length (sym split) ∙ length-append (functions schedule) _)
    where
      split :
          functions schedule ++ drop schedule.number_of_functions schedule.named_functions
          ≡ schedule.named_functions
      split = take-append-drop schedule.number_of_functions schedule.named_functions

      shorter : length (functions schedule) ≡ schedule.number_of_functions
      shorter =
          length-take schedule.number_of_functions schedule.named_functions
            (omega (arith, b.cells_length, b.number_le))

  module _ {Map : Type 0} (table : S → ScheduleTable Map F) where
    -- The schedules of a list, one after the other.
    unfoldable pub runs : List (Schedule F) → S → Option S
    runs [] s = some s
    runs (c ∷ cs) s = do s' ← calls (functions c) s; runs cs s'

    -- No call of these runs changes the table.
    unfoldable pub StaysRuns : List (Schedule F) → S → Type 0
    StaysRuns [] s = Unit
    StaysRuns (c ∷ cs) s =
        Stays table (functions c) s × ((s' : S) → calls (functions c) s ≡ some s' → StaysRuns cs s')

    pub pass_stops :
        (rounds i : ℕ) (s : S)
        → (table s).number_of_eventloop_schedules ≤ i
        → eventloop_loop call table rounds i s ≡ some s
    unfolding eventloop_loop
    pass_stops zero i s h = ground arith
    pass_stops (suc rounds) i s h = ground arith

    pub pass_goes :
        (rounds i : ℕ) (s : S)
        → i < (table s).number_of_eventloop_schedules
        → eventloop_loop call table (suc rounds) i s ≡ (
            execute_schedule call (eventloop_schedule call table i) s
            >>= eventloop_loop call table rounds (i + 1))
    unfolding eventloop_loop
    pass_goes rounds i s h = ground arith

    eventloop_loop_lem :
        (pre cs dead : List (Schedule F)) (rounds : ℕ) (s : S)
        → StaysRuns cs s
        → All IsBounded cs
        → (table s).eventloop_schedules ≡ pre ++ (cs ++ dead)
        → (table s).number_of_eventloop_schedules ≡ length pre + length cs
        → rounds ≡ length cs + length dead
        → eventloop_loop call table rounds (length pre) s ≡ runs cs s
    unfolding runs StaysRuns
    eventloop_loop_lem pre [] dead rounds s k b c n r =
        pass_stops rounds (length pre) s (omega arith)
    eventloop_loop_lem pre (x ∷ cs) dead zero s k b c n r = absurd (omega arith)
    eventloop_loop_lem pre (x ∷ cs) dead (suc rounds) s k b c n r =
        rw
          (
            pass_goes rounds (length pre) s (omega arith),
            execute_schedule_lem (eventloop_schedule call table (length pre)) x s
                (Stays-part table (λ t. get_elem? t.eventloop_schedules (length pre)) (functions x)
                  s k.0)
                b.0 (rw (c, get_elem?-append x pre (cs ++ dead)) refl),
          )
          (elim (Option-cases (calls (functions x) s)) [
            | inl fault ↦ rw fault refl
            | inr (s1, done) ↦
                let same : table s1 ≡ table s = Stays-calls table (functions x) s k.0 done in
                rw (done, sym (length-append pre (x ∷ [])))
                  (eventloop_loop_lem (pre ++ x ∷ []) cs dead rounds s1 (k.1 s1 done) b.1
                    (rw same (c ∙ sym (append_assoc pre (x ∷ []) (cs ++ dead))))
                    (rw same (omega (arith, n, length-append pre (x ∷ [])))) (omega arith))
          ])

    -- One pass of the eventloop runs the schedules that are in it once each, in the order in which
    -- they were added, if the table is valid, the schedules lie within their arrays, and no call that
    -- the pass makes changes the table.
    pub do_schedule_eventloop_lem :
        (s : S)
        → StaysRuns (eventloop (table s)) s
        → Remove.IsValid (table s)
        → All IsBounded (eventloop (table s))
        → do_schedule_eventloop call table s ≡ runs (eventloop (table s)) s
    unfolding do_schedule_eventloop
    do_schedule_eventloop_lem s k v b =
        eventloop_loop_lem [] (eventloop (table s)) dead max_number_of_schedules s k b (sym split)
          (omega (arith, shorter))
          (sym v.cells_length ∙ ap length (sym split) ∙ length-append (eventloop (table s)) dead)
      where
        n : ℕ
        n = (table s).number_of_eventloop_schedules

        cells : List (Schedule F)
        cells = (table s).eventloop_schedules

        dead : List (Schedule F)
        dead = drop n cells

        split : eventloop (table s) ++ dead ≡ cells
        split = take-append-drop n cells

        shorter : length (eventloop (table s)) ≡ n
        shorter = length-take n cells (omega (arith, v.cells_length, v.number_le))
