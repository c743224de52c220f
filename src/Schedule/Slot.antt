-- ===== src/Schedule/Slot.antt =====
-- A pass over an eventloop of one schedule, one of whose functions may put another schedule in its
-- place: the loop of `execute_schedule` (five_c/src/schedule.c) goes on in the schedule that it finds
-- in the cell.
use ecs_private.Common.{
  ℕ, zero, suc, ◌+◌, ◌≤◌, ◌≡◌, refl, sym, ap, ap₂, ◌∙◌, inl, inr, List, [], ◌∷◌, ◌++◌, Option, some,
  Bool, true, false, arith, length, get_elem?, All, if◌then◌else◌, ◌>>=◌, Option-cases, Bool-cases,
  eq_of_some, none-ne-some, length-append, append_assoc, get_elem?-append,
}
use ecs_private.Schedule.{
  NamedFunction, Schedule, ScheduleTable, execute_named_function, execute_loop, execute_schedule,
  eventloop_schedule, do_schedule_eventloop,
}
use ecs_private.Schedule.Execute.{calls, loop_stops, loop_goes, pass_stops, pass_goes}

module _ {S F Map : Type 0} (call : F → S → Option S) (table : S → ScheduleTable Map F) where
  -- The schedule in the first cell of the eventloop.
  abbrev pub slot : S → Option (Schedule F)
  slot s = eventloop_schedule call table 0 s

  -- The function leaves the table alone.
  abbrev pub KeepsTable : Option (NamedFunction F) → Type 0
  KeepsTable f = (s s' : S) → execute_named_function call f s ≡ some s' → table s' ≡ table s

  pub calls_keep :
      (fs : List (Option (NamedFunction F))) (s : S) {s' : S}
      → All KeepsTable fs
      → calls call fs s ≡ some s'
      → table s' ≡ table s
  unfolding calls
  calls_keep [] s k e = ap table (sym (eq_of_some e))
  calls_keep (f ∷ fs) s k e = elim (Option-cases (execute_named_function call f s)) [
    | inl fault ↦ absurd (none-ne-some (rw fault at e))
    | inr (s1, done) ↦ calls_keep fs s1 k.1 (rw done at e) ∙ k.0 s s1 done
  ]

  keep_run :
      (x : Schedule F) (pre fs rest : List (Option (NamedFunction F))) (total rounds : ℕ) (s : S)
      → total ≡ length fs + rounds
      → All KeepsTable fs
      → slot s ≡ some x
      → x.named_functions ≡ pre ++ (fs ++ rest)
      → length pre + length fs ≤ x.number_of_functions
      → execute_loop call slot total (length pre) s
        ≡ (calls call fs s >>= execute_loop call slot rounds (length pre + length fs))
  unfolding calls
  keep_run x pre [] rest total rounds s t k e c n =
      let a : total ≡ rounds = omega arith in
      let b : length pre ≡ length pre + 0 = omega arith in
      ap₂ (λ r i. execute_loop call slot r i s) a b
  keep_run x pre (f ∷ fs) rest zero rounds s t k e c n = absurd (omega arith)
  keep_run x pre (f ∷ fs) rest (suc total) rounds s t k e c n =
      rw (loop_goes call slot x f total (length pre) s e (omega arith) at_pre)
        (elim (Option-cases (execute_named_function call f s)) [
          | inl fault ↦ rw fault refl
          | inr (s1, done) ↦
              rw (done, sym (length-append pre (f ∷ [])))
                (keep_run x (pre ++ f ∷ []) fs rest total rounds s1 (omega arith) k.1
                    (ap (λ t. get_elem? t.eventloop_schedules 0) (k.0 s s1 done) ∙ e)
                    (c ∙ sym (append_assoc pre (f ∷ []) (fs ++ rest)))
                    (omega (arith, length-append pre (f ∷ [])))
                  ∙ ap (λ i. calls call fs s1 >>= execute_loop call slot rounds i)
                      {x = length (pre ++ f ∷ []) + length fs} {y = length pre + suc (length fs)}
                      (omega (arith, length-append pre (f ∷ []))))
        ])
    where
      at_pre : get_elem? x.named_functions (length pre) ≡ some f
      at_pre = rw (c, get_elem?-append f pre (fs ++ rest)) refl

  -- The functions `pre`, then the one that may exchange the schedule; then the others, unless it did.
  unfoldable pub turn :
      (S → Bool)
      → List (Option (NamedFunction F))
      → Option (NamedFunction F)
      → List (Option (NamedFunction F))
      → S
      → Option S
  turn left pre conf post s = do
    s1 ← calls call pre s
    s2 ← execute_named_function call conf s1
    let rest = calls call post s2
    if left s2 then some s2 else rest

  -- What `conf` leaves when it is called with the table as it is in `s`: the schedule `x`, or one with
  -- no more than `n` functions; and no second schedule.
  pub record Exchanges (left : S → Bool) (x : Schedule F) (n : ℕ) (conf : Option (NamedFunction F))
      (s : S) : Type 0 where
    pub stays :
        (s1 s2 : S)
        → table s1 ≡ table s
        → execute_named_function call conf s1 ≡ some s2
        → left s2 ≡ false
        → slot s2 ≡ some x
    pub goes :
        (s1 s2 : S)
        → table s1 ≡ table s
        → execute_named_function call conf s1 ≡ some s2
        → left s2 ≡ true
        → (y : Schedule F) × (slot s2 ≡ some y) × (y.number_of_functions ≤ n)
    pub single :
        (s1 s2 : S)
        → table s1 ≡ table s
        → execute_named_function call conf s1 ≡ some s2
        → (table s2).number_of_eventloop_schedules ≤ 1

  -- The loop from the index behind `skip`.
  pub turn_lem :
      (left : S → Bool) (x : Schedule F) (skip pre : List (Option (NamedFunction F)))
      (conf : Option (NamedFunction F)) (post rest : List (Option (NamedFunction F)))
      (total rounds : ℕ) (s : S)
      → total ≡ length pre + suc (length post + rounds)
      → All KeepsTable pre
      → All KeepsTable post
      → Exchanges left x (length skip + length pre + 1) conf s
      → slot s ≡ some x
      → x.named_functions ≡ skip ++ (pre ++ (conf ∷ (post ++ rest)))
      → x.number_of_functions ≡ length skip + length pre + 1 + length post
      → execute_loop call slot total (length skip) s ≡ turn left pre conf post s
  unfolding turn
  turn_lem left x skip pre conf post rest total rounds s t kpre kpost ex e c n =
      rw
        (keep_run x skip pre (conf ∷ (post ++ rest)) total (suc (length post + rounds)) s t kpre e c
          (omega arith))
        (elim (Option-cases (calls call pre s)) [
          | inl fault ↦ rw fault refl
          | inr (s1, done) ↦ rw done (configured s1 (calls_keep pre s kpre done))
        ])
    where
      whole : x.named_functions ≡ (skip ++ pre) ++ (conf ∷ (post ++ rest))
      whole = c ∙ sym (append_assoc skip pre (conf ∷ (post ++ rest)))

      behind : x.named_functions ≡ (skip ++ (pre ++ conf ∷ [])) ++ (post ++ rest)
      behind =
          c
          ∙ ap (λ l. skip ++ l) (sym (append_assoc pre (conf ∷ []) (post ++ rest)))
          ∙ sym (append_assoc skip (pre ++ conf ∷ []) (post ++ rest))

      index : length skip + length pre ≡ length (skip ++ pre)
      index = sym (length-append skip pre)

      next_index : length skip + length pre + 1 ≡ length (skip ++ (pre ++ conf ∷ []))
      next_index =
          omega (arith, length-append skip (pre ++ conf ∷ []), length-append pre (conf ∷ []))

      remaining :
          (s2 : S)
          → slot s2 ≡ some x
          → execute_loop call slot (length post + rounds) (length skip + length pre + 1) s2
            ≡ calls call post s2
      remaining s2 here =
          rw
            (
              next_index,
              keep_run x (skip ++ (pre ++ conf ∷ [])) post rest (length post + rounds) rounds s2
                  refl kpost here behind (omega (arith, next_index)),
            )
            (elim (Option-cases (calls call post s2)) [
              | inl fault ↦ rw fault refl
              | inr (s3, done) ↦ rw done (
                  loop_stops call slot x rounds (length (skip ++ (pre ++ conf ∷ [])) + length post)
                    s3
                    (ap (λ t. get_elem? t.eventloop_schedules 0) (calls_keep post s2 kpost done)
                      ∙ here)
                    (omega (arith, next_index)))
            ])

      configured :
          (s1 : S)
          → table s1 ≡ table s
          → execute_loop call slot (suc (length post + rounds)) (length skip + length pre) s1 ≡ (
              execute_named_function call conf s1 >>= λ s2.
              if left s2 then some s2 else calls call post s2)
      configured s1 same =
          rw
            (loop_goes call slot x conf (length post + rounds) (length skip + length pre) s1
              (ap (λ t. get_elem? t.eventloop_schedules 0) same ∙ e) (omega arith)
              (rw (whole, index, get_elem?-append conf (skip ++ pre) (post ++ rest)) refl))
            (elim (Option-cases (execute_named_function call conf s1)) [
              | inl fault ↦ rw fault refl
              | inr (s2, done) ↦ rw done (elim (Bool-cases (left s2)) [
                | inl gone ↦
                    let y = ex.goes s1 s2 same done gone in
                    rw gone (
                      loop_stops call slot y.0 (length post + rounds) (length skip + length pre + 1)
                        s2 y.1 y.2)
                | inr kept ↦ rw kept (remaining s2 (ex.stays s1 s2 same done kept))
              ])
            ])

  -- After a turn there is no second schedule to be run in the pass.
  pub turn_single :
      (left : S → Bool) (x : Schedule F) (n : ℕ) (pre : List (Option (NamedFunction F)))
      (conf : Option (NamedFunction F)) (post : List (Option (NamedFunction F))) (s : S) {s' : S}
      → All KeepsTable pre
      → All KeepsTable post
      → Exchanges left x n conf s
      → turn left pre conf post s ≡ some s'
      → (table s').number_of_eventloop_schedules ≤ 1
  unfolding turn
  turn_single left x n pre conf post s {s'} kpre kpost ex e =
      elim (Option-cases (calls call pre s)) [
        | inl fault ↦ absurd (none-ne-some (rw fault at e))
        | inr (s1, done) ↦ elim (Option-cases (execute_named_function call conf s1)) [
          | inl fault ↦ absurd (none-ne-some (rw (done, fault) at e))
          | inr (s2, configured) ↦
              let one : (table s2).number_of_eventloop_schedules ≤ 1 =
                ex.single s1 s2 (calls_keep pre s kpre done) configured in
              elim (Bool-cases (left s2)) [
                | inl gone ↦ rw (eq_of_some (rw (done, configured, gone) at e)) at one
                | inr kept ↦ rw (calls_keep post s2 kpost (rw (done, configured, kept) at e)) one
              ]
        ]
      ]

  -- A pass over a single schedule is what `execute_schedule` does with it, if no second one is left.
  pub single_pass :
      (t : Option S) (s : S)
      → (table s).number_of_eventloop_schedules ≡ 1
      → execute_schedule call slot s ≡ t
      → ((s' : S) → t ≡ some s' → (table s').number_of_eventloop_schedules ≤ 1)
      → do_schedule_eventloop call table s ≡ t
  unfolding do_schedule_eventloop
  single_pass t s one e single =
      rw (pass_goes call table 31 0 s (omega (arith, one)), e)
        (elim (Option-cases t) [
          | inl fault ↦ rw fault refl
          | inr (s', done) ↦ rw done (pass_stops call table 31 1 s' (single s' done))
        ])
