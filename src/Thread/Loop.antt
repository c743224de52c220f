-- ===== src/Thread/Loop.antt =====
-- What a thread runs, and when its loop ends (five_c/src/thread.c).
use mathlib.Core.List.{map-append}
use ecs_private.Common.{
  ℕ, zero, suc, ◌+◌, ◌<◌, ◌≤◌, ◌≡◌, refl, sym, ap, ◌∙◌, inl, inr, List, [], ◌∷◌, ◌++◌, map, Option,
  some, Bool, true, false, not, ◌&&◌, arith, length, set, take, ◌>>=◌, append_assoc,
  get_elem?-append, length-append, lt→ltb, length-set, take-set_end, add-one, String, Bool-cases,
  Option-cases, append-nil, take-append-drop, drop, none-ne-some, eq_of_some, subst, ◌↔◌,
}
use ecs_private.Schedule.{Schedule, max_number_of_functions, register_function, execute_schedule}
use ecs_private.Schedule.Table.{functions, named, register_function_lem}
use ecs_private.Schedule.Execute.{calls, Keeps-Stays, execute_schedule_lem}
use ecs_private.Thread.{
  Thread, max_nb_activities, create_thread, register_activity, monitor_loop,
  monitor_activities_alive, thread_round, do_thread_loop,
}

module _ {A : Type 0} where
  -- Registering activities one after the other.
  unfoldable pub register_activities : List (A × String) → Thread A → Option (Thread A)
  register_activities [] thread = some thread
  register_activities ((activity, name) ∷ more) thread = do
    thread' ← register_activity thread activity name
    register_activities more thread'

  -- The cell that points to the flag of an activity.
  abbrev pub watch : A × String → Option A
  watch (activity, name) = some activity

  -- The thread has these activities, and no others.
  pub record Has (those : List (A × String)) (thread : Thread A) : Type 0 where
    pub cells_length : length thread.schedule.named_functions ≡ max_number_of_functions
    pub number : thread.schedule.number_of_functions ≡ length those
    pub scheduled : functions thread.schedule ≡ map named those
    pub flags_length : length thread.activities_deletion_complete ≡ max_nb_activities
    pub nb : thread.nb_activities ≡ length those
    pub watched : take thread.nb_activities thread.activities_deletion_complete ≡ map watch those

  register_activity_lem :
      (those : List (A × String)) (thread : Thread A) (activity : A) (name : String)
      → Has those thread
      → length those < max_nb_activities
      → (thread' : Thread A) × (register_activity thread activity name ≡ some thread')
        × Has (those ++ (activity, name) ∷ []) thread'
  unfolding register_activity
  register_activity_lem those thread activity name h room = (
    record thread {
      schedule = r.0;
      activities_deletion_complete = set cells thread.nb_activities (some activity);
      nb_activities = thread.nb_activities + 1;
    },
    rw (r.1, lt→ltb thread.nb_activities (length cells) inside) refl,
    record {
      cells_length = r.3;
      number = omega (arith, r.4, h.number, length-append those ((activity, name) ∷ []));
      scheduled =
          r.2
          ∙ ap (λ l. l ++ named (activity, name) ∷ []) h.scheduled
          ∙ sym (map-append named those ((activity, name) ∷ []));
      flags_length = length-set cells thread.nb_activities (some activity) ∙ h.flags_length;
      nb = omega (arith, h.nb, length-append those ((activity, name) ∷ []));
      watched =
          rw add-one (take-set_end cells thread.nb_activities (some activity) inside)
          ∙ ap (λ l. l ++ some activity ∷ []) h.watched
          ∙ sym (map-append watch those ((activity, name) ∷ []));
    },
  )
    where
      cells : List (Option A)
      cells = thread.activities_deletion_complete

      inside : thread.nb_activities < length cells
      inside = omega (arith, h.flags_length, h.nb)

      r :
          (schedule' : Schedule A) × (register_function thread.schedule activity name
            ≡ some schedule')
          × (functions schedule' ≡ functions thread.schedule ++ named (activity, name) ∷ [])
          × (length schedule'.named_functions ≡ max_number_of_functions)
          × (schedule'.number_of_functions ≡ thread.schedule.number_of_functions + 1)
      r =
          register_function_lem thread.schedule activity name h.cells_length
            (omega (arith, h.number))

  register_activities_room :
      (those more : List (A × String)) (thread : Thread A)
      → Has those thread
      → length those + length more ≤ max_nb_activities
      → (thread' : Thread A) × (register_activities more thread ≡ some thread')
        × Has (those ++ more) thread'
  unfolding register_activities
  register_activities_room those [] thread h room = (thread, refl, rw (append-nil those) h)
  register_activities_room those ((activity, name) ∷ more) thread h room =
      let r = register_activity_lem those thread activity name h (omega arith) in
      let ih =
        register_activities_room (those ++ (activity, name) ∷ []) more r.0 r.2
          (omega (arith, length-append those ((activity, name) ∷ []))) in
      (ih.0, rw r.1 ih.1, rw (append_assoc those ((activity, name) ∷ []) more) at ih.2)

  -- A thread that was created in a memory of the right size takes up to sixteen activities. It then
  -- runs and watches exactly these, in the order of their registration.
  pub register_activities_lem :
      (memory : Thread A) (cycle_time_ms : ℕ) (those : List (A × String))
      → length memory.schedule.named_functions ≡ max_number_of_functions
      → length memory.activities_deletion_complete ≡ max_nb_activities
      → length those ≤ max_nb_activities
      → (thread : Thread A) × (register_activities those (create_thread memory cycle_time_ms)
          ≡ some thread)
        × Has those thread
  unfolding create_thread
  register_activities_lem memory cycle_time_ms those cells flags room =
      register_activities_room [] those (create_thread memory cycle_time_ms)
        (record {
          cells_length = cells;
          number = refl;
          scheduled = refl;
          flags_length = flags;
          nb = refl;
          watched = refl;
        })
        (omega arith)

  unfoldable pub all_deleted : {S : Type 0} → (A → S → Bool) → List (A × String) → S → Bool
  all_deleted deletion_complete [] s = true
  all_deleted deletion_complete ((activity, name) ∷ more) s =
      deletion_complete activity s && all_deleted deletion_complete more s

and_assoc : (a b c : Bool) → ((a && b) && c) ≡ (a && (b && c))
and_assoc a b c = grind arith

module _ {S A : Type 0} (do_activity : A → S → Option S) (deletion_complete : A → S → Bool) where
  monitor_loop_lem :
      (pre rest : List (Option A)) (those : List (A × String)) (dead : Bool) (s : S)
      → monitor_loop do_activity deletion_complete
          (pre ++ (map watch those ++ rest))
          (length those)
          (length pre)
          dead
          s
        ≡ some (dead && all_deleted deletion_complete those s)
  unfolding monitor_loop all_deleted
  monitor_loop_lem pre rest [] dead s = ground arith
  monitor_loop_lem pre rest ((activity, name) ∷ more) dead s =
      rw
        (
          get_elem?-append (some activity) pre (map watch more ++ rest),
          ← and_assoc dead (deletion_complete activity s) (all_deleted deletion_complete more s),
        )
        (simp (append_assoc, length-append {0}) at
          (monitor_loop_lem (pre ++ some activity ∷ []) rest more
            (dead && deletion_complete activity s) s))

  -- One call of each activity, in order.
  abbrev pub cycle : List (A × String) → S → Option S
  cycle those = calls do_activity (map named those)

  -- A round of the loop calls each activity once, in the order of their registration, and goes on
  -- unless all of them have completed their deletion.
  pub thread_round_lem :
      (those : List (A × String)) (thread : Thread A) (s : S)
      → Has those thread
      → length those ≤ max_nb_activities
      → thread_round do_activity deletion_complete thread s
        ≡ (cycle those s >>= λ s'. some (not (all_deleted deletion_complete those s'), s'))
  unfolding thread_round monitor_activities_alive
  thread_round_lem those thread s h room =
      rw (executed, h.scheduled)
        (elim (Option-cases (cycle those s)) [
          | inl fault ↦ rw fault refl
          | inr (s', done) ↦ rw (done, monitored s') refl
        ])
    where
      cells : List (Option A)
      cells = thread.activities_deletion_complete

      executed :
          execute_schedule do_activity (λ _. some thread.schedule) s
          ≡ calls do_activity (functions thread.schedule) s
      executed =
          execute_schedule_lem do_activity (λ _. some thread.schedule) thread.schedule s
            (Keeps-Stays do_activity (λ _. some thread.schedule) (λ f u u' e. refl)
              (functions thread.schedule) s)
            (record { cells_length = h.cells_length; number_le = omega (arith, h.number) }) refl

      monitored :
          (u : S)
          → monitor_loop do_activity deletion_complete cells thread.nb_activities 0 true u
            ≡ some (all_deleted deletion_complete those u)
      monitored u =
          rw (h.nb, ← take-append-drop thread.nb_activities cells, h.watched)
            (monitor_loop_lem [] (drop thread.nb_activities cells) those true u)

  -- `Ends those s s'`: from `s` the activities are called round after round, and `s'` is the first
  -- state after a round in which all of them have completed their deletion.
  pub data Ends (those : List (A × String)) : S → S → Type 0 where
    last :
        {s s' : S}
        → cycle those s ≡ some s'
        → all_deleted deletion_complete those s' ≡ true
        → Ends those s s'
    again :
        {s s1 s' : S}
        → cycle those s ≡ some s1
        → all_deleted deletion_complete those s1 ≡ false
        → Ends those s1 s'
        → Ends those s s'

  enough :
      (those : List (A × String)) (thread : Thread A) {s s' : S}
      → Has those thread
      → length those ≤ max_nb_activities
      → Ends those s s'
      → (rounds : ℕ) × (do_thread_loop do_activity deletion_complete thread rounds s
          ≡ some (false, s'))
  unfolding do_thread_loop
  enough those thread {s} {s'} h room (last e d) =
      (1, rw (thread_round_lem those thread s h room, e, d) refl)
  enough those thread {s} {s'} h room (again {s1 = s1} e d more) =
      let ih = enough those thread h room more in
      (suc ih.0, rw (thread_round_lem those thread s h room, e, d) ih.1)

  only :
      (those : List (A × String)) (thread : Thread A) (rounds : ℕ) (s : S) {s' : S}
      → Has those thread
      → length those ≤ max_nb_activities
      → do_thread_loop do_activity deletion_complete thread rounds s ≡ some (false, s')
      → Ends those s s'
  unfolding do_thread_loop
  only those thread zero s h room e = cc
  only those thread (suc rounds) s {s'} h room e = elim (Option-cases (cycle those s)) [
    | inl fault ↦ absurd (none-ne-some (rw (thread_round_lem those thread s h room, fault) at e))
    | inr (s1, done) ↦ elim (Bool-cases (all_deleted deletion_complete those s1)) [
      | inl dead ↦
          let same : s1 ≡ s' =
            ap (λ (p : Bool × S). p.1)
              (eq_of_some (rw (thread_round_lem those thread s h room, done, dead) at e)) in
          subst (Ends those s) same (last done dead)
      | inr alive ↦ again done alive (
          only those thread rounds s1 h room
            (rw (thread_round_lem those thread s h room, done, alive) at e))
    ]
  ]

  -- The loop comes to an end in a state exactly if that state is the first, after a whole round, in
  -- which all the activities of the thread have completed their deletion.
  pub do_thread_loop-Ends :
      (those : List (A × String)) (thread : Thread A) (s s' : S)
      → Has those thread
      → length those ≤ max_nb_activities
      → ((rounds : ℕ) × (do_thread_loop do_activity deletion_complete thread rounds s
            ≡ some (false, s')))
        ↔ Ends those s s'
  do_thread_loop-Ends those thread s s' h room =
      (λ (rounds, e). only those thread rounds s h room e, enough those thread h room)
