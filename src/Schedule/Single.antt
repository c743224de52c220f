-- ===== src/Schedule/Single.antt =====
-- An eventloop that holds one schedule, which is exchanged for another (five_c/src/schedule.c).
use ecs_private.Common.{
  ℕ, suc, ◌≤◌, ◌≡◌, refl, List, ◌∷◌, Option, none, some, true, arith, length, replicate, lt→ltb,
  String, str_eq, Option-cases, inl, inr,
}
use ecs_private.Common.StringMap.{StringMap}
use ecs_private.Schedule.{
  Schedule, ScheduleTable, add_schedule_to_eventloop, remove_schedule_from_eventloop,
  execute_named_function, execute_schedule,
}
use ecs_private.Schedule.Execute.{loop_stops, loop_goes}
use ecs_private.Schedule.Slot.{slot, single_pass}
use ecs_private.Schedule.{do_schedule_eventloop}

-- A table with these two first cells, and `n` schedules in the eventloop.
abbrev pub table_of :
    {F Map : Type 0}
    → Map
    → ℕ
    → Schedule F
    → Schedule F
    → List (Schedule F)
    → ℕ
    → ScheduleTable Map F
table_of m k c d rest n = record {
  hash_map = m;
  eventloop_schedules = c ∷ d ∷ rest;
  number_of_schedules = k;
  number_of_eventloop_schedules = n;
}

-- A schedule in which one function is registered, under the name of the schedule.
abbrev pub single_schedule : {F : Type 0} → String → F → Schedule F
single_schedule name f = record {
  name = name;
  named_functions = some (record { name = name; function = f }) ∷ replicate 15 none;
  number_of_functions = 1;
}

module _ {F Map : Type 0} where
  -- Removing the only schedule of the eventloop.
  pub remove_only :
      (m : Map) (k : ℕ) (x d : Schedule F) (rest : List (Schedule F)) (name : String)
      → str_eq x.name name ≡ true
      → remove_schedule_from_eventloop (table_of m k x d rest 1) name
        ≡ some (table_of m k x d rest 0)
  unfolding remove_schedule_from_eventloop
  remove_only m k x d rest name e = rw e refl

  -- Removing the first of two.
  pub remove_first :
      (m : Map) (k : ℕ) (x y : Schedule F) (rest : List (Schedule F)) (name : String)
      → str_eq x.name name ≡ true
      → remove_schedule_from_eventloop (table_of m k x y rest 2) name
        ≡ some (table_of m k y y rest 1)
  unfolding remove_schedule_from_eventloop
  remove_first m k x y rest name e = rw e refl

module _ {F : Type 0} (uthash : StringMap (Schedule F)) where
  open uthash use {Map, find}

  pub add_second :
      (m : Map) (k : ℕ) (x d y : Schedule F) (rest : List (Schedule F)) (name : String)
      → length rest ≡ 30
      → find m name ≡ some y
      → add_schedule_to_eventloop uthash (table_of m k x d rest 1) name
        ≡ some (table_of m k x y rest 2)
  unfolding add_schedule_to_eventloop
  add_second m k x d y rest name l e =
      rw (e, add_schedule_to_eventloop, lt→ltb 1 (suc (suc (length rest))) (omega arith)) refl

  pub add_only :
      (m : Map) (k : ℕ) (x d y : Schedule F) (rest : List (Schedule F)) (name : String)
      → length rest ≡ 30
      → find m name ≡ some y
      → add_schedule_to_eventloop uthash (table_of m k x d rest 0) name
        ≡ some (table_of m k y d rest 1)
  unfolding add_schedule_to_eventloop
  add_only m k x d y rest name l e =
      rw (e, add_schedule_to_eventloop, lt→ltb 0 (suc (suc (length rest))) (omega arith)) refl

module _ {S F Map : Type 0} (call : F → S → Option S) (table : S → ScheduleTable Map F) where
  -- At most one schedule, with at most one function.
  pub record IsSettled (s : S) : Type 0 where
    pub schedule : Schedule F
    pub in_slot : slot call table s ≡ some schedule
    pub one_function : schedule.number_of_functions ≤ 1
    pub one_schedule : (table s).number_of_eventloop_schedules ≤ 1

  -- A pass over a single schedule of one function is a call of the function, if that leaves no second
  -- schedule and no second function behind.
  pub pass_one :
      (name : String) (f : F) (s : S)
      → slot call table s ≡ some (single_schedule name f)
      → (table s).number_of_eventloop_schedules ≡ 1
      → ((s' : S) → call f s ≡ some s' → IsSettled s')
      → do_schedule_eventloop call table s ≡ call f s
  unfolding execute_schedule execute_named_function
  pass_one name f s e one settled =
      single_pass call table (call f s) s one
        (rw
          (loop_goes call (slot call table) (single_schedule name f)
            (some (record { name = name; function = f })) 15 0 s e (omega arith) refl)
          (elim (Option-cases (call f s)) [
            | inl fault ↦ rw fault refl
            | inr (s', done) ↦
                let x = settled s' done in
                rw done
                  (loop_stops call (slot call table) x.schedule 15 1 s' x.in_slot x.one_function)
          ]))
        (λ s' done. (settled s' done).one_schedule)
