-- ===== src/Thread.antt =====
-- Threads: mobile_platform_5c/baseline/five_c/src/thread.c and include/five_c/thread/thread.h.
-- An activity is a value of `A`; `do_activity a` is a call of `do_activity` with it, and
-- `deletion_complete a` reads its flag. The clock and `usleep` are left out: how long a cycle lasts
-- changes no state.
pub mod Loop
mod Tests
use ecs_private.Common.{
  ℕ, zero, suc, ◌+◌, ◌*◌, ◌%◌, ◌^◌, List, [], ◌∷◌, Option, none, some, Bool, true, false, not, ◌&&◌,
  get_elem?, set, replicate, length, ltb, if◌then◌else◌, ◌>>=◌, ◌>>◌, guard, String,
}
use ecs_private.Schedule.{Schedule, new_schedule, register_function, execute_schedule}

abbrev pub max_nb_activities : ℕ
max_nb_activities = 16

-- `thread_t`; a cell of `activities_deletion_complete` is the activity whose flag it points to.
pub record Thread (A : Type 0) : Type 0 where
  pub schedule : Schedule A
  pub cycle_time_us : ℕ
  pub nb_activities : ℕ
  pub activities_deletion_complete : List (Option A)

module _ {A : Type 0} where
  -- The cast to `useconds_t`, of 32 bits, binds before the product.
  unfoldable pub create_thread : Thread A → ℕ → Thread A
  create_thread thread cycle_time_ms = record thread {
    schedule = record (thread.schedule) { number_of_functions = 0 };
    nb_activities = 0;
    cycle_time_us = cycle_time_ms % 2 ^ 32 * 1000 % 2 ^ 32;
  }

  unfoldable pub register_activity : Thread A → A → String → Option (Thread A)
  register_activity thread activity activity_name = do
    schedule ← register_function thread.schedule activity activity_name
    guard (ltb thread.nb_activities (length thread.activities_deletion_complete))
    some (record thread {
      schedule = schedule;
      activities_deletion_complete =
          set thread.activities_deletion_complete thread.nb_activities (some activity);
      nb_activities = thread.nb_activities + 1;
    })

module _ {S A : Type 0} (do_activity : A → S → Option S) (deletion_complete : A → S → Bool) where
  -- The loop of `monitor_activities_alive`, from index `i`.
  unfoldable pub monitor_loop : List (Option A) → ℕ → ℕ → Bool → S → Option Bool
  monitor_loop cells zero i activities_dead s = some activities_dead
  monitor_loop cells (suc rounds) i activities_dead s = do
    cell ← get_elem? cells i
    activity ← cell
    monitor_loop cells rounds (i + 1) (activities_dead && deletion_complete activity s) s

  unfoldable pub monitor_activities_alive : Thread A → S → Option Bool
  unfolding monitor_loop
  monitor_activities_alive thread s = do
    activities_dead ← monitor_loop thread.activities_deletion_complete thread.nb_activities 0 true s
    some (not activities_dead)

  -- One round of the loop. The activities have no access to the structure of the thread.
  unfoldable pub thread_round : Thread A → S → Option (Bool × S)
  unfolding monitor_activities_alive
  thread_round thread s = do
    s' ← execute_schedule do_activity (λ _. some thread.schedule) s
    alive ← monitor_activities_alive thread s'
    some (alive, s')

  -- At most `rounds` rounds of the loop, and whether it is still to go on.
  unfoldable pub do_thread_loop : Thread A → ℕ → S → Option (Bool × S)
  unfolding thread_round
  do_thread_loop thread zero s = some (true, s)
  do_thread_loop thread (suc rounds) s = do
    (alive, s') ← thread_round thread s
    let rest = do_thread_loop thread rounds s'
    if alive then rest else some (false, s')
