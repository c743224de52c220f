-- ===== src/Thread/Tests.antt =====
-- A thread of two activities that complete their deletion after two and after three calls.
use ecs_private.Common.{
  ℕ, ◌≡◌, ◌↔◌, ◌+◌, refl, List, [], ◌∷◌, Option, none, some, Bool, false, arith, replicate, leb,
  if◌then◌else◌, String, not, ◌>>=◌, ◌==◌,
}
use ecs_private.Schedule.{new_schedule}
use ecs_private.Thread.{Thread, create_thread, thread_round, do_thread_loop}
use ecs_private.Thread.Loop.{
  Has, register_activities, register_activities_lem, all_deleted, cycle, thread_round_lem, Ends,
  do_thread_loop-Ends,
}

-- How often each of the two was called.
abbrev S : Type 0
S = ℕ × ℕ

abbrev count_call : ℕ → S → Option S
count_call a (m, n) = if a == 0 then some (m + 1, n) else some (m, n + 1)

abbrev is_deleted : ℕ → S → Bool
is_deleted a (m, n) = if a == 0 then leb 2 m else leb 3 n

abbrev memory : Thread ℕ
memory = record {
  schedule = new_schedule {F = ℕ};
  cycle_time_us = 0;
  nb_activities = 0;
  activities_deletion_complete = replicate 16 none;
}

abbrev both : List (ℕ × String)
both = (0, "drive") ∷ (1, "navigation") ∷ []

registered :
    (thread : Thread ℕ) × (register_activities both (create_thread memory 50) ≡ some thread)
    × Has both thread
registered = register_activities_lem memory 50 both refl refl (omega arith)

thread_round_lem_example : thread_round count_call is_deleted registered.0 (2, 2) ≡ (
    cycle count_call is_deleted both (2, 2) >>= λ s'.
    some (not (all_deleted is_deleted both s'), s'))
thread_round_lem_example =
    thread_round_lem count_call is_deleted both registered.0 (2, 2) registered.2 (omega arith)

do_thread_loop-Ends_example :
    ((rounds : ℕ) × (do_thread_loop count_call is_deleted registered.0 rounds (0, 0)
        ≡ some (false, (3, 3))))
    ↔ Ends count_call is_deleted both (0, 0) (3, 3)
do_thread_loop-Ends_example =
    do_thread_loop-Ends count_call is_deleted both registered.0 (0, 0) (3, 3) registered.2
      (omega arith)
