-- ===== src/Schedule/Tests.antt =====
-- Runs of schedules, and the theorems on them at concrete inputs.
use ecs_private.Common.{
  ℕ, ◌≡◌, refl, List, [], ◌∷◌, ◌++◌, none, some, arith, replicate, String, map,
}
use ecs_private.Common.StringMap.{StringMap, assoc_map}
use ecs_private.Schedule.{
  NamedFunction, Schedule, ScheduleTable, new_schedule, add_schedule_to_eventloop,
  remove_schedule_from_eventloop,
}
use ecs_private.Schedule.Remove
use ecs_private.Schedule.Remove.{eventloop, remove_pass, remove_schedule_lem}
use ecs_private.Schedule.Table.{pushed, add_schedule_lem}

abbrev uthash : StringMap (Schedule ℕ)
uthash = assoc_map (Schedule ℕ)

abbrev Table : Type 0
Table = ScheduleTable (StringMap.Map uthash) ℕ

abbrev named : String → Schedule ℕ
named n = record (new_schedule {F = ℕ}) { name = n }

abbrev logging : NamedFunction ℕ
logging = record { name = "log"; function = 7 }

abbrev log_schedule : Schedule ℕ
log_schedule = record {
  name = "log";
  named_functions = some logging ∷ replicate 15 none;
  number_of_functions = 1;
}

abbrev table : Table
table = record {
  hash_map = ("log", log_schedule) ∷ [];
  eventloop_schedules = log_schedule ∷ named "b" ∷ named "b" ∷ replicate 29 (new_schedule {F = ℕ});
  number_of_schedules = 1;
  number_of_eventloop_schedules = 3;
}

table-IsValid : Remove.IsValid table
table-IsValid = record { cells_length = refl; number_le = omega arith }

removed_twice :
    map {A = Table} {B = List (Schedule ℕ)} eventloop
      (elim (remove_schedule_from_eventloop table "b") [ none ↦ [] | some t ↦ t ∷ [] ])
    ≡ (log_schedule ∷ named "b" ∷ []) ∷ []
unfolding remove_schedule_from_eventloop
removed_twice = refl

remove_schedule_lem_example :
    (table' : Table) × (remove_schedule_from_eventloop table "b" ≡ some table')
    × Remove.IsValid table'
    × (eventloop table' ≡ remove_pass "b" (eventloop table))
    × (table'.hash_map ≡ table.hash_map)
remove_schedule_lem_example = remove_schedule_lem table "b" table-IsValid

abbrev twice : Table
twice = record table {
  eventloop_schedules = named "b" ∷ named "b" ∷ log_schedule ∷ replicate 29 (new_schedule {F = ℕ});
}

add_schedule_lem_example :
    (add_schedule_to_eventloop uthash table "log" ≡ some (pushed uthash table log_schedule))
    × Remove.IsValid (pushed uthash table log_schedule)
    × (eventloop (pushed uthash table log_schedule) ≡ eventloop table ++ log_schedule ∷ [])
add_schedule_lem_example =
    add_schedule_lem uthash table "log" log_schedule table-IsValid refl (omega arith)

abbrev full_table : Table
full_table = record {
  hash_map = ("log", log_schedule) ∷ [];
  eventloop_schedules = replicate 32 log_schedule;
  number_of_schedules = 1;
  number_of_eventloop_schedules = 32;
}

-- A thirty-third schedule is written past the array.
full : add_schedule_to_eventloop uthash full_table "log" ≡ none
unfolding add_schedule_to_eventloop
full = refl
