-- ===== src/Schedule.antt =====
-- Schedules and the eventloop: mobile_platform_5c/baseline/five_c/src/schedule.c and
-- include/five_c/schedule/schedule.h.
-- An array is a list of its cells; a read or a write past it is a fault (`none`). A function pointer
-- with its argument is a value of `F`, and a cell of a cleared array holds no function.
pub mod Remove
pub mod Neighbours
pub mod Table
pub mod Execute
pub mod Slot
pub mod Single
mod Tests
use ecs_private.Common.{
  ℕ, zero, suc, ◌+◌, ◌-◌, List, [], ◌∷◌, Option, none, some, Bool, true, false, get_elem?, set,
  replicate, length, ltb, ◌==◌, if◌then◌else◌, ◌>>=◌, ◌>>◌, guard, leb, String, str_eq, str_take,
  not,
}
use ecs_private.Common.StringMap.{StringMap}

abbrev pub max_number_of_functions : ℕ
max_number_of_functions = 16

abbrev pub max_number_of_schedules : ℕ
max_number_of_schedules = 32

-- `named_function_t`
pub record NamedFunction (F : Type 0) : Type 0 where
  pub name : String
  pub function : F

-- `schedule_t`
pub record Schedule (F : Type 0) : Type 0 where
  pub name : String
  pub named_functions : List (Option (NamedFunction F))
  pub number_of_functions : ℕ

-- `schedule_table_t`; `Map` is the type of the hash table
pub record ScheduleTable (Map F : Type 0) : Type 0 where
  pub hash_map : Map
  pub eventloop_schedules : List (Schedule F)
  pub number_of_schedules : ℕ
  pub number_of_eventloop_schedules : ℕ

-- `schedule_t s = {.number_of_functions = 0}`: all else is cleared.
abbrev pub new_schedule : {F : Type 0} → Schedule F
new_schedule = record {
  name = "";
  named_functions = replicate max_number_of_functions none;
  number_of_functions = 0;
}

unfoldable pub register_function : {F : Type 0} → Schedule F → F → String → Option (Schedule F)
register_function schedule function_ptr function_name = do
  guard (ltb schedule.number_of_functions (length schedule.named_functions))
  some (record schedule {
    named_functions =
        set schedule.named_functions schedule.number_of_functions
          (some (record { name = str_take 63 function_name; function = function_ptr }));
    number_of_functions = schedule.number_of_functions + 1;
  })

module _ {F : Type 0} (uthash : StringMap (Schedule F)) where
  open uthash use {Map, find, add}

  unfoldable pub register_schedule : ScheduleTable Map F → Schedule F → String → ScheduleTable Map F
  register_schedule table schedule schedule_name =
      let cut = str_take 63 schedule_name in
      record table {
        hash_map = add table.hash_map cut (record schedule { name = cut });
        number_of_schedules = table.number_of_schedules + 1;
      }

  unfoldable pub find_schedule_map_entry : Map → String → Option (Schedule F)
  find_schedule_map_entry hash_map schedule_name = find hash_map schedule_name

  -- `eventloop_schedules[number_of_eventloop_schedules++] = schedule`
  unfoldable pub push_schedule : ScheduleTable Map F → Schedule F → Option (ScheduleTable Map F)
  push_schedule table schedule = do
    guard (ltb table.number_of_eventloop_schedules (length table.eventloop_schedules))
    some (record table {
      eventloop_schedules =
          set table.eventloop_schedules table.number_of_eventloop_schedules schedule;
      number_of_eventloop_schedules = table.number_of_eventloop_schedules + 1;
    })

  unfoldable pub add_schedule_to_eventloop :
      ScheduleTable Map F → String → Option (ScheduleTable Map F)
  unfolding find_schedule_map_entry push_schedule
  add_schedule_to_eventloop table schedule_name =
      elim (find_schedule_map_entry table.hash_map schedule_name) [
        | none ↦ some table
        | some schedule ↦ push_schedule table schedule
      ]

-- The inner loop of `remove_schedule_from_eventloop`, from cell `j`.
unfoldable pub shift_loop : {F : Type 0} → ℕ → ℕ → List (Schedule F) → Option (List (Schedule F))
shift_loop zero j cells = some cells
shift_loop (suc rounds) j cells = do
  next ← get_elem? cells (j + 1)
  shift_loop rounds (j + 1) (set cells j next)

module _ {Map F : Type 0} where
  -- What the loop does at an index whose schedule has the name. It is run with `i < number`, so
  -- the subtraction is exact.
  unfoldable pub remove_at : ScheduleTable Map F → ℕ → Option (ScheduleTable Map F)
  unfolding shift_loop
  remove_at table i =
      let last_index = table.number_of_eventloop_schedules - 1 in
      do
        cells ←
            (if not (i == last_index)
              then shift_loop (last_index - i) i table.eventloop_schedules
              else some table.eventloop_schedules)
        some (record table {
          eventloop_schedules = cells;
          number_of_eventloop_schedules = last_index;
        })

  -- The outer loop, from index `i`. After as many rounds as the array has cells, either the test
  -- ends it or the next read is past the array.
  unfoldable pub remove_loop : ℕ → ℕ → String → ScheduleTable Map F → Option (ScheduleTable Map F)
  unfolding remove_at
  remove_loop zero i name table =
      if ltb i table.number_of_eventloop_schedules then none else some table
  remove_loop (suc rounds) i name table = elim (ltb i table.number_of_eventloop_schedules) [
    | false ↦ some table
    | true ↦ do
      schedule ← get_elem? table.eventloop_schedules i
      table' ← (if str_eq schedule.name name then remove_at table i else some table)
      remove_loop rounds (i + 1) name table'
  ]

  unfoldable pub remove_schedule_from_eventloop :
      ScheduleTable Map F → String → Option (ScheduleTable Map F)
  unfolding remove_loop
  remove_schedule_from_eventloop table schedule_name =
      remove_loop max_number_of_schedules 0 schedule_name table

  unfoldable pub clear_schedule : ScheduleTable Map F → ScheduleTable Map F
  clear_schedule table = record table { number_of_eventloop_schedules = 0 }

-- `S` is all that the functions can change, the memory of the schedules themselves among it, and
-- `call f` is a call of the function pointer `f` with its argument.
module _ {S F : Type 0} (call : F → S → Option S) where
  -- A cleared cell holds a null pointer.
  unfoldable pub execute_named_function : Option (NamedFunction F) → S → Option S
  execute_named_function none s = none
  execute_named_function (some func) s = call func.function s

  -- The loop over the functions of the schedule that `read` finds at its address, which each round
  -- looks at again. After as many rounds as the array has cells, either the test ends the loop or
  -- the next read is past the array.
  unfoldable pub execute_loop : (S → Option (Schedule F)) → ℕ → ℕ → S → Option S
  unfolding execute_named_function
  execute_loop read zero i s = do
    schedule ← read s
    if ltb i schedule.number_of_functions then none else some s
  execute_loop read (suc rounds) i s = do
    schedule ← read s
    elim (ltb i schedule.number_of_functions) [
      | false ↦ some s
      | true ↦ do
        func ← get_elem? schedule.named_functions i
        s' ← execute_named_function func s
        execute_loop read rounds (i + 1) s'
    ]

  unfoldable pub execute_schedule : (S → Option (Schedule F)) → S → Option S
  unfolding execute_loop
  execute_schedule read s = execute_loop read max_number_of_functions 0 s

  module _ {Map : Type 0} (table : S → ScheduleTable Map F) where
    -- `&schedule_table->eventloop_schedules[i]`
    abbrev pub eventloop_schedule : ℕ → S → Option (Schedule F)
    eventloop_schedule i s = get_elem? (table s).eventloop_schedules i

    unfoldable pub eventloop_loop : ℕ → ℕ → S → Option S
    unfolding execute_schedule
    eventloop_loop zero i s = if ltb i (table s).number_of_eventloop_schedules then none else some s
    eventloop_loop (suc rounds) i s = elim (ltb i (table s).number_of_eventloop_schedules) [
      | false ↦ some s
      | true ↦ do s' ← execute_schedule (eventloop_schedule i) s; eventloop_loop rounds (i + 1) s'
    ]

    unfoldable pub do_schedule_eventloop : S → Option S
    unfolding eventloop_loop
    do_schedule_eventloop s = eventloop_loop max_number_of_schedules 0 s
