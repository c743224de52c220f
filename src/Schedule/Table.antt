-- ===== src/Schedule/Table.antt =====
-- Registering schedules and functions, and adding a schedule to the eventloop
-- (five_c/src/schedule.c).
use ecs_private.Common.{
  ◌+◌, ◌<◌, ◌≤◌, ◌≡◌, refl, sym, ◌∙◌, inl, inr, List, [], ◌∷◌, ◌++◌, Option, none, some, false,
  arith, length, set, take, ltb, if◌then◌else◌, ◌>>=◌, add-one, length-set, take-set_end,
  Option-cases, append_assoc, append-nil, map, lt→ltb, le→ltb_false, String, str_eq, str_take,
}
use ecs_private.Common.StringMap.{StringMap}
use ecs_private.Schedule.{
  NamedFunction, Schedule, ScheduleTable, max_number_of_schedules, max_number_of_functions,
  new_schedule, register_function, register_schedule, push_schedule, add_schedule_to_eventloop,
}
use ecs_private.Schedule.Remove.{IsValid, eventloop}

module _ {F : Type 0} (uthash : StringMap (Schedule F)) where
  open uthash use {Map, find, find-add}

  -- The table after a schedule was put behind the others.
  abbrev pub pushed : ScheduleTable Map F → Schedule F → ScheduleTable Map F
  pushed table schedule = record table {
    eventloop_schedules =
        set table.eventloop_schedules table.number_of_eventloop_schedules schedule;
    number_of_eventloop_schedules = table.number_of_eventloop_schedules + 1;
  }

  pub push_schedule_lem :
      (table : ScheduleTable Map F) (schedule : Schedule F)
      → IsValid table
      → table.number_of_eventloop_schedules < max_number_of_schedules
      → (push_schedule uthash table schedule ≡ some (pushed table schedule))
        × IsValid (pushed table schedule)
        × (eventloop (pushed table schedule) ≡ eventloop table ++ schedule ∷ [])
  unfolding push_schedule
  push_schedule_lem table schedule v h = (
    rw (lt→ltb table.number_of_eventloop_schedules (length table.eventloop_schedules) inside) refl,
    record {
      cells_length =
          length-set table.eventloop_schedules table.number_of_eventloop_schedules schedule
          ∙ v.cells_length;
      number_le = omega (arith, h);
    },
    rw add-one (
        take-set_end table.eventloop_schedules table.number_of_eventloop_schedules schedule inside),
  )
    where
      inside : table.number_of_eventloop_schedules < length table.eventloop_schedules
      inside = omega (arith, v.cells_length, h)

  -- While fewer than 32 schedules are in the eventloop of a valid table, `add_schedule_to_eventloop`
  -- puts a registered schedule behind them, and the table stays valid.
  pub add_schedule_lem :
      (table : ScheduleTable Map F) (name : String) (schedule : Schedule F)
      → IsValid table
      → find table.hash_map name ≡ some schedule
      → table.number_of_eventloop_schedules < max_number_of_schedules
      → (add_schedule_to_eventloop uthash table name ≡ some (pushed table schedule))
        × IsValid (pushed table schedule)
        × (eventloop (pushed table schedule) ≡ eventloop table ++ schedule ∷ [])
  unfolding add_schedule_to_eventloop
  add_schedule_lem table name schedule v e h =
      let r = push_schedule_lem table schedule v h in
      (rw (e, add_schedule_to_eventloop) r.0, r.1, r.2)

  -- With 32 schedules in the eventloop of a valid table, adding a registered one writes past the
  -- array, since nothing tests the count; a name that is not registered does no harm.
  pub add_schedule_full :
      (table : ScheduleTable Map F) (name : String)
      → IsValid table
      → table.number_of_eventloop_schedules ≡ max_number_of_schedules
      → add_schedule_to_eventloop uthash table name
        ≡ elim (find table.hash_map name) [ none ↦ some table | some schedule ↦ none ]
  unfolding add_schedule_to_eventloop
  add_schedule_full table name v h = elim (Option-cases (find table.hash_map name)) [
    | inl e ↦ rw (e, add_schedule_to_eventloop) refl
    | inr (schedule, e) ↦ rw (e, add_schedule_to_eventloop, full) refl
  ]
    where
      full : ltb table.number_of_eventloop_schedules (length table.eventloop_schedules) ≡ false
      full = le→ltb_false _ _ (omega (arith, v.cells_length))

  -- A schedule registered under a new name is found under that name cut to 63 characters, with the
  -- name written over its own; every other name finds what it found before.
  pub register_schedule_lem :
      (table : ScheduleTable Map F) (schedule : Schedule F) (name other : String)
      → find table.hash_map (str_take 63 name) ≡ none
      → find (register_schedule uthash table schedule name).hash_map other ≡ (
          if str_eq (str_take 63 name) other
          then some (record schedule { name = str_take 63 name })
          else find table.hash_map other)
  unfolding register_schedule
  register_schedule_lem table schedule name other h =
      find-add table.hash_map (str_take 63 name) other (record schedule { name = str_take 63 name })
        h

-- The functions of a schedule, in the order in which they were registered.
abbrev pub functions : {F : Type 0} → Schedule F → List (Option (NamedFunction F))
functions schedule = take schedule.number_of_functions schedule.named_functions

-- As long as its array has room, `register_function` puts the function behind the others of the
-- schedule, under its name cut to 63 characters.
pub register_function_lem :
    {F : Type 0} (schedule : Schedule F) (f : F) (name : String)
    → length schedule.named_functions ≡ max_number_of_functions
    → schedule.number_of_functions < max_number_of_functions
    → (schedule' : Schedule F) × (register_function schedule f name ≡ some schedule')
      × (functions schedule'
          ≡ functions schedule ++ some (record { name = str_take 63 name; function = f }) ∷ [])
      × (length schedule'.named_functions ≡ max_number_of_functions)
      × (schedule'.number_of_functions ≡ schedule.number_of_functions + 1)
unfolding register_function
register_function_lem {F} schedule f name cells h = (
  record schedule {
    named_functions = set schedule.named_functions schedule.number_of_functions func;
    number_of_functions = schedule.number_of_functions + 1;
  },
  rw (lt→ltb _ _ inside) refl,
  rw add-one (take-set_end schedule.named_functions schedule.number_of_functions func inside),
  length-set schedule.named_functions schedule.number_of_functions func ∙ cells,
  refl,
)
  where
    func : Option (NamedFunction F)
    func = some (record { name = str_take 63 name; function = f })

    inside : schedule.number_of_functions < length schedule.named_functions
    inside = omega (arith, cells, h)

-- Registering functions one after the other.
unfoldable pub register_functions :
    {F : Type 0} → List (F × String) → Schedule F → Option (Schedule F)
register_functions [] schedule = some schedule
register_functions ((f, name) ∷ fs) schedule = do
  schedule' ← register_function schedule f name
  register_functions fs schedule'

-- The cell that holds a function under its name.
abbrev pub named : {F : Type 0} → F × String → Option (NamedFunction F)
named (f, name) = some (record { name = str_take 63 name; function = f })

register_functions_room :
    {F : Type 0} (fs : List (F × String)) (schedule : Schedule F)
    → length schedule.named_functions ≡ max_number_of_functions
    → length fs + schedule.number_of_functions ≤ max_number_of_functions
    → (schedule' : Schedule F) × (register_functions fs schedule ≡ some schedule')
      × (functions schedule' ≡ functions schedule ++ map named fs)
unfolding register_functions
register_functions_room [] schedule cells h =
    (schedule, refl, sym (append-nil (functions schedule)))
register_functions_room ((f, name) ∷ fs) schedule cells h =
    let r = register_function_lem schedule f name cells (omega arith) in
    let ih = register_functions_room fs r.0 r.3 (omega (arith, r.4)) in
    (
      ih.0,
      rw r.1 ih.1,
      ih.2 ∙ rw (r.2, append_assoc (functions schedule) (named (f, name) ∷ []) (map named fs)) refl,
    )

-- A new schedule takes up to sixteen functions and has them in the order of their registration.
pub register_functions_lem :
    {F : Type 0} (fs : List (F × String))
    → length fs ≤ max_number_of_functions
    → (schedule : Schedule F) × (register_functions fs new_schedule ≡ some schedule)
      × (functions schedule ≡ map named fs)
register_functions_lem fs h = register_functions_room fs new_schedule refl (omega arith)
