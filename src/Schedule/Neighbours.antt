-- ===== src/Schedule/Neighbours.antt =====
-- When `remove_schedule_from_eventloop` (five_c/src/schedule.c) takes out all the schedules of a name,
-- and when it does not.
use text.Mathlib.TextPositions.{eq_refl}
use ecs_private.Common.{
  ◌≡◌, refl, ap, ◌∙◌, inl, inr, List, [], ◌∷◌, some, false, if◌then◌else◌, Bool-cases, ◌&&◌, String,
  str_eq,
}
use ecs_private.Schedule.{Schedule, ScheduleTable, remove_schedule_from_eventloop}
use ecs_private.Schedule.Remove.{IsValid, eventloop, remove_pass, remove_schedule_lem}

-- The eventloop without the schedules of a name.
unfoldable pub without : {F : Type 0} → String → List (Schedule F) → List (Schedule F)
without name [] = []
without name (s ∷ ss) = let rest = without name ss in if str_eq s.name name then rest else s ∷ rest

-- No two neighbours both have the name.
abbrev pub Apart : {F : Type 0} → String → List (Schedule F) → Type 0
Apart name [] = Unit
Apart name (s ∷ []) = Unit
Apart name (s ∷ s' ∷ ss) =
    ((str_eq s.name name && str_eq s'.name name) ≡ false) × Apart name (s' ∷ ss)

Apart-tail :
    {F : Type 0} (name : String) (s : Schedule F) (ss : List (Schedule F))
    → Apart name (s ∷ ss)
    → Apart name ss
Apart-tail name s [] h = tt
Apart-tail name s (s' ∷ ss) h = h.1

remove_pass-Apart :
    {F : Type 0} (name : String) (ss : List (Schedule F))
    → Apart name ss
    → remove_pass name ss ≡ without name ss
unfolding remove_pass without
remove_pass-Apart name [] h = refl
remove_pass-Apart name (s ∷ []) h = refl
remove_pass-Apart name (s ∷ s' ∷ ss) h = elim (Bool-cases (str_eq s.name name)) [
  | inl gone ↦
      let other : str_eq s'.name name ≡ false = rw gone at h.0 in
      rw (gone, other) (ap (λ l. s' ∷ l) (remove_pass-Apart name ss (Apart-tail name s' ss h.1)))
  | inr kept ↦ rw kept (ap (λ l. s ∷ l) (remove_pass-Apart name (s' ∷ ss) h.1))
]

remove_pass_twice :
    {F : Type 0} (s : Schedule F) (ss : List (Schedule F))
    → remove_pass s.name (s ∷ s ∷ ss) ≡ s ∷ remove_pass s.name ss
unfolding remove_pass
remove_pass_twice s ss = rw (eq_refl s.name) refl

-- Where no two neighbours of the eventloop of a valid table have the name, the call takes out all
-- the schedules of the name and no others, and keeps the order.
pub remove_schedule_all :
    {Map F : Type 0} (table : ScheduleTable Map F) (name : String)
    → IsValid table
    → Apart name (eventloop table)
    → (table' : ScheduleTable Map F) × (remove_schedule_from_eventloop table name ≡ some table')
      × IsValid table'
      × (eventloop table' ≡ without name (eventloop table))
remove_schedule_all table name v apart =
    let r = remove_schedule_lem table name v in
    (r.0, r.1, r.2, r.3 ∙ remove_pass-Apart name (eventloop table) apart)

-- Of a schedule that stands twice in a row at the front of the eventloop of a valid table, the call
-- takes out one and leaves the other.
pub remove_schedule_twice :
    {Map F : Type 0} (table : ScheduleTable Map F) (s : Schedule F) (ss : List (Schedule F))
    → IsValid table
    → eventloop table ≡ s ∷ s ∷ ss
    → (table' : ScheduleTable Map F) × (remove_schedule_from_eventloop table s.name ≡ some table')
      × (eventloop table' ≡ s ∷ remove_pass s.name ss)
remove_schedule_twice table s ss v two =
    let r = remove_schedule_lem table s.name v in
    (r.0, r.1, r.3 ∙ ap (remove_pass s.name) two ∙ remove_pass_twice s ss)
