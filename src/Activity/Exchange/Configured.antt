-- ===== src/Activity/Exchange/Configured.antt =====
-- The shape that the functions of configuration have in all activities: nothing is done in the state
-- that the schedule belongs to, and otherwise the schedule is exchanged.
use ecs_private.Common.{
  ◌≡◌, ◌⊎◌, sym, ap, ◌∙◌, inl, inr, Option, some, eq_of_some, >>=-eq-some, ◌>>=◌, Bool-cases,
  if◌then◌else◌, String,
}
use ecs_private.Common.StringMap.{StringMap}
use ecs_private.Lcsm.{State}
use ecs_private.Schedule.{Schedule, ScheduleTable}
use ecs_private.Activity.Exchange.{leave_table}
use ecs_private.Navigation.Lifecycle.{same_state}
use ecs_private.Navigation.Invariant.{same_state_eq}

module _ {F W : Type 0} (uthash : StringMap (Schedule F)) (state : W → State)
    (table : W → ScheduleTable (StringMap.Map uthash) F) where
  -- The state and the table stay, or the schedule with the name makes way for `activity_config`.
  abbrev pub Exchanged : String → W → W → Type 0
  Exchanged name w w' =
      ((state w' ≡ state w) × (table w' ≡ table w))
      ⊎ (leave_table uthash name (table w) ≡ some (table w'))

  pub leaves :
      (write : W → ScheduleTable (StringMap.Map uthash) F → W)
      → ((w : W) (t : ScheduleTable (StringMap.Map uthash) F) → table (write w t) ≡ t)
      → (name : String) (w w' : W)
      → (leave_table uthash name (table w) >>= λ t. some (write w t)) ≡ some w'
      → leave_table uthash name (table w) ≡ some (table w')
  leaves write written name w w' e =
      let step = >>=-eq-some (leave_table uthash name (table w)) (λ t. some (write w t)) e in
      step.1 ∙ ap some (sym (written w step.0) ∙ ap table (eq_of_some step.2))

  pub configured :
      (s : State) (name : String) (w u w' : W) (left : Option W)
      → state w ≡ s
      → table u ≡ table w
      → (if same_state (state u) s then some u else left) ≡ some w'
      → ((v : W) → left ≡ some v → leave_table uthash name (table u) ≡ some (table v))
      → Exchanged name w w'
  configured s name w u w' left at t e l = elim (Bool-cases (same_state (state u) s)) [
    | inl same ↦
        let here = eq_of_some (rw same at e) in
        inl (ap state (sym here) ∙ same_state_eq (state u) s same ∙ sym at, ap table (sym here) ∙ t)
    | inr other ↦ inr (ap (leave_table uthash name) (sym t) ∙ l w' (rw other at e))
  ]

  -- What follows the configuration changes nothing of it.
  pub still :
      (name : String) (w u w' : W)
      → Exchanged name w u
      → (table w' ≡ table u) × (state w' ≡ state u)
      → Exchanged name w w'
  still name w u w' (inl (s, t)) k = inl (k.1 ∙ s, k.0 ∙ t)
  still name w u w' (inr gone) k = inr (gone ∙ ap some (sym k.0))
