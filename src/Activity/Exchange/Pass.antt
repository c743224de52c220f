-- ===== src/Activity/Exchange/Pass.antt =====
-- Passes of an activity whose schedules have one function each (five_c/src/activity.c,
-- five_c/src/schedule.c).
use ecs_private.Common.{
  ◌≡◌, sym, ap, ◌∙◌, inl, inr, some, arith, get_elem?, eq_of_some, subst, Option-cases,
}
use ecs_private.Common.StringMap.{StringMap}
use ecs_private.Schedule.{Schedule, do_schedule_eventloop}
use ecs_private.Schedule.Execute.{pass_stops}
use ecs_private.Schedule.Single.{single_schedule, IsSettled, pass_one}
use ecs_private.Activity.{do_activity}
use ecs_private.Activity.Exchange.{
  SingleActivity, config_schedule, Holds, Consistent, configuring, working, finished, slot_of,
  number_of, settled, worked, pass_working, installed, emptied,
}

module _ {F : Type 0} (uthash : StringMap (Schedule F)) (activity : SingleActivity uthash) where
  open activity use {W, call, table, state, config, main_of, name_of, call-config}

  config-IsSettled :
      (w w' : W)
      → Holds uthash activity (config_schedule uthash activity) (table w)
      → call config w ≡ some w'
      → IsSettled call table w'
  config-IsSettled w w' h e = elim (Option-cases (name_of (state w))) [
    | inl n ↦
        let t = emptied uthash activity w w' h n e in
        record {
          schedule = config_schedule uthash activity;
          in_slot = ap (λ t. get_elem? t.eventloop_schedules 0) t;
          one_function = omega arith;
          one_schedule = omega (arith, ap (λ t. t.number_of_eventloop_schedules) t);
        }
    | inr (name, n) ↦
        settled uthash activity name (main_of (state w)) w'
          (installed uthash activity w w' name n h e)
  ]

  -- With `activity_config` in the eventloop a pass is one call of it.
  pub pass_configuring :
      (w : W)
      → Holds uthash activity (config_schedule uthash activity) (table w)
      → do_activity call table w ≡ call config w
  unfolding do_activity
  pass_configuring w h =
      pass_one call table "activity_config" config w
        (slot_of uthash activity (config_schedule uthash activity) w h)
        (number_of uthash activity (config_schedule uthash activity) w h)
        (λ w' e. config-IsSettled w w' h e)

  -- With an empty eventloop a pass does nothing.
  pub pass_finished :
      (w : W) → (table w).number_of_eventloop_schedules ≡ 0 → do_activity call table w ≡ some w
  unfolding do_activity do_schedule_eventloop
  pass_finished w n = pass_stops call table 32 0 w (omega (arith, n))

  -- A pass calls one function of the activity, the one that fits the state of the life cycle, and it
  -- keeps the eventloop in step with that state: it never holds two schedules, nor one of another
  -- state.
  pub pass-Consistent :
      (w w' : W)
      → Consistent uthash activity w
      → do_activity call table w ≡ some w'
      → Consistent uthash activity w'
  pass-Consistent w w' (configuring h) e = elim (Option-cases (name_of (state w))) [
    | inl n ↦
        let t = emptied uthash activity w w' h n done in
        finished (ap name_of same ∙ n) (ap (λ t. t.number_of_eventloop_schedules) t)
    | inr (name, n) ↦ working name (ap name_of same ∙ n) (
        subst (λ s. Holds uthash activity (single_schedule name (main_of s)) (table w')) (sym same)
          (installed uthash activity w w' name n h done))
  ]
    where
      done : call config w ≡ some w'
      done = sym (pass_configuring w h) ∙ e

      same : state w' ≡ state w
      same = (call-config w w' done).1
  pass-Consistent w w' (working name n h) e = elim (worked uthash activity w w' name n h done) [
    | inl (s, held) ↦ working name (ap name_of s ∙ n) (
        subst (λ s. Holds uthash activity (single_schedule name (main_of s)) (table w')) (sym s)
          held)
    | inr held ↦ configuring held
  ]
    where
      done : call (main_of (state w)) w ≡ some w'
      done = sym (pass_working uthash activity w name n h) ∙ e
  pass-Consistent w w' (finished n z) e =
      subst (Consistent uthash activity) (eq_of_some (sym (pass_finished w z) ∙ e)) (finished n z)

  -- The worlds that passes of the activity lead to, with steps of the others between the passes.
  pub data Reaches (Other : W → W → Type 0) (w : W) : W → Type 0 where
    start : Reaches Other w w
    pass : {u v : W} → Reaches Other w u → do_activity call table u ≡ some v → Reaches Other w v
    other : {u v : W} → Reaches Other w u → Other u v → Reaches Other w v

  -- A step of the others changes anything but the table and the state of this activity.
  abbrev pub Elsewhere : W → W → Type 0
  Elsewhere u v = (table v ≡ table u) × (state v ≡ state u)

  Elsewhere-Consistent :
      (u v : W) → Elsewhere u v → Consistent uthash activity u → Consistent uthash activity v
  Elsewhere-Consistent u v (t, s) (configuring h) =
      configuring (subst (Holds uthash activity (config_schedule uthash activity)) (sym t) h)
  Elsewhere-Consistent u v (t, s) (working name n h) = working name (ap name_of s ∙ n) (
      subst (λ x. Holds uthash activity (single_schedule name (main_of x)) (table v)) (sym s)
        (subst (Holds uthash activity (single_schedule name (main_of (state u)))) (sym t) h))
  Elsewhere-Consistent u v (t, s) (finished n z) =
      finished (ap name_of s ∙ n) (ap (λ x. x.number_of_eventloop_schedules) t ∙ z)

  -- Whatever the others do between the passes, the eventloop stays in step with the state.
  pub Reaches-Consistent :
      {w w' : W}
      → Reaches Elsewhere w w'
      → Consistent uthash activity w
      → Consistent uthash activity w'
  Reaches-Consistent start c = c
  Reaches-Consistent (pass {u} {v} r e) c = pass-Consistent u v (Reaches-Consistent r c) e
  Reaches-Consistent (other {u} {v} r o) c = Elsewhere-Consistent u v o (Reaches-Consistent r c)
