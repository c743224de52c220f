-- ===== src/Navigation/Invariant.antt =====
-- The eventloop of the navigation activity always fits the state of its life cycle
-- (navigation_template/src/activity/navigation_with_kelo_control.c).
use ecs_private.Common.{
  ◌≡◌, refl, sym, ap, ◌∙◌, inl, inr, List, [], ◌∷◌, Option, some, true, false, arith, All,
  Bool-cases, Option-cases, eq_of_some, none-ne-some, subst, >>=-eq-some,
}
use ecs_private.Lcsm.{
  State, creation, resource_configuration, capability_configuration, pausing, running, cleaning,
  done,
}
use ecs_private.Schedule.{NamedFunction, execute_named_function, do_schedule_eventloop}
use ecs_private.Schedule.Execute.{calls, pass_stops}
use ecs_private.Schedule.Slot.{calls_keep, turn}
use ecs_private.Activity.{do_activity}
use ecs_private.Navigation.{
  Platform, Function, World, running_compute, running_communicate_control, running_logging,
}
use ecs_private.Navigation.Keeps.{
  keep_state_compute, keep_state_communicate_control, keep_state_logging,
}
use ecs_private.Navigation.Lifecycle.{same_state, schedule_table, call, pass}
use ecs_private.Navigation.Slots.{
  cells, is_active, name_of, first_of, coordinate_of, configure_of, post_of, schedule_of,
  config_schedule, Holds, installed, installed-Holds, emptied,
}
use ecs_private.Navigation.Configure.{cell, Leaves, keeps_post, left, Holds-table, configured}
use ecs_private.Navigation.Pass.{pass_schedule, pass_config, pass_config_last, keeps_two}

pub same_state_eq : (s t : State) → same_state s t ≡ true → s ≡ t
unfolding same_state
same_state_eq s t e = ground arith

module _ (platform : Platform) where
  -- The eventloop holds `activity_config` alone, or the schedule of the present state alone, or, in a
  -- state without a schedule, nothing.
  pub data Consistent (w : World platform) : Type 0 where
    configuring : Holds platform config_schedule w → Consistent w
    working :
        is_active w.activity.lcsm.state ≡ true
        → Holds platform (schedule_of w.activity.lcsm.state) w
        → Consistent w
    finished :
        is_active w.activity.lcsm.state ≡ false
        → (schedule_table platform w).number_of_eventloop_schedules ≡ 0
        → Consistent w

  post_state :
      (s : State) (w w' : World platform)
      → calls (call platform) (cells (name_of s) (post_of s)) w ≡ some w'
      → w'.activity.lcsm.state ≡ w.activity.lcsm.state
  unfolding calls execute_named_function call
  post_state creation w w' e =
      ap (λ (u : World platform). u.activity.lcsm.state) (sym (eq_of_some e))
  post_state resource_configuration w w' e =
      ap (λ (u : World platform). u.activity.lcsm.state) (sym (eq_of_some e))
  post_state capability_configuration w w' e =
      ap (λ (u : World platform). u.activity.lcsm.state) (sym (eq_of_some e))
  post_state pausing w w' e =
      ap (λ (u : World platform). u.activity.lcsm.state) (sym (eq_of_some e))
  post_state cleaning w w' e =
      ap (λ (u : World platform). u.activity.lcsm.state) (sym (eq_of_some e))
  post_state done w w' e = ap (λ (u : World platform). u.activity.lcsm.state) (sym (eq_of_some e))
  post_state running w w' e =
      let two = cells "running" (running_communicate_control ∷ running_logging ∷ []) in
      let one = cells "running" (running_logging ∷ []) in
      let a = >>=-eq-some (call platform running_compute w) (calls (call platform) two) e in
      let b =
        >>=-eq-some (call platform running_communicate_control a.0) (calls (call platform) one)
          a.2 in
      let c = >>=-eq-some (call platform running_logging b.0) (calls (call platform) []) b.2 in
      ap (λ (u : World platform). u.activity.lcsm.state) (sym (eq_of_some c.2))
      ∙ keep_state_logging platform b.0 c.0 c.1
      ∙ keep_state_communicate_control platform a.0 b.0 b.1
      ∙ keep_state_compute platform w a.0 a.1

  -- After a turn of the schedule of `s`.
  turn-Consistent :
      (s : State) (pre : List (Option (NamedFunction Function))) (w w' : World platform)
      → is_active s ≡ true
      → All (Leaves platform) pre
      → Holds platform (schedule_of s) w
      → turn
          (call platform)
          (schedule_table platform)
          (left platform s)
          pre
          (cell platform s (configure_of s))
          (cells (name_of s) (post_of s))
          w
        ≡ some w'
      → Consistent w'
  unfolding turn execute_named_function
  turn-Consistent s pre w w' a k h e = elim (Option-cases (calls (call platform) pre w)) [
    | inl fault ↦ absurd (none-ne-some (rw fault at e))
    | inr (w1, done1) ↦ elim (Option-cases (call platform (configure_of s) w1)) [
      | inl fault ↦ absurd (none-ne-some (rw (done1, fault) at e))
      | inr (w2, done2) ↦
          elim (configured platform s w1 w2 a
            (Holds-table platform (schedule_of s) w w1
              (calls_keep (call platform) (schedule_table platform) pre w k done1) h)
            done2) [
              | inl kept ↦
                  let e3 : calls (call platform) (cells (name_of s) (post_of s)) w2 ≡ some w' =
                    rw (done1, done2, kept.0) at e in
                  let same : w'.activity.lcsm.state ≡ s =
                    post_state s w2 w' e3
                    ∙ same_state_eq w2.activity.lcsm.state s (grind (arith, kept.0)) in
                  working (ap is_active same ∙ a) (
                    subst (λ u. Holds platform (schedule_of u) w') (sym same)
                      (Holds-table platform (schedule_of s) w2 w'
                        (calls_keep (call platform) (schedule_table platform)
                          (cells (name_of s) (post_of s)) w2 (keeps_post platform s) e3)
                        kept.1))
              | inr gone ↦
                  let same : w2 ≡ w' = eq_of_some (rw (done1, done2, gone.0) at e) in
                  configuring (rw (sym same) gone.1)
            ]
    ]
  ]

  -- A pass keeps the eventloop in step with the life cycle: it never holds two schedules, nor one of
  -- another state, whatever the requests, the shared variables and the drives are.
  pub pass-Consistent :
      (w w' : World platform) → Consistent w → pass platform w ≡ some w' → Consistent w'
  unfolding do_activity do_schedule_eventloop
  pass-Consistent w w' (configuring h) e = elim (Bool-cases (is_active w.activity.lcsm.state)) [
    | inl a ↦
        turn-Consistent w.activity.lcsm.state
          (cell platform w.activity.lcsm.state (coordinate_of w.activity.lcsm.state) ∷ [])
          (installed platform w h) w' a (keeps_two platform w.activity.lcsm.state).1
          (installed-Holds platform w h) (sym (pass_config platform w h a) ∙ e)
    | inr a ↦
        let same : emptied platform w h ≡ w' =
          eq_of_some (sym (pass_config_last platform w h a) ∙ e) in
        subst Consistent same (finished a refl)
  ]
  pass-Consistent w w' (working a h) e =
      turn-Consistent w.activity.lcsm.state
        (cell platform w.activity.lcsm.state (first_of w.activity.lcsm.state)
          ∷ cell platform w.activity.lcsm.state (coordinate_of w.activity.lcsm.state)
          ∷ [])
        w w' a (keeps_two platform w.activity.lcsm.state) h
        (sym (pass_schedule platform w.activity.lcsm.state w a h) ∙ e)
  pass-Consistent w w' (finished a n) e =
      let same : w ≡ w' = eq_of_some (
        sym (pass_stops (call platform) (schedule_table platform) 32 0 w (omega (arith, n))) ∙ e) in
      subst Consistent same (finished a n)
