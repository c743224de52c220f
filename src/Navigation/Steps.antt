-- ===== src/Navigation/Steps.antt =====
-- Single passes of the navigation activity in which it leaves a state, or stays in it
-- (navigation_template/src/activity/navigation_with_kelo_control.c).
use ecs_private.Common.{
  ℕ, zero, suc, ◌≡◌, refl, ap, ◌∙◌, List, [], ◌∷◌, Option, some, true, false, arith, All, ◌>>=◌,
  subst,
}
use ecs_private.Lcsm.{State}
use ecs_private.Schedule.{NamedFunction, Schedule, execute_named_function}
use ecs_private.Schedule.Execute.{calls}
use ecs_private.Schedule.Slot.{calls_keep, turn}
use ecs_private.Navigation.{Platform, Function, World}
use ecs_private.Navigation.Lifecycle.{Table, schedule_table, set_schedule_table, call, pass}
use ecs_private.Schedule.Single.{table_of}
use ecs_private.Navigation.Slots.{
  cells, is_active, name_of, first_of, coordinate_of, configure_of, post_of, schedule_of,
  config_schedule, Holds, left_world, left_world-Holds,
}
use ecs_private.Navigation.Configure.{
  cell, Leaves, keeps_coordinate, left, forget, forget_keeps, configure_lem, Holds-table,
}
use ecs_private.Navigation.Pass.{rest_of_schedule, pass_schedule, pass_config, keeps_two}

module _ (platform : Platform) where
  -- `n` passes.
  unfoldable pub passes : ℕ → World platform → Option (World platform)
  passes zero w = some w
  passes (suc n) w = pass platform w >>= passes n

  -- The world when the schedule of `s` was left, with `t` as the table.
  abbrev pub after : State → World platform → Table platform → World platform
  after s w t = forget platform s (set_schedule_table platform w t)

  after-Holds :
      (s : State) (c : Schedule Function) (w : World platform) (t : Table platform)
      → Holds platform c (set_schedule_table platform w t)
      → Holds platform c (after s w t)
  after-Holds s c w t h =
      Holds-table platform c (set_schedule_table platform w t) (after s w t)
        (forget_keeps platform s (set_schedule_table platform w t)).0 h

  turn-left :
      (s : State) (pre : List (Option (NamedFunction Function))) (w w1 : World platform)
      → is_active s ≡ true
      → All (Leaves platform) pre
      → Holds platform (schedule_of s) w
      → calls (call platform) pre w ≡ some w1
      → left platform s w1 ≡ true
      → (t : Table platform) × (turn
            (call platform)
            (schedule_table platform)
            (left platform s)
            pre
            (cell platform s (configure_of s))
            (cells (name_of s) (post_of s))
            w
          ≡ some (after s w1 t))
        × Holds platform config_schedule (after s w1 t)
  unfolding turn execute_named_function
  turn-left s pre w w1 a k h e l = (
    t,
    rw (e, configure_lem platform s w1 h1 a, l, gone) refl,
    after-Holds s config_schedule w1 t (left_world-Holds platform (schedule_of s) w1 h1),
  )
    where
      h1 : Holds platform (schedule_of s) w1
      h1 =
          Holds-table platform (schedule_of s) w w1
            (calls_keep (call platform) (schedule_table platform) pre w k e) h

      t : Table platform
      t = schedule_table platform (left_world platform (schedule_of s) w1 h1)

      gone : left platform s (after s w1 t) ≡ true
      gone =
          ap
            (λ u. left platform s (record w1 {
              activity = record (w1.activity) { lcsm = record (w1.activity.lcsm) { state = u } };
            }))
            (forget_keeps platform s (set_schedule_table platform w1 t)).1
          ∙ l

  -- A pass in which the coordination leaves the state.
  pub leave_whole :
      (s : State) (w w1 : World platform)
      → is_active s ≡ true
      → Holds platform (schedule_of s) w
      → (call platform (first_of s) w >>= call platform (coordinate_of s)) ≡ some w1
      → left platform s w1 ≡ true
      → (t : Table platform) × (pass platform w ≡ some (after s w1 t))
        × Holds platform config_schedule (after s w1 t)
  unfolding calls execute_named_function
  leave_whole s w w1 a h e l =
      let two : calls (call platform)
            (cell platform s (first_of s) ∷ cell platform s (coordinate_of s) ∷ []) w
          ≡ some w1 =
        grind (arith, e) in
      let r =
        turn-left s (cell platform s (first_of s) ∷ cell platform s (coordinate_of s) ∷ []) w w1 a
          (keeps_two platform s) h two l in
      (r.0, pass_schedule platform s w a h ∙ r.1, r.2)

  -- The world in which `activity_config` has put the schedule of `s` into the eventloop.
  abbrev pub installed_as :
      State → (w : World platform) → Holds platform config_schedule w → World platform
  installed_as s w h =
      set_schedule_table platform w (table_of h.hash_map h.number (schedule_of s) h.dead h.rest 1)

  pub installed_as-Holds :
      (s : State) (w : World platform) (h : Holds platform config_schedule w)
      → Holds platform (schedule_of s) (installed_as s w h)
  installed_as-Holds s w h = record {
    hash_map = h.hash_map;
    number = h.number;
    dead = h.dead;
    rest = h.rest;
    registered = h.registered;
    rest_length = h.rest_length;
    same = refl;
  }

  pub pass_config_as :
      (s : State) (w : World platform) (h : Holds platform config_schedule w)
      → w.activity.lcsm.state ≡ s
      → is_active s ≡ true
      → pass platform w ≡ rest_of_schedule platform s (installed_as s w h)
  pass_config_as s w h same a =
      subst (λ u. pass platform w ≡ rest_of_schedule platform u (installed_as u w h)) same
        (pass_config platform w h (ap is_active same ∙ a))

  -- The same in the pass of `activity_config`.
  pub leave_config :
      (s : State) (w w1 : World platform) (h : Holds platform config_schedule w)
      → w.activity.lcsm.state ≡ s
      → is_active s ≡ true
      → call platform (coordinate_of s) (installed_as s w h) ≡ some w1
      → left platform s w1 ≡ true
      → (t : Table platform) × (pass platform w ≡ some (after s w1 t))
        × Holds platform config_schedule (after s w1 t)
  unfolding calls execute_named_function
  leave_config s w w1 h same a e l =
      let one : calls (call platform) (cell platform s (coordinate_of s) ∷ []) (installed_as s w h)
          ≡ some w1 =
        grind (arith, e) in
      let r =
        turn-left s (cell platform s (coordinate_of s) ∷ []) (installed_as s w h) w1 a
          (keeps_two platform s).1 (installed_as-Holds s w h) one l in
      (r.0, pass_config_as s w h same a ∙ r.1, r.2)

  -- A turn in which the state is the same after the coordination.
  turn_stays :
      (s : State) (pre : List (Option (NamedFunction Function))) (w w1 : World platform)
      → is_active s ≡ true
      → All (Leaves platform) pre
      → Holds platform (schedule_of s) w
      → calls (call platform) pre w ≡ some w1
      → left platform s w1 ≡ false
      → turn
          (call platform)
          (schedule_table platform)
          (left platform s)
          pre
          (cell platform s (configure_of s))
          (cells (name_of s) (post_of s))
          w
        ≡ calls (call platform) (cells (name_of s) (post_of s)) w1
  unfolding turn execute_named_function
  turn_stays s pre w w1 a k h e l =
      rw
        (
          e,
          configure_lem platform s w1
              (Holds-table platform (schedule_of s) w w1
                (calls_keep (call platform) (schedule_table platform) pre w k e) h)
              a,
          l,
          l,
        )
        refl

  -- A pass of `activity_config` after which the activity is still in the state.
  pub stay_config :
      (s : State) (w w1 : World platform) (h : Holds platform config_schedule w)
      → w.activity.lcsm.state ≡ s
      → is_active s ≡ true
      → call platform (coordinate_of s) (installed_as s w h) ≡ some w1
      → left platform s w1 ≡ false
      → (pass platform w ≡ calls (call platform) (cells (name_of s) (post_of s)) w1)
        × Holds platform (schedule_of s) w1
  unfolding calls execute_named_function
  stay_config s w w1 h same a e l =
      let one : calls (call platform) (cell platform s (coordinate_of s) ∷ []) (installed_as s w h)
          ≡ some w1 =
        grind (arith, e) in
      (
        pass_config_as s w h same a
            ∙ turn_stays s (cell platform s (coordinate_of s) ∷ []) (installed_as s w h) w1 a
                (keeps_two platform s).1 (installed_as-Holds s w h) one l,
        Holds-table platform (schedule_of s) (installed_as s w h) w1
            (keeps_coordinate platform s (installed_as s w h) w1 e) (installed_as-Holds s w h),
      )
