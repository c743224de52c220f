-- ===== src/Navigation/Pass.antt =====
-- What one pass of the eventloop does for the navigation activity
-- (navigation_template/src/activity/navigation_with_kelo_control.c and five_c/src/schedule.c).
use ecs_private.Common.{
  ℕ, ◌≤◌, ◌≡◌, ◌⊎◌, refl, sym, ◌∙◌, inl, inr, [], ◌∷◌, Option, none, some, true, false, arith,
  replicate, All, eq_of_some,
}
use ecs_private.Lcsm.{State}
use ecs_private.Schedule.{execute_named_function, execute_loop, execute_schedule}
use ecs_private.Schedule.Execute.{loop_goes, loop_stops}
use ecs_private.Schedule.Slot.{slot, turn, Exchanges, turn_lem, turn_single, single_pass}
use ecs_private.Activity.{do_activity}
use ecs_private.Navigation.{Platform, activity_config, World}
use ecs_private.Navigation.Lifecycle.{schedule_table, navigation_activity_config, call, pass}
use ecs_private.Navigation.Slots.{
  cells, is_active, name_of, first_of, coordinate_of, configure_of, post_of, unused_of, schedule_of,
  config_schedule, Holds, installed, config_active, installed-Holds, emptied, config_inactive,
}
use ecs_private.Navigation.Configure.{
  length-cells, sixteen, cell, Leaves, keeps_first, keeps_coordinate, keeps_cell, keeps_post, left,
  Holds-table, slot_of, number_of, configured,
}

module _ (platform : Platform) where
  -- The part of a state's schedule that follows its first function: the coordination, the
  -- configuration, and then the other functions if the state is still the same.
  abbrev pub rest_of_schedule : State → World platform → Option (World platform)
  rest_of_schedule s =
      turn (call platform) (schedule_table platform) (left platform s)
        (cell platform s (coordinate_of s) ∷ []) (cell platform s (configure_of s))
        (cells (name_of s) (post_of s))

  -- The whole schedule.
  abbrev pub whole_schedule : State → World platform → Option (World platform)
  whole_schedule s =
      turn (call platform) (schedule_table platform) (left platform s)
        (cell platform s (first_of s) ∷ cell platform s (coordinate_of s) ∷ [])
        (cell platform s (configure_of s)) (cells (name_of s) (post_of s))

  exchanges :
      (s : State) (w : World platform) (n : ℕ)
      → is_active s ≡ true
      → Holds platform (schedule_of s) w
      → 1 ≤ n
      → Exchanges
          (call platform)
          (schedule_table platform)
          (left platform s)
          (schedule_of s)
          n
          (cell platform s (configure_of s))
          w
  unfolding execute_named_function
  exchanges s w n a h le = record {
    stays = λ s1 s2 t e l. elim (after s1 s2 t e) [
      | inl kept ↦ slot_of platform (schedule_of s) s2 kept.1
      | inr gone ↦ absurd (grind (arith, gone.0, l))
    ];
    goes = λ s1 s2 t e l. elim (after s1 s2 t e) [
      | inl kept ↦ absurd (grind (arith, kept.0, l))
      | inr gone ↦ (config_schedule, slot_of platform config_schedule s2 gone.1, le)
    ];
    single = λ s1 s2 t e. elim (after s1 s2 t e) [
      | inl kept ↦ omega (arith, number_of platform (schedule_of s) s2 kept.1)
      | inr gone ↦ omega (arith, number_of platform config_schedule s2 gone.1)
    ];
  }
    where
      after :
          (s1 s2 : World platform)
          → schedule_table platform s1 ≡ schedule_table platform w
          → call platform (configure_of s) s1 ≡ some s2
          → ((left platform s s2 ≡ false) × Holds platform (schedule_of s) s2)
            ⊎ ((left platform s s2 ≡ true) × Holds platform config_schedule s2)
      after s1 s2 t e =
          configured platform s s1 s2 a (Holds-table platform (schedule_of s) w s1 t h) e

  pub keeps_two :
      (s : State)
      → All
          (Leaves platform)
          (cell platform s (first_of s) ∷ cell platform s (coordinate_of s) ∷ [])
  keeps_two s = (
    keeps_cell platform s (first_of s) (keeps_first platform s),
    (keeps_cell platform s (coordinate_of s) (keeps_coordinate platform s), tt),
  )

  -- With the schedule of a state in the eventloop a pass calls the functions of that schedule, in
  -- order, up to its configuration. If this finds another state, the pass ends there; otherwise
  -- the remaining functions follow.
  pub pass_schedule :
      (s : State) (w : World platform)
      → is_active s ≡ true
      → Holds platform (schedule_of s) w
      → pass platform w ≡ whole_schedule s w
  unfolding do_activity execute_schedule
  pass_schedule s w a h =
      single_pass (call platform) (schedule_table platform) (whole_schedule s w) w
        (number_of platform (schedule_of s) w h)
        (turn_lem (call platform) (schedule_table platform) (left platform s) (schedule_of s) []
          (cell platform s (first_of s) ∷ cell platform s (coordinate_of s) ∷ [])
          (cell platform s (configure_of s)) (cells (name_of s) (post_of s))
          (replicate (unused_of s) none) 16 (unused_of s) w (omega (arith, sixteen s)) (keeps_two s)
          (keeps_post platform s) (exchanges s w 3 a h (omega arith))
          (slot_of platform (schedule_of s) w h) refl
          (omega (arith, length-cells (name_of s) (post_of s))))
        (λ w' e.
          turn_single (call platform) (schedule_table platform) (left platform s) (schedule_of s) 3
            (cell platform s (first_of s) ∷ cell platform s (coordinate_of s) ∷ [])
            (cell platform s (configure_of s)) (cells (name_of s) (post_of s)) w (keeps_two s)
            (keeps_post platform s) (exchanges s w 3 a h (omega arith)) e)

  -- The first function of a pass in which `activity_config` is in the eventloop.
  config_goes :
      (w w' : World platform)
      → Holds platform config_schedule w
      → navigation_activity_config platform w ≡ some w'
      → execute_schedule (call platform) (slot (call platform) (schedule_table platform)) w
        ≡ execute_loop (call platform) (slot (call platform) (schedule_table platform)) 15 1 w'
  unfolding execute_schedule execute_named_function call
  config_goes w w' h e =
      rw
        (
          loop_goes (call platform) (slot (call platform) (schedule_table platform)) config_schedule
              (some (record { name = "activity_config"; function = activity_config })) 15 0 w
              (slot_of platform config_schedule w h) (omega arith) refl,
          e,
        )
        refl

  -- With `activity_config` in the eventloop, in a state that has a schedule, a pass puts that
  -- schedule in its place and goes on in it with the second function: the first one is not called.
  pub pass_config :
      (w : World platform) (h : Holds platform config_schedule w)
      → is_active w.activity.lcsm.state ≡ true
      → pass platform w ≡ rest_of_schedule w.activity.lcsm.state (installed platform w h)
  unfolding do_activity
  pass_config w h a =
      single_pass (call platform) (schedule_table platform) (rest_of_schedule s x) w
        (number_of platform config_schedule w h)
        (config_goes w x h (config_active platform w h a)
          ∙ turn_lem (call platform) (schedule_table platform) (left platform s) (schedule_of s)
              (cell platform s (first_of s) ∷ []) (cell platform s (coordinate_of s) ∷ [])
              (cell platform s (configure_of s)) (cells (name_of s) (post_of s))
              (replicate (unused_of s) none) 15 (unused_of s) x (omega (arith, sixteen s))
              (keeps_two s).1 (keeps_post platform s) (exchanges s x 3 a held (omega arith))
              (slot_of platform (schedule_of s) x held) refl
              (omega (arith, length-cells (name_of s) (post_of s))))
        (λ w' e.
          turn_single (call platform) (schedule_table platform) (left platform s) (schedule_of s) 3
            (cell platform s (coordinate_of s) ∷ []) (cell platform s (configure_of s))
            (cells (name_of s) (post_of s)) x (keeps_two s).1 (keeps_post platform s)
            (exchanges s x 3 a held (omega arith)) e)
    where
      s : State
      s = w.activity.lcsm.state

      x : World platform
      x = installed platform w h

      held : Holds platform (schedule_of s) x
      held = installed-Holds platform w h

  -- With `activity_config` in the eventloop, in a state that has no schedule, a pass leaves the
  -- eventloop empty and changes nothing else.
  pub pass_config_last :
      (w : World platform) (h : Holds platform config_schedule w)
      → is_active w.activity.lcsm.state ≡ false
      → pass platform w ≡ some (emptied platform w h)
  unfolding do_activity
  pass_config_last w h a =
      single_pass (call platform) (schedule_table platform) (some (emptied platform w h)) w
        (number_of platform config_schedule w h)
        (config_goes w (emptied platform w h) h (config_inactive platform w h a)
          ∙ loop_stops (call platform) (slot (call platform) (schedule_table platform))
              config_schedule 15 1 (emptied platform w h) refl (omega arith))
        (λ w' e. rw (sym (eq_of_some e)) (omega arith))
