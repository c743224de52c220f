-- ===== src/Navigation/Configure.antt =====
-- How the navigation activity exchanges the schedule that its eventloop holds
-- (navigation_template/src/activity/navigation_with_kelo_control.c).
use ecs_private.Common.{
  suc, ◌+◌, ◌≡◌, ◌⊎◌, refl, sym, ap, ◌∙◌, inl, inr, List, [], ◌∷◌, Option, some, Bool, true, false,
  not, arith, length, All, if◌then◌else◌, Bool-cases, eq_of_some, String,
}
use ecs_private.Lcsm.{
  State, creation, resource_configuration, capability_configuration, pausing, running, cleaning,
  done,
}
use ecs_private.Schedule.{NamedFunction, Schedule, execute_named_function}
use ecs_private.Schedule.Slot.{slot, KeepsTable}
use ecs_private.Navigation.{Platform, Function, World}
use ecs_private.Navigation.Behaviour.{set_resource_complete}
use ecs_private.Navigation.Keeps.{
  keep_creation_compute, keep_creation_coordinate, keep_resource_configuration_coordinate,
  keep_capability_configuration_coordinate, keep_running_communicate_sensor_and_estimation,
  keep_running_coordinate, keep_running_compute, keep_running_communicate_control,
  keep_running_logging, keep_resource_configuration_compute, keep_capability_configuration_compute,
}
use ecs_private.Navigation.Lifecycle.{
  same_state, schedule_table, navigation_creation_configure,
  navigation_resource_configuration_configure, navigation_capability_configuration_configure,
  navigation_running_configure, call,
}
use ecs_private.Navigation.Slots.{
  cells, is_active, name_of, first_of, coordinate_of, configure_of, post_of, unused_of, schedule_of,
  config_schedule, Holds, left_world, leave_lem, left_world-Holds,
}

pub length-cells : (name : String) (fs : List Function) → length (cells name fs) ≡ length fs
length-cells name [] = refl
length-cells name (f ∷ fs) = ap suc (length-cells name fs)

pub sixteen : (s : State) → length (cells (name_of s) (post_of s)) + unused_of s ≡ 13
sixteen s = ground arith

module _ (platform : Platform) where
  abbrev pub cell : State → Function → Option (NamedFunction Function)
  cell s f = some (record { name = name_of s; function = f })

  -- The function leaves the schedules alone.
  abbrev pub KeepsFunction : Function → Type 0
  KeepsFunction f =
      (w w' : World platform)
      → call platform f w ≡ some w'
      → schedule_table platform w' ≡ schedule_table platform w

  pub keeps_first : (s : State) → KeepsFunction (first_of s)
  unfolding call
  keeps_first creation = keep_creation_compute platform
  keeps_first resource_configuration = keep_resource_configuration_compute platform
  keeps_first capability_configuration = keep_capability_configuration_compute platform
  keeps_first pausing = keep_creation_compute platform
  keeps_first running = keep_running_communicate_sensor_and_estimation platform
  keeps_first cleaning = keep_creation_compute platform
  keeps_first done = keep_creation_compute platform

  pub keeps_coordinate : (s : State) → KeepsFunction (coordinate_of s)
  unfolding call
  keeps_coordinate creation = keep_creation_coordinate platform
  keeps_coordinate resource_configuration = keep_resource_configuration_coordinate platform
  keeps_coordinate capability_configuration = keep_capability_configuration_coordinate platform
  keeps_coordinate pausing = keep_creation_coordinate platform
  keeps_coordinate running = keep_running_coordinate platform
  keeps_coordinate cleaning = keep_creation_coordinate platform
  keeps_coordinate done = keep_creation_coordinate platform

  -- The same of a cell of a schedule.
  abbrev pub Leaves : Option (NamedFunction Function) → Type 0
  Leaves = KeepsTable (call platform) (schedule_table platform)

  pub keeps_cell : (s : State) (f : Function) → KeepsFunction f → Leaves (cell s f)
  unfolding execute_named_function
  keeps_cell s f k w w' e = k w w' e

  pub keeps_post : (s : State) → All Leaves (cells (name_of s) (post_of s))
  unfolding call execute_named_function
  keeps_post creation = tt
  keeps_post resource_configuration = tt
  keeps_post capability_configuration = tt
  keeps_post pausing = tt
  keeps_post running = (
    keep_running_compute platform,
    (keep_running_communicate_control platform, (keep_running_logging platform, tt)),
  )
  keeps_post cleaning = tt
  keeps_post done = tt

  -- What the configuration of the resources resets when it leaves the state.
  abbrev pub forget : State → World platform → World platform
  forget resource_configuration w = set_resource_complete platform w false
  forget _ w = w

  pub forget_keeps :
      (s : State) (w : World platform)
      → (schedule_table platform (forget s w) ≡ schedule_table platform w)
        × ((forget s w).activity.lcsm.state ≡ w.activity.lcsm.state)
  forget_keeps s w = ground arith

  -- The state is no longer the one of the schedule.
  abbrev pub left : State → World platform → Bool
  left s w = not (same_state w.activity.lcsm.state s)

  pub configure_lem :
      (s : State) (w : World platform) (h : Holds platform (schedule_of s) w)
      → is_active s ≡ true
      → call platform (configure_of s) w
        ≡ (if left s w then some (forget s (left_world platform (schedule_of s) w h)) else some w)
  unfolding call navigation_creation_configure navigation_resource_configuration_configure
      navigation_capability_configuration_configure navigation_running_configure
  configure_lem creation w h a =
      ground (arith, leave_lem platform (schedule_of creation) w h "creation" refl)
  configure_lem resource_configuration w h a = ground (
    arith,
    leave_lem platform (schedule_of resource_configuration) w h "resource_configuration" refl,
  )
  configure_lem capability_configuration w h a = ground (
    arith,
    leave_lem platform (schedule_of capability_configuration) w h "capability_configuration" refl,
  )
  configure_lem running w h a =
      ground (arith, leave_lem platform (schedule_of running) w h "running" refl)
  configure_lem pausing w h a = cc
  configure_lem cleaning w h a = cc
  configure_lem done w h a = cc

  pub Holds-table :
      (c : Schedule Function) (w w' : World platform)
      → schedule_table platform w' ≡ schedule_table platform w
      → Holds platform c w
      → Holds platform c w'
  Holds-table c w w' e h = record {
    hash_map = h.hash_map;
    number = h.number;
    dead = h.dead;
    rest = h.rest;
    registered = h.registered;
    rest_length = h.rest_length;
    same = e ∙ h.same;
  }

  pub slot_of :
      (c : Schedule Function) (w : World platform)
      → Holds platform c w
      → slot (call platform) (schedule_table platform) w ≡ some c
  slot_of c w h = rw h.same refl

  pub number_of :
      (c : Schedule Function) (w : World platform)
      → Holds platform c w
      → (schedule_table platform w).number_of_eventloop_schedules ≡ 1
  number_of c w h = rw h.same refl

  -- After its configuration the activity holds the schedule of the state, or `activity_config`.
  pub configured :
      (s : State) (w w' : World platform)
      → is_active s ≡ true
      → Holds platform (schedule_of s) w
      → call platform (configure_of s) w ≡ some w'
      → ((left s w' ≡ false) × Holds platform (schedule_of s) w')
        ⊎ ((left s w' ≡ true) × Holds platform config_schedule w')
  configured s w w' a h e = elim (Bool-cases (left s w)) [
    | inl gone ↦
        let x = left_world platform (schedule_of s) w h in
        let same : forget s x ≡ w' = eq_of_some (rw (configure_lem s w h a, gone) at e) in
        inr (
          ap (left s) (sym same) ∙ ap (λ u. not (same_state u s)) (forget_keeps s x).1 ∙ gone,
          Holds-table config_schedule x w'
              (ap (schedule_table platform) (sym same) ∙ (forget_keeps s x).0)
              (left_world-Holds platform (schedule_of s) w h),
        )
    | inr stays ↦
        let same : w ≡ w' = eq_of_some (rw (configure_lem s w h a, stays) at e) in
        inl (rw (sym same) stays, rw (sym same) h)
  ]
