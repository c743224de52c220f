-- ===== src/Drive/Activity/Exchanges.antt =====
-- How the drive activity exchanges its schedules
-- (mobile_platform_drive/src/activity/kelo_drive_activity.c).
use ecs_private.Common.{
  ◌≡◌, refl, sym, ap, ◌∙◌, some, false, eq_of_some, >>=-eq-some, ◌>>=◌, none-ne-some, String, subst,
}
use ecs_private.Lcsm.{
  State, creation, resource_configuration, capability_configuration, pausing, running, cleaning,
  done,
}
use ecs_private.Activity.Exchange.{leave_table, config_table}
use ecs_private.Activity.Exchange.Configured.{Exchanged, leaves, configured, still}
use ecs_private.Drive.Activity.{
  Platform, Function, kelo_activity_config, kelo_activity_creation,
  kelo_activity_resource_configuration, kelo_activity_capability_configuration,
  kelo_activity_running, World,
}
use ecs_private.Drive.Activity.Behaviour.{
  creation_compute, creation_coordinate, resource_configuration_coordinate,
  capability_configuration_communicate, capability_configuration_coordinate, running_communicate,
  running_coordinate,
}
use ecs_private.Drive.Activity.Connection.{set_resource_complete}
use ecs_private.Drive.Activity.Lifecycle.{
  schedule_name, schedule_table, set_schedule_table, activity_config, leave, creation_configure,
  resource_configuration_configure, capability_configuration_configure, running_configure,
  activity_creation, compute_in_time, activity_resource_configuration,
  activity_capability_configuration, activity_running, call,
}
use ecs_private.Drive.Activity.Stays.{
  stay_creation_compute, stay_creation_coordinate, stay_resource_configuration_coordinate,
  stay_capability_configuration_coordinate, keep_capability_configuration_communicate,
  keep_capability_configuration_compute, keep_running_communicate, stay_running_coordinate,
  stay_compute_in_time,
}

-- The function of a state's schedule.
abbrev pub main_of : State → Function
main_of creation = kelo_activity_creation
main_of resource_configuration = kelo_activity_resource_configuration
main_of capability_configuration = kelo_activity_capability_configuration
main_of running = kelo_activity_running
main_of _ = kelo_activity_config

module _ (platform : Platform) where
  open platform use {schedule_map}

  abbrev pub state_of : World platform → State
  state_of w = w.activity.lcsm.state

  abbrev Leaves : String → World platform → World platform → Type 0
  Leaves name w w' = Exchanged schedule_map state_of (schedule_table platform) name w w'

  leaves_name :
      (name : String) (w w' : World platform)
      → leave platform name w ≡ some w'
      → leave_table schedule_map name (schedule_table platform w)
        ≡ some (schedule_table platform w')
  unfolding leave
  leaves_name name w w' e =
      leaves schedule_map state_of (schedule_table platform) (set_schedule_table platform)
        (λ u t. refl) name w w' e

  by_creation :
      (w w' : World platform)
      → w.activity.lcsm.state ≡ creation
      → activity_creation platform w ≡ some w'
      → Leaves "creation" w w'
  unfolding activity_creation creation_configure
  by_creation w w' at e =
      let a = >>=-eq-some (creation_compute platform w) _ e in
      let b = >>=-eq-some (creation_coordinate platform a.0) _ a.2 in
      configured schedule_map state_of (schedule_table platform) creation "creation" w b.0 w'
        (leave platform "creation" b.0) at
        (stay_creation_coordinate platform a.0 b.0 b.1 ∙ stay_creation_compute platform w a.0 a.1)
        b.2 (leaves_name "creation" b.0)

  leaves_resources :
      (u v : World platform)
      → (leave platform "resource_configuration" u >>= λ w'.
          some (set_resource_complete platform w' false))
        ≡ some v
      → leave_table schedule_map "resource_configuration" (schedule_table platform u)
        ≡ some (schedule_table platform v)
  leaves_resources u v e =
      let step = >>=-eq-some (leave platform "resource_configuration" u) _ e in
      leaves_name "resource_configuration" u step.0 step.1
      ∙ ap (λ (x : World platform). some (schedule_table platform x)) (eq_of_some step.2)

  by_resource_configuration :
      (w w' : World platform)
      → w.activity.lcsm.state ≡ resource_configuration
      → activity_resource_configuration platform w ≡ some w'
      → Leaves "resource_configuration" w w'
  unfolding activity_resource_configuration resource_configuration_configure
  by_resource_configuration w w' at e =
      let a = >>=-eq-some (compute_in_time platform w) _ e in
      let b = >>=-eq-some (resource_configuration_coordinate platform a.0) _ a.2 in
      configured schedule_map state_of (schedule_table platform) resource_configuration
        "resource_configuration" w b.0 w'
        (leave platform "resource_configuration" b.0 >>= λ x.
          some (set_resource_complete platform x false))
        at
        (stay_resource_configuration_coordinate platform a.0 b.0 b.1
          ∙ stay_compute_in_time platform w a.0 a.1)
        b.2 (leaves_resources b.0)

  by_capability_configuration :
      (w w' : World platform)
      → w.activity.lcsm.state ≡ capability_configuration
      → activity_capability_configuration platform w ≡ some w'
      → Leaves "capability_configuration" w w'
  unfolding activity_capability_configuration capability_configuration_configure
  by_capability_configuration w w' at e =
      let a = >>=-eq-some (capability_configuration_communicate platform w) _ e in
      let b = >>=-eq-some (capability_configuration_coordinate platform a.0) _ a.2 in
      let c = >>=-eq-some (capability_configuration_configure platform b.0) _ b.2 in
      still schedule_map state_of (schedule_table platform) "capability_configuration" w c.0 w'
        (configured schedule_map state_of (schedule_table platform) capability_configuration
          "capability_configuration" w b.0 c.0 (leave platform "capability_configuration" b.0) at
          (stay_capability_configuration_coordinate platform a.0 b.0 b.1
            ∙ (keep_capability_configuration_communicate platform w a.0 a.1).0)
          c.1 (leaves_name "capability_configuration" b.0))
        (keep_capability_configuration_compute platform c.0 w' c.2)

  by_running :
      (w w' : World platform)
      → w.activity.lcsm.state ≡ running
      → activity_running platform w ≡ some w'
      → Leaves "running" w w'
  unfolding activity_running running_configure
  by_running w w' at e =
      let a = >>=-eq-some (running_communicate platform w) _ e in
      let b = >>=-eq-some (running_coordinate platform a.0) _ a.2 in
      configured schedule_map state_of (schedule_table platform) running "running" w b.0 w'
        (leave platform "running" b.0) at
        (stay_running_coordinate platform a.0 b.0 b.1
          ∙ (keep_running_communicate platform w a.0 a.1).0)
        b.2 (leaves_name "running" b.0)

  pub by_state :
      (w w' : World platform) (s : State) (name : String)
      → w.activity.lcsm.state ≡ s
      → schedule_name s ≡ some name
      → call platform (main_of s) w ≡ some w'
      → Exchanged schedule_map state_of (schedule_table platform) name w w'
  unfolding schedule_name call
  by_state w w' creation name at n e =
      subst (λ x. Leaves x w w') (eq_of_some n) (by_creation w w' at e)
  by_state w w' resource_configuration name at n e =
      subst (λ x. Leaves x w w') (eq_of_some n) (by_resource_configuration w w' at e)
  by_state w w' capability_configuration name at n e =
      subst (λ x. Leaves x w w') (eq_of_some n) (by_capability_configuration w w' at e)
  by_state w w' running name at n e =
      subst (λ x. Leaves x w w') (eq_of_some n) (by_running w w' at e)
  by_state w w' pausing name at n e = absurd (none-ne-some n)
  by_state w w' cleaning name at n e = absurd (none-ne-some n)
  by_state w w' done name at n e = absurd (none-ne-some n)

  pub by_config :
      (w w' : World platform)
      → call platform kelo_activity_config w ≡ some w'
      → (config_table schedule_map (schedule_name w.activity.lcsm.state) (schedule_table platform w)
          ≡ some (schedule_table platform w'))
        × (w'.activity.lcsm.state ≡ w.activity.lcsm.state)
  unfolding call activity_config
  by_config w w' e =
      let step =
        >>=-eq-some
          (config_table schedule_map (schedule_name w.activity.lcsm.state)
            (schedule_table platform w))
          _ e in
      (
        step.1 ∙ ap (λ (u : World platform). some (schedule_table platform u)) (eq_of_some step.2),
        ap (λ (u : World platform). u.activity.lcsm.state) (sym (eq_of_some step.2)),
      )
