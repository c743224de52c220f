-- ===== src/Proprioception/Exchanges.antt =====
-- How the proprioception exchanges its schedules
-- (mobile_platform_proprioception/src/activity/activity.c).
use ecs_private.Common.{
  ◌≡◌, refl, sym, ap, ◌∙◌, Option, some, true, false, eq_of_some, >>=-eq-some, ◌>>=◌, none-ne-some,
  String, subst, arith,
}
use ecs_private.Lcsm.{
  State, creation, resource_configuration, capability_configuration, pausing, running, cleaning,
  done,
}
use ecs_private.Activity.Exchange.{leave_table, config_table}
use ecs_private.Activity.Exchange.Configured.{Exchanged, leaves, configured, still}
use ecs_private.ReadFile.{Status, failed, succeeded}
use ecs_private.Proprioception.{
  Setting, Function, proprioception_config, proprioception_resource_configuration,
  proprioception_pausing, proprioception_running, World,
}
use ecs_private.Proprioception.Behaviour.{
  completed, update_super_state, set_resource_complete, set_params,
  resource_configuration_coordinate, pausing_coordinate, pausing_next,
  running_communicate_with_drive, running_coordinate, running_compute, running_communicate_odometry,
}
use ecs_private.Proprioception.Resources.{
  resource_configuration_compute, get_drive, get_platform, get_odometry, get_variables, clear_yaw,
  when_read, load_configuration_file, register_and_get,
}
use ecs_private.Proprioception.Lifecycle.{
  schedule_name, schedule_table, set_schedule_table, activity_config, leave,
  resource_configuration_configure, pausing_configure, running_configure,
  activity_resource_configuration, activity_pausing, activity_running, call,
}

-- The function of a state's schedule.
abbrev pub main_of : State → Function
main_of resource_configuration = proprioception_resource_configuration
main_of pausing = proprioception_pausing
main_of running = proprioception_running
main_of _ = proprioception_config

module _ (setting : Setting) where
  open setting use {schedule_map}

  abbrev pub state_of : World setting → State
  state_of w = w.activity.lcsm.state

  -- The table of schedules and the state of the life cycle stay.
  abbrev pub Keeps : (World setting → Option (World setting)) → Type 0
  Keeps f =
      (w w' : World setting)
      → f w ≡ some w'
      → (schedule_table setting w' ≡ schedule_table setting w) × (state_of w' ≡ state_of w)

  -- The table of schedules stays.
  abbrev KeepsTable : (World setting → Option (World setting)) → Type 0
  KeepsTable f =
      (w w' : World setting) → f w ≡ some w' → schedule_table setting w' ≡ schedule_table setting w

  pub keep_then :
      (f g : World setting → Option (World setting)) → Keeps f → Keeps g → Keeps (λ w. f w >>= g)
  keep_then f g kf kg w w' e =
      let step = >>=-eq-some (f w) g e in
      let a = kf w step.0 step.1 in let b = kg step.0 w' step.2 in (b.0 ∙ a.0, b.1 ∙ a.1)

  keep_get_drive : Keeps (get_drive setting)
  unfolding get_drive
  keep_get_drive w w' e = ground arith

  keep_get_platform : Keeps (get_platform setting)
  unfolding get_platform register_and_get
  keep_get_platform w w' e = ground arith

  keep_get_odometry : Keeps (get_odometry setting)
  unfolding get_odometry register_and_get
  keep_get_odometry w w' e = ground arith

  keep_get_variables : Keeps (get_variables setting)
  unfolding get_variables
  keep_get_variables w w' e =
      keep_then (get_drive setting) (λ u. get_platform setting u >>= get_odometry setting)
        keep_get_drive
        (keep_then (get_platform setting) (get_odometry setting) keep_get_platform
          keep_get_odometry)
        (set_resource_complete setting w true) w' e

  keep_when_read : (status : Status) → Keeps (when_read setting status)
  keep_when_read failed w w' e = ground arith
  keep_when_read succeeded w w' e = keep_get_variables w w' e

  keep_clear_yaw : Keeps (clear_yaw setting)
  unfolding clear_yaw
  keep_clear_yaw w w' e = ground arith

  pub keep_resource_configuration_compute : Keeps (resource_configuration_compute setting)
  unfolding resource_configuration_compute
  keep_resource_configuration_compute w w' e =
      let p = >>=-eq-some w.activity.params _ e in
      let r = >>=-eq-some (load_configuration_file setting p.0.configuration_file p.0) _ p.2 in
      keep_then (when_read setting r.0.0) (clear_yaw setting) (keep_when_read r.0.0) keep_clear_yaw
        (set_params setting w r.0.1) w' r.2

  keep_communicate : Keeps (running_communicate_with_drive setting)
  unfolding running_communicate_with_drive
  keep_communicate w w' e = ground arith

  keep_compute : Keeps (running_compute setting)
  unfolding running_compute
  keep_compute w w' e = ground arith

  keep_publish : Keeps (running_communicate_odometry setting)
  unfolding running_communicate_odometry
  keep_publish w w' e = ground arith

  stay_resource_configuration_coordinate : KeepsTable (resource_configuration_coordinate setting)
  unfolding resource_configuration_coordinate completed update_super_state
  stay_resource_configuration_coordinate w w' e = ground arith

  stay_pausing_coordinate : KeepsTable (pausing_coordinate setting)
  unfolding pausing_coordinate pausing_next update_super_state
  stay_pausing_coordinate w w' e = ground arith

  stay_running_coordinate : KeepsTable (running_coordinate setting)
  unfolding running_coordinate update_super_state
  stay_running_coordinate w w' e = ground arith

  leaves_name :
      (name : String) (u v : World setting)
      → leave setting name u ≡ some v
      → leave_table schedule_map name (schedule_table setting u) ≡ some (schedule_table setting v)
  unfolding leave
  leaves_name name u v e =
      leaves schedule_map state_of (schedule_table setting) (set_schedule_table setting)
        (λ w t. refl) name u v e

  leaves_resources :
      (u v : World setting)
      → (leave setting "resource_configuration" u >>= λ w'.
          some (set_resource_complete setting w' false))
        ≡ some v
      → leave_table schedule_map "resource_configuration" (schedule_table setting u)
        ≡ some (schedule_table setting v)
  leaves_resources u v e =
      let step = >>=-eq-some (leave setting "resource_configuration" u) _ e in
      leaves_name "resource_configuration" u step.0 step.1
      ∙ ap (λ x. some (schedule_table setting x)) (eq_of_some step.2)

  abbrev Leaves : String → World setting → World setting → Type 0
  Leaves name w w' = Exchanged schedule_map state_of (schedule_table setting) name w w'

  by_resource_configuration :
      (w w' : World setting)
      → state_of w ≡ resource_configuration
      → activity_resource_configuration setting w ≡ some w'
      → Leaves "resource_configuration" w w'
  unfolding activity_resource_configuration resource_configuration_configure
  by_resource_configuration w w' at e =
      let a = >>=-eq-some (resource_configuration_coordinate setting w) _ e in
      let b = >>=-eq-some (resource_configuration_configure setting a.0) _ a.2 in
      still schedule_map state_of (schedule_table setting) "resource_configuration" w b.0 w'
        (configured schedule_map state_of (schedule_table setting) resource_configuration
          "resource_configuration" w a.0 b.0
          (leave setting "resource_configuration" a.0 >>= λ x.
            some (set_resource_complete setting x false))
          at (stay_resource_configuration_coordinate w a.0 a.1) b.1 (leaves_resources a.0))
        (keep_resource_configuration_compute b.0 w' b.2)

  by_pausing :
      (w w' : World setting)
      → state_of w ≡ pausing
      → activity_pausing setting w ≡ some w'
      → Leaves "pausing" w w'
  unfolding activity_pausing pausing_configure
  by_pausing w w' at e =
      let a = >>=-eq-some (pausing_coordinate setting w) _ e in
      configured schedule_map state_of (schedule_table setting) pausing "pausing" w a.0 w'
        (leave setting "pausing" a.0) at (stay_pausing_coordinate w a.0 a.1) a.2
        (leaves_name "pausing" a.0)

  by_running :
      (w w' : World setting)
      → state_of w ≡ running
      → activity_running setting w ≡ some w'
      → Leaves "running" w w'
  unfolding activity_running running_configure
  by_running w w' at e =
      let a = >>=-eq-some (running_communicate_with_drive setting w) _ e in
      let b = >>=-eq-some (running_coordinate setting a.0) _ a.2 in
      let c = >>=-eq-some (running_configure setting b.0) _ b.2 in
      still schedule_map state_of (schedule_table setting) "running" w c.0 w'
        (configured schedule_map state_of (schedule_table setting) running "running" w b.0 c.0
          (leave setting "running" b.0) at
          (stay_running_coordinate a.0 b.0 b.1 ∙ (keep_communicate w a.0 a.1).0) c.1
          (leaves_name "running" b.0))
        (keep_then (running_compute setting) (running_communicate_odometry setting) keep_compute
          keep_publish c.0 w' c.2)

  pub by_state :
      (w w' : World setting) (s : State) (name : String)
      → state_of w ≡ s
      → schedule_name s ≡ some name
      → call setting (main_of s) w ≡ some w'
      → Exchanged schedule_map state_of (schedule_table setting) name w w'
  unfolding schedule_name call
  by_state w w' resource_configuration name at n e =
      subst (λ x. Leaves x w w') (eq_of_some n) (by_resource_configuration w w' at e)
  by_state w w' pausing name at n e =
      subst (λ x. Leaves x w w') (eq_of_some n) (by_pausing w w' at e)
  by_state w w' running name at n e =
      subst (λ x. Leaves x w w') (eq_of_some n) (by_running w w' at e)
  by_state w w' creation name at n e = absurd (none-ne-some n)
  by_state w w' capability_configuration name at n e = absurd (none-ne-some n)
  by_state w w' cleaning name at n e = absurd (none-ne-some n)
  by_state w w' done name at n e = absurd (none-ne-some n)

  pub by_config :
      (w w' : World setting)
      → call setting proprioception_config w ≡ some w'
      → (config_table schedule_map (schedule_name (state_of w)) (schedule_table setting w)
          ≡ some (schedule_table setting w'))
        × (state_of w' ≡ state_of w)
  unfolding call activity_config
  by_config w w' e =
      let step =
        >>=-eq-some
          (config_table schedule_map (schedule_name (state_of w)) (schedule_table setting w)) _ e in
      (
        step.1 ∙ ap (λ u. some (schedule_table setting u)) (eq_of_some step.2),
        ap state_of (sym (eq_of_some step.2)),
      )
