-- ===== src/Drive/Activity/Stays.antt =====
-- The functions of the drive activity other than those of configuration leave its table of schedules
-- alone (mobile_platform_drive/src/activity/kelo_drive_activity.c).
use ecs_private.Common.{
  ℕ, zero, suc, ◌+◌, ◌≡◌, sym, ap, ◌∙◌, Option, some, none, Bool, true, false, arith, eq_of_some,
  >>=-eq-some, ◌>>=◌, none-ne-some, guard, ltb,
}
use ecs_private.Activity.{Protocol, initialisation, execution, deinitialisation}
use ecs_private.ReadFile.{failed}
use ecs_private.Navigation.Behaviour.{int_max}
use ecs_private.Drive.Ethercat.{initialise_ethercat_master}
use ecs_private.Drive.Activity.Configuration.{configure_from_file}
use ecs_private.Drive.Activity.{Platform, Params, Continuous, DiscreteState, World}
use ecs_private.Drive.Activity.Wheels.{
  for_wheels, reset_message, reset_drive, communicate_mode, compute_mode, communicate_setpoint,
  send_setpoint, read_sensor, share_sensor, set_params,
}
use ecs_private.Drive.Activity.Behaviour.{
  creation_compute, creation_coordinate, resource_configuration_coordinate, heed_deletion,
  capability_configuration_communicate, capability_configuration_coordinate, capabilities_next,
  capability_configuration_compute, log_sensor, running_communicate, running_coordinate,
  update_super_state, malloc, resources_complete,
}
use ecs_private.Drive.Activity.Connection.{
  register_drive, register_loop, after_attempt, attempt, attempted, enough_attempts, connected,
  attempt_connection, resource_configuration_compute, set_resource_complete,
}
use ecs_private.Drive.Activity.Lifecycle.{schedule_table, compute_in_time}
use ecs_private.Drive.Activity.Keeps.{
  Keeps, keep_then, keep_wheels, keep_reset_message, keep_reset_drive, keep_communicate_mode,
  keep_compute_mode, keep_communicate_setpoint, keep_send_setpoint, keep_read_sensor,
  keep_share_sensor, keep_exchange_messages,
}

module _ (platform : Platform) where
  abbrev pub KeepsTable : (World platform → Option (World platform)) → Type 0
  KeepsTable f =
      (w w' : World platform)
      → f w ≡ some w'
      → schedule_table platform w' ≡ schedule_table platform w

  pub stay_creation_compute : KeepsTable (creation_compute platform)
  unfolding creation_compute malloc
  stay_creation_compute w w' e = ground arith

  pub stay_creation_coordinate : KeepsTable (creation_coordinate platform)
  unfolding creation_coordinate update_super_state
  stay_creation_coordinate w w' e = ground arith

  stay_heed_deletion : KeepsTable (heed_deletion platform)
  unfolding heed_deletion
  stay_heed_deletion w w' e = ground arith

  pub stay_resource_configuration_coordinate :
      KeepsTable (resource_configuration_coordinate platform)
  unfolding resource_configuration_coordinate resources_complete update_super_state
  stay_resource_configuration_coordinate w w' e =
      let step = >>=-eq-some (heed_deletion platform w) _ e in
      ground (arith, step.2) ∙ stay_heed_deletion w step.0 step.1

  stay_log_sensor : Keeps platform (log_sensor platform)
  unfolding log_sensor
  stay_log_sensor w w' e = ground arith

  pub keep_running_communicate : Keeps platform (running_communicate platform)
  unfolding running_communicate
  keep_running_communicate =
      keep_then platform _ _
        (keep_wheels platform (communicate_setpoint platform) (keep_communicate_setpoint platform))
        (keep_then platform _ _
          (keep_wheels platform (send_setpoint platform) (keep_send_setpoint platform))
          (keep_then platform _ _ (keep_exchange_messages platform) (
            keep_then platform _ _
              (keep_wheels platform (read_sensor platform) (keep_read_sensor platform))
              (keep_then platform _ _
                (keep_wheels platform (share_sensor platform) (keep_share_sensor platform))
                stay_log_sensor))))

  pub stay_running_coordinate : KeepsTable (running_coordinate platform)
  unfolding running_coordinate update_super_state
  stay_running_coordinate w w' e = ground arith

  pub keep_capability_configuration_communicate :
      Keeps platform (capability_configuration_communicate platform)
  unfolding capability_configuration_communicate
  keep_capability_configuration_communicate =
      keep_wheels platform (communicate_mode platform) (keep_communicate_mode platform)

  pub keep_capability_configuration_compute :
      Keeps platform (capability_configuration_compute platform)
  unfolding capability_configuration_compute
  keep_capability_configuration_compute =
      keep_wheels platform (compute_mode platform) (keep_compute_mode platform)

  pub stay_capability_configuration_coordinate :
      KeepsTable (capability_configuration_coordinate platform)
  unfolding capability_configuration_coordinate capabilities_next update_super_state heed_deletion
  stay_capability_configuration_coordinate w w' e = ground arith

  stay_register_drive : (name : _) → KeepsTable (λ w. register_drive platform w name)
  unfolding register_drive
  stay_register_drive name w w' e = ground arith

  -- The registered wheel, when there is one more, and the rest of the loop.
  stay_register_loop :
      (rounds i : ℕ) (w w' : World platform) (b : Bool)
      → register_loop platform rounds i w ≡ some (b, w')
      → schedule_table platform w' ≡ schedule_table platform w
  unfolding register_loop
  stay_register_loop zero i w w' b e =
      ap (λ (p : Bool × World platform). schedule_table platform p.1) (sym (eq_of_some e))
  stay_register_loop (suc rounds) i w w' b e =
      grind (arith, e, stay_register_loop rounds (i + 1), stay_register_drive)

  stay_connected : KeepsTable (connected platform)
  unfolding connected
  stay_connected w w' e =
      let a = >>=-eq-some (for_wheels platform (reset_message platform) w) _ e in
      let b = >>=-eq-some (for_wheels platform (reset_drive platform) a.0) _ a.2 in
      let c = >>=-eq-some b.0.activity.continuous _ b.2 in
      let d =
        >>=-eq-some (register_loop platform c.0.kelo_soem_state.nb_smart_wheel_detected 0 b.0) _
          c.2 in
      let registered =
        stay_register_loop c.0.kelo_soem_state.nb_smart_wheel_detected 0 b.0 d.0.1 d.0.0 d.1 in
      ground (arith, d.2)
      ∙ registered
      ∙ (keep_wheels platform (reset_drive platform) (keep_reset_drive platform) a.0 b.0 b.1).0
      ∙ (keep_wheels platform (reset_message platform) (keep_reset_message platform) w a.0 a.1).0

  stay_after_attempt : (result enough : Bool) → KeepsTable (after_attempt platform result enough)
  unfolding after_attempt
  stay_after_attempt true enough w w' e = stay_connected w w' e
  stay_after_attempt false true w w' e = ap (schedule_table platform) (sym (eq_of_some e))
  stay_after_attempt false false w w' e = ap (schedule_table platform) (sym (eq_of_some e))

  stay_bind :
      {A : Type 0} (m : Option A) (f : A → Option (World platform)) (w w' : World platform)
      → ((a : A) → f a ≡ some w' → schedule_table platform w' ≡ schedule_table platform w)
      → (m >>= f) ≡ some w'
      → schedule_table platform w' ≡ schedule_table platform w
  stay_bind none f w w' k e = absurd (none-ne-some e)
  stay_bind (some a) f w w' k e = k a e

  stay_attempt :
      (p : Params platform) (c : Continuous platform) (d : DiscreteState platform)
      → KeepsTable (attempt platform p c d)
  unfolding attempt
  stay_attempt p c d w w' e =
      stay_bind (initialise_ethercat_master platform.soem p.ifname c.kelo_soem_state w.ethercat) _ w
        w'
        (λ r done.
          stay_after_attempt r.0 (enough_attempts platform p d) (attempted platform c d w r) w'
            done)
        e

  stay_attempt_connection : KeepsTable (attempt_connection platform)
  unfolding attempt_connection
  stay_attempt_connection w w' e =
      stay_bind w.activity.params _ w w'
        (λ params. stay_bind w.activity.continuous _ w w' (λ continuous.
          stay_bind w.activity.discrete _ w w' (λ discrete.
            stay_bind (configure_from_file platform params.configuration_file failed params) _ w w'
              (λ r.
                stay_bind (guard (ltb discrete.number_of_connection_attempts int_max)) _ w w'
                  (λ u done.
                    stay_attempt r.1 continuous discrete (set_params platform w r.1) w' done)))))
        e

  by_protocol :
      (w w' : World platform) (p : Protocol)
      → elim p as (λ x. Option (World platform)) [
        | initialisation ↦ attempt_connection platform w
        | execution ↦ some w
        | deinitialisation ↦ some (set_resource_complete platform w true)
      ]
        ≡ some w'
      → schedule_table platform w' ≡ schedule_table platform w
  by_protocol w w' initialisation e = stay_attempt_connection w w' e
  by_protocol w w' execution e = ap (schedule_table platform) (sym (eq_of_some e))
  by_protocol w w' deinitialisation e = ap (schedule_table platform) (sym (eq_of_some e))

  stay_resource_configuration_compute : KeepsTable (resource_configuration_compute platform)
  unfolding resource_configuration_compute
  stay_resource_configuration_compute w w' e = by_protocol w w' w.activity.lcsm_protocol e

  pub stay_compute_in_time : KeepsTable (compute_in_time platform)
  unfolding compute_in_time
  stay_compute_in_time w w' e = grind (arith, e, stay_resource_configuration_compute)
