-- ===== src/Drive/Activity/Keeps.antt =====
-- The behaviour of the drive activity leaves its schedules alone
-- (mobile_platform_drive/src/activity/kelo_drive_activity.c).
use ecs_private.Common.{
  ℕ, zero, suc, ◌+◌, ◌≡◌, sym, ap, ◌∙◌, Option, some, arith, eq_of_some, >>=-eq-some, ◌>>=◌,
}
use ecs_private.Drive.Activity.{Platform, Continuous, World, for_range}
use ecs_private.Drive.Activity.Wheels.{
  for_wheels, reset_message, reset_drive, communicate_mode, compute_mode, communicate_setpoint,
  send_setpoint, read_sensor, share_sensor, exchange_messages,
}
use ecs_private.Drive.Activity.Lifecycle.{schedule_table}

module _ (platform : Platform) where
  -- The table of schedules and the state of the life cycle stay.
  abbrev pub Keeps : (World platform → Option (World platform)) → Type 0
  Keeps f =
      (w w' : World platform)
      → f w ≡ some w'
      → (schedule_table platform w' ≡ schedule_table platform w)
        × (w'.activity.lcsm.state ≡ w.activity.lcsm.state)

  pub keep_then :
      (f g : World platform → Option (World platform)) → Keeps f → Keeps g → Keeps (λ w. f w >>= g)
  keep_then f g kf kg w w' e =
      let step = >>=-eq-some (f w) g e in
      let a = kf w step.0 step.1 in let b = kg step.0 w' step.2 in (b.0 ∙ a.0, b.1 ∙ a.1)

  keep_range :
      (body : ℕ → World platform → Option (World platform))
      → ((i : ℕ) → Keeps (body i))
      → (rounds i : ℕ) → Keeps (for_range rounds i body)
  unfolding for_range
  keep_range body k zero i w w' e = (
    ap (schedule_table platform) (sym (eq_of_some e)),
    ap (λ (u : World platform). u.activity.lcsm.state) (sym (eq_of_some e)),
  )
  keep_range body k (suc rounds) i w w' e =
      keep_then (body i) (for_range rounds (i + 1) body) (k i) (keep_range body k rounds (i + 1)) w
        w' e

  pub keep_wheels :
      (body : Continuous platform → ℕ → World platform → Option (World platform))
      → ((c : Continuous platform) (i : ℕ) → Keeps (body c i))
      → Keeps (for_wheels platform body)
  keep_wheels body k w w' e =
      let step =
        >>=-eq-some w.activity.continuous
          (λ c. for_range c.kelo_soem_state.nb_smart_wheel_detected 0 (body c) w) e in
      keep_range (body step.0) (k step.0) step.0.kelo_soem_state.nb_smart_wheel_detected 0 w w'
        step.2

  pub keep_reset_message : (c : Continuous platform) (i : ℕ) → Keeps (reset_message platform c i)
  unfolding reset_message
  keep_reset_message c i w w' e = ground arith

  pub keep_reset_drive : (c : Continuous platform) (i : ℕ) → Keeps (reset_drive platform c i)
  unfolding reset_drive
  keep_reset_drive c i w w' e = ground arith

  pub keep_communicate_mode :
      (c : Continuous platform) (i : ℕ) → Keeps (communicate_mode platform c i)
  unfolding communicate_mode
  keep_communicate_mode c i w w' e = ground arith

  pub keep_compute_mode : (c : Continuous platform) (i : ℕ) → Keeps (compute_mode platform c i)
  unfolding compute_mode
  keep_compute_mode c i w w' e = ground arith

  pub keep_communicate_setpoint :
      (c : Continuous platform) (i : ℕ) → Keeps (communicate_setpoint platform c i)
  unfolding communicate_setpoint
  keep_communicate_setpoint c i w w' e = ground arith

  pub keep_send_setpoint : (c : Continuous platform) (i : ℕ) → Keeps (send_setpoint platform c i)
  unfolding send_setpoint
  keep_send_setpoint c i w w' e = ground arith

  pub keep_read_sensor : (c : Continuous platform) (i : ℕ) → Keeps (read_sensor platform c i)
  unfolding read_sensor
  keep_read_sensor c i w w' e = ground arith

  pub keep_share_sensor : (c : Continuous platform) (i : ℕ) → Keeps (share_sensor platform c i)
  unfolding share_sensor
  keep_share_sensor c i w w' e = ground arith

  pub keep_exchange_messages : Keeps (exchange_messages platform)
  unfolding exchange_messages
  keep_exchange_messages w w' e = ground arith
