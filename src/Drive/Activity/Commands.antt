-- ===== src/Drive/Activity/Commands.antt =====
-- What a running drive sends to its wheel (mobile_platform_drive/src/activity/kelo_drive_activity.c).
use ecs_private.Common.{
  ℕ, ◌≡◌, refl, ap, ◌∙◌, inl, inr, [], ◌∷◌, some, Bool, true, arith, ◌==◌, ◌&&◌, ◌||◌, not,
  if◌then◌else◌, ◌>>=◌, Bool-cases, ==_iff,
}
use ecs_private.Navigation.{Wheels, Actuation, command_mode_torque, command_mode_velocity}
use ecs_private.Drive.{Rxpdo}
use ecs_private.Drive.Activity.{
  Platform, KeloDrive, Params, Continuous, Coordination, World, for_range,
}
use ecs_private.Drive.Activity.Wheels.{
  no_wheels, for_wheels, communicate_setpoint, send_setpoint, setpoint_message, set_drive,
}

module _ (platform : Platform) where
  open platform use {numbers, soem}
  open numbers use {Double, Float, Int, literal, float_of}
  open soem use {rx, write_rx, rx-write}

  -- A running activity with one wheel: the local drive, the address and the mutex of the shared one,
  -- the flag for the request of another configuration, and the address of the message to the wheel.
  pub record OneWheel (w : World platform) : Type 0 where
    pub params : Params platform
    pub continuous : Continuous platform
    pub coordination : Coordination platform
    pub drive : KeloDrive platform
    pub shared : ℕ
    pub lock : ℕ
    pub request : ℕ
    pub message : ℕ
    pub params_at :
        w.activity.params ≡ some (record params { drive = drive ∷ []; rt_drive = some shared ∷ [] })
    pub continuous_at :
        w.activity.continuous
        ≡ some (record continuous {
          kelo_soem_state = record (continuous.kelo_soem_state) {
            cmd_data_smart_wheel = some message ∷ [];
            nb_smart_wheel_detected = 1;
          };
        })
    pub coordination_at :
        w.activity.coordination_state
        ≡ some (record coordination {
          drive_lock = some lock ∷ [];
          configuration_request = some request;
        })

  abbrev pub valid_mode : ℕ → Bool
  valid_mode mode = (mode == command_mode_torque) || (mode == command_mode_velocity)

  -- The actuation that other activities ask for.
  abbrev pub asked : (w : World platform) → OneWheel w → Actuation Double
  asked w h = (w.drives h.shared).actuation

  -- The local drive after the first loop.
  abbrev pub copied : (w : World platform) → OneWheel w → KeloDrive platform
  copied w h =
      let same = (asked w h).mode == h.drive.actuation.mode in
      record (h.drive) {
        actuation = record (h.drive.actuation) {
          velocity = if same then (asked w h).velocity else no_wheels platform;
          current = if same then (asked w h).current else no_wheels platform;
        };
      }

  abbrev pub after_copy : (w : World platform) → OneWheel w → World platform
  after_copy w h =
      let requested =
        not ((asked w h).mode == h.drive.actuation.mode) && valid_mode (asked w h).mode in
      set_drive platform
        (record w { flags = λ x. if requested && (h.request == x) then true else w.flags x })
        (record (h.params) { drive = h.drive ∷ []; rt_drive = some h.shared ∷ [] }) 0 (copied w h)

  copy :
      (w : World platform) (h : OneWheel w)
      → for_wheels platform (communicate_setpoint platform) w ≡ some (after_copy w h)
  unfolding for_range communicate_setpoint
  copy w h = elim (Bool-cases ((asked w h).mode == h.drive.actuation.mode)) [
    | inl same ↦ rw (h.continuous_at, h.params_at, h.coordination_at, same) refl
    | inr other ↦ elim (Bool-cases (valid_mode (asked w h).mode)) [
      | inl valid ↦ rw (h.continuous_at, h.params_at, h.coordination_at, other, valid) refl
      | inr invalid ↦ rw (h.continuous_at, h.params_at, h.coordination_at, other, invalid) refl
    ]
  ]

  -- The message to the wheel after the second loop.
  abbrev pub sent : (w : World platform) → OneWheel w → Rxpdo Float
  sent w h = setpoint_message platform (copied w h).actuation (rx w.ethercat h.message)

  abbrev pub after_send : (w : World platform) → OneWheel w → World platform
  after_send w h = record (after_copy w h) { ethercat = write_rx w.ethercat h.message (sent w h) }

  send :
      (w : World platform) (h : OneWheel w)
      → for_wheels platform (send_setpoint platform) (after_copy w h) ≡ some (after_send w h)
  unfolding for_range send_setpoint
  send w h = rw h.continuous_at refl

  -- The motion of a wheel that is wanted: what other activities ask for, in the mode that they ask
  -- for, if that is the mode of the wheel; otherwise none.
  abbrev pub wanted : (w : World platform) → OneWheel w → (Wheels Double → Double) → Double
  wanted w h side =
      let mode = h.drive.actuation.mode in
      if (asked w h).mode == mode
      then if mode == command_mode_velocity
        then side (asked w h).velocity
        else if mode == command_mode_torque
        then side (asked w h).current
        else literal "0"
      else literal "0"

  wanted-sent :
      (w : World platform) (h : OneWheel w)
      → ((sent w h).setpoint1 ≡ float_of (wanted w h (λ s. s.right_wheel)))
        × ((sent w h).setpoint2 ≡ float_of (wanted w h (λ s. s.left_wheel)))
  wanted-sent w h = ground arith

  -- A running drive with one wheel sends the wheel what other activities ask for only if they ask for
  -- the mode that the wheel has been configured for; in another mode it sends no motion, and it
  -- requests its own configuration if that mode is one of the two that there are.
  pub commands_lem :
      (w : World platform) (h : OneWheel w)
      → (w' : World platform) × ((for_wheels platform (communicate_setpoint platform) w
            >>= for_wheels platform (send_setpoint platform))
          ≡ some w')
        × ((rx w'.ethercat h.message).setpoint1 ≡ float_of (wanted w h (λ s. s.right_wheel)))
        × ((rx w'.ethercat h.message).setpoint2 ≡ float_of (wanted w h (λ s. s.left_wheel)))
        × (w'.flags h.request ≡ (
            if (asked w h).mode == h.drive.actuation.mode
            then w.flags h.request
            else if valid_mode (asked w h).mode
            then true
            else w.flags h.request))
  commands_lem w h = (
    after_send w h,
    rw (copy w h) (send w h),
    ap (λ r. r.setpoint1) written ∙ (wanted-sent w h).0,
    ap (λ r. r.setpoint2) written ∙ (wanted-sent w h).1,
    requested,
  )
    where
      written : rx (write_rx w.ethercat h.message (sent w h)) h.message ≡ sent w h
      written =
          rx-write w.ethercat h.message h.message (sent w h)
          ∙ rw ((==_iff h.message h.message).1 refl) refl

      requested : (after_send w h).flags h.request ≡ (
          if (asked w h).mode == h.drive.actuation.mode
          then w.flags h.request
          else if valid_mode (asked w h).mode
          then true
          else w.flags h.request)
      requested = ground (arith, (==_iff h.request h.request).1 refl)
