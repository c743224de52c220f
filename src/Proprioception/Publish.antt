-- ===== src/Proprioception/Publish.antt =====
-- What a run of the running state publishes
-- (mobile_platform_proprioception/src/activity/activity.c).
use ecs_private.Common.{
  ℕ, ◌*◌, ◌^◌, ◌<◌, ◌≡◌, refl, sym, ap, ◌∙◌, eq_of_some, some, Bool, true, false, ◌==◌, ◌&&◌,
  if◌then◌else◌, ==_iff,
}
use ecs_private.Lcsm.{running}
use ecs_private.Navigation.Lifecycle.{same_state}
use ecs_private.Drive.{Timestamp}
use ecs_private.Proprioception.{Setting, Params, Coordination, Continuous, Odometry, World}
use ecs_private.Proprioception.Encoders.{odometry_from_encoders_delta_tricycle}
use ecs_private.Proprioception.Behaviour.{
  set_params, set_continuous, sampling_time, running_communicate_with_drive, running_coordinate,
  running_compute, running_communicate_odometry,
}
use ecs_private.Proprioception.Lifecycle.{running_configure, activity_running}

module _ (setting : Setting) where
  open setting use {reals, Float}
  open reals use {Double, literal, of_nat, plus, minus, times, divide, less}

  -- All the variables were found, the state is the running one, and nobody asks for the deletion.
  pub record Ready (w : World setting) : Type 0 where
    pub params : Params setting
    pub coordination : Coordination setting
    pub continuous : Continuous setting
    pub drive : ℕ
    pub tricycle : ℕ
    pub odometry : ℕ
    pub request : ℕ
    pub params_at : w.activity.params ≡ some params
    pub coordination_at : w.activity.coordination_state ≡ some coordination
    pub continuous_at : w.activity.continuous ≡ some continuous
    pub drive_at : params.rt_drive ≡ some drive
    pub tricycle_at : params.rt_platform ≡ some tricycle
    pub odometry_at : params.rt_odometry ≡ some odometry
    pub request_at : coordination.deleting_request ≡ some request
    pub no_request : w.flags request ≡ false
    pub state_at : w.activity.lcsm.state ≡ running

  -- The local copies of the shared objects.
  abbrev pub copied : (w : World setting) → Ready w → Params setting
  copied w r = record (r.params) {
    drive = record (r.params.drive) {
      config = (w.drives r.drive).config;
      sensor = (w.drives r.drive).sensor;
    };
    platform = w.tricycles r.tricycle;
  }

  -- One step of the odometry when the time since the last message is positive and within the
  -- tolerance, and the old odometry otherwise.
  abbrev pub next_odometry : (w : World setting) → Ready w → Odometry Double
  next_odometry w r =
      let p = copied w r in
      let time =
        sampling_time setting (w.drives r.drive).sensor.timestamp r.continuous.previous_timestamp in
      let moved =
        odometry_from_encoders_delta_tricycle reals Float (w.tricycles r.tricycle) p.drive time
          r.continuous.odometry in
      if less time r.params.sampling_time_tolerance && less (literal "0") time
      then moved
      else r.continuous.odometry

  abbrev pub next_continuous : (w : World setting) → Ready w → Continuous setting
  next_continuous w r = record {
    odometry = next_odometry w r;
    previous_timestamp = (w.drives r.drive).sensor.timestamp;
  }

  communicated :
      (w : World setting) (r : Ready w)
      → running_communicate_with_drive setting w ≡ some (set_params setting w (copied w r))
  unfolding running_communicate_with_drive
  communicated w r = rw (r.params_at, r.coordination_at, r.drive_at, r.tricycle_at) refl

  coordinated :
      (w : World setting) (c : Coordination setting) (q : ℕ)
      → w.activity.coordination_state ≡ some c
      → c.deleting_request ≡ some q
      → w.flags q ≡ false
      → running_coordinate setting w ≡ some w
  unfolding running_coordinate
  coordinated w c q at q_at no_request = rw (at, q_at, no_request) refl

  still_running :
      (w : World setting) → w.activity.lcsm.state ≡ running → running_configure setting w ≡ some w
  unfolding running_configure same_state
  still_running w at =
      let same : same_state w.activity.lcsm.state running ≡ true =
        ap (λ s. same_state s running) at in
      rw same refl

  computed :
      (w : World setting) (r : Ready w)
      → running_compute setting (set_params setting w (copied w r))
        ≡ some (set_continuous setting (set_params setting w (copied w r)) (next_continuous w r))
  unfolding running_compute
  computed w r = rw r.continuous_at refl

  -- The world behind a run.
  abbrev pub published : (w : World setting) → Ready w → World setting
  published w r =
      record (set_continuous setting (set_params setting w (copied w r)) (next_continuous w r)) {
        odometries = λ b. if r.odometry == b then next_odometry w r else w.odometries b;
      }

  shows :
      (w : World setting) (r : Ready w) → (published w r).odometries r.odometry ≡ next_odometry w r
  shows w r = rw ((==_iff r.odometry r.odometry).1 refl) refl

  run_ready : (w : World setting) (r : Ready w) → activity_running setting w ≡ some (published w r)
  unfolding activity_running running_communicate_odometry
  run_ready w r =
      rw
        (
          communicated w r,
          coordinated (set_params setting w (copied w r)) r.coordination r.request r.coordination_at
              r.request_at r.no_request,
          still_running (set_params setting w (copied w r)) r.state_at,
          computed w r,
          r.coordination_at,
          r.odometry_at,
        )
        refl

  -- What IEEE 754 says of the difference of equal numbers, of zero, and of a 64-bit number.
  pub record ExactZero : Type 0 where
    pub minus_self : (n : ℕ) → n < 2 ^ 64 → minus (of_nat n) (of_nat n) ≡ literal "0"
    pub times_zero : times (literal "0") (literal "1000") ≡ literal "0"
    pub divide_zero : divide (literal "0") (of_nat (1000 * 1000)) ≡ literal "0"
    pub plus_zero : plus (literal "0") (literal "0") ≡ literal "0"
    pub not_less : less (literal "0") (literal "0") ≡ false

  no_time :
      (z : ExactZero) (t : Timestamp)
      → t.seconds < 2 ^ 64
      → t.nanoseconds < 2 ^ 64
      → sampling_time setting t t ≡ literal "0"
  no_time z t s n =
      ap
        (λ d.
          plus (times d (literal "1000"))
            (divide (minus (of_nat t.nanoseconds) (of_nat t.nanoseconds)) (of_nat (1000 * 1000))))
        (z.minus_self t.seconds s)
      ∙ ap (λ d. plus (times (literal "0") (literal "1000")) (divide d (of_nat (1000 * 1000))))
          (z.minus_self t.nanoseconds n)
      ∙ ap (λ d. plus d (divide (literal "0") (of_nat (1000 * 1000)))) z.times_zero
      ∙ ap (plus (literal "0")) z.divide_zero
      ∙ z.plus_zero

  and_false : (b : Bool) → (b && false) ≡ false
  and_false true = refl
  and_false false = refl

  -- When no time passed since the last message, the odometry is not moved.
  stale_odometry :
      (z : ExactZero) (w : World setting) (r : Ready w)
      → (w.drives r.drive).sensor.timestamp ≡ r.continuous.previous_timestamp
      → r.continuous.previous_timestamp.seconds < 2 ^ 64
      → r.continuous.previous_timestamp.nanoseconds < 2 ^ 64
      → next_odometry w r ≡ r.continuous.odometry
  stale_odometry z w r same s n =
      let time = no_time z r.continuous.previous_timestamp s n in
      rw (same, time, z.not_less, and_false (less (literal "0") r.params.sampling_time_tolerance))
        refl

  -- The activity is as a run left it, and nobody asks for the deletion.
  abbrev ready_again :
      (w v : World setting) (r : Ready w)
      → v.activity ≡ (published w r).activity
      → v.flags r.request ≡ false
      → Ready v
  ready_again w v r same quiet = record {
    params = copied w r;
    coordination = r.coordination;
    continuous = next_continuous w r;
    drive = r.drive;
    tricycle = r.tricycle;
    odometry = r.odometry;
    request = r.request;
    params_at = ap (λ a. a.params) same;
    coordination_at = ap (λ a. a.coordination_state) same ∙ r.coordination_at;
    continuous_at = ap (λ a. a.continuous) same;
    drive_at = r.drive_at;
    tricycle_at = r.tricycle_at;
    odometry_at = r.odometry_at;
    request_at = r.request_at;
    no_request = quiet;
    state_at = ap (λ a. a.lcsm.state) same ∙ r.state_at;
  }

  -- A message of the wheels moves the odometry once. After a run of the running state, with all
  -- variables found and no request for the deletion, let the others do anything but change the
  -- activity, send a message with another time stamp or ask for the deletion. The next run then
  -- succeeds, publishes the odometry that the first run published, whatever the others wrote there,
  -- and keeps the local odometry and time stamp. The time stamp is one of 64-bit numbers, and
  -- calculations with zero and with equal numbers follow IEEE 754.
  pub running_once :
      (z : ExactZero) (w w1 v : World setting) (r : Ready w)
      → activity_running setting w ≡ some w1
      → v.activity ≡ w1.activity
      → v.flags r.request ≡ false
      → (v.drives r.drive).sensor.timestamp ≡ (w.drives r.drive).sensor.timestamp
      → (w.drives r.drive).sensor.timestamp.seconds < 2 ^ 64
      → (w.drives r.drive).sensor.timestamp.nanoseconds < 2 ^ 64
      → (w2 : World setting) × (activity_running setting v ≡ some w2)
        × (w2.odometries r.odometry ≡ w1.odometries r.odometry)
        × (w2.activity.continuous ≡ w1.activity.continuous)
  running_once z w w1 v r ran kept quiet message s n =
      let first : w1 ≡ published w r = eq_of_some (sym ran ∙ run_ready w r) in
      let again = ready_again w v r (kept ∙ ap (λ u. u.activity) first) quiet in
      let stays : next_odometry v again ≡ next_odometry w r =
        stale_odometry z v again message s n in
      let shown : (published v again).odometries r.odometry
          ≡ (published w r).odometries r.odometry =
        shows v again ∙ stays ∙ sym (shows w r) in
      (
        published v again,
        run_ready v again,
        shown ∙ ap (λ u. u.odometries r.odometry) (sym first),
        rw (stays, message) refl ∙ ap (λ u. u.activity.continuous) (sym first),
      )
