-- ===== src/Drive/Connect.antt =====
-- What an attempt to connect does (mobile_platform_drive/src/kelo/kelo_soem.c).
use ecs_private.Common.{
  ℕ, suc, List, ◌+◌, ◌*◌, ◌≤◌, ◌<◌, ◌≡◌, refl, ap, ◌∙◌, inl, inr, Option, none, some, Bool, true,
  false, arith, ltb, ◌==◌, if◌then◌else◌, ◌>>=◌, String, ==_iff,
}
use ecs_private.Drive.{max_number_smartwheels, Soem, SoemState}
use ecs_private.Drive.Ethercat.{
  ec_state_operational, detect_loop, prepare, request_operational, request_init,
  initialise_ethercat_master, wait_loop,
}
use ecs_private.Drive.Found.{behind, found, Stored}
use ecs_private.Drive.Waiting.{polls, Waits, wait_loop_lem}
use ecs_private.Drive.Detect.{IsSized, wheels, detect_loop_fits, detect_loop_overflows}

module _ {Float Int : Type 0} (soem : Soem Float Int) (ifname : String) where
  open soem use {
    E, ec_init, ec_config_init, ec_readstate, ec_close, ec_slavecount, slave_state, outputs_wkc,
    inputs_wkc, set_slave_state, ec_writestate, ec_send_processdata, ec_receive_processdata,
  }

  -- The port was opened and slaves were found.
  abbrev pub finds_slaves : E → Bool
  finds_slaves e =
      if (ec_init ifname e).0 then ltb 0 (ec_config_init (ec_init ifname e).1).0 else false

  -- SOEM when the loop over the slaves begins.
  abbrev pub at_detection : E → E
  at_detection e = prepare soem (ec_config_init (ec_init ifname e).1).1

  -- The wheels among the slaves.
  abbrev pub wheels_found : E → ℕ
  wheels_found e = wheels soem (ec_slavecount (at_detection e)) 1 (at_detection e)

  -- The part behind the detection.
  abbrev pub finish : SoemState Int × E → Option (Bool × SoemState Int × E)
  finish (s1, e4) =
      let s2 = record s1 { expected_work_counter = outputs_wkc e4 * 2 + inputs_wkc e4 } in
      let e5 = request_operational soem e4 in
      some (
        if slave_state e5 0 == ec_state_operational
        then (true, record s2 { in_operational_state = true }, e5)
        else (false, s2, ec_close (request_init soem (ec_readstate e5))))

  attempt :
      (s : SoemState Int) (e : E)
      → finds_slaves e ≡ true
      → initialise_ethercat_master soem ifname s e
        ≡ (detect_loop soem (ec_slavecount (at_detection e)) 1 s (at_detection e) >>= finish)
  unfolding initialise_ethercat_master
  attempt s e h =
      let opened : (ec_init ifname e).0 ≡ true = ground (arith, h) in
      let slaves : ltb 0 (ec_config_init (ec_init ifname e).1).0 ≡ true = ground (arith, h) in
      rw (opened, slaves) refl

  -- SOEM behind the detection, and the wheels that it met.
  abbrev pub detected_at : E → E
  detected_at e = behind soem (ec_slavecount (at_detection e)) 1 (at_detection e)

  abbrev pub wheel_list : E → List (ℕ × E)
  wheel_list e = found soem (ec_slavecount (at_detection e)) 1 (at_detection e)

  -- SOEM when the operational state has been requested.
  abbrev pub requested : E → E
  requested e =
      let e1 = set_slave_state (detected_at e) 0 ec_state_operational in
      ec_writestate 0 (ec_receive_processdata (ec_send_processdata e1)).1

  -- How an attempt that begins at `e` ends: at the first poll that finds all slaves operational, or,
  -- when 41 polls do not, with the initial state requested and the port closed.
  pub data Ended (e e' : E) : Bool → Type 0 where
    operational :
        (k : ℕ)
        → k < 41
        → e' ≡ polls soem (suc k) (requested e)
        → slave_state e' 0 ≡ ec_state_operational
        → Waits soem k (requested e)
        → Ended e e' true
    closed :
        e' ≡ ec_close (request_init soem (ec_readstate (polls soem 41 (requested e))))
        → Waits soem 41 (requested e)
        → Ended e e' false

  -- What an attempt that begins at `e` in the state `s` leaves.
  pub record Attempted (s : SoemState Int) (e : E) (connected : Bool) (s' : SoemState Int) (e' : E)
      : Type 0 where
    pub counted : s'.nb_smart_wheel_detected ≡ s.nb_smart_wheel_detected + wheels_found e
    pub wheels_stored : Stored soem (wheel_list e) s s'
    pub expected :
        s'.expected_work_counter ≡ outputs_wkc (detected_at e) * 2 + inputs_wkc (detected_at e)
    pub in_operation :
        s'.in_operational_state ≡ (if connected then true else s.in_operational_state)
    pub ended : Ended e e' connected

  -- The state behind the part that waits.
  abbrev waited : Bool → E → SoemState Int → SoemState Int
  waited connected e s1 = record s1 {
    expected_work_counter = outputs_wkc (detected_at e) * 2 + inputs_wkc (detected_at e);
    in_operational_state = if connected then true else s1.in_operational_state;
  }

  waited-Attempted :
      (s s1 : SoemState Int) (e e' : E) (connected : Bool)
      → s1.nb_smart_wheel_detected ≡ s.nb_smart_wheel_detected + wheels_found e
      → Stored soem (wheel_list e) s s1
      → s1.in_operational_state ≡ s.in_operational_state
      → Ended e e' connected
      → Attempted s e connected (waited connected e s1) e'
  waited-Attempted s s1 e e' connected n st o ended = record {
    counted = n;
    wheels_stored = record {
      number = st.number;
      commands = st.commands;
      sensors = st.sensors;
      numbers = st.numbers;
      ready = st.ready;
      free = st.free;
    };
    expected = refl;
    in_operation = ap (λ b. if connected then true else b) o;
    ended = ended;
  }

  finish_lem :
      (s1 : SoemState Int) (e : E)
      → (connected : Bool) × (e' : E) × (finish (s1, detected_at e)
          ≡ some (connected, waited connected e s1, e'))
        × Ended e e' connected
  finish_lem s1 e = elim (wait_loop_lem soem 41 (requested e)) [
    | inl (k, below, same, o, waits) ↦
        let there : (slave_state (wait_loop soem 41 (requested e)) 0 == ec_state_operational)
            ≡ true =
          (==_iff _ ec_state_operational).1 (rw same o) in
        (
          true,
          wait_loop soem 41 (requested e),
          rw there refl,
          operational k below same (rw same o) waits,
        )
    | inr (same, waits) ↦
        let missed : (slave_state (wait_loop soem 41 (requested e)) 0 == ec_state_operational)
            ≡ false =
          rw same (waits 40 (omega arith)) in
        (
          false,
          ec_close (request_init soem (ec_readstate (wait_loop soem 41 (requested e)))),
          rw missed refl,
          closed (ap (λ u. ec_close (request_init soem (ec_readstate u))) same) waits,
        )
  ]

  -- An attempt that finds slaves, and no more wheels than there are free cells in the four arrays, which
  -- have their declared size, does not go wrong. The arrays then hold, behind the cells of earlier attempts, which are as they were, the address
  -- of the outputs, the address of the inputs, the serial number (or what the cell held when it
  -- cannot be read) and the status 1 of the wheels that it finds, in the order of the slaves; the
  -- count is that of these cells, and the expected work counter is the one of the group. The attempt
  -- ends at the first of 41 polls that finds all slaves operational, returns true and notes this in
  -- the state; when none of the 41 finds them so, it requests the initial state, closes the port and
  -- returns false.
  pub initialise_ethercat_master_lem :
      (s : SoemState Int) (e : E)
      → IsSized soem s
      → finds_slaves e ≡ true
      → s.nb_smart_wheel_detected + wheels_found e ≤ max_number_smartwheels
      → (connected : Bool) × (s' : SoemState Int) × (e' : E) × (initialise_ethercat_master soem
            ifname s e
          ≡ some (connected, s', e'))
        × Attempted s e connected s' e'
  initialise_ethercat_master_lem s e z f h =
      let (s1, detected, n1, st, o1) =
        detect_loop_fits soem (ec_slavecount (at_detection e)) 1 s (at_detection e) z h in
      let (connected, e', done, ended) = finish_lem s1 e in
      (
        connected,
        waited connected e s1,
        e',
        attempt s e f ∙ ap (λ m. m >>= finish) detected ∙ done,
        waited-Attempted s s1 e e' connected n1 st o1 ended,
      )

  -- The wheels of an earlier attempt are not forgotten: an attempt that finds a wheel after another
  -- one that found it writes past the arrays.
  pub second_attempt_overflows :
      (s : SoemState Int) (e : E)
      → IsSized soem s
      → finds_slaves e ≡ true
      → s.nb_smart_wheel_detected ≡ max_number_smartwheels
      → 0 < wheels_found e
      → initialise_ethercat_master soem ifname s e ≡ none
  second_attempt_overflows s e z f n h =
      attempt s e f
      ∙ ap (λ m. m >>= finish)
          (detect_loop_overflows soem (ec_slavecount (at_detection e)) 1 s (at_detection e) z
            (omega (arith, n)) (omega (arith, n, h)))
