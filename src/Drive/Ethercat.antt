-- ===== src/Drive/Ethercat.antt =====
-- The connection to the wheels: mobile_platform_5c/baseline/mobile_platform_drive/src/kelo/kelo_soem.c.
use ecs_private.Common.{
  ℕ, zero, suc, ◌+◌, ◌*◌, Option, none, some, Bool, true, false, ltb, leb, ◌==◌, if◌then◌else◌,
  ◌>>=◌, ◌>>◌, guard, set, length, String,
}
use ecs_private.Drive.{smartwheel_vendor_id, Received, no_frame, work_counter, Soem, SoemState}

-- `EC_STATE_INIT`, `EC_STATE_SAFE_OP`, `EC_STATE_OPERATIONAL`
abbrev pub ec_state_init : ℕ
ec_state_init = 0x01

abbrev pub ec_state_safe_op : ℕ
ec_state_safe_op = 0x04

abbrev pub ec_state_operational : ℕ
ec_state_operational = 0x08

module _ {Float Int : Type 0} (soem : Soem Float Int) where
  open soem use {
    E, ec_init, ec_config_init, ec_config_map, ec_configdc, ec_statecheck, ec_readstate,
    ec_writestate, ec_send_processdata, ec_receive_processdata, ec_close, ec_sdoread, ec_slavecount,
    eep_id, outputs, inputs, slave_state, set_slave_state, outputs_wkc, inputs_wkc,
  }

  -- The case of a wheel: the writes go past the arrays when these are full. The number keeps what it
  -- was when it cannot be read.
  unfoldable pub store_wheel : ℕ → SoemState Int → E → Option (SoemState Int × E)
  store_wheel cnt s e =
      let nb = s.nb_smart_wheel_detected in
      let (serial, e') = ec_sdoread cnt e in
      do
        guard (ltb nb (length s.cmd_data_smart_wheel))
        guard (ltb nb (length s.sensor_data_smart_wheel))
        guard (ltb nb (length s.sw_serial_number))
        guard (ltb nb (length s.smart_wheel_status))
        some (
          record s {
            cmd_data_smart_wheel = set s.cmd_data_smart_wheel nb (some (outputs e cnt));
            sensor_data_smart_wheel = set s.sensor_data_smart_wheel nb (some (inputs e cnt));
            sw_serial_number = elim serial [
              | none ↦ s.sw_serial_number
              | some number ↦ set s.sw_serial_number nb number
            ];
            smart_wheel_status = set s.smart_wheel_status nb 1;
            nb_smart_wheel_detected = nb + 1;
          },
          e',
        )

  -- The loop over the slaves from number `cnt`, with the number of rounds that are left.
  unfoldable pub detect_loop : ℕ → ℕ → SoemState Int → E → Option (SoemState Int × E)
  unfolding store_wheel
  detect_loop zero cnt s e = some (s, e)
  detect_loop (suc rounds) cnt s e = do
    (s', e') ← (if eep_id e cnt == smartwheel_vendor_id then store_wheel cnt s e else some (s, e))
    detect_loop rounds (cnt + 1) s' e'

  -- The `do` loop that waits for the slaves: `chk` lets its body run once and 40 times more.
  unfoldable pub wait_loop : ℕ → E → E
  wait_loop zero e = e
  wait_loop (suc chk) e =
      let e' =
        ec_statecheck 0 ec_state_operational (ec_receive_processdata (ec_send_processdata e)).1 in
      let rest = wait_loop chk e' in if slave_state e' 0 == ec_state_operational then e' else rest

  -- From the mapping of the slaves to the state check.
  abbrev pub prepare : E → E
  prepare e = ec_readstate (ec_statecheck 0 ec_state_safe_op (ec_configdc (ec_config_map e)))

  -- From the request of the operational state to the end of the waiting.
  abbrev pub request_operational : E → E
  request_operational e =
      let e1 = set_slave_state e 0 ec_state_operational in
      let e2 = (ec_receive_processdata (ec_send_processdata e1)).1 in
      wait_loop 41 (ec_writestate 0 e2)

  -- The initial state is requested again.
  abbrev pub request_init : E → E
  request_init e = ec_writestate 0 (set_slave_state e 0 ec_state_init)

  unfoldable pub initialise_ethercat_master :
      String → SoemState Int → E → Option (Bool × SoemState Int × E)
  unfolding detect_loop wait_loop
  initialise_ethercat_master ifname s e =
      let (opened, e1) = ec_init ifname e in
      let (slaves, e2) = ec_config_init e1 in
      let configured : Option (Bool × SoemState Int × E) = (do
        let e3 = prepare e2
        (s1, e4) ← detect_loop (ec_slavecount e3) 1 s e3
        let s2 = record s1 { expected_work_counter = outputs_wkc e4 * 2 + inputs_wkc e4 }
        let e5 = request_operational e4
        some (
            if slave_state e5 0 == ec_state_operational
            then (true, record s2 { in_operational_state = true }, e5)
            else (false, s2, ec_close (request_init (ec_readstate e5))))) in
      if opened
      then if ltb 0 slaves then configured else some (false, s, ec_close e2)
      else some (false, s, e1)

  unfoldable pub shutdown_ethercat_master : E → E
  shutdown_ethercat_master e = ec_close (request_init e)

  -- `state->work_counter >= state->expected_work_counter`
  abbrev pub enough_work : Received → ℕ → Bool
  enough_work no_frame expected = false
  enough_work (work_counter n) expected = leb expected n

  unfoldable pub read_write_ethercat : SoemState Int → E → SoemState Int × E
  read_write_ethercat s e =
      let (received, e') = ec_receive_processdata (ec_send_processdata e) in
      (
        record s {
          work_counter = received;
          has_new_measurement = enough_work received s.expected_work_counter;
        },
        e',
      )
