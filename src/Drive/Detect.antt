-- ===== src/Drive/Detect.antt =====
-- How many wheels the detection stores (mobile_platform_drive/src/kelo/kelo_soem.c).
use native.Mathlib.Decide.{dec_lt}
use ecs_private.Common.{
  ℕ, zero, suc, ◌+◌, ◌≤◌, ◌<◌, ◌≡◌, refl, ap, ◌∙◌, inl, inr, none, some, true, false, arith, ltb,
  ◌==◌, if◌then◌else◌, ◌>>=◌, set, length, length-set, lt→ltb, Bool-cases, Option-cases, List, [],
  ◌∷◌, ◌++◌, take, drop, take-set_end, drop-set, take_split, add-one,
}
use ecs_private.Drive.{max_number_smartwheels, smartwheel_vendor_id, Soem, SoemState}
use ecs_private.Drive.Ethercat.{store_wheel, detect_loop}
use ecs_private.Drive.Found.{is_wheel, behind, found, serials, Stored, nothing-Stored, cons-Stored}

module _ {Float Int : Type 0} (soem : Soem Float Int) where
  open soem use {E, ec_sdoread, eep_id, eep_id-sdoread, outputs, inputs}

  -- The slaves among so many, from number `cnt`, that are wheels.
  unfoldable pub wheels : ℕ → ℕ → E → ℕ
  wheels zero cnt e = 0
  wheels (suc rounds) cnt e =
      (if eep_id e cnt == smartwheel_vendor_id then 1 else 0) + wheels rounds (cnt + 1) e

  -- The four arrays have their cells.
  pub record IsSized (s : SoemState Int) : Type 0 where
    pub cmd_length : length s.cmd_data_smart_wheel ≡ max_number_smartwheels
    pub sensor_length : length s.sensor_data_smart_wheel ≡ max_number_smartwheels
    pub serial_length : length s.sw_serial_number ≡ max_number_smartwheels
    pub status_length : length s.smart_wheel_status ≡ max_number_smartwheels

  wheels-sdoread :
      (rounds cnt n : ℕ) (e : E) → wheels rounds cnt (ec_sdoread n e).1 ≡ wheels rounds cnt e
  unfolding wheels
  wheels-sdoread zero cnt n e = refl
  wheels-sdoread (suc rounds) cnt n e =
      rw (eep_id-sdoread n e cnt, wheels-sdoread rounds (cnt + 1) n e) refl

  -- A wheel for which there is a cell.
  stored :
      (cnt : ℕ) (s : SoemState Int) (e : E)
      → IsSized s
      → s.nb_smart_wheel_detected < max_number_smartwheels
      → (s' : SoemState Int) × (store_wheel soem cnt s e ≡ some (s', (ec_sdoread cnt e).1))
        × IsSized s'
        × (s'.nb_smart_wheel_detected ≡ s.nb_smart_wheel_detected + 1)
        × Stored soem ((cnt, e) ∷ []) s s'
        × (s'.in_operational_state ≡ s.in_operational_state)
  unfolding store_wheel serials
  stored cnt s e z h =
      let (x, cells, front) =
        take_split s.sw_serial_number nb (omega (arith, h, z.serial_length)) in
      elim (Option-cases (ec_sdoread cnt e).0) [
        | inl unread ↦ (
          with_serials s.sw_serial_number,
          rw
              (
                z.cmd_length,
                z.sensor_length,
                z.serial_length,
                z.status_length,
                lt→ltb nb 1 h,
                unread,
              )
              refl,
          sized s.sw_serial_number z.serial_length,
          refl,
          placed s.sw_serial_number (rw (add-one, cells, unread) front) (λ m g. refl),
          refl,
        )
        | inr (v, read) ↦ (
          with_serials (set s.sw_serial_number nb v),
          rw (z.cmd_length, z.sensor_length, z.serial_length, z.status_length, lt→ltb nb 1 h, read)
              refl,
          sized (set s.sw_serial_number nb v)
              (length-set s.sw_serial_number nb v ∙ z.serial_length),
          refl,
          placed (set s.sw_serial_number nb v)
              (rw (add-one, cells, read)
                (take-set_end s.sw_serial_number nb v (omega (arith, h, z.serial_length))))
              (λ m g. drop-set s.sw_serial_number nb m v (omega (arith, g))),
          refl,
        )
      ]
    where
      nb : ℕ
      nb = s.nb_smart_wheel_detected

      with_serials : List Int → SoemState Int
      with_serials serial = record s {
        cmd_data_smart_wheel = set s.cmd_data_smart_wheel nb (some (outputs e cnt));
        sensor_data_smart_wheel = set s.sensor_data_smart_wheel nb (some (inputs e cnt));
        sw_serial_number = serial;
        smart_wheel_status = set s.smart_wheel_status nb 1;
        nb_smart_wheel_detected = nb + 1;
      }

      sized :
          (serial : List Int)
          → length serial ≡ max_number_smartwheels
          → IsSized (with_serials serial)
      sized serial l = record {
        cmd_length = length-set s.cmd_data_smart_wheel nb _ ∙ z.cmd_length;
        sensor_length = length-set s.sensor_data_smart_wheel nb _ ∙ z.sensor_length;
        serial_length = l;
        status_length = length-set s.smart_wheel_status nb _ ∙ z.status_length;
      }

      placed :
          (serial : List Int)
          → take (nb + 1) serial
            ≡ take nb s.sw_serial_number
              ++ serials soem ((cnt, e) ∷ []) (drop nb s.sw_serial_number)
          → ((m : ℕ) → nb + 1 ≤ m → drop m serial ≡ drop m s.sw_serial_number)
          → Stored soem ((cnt, e) ∷ []) s (with_serials serial)
      placed serial front rest = record {
        number = refl;
        commands = rw add-one (
            take-set_end s.cmd_data_smart_wheel nb (some (outputs e cnt))
              (omega (arith, h, z.cmd_length)));
        sensors = rw add-one (
            take-set_end s.sensor_data_smart_wheel nb (some (inputs e cnt))
              (omega (arith, h, z.sensor_length)));
        numbers = front;
        ready =
            rw add-one (take-set_end s.smart_wheel_status nb 1 (omega (arith, h, z.status_length)));
        free = rest;
      }

  -- And one for which there is none.
  not_stored :
      (cnt : ℕ) (s : SoemState Int) (e : E)
      → IsSized s
      → max_number_smartwheels ≤ s.nb_smart_wheel_detected
      → store_wheel soem cnt s e ≡ none
  unfolding store_wheel
  not_stored cnt s e z h =
      let full : ltb s.nb_smart_wheel_detected (length s.cmd_data_smart_wheel) ≡ false =
        ground (arith, z.cmd_length, h) in
      rw full refl

  -- One round, at a wheel and at another slave.
  round_wheel :
      (rounds cnt : ℕ) (s : SoemState Int) (e : E)
      → is_wheel soem cnt e ≡ true
      → (detect_loop soem (suc rounds) cnt s e
          ≡ (store_wheel soem cnt s e >>= λ p. detect_loop soem rounds (cnt + 1) p.0 p.1))
        × (wheels (suc rounds) cnt e ≡ 1 + wheels rounds (cnt + 1) e)
  unfolding detect_loop wheels
  round_wheel rounds cnt s e h = (rw h refl, rw h refl)

  round_other :
      (rounds cnt : ℕ) (s : SoemState Int) (e : E)
      → is_wheel soem cnt e ≡ false
      → (detect_loop soem (suc rounds) cnt s e ≡ detect_loop soem rounds (cnt + 1) s e)
        × (wheels (suc rounds) cnt e ≡ wheels rounds (cnt + 1) e)
  unfolding detect_loop wheels
  round_other rounds cnt s e h = (rw h refl, rw h (omega arith))

  -- With room for all the wheels that are found, the detection stores each of them, behind those
  -- that were stored before.
  pub detect_loop_fits :
      (rounds cnt : ℕ) (s : SoemState Int) (e : E)
      → IsSized s
      → s.nb_smart_wheel_detected + wheels rounds cnt e ≤ max_number_smartwheels
      → (s' : SoemState Int) × (detect_loop soem rounds cnt s e
          ≡ some (s', behind soem rounds cnt e))
        × (s'.nb_smart_wheel_detected ≡ s.nb_smart_wheel_detected + wheels rounds cnt e)
        × Stored soem (found soem rounds cnt e) s s'
        × (s'.in_operational_state ≡ s.in_operational_state)
  unfolding detect_loop wheels behind found
  detect_loop_fits zero cnt s e z h = (s, refl, omega arith, nothing-Stored soem s, refl)
  detect_loop_fits (suc rounds) cnt s e z h = elim (Bool-cases (is_wheel soem cnt e)) [
    | inl wheel ↦
        let step = round_wheel rounds cnt s e wheel in
        let (s1, done, z1, n1, first, o1) = stored cnt s e z (omega (arith, h, step.1)) in
        let same = wheels-sdoread rounds (cnt + 1) cnt e in
        let (s', rest, n', others, o') =
          detect_loop_fits rounds (cnt + 1) s1 (ec_sdoread cnt e).1 z1
            (omega (arith, h, n1, same, step.1)) in
        (
          s',
          step.0
              ∙ ap (λ m. m >>= λ p. detect_loop soem rounds (cnt + 1) p.0 p.1) done
              ∙ rw wheel rest,
          omega (arith, n', n1, same, step.1),
          rw wheel (
              cons-Stored soem (cnt, e) (found soem rounds (cnt + 1) (ec_sdoread cnt e).1) s s1 s'
                (omega (arith, h, step.1, z.serial_length)) first others),
          o' ∙ o1,
        )
    | inr no_wheel ↦
        let step = round_other rounds cnt s e no_wheel in
        let (s', rest, n', others, o') =
          detect_loop_fits rounds (cnt + 1) s e z (omega (arith, h, step.1)) in
        (s', step.0 ∙ rw no_wheel rest, omega (arith, n', step.1), rw no_wheel others, o')
  ]

  -- With more wheels, counted together with those that were stored before, it writes past the arrays.
  pub detect_loop_overflows :
      (rounds cnt : ℕ) (s : SoemState Int) (e : E)
      → IsSized s
      → s.nb_smart_wheel_detected ≤ max_number_smartwheels
      → max_number_smartwheels < s.nb_smart_wheel_detected + wheels rounds cnt e
      → detect_loop soem rounds cnt s e ≡ none
  unfolding wheels
  detect_loop_overflows zero cnt s e z n h = absurd (omega (arith, n, h))
  detect_loop_overflows (suc rounds) cnt s e z n h =
      elim (Bool-cases (eep_id e cnt == smartwheel_vendor_id)) [
        | inl wheel ↦
            let step = round_wheel rounds cnt s e wheel in
            elim (dec_lt s.nb_smart_wheel_detected max_number_smartwheels) [
              | yes room ↦
                  let (s1, done, z1, n1, first, o1) = stored cnt s e z room in
                  let same = wheels-sdoread rounds (cnt + 1) cnt e in
                  step.0
                  ∙ ap (λ m. m >>= λ p. detect_loop soem rounds (cnt + 1) p.0 p.1) done
                  ∙ detect_loop_overflows rounds (cnt + 1) s1 (ec_sdoread cnt e).1 z1
                      (omega (arith, n1, room)) (omega (arith, h, n1, same, step.1))
              | no full ↦
                  step.0
                  ∙ ap (λ m. m >>= λ p. detect_loop soem rounds (cnt + 1) p.0 p.1)
                      (not_stored cnt s e z (omega (arith, full)))
            ]
        | inr other ↦
            let step = round_other rounds cnt s e other in
            step.0 ∙ detect_loop_overflows rounds (cnt + 1) s e z n (omega (arith, h, step.1))
      ]
