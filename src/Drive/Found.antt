-- ===== src/Drive/Found.antt =====
-- The wheels that the detection finds, and what it stores of them, apart from its loop
-- (mobile_platform_drive/src/kelo/kelo_soem.c).
use ecs_private.Common.{
  ℕ, zero, suc, ◌+◌, ◌<◌, ◌≤◌, ◌≡◌, refl, sym, ap, ◌∙◌, List, [], ◌∷◌, ◌++◌, none, some, Bool,
  arith, ◌==◌, if◌then◌else◌, length, take, drop, map, append_assoc, append-nil,
}
use ecs_private.Drive.{smartwheel_vendor_id, Soem, SoemState}

module _ {Float Int : Type 0} (soem : Soem Float Int) where
  open soem use {E, ec_sdoread, eep_id, outputs, inputs}

  abbrev pub is_wheel : ℕ → E → Bool
  is_wheel cnt e = eep_id e cnt == smartwheel_vendor_id

  -- Only a wheel is asked for its number.
  abbrev pub asked : ℕ → E → E
  asked cnt e = if is_wheel cnt e then (ec_sdoread cnt e).1 else e

  -- SOEM behind so many slaves from number `cnt`.
  unfoldable pub behind : ℕ → ℕ → E → E
  behind zero cnt e = e
  behind (suc rounds) cnt e = behind rounds (cnt + 1) (asked cnt e)

  -- The wheels among them in their order: the number of the slave, and SOEM when it is met.
  unfoldable pub found : ℕ → ℕ → E → List (ℕ × E)
  found zero cnt e = []
  found (suc rounds) cnt e =
      let rest = found rounds (cnt + 1) (asked cnt e) in
      if is_wheel cnt e then (cnt, e) ∷ rest else rest

  -- The serial numbers of the wheels; one that cannot be read is what the cell held.
  unfoldable pub serials : List (ℕ × E) → List Int → List Int
  serials [] xs = []
  serials (p ∷ ps) [] = []
  serials (p ∷ ps) (x ∷ xs) =
      elim (ec_sdoread p.0 p.1).0 [ none ↦ x | some number ↦ number ] ∷ serials ps xs

  -- The arrays of `s'` are those of `s` with these wheels behind the ones that were stored before.
  pub record Stored (ps : List (ℕ × E)) (s s' : SoemState Int) : Type 0 where
    pub number : s'.nb_smart_wheel_detected ≡ s.nb_smart_wheel_detected + length ps
    pub commands :
        take s'.nb_smart_wheel_detected s'.cmd_data_smart_wheel
        ≡ take s.nb_smart_wheel_detected s.cmd_data_smart_wheel
          ++ map (λ (p : ℕ × E). some (outputs p.1 p.0)) ps
    pub sensors :
        take s'.nb_smart_wheel_detected s'.sensor_data_smart_wheel
        ≡ take s.nb_smart_wheel_detected s.sensor_data_smart_wheel
          ++ map (λ (p : ℕ × E). some (inputs p.1 p.0)) ps
    pub numbers :
        take s'.nb_smart_wheel_detected s'.sw_serial_number
        ≡ take s.nb_smart_wheel_detected s.sw_serial_number
          ++ serials ps (drop s.nb_smart_wheel_detected s.sw_serial_number)
    pub ready :
        take s'.nb_smart_wheel_detected s'.smart_wheel_status
        ≡ take s.nb_smart_wheel_detected s.smart_wheel_status ++ map (λ (p : ℕ × E). 1) ps
    pub free :
        (m : ℕ)
        → s'.nb_smart_wheel_detected ≤ m
        → drop m s'.sw_serial_number ≡ drop m s.sw_serial_number

  serials-cons :
      (p : ℕ × E) (ps : List (ℕ × E)) (xs : List Int) (n : ℕ)
      → n < length xs
      → serials (p ∷ ps) (drop n xs) ≡ serials (p ∷ []) (drop n xs) ++ serials ps (drop (suc n) xs)
  unfolding serials
  serials-cons p ps [] n h = elim h [ ]
  serials-cons p ps (x ∷ xs) zero h = refl
  serials-cons p ps (x ∷ xs) (suc n) h = serials-cons p ps xs n (omega arith)

  append-tail {ℓ} :
      {A : Type ℓ} {a b : List A} (c : List A) (x : A) (ys : List A)
      → a ≡ b ++ ys
      → b ≡ c ++ (x ∷ [])
      → a ≡ c ++ (x ∷ ys)
  append-tail c x ys p q = p ∙ ap (λ l. l ++ ys) q ∙ append_assoc c (x ∷ []) ys

  pub nothing-Stored : (s : SoemState Int) → Stored [] s s
  unfolding serials
  nothing-Stored s = record {
    number = omega arith;
    commands = sym (append-nil _);
    sensors = sym (append-nil _);
    numbers = sym (append-nil _);
    ready = sym (append-nil _);
    free = λ m h. refl;
  }

  -- One wheel, and then the others.
  pub cons-Stored :
      (p : ℕ × E) (ps : List (ℕ × E)) (s s1 s' : SoemState Int)
      → s.nb_smart_wheel_detected < length s.sw_serial_number
      → Stored (p ∷ []) s s1
      → Stored ps s1 s'
      → Stored (p ∷ ps) s s'
  cons-Stored p ps s s1 s' room first rest = record {
    number = omega (arith, first.number, rest.number);
    commands =
        append-tail (take nb s.cmd_data_smart_wheel) (some (outputs p.1 p.0)) _ rest.commands
          first.commands;
    sensors =
        append-tail (take nb s.sensor_data_smart_wheel) (some (inputs p.1 p.0)) _ rest.sensors
          first.sensors;
    numbers =
        rest.numbers
        ∙ ap (λ l. l ++ serials ps (drop s1.nb_smart_wheel_detected s1.sw_serial_number))
            first.numbers
        ∙ append_assoc (take nb s.sw_serial_number) (serials (p ∷ []) cells) _
        ∙ ap (λ l. take nb s.sw_serial_number ++ l) joined;
    ready = append-tail (take nb s.smart_wheel_status) 1 _ rest.ready first.ready;
    free = λ m h. rest.free m h ∙ first.free m (omega (arith, h, rest.number));
  }
    where
      nb : ℕ
      nb = s.nb_smart_wheel_detected

      cells : List Int
      cells = drop nb s.sw_serial_number

      next : s1.nb_smart_wheel_detected ≡ suc nb
      next = omega (arith, first.number)

      joined :
          serials (p ∷ []) cells ++ serials ps (drop s1.nb_smart_wheel_detected s1.sw_serial_number)
          ≡ serials (p ∷ ps) cells
      joined =
          ap (λ l. serials (p ∷ []) cells ++ serials ps l)
            (first.free s1.nb_smart_wheel_detected (omega arith)
              ∙ ap (λ n. drop n s.sw_serial_number) next)
          ∙ sym (serials-cons p ps s.sw_serial_number nb room)
