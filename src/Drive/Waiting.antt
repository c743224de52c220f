-- ===== src/Drive/Waiting.antt =====
-- The `do` loop of `initialise_ethercat_master` (mobile_platform_drive/src/kelo/kelo_soem.c), which
-- waits until the slaves are operational.
use ecs_private.Common.{
  ℕ, zero, suc, ◌<◌, ◌≡◌, refl, inl, inr, ◌⊎◌, false, arith, ◌==◌, Bool-cases, ==_iff,
}
use ecs_private.Drive.{Soem}
use ecs_private.Drive.Ethercat.{ec_state_operational, wait_loop}

module _ {Float Int : Type 0} (soem : Soem Float Int) where
  open soem use {E, ec_statecheck, ec_send_processdata, ec_receive_processdata, slave_state}

  -- Data is sent and received, and the state of the slaves is checked.
  abbrev pub poll : E → E
  poll e = ec_statecheck 0 ec_state_operational (ec_receive_processdata (ec_send_processdata e)).1

  -- SOEM after so many polls.
  unfoldable pub polls : ℕ → E → E
  polls zero e = e
  polls (suc k) e = polls k (poll e)

  -- None of the first polls finds all slaves operational.
  abbrev pub Waits : ℕ → E → Type 0
  Waits n e = (k : ℕ) → k < n → (slave_state (polls (suc k) e) 0 == ec_state_operational) ≡ false

  Waits-suc :
      (n : ℕ) (e : E)
      → (slave_state (poll e) 0 == ec_state_operational) ≡ false
      → Waits n (poll e)
      → Waits (suc n) e
  unfolding polls
  Waits-suc n e first rest zero h = first
  Waits-suc n e first rest (suc k) h = rest k (omega arith)

  -- The loop ends at the first poll that finds all slaves operational, or after all the polls.
  pub wait_loop_lem :
      (chk : ℕ) (e : E)
      → ((k : ℕ) × (k < chk)
          × (wait_loop soem chk e ≡ polls (suc k) e)
          × (slave_state (polls (suc k) e) 0 ≡ ec_state_operational)
          × Waits k e)
        ⊎ ((wait_loop soem chk e ≡ polls chk e) × Waits chk e)
  unfolding wait_loop polls
  wait_loop_lem zero e = inr (refl, λ k h. elim h [ ])
  wait_loop_lem (suc chk) e = elim (Bool-cases (slave_state (poll e) 0 == ec_state_operational)) [
    | inl o ↦
        inl (0, omega arith, rw o refl, (==_iff (slave_state (poll e) 0) 8).0 o, λ k h. elim h [ ])
    | inr n ↦ elim (wait_loop_lem chk (poll e)) [
      | inl (k, below, same, o, waits) ↦
          inl (suc k, omega (arith, below), rw n same, o, Waits-suc k e n waits)
      | inr (same, waits) ↦ inr (rw n same, Waits-suc chk e n waits)
    ]
  ]
