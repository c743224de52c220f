-- ===== src/MathRob/Smallest.antt =====
-- What `smallest_value` finds (mobile_platform_5c/baseline/math_rob_c/src/numbers/numbers.c).
use ecs_private.Common.{
  ℕ, zero, suc, ◌+◌, ◌<◌, ◌≤◌, ◌≡◌, refl, sym, ap, ◌∙◌, ◌⊎◌, inl, inr, List, Option, none, some,
  true, false, get_elem?, arith, Bool-cases, length, eq_of_some, get_elem?_of_lt, none-ne-some,
  subst,
}
use ecs_private.MathRob.{Reals, keep_smaller, smallest_loop, smallest_value}

module _ (reals : Reals) where
  open reals use {Double, less, infinity}

  -- The comparison of numbers, of which some may be no number: it is transitive, and never holds of
  -- a number and itself.
  pub record IsOrder : Type 0 where
    pub irreflexive : (a : Double) → less a a ≡ false
    pub transitive : (a b c : Double) → less a b ≡ true → less b c ≡ true → less a c ≡ true

  -- What the loop knows after `i` values.
  pub record IsSmallest (values : List Double) (i : ℕ) (found : Double × Option ℕ) : Type 0 where
    pub below : found.0 ≡ infinity ⊎ less found.0 infinity ≡ true
    pub none_less :
        (k : ℕ) (v : Double) → k < i → get_elem? values k ≡ some v → less v found.0 ≡ false
    pub at_index : (k : ℕ) → found.1 ≡ some k → (k < i) × (get_elem? values k ≡ some found.0)
    pub no_index : found.1 ≡ none → found.0 ≡ infinity

  at_most :
      (values : List Double) (i : ℕ) (v : Double) (found : Double × Option ℕ)
      → IsOrder
      → IsSmallest values i found
      → less v found.0 ≡ true
      → less v infinity ≡ true
  at_most values i v found order h l = elim h.below [
    | inl e ↦ sym (ap (less v) e) ∙ l
    | inr b ↦ order.transitive v found.0 infinity l b
  ]

  -- The value at `i` is smaller than all before.
  taken :
      (values : List Double) (i : ℕ) (v : Double) (found : Double × Option ℕ)
      → IsOrder
      → IsSmallest values i found
      → get_elem? values i ≡ some v
      → less v infinity ≡ true
      → less v found.0 ≡ true
      → IsSmallest values (i + 1) (v, some i)
  taken values i v found order h at b l = record {
    below = inr b;
    none_less = λ k v' lt e.
        grind (
          arith,
          e,
          at,
          l,
          lt,
          h.none_less k v',
          order.irreflexive v,
          order.transitive v' v found.0,
        );
    at_index = λ k e.
        let here = eq_of_some e in (omega (arith, here), ap (get_elem? values) (sym here) ∙ at);
    no_index = λ e. cc;
  }

  kept :
      (values : List Double) (i : ℕ) (v : Double) (found : Double × Option ℕ)
      → IsSmallest values i found
      → get_elem? values i ≡ some v
      → less v found.0 ≡ false
      → IsSmallest values (i + 1) found
  kept values i v found h at l = record {
    below = h.below;
    none_less = λ k v' lt e. grind (arith, e, at, l, lt, h.none_less k v');
    at_index = λ k e. (omega (arith, (h.at_index k e).0), (h.at_index k e).1);
    no_index = h.no_index;
  }

  step :
      (values : List Double) (i : ℕ) (v : Double) (found : Double × Option ℕ)
      → IsOrder
      → IsSmallest values i found
      → get_elem? values i ≡ some v
      → IsSmallest values (i + 1) (keep_smaller reals i v found)
  unfolding keep_smaller
  step values i v found order h at = elim (Bool-cases (less v found.0)) [
    | inl l ↦
        rw (at_most values i v found order h l, l)
          (taken values i v found order h at (at_most values i v found order h l) l)
    | inr larger ↦ grind (arith, larger, kept values i v found h at larger)
  ]

  loop :
      (rounds i : ℕ) (values : List Double) (found : Double × Option ℕ)
      → IsOrder
      → IsSmallest values i found
      → i + rounds ≤ length values
      → (result : Double × Option ℕ) × (smallest_loop reals rounds i values found ≡ some result)
        × IsSmallest values (i + rounds) result
  unfolding smallest_loop
  loop zero i values found order h l =
      (found, refl, subst (λ n. IsSmallest values n found) (omega arith) h)
  loop (suc rounds) i values found order h l =
      let (v, at) = get_elem?_of_lt values i (omega (arith, l)) in
      let (result, e, r) =
        loop rounds (i + 1) values (keep_smaller reals i v found) order
          (step values i v found order h at) (omega (arith, l)) in
      (result, rw at e, subst (λ n. IsSmallest values n result) (omega arith) r)

  -- Over an array of `n` values the function returns. No value is smaller than the result. With an
  -- index the result is the value there, and without one it is infinity.
  pub smallest_value_lem :
      (values : List Double)
      → IsOrder
      → (result : Double × Option ℕ) × (smallest_value reals values (length values) ≡ some result)
        × IsSmallest values (length values) result
  unfolding smallest_value
  smallest_value_lem values order =
      let (result, e, r) =
        loop (length values) 0 values (infinity, none) order
          (record {
            below = inl refl;
            none_less = λ k v lt e. absurd (omega (arith, lt));
            at_index = λ k e. absurd (none-ne-some e);
            no_index = λ e. refl;
          })
          (omega arith) in
      (result, e, subst (λ n. IsSmallest values n result) (omega arith) r)
