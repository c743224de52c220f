-- ===== src/MathRob.antt =====
-- The numerical helpers of mobile_platform_5c/baseline/math_rob_c/src/numbers/numbers.c.
pub mod Smallest
pub mod Tests
use ecs_private.Common.{
  ℕ, zero, suc, ◌+◌, ◌∷◌, List, Option, none, some, Bool, ltb, ◌&&◌, if◌then◌else◌, ◌>>=◌,
  get_elem?, String,
}

-- The numbers of type `double`, with the functions of math.h that the code uses. `literal` is a
-- constant of the source, and `of_nat` the conversion of an integer.
pub record Reals : Type 1 where
  pub Double : Type 0
  pub literal : String → Double
  pub of_nat : ℕ → Double
  pub plus : Double → Double → Double
  pub minus : Double → Double → Double
  pub times : Double → Double → Double
  pub divide : Double → Double → Double
  pub negate : Double → Double
  pub less : Double → Double → Bool
  pub fabs : Double → Double
  pub cos : Double → Double
  pub sin : Double → Double
  pub infinity : Double
  pub m_pi : Double

module _ (reals : Reals) where
  open reals use {Double, literal, of_nat, plus, minus, times, divide, negate, less, infinity, m_pi}

  unfoldable pub max : Double → Double → Double
  max a b = if less b a then a else b

  unfoldable pub min : Double → Double → Double
  min a b = if less a b then a else b

  -- The test of one value; `*index` is `none` for -1.
  unfoldable pub keep_smaller : ℕ → Double → Double × Option ℕ → Double × Option ℕ
  keep_smaller i v (smallest, index) =
      if less v infinity && less v smallest then (v, some i) else (smallest, index)

  unfoldable pub smallest_loop :
      ℕ → ℕ → List Double → Double × Option ℕ → Option (Double × Option ℕ)
  unfolding keep_smaller
  smallest_loop zero i values found = some found
  smallest_loop (suc rounds) i values found = do
    v ← get_elem? values i
    smallest_loop rounds (i + 1) values (keep_smaller i v found)

  -- The value that is returned, and `*index`.
  unfoldable pub smallest_value : List Double → ℕ → Option (Double × Option ℕ)
  unfolding smallest_loop
  smallest_value values number_of_values = smallest_loop number_of_values 0 values (infinity, none)

  unfoldable pub sum_loop : ℕ → ℕ → List Double → Double → Option Double
  sum_loop zero i values sum = some sum
  sum_loop (suc rounds) i values sum = do
    v ← get_elem? values i
    sum_loop rounds (i + 1) values (plus sum v)

  unfoldable pub mean_value : List Double → ℕ → Option Double
  unfolding sum_loop
  mean_value values number_of_values = do
    sum ← sum_loop number_of_values 0 values (literal "0")
    some (if ltb 0 number_of_values then divide sum (of_nat number_of_values) else infinity)

  unfoldable pub wrap_to_pi : Double → Double
  wrap_to_pi angle =
      if less m_pi angle
      then minus angle (times (literal "2") m_pi)
      else if less angle (negate m_pi)
      then plus angle (times (literal "2") m_pi)
      else angle
