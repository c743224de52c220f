-- ===== src/MathRob/Tests.antt =====
-- The theorem on the numerical helpers at concrete numbers, for which ℕ stands.
use ecs_private.Common.{
  ℕ, ◌+◌, ◌-◌, ◌*◌, ◌/◌, ◌≡◌, refl, [], ◌∷◌, List, Option, some, ltb, length, arith,
}
use ecs_private.MathRob.{Reals, smallest_value}
use ecs_private.MathRob.Smallest.{IsOrder, IsSmallest, smallest_value_lem}

abbrev pub naturals : Reals
naturals = record {
  Double = ℕ;
  literal = λ text. 0;
  of_nat = λ n. n;
  plus = λ a b. a + b;
  minus = λ a b. a - b;
  times = λ a b. a * b;
  divide = λ a b. a / b;
  negate = λ a. a;
  less = ltb;
  fabs = λ a. a;
  cos = λ a. a;
  sin = λ a. a;
  infinity = 1000;
  m_pi = 3;
}

naturals-IsOrder : IsOrder naturals
naturals-IsOrder = record {
  irreflexive = λ a. ground arith;
  transitive = λ a b c h k. ground arith;
}

abbrev distances : List ℕ
distances = 7 ∷ 2000 ∷ 4 ∷ 9 ∷ []

smallest_distance : smallest_value naturals distances 4 ≡ some (4, some 2)
unfolding smallest_value
smallest_distance = refl

smallest_value_lem_example :
    (result : ℕ × Option ℕ) × (smallest_value naturals distances (length distances) ≡ some result)
    × IsSmallest naturals distances (length distances) result
smallest_value_lem_example = smallest_value_lem naturals distances naturals-IsOrder
