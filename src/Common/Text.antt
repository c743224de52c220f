-- ===== src/Common/Text.antt =====
-- C strings that are only stored, cut off and compared: native texts of one-byte characters.
use Prim.Native.Nat.{ℕ, zero, suc}
use Prim.Native.String.{String}
use mathlib.Core.Bool.{Bool}
use text.Mathlib.Text.{◌==◌}

-- `strcmp(a, b) == 0`.
abbrev pub str_eq : String → String → Bool
str_eq a b = a == b

-- The first `n` characters.
abbrev pub str_take : ℕ → String → String
str_take zero s = String.[]
str_take (suc n) String.[] = String.[]
str_take (suc n) (String.◌∷◌ c s) = String.◌∷◌ c (str_take n s)

abbrev pub characters : String → ℕ
characters String.[] = 0
characters (String.◌∷◌ c s) = suc (characters s)
