-- ===== src/Common/Tabulate.antt =====
-- Arrays given by a function of the index.
use Prim.Native.Nat.{ℕ, zero, suc, ◌+◌, ◌<◌}
use mathlib.Core.Path.{◌≡◌, refl, ap, ap₂, sym}
use mathlib.Core.Logic.{◌≢◌}
use mathlib.Core.List.{List, [], ◌∷◌, ◌++◌, map}
use mathlib.Core.Option.{some}
use native.Mathlib.Numerals.{add-one}
use native.Mathlib.Omega.{arith}
use ecs_private.Common.Lists.{length, get_elem?, set, replicate}

module _ {ℓ} {A : Type ℓ} where
  abbrev pub tabulate : ℕ → (ℕ → A) → List A
  tabulate zero f = []
  tabulate (suc n) f = f 0 ∷ tabulate n (λ i. f (suc i))

  pub tabulate-congr :
      (n : ℕ) (f g : ℕ → A) → ((i : ℕ) → i < n → f i ≡ g i) → tabulate n f ≡ tabulate n g
  tabulate-congr zero f g h = refl
  tabulate-congr (suc n) f g h =
      ap₂ ◌∷◌ (h 0 (omega arith))
        (tabulate-congr n (λ i. f (suc i)) (λ i. g (suc i)) (λ i lt. h (suc i) (omega arith)))

  pub get_elem?-tabulate :
      (n : ℕ) (f : ℕ → A) (i : ℕ) → i < n → get_elem? (tabulate n f) i ≡ some (f i)
  get_elem?-tabulate zero f i h = elim h [ ]
  get_elem?-tabulate (suc n) f zero h = refl
  get_elem?-tabulate (suc n) f (suc i) h = get_elem?-tabulate n (λ i. f (suc i)) i (omega arith)

  pub replicate-eq-tabulate : (n : ℕ) (a : A) → replicate n a ≡ tabulate n (λ _. a)
  replicate-eq-tabulate zero a = refl
  replicate-eq-tabulate (suc n) a = ap (λ l. a ∷ l) (replicate-eq-tabulate n a)

  -- A write at `i` gives the function that differs there alone.
  pub set-tabulate :
      (n : ℕ) (f g : ℕ → A) (i : ℕ) (v : A)
      → g i ≡ v
      → ((j : ℕ) → j ≢ i → g j ≡ f j)
      → set (tabulate n f) i v ≡ tabulate n g
  set-tabulate zero f g i v e h = refl
  set-tabulate (suc n) f g zero v e h =
      ap₂ ◌∷◌ (sym e)
        (tabulate-congr n (λ j. f (suc j)) (λ j. g (suc j)) (λ j lt. sym (h (suc j) (omega arith))))
  set-tabulate (suc n) f g (suc i) v e h =
      ap₂ ◌∷◌ (sym (h 0 (omega arith)))
        (set-tabulate n (λ j. f (suc j)) (λ j. g (suc j)) i v e (λ j ne. h (suc j) (omega arith)))

pub map-tabulate {ℓ κ} :
    {A : Type ℓ} {B : Type κ} (h : A → B) (n : ℕ) (f : ℕ → A)
    → map h (tabulate n f) ≡ tabulate n (λ i. h (f i))
map-tabulate h zero f = refl
map-tabulate h (suc n) f = ap (λ l. h (f 0) ∷ l) (map-tabulate h n (λ i. f (suc i)))

module _ {ℓ} {A : Type ℓ} where
  -- The element that stands behind a prefix.
  pub get_elem?-append : (x : A) (ps qs : List A) → get_elem? (ps ++ x ∷ qs) (length ps) ≡ some x
  get_elem?-append x [] qs = refl
  get_elem?-append x (p ∷ ps) qs = get_elem?-append x ps qs

  pub set-append : (x y : A) (ps qs : List A) → set (ps ++ y ∷ qs) (length ps) x ≡ ps ++ x ∷ qs
  set-append x y [] qs = refl
  set-append x y (p ∷ ps) qs = ap (λ l. p ∷ l) (set-append x y ps qs)

  get_elem?-append_suc :
      (x y : A) (ps qs : List A) → get_elem? (ps ++ x ∷ (y ∷ qs)) (suc (length ps)) ≡ some y
  get_elem?-append_suc x y [] qs = refl
  get_elem?-append_suc x y (p ∷ ps) qs = get_elem?-append_suc x y ps qs

  -- The element after that one.
  pub get_elem?-append_next :
      (x y : A) (ps qs : List A) → get_elem? (ps ++ x ∷ (y ∷ qs)) (length ps + 1) ≡ some y
  get_elem?-append_next x y ps qs = rw add-one (get_elem?-append_suc x y ps qs)
