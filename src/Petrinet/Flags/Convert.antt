-- ===== src/Petrinet/Flags/Convert.antt =====
-- Lists of flags that become tokens (coordination_libraries/src/petrinet.c).
use ecs_private.Common.{
  ℕ, ◌+◌, ◌≡◌, refl, sym, ap, ◌∙◌, inl, inr, List, [], ◌∷◌, some, none, Option, true, false, arith,
  Bool, ◌||◌, ◌&&◌, if◌then◌else◌, String, str_eq, Bool-cases, ◌==◌, ==_iff, eq_iff, fun_ext,
}
use ecs_private.Petrinet.{
  Records, Graph, Marking, add_tokens, get_number_of_tokens, get_place, set_place, cvt_flag2token,
}
use ecs_private.Petrinet.Tokens.{add_tokens_lem, tokens}
use ecs_private.Petrinet.Flags.{Flags, set_flag, look_up, to_tokens_loop, convert_flags_to_tokens}

-- The flag stands in one of the rows.
unfoldable pub has_flag : List (ℕ × String) → ℕ → Bool
has_flag [] x = false
has_flag ((a, k) ∷ rows) x = a == x || has_flag rows x

-- How many flags that are set stand in rows of a type, where a flag counts in its first row.
unfoldable pub set_flags_of : List (ℕ × String) → Flags → String → ℕ
set_flags_of [] s j = 0
set_flags_of ((a, k) ∷ rows) s j =
    (if s a && str_eq k j then 1 else 0) + set_flags_of rows (set_flag s a false) j

cleared : (s : Flags) (a : ℕ) → s a ≡ false → set_flag s a false ≡ s
cleared s a h = fun_ext (λ y. elim (Bool-cases (a == y)) [
  | inl q ↦ rw q (sym h ∙ ap s ((==_iff a y).0 q))
  | inr q ↦ rw q refl
])

module _ (records : Records) (graph : Graph) where
  module _ (n : ℕ) (place_name : String) where
    set_row :
        (a : ℕ) (k : String) (rows : List (ℕ × String)) (found : Option ℕ) (s : Flags)
        → (m : Marking records) → look_up records graph found place_name ≡ some n
        → s a ≡ true
        → to_tokens_loop records graph place_name ((a, k) ∷ rows) found s m
          ≡ to_tokens_loop records graph place_name rows
              (some n)
              (set_flag s a false)
              (set_place records m n (add_tokens records (m n) k 1))
    unfolding to_tokens_loop cvt_flag2token
    set_row a k rows found s m e h = ground (arith, e, h)

    clear_row :
        (a : ℕ) (k : String) (rows : List (ℕ × String)) (found : Option ℕ) (s : Flags)
        → (m : Marking records) → s a ≡ false
        → to_tokens_loop records graph place_name ((a, k) ∷ rows) found s m
          ≡ to_tokens_loop records graph place_name rows found s m
    unfolding to_tokens_loop
    clear_row a k rows found s m h = rw h refl

    loop_flags :
        (rows : List (ℕ × String)) (found : Option ℕ) (s : Flags) (m : Marking records)
        → look_up records graph found place_name ≡ some n
        → (x : ℕ)
        → (to_tokens_loop records graph place_name rows found s m).0 x
          ≡ (if has_flag rows x then false else s x)
    unfolding has_flag to_tokens_loop
    loop_flags [] found s m e x = refl
    loop_flags ((a, k) ∷ rows) found s m e x = elim (Bool-cases (s a)) [
      | inl h ↦
          ap (λ p. p.0 x) (set_row a k rows found s m e h)
          ∙ loop_flags rows (some n) (set_flag s a false)
              (set_place records m n (add_tokens records (m n) k 1)) refl x
          ∙ ground arith
      | inr h ↦
          ap (λ p. p.0 x) (clear_row a k rows found s m h)
          ∙ loop_flags rows found s m e x
          ∙ elim (Bool-cases (a == x)) [
            | inl q ↦ ground (arith, q, ap s ((==_iff a x).0 q), h)
            | inr q ↦ rw q refl
          ]
    ]

    add_token :
        (m : Marking records) (k j : String)
        → tokens records (set_place records m n (add_tokens records (m n) k 1)) n j
          ≡ tokens records m n j + (if str_eq k j then 1 else 0)
    add_token m k j = elim (Bool-cases (str_eq k j)) [
      | inl q ↦ ground (
        arith,
        q,
        add_tokens_lem records (m n) k j 1,
        ap (get_number_of_tokens records (m n)) ((eq_iff k j).0 q),
      )
      | inr q ↦ ground (arith, q, add_tokens_lem records (m n) k j 1)
    ]

    loop_tokens :
        (rows : List (ℕ × String)) (found : Option ℕ) (s : Flags) (m : Marking records)
        → look_up records graph found place_name ≡ some n
        → (j : String)
        → tokens records (to_tokens_loop records graph place_name rows found s m).1 n j
          ≡ tokens records m n j + set_flags_of rows s j
    unfolding set_flags_of to_tokens_loop
    loop_tokens [] found s m e j = ground arith
    loop_tokens ((a, k) ∷ rows) found s m e j = elim (Bool-cases (s a)) [
      | inl h ↦
          ap (λ p. tokens records p.1 n j) (set_row a k rows found s m e h)
          ∙ loop_tokens rows (some n) (set_flag s a false)
              (set_place records m n (add_tokens records (m n) k 1)) refl j
          ∙ ground (arith, h, add_token m k j)
      | inr h ↦
          ap (λ p. tokens records p.1 n j) (clear_row a k rows found s m h)
          ∙ loop_tokens rows found s m e j
          ∙ rw (h, cleared s a h) (omega arith)
    ]

  -- When the place exists, every flag of the rows is false after the conversion and the other flags are
  -- as they were, and the place holds as many more tokens of each type as there were flags set in
  -- rows of that type. A flag that stands in several rows becomes one token.
  pub convert_flags_to_tokens_lem :
      (n : ℕ) (place_name : String) (rows : List (ℕ × String)) (s : Flags) (m : Marking records)
      → get_place records graph place_name ≡ some n
      → let (s', m') = convert_flags_to_tokens records graph place_name rows s m in
        ((x : ℕ) → s' x ≡ (if has_flag rows x then false else s x))
        × ((j : String) → tokens records m' n j ≡ tokens records m n j + set_flags_of rows s j)
  unfolding convert_flags_to_tokens look_up
  convert_flags_to_tokens_lem n place_name rows s m e =
      (loop_flags n place_name rows none s m e, loop_tokens n place_name rows none s m e)
