-- ===== src/Petrinet/Tokens.antt =====
-- How many tokens of each type a place holds (coordination_libraries/src/petrinet.c).
use text.Mathlib.TextPositions.{eq_refl}
use ecs_private.Common.{
  ℕ, ◌+◌, ◌-◌, ◌≡◌, refl, sym, ap, ◌∙◌, inl, inr, some, true, false, arith, if◌then◌else◌, String,
  str_eq, eq_iff, Bool-cases, Option-cases, ◌==◌,
}
use ecs_private.Petrinet.{
  Records, Graph, Place, Marking, set_place, create_token_type, delete_token_type, add_tokens,
  delete_tokens, get_number_of_tokens, check_number_of_tokens, get_place, cvt_flag2token,
  convert_flag_to_token, cvt_token2flag, convert_token_to_flag,
}

module _ (records : Records) where
  open records use {Rec, get, put, del, get-put, get-del}

  same_type :
      (c : Place records) (k j : String) → str_eq k j ≡ true → get c.counts j ≡ get c.counts k
  same_type c k j e = ap (get c.counts) (sym ((eq_iff k j).0 e))

  -- Adding tokens of a type raises their number, whether or not the place has seen the type before,
  -- and leaves the other types alone.
  pub add_tokens_lem :
      (c : Place records) (k j : String) (n : ℕ)
      → get_number_of_tokens records (add_tokens records c k n) j ≡ (
          if str_eq k j
          then get_number_of_tokens records c k + n
          else get_number_of_tokens records c j)
  unfolding get_number_of_tokens add_tokens create_token_type
  add_tokens_lem c k j n = elim (Option-cases (get c.counts k)) [
    | inl e ↦ ground (arith, e, get-put c.counts k j n)
    | inr (count, e) ↦ ground (arith, e, get-put c.counts k j (count + n))
  ]

  -- Deleting tokens of a type lowers their number, to no less than zero, and leaves the other types
  -- alone. This does not depend on what the code reads from the record that it has freed.
  pub delete_tokens_lem :
      (freed : ℕ) (c : Place records) (k j : String) (n : ℕ)
      → get_number_of_tokens records (delete_tokens records freed c k n).1 j ≡ (
          if str_eq k j
          then get_number_of_tokens records c k - n
          else get_number_of_tokens records c j)
  unfolding get_number_of_tokens delete_tokens delete_token_type
  delete_tokens_lem freed c k j n = elim (Option-cases (get c.counts k)) [
    | inl e ↦ elim (Bool-cases (str_eq k j)) [
      | inl s ↦ ground (arith, e, s, same_type c k j s)
      | inr s ↦ ground (arith, e, s)
    ]
    | inr (count, e) ↦ ground (arith, e, get-put c.counts k j (count - n), get-del c.counts k j)
  ]

  -- The number of tokens of a type in a place of a marking.
  abbrev pub tokens : Marking records → ℕ → String → ℕ
  tokens m p k = get_number_of_tokens records (m p) k

  check-more :
      (c : Place records) (k : String) (x : ℕ)
      → get_number_of_tokens records c k ≡ x + 1
      → check_number_of_tokens records c k 1 ≡ true
  unfolding check_number_of_tokens
  check-more c k x e = rw e (ground arith)

  module _ (graph : Graph) where
    to_token :
        (n : ℕ) (place_name k : String) (m : Marking records)
        → get_place records graph place_name ≡ some n
        → convert_flag_to_token records graph place_name true k m
          ≡ (false, set_place records m n (add_tokens records (m n) k 1))
    unfolding convert_flag_to_token cvt_flag2token
    to_token n place_name k m e = ground (arith, e)

    to_flag :
        (freed n : ℕ) (place_name k : String) (m : Marking records)
        → get_place records graph place_name ≡ some n
        → check_number_of_tokens records (m n) k 1 ≡ true
        → convert_token_to_flag records graph freed place_name k false m
          ≡ (true, set_place records m n (delete_tokens records freed (m n) k 1).1)
    unfolding convert_token_to_flag cvt_token2flag
    to_flag freed n place_name k m e c = ground (arith, e, c)

    -- A flag that is set becomes a token in the place, and the token becomes the flag again: the flag
    -- is as it was, and the place holds as many tokens of every type as before.
    pub flag_token_flag :
        (freed n : ℕ) (place_name k j : String) (m : Marking records)
        → get_place records graph place_name ≡ some n
        → let (flag, m') = convert_flag_to_token records graph place_name true k m in
          let (flag', m'') = convert_token_to_flag records graph freed place_name k flag m' in
          (flag ≡ false)
          × (tokens m' n k ≡ tokens m n k + 1)
          × (flag' ≡ true)
          × (tokens m'' n j ≡ tokens m n j)
    flag_token_flag freed n place_name k j m e =
        rw (to_token n place_name k m e, to_flag freed n place_name k m' e found, same)
          (refl, one, refl, back)
      where
        same : (n == n) ≡ true
        same = ground arith

        added : Place records
        added = add_tokens records (m n) k 1

        m' : Marking records
        m' = set_place records m n added

        one : get_number_of_tokens records added k ≡ tokens m n k + 1
        one = add_tokens_lem (m n) k k 1 ∙ rw (eq_refl k) refl

        found : check_number_of_tokens records (m' n) k 1 ≡ true
        found = rw same (check-more added k (tokens m n k) one)

        back :
            get_number_of_tokens records (delete_tokens records freed added k 1).1 j ≡ tokens m n j
        back = elim (Bool-cases (str_eq k j)) [
          | inl s ↦
              delete_tokens_lem freed added k j 1 ∙ rw (s, one, (eq_iff k j).0 s) (omega arith)
          | inr s ↦
              delete_tokens_lem freed added k j 1 ∙ rw s (add_tokens_lem (m n) k j 1 ∙ rw s refl)
        ]
