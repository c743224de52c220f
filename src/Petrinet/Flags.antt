-- ===== src/Petrinet/Flags.antt =====
-- The conversions between the tokens of a place and a list of flags
-- (coordination_libraries/src/petrinet.c). A flag is known by its address, so that one flag may stand in
-- the list several times; a row of the two arrays is an address and the name of a type.
pub mod Track
pub mod Convert
use ecs_private.Common.{
  ℕ, List, [], ◌∷◌, Bool, true, false, not, ◌&&◌, if◌then◌else◌, String, Option, none, some, ◌==◌,
}
use ecs_private.Petrinet.{
  Records, Graph, Place, Marking, set_place, add_tokens, delete_tokens, check_number_of_tokens,
  get_place, cvt_flag2token, cvt_token2flag,
}

-- The flags, by their addresses.
abbrev pub Flags : Type 0
Flags = ℕ → Bool

abbrev pub set_flag : Flags → ℕ → Bool → Flags
set_flag s a b x = if a == x then b else s x

module _ (records : Records) where
  -- The loop of `flags_track_tokens`.
  unfoldable pub flags_loop : List (ℕ × String) → Place records → Flags → Flags
  flags_loop [] c s = s
  flags_loop ((a, token_type) ∷ rows) c s =
      flags_loop rows c (set_flag s a (check_number_of_tokens records c token_type 1))

  -- One round of the loop of `tokens_track_flags`.
  unfoldable pub track_one : ℕ → Bool → String → Place records → Place records
  track_one freed flag token_type c =
      let token_in_place = check_number_of_tokens records c token_type 1 in
      if token_in_place && not flag
      then (delete_tokens records freed c token_type 1).1
      else if not token_in_place && flag
      then add_tokens records c token_type 1
      else c

  unfoldable pub tokens_loop : ℕ → List (ℕ × String) → Flags → Place records → Place records
  unfolding track_one
  tokens_loop freed [] s c = c
  tokens_loop freed ((a, token_type) ∷ rows) s c =
      tokens_loop freed rows s (track_one freed (s a) token_type c)

  module _ (graph : Graph) where
    unfoldable pub flags_track_tokens : String → List (ℕ × String) → Flags → Marking records → Flags
    unfolding flags_loop
    flags_track_tokens place_name rows s m = elim (get_place records graph place_name) [
      | none ↦ s
      | some n ↦ flags_loop rows (m n) s
    ]

    unfoldable pub tokens_track_flags :
        ℕ → String → List (ℕ × String) → Flags → Marking records → Marking records
    unfolding tokens_loop
    tokens_track_flags freed place_name rows s m = elim (get_place records graph place_name) [
      | none ↦ m
      | some n ↦ set_place records m n (tokens_loop freed rows s (m n))
    ]

    -- The place is looked up unless it was found before.
    unfoldable pub look_up : Option ℕ → String → Option ℕ
    look_up none place_name = get_place records graph place_name
    look_up (some n) place_name = some n

    -- The loop of `convert_flags_to_tokens`, with the place once it was looked up.
    unfoldable pub to_tokens_loop :
        String → List (ℕ × String) → Option ℕ → Flags → Marking records → Flags × Marking records
    unfolding look_up
    to_tokens_loop place_name [] found s m = (s, m)
    to_tokens_loop place_name ((a, token_type) ∷ rows) found s m =
        let skipped = to_tokens_loop place_name rows found s m in
        let missing = to_tokens_loop place_name rows none s m in
        if s a
        then elim (look_up found place_name) [
          | none ↦ missing
          | some n ↦
              let (flag, m') = cvt_flag2token records graph n (s a) token_type m in
              to_tokens_loop place_name rows (some n) (set_flag s a flag) m'
        ]
        else skipped

    unfoldable pub convert_flags_to_tokens :
        String → List (ℕ × String) → Flags → Marking records → Flags × Marking records
    unfolding to_tokens_loop
    convert_flags_to_tokens place_name rows s m = to_tokens_loop place_name rows none s m

    -- The loop of `convert_tokens_to_flags`.
    unfoldable pub to_flags_loop :
        ℕ → ℕ → List (ℕ × String) → Flags → Marking records → Flags × Marking records
    to_flags_loop freed n [] s m = (s, m)
    to_flags_loop freed n ((a, token_type) ∷ rows) s m =
        let (flag, m') = cvt_token2flag records graph freed n token_type (s a) m in
        to_flags_loop freed n rows (set_flag s a flag) m'

    unfoldable pub convert_tokens_to_flags :
        ℕ → String → List (ℕ × String) → Flags → Marking records → Flags × Marking records
    unfolding to_flags_loop
    convert_tokens_to_flags freed place_name rows s m = elim (get_place records graph place_name) [
      | none ↦ (s, m)
      | some n ↦ to_flags_loop freed n rows s m
    ]
