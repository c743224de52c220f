-- ===== src/Petrinet/Flags/Track.antt =====
-- Flags that track tokens and tokens that track flags (coordination_libraries/src/petrinet.c).
use text.Mathlib.TextPositions.{eq_refl}
use ecs_private.Common.{
  ℕ, ◌≤◌, ◌≡◌, refl, ap, ◌∙◌, inl, inr, List, [], ◌∷◌, some, true, false, arith, Bool, ◌&&◌, ◌||◌,
  not, if◌then◌else◌, String, str_eq, eq_iff, Bool-cases, ◌==◌, ==_iff,
}
use ecs_private.Petrinet.{
  Records, Graph, Place, Marking, get_number_of_tokens, check_number_of_tokens, get_place,
}
use ecs_private.Petrinet.Tokens.{add_tokens_lem, delete_tokens_lem}
use ecs_private.Petrinet.Flags.{
  Flags, set_flag, flags_loop, track_one, tokens_loop, flags_track_tokens, tokens_track_flags,
}

-- The type stands in one of the rows.
unfoldable pub has_type : List (ℕ × String) → String → Bool
has_type [] j = false
has_type ((a, k) ∷ rows) j = str_eq k j || has_type rows j

-- No type stands in two rows.
unfoldable pub distinct_types : List (ℕ × String) → Bool
unfolding has_type
distinct_types [] = true
distinct_types ((a, k) ∷ rows) = not (has_type rows k) && distinct_types rows

module _ (records : Records) where
  -- The place holds at most one token of each type.
  abbrev pub IsSafe : Place records → Type 0
  IsSafe c = (j : String) → get_number_of_tokens records c j ≤ 1

  track_count :
      (freed : ℕ) (flag : Bool) (k j : String) (c : Place records)
      → IsSafe c
      → get_number_of_tokens records (track_one records freed flag k c) j
        ≡ (if str_eq k j then if flag then 1 else 0 else get_number_of_tokens records c j)
  unfolding track_one check_number_of_tokens
  track_count freed flag k j c safe = elim (Bool-cases (str_eq k j)) [
    | inl s ↦
        let same = ap (get_number_of_tokens records c) ((eq_iff k j).0 s) in
        ground (
          arith,
          s,
          same,
          safe k,
          add_tokens_lem records c k j 1,
          delete_tokens_lem records freed c k j 1,
        )
    | inr s ↦
        ground (arith, s, add_tokens_lem records c k j 1, delete_tokens_lem records freed c k j 1)
  ]

  track-IsSafe :
      (freed : ℕ) (flag : Bool) (k : String) (c : Place records)
      → IsSafe c
      → IsSafe (track_one records freed flag k c)
  track-IsSafe freed flag k c safe j = ground (arith, track_count freed flag k j c safe, safe j)

  -- Whether a token is in the place, after one round.
  track_check :
      (freed : ℕ) (flag : Bool) (k j : String) (c : Place records)
      → IsSafe c
      → check_number_of_tokens records (track_one records freed flag k c) j 1
        ≡ (if str_eq k j then flag else check_number_of_tokens records c j 1)
  unfolding check_number_of_tokens
  track_check freed flag k j c safe = rw (track_count freed flag k j c safe) (ground arith)

  -- The rounds leave alone the types that are in none of the rows.
  tokens_loop_other :
      (freed : ℕ) (rows : List (ℕ × String)) (s : Flags) (j : String) (c : Place records)
      → IsSafe c
      → has_type rows j ≡ false
      → check_number_of_tokens records (tokens_loop records freed rows s c) j 1
        ≡ check_number_of_tokens records c j 1
  unfolding tokens_loop has_type
  tokens_loop_other freed [] s j c safe h = refl
  tokens_loop_other freed ((a, k) ∷ rows) s j c safe h =
      let ih =
        tokens_loop_other freed rows s j (track_one records freed (s a) k c)
          (track-IsSafe freed (s a) k c safe) (ground (arith, h)) in
      ih ∙ track_check freed (s a) k j c safe ∙ ground (arith, h)

  -- The flag of each row says whether a token of its type is in the place.
  pub data Agree (c : Place records) (s : Flags) : List (ℕ × String) → Type 0 where
    no_rows : Agree c s []
    row :
        {a : ℕ} {k : String} {rows : List (ℕ × String)}
        → check_number_of_tokens records c k 1 ≡ s a
        → Agree c s rows
        → Agree c s ((a, k) ∷ rows)

  tokens_loop-Agree :
      (freed : ℕ) (rows : List (ℕ × String)) (s : Flags) (c : Place records)
      → IsSafe c
      → distinct_types rows ≡ true
      → Agree (tokens_loop records freed rows s c) s rows
  unfolding tokens_loop distinct_types
  tokens_loop-Agree freed [] s c safe d = no_rows
  tokens_loop-Agree freed ((a, k) ∷ rows) s c safe d =
      row
        (tokens_loop_other freed rows s k c' safe' (ground (arith, d))
          ∙ track_check freed (s a) k k c safe
          ∙ rw (eq_refl k) refl)
        (tokens_loop-Agree freed rows s c' safe' (ground (arith, d)))
    where
      c' : Place records
      c' = track_one records freed (s a) k c

      safe' : IsSafe c'
      safe' = track-IsSafe freed (s a) k c safe

  -- Flags that agree with the tokens are not changed.
  flags_loop_same :
      (c : Place records) (s : Flags) (rows : List (ℕ × String)) (s' : Flags)
      → Agree c s rows
      → ((x : ℕ) → s' x ≡ s x)
      → (x : ℕ) → flags_loop records rows c s' x ≡ s x
  unfolding flags_loop
  flags_loop_same c s rows s' no_rows same x = same x
  flags_loop_same c s ((a, k) ∷ rows) s' (row e r) same x =
      flags_loop_same c s rows (set_flag s' a (check_number_of_tokens records c k 1)) r
        (λ y. elim (Bool-cases (a == y)) [
          | inl q ↦ rw q (e ∙ ap s ((==_iff a y).0 q))
          | inr q ↦ rw q (same y)
        ])
        x

  module _ (graph : Graph) where
    tokens_at :
        (freed n : ℕ) (place_name : String) (rows : List (ℕ × String)) (s : Flags)
        → (m : Marking records) → get_place records graph place_name ≡ some n
        → tokens_track_flags records graph freed place_name rows s m n
          ≡ tokens_loop records freed rows s (m n)
    unfolding tokens_track_flags
    tokens_at freed n place_name rows s m e = ground (arith, e)

    -- When the place exists and holds at most one token of each type, and the types of the rows
    -- differ, then tokens that have tracked the flags give back the same flags, all of them, when the
    -- flags track the tokens.
    pub flags_tokens_flags :
        (freed n : ℕ) (place_name : String) (rows : List (ℕ × String)) (s : Flags)
        → (m : Marking records) → get_place records graph place_name ≡ some n
        → IsSafe (m n)
        → distinct_types rows ≡ true
        → (x : ℕ)
        → flags_track_tokens records graph place_name rows s
            (tokens_track_flags records graph freed place_name rows s m)
            x
          ≡ s x
    unfolding flags_track_tokens
    flags_tokens_flags freed n place_name rows s m e safe d x =
        rw (e, flags_track_tokens, tokens_at freed n place_name rows s m e)
          (flags_loop_same (tokens_loop records freed rows s (m n)) s rows s
            (tokens_loop-Agree freed rows s (m n) safe d) (λ y. refl) x)
