-- ===== src/Petrinet/Places.antt =====
-- The behaviours on the places that an array names (coordination_libraries/src/petrinet.c).
pub mod Moves
use ecs_private.Common.{
  ℕ, ◌+◌, ◌-◌, ◌≡◌, refl, sym, ap, ◌∙◌, inl, inr, List, [], ◌∷◌, Bool, true, false, arith, not,
  ◌&&◌, if◌then◌else◌, String, str_eq, eq_iff, Bool-cases, ◌==◌, ==_iff,
}
use ecs_private.Petrinet.{
  Records, Graph, Place, Marking, set_place, add_tokens, delete_tokens, get_number_of_tokens,
  check_number_of_tokens,
}
use ecs_private.Petrinet.Tokens.{add_tokens_lem, delete_tokens_lem, tokens}

-- How often a name stands in the array.
unfoldable pub occurrences : List String → String → ℕ
occurrences [] name = 0
occurrences (x ∷ xs) name = (if str_eq name x then 1 else 0) + occurrences xs name

module _ (records : Records) where
  -- The inner loops, at a place with its name.
  unfoldable pub cond_names_loop : List String → String → Place records → String → Bool
  cond_names_loop [] name c token_name = true
  cond_names_loop (x ∷ xs) name c token_name =
      let rest = cond_names_loop xs name c token_name in
      if str_eq name x
      then if not (check_number_of_tokens records c token_name 1) then false else rest
      else rest

  unfoldable pub consume_names_loop :
      ℕ → List String → String → Place records → String → Place records
  consume_names_loop freed [] name c token_name = c
  consume_names_loop freed (x ∷ xs) name c token_name =
      consume_names_loop freed xs name
        (if str_eq name x then (delete_tokens records freed c token_name 1).1 else c) token_name

  unfoldable pub produce_names_loop : List String → String → Place records → String → Place records
  produce_names_loop [] name c token_name = c
  produce_names_loop (x ∷ xs) name c token_name =
      produce_names_loop xs name (if str_eq name x then add_tokens records c token_name 1 else c)
        token_name

  module _ (graph : Graph) where
    open graph use {node_name, incoming, outgoing}

    -- The outer loops, over the edges of the transition.
    unfoldable pub cond_places_loop : List ℕ → List String → String → Marking records → Bool
    cond_places_loop [] names token_name m = true
    cond_places_loop (n ∷ ns) names token_name m =
        let rest = cond_places_loop ns names token_name m in
        if cond_names_loop names (node_name n) (m n) token_name then rest else false

    unfoldable pub cond_token_in_places : ℕ → List String → String → Marking records → Bool
    unfolding cond_places_loop
    cond_token_in_places t names token_name m = cond_places_loop (incoming t) names token_name m

    unfoldable pub consume_places_loop :
        ℕ → List ℕ → List String → String → Marking records → Marking records
    consume_places_loop freed [] names token_name m = m
    consume_places_loop freed (n ∷ ns) names token_name m =
        consume_places_loop freed ns names token_name
          (set_place records m n (consume_names_loop freed names (node_name n) (m n) token_name))

    unfoldable pub consume_token_from_places :
        ℕ → ℕ → List String → String → Marking records → Marking records
    unfolding consume_places_loop
    consume_token_from_places freed t names token_name m =
        consume_places_loop freed (incoming t) names token_name m

    unfoldable pub produce_places_loop :
        List ℕ → List String → String → Marking records → Marking records
    produce_places_loop [] names token_name m = m
    produce_places_loop (n ∷ ns) names token_name m =
        produce_places_loop ns names token_name
          (set_place records m n (produce_names_loop names (node_name n) (m n) token_name))

    unfoldable pub produce_token_in_places :
        ℕ → List String → String → Marking records → Marking records
    unfolding produce_places_loop
    produce_token_in_places t names token_name m =
        produce_places_loop (outgoing t) names token_name m

    -- How many tokens the edges to or from a place move.
    unfoldable pub moved : List ℕ → List String → ℕ → ℕ
    moved [] names q = 0
    moved (p ∷ ps) names q =
        (if p == q then occurrences names (node_name p) else 0) + moved ps names q
