-- ===== src/Petrinet/Places/Moves.antt =====
-- What the behaviours on an array of places move (coordination_libraries/src/petrinet.c).
use ecs_private.Common.{
  ℕ, ◌+◌, ◌-◌, ◌≡◌, refl, ap, ◌∙◌, inl, inr, List, [], ◌∷◌, arith, String, str_eq, Bool-cases, ◌==◌,
  ==_iff,
}
use text.Mathlib.TextPositions.{eq_refl}
use ecs_private.Petrinet.{
  Records, Graph, Place, Marking, set_place, add_tokens, delete_tokens, get_number_of_tokens,
}
use ecs_private.Petrinet.Tokens.{add_tokens_lem, delete_tokens_lem, tokens}
use ecs_private.Petrinet.Places.{
  occurrences, consume_names_loop, produce_names_loop, consume_places_loop, produce_places_loop,
  consume_token_from_places, produce_token_in_places, moved,
}

module _ (records : Records) where
  consume_names :
      (freed : ℕ) (names : List String) (name k : String) (c : Place records)
      → get_number_of_tokens records (consume_names_loop records freed names name c k) k
        ≡ get_number_of_tokens records c k - occurrences names name
  unfolding consume_names_loop occurrences
  consume_names freed [] name k c = omega arith
  consume_names freed (x ∷ xs) name k c = elim (Bool-cases (str_eq name x)) [
    | inl q ↦ rw q (
        consume_names freed xs name k ((delete_tokens records freed c k 1).1)
        ∙ rw (delete_tokens_lem records freed c k k 1, eq_refl k) (omega arith))
    | inr q ↦ rw q (consume_names freed xs name k c ∙ omega arith)
  ]

  produce_names :
      (names : List String) (name k : String) (c : Place records)
      → get_number_of_tokens records (produce_names_loop records names name c k) k
        ≡ get_number_of_tokens records c k + occurrences names name
  unfolding produce_names_loop occurrences
  produce_names [] name k c = omega arith
  produce_names (x ∷ xs) name k c = elim (Bool-cases (str_eq name x)) [
    | inl q ↦ rw q (
        produce_names xs name k (add_tokens records c k 1)
        ∙ rw (add_tokens_lem records c k k 1, eq_refl k) (omega arith))
    | inr q ↦ rw q (produce_names xs name k c ∙ omega arith)
  ]

  module _ (graph : Graph) where
    open graph use {node_name, incoming, outgoing}

    consume_places :
        (freed : ℕ) (ps : List ℕ) (names : List String) (k : String) (q : ℕ) (m : Marking records)
        → tokens records (consume_places_loop records graph freed ps names k m) q k
          ≡ tokens records m q k - moved records graph ps names q
    unfolding consume_places_loop moved
    consume_places freed [] names k q m = omega arith
    consume_places freed (p ∷ ps) names k q m =
        consume_places freed ps names k q
          (set_place records m p (consume_names_loop records freed names (node_name p) (m p) k))
        ∙ elim (Bool-cases (p == q)) [
          | inl s ↦ ground (
            arith,
            s,
            consume_names freed names (node_name p) k (m p),
            ap (λ x. tokens records m x k) ((==_iff p q).0 s),
          )
          | inr s ↦ ground (arith, s)
        ]

    produce_places :
        (ps : List ℕ) (names : List String) (k : String) (q : ℕ) (m : Marking records)
        → tokens records (produce_places_loop records graph ps names k m) q k
          ≡ tokens records m q k + moved records graph ps names q
    unfolding produce_places_loop moved
    produce_places [] names k q m = omega arith
    produce_places (p ∷ ps) names k q m =
        produce_places ps names k q
          (set_place records m p (produce_names_loop records names (node_name p) (m p) k))
        ∙ elim (Bool-cases (p == q)) [
          | inl s ↦ ground (
            arith,
            s,
            produce_names names (node_name p) k (m p),
            ap (λ x. tokens records m x k) ((==_iff p q).0 s),
          )
          | inr s ↦ ground (arith, s)
        ]

    -- Consuming tokens from the places that are named and then producing tokens in those that are
    -- named takes from every place as many tokens as its edges to the transition and the occurrences
    -- of its name ask for, or all that it holds, and adds as many as its edges from the transition and
    -- the occurrences of its name ask for. A name that stands in the array twice counts twice.
    pub consume-produce_places :
        (freed t : ℕ) (from to : List String) (k : String) (q : ℕ) (m : Marking records)
        → tokens records
            (produce_token_in_places records graph t to k
              (consume_token_from_places records graph freed t from k m))
            q
            k
          ≡ (tokens records m q k - moved records graph (incoming t) from q)
            + moved records graph (outgoing t) to q
    unfolding produce_token_in_places consume_token_from_places
    consume-produce_places freed t from to k q m =
        produce_places (outgoing t) to k q
          (consume_places_loop records graph freed (incoming t) from k m)
        ∙ rw (consume_places freed (incoming t) from k q m) refl
