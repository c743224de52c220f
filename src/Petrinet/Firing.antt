-- ===== src/Petrinet/Firing.antt =====
-- What firing a transition with the standard behaviour does to the tokens
-- (coordination_libraries/src/petrinet.c: `cond_Black1`, `consume_Black1`, `produce_Black1`).
use ecs_private.Common.{
  ℕ, ◌+◌, ◌-◌, ◌≤◌, ◌≡◌, refl, sym, ap, ◌∙◌, inl, inr, List, [], ◌∷◌, true, arith, leb, ◌==◌,
  if◌then◌else◌, String, Bool-cases, ==_iff,
}
use ecs_private.Petrinet.{
  Records, Graph, Place, Marking, set_place, add_tokens, delete_tokens, get_number_of_tokens,
  check_number_of_tokens, cond_loop, consume_loop, produce_loop,
  cond_token_type_in_all_incoming_places, consume_token_in_all_incoming_places,
  produce_token_in_all_outgoing_places, black_token, cond_black1, consume_black1, produce_black1,
}
use ecs_private.Petrinet.Tokens.{add_tokens_lem, delete_tokens_lem, tokens}
use text.Mathlib.TextPositions.{eq_refl}

-- How many arcs lead to the place.
abbrev pub arcs : List ℕ → ℕ → ℕ
arcs [] q = 0
arcs (p ∷ ps) q = let rest = arcs ps q in if p == q then rest + 1 else rest

module _ (records : Records) where
  -- The tokens of a type after a change of one place.
  one_place :
      (m : Marking records) (p q : ℕ) (c : Place records) (k : String)
      → tokens records (set_place records m p c) q k
        ≡ (if p == q then get_number_of_tokens records c k else tokens records m q k)
  one_place m p q c k = ground arith

  produce_loop_lem :
      (ps : List ℕ) (k : String) (m : Marking records) (q : ℕ)
      → tokens records (produce_loop records ps k m) q k ≡ tokens records m q k + arcs ps q
  unfolding produce_loop
  produce_loop_lem [] k m q = ap (λ x. x) {x = tokens records m q k} (omega arith)
  produce_loop_lem (p ∷ ps) k m q =
      produce_loop_lem ps k (set_place records m p (add_tokens records (m p) k 1)) q ∙ step
    where
      one : get_number_of_tokens records (add_tokens records (m p) k 1) k ≡ tokens records m p k + 1
      one = add_tokens_lem records (m p) k k 1 ∙ rw (eq_refl k) refl

      step :
          tokens records (set_place records m p (add_tokens records (m p) k 1)) q k + arcs ps q
          ≡ tokens records m q k + arcs (p ∷ ps) q
      step = elim (Bool-cases (p == q)) [
        | inl s ↦ rw (s, one, (==_iff p q).0 s) (omega arith)
        | inr s ↦ rw s refl
      ]

  consume_loop_lem :
      (freed : ℕ) (ps : List ℕ) (k : String) (m : Marking records) (q : ℕ)
      → tokens records (consume_loop records freed ps k m) q k ≡ tokens records m q k - arcs ps q
  unfolding consume_loop
  consume_loop_lem freed [] k m q = ap (λ x. x) {x = tokens records m q k} (omega arith)
  consume_loop_lem freed (p ∷ ps) k m q =
      consume_loop_lem freed ps k (set_place records m p (delete_tokens records freed (m p) k 1).1)
        q
      ∙ step
    where
      one :
          get_number_of_tokens records (delete_tokens records freed (m p) k 1).1 k
          ≡ tokens records m p k - 1
      one = delete_tokens_lem records freed (m p) k k 1 ∙ rw (eq_refl k) refl

      step :
          tokens records (set_place records m p (delete_tokens records freed (m p) k 1).1) q k
            - arcs ps q
          ≡ tokens records m q k - arcs (p ∷ ps) q
      step = elim (Bool-cases (p == q)) [
        | inl s ↦ rw (s, one, (==_iff p q).0 s) (omega arith)
        | inr s ↦ rw s refl
      ]

  -- The condition says that every place with an arc to the transition holds a token.
  cond_loop_lem :
      (ps : List ℕ) (k : String) (m : Marking records) (q : ℕ)
      → cond_loop records ps k m ≡ true
      → 1 ≤ arcs ps q
      → 1 ≤ tokens records m q k
  unfolding cond_loop check_number_of_tokens
  cond_loop_lem [] k m q e l = absurd (omega arith)
  cond_loop_lem (p ∷ ps) k m q e l = elim (Bool-cases (leb 1 (tokens records m p k))) [
    | inl held ↦ elim (Bool-cases (p == q)) [
      | inl s ↦ rw (sym ((==_iff p q).0 s)) (ground (arith, held))
      | inr s ↦ cond_loop_lem ps k m q (rw held at e) (rw s at l)
    ]
    | inr lacks ↦ absurd (grind (arith, rw lacks at e))
  ]

  module _ (graph : Graph) where
    open graph use {incoming, outgoing}

    -- Firing takes as many tokens from a place as arcs lead from it to the transition, or all that
    -- there are, and gives it as many as arcs lead to it.
    pub fire_black_lem :
        (freed t : ℕ) (m : Marking records) (q : ℕ)
        → tokens records
            (produce_black1 records graph t (consume_black1 records graph freed t m))
            q
            (black_token records graph)
          ≡ tokens records m q (black_token records graph)
            - arcs (incoming t) q
            + arcs (outgoing t) q
    unfolding produce_black1 consume_black1 produce_token_in_all_outgoing_places
        consume_token_in_all_incoming_places
    fire_black_lem freed t m q =
        produce_loop_lem (outgoing t) (black_token records graph)
          (consume_loop records freed (incoming t) (black_token records graph) m) q
        ∙ ap (λ x. x + arcs (outgoing t) q)
            (consume_loop_lem freed (incoming t) (black_token records graph) m q)

    -- When the condition holds, and no place has two arcs to the transition, firing takes exactly
    -- one token for each arc into the transition and gives one for each arc out of it.
    pub fire_black_balance :
        (freed t : ℕ) (m : Marking records) (q : ℕ)
        → cond_black1 records graph t m ≡ true
        → arcs (incoming t) q ≤ 1
        → tokens records
              (produce_black1 records graph t (consume_black1 records graph freed t m))
              q
              (black_token records graph)
            + arcs (incoming t) q
          ≡ tokens records m q (black_token records graph) + arcs (outgoing t) q
    unfolding cond_black1 cond_token_type_in_all_incoming_places
    fire_black_balance freed t m q c single = omega (arith, fire_black_lem freed t m q, enough)
      where
        enough : arcs (incoming t) q ≤ tokens records m q (black_token records graph)
        enough = elim (Bool-cases (leb 1 (arcs (incoming t) q))) [
          | inl some_arc ↦ omega (
            arith,
            single,
            cond_loop_lem (incoming t) (black_token records graph) m q c (ground (arith, some_arc)),
          )
          | inr no_arc ↦ ground (arith, no_arc)
        ]
