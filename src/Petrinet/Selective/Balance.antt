-- ===== src/Petrinet/Selective/Balance.antt =====
-- What firing a transition does that spares one place, chosen by its name
-- (coordination_libraries/src/petrinet.c: the functions on all but one place).
use text.Mathlib.TextPositions.{eq_refl}
use ecs_private.Common.{
  ℕ, ◌+◌, ◌-◌, ◌≤◌, ◌≡◌, refl, sym, ap, ◌∙◌, inl, inr, List, [], ◌∷◌, true, arith, leb, ◌==◌,
  if◌then◌else◌, String, Bool-cases, ==_iff,
}
use ecs_private.Petrinet.{
  Records, Graph, Marking, set_place, add_tokens, delete_tokens, get_number_of_tokens,
  check_number_of_tokens,
}
use ecs_private.Petrinet.Tokens.{add_tokens_lem, delete_tokens_lem, tokens}
use ecs_private.Petrinet.Firing.{arcs}
use ecs_private.Petrinet.Selective.{
  is_named, cond_but_one_loop, cond_token_in_all_but_one_place, consume_but_one_loop,
  consume_token_from_all_but_1_place, produce_but_one_loop, produce_token_in_all_but_1_place,
}

module _ (records : Records) (graph : Graph) where
  -- How many arcs lead to the place, unless it is the one that is spared.
  abbrev pub other_arcs : String → List ℕ → ℕ → ℕ
  other_arcs place_name ps q = if is_named records graph q place_name then 0 else arcs ps q

  produce_but_one_lem :
      (ps : List ℕ) (name k : String) (m : Marking records) (q : ℕ)
      → tokens records (produce_but_one_loop records graph ps name k m) q k
        ≡ tokens records m q k + other_arcs name ps q
  unfolding produce_but_one_loop
  produce_but_one_lem [] name k m q = ground arith
  produce_but_one_lem (p ∷ ps) name k m q =
      produce_but_one_lem ps name k (if is_named records graph p name then m else changed) q ∙ step
    where
      changed : Marking records
      changed = set_place records m p (add_tokens records (m p) k 1)

      one : get_number_of_tokens records (add_tokens records (m p) k 1) k ≡ tokens records m p k + 1
      one = add_tokens_lem records (m p) k k 1 ∙ rw (eq_refl k) refl

      step :
          tokens records (if is_named records graph p name then m else changed) q k
            + other_arcs name ps q
          ≡ tokens records m q k + other_arcs name (p ∷ ps) q
      step = elim (Bool-cases (is_named records graph p name)) [
        | inl spared ↦ rw spared (elim (Bool-cases (p == q)) [
          | inl s ↦
              rw (s, ap (λ x. is_named records graph x name) (sym ((==_iff p q).0 s)) ∙ spared) refl
          | inr s ↦ rw s refl
        ])
        | inr other ↦ rw other (elim (Bool-cases (p == q)) [
          | inl s ↦
              rw
                (
                  s,
                  ap (λ x. is_named records graph x name) (sym ((==_iff p q).0 s)) ∙ other,
                  one,
                  (==_iff p q).0 s,
                )
                (omega arith)
          | inr s ↦ rw s refl
        ])
      ]

  consume_but_one_lem :
      (freed : ℕ) (ps : List ℕ) (name k : String) (m : Marking records) (q : ℕ)
      → tokens records (consume_but_one_loop records graph freed ps name k m) q k
        ≡ tokens records m q k - other_arcs name ps q
  unfolding consume_but_one_loop
  consume_but_one_lem freed [] name k m q = ground arith
  consume_but_one_lem freed (p ∷ ps) name k m q =
      consume_but_one_lem freed ps name k (if is_named records graph p name then m else changed) q
      ∙ step
    where
      changed : Marking records
      changed = set_place records m p (delete_tokens records freed (m p) k 1).1

      one :
          get_number_of_tokens records (delete_tokens records freed (m p) k 1).1 k
          ≡ tokens records m p k - 1
      one = delete_tokens_lem records freed (m p) k k 1 ∙ rw (eq_refl k) refl

      step :
          tokens records (if is_named records graph p name then m else changed) q k
            - other_arcs name ps q
          ≡ tokens records m q k - other_arcs name (p ∷ ps) q
      step = elim (Bool-cases (is_named records graph p name)) [
        | inl spared ↦ rw spared (elim (Bool-cases (p == q)) [
          | inl s ↦
              rw (s, ap (λ x. is_named records graph x name) (sym ((==_iff p q).0 s)) ∙ spared) refl
          | inr s ↦ rw s refl
        ])
        | inr other ↦ rw other (elim (Bool-cases (p == q)) [
          | inl s ↦
              rw
                (
                  s,
                  ap (λ x. is_named records graph x name) (sym ((==_iff p q).0 s)) ∙ other,
                  one,
                  (==_iff p q).0 s,
                )
                (omega arith)
          | inr s ↦ rw s refl
        ])
      ]

  cond_but_one_lem :
      (ps : List ℕ) (name k : String) (m : Marking records) (q : ℕ)
      → cond_but_one_loop records graph ps name k m ≡ true
      → 1 ≤ arcs ps q
      → (if is_named records graph q name
          then leb (tokens records m q k) 0
          else leb 1 (tokens records m q k))
        ≡ true
  unfolding cond_but_one_loop check_number_of_tokens
  cond_but_one_lem [] name k m q e l = absurd (omega arith)
  cond_but_one_lem (p ∷ ps) name k m q e l = elim (Bool-cases (p == q)) [
    | inl s ↦ rw (sym ((==_iff p q).0 s)) (ground (arith, e))
    | inr s ↦ cond_but_one_lem ps name k m q (ground (arith, e)) (rw s at l)
  ]

  -- When the condition on all but one place holds, and the place `q` has no two arcs to the
  -- transition, firing takes exactly one token from `q` for its arc into the transition and gives one
  -- for each arc out of it, unless `q` is the place of that name, whose tokens stay.
  pub all_but_one_balance :
      (freed t : ℕ) (name k : String) (m : Marking records) (q : ℕ)
      → cond_token_in_all_but_one_place records graph t name k m ≡ true
      → arcs (Graph.incoming graph t) q ≤ 1
      → tokens records
            (produce_token_in_all_but_1_place records graph t name k
              (consume_token_from_all_but_1_place records graph freed t name k m))
            q
            k
          + other_arcs name (Graph.incoming graph t) q
        ≡ tokens records m q k + other_arcs name (Graph.outgoing graph t) q
  unfolding produce_token_in_all_but_1_place consume_token_from_all_but_1_place
      cond_token_in_all_but_one_place
  all_but_one_balance freed t name k m q c single = omega (
    arith,
    produce_but_one_lem (Graph.outgoing graph t) name k
        (consume_but_one_loop records graph freed (Graph.incoming graph t) name k m) q,
    consume_but_one_lem freed (Graph.incoming graph t) name k m q,
    enough,
  )
    where
      enough : other_arcs name (Graph.incoming graph t) q ≤ tokens records m q k
      enough = elim (Bool-cases (leb 1 (arcs (Graph.incoming graph t) q))) [
        | inl some_arc ↦
            let held =
              cond_but_one_lem (Graph.incoming graph t) name k m q c (ground (arith, some_arc)) in
            elim (Bool-cases (is_named records graph q name)) [
              | inl spared ↦ rw spared (omega arith)
              | inr other ↦ rw other (ground (arith, (rw other at held), single))
            ]
        | inr no_arc ↦ ground (arith, no_arc)
      ]
