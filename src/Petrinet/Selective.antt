-- ===== src/Petrinet/Selective.antt =====
-- The behaviours that choose among the places of a transition by their names
-- (coordination_libraries/src/petrinet.c).
pub mod Balance
use ecs_private.Common.{
  ℕ, zero, suc, List, [], ◌∷◌, Bool, true, false, not, ◌&&◌, if◌then◌else◌, String, str_eq, Option,
  none, some, get_elem?, ◌>>=◌, ◌+◌, ◌==◌,
}
use ecs_private.Petrinet.{
  Records, Graph, Attribute, plus, minus, Place, Marking, set_place, add_tokens, delete_tokens,
  check_number_of_tokens, black_token,
}

module _ (records : Records) (graph : Graph) where
  open graph use {node_name, incoming, outgoing}

  -- `!strcmp(agnameof(n), place_name)`
  abbrev pub is_named : ℕ → String → Bool
  is_named n place_name = str_eq (node_name n) place_name

  unfoldable pub cond_but_one_loop : List ℕ → String → String → Marking records → Bool
  cond_but_one_loop [] place_name token_type m = true
  cond_but_one_loop (n ∷ ns) place_name token_type m =
      let rest = cond_but_one_loop ns place_name token_type m in
      let held = check_number_of_tokens records (m n) token_type 1 in
      if is_named n place_name
      then if held then false else rest
      else if not held
      then false
      else rest

  unfoldable pub cond_token_in_all_but_one_place : ℕ → String → String → Marking records → Bool
  unfolding cond_but_one_loop
  cond_token_in_all_but_one_place t place_name token_type m =
      cond_but_one_loop (incoming t) place_name token_type m

  unfoldable pub consume_but_one_loop :
      ℕ → List ℕ → String → String → Marking records → Marking records
  consume_but_one_loop freed [] place_name token_name m = m
  consume_but_one_loop freed (n ∷ ns) place_name token_name m =
      consume_but_one_loop freed ns place_name token_name (
        if is_named n place_name
        then m
        else set_place records m n (delete_tokens records freed (m n) token_name 1).1)

  unfoldable pub consume_token_from_all_but_1_place :
      ℕ → ℕ → String → String → Marking records → Marking records
  unfolding consume_but_one_loop
  consume_token_from_all_but_1_place freed t place_name token_name m =
      consume_but_one_loop freed (incoming t) place_name token_name m

  unfoldable pub produce_but_one_loop : List ℕ → String → String → Marking records → Marking records
  produce_but_one_loop [] place_name token_name m = m
  produce_but_one_loop (n ∷ ns) place_name token_name m =
      produce_but_one_loop ns place_name token_name (
        if is_named n place_name
        then m
        else set_place records m n (add_tokens records (m n) token_name 1))

  unfoldable pub produce_token_in_all_but_1_place :
      ℕ → String → String → Marking records → Marking records
  unfolding produce_but_one_loop
  produce_token_in_all_but_1_place t place_name token_name m =
      produce_but_one_loop (outgoing t) place_name token_name m

  unfoldable pub cond_one_loop : List ℕ → String → String → Marking records → Bool
  cond_one_loop [] place_name token_name m = true
  cond_one_loop (n ∷ ns) place_name token_name m =
      let rest = cond_one_loop ns place_name token_name m in
      if is_named n place_name && not (check_number_of_tokens records (m n) token_name 1)
      then false
      else rest

  unfoldable pub cond_token_in_one_place : ℕ → String → String → Marking records → Bool
  unfolding cond_one_loop
  cond_token_in_one_place t place_name token_name m =
      cond_one_loop (incoming t) place_name token_name m

  unfoldable pub consume_one_loop : ℕ → List ℕ → String → String → Marking records → Marking records
  consume_one_loop freed [] place_name token_name m = m
  consume_one_loop freed (n ∷ ns) place_name token_name m =
      consume_one_loop freed ns place_name token_name (
        if is_named n place_name
        then set_place records m n (delete_tokens records freed (m n) token_name 1).1
        else m)

  unfoldable pub consume_token_from_one_place :
      ℕ → ℕ → String → String → Marking records → Marking records
  unfolding consume_one_loop
  consume_token_from_one_place freed t place_name token_name m =
      consume_one_loop freed (incoming t) place_name token_name m

  unfoldable pub produce_one_loop : List ℕ → String → String → Marking records → Marking records
  produce_one_loop [] place_name token_name m = m
  produce_one_loop (n ∷ ns) place_name token_name m = produce_one_loop ns place_name token_name (
      if is_named n place_name
      then set_place records m n (add_tokens records (m n) token_name 1)
      else m)

  unfoldable pub produce_token_in_one_place :
      ℕ → String → String → Marking records → Marking records
  unfolding produce_one_loop
  produce_token_in_one_place t place_name token_name m =
      produce_one_loop (outgoing t) place_name token_name m

  -- `number != number_of_different_types`
  abbrev pub is_number : Attribute → ℕ → Bool
  is_number (plus k) n = k == n
  is_number (minus k) n = false

  unfoldable pub cond_types_loop : List ℕ → String → String → ℕ → Marking records → Bool
  cond_types_loop [] black_token_place place_collecting n m = true
  cond_types_loop (p ∷ ps) black_token_place place_collecting n m =
      let rest = cond_types_loop ps black_token_place place_collecting n m in
      if is_named p black_token_place
      then (if not (check_number_of_tokens records (m p) (black_token records graph) 1)
          then false
          else rest)
      else if is_named p place_collecting && not (is_number (m p).number_of_token_types n)
      then false
      else rest

  unfoldable pub cond_check_number_of_different_token_types :
      ℕ → String → String → ℕ → Marking records → Bool
  unfolding cond_types_loop
  cond_check_number_of_different_token_types t black_token_place place_collecting n m =
      cond_types_loop (incoming t) black_token_place place_collecting n m
