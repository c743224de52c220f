-- ===== src/Petrinet.antt =====
-- Coloured Petri nets: mobile_platform_5c/baseline/coordination_libraries/src/petrinet.c and
-- include/coordination_libraries/petrinet/petrinet.h.
-- The graph and the records of its nodes belong to cgraph. The interface `Graph` has what the code asks
-- of a graph that is built: its nodes, their names and types, and the ends of their edges. The
-- interface `Records` has the records of a node: agbindrec, with the count that is written into the
-- new record, aggetrec and agdelrec; agbindrec is taken to find memory. A node is known by a number.
pub mod Firing
pub mod Tokens
pub mod Trigger
pub mod Selective
pub mod Flags
pub mod Places
pub mod Scheduler
mod Tests
use ecs_private.Common.{
  ℕ, zero, suc, ◌+◌, ◌-◌, ◌/◌, ◌≡◌, List, [], ◌∷◌, ◌++◌, Option, none, some, Bool, true, false, not,
  ◌||◌, ◌&&◌, ltb, leb, ◌==◌, if◌then◌else◌, ◌>>=◌, String, str_eq,
}

pub record Records : Type 1 where
  pub Rec : Type 0
  pub get : Rec → String → Option ℕ
  pub put : Rec → String → ℕ → Rec
  pub del : Rec → String → Rec
  pub get-put :
      (r : Rec) (k j : String) (n : ℕ)
      → get (put r k n) j ≡ (if str_eq k j then some n else get r j)
  pub get-del : (r : Rec) (k j : String) → get (del r k) j ≡ (if str_eq k j then none else get r j)

pub record Graph : Type 0 where
  pub nodes : List ℕ
  pub node_name : ℕ → String
  pub node_type : ℕ → String
  pub incoming : ℕ → List ℕ
  pub outgoing : ℕ → List ℕ

-- The attribute `number_of_token_types`, which is written with `%d` and read with `atoi`: `minus n`
-- is - (n + 1).
pub data Attribute : Type 0 where
  plus minus : ℕ → Attribute

-- What is left of the digits of a number in a field of so many characters.
abbrev pub keep_digits : ℕ → ℕ → ℕ → ℕ
keep_digits zero limit n = n
keep_digits (suc rounds) limit n = if ltb n limit then n else keep_digits rounds limit (n / 10)

-- `snprintf(number, 4, "%d", ...)` and then `atoi`: three characters are kept, the sign among them.
unfoldable pub write_attribute : Attribute → Attribute
write_attribute (plus n) = plus (keep_digits 10 1000 n)
write_attribute (minus n) = elim (keep_digits 10 100 (n + 1)) [ zero ↦ plus 0 | suc k ↦ minus k ]

unfoldable pub add_one : Attribute → Attribute
add_one (plus n) = plus (n + 1)
add_one (minus zero) = plus 0
add_one (minus (suc n)) = minus n

unfoldable pub subtract_one : Attribute → Attribute
subtract_one (plus zero) = minus 0
subtract_one (plus (suc n)) = plus n
subtract_one (minus n) = minus (n + 1)

module _ (records : Records) where
  open records use {Rec, get, put, del}

  -- What a node holds of tokens: the records, one for each type, and the attribute.
  pub record Place : Type 0 where
    pub counts : Rec
    pub number_of_token_types : Attribute

  -- The places of a net, by their nodes.
  abbrev pub Marking : Type 0
  Marking = ℕ → Place

  abbrev pub set_place : Marking → ℕ → Place → Marking
  set_place m p c q = if p == q then c else m q

  unfoldable pub create_token_type : Place → String → ℕ → Place
  unfolding write_attribute add_one
  create_token_type c type_name n = record {
    counts = put c.counts type_name n;
    number_of_token_types = write_attribute (add_one c.number_of_token_types);
  }

  unfoldable pub delete_token_type : Place → String → Place
  unfolding write_attribute subtract_one
  delete_token_type c type_name = elim (get c.counts type_name) [
    | none ↦ c
    | some count ↦ record {
      counts = del c.counts type_name;
      number_of_token_types = write_attribute (subtract_one c.number_of_token_types);
    }
  ]

  unfoldable pub add_tokens : Place → String → ℕ → Place
  unfolding create_token_type
  add_tokens c type_name n = elim (get c.counts type_name) [
    | none ↦ create_token_type c type_name n
    | some count ↦ record c { counts = put c.counts type_name (count + n) }
  ]

  -- The code reads the count of the record after it was freed; `freed` is what it reads.
  unfoldable pub delete_tokens : ℕ → Place → String → ℕ → ℕ × Place
  unfolding delete_token_type
  delete_tokens freed c type_name n = elim (get c.counts type_name) [
    | none ↦ (1, c)
    | some count ↦
        if ltb n count
        then (0, record c { counts = put c.counts type_name (count - n) })
        else (if ltb freed n then 1 else 0, delete_token_type c type_name)
  ]

  unfoldable pub get_number_of_tokens : Place → String → ℕ
  get_number_of_tokens c type_name = elim (get c.counts type_name) [ none ↦ 0 | some count ↦ count ]

  unfoldable pub check_number_of_tokens : Place → String → ℕ → Bool
  unfolding get_number_of_tokens
  check_number_of_tokens c type_name n = leb n (get_number_of_tokens c type_name)

  unfoldable pub has_any_tokens : Place → Bool
  has_any_tokens c = elim c.number_of_token_types [ plus n ↦ not (n == 0) | minus n ↦ true ]

  -- The three loops over the edges of a transition.
  unfoldable pub cond_loop : List ℕ → String → Marking → Bool
  unfolding check_number_of_tokens
  cond_loop [] token_type m = true
  cond_loop (p ∷ ps) token_type m =
      let rest = cond_loop ps token_type m in
      if not (check_number_of_tokens (m p) token_type 1) then false else rest

  unfoldable pub consume_loop : ℕ → List ℕ → String → Marking → Marking
  unfolding delete_tokens
  consume_loop freed [] token_name m = m
  consume_loop freed (p ∷ ps) token_name m =
      consume_loop freed ps token_name (set_place m p (delete_tokens freed (m p) token_name 1).1)

  unfoldable pub produce_loop : List ℕ → String → Marking → Marking
  unfolding add_tokens
  produce_loop [] token_name m = m
  produce_loop (p ∷ ps) token_name m =
      produce_loop ps token_name (set_place m p (add_tokens (m p) token_name 1))

  module _ (graph : Graph) where
    open graph use {nodes, node_name, node_type, incoming, outgoing}

    unfoldable pub cond_token_type_in_all_incoming_places : ℕ → String → Marking → Bool
    unfolding cond_loop
    cond_token_type_in_all_incoming_places t token_type m = cond_loop (incoming t) token_type m

    unfoldable pub consume_token_in_all_incoming_places : ℕ → ℕ → String → Marking → Marking
    unfolding consume_loop
    consume_token_in_all_incoming_places freed t token_name m =
        consume_loop freed (incoming t) token_name m

    unfoldable pub produce_token_in_all_outgoing_places : ℕ → String → Marking → Marking
    unfolding produce_loop
    produce_token_in_all_outgoing_places t token_name m = produce_loop (outgoing t) token_name m

    -- `BLACK_TOKEN`
    abbrev pub black_token : String
    black_token = "black"

    unfoldable pub cond_black1 : ℕ → Marking → Bool
    unfolding cond_token_type_in_all_incoming_places
    cond_black1 t m = cond_token_type_in_all_incoming_places t black_token m

    unfoldable pub consume_black1 : ℕ → ℕ → Marking → Marking
    unfolding consume_token_in_all_incoming_places
    consume_black1 freed t m = consume_token_in_all_incoming_places freed t black_token m

    unfoldable pub produce_black1 : ℕ → Marking → Marking
    unfolding produce_token_in_all_outgoing_places
    produce_black1 t m = produce_token_in_all_outgoing_places t black_token m

    -- The loop of `get_node`.
    unfoldable pub get_node_loop : List ℕ → String → Option ℕ
    get_node_loop [] id = none
    get_node_loop (n ∷ ns) id =
        let rest = get_node_loop ns id in if str_eq (node_name n) id then some n else rest

    unfoldable pub get_place : String → Option ℕ
    unfolding get_node_loop
    get_place id = get_node_loop nodes id

    unfoldable pub cvt_flag2token : ℕ → Bool → String → Marking → Bool × Marking
    unfolding add_tokens
    cvt_flag2token n flag token_type m =
        if flag then (false, set_place m n (add_tokens (m n) token_type 1)) else (flag, m)

    unfoldable pub convert_flag_to_token : String → Bool → String → Marking → Bool × Marking
    unfolding get_place cvt_flag2token
    convert_flag_to_token place_name flag token_type m =
        if flag
        then elim (get_place place_name) [
          | none ↦ (flag, m)
          | some n ↦ cvt_flag2token n flag token_type m
        ]
        else (flag, m)

    unfoldable pub cvt_token2flag : ℕ → ℕ → String → Bool → Marking → Bool × Marking
    unfolding check_number_of_tokens delete_tokens
    cvt_token2flag freed n token_type flag m =
        if check_number_of_tokens (m n) token_type 1
        then (true, set_place m n (delete_tokens freed (m n) token_type 1).1)
        else (flag, m)

    unfoldable pub convert_token_to_flag : ℕ → String → String → Bool → Marking → Bool × Marking
    unfolding get_place cvt_token2flag
    convert_token_to_flag freed place_name token_type flag m = elim (get_place place_name) [
      | none ↦ (flag, m)
      | some n ↦ cvt_token2flag freed n token_type flag m
    ]

    unfoldable pub flag_tracks_token : String → String → Bool → Marking → Bool
    unfolding get_place check_number_of_tokens
    flag_tracks_token place_name token_type flag m = elim (get_place place_name) [
      | none ↦ flag
      | some n ↦ check_number_of_tokens (m n) token_type 1
    ]

    unfoldable pub token_tracks_flag : ℕ → String → Bool → String → Marking → Marking
    unfolding get_place check_number_of_tokens delete_tokens add_tokens
    token_tracks_flag freed place_name flag token_type m = elim (get_place place_name) [
      | none ↦ m
      | some n ↦
          let token_in_place = check_number_of_tokens (m n) token_type 1 in
          if token_in_place && not flag
          then set_place m n (delete_tokens freed (m n) token_type 1).1
          else if not token_in_place && flag
          then set_place m n (add_tokens (m n) token_type 1)
          else m
    ]

-- `transition_behaviour_t`: the three function pointers, on the node and a state `M` that they change.
pub record Behaviour (M : Type 0) : Type 0 where
  pub condition : ℕ → M → Bool
  pub consumption_behaviour : ℕ → M → M
  pub production_behaviour : ℕ → M → M

module _ {M : Type 0} where
  -- `add_behaviour`, on the attribute of a transition: `none` as long as it has no record.
  unfoldable pub add_behaviour :
      Option (List (Behaviour M)) → Behaviour M → Option (List (Behaviour M))
  add_behaviour none b = some (b ∷ [])
  add_behaviour (some bs) b = some (bs ++ b ∷ [])

  -- The loop over the behaviours of a transition: the first whose condition holds is carried out.
  unfoldable pub behaviour_loop : List (Behaviour M) → ℕ → M → Bool × M
  behaviour_loop [] t m = (false, m)
  behaviour_loop (b ∷ bs) t m =
      let rest = behaviour_loop bs t m in
      if b.condition t m
      then (true, b.production_behaviour t (b.consumption_behaviour t m))
      else rest

  module _ (graph : Graph) (behaviours : ℕ → Option (List (Behaviour M))) where
    -- The loop over the nodes. A transition without a record of behaviours is a null pointer.
    unfoldable pub node_loop : List ℕ → Bool → M → Option (Bool × M)
    unfolding behaviour_loop
    node_loop [] still m = some (still, m)
    node_loop (t ∷ ts) still m = elim (str_eq (Graph.node_type graph t) "transition") [
      | false ↦ node_loop ts still m
      | true ↦ do
        bs ← behaviours t
        let (fired, m') = behaviour_loop bs t m
        node_loop ts (still || fired) m'
    ]

    -- At most `rounds` rounds of the outer loop, and whether it is still to go on.
    unfoldable pub trigger_petrinet : ℕ → M → Option (Bool × M)
    unfolding node_loop
    trigger_petrinet zero m = some (true, m)
    trigger_petrinet (suc rounds) m = do
      (still, m') ← node_loop (Graph.nodes graph) false m
      let rest = trigger_petrinet rounds m'
      if still then rest else some (false, m')
