-- ===== src/Petrinet/Tests.antt =====
-- The theorems on Petri nets at concrete nets.
use ecs_private.Common.{
  ℕ, ◌+◌, ◌-◌, ◌<◌, ◌≡◌, refl, List, [], ◌∷◌, Option, none, some, Bool, true, false, arith, ltb,
  if◌then◌else◌, String, str_eq, ◌==◌, eq_of_some, ap, subst, sym,
}
use ecs_private.Petrinet.{
  Records, Graph, plus, Place, Marking, Behaviour, behaviour_loop, trigger_petrinet,
  get_number_of_tokens, convert_flag_to_token, convert_token_to_flag, get_place, cond_black1,
  consume_black1, produce_black1, cond_token_type_in_all_incoming_places, cond_loop,
  check_number_of_tokens, get_node_loop,
}
use ecs_private.Petrinet.Tokens.{tokens, flag_token_flag}
use ecs_private.Petrinet.Firing.{fire_black_balance}
use ecs_private.Petrinet.Flags.{
  Flags, convert_flags_to_tokens, flags_track_tokens, tokens_track_flags,
}
use ecs_private.Petrinet.Flags.Convert.{convert_flags_to_tokens_lem, has_flag, set_flags_of}
use ecs_private.Petrinet.Flags.Track.{distinct_types, flags_tokens_flags, has_type, IsSafe}
use ecs_private.Petrinet.Places.{
  cond_names_loop, cond_places_loop, cond_token_in_places, consume_token_from_places, moved,
  occurrences, produce_token_in_places,
}
use ecs_private.Petrinet.Places.Moves.{consume-produce_places}
use ecs_private.Petrinet.Selective.{
  cond_but_one_loop, cond_token_in_all_but_one_place, consume_token_from_all_but_1_place,
  produce_token_in_all_but_1_place,
}
use ecs_private.Petrinet.Selective.Balance.{all_but_one_balance}
use ecs_private.Petrinet.Trigger.{Fires, fire, Run, some_enabled, trigger_petrinet_ends}

-- Records as functions of their names.
abbrev pub records : Records
records = record {
  Rec = String → Option ℕ;
  get = λ r k. r k;
  put = λ r k n j. if str_eq k j then some n else r j;
  del = λ r k j. if str_eq k j then none else r j;
  get-put = λ r k j n. refl;
  get-del = λ r k j. refl;
}

-- A place, a transition, and a place behind it.
abbrev pub graph : Graph
graph = record {
  nodes = 0 ∷ 1 ∷ 2 ∷ [];
  node_name = λ n. if n == 0 then "ready" else if n == 1 then "go" else "gone";
  node_type = λ n. if n == 1 then "transition" else "place";
  incoming = λ n. 0 ∷ [];
  outgoing = λ n. 2 ∷ [];
}

abbrev no_tokens : Place records
no_tokens = record { counts = λ k. none; number_of_token_types = plus 0 }

abbrev two_tokens : Place records
two_tokens = record {
  counts = λ k. if str_eq "black" k then some 2 else none;
  number_of_token_types = plus 1;
}

abbrev pub marking : Marking records
marking n = if n == 0 then two_tokens else no_tokens

place_found : get_place records graph "gone" ≡ some 2
unfolding get_place get_node_loop
place_found = refl

flag_token_flag_example :
    let (flag, m') = convert_flag_to_token records graph "gone" true "red" marking in
    let (flag', m'') = convert_token_to_flag records graph 0 "gone" "red" flag m' in
    (flag ≡ false)
    × (tokens records m' 2 "red" ≡ tokens records marking 2 "red" + 1)
    × (flag' ≡ true)
    × (tokens records m'' 2 "black" ≡ tokens records marking 2 "black")
flag_token_flag_example = flag_token_flag records graph 0 2 "gone" "red" "black" marking place_found

condition_holds : cond_black1 records graph 1 marking ≡ true
unfolding cond_black1 cond_token_type_in_all_incoming_places cond_loop check_number_of_tokens
    get_number_of_tokens
condition_holds = refl

fire_black_balance_example :
    tokens records
        (produce_black1 records graph 1 (consume_black1 records graph 0 1 marking))
        0
        "black"
      + 1
    ≡ tokens records marking 0 "black" + 0
fire_black_balance_example =
    fire_black_balance records graph 0 1 marking 0 condition_holds (omega arith)

-- A transition that counts down.
abbrev count_down : Behaviour ℕ
count_down = record {
  condition = λ t n. ltb 0 n;
  consumption_behaviour = λ t n. n - 1;
  production_behaviour = λ t n. n;
}

abbrev behaviours : ℕ → Option (List (Behaviour ℕ))
behaviours t = some (count_down ∷ [])

count_lem : (t m m' : ℕ) → behaviour_loop (count_down ∷ []) t m ≡ (true, m') → m' < m
unfolding behaviour_loop
count_lem t m m' e = grind (arith, ap (λ (p : Bool × ℕ). p.0) e, ap (λ (p : Bool × ℕ). p.1) e)

lowers : (m m' : ℕ) → Fires graph behaviours m m' → m' < m
lowers m m' (fire t bs has e) =
    count_lem t m m' (subst (λ l. behaviour_loop l t m ≡ (true, m')) (sym (eq_of_some has)) e)

trigger_petrinet_ends_example :
    (m' : ℕ) × (trigger_petrinet graph behaviours 4 3 ≡ some (false, m'))
    × Run graph behaviours 3 m'
    × (some_enabled graph behaviours (0 ∷ 1 ∷ 2 ∷ []) m' ≡ false)
trigger_petrinet_ends_example =
    trigger_petrinet_ends graph behaviours (λ n. n) (λ t. (count_down ∷ [], refl)) lowers 3

all_but_one_holds : cond_token_in_all_but_one_place records graph 1 "other" "black" marking ≡ true
unfolding cond_token_in_all_but_one_place cond_but_one_loop check_number_of_tokens
    get_number_of_tokens
all_but_one_holds = refl

all_but_one_balance_example :
    tokens records
        (produce_token_in_all_but_1_place records graph 1 "other" "black"
          (consume_token_from_all_but_1_place records graph 0 1 "other" "black" marking))
        0
        "black"
      + 1
    ≡ tokens records marking 0 "black" + 0
all_but_one_balance_example =
    all_but_one_balance records graph 0 1 "other" "black" marking 0 all_but_one_holds (omega arith)

-- Two flags, the second of which is set.
abbrev flags : Flags
flags a = a == 1

abbrev rows : List (ℕ × String)
rows = (0, "black") ∷ (1, "red") ∷ []

-- The place behind the transition holds a black token.
abbrev one_token : Place records
one_token = record {
  counts = λ k. if str_eq "black" k then some 1 else none;
  number_of_token_types = plus 1;
}

abbrev marked : Marking records
marked n = if n == 2 then one_token else no_tokens

marked-IsSafe : IsSafe records (marked 2)
unfolding get_number_of_tokens
marked-IsSafe j = ground arith

types_differ : distinct_types rows ≡ true
unfolding distinct_types has_type
types_differ = refl

flags_tokens_flags_example :
    flags_track_tokens records graph "gone" rows flags
      (tokens_track_flags records graph 0 "gone" rows flags marked)
      0
    ≡ false
flags_tokens_flags_example =
    flags_tokens_flags records graph 0 2 "gone" rows flags marked place_found marked-IsSafe
      types_differ 0

convert_flags_to_tokens_lem_example :
    let (s', m') = convert_flags_to_tokens records graph "gone" rows flags marked in
    ((x : ℕ) → s' x ≡ (if has_flag rows x then false else flags x))
    × ((j : String) → tokens records m' 2 j ≡ tokens records marked 2 j + set_flags_of rows flags j)
convert_flags_to_tokens_lem_example =
    convert_flags_to_tokens_lem records graph 2 "gone" rows flags marked place_found

named_places_hold :
    cond_token_in_places records graph 1 ("ready" ∷ "gone" ∷ []) "black" marking ≡ true
unfolding cond_token_in_places cond_places_loop cond_names_loop check_number_of_tokens
    get_number_of_tokens
named_places_hold = refl

-- The place is named twice, so both of its tokens are taken.
consume-produce_places_example :
    tokens records
      (produce_token_in_places records graph 1
        ("gone" ∷ [])
        "black"
        (consume_token_from_places records graph 0 1 ("ready" ∷ "ready" ∷ []) "black" marking))
      0
      "black"
    ≡ 0
unfolding moved occurrences get_number_of_tokens
consume-produce_places_example =
    consume-produce_places records graph 0 1 ("ready" ∷ "ready" ∷ []) ("gone" ∷ []) "black" 0
      marking
