-- ===== src/Petrinet/Scheduler/Tests.antt =====
-- The theorem on the scheduler of Petri nets at a net that moves tokens from a place to another.
use ecs_private.Common.{
  ℕ, suc, ◌<◌, ◌≡◌, refl, sym, ap, List, [], ◌∷◌, Option, some, Bool, true, false, arith, All,
  eq_of_some, subst, Bool-cases, inl, inr, ◌==◌,
}
use ecs_private.Petrinet.{
  Marking, Behaviour, behaviour_loop, cond_black1, consume_black1, produce_black1,
}
use ecs_private.Petrinet.Tests.{records, graph, marking}
use ecs_private.Petrinet.Tokens.{tokens}
use ecs_private.Petrinet.Firing.{fire_black_balance}
use ecs_private.Petrinet.Flags.{Flags}
use ecs_private.Petrinet.Trigger.{Fires, fire, Run, some_enabled}
use ecs_private.Petrinet.Scheduler.{
  ConversionMap, from_flags, to_flags, communicate_token_flags_flag_map,
}
use ecs_private.Petrinet.Scheduler.Coordinate.{Tells, communicate_lem}

abbrev move_token : Behaviour (Marking records)
move_token = record {
  condition = λ t m. cond_black1 records graph t m;
  consumption_behaviour = λ t m. consume_black1 records graph 0 t m;
  production_behaviour = λ t m. produce_black1 records graph t m;
}

abbrev behaviours : ℕ → Option (List (Behaviour (Marking records)))
behaviours t = some (move_token ∷ [])

-- The black tokens that wait to be moved.
abbrev waiting : Marking records → ℕ
waiting m = tokens records m 0 "black"

moves :
    (t : ℕ) (m m' : Marking records)
    → behaviour_loop (move_token ∷ []) t m ≡ (true, m')
    → waiting m' < waiting m
unfolding behaviour_loop
moves t m m' e = elim (Bool-cases (cond_black1 records graph t m)) [
  | inl can ↦
      let moved : (true, produce_black1 records graph t (consume_black1 records graph 0 t m))
          ≡ (true, m') =
        rw can at e in
      omega (
        arith,
        fire_black_balance records graph 0 t m 0 can (omega arith),
        ap (λ (p : Bool × Marking records). waiting p.1) moved,
      )
  | inr cannot ↦ absurd (grind (arith, cannot, ap (λ (p : Bool × Marking records). p.0) e))
]

lowers : (m m' : Marking records) → Fires graph behaviours m m' → waiting m' < waiting m
lowers m m' (fire t bs has e) =
    moves t m m' (subst (λ l. behaviour_loop l t m ≡ (true, m')) (sym (eq_of_some has)) e)

-- A flag puts a token into the first place, and two flags tell of the two places.
abbrev flag_map : ConversionMap
flag_map = record {
  converting_sources = ("ready", 10) ∷ [];
  tracking_sources = [];
  converting_sinks = [];
  tracking_sinks = ("gone", 20) ∷ ("ready", 21) ∷ [];
}

abbrev flags : Flags
flags a = a == 10

communicate_lem_example :
    let start = from_flags records graph 0 flag_map flags marking in
    (rest : Marking records) × (s' : Flags) × (m' : Marking records)
    × (communicate_token_flags_flag_map records graph behaviours 0
          (suc (waiting start.1))
          flag_map
          flags
          marking
        ≡ some (false, s', m'))
    × Run graph behaviours start.1 rest
    × (some_enabled graph behaviours (0 ∷ 1 ∷ 2 ∷ []) rest ≡ false)
    × (to_flags records graph 0 flag_map start.0 rest ≡ (s', m'))
    × All (Tells records graph s' m') flag_map.tracking_sinks
communicate_lem_example =
    communicate_lem records graph behaviours waiting (λ t. (move_token ∷ [], refl)) lowers 0
      flag_map flags marking ((refl, tt), (tt, tt))
