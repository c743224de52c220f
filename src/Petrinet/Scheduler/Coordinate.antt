-- ===== src/Petrinet/Scheduler/Coordinate.antt =====
-- What the scheduler of Petri nets leaves
-- (mobile_platform_5c/baseline/five_c/src/petrinet_scheduler.c).
use ecs_private.Common.{
  ℕ, suc, ◌<◌, ◌≡◌, refl, ◌∙◌, List, [], ◌∷◌, Option, some, false, arith, All, ◌==◌, String,
}
use ecs_private.Petrinet.{
  Records, Graph, Marking, Behaviour, black_token, get_place, check_number_of_tokens,
  flag_tracks_token,
}
use ecs_private.Petrinet.Flags.{Flags}
use ecs_private.Petrinet.Trigger.{Fires, Run, some_enabled, trigger_petrinet_ends}
use ecs_private.Petrinet.Scheduler.{
  FlagTokenArray, ConversionMap, converting_sinks_loop, tracking_sinks_loop, from_flags, to_flags,
  communicate_token_flags_flag_map,
}

-- No flag stands in two rows.
abbrev pub DistinctFlags : FlagTokenArray → Type 0
DistinctFlags [] = Unit
DistinctFlags ((name, a) ∷ rows) =
    All (λ (row : String × ℕ). (row.1 == a) ≡ false) rows × DistinctFlags rows

module _ (records : Records) (graph : Graph) where
  -- The flag of a row tells whether there is a black token in its place.
  abbrev pub Tells : Flags → Marking records → String × ℕ → Type 0
  Tells s m row =
      (n : ℕ)
      → get_place records graph row.0 ≡ some n
      → s row.1 ≡ check_number_of_tokens records (m n) (black_token records graph) 1

  not_in_rows :
      (rows : FlagTokenArray) (s : Flags) (m : Marking records) (a : ℕ)
      → All (λ (row : String × ℕ). (row.1 == a) ≡ false) rows
      → tracking_sinks_loop records graph rows s m a ≡ s a
  unfolding tracking_sinks_loop
  not_in_rows [] s m a h = refl
  not_in_rows ((name, b) ∷ rows) s m a h = not_in_rows rows _ m a h.1 ∙ rw h.0 refl

  tracking_sinks_lem :
      (rows : FlagTokenArray) (s : Flags) (m : Marking records)
      → DistinctFlags rows
      → All (Tells (tracking_sinks_loop records graph rows s m) m) rows
  unfolding tracking_sinks_loop flag_tracks_token
  tracking_sinks_lem [] s m d = tt
  tracking_sinks_lem ((name, a) ∷ rows) s m d = (
    λ n place. not_in_rows rows _ m a d.0 ∙ ground (arith, place),
    tracking_sinks_lem rows _ m d.1,
  )

  module _ (behaviours : ℕ → Option (List (Behaviour (Marking records))))
      (measure : Marking records → ℕ)
      (total : (t : ℕ) → (bs : List (Behaviour (Marking records))) × (behaviours t ≡ some bs))
      (less : (m m' : Marking records) → Fires graph behaviours m m' → measure m' < measure m) where
    -- If every transition has its behaviours, and firing one lowers some measure of the marking, the
    -- coordination of a net comes to an end within one round more than the measure of the marking
    -- that the flags gave. Between the two conversions of flags the net made a run, to a marking in
    -- which no transition is enabled. Afterwards each flag that tracks a place tells whether a black
    -- token is there, provided that no flag tracks two places.
    pub communicate_lem :
        (freed : ℕ) (flag_map : ConversionMap) (s : Flags) (m : Marking records)
        → DistinctFlags flag_map.tracking_sinks
        → let start = from_flags records graph freed flag_map s m in
          (rest : Marking records) × (s' : Flags) × (m' : Marking records)
          × (communicate_token_flags_flag_map records graph behaviours freed
                (suc (measure start.1))
                flag_map
                s
                m
              ≡ some (false, s', m'))
          × Run graph behaviours start.1 rest
          × (some_enabled graph behaviours (Graph.nodes graph) rest ≡ false)
          × (to_flags records graph freed flag_map start.0 rest ≡ (s', m'))
          × All (Tells s' m') flag_map.tracking_sinks
    unfolding communicate_token_flags_flag_map to_flags
    communicate_lem freed flag_map s m d =
        let start = from_flags records graph freed flag_map s m in
        let (rest, done, ran, idle) =
          trigger_petrinet_ends graph behaviours measure total less start.1 in
        let (s3, m3) =
          converting_sinks_loop records graph freed flag_map.converting_sinks start.0 rest in
        (
          rest,
          tracking_sinks_loop records graph flag_map.tracking_sinks s3 m3,
          m3,
          rw done refl,
          ran,
          idle,
          refl,
          tracking_sinks_lem flag_map.tracking_sinks s3 m3 d,
        )
