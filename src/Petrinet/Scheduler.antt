-- ===== src/Petrinet/Scheduler.antt =====
-- The scheduler that couples Petri nets to flags:
-- mobile_platform_5c/baseline/five_c/src/petrinet_scheduler.c.
pub mod Coordinate
mod Tests
use ecs_private.Common.{
  ℕ, zero, suc, ◌+◌, List, [], ◌∷◌, Option, none, some, Bool, true, false, ◌>>=◌, if◌then◌else◌,
  get_elem?, set, String,
}
use ecs_private.Petrinet.{
  Records, Graph, Marking, Behaviour, black_token, convert_flag_to_token, token_tracks_flag,
  convert_token_to_flag, flag_tracks_token, trigger_petrinet,
}
use ecs_private.Petrinet.Flags.{Flags, set_flag}

-- `flag_token_array_t`: the names of places, and the addresses of their flags
abbrev pub FlagTokenArray : Type 0
FlagTokenArray = List (String × ℕ)

-- `flag_token_conversion_map_t`
pub record ConversionMap : Type 0 where
  pub converting_sources : FlagTokenArray
  pub tracking_sources : FlagTokenArray
  pub converting_sinks : FlagTokenArray
  pub tracking_sinks : FlagTokenArray

module _ (records : Records) where
  -- `petrinet_t`, with its marking
  pub record Net : Type 0 where
    pub graph : Graph
    pub behaviours : ℕ → Option (List (Behaviour (Marking records)))
    pub marking : Marking records

  -- `petrinet_scheduler_state_t`
  pub record SchedulerState : Type 0 where
    pub petrinet : List Net
    pub flag_token_conversion_map : List ConversionMap
    pub active_petrinet : ℕ
    pub number_of_petrinets : ℕ

  module _ (graph : Graph) where
    abbrev black : String
    black = black_token records graph

    -- The four loops over the arrays.
    unfoldable pub converting_sources_loop :
        FlagTokenArray → Flags → Marking records → Flags × Marking records
    converting_sources_loop [] s m = (s, m)
    converting_sources_loop ((name, a) ∷ rows) s m =
        let (flag, m') = convert_flag_to_token records graph name (s a) black m in
        converting_sources_loop rows (set_flag s a flag) m'

    unfoldable pub tracking_sources_loop :
        ℕ → FlagTokenArray → Flags → Marking records → Marking records
    tracking_sources_loop freed [] s m = m
    tracking_sources_loop freed ((name, a) ∷ rows) s m =
        tracking_sources_loop freed rows s
          (token_tracks_flag records graph freed name (s a) black m)

    unfoldable pub converting_sinks_loop :
        ℕ → FlagTokenArray → Flags → Marking records → Flags × Marking records
    converting_sinks_loop freed [] s m = (s, m)
    converting_sinks_loop freed ((name, a) ∷ rows) s m =
        let (flag, m') = convert_token_to_flag records graph freed name black (s a) m in
        converting_sinks_loop freed rows (set_flag s a flag) m'

    unfoldable pub tracking_sinks_loop : FlagTokenArray → Flags → Marking records → Flags
    tracking_sinks_loop [] s m = s
    tracking_sinks_loop ((name, a) ∷ rows) s m =
        tracking_sinks_loop rows (set_flag s a (flag_tracks_token records graph name black (s a) m))
          m

    -- The first two loops.
    unfoldable pub from_flags :
        ℕ → ConversionMap → Flags → Marking records → Flags × Marking records
    unfolding converting_sources_loop tracking_sources_loop
    from_flags freed flag_map s m =
        let (s1, m1) = converting_sources_loop flag_map.converting_sources s m in
        (s1, tracking_sources_loop freed flag_map.tracking_sources s1 m1)

    -- The last two.
    unfoldable pub to_flags : ℕ → ConversionMap → Flags → Marking records → Flags × Marking records
    unfolding converting_sinks_loop tracking_sinks_loop
    to_flags freed flag_map s m =
        let (s1, m1) = converting_sinks_loop freed flag_map.converting_sinks s m in
        (tracking_sinks_loop flag_map.tracking_sinks s1 m1, m1)

    -- The net is triggered for at most `rounds` rounds; the first component tells whether that was too
    -- few.
    unfoldable pub communicate_token_flags_flag_map :
        (ℕ → Option (List (Behaviour (Marking records))))
        → ℕ
        → ℕ
        → ConversionMap
        → Flags
        → Marking records
        → Option (Bool × Flags × Marking records)
    unfolding from_flags to_flags
    communicate_token_flags_flag_map behaviours freed rounds flag_map s m =
        let (s1, m1) = from_flags freed flag_map s m in
        do
          (still, m2) ← trigger_petrinet graph behaviours rounds m1
          let (s3, m3) = to_flags freed flag_map s1 m2
          some (if still then (true, s1, m2) else (false, s3, m3))

  -- One net of the state, by its index.
  unfoldable pub communicate_net :
      ℕ → ℕ → ℕ → Flags → SchedulerState → Option (Bool × Flags × SchedulerState)
  unfolding communicate_token_flags_flag_map
  communicate_net freed rounds i s st = do
    net ← get_elem? st.petrinet i
    flag_map ← get_elem? st.flag_token_conversion_map i
    (still, s', m') ←
        communicate_token_flags_flag_map net.graph net.behaviours freed rounds flag_map s
          net.marking
    some (still, s', record st { petrinet = set st.petrinet i (record net { marking = m' }) })

  unfoldable pub coordinate_with_petrinet :
      ℕ → ℕ → Flags → SchedulerState → Option (Bool × Flags × SchedulerState)
  unfolding communicate_net
  coordinate_with_petrinet freed rounds s st = communicate_net freed rounds st.active_petrinet s st

  -- `n` more nets from index `i`; a net that does not come to rest keeps the others from their turn.
  unfoldable pub coordinate_loop :
      ℕ → ℕ → ℕ → ℕ → Flags → SchedulerState → Option (Bool × Flags × SchedulerState)
  unfolding communicate_net
  coordinate_loop freed rounds zero i s st = some (false, s, st)
  coordinate_loop freed rounds (suc n) i s st = do
    (still, s', st') ← communicate_net freed rounds i s st
    let rest = coordinate_loop freed rounds n (i + 1) s' st'
    if still then some (true, s', st') else rest

  unfoldable pub coordinate_all_petrinets :
      ℕ → ℕ → Flags → SchedulerState → Option (Bool × Flags × SchedulerState)
  unfolding coordinate_loop
  coordinate_all_petrinets freed rounds s st =
      coordinate_loop freed rounds st.number_of_petrinets 0 s st
