-- ===== src/Activity/Exchange.antt =====
-- Activities whose schedules have one function each, and how these exchange the schedule in the
-- eventloop. The functions `..._config` and `..._configure` of the drive, of the proprioception and of
-- the navigation with control of the platform have this shape.
pub mod Pass
pub mod Register
pub mod Configured
use ecs_private.Common.{
  ℕ, ◌≡◌, ◌⊎◌, refl, sym, ap, ◌∙◌, inl, inr, List, Option, none, some, Bool, true, false, arith,
  length, get_elem?, ◌>>=◌, String, str_eq, Bool-cases, if◌then◌else◌, eq_of_some, subst,
}
use text.Mathlib.TextPositions.{eq_refl}
use ecs_private.Common.StringMap.{StringMap}
use ecs_private.Lcsm.{State}
use ecs_private.Schedule.{
  Schedule, ScheduleTable, add_schedule_to_eventloop, remove_schedule_from_eventloop,
  do_schedule_eventloop,
}
use ecs_private.Schedule.Execute.{pass_stops}
use ecs_private.Schedule.Slot.{slot}
use ecs_private.Schedule.Single.{
  table_of, single_schedule, remove_only, remove_first, add_second, add_only, IsSettled, pass_one,
}
use ecs_private.Activity.{do_activity}

module _ {F : Type 0} (uthash : StringMap (Schedule F)) where
  open uthash use {Map, find}

  -- What a state's function does with the table when the state was left.
  unfoldable pub leave_table : String → ScheduleTable Map F → Option (ScheduleTable Map F)
  leave_table name t = do
    t' ← add_schedule_to_eventloop uthash t "activity_config"
    remove_schedule_from_eventloop t' name

  -- What `..._config` does with it: the schedule of the state is added, if the state has one.
  unfoldable pub config_table : Option String → ScheduleTable Map F → Option (ScheduleTable Map F)
  config_table name t = do
    t' ← remove_schedule_from_eventloop t "activity_config"
    elim name [ none ↦ some t' | some n ↦ add_schedule_to_eventloop uthash t' n ]

  -- The activity: its functions, the world that they work on, and the name of the schedule of each
  -- state that has one. The laws say what the functions do with the state of the life cycle and with
  -- the table of schedules.
  pub record SingleActivity : Type 1 where
    pub W : Type 0
    pub call : F → W → Option W
    pub table : W → ScheduleTable Map F
    pub state : W → State
    pub config : F
    pub main_of : State → F
    pub name_of : State → Option String
    pub call-config :
        (w w' : W)
        → call config w ≡ some w'
        → (config_table (name_of (state w)) (table w) ≡ some (table w')) × (state w' ≡ state w)
    pub call-main :
        (w w' : W) (name : String)
        → name_of (state w) ≡ some name
        → call (main_of (state w)) w ≡ some w'
        → ((state w' ≡ state w) × (table w' ≡ table w))
          ⊎ (leave_table name (table w) ≡ some (table w'))

  module _ (activity : SingleActivity) where
    open activity use {W, call, table, state, config, main_of, name_of, call-config, call-main}

    abbrev pub config_schedule : Schedule F
    config_schedule = single_schedule "activity_config" config

    -- All the schedules are found under their names.
    pub record Registered (m : Map) : Type 0 where
      pub find_config : find m "activity_config" ≡ some config_schedule
      pub find_state :
          (s : State) (name : String)
          → name_of s ≡ some name
          → find m name ≡ some (single_schedule name (main_of s))

    -- The eventloop holds `c` alone.
    pub record Holds (c : Schedule F) (t : ScheduleTable Map F) : Type 0 where
      pub hash_map : Map
      pub number : ℕ
      pub dead : Schedule F
      pub rest : List (Schedule F)
      pub registered : Registered hash_map
      pub rest_length : length rest ≡ 30
      pub same : t ≡ table_of hash_map number c dead rest 1

    -- The eventloop holds `activity_config` alone, or the schedule of the present state alone, or, in
    -- a state without a schedule, nothing.
    pub data Consistent (w : W) : Type 0 where
      configuring : Holds config_schedule (table w) → Consistent w
      working :
          (name : String)
          → name_of (state w) ≡ some name
          → Holds (single_schedule name (main_of (state w))) (table w)
          → Consistent w
      finished :
          name_of (state w) ≡ none → (table w).number_of_eventloop_schedules ≡ 0 → Consistent w

    leave_lem :
        (name : String) (f : F) (t t' : ScheduleTable Map F)
        → Holds (single_schedule name f) t
        → leave_table name t ≡ some t'
        → Holds config_schedule t'
    unfolding leave_table
    leave_lem name f t t' h e = record {
      hash_map = h.hash_map;
      number = h.number;
      dead = config_schedule;
      rest = h.rest;
      registered = h.registered;
      rest_length = h.rest_length;
      same = sym (
          eq_of_some (
            rw
              (
                h.same,
                add_second uthash h.hash_map h.number (single_schedule name f) h.dead
                    config_schedule h.rest "activity_config" h.rest_length h.registered.find_config,
                remove_first h.hash_map h.number (single_schedule name f) config_schedule h.rest
                    name (eq_refl name),
              )
              at e));
    }

    pub slot_of : (c : Schedule F) (w : W) → Holds c (table w) → slot call table w ≡ some c
    slot_of c w h = ap (λ (t : ScheduleTable Map F). get_elem? t.eventloop_schedules 0) h.same

    pub number_of :
        (c : Schedule F) (w : W) → Holds c (table w) → (table w).number_of_eventloop_schedules ≡ 1
    number_of c w h = ap (λ (t : ScheduleTable Map F). t.number_of_eventloop_schedules) h.same

    pub settled :
        (name : String) (f : F) (w : W)
        → Holds (single_schedule name f) (table w)
        → IsSettled call table w
    settled name f w h = record {
      schedule = single_schedule name f;
      in_slot = slot_of (single_schedule name f) w h;
      one_function = omega arith;
      one_schedule = omega (arith, number_of (single_schedule name f) w h);
    }

    -- The function of a state leaves its own schedule or `activity_config`.
    pub worked :
        (w w' : W) (name : String)
        → name_of (state w) ≡ some name
        → Holds (single_schedule name (main_of (state w))) (table w)
        → call (main_of (state w)) w ≡ some w'
        → ((state w' ≡ state w) × Holds (single_schedule name (main_of (state w))) (table w'))
          ⊎ Holds config_schedule (table w')
    worked w w' name n h e = elim (call-main w w' name n e) [
      | inl (s, t) ↦ inl (s, subst (Holds (single_schedule name (main_of (state w)))) (sym t) h)
      | inr gone ↦ inr (leave_lem name (main_of (state w)) (table w) (table w') h gone)
    ]

    -- With the schedule of the present state in the eventloop a pass is one call of its function.
    pub pass_working :
        (w : W) (name : String)
        → name_of (state w) ≡ some name
        → Holds (single_schedule name (main_of (state w))) (table w)
        → do_activity call table w ≡ call (main_of (state w)) w
    unfolding do_activity
    pass_working w name n h =
        pass_one call table name (main_of (state w)) w
          (slot_of (single_schedule name (main_of (state w))) w h)
          (number_of (single_schedule name (main_of (state w))) w h)
          (λ w' e. elim (worked w w' name n h e) [
            | inl (s, held) ↦ settled name (main_of (state w)) w' held
            | inr held ↦ settled "activity_config" config w' held
          ])

    -- What `..._config` leaves.
    pub installed :
        (w w' : W) (name : String)
        → name_of (state w) ≡ some name
        → Holds config_schedule (table w)
        → call config w ≡ some w'
        → Holds (single_schedule name (main_of (state w))) (table w')
    unfolding config_table
    installed w w' name n h e = record {
      hash_map = h.hash_map;
      number = h.number;
      dead = h.dead;
      rest = h.rest;
      registered = h.registered;
      rest_length = h.rest_length;
      same = sym (
          eq_of_some (
            rw
              (
                n,
                h.same,
                remove_only h.hash_map h.number config_schedule h.dead h.rest "activity_config"
                    refl,
                add_only uthash h.hash_map h.number config_schedule h.dead
                    (single_schedule name (main_of (state w))) h.rest name h.rest_length
                    (h.registered.find_state (state w) name n),
              )
              at (call-config w w' e).0));
    }

    pub emptied :
        (w w' : W) (h : Holds config_schedule (table w))
        → name_of (state w) ≡ none
        → call config w ≡ some w'
        → table w' ≡ table_of h.hash_map h.number config_schedule h.dead h.rest 0
    unfolding config_table
    emptied w w' h n e = sym (
        eq_of_some (
          rw
            (
              n,
              h.same,
              remove_only h.hash_map h.number config_schedule h.dead h.rest "activity_config" refl,
            )
            at (call-config w w' e).0))
