-- ===== src/Proprioception/Invariant.antt =====
-- The eventloop of the proprioception always fits the state of its life cycle
-- (mobile_platform_proprioception/src/activity/activity.c).
use ecs_private.Common.{
  ◌≡◌, refl, List, ◌∷◌, none, some, String, length, subst, eq_of_some, none-ne-some, >>=-eq-some,
}
use ecs_private.Common.StringMap.{StringMap}
use ecs_private.Lcsm.{
  State, creation, resource_configuration, capability_configuration, pausing, running, cleaning,
  done,
}
use ecs_private.Schedule.{Schedule, add_schedule_to_eventloop}
use ecs_private.Activity.{Activity, initialisation, configure_lcsm_activity}
use ecs_private.Activity.Exchange.{SingleActivity, Consistent, Holds, config_schedule}
use ecs_private.Activity.Exchange.Pass.{Reaches, Elsewhere, Reaches-Consistent}
use ecs_private.Activity.Exchange.Register.{Complete, start_lem, register_singles, registered_as}
use ecs_private.Schedule.Single.{single_schedule, table_of}
use ecs_private.Proprioception.{Setting, Function, proprioception_config, World, types}
use ecs_private.Proprioception.Lifecycle.{
  Table, schedule_name, schedule_table, call, schedules, configure_lcsm, register_schedules,
}
use ecs_private.Proprioception.Exchanges.{main_of, state_of, by_state, by_config}

module _ (setting : Setting) where
  open setting use {schedule_map}

  -- The proprioception as an activity whose schedules have one function each.
  abbrev pub proprioception_activity : SingleActivity schedule_map
  proprioception_activity = record {
    W = World setting;
    call = call setting;
    table = schedule_table setting;
    state = state_of setting;
    config = proprioception_config;
    main_of = main_of;
    name_of = schedule_name;
    call-config = by_config setting;
    call-main = λ w w' name n e. by_state setting w w' w.activity.lcsm.state name refl n e;
  }

  -- In any sequence of passes of the proprioception and of steps of the others between them,
  -- whatever these steps change except the schedules and the state of its own activity (its
  -- requests, its parameters, the clock, the sensors, the shared memory), the eventloop of the
  -- proprioception stays in step with its life cycle, if it was at first: it holds `activity_config`
  -- alone, or the schedule of the present state alone, or, in a state without a schedule, nothing.
  pub proprioception_passes-Consistent :
      (w w' : World setting)
      → Consistent schedule_map proprioception_activity w
      → Reaches schedule_map proprioception_activity
          (Elsewhere schedule_map proprioception_activity)
          w
          w'
      → Consistent schedule_map proprioception_activity w'
  proprioception_passes-Consistent w w' c r =
      Reaches-Consistent schedule_map proprioception_activity r c

  -- The registered schedule of a name.
  abbrev Registers : State → String → Type 0
  Registers s name =
      registered_as schedule_map (schedules setting) name none
      ≡ some (single_schedule name (main_of s))

  lookup_by_name : (s : State) (name : String) → schedule_name s ≡ some name → Registers s name
  unfolding schedule_name
  lookup_by_name resource_configuration name n =
      subst (Registers resource_configuration) (eq_of_some n) refl
  lookup_by_name pausing name n = subst (Registers pausing) (eq_of_some n) refl
  lookup_by_name running name n = subst (Registers running) (eq_of_some n) refl
  lookup_by_name creation name n = absurd (none-ne-some n)
  lookup_by_name capability_configuration name n = absurd (none-ne-some n)
  lookup_by_name cleaning name n = absurd (none-ne-some n)
  lookup_by_name done name n = absurd (none-ne-some n)

  complete : Complete schedule_map proprioception_activity (schedules setting)
  complete = record {
    has_names = (
      refl,
      (refl, (refl, (refl, tt))),
      (refl, (refl, (refl, tt)), (refl, (refl, tt), (refl, tt, tt))),
    );
    has_config = refl;
    has_state = lookup_by_name;
  }

  -- The activity as `..._configure` leaves it.
  abbrev pub configured_activity :
      Activity (types setting) → Table setting → Activity (types setting)
  configured_activity activity t =
      let a = configure_lcsm_activity activity tt in
      record a {
        lcsm = record (a.lcsm) { state = resource_configuration };
        lcsm_protocol = initialisation;
        schedule_table = t;
      }

  -- When nothing is registered, the configuration of the activity succeeds. The activity is in the
  -- state of the configuration of resources, and its eventloop holds `activity_config` alone, in step
  -- with that state.
  pub proprioception_configure_lem :
      (activity : Activity (types setting)) (c d : Schedule Function)
      (rest : List (Schedule Function))
      → activity.schedule_table.eventloop_schedules ≡ c ∷ d ∷ rest
      → length rest ≡ 30
      → ((j : String) → StringMap.find schedule_map activity.schedule_table.hash_map j ≡ none)
      → (t : Table setting) × (configure_lcsm setting activity
          ≡ some (configured_activity activity t))
        × Holds schedule_map proprioception_activity
            (config_schedule schedule_map proprioception_activity)
            t
  unfolding configure_lcsm register_schedules configure_lcsm_activity
  proprioception_configure_lem activity c d rest cells l free =
      let (t, started, held) =
        start_lem schedule_map proprioception_activity (schedules setting)
          activity.schedule_table.hash_map 0 c d rest complete free l in
      let step =
        >>=-eq-some
          (register_singles schedule_map (schedules setting)
            (table_of activity.schedule_table.hash_map 0 c d rest 0))
          (λ t'. add_schedule_to_eventloop schedule_map t' "activity_config") started in
      (t, rw (cells, step.1, step.2) refl, held)
