-- ===== src/Drive/Activity/Invariant.antt =====
-- The eventloop of the drive activity always fits the state of its life cycle
-- (mobile_platform_drive/src/activity/kelo_drive_activity.c).
use ecs_private.Common.{
  ◌≡◌, refl, List, [], ◌∷◌, none, some, String, length, subst, eq_of_some, none-ne-some,
  >>=-eq-some,
}
use ecs_private.Common.StringMap.{StringMap}
use ecs_private.Lcsm.{
  State, creation, resource_configuration, capability_configuration, pausing, running, cleaning,
  done,
}
use ecs_private.Schedule.{Schedule, add_schedule_to_eventloop}
use ecs_private.Activity.{Activity, initialisation, configure_lcsm_activity}
use ecs_private.Activity.Exchange.{SingleActivity, Consistent, Holds, config_schedule}
use ecs_private.Activity.Exchange.Pass.{Reaches, Elsewhere, Reaches-Consistent}
use ecs_private.Activity.Exchange.Register.{Complete, start_lem, register_singles, registered_as}
use ecs_private.Schedule.Single.{single_schedule, table_of}
use ecs_private.Drive.Activity.{
  Platform, Function, kelo_activity_config, Params, Coordination, World, types,
}
use ecs_private.Drive.Activity.Lifecycle.{
  Table, schedule_name, schedule_table, call, schedules, configure_lcsm, register_schedules,
}
use ecs_private.Drive.Activity.Exchanges.{main_of, by_state, by_config}

module _ (platform : Platform) where
  open platform use {schedule_map}

  -- The drive as an activity whose schedules have one function each.
  abbrev pub drive_activity : SingleActivity schedule_map
  drive_activity = record {
    W = World platform;
    call = call platform;
    table = schedule_table platform;
    state = λ w. w.activity.lcsm.state;
    config = kelo_activity_config;
    main_of = main_of;
    name_of = schedule_name;
    call-config = by_config platform;
    call-main = λ w w' name n e. by_state platform w w' w.activity.lcsm.state name refl n e;
  }

  -- In any sequence of passes of the drive and of steps of the others between them, whatever these
  -- steps change except the schedules and the state of the drive's own activity (its requests, its
  -- parameters, the clock, the wheels, the shared memory), the eventloop of the drive stays in step
  -- with its life cycle, if it was at first: it holds `activity_config` alone, or the schedule of
  -- the present state alone, or, in a state without a schedule, nothing.
  pub drive_passes-Consistent :
      (w w' : World platform)
      → Consistent schedule_map drive_activity w
      → Reaches schedule_map drive_activity (Elsewhere schedule_map drive_activity) w w'
      → Consistent schedule_map drive_activity w'
  drive_passes-Consistent w w' c r = Reaches-Consistent schedule_map drive_activity r c

  -- The registered schedule of a name.
  abbrev Registers : State → String → Type 0
  Registers s name =
      registered_as schedule_map (schedules platform) name none
      ≡ some (single_schedule name (main_of s))

  lookup_by_name : (s : State) (name : String) → schedule_name s ≡ some name → Registers s name
  unfolding schedule_name
  lookup_by_name creation name n = subst (Registers creation) (eq_of_some n) refl
  lookup_by_name resource_configuration name n =
      subst (Registers resource_configuration) (eq_of_some n) refl
  lookup_by_name capability_configuration name n =
      subst (Registers capability_configuration) (eq_of_some n) refl
  lookup_by_name running name n = subst (Registers running) (eq_of_some n) refl
  lookup_by_name pausing name n = absurd (none-ne-some n)
  lookup_by_name cleaning name n = absurd (none-ne-some n)
  lookup_by_name done name n = absurd (none-ne-some n)

  complete : Complete schedule_map drive_activity (schedules platform)
  complete = record {
    has_names = (
      refl,
      (refl, (refl, (refl, (refl, tt)))),
      (
        refl,
        (refl, (refl, (refl, tt))),
        (refl, (refl, (refl, tt)), (refl, (refl, tt), (refl, tt, tt))),
      ),
    );
    has_config = refl;
    has_state = lookup_by_name;
  }

  -- The activity as `..._configure` leaves it.
  abbrev pub configured_activity :
      Activity (types platform)
      → Params platform
      → Coordination platform
      → Table platform
      → Activity (types platform)
  configured_activity activity params coord t =
      let a = configure_lcsm_activity activity tt in
      record a {
        lcsm = record (a.lcsm) { state = creation };
        lcsm_protocol = initialisation;
        coordination_state = some (record coord {
          execution_request = none;
          deleting_request = none;
          configuration_request = none;
          drive_lock = none ∷ [];
        });
        params = some (record params { rt_drive = none ∷ [] });
        schedule_table = t;
      }

  -- When the memory of the activity was allocated and nothing is registered, the configuration
  -- succeeds. All pointers are null, the activity is in its first state, and its eventloop
  -- holds `activity_config` alone, in step with that state.
  pub drive_configure_lem :
      (activity : Activity (types platform)) (params : Params platform)
      (coord : Coordination platform) (c d : Schedule Function) (rest : List (Schedule Function))
      → activity.params ≡ some params
      → activity.coordination_state ≡ some coord
      → activity.schedule_table.eventloop_schedules ≡ c ∷ d ∷ rest
      → length rest ≡ 30
      → ((j : String) → StringMap.find schedule_map activity.schedule_table.hash_map j ≡ none)
      → (t : Table platform) × (configure_lcsm platform activity
          ≡ some (configured_activity activity params coord t))
        × Holds schedule_map drive_activity (config_schedule schedule_map drive_activity) t
  unfolding configure_lcsm register_schedules configure_lcsm_activity
  drive_configure_lem activity params coord c d rest p q cells l free =
      let (t, started, held) =
        start_lem schedule_map drive_activity (schedules platform) activity.schedule_table.hash_map
          0 c d rest complete free l in
      let step =
        >>=-eq-some
          (register_singles schedule_map (schedules platform)
            (table_of activity.schedule_table.hash_map 0 c d rest 0))
          (λ t'. add_schedule_to_eventloop schedule_map t' "activity_config") started in
      (t, rw (q, p, cells, step.1, step.2) refl, held)
