-- ===== src/Navigation/Start.antt =====
-- How the navigation activity starts: `navigation_activity_configure_lcsm`
-- (navigation_template/src/activity/navigation_with_kelo_control.c).
use ecs_private.Common.{
  ℕ, ◌≡◌, refl, ◌∙◌, List, [], some, true, length, if◌then◌else◌, String, str_eq,
}
use ecs_private.Lcsm.{
  State, creation, resource_configuration, capability_configuration, pausing, running, cleaning,
  done,
}
use ecs_private.Lcsm.Refine.{machine, init_lcsm_lem}
use ecs_private.Schedule.{Schedule, register_function, register_schedule}
use ecs_private.Activity.{initialisation, Activity, configured_flags, configure_lcsm_activity}
use ecs_private.Navigation.{Platform, Function, World, navigation_types}
use ecs_private.Navigation.Lifecycle.{
  Table, schedule_table, register_all, register_named, navigation_register_schedules,
  navigation_configure_lcsm,
}
use ecs_private.Schedule.Single.{table_of, add_only}
use ecs_private.Navigation.Slots.{
  is_active, schedule_of, config_schedule, Registered, Holds, name_of,
}

module _ (platform : Platform) where
  open platform use {schedule_map}
  open schedule_map use {Map, empty, find, add, find-empty, find-add}

  m1 : Map
  m1 = add empty "activity_config" config_schedule

  m2 : Map
  m2 = add m1 "creation" (schedule_of creation)

  m3 : Map
  m3 = add m2 "resource_configuration" (schedule_of resource_configuration)

  m4 : Map
  m4 = add m3 "capability_configuration" (schedule_of capability_configuration)

  -- The hash table with the five schedules.
  m5 : Map
  m5 = add m4 "running" (schedule_of running)

  f1 :
      (j : String)
      → find m1 j ≡ (if str_eq "activity_config" j then some config_schedule else find empty j)
  unfolding m1
  f1 j = find-add empty "activity_config" j config_schedule (find-empty "activity_config")

  f2 :
      (j : String)
      → find m2 j ≡ (if str_eq "creation" j then some (schedule_of creation) else find m1 j)
  unfolding m2
  f2 j = find-add m1 "creation" j (schedule_of creation) (f1 "creation" ∙ find-empty "creation")

  f3 :
      (j : String)
      → find m3 j ≡ (
          if str_eq "resource_configuration" j
          then some (schedule_of resource_configuration)
          else find m2 j)
  unfolding m3
  f3 j = find-add m2 "resource_configuration" j (schedule_of resource_configuration) (
      f2 "resource_configuration"
      ∙ f1 "resource_configuration"
      ∙ find-empty "resource_configuration")

  f4 :
      (j : String)
      → find m4 j ≡ (
          if str_eq "capability_configuration" j
          then some (schedule_of capability_configuration)
          else find m3 j)
  unfolding m4
  f4 j =
      let k : String = "capability_configuration" in
      find-add m3 k j (schedule_of capability_configuration) (f3 k ∙ f2 k ∙ f1 k ∙ find-empty k)

  f5 :
      (j : String)
      → find m5 j ≡ (if str_eq "running" j then some (schedule_of running) else find m4 j)
  unfolding m5
  f5 j =
      let k : String = "running" in
      find-add m4 k j (schedule_of running) (f4 k ∙ f3 k ∙ f2 k ∙ f1 k ∙ find-empty k)

  find_state_m5 : (s : State) → is_active s ≡ true → find m5 (name_of s) ≡ some (schedule_of s)
  find_state_m5 creation a = f5 "creation" ∙ f4 "creation" ∙ f3 "creation" ∙ f2 "creation"
  find_state_m5 resource_configuration a =
      f5 "resource_configuration" ∙ f4 "resource_configuration" ∙ f3 "resource_configuration"
  find_state_m5 capability_configuration a =
      f5 "capability_configuration" ∙ f4 "capability_configuration"
  find_state_m5 pausing a = cc
  find_state_m5 running a = f5 "running"
  find_state_m5 cleaning a = cc
  find_state_m5 done a = cc

  m5-Registered : Registered platform m5
  m5-Registered = record {
    find_config = (let k : String = "activity_config" in f5 k ∙ f4 k ∙ f3 k ∙ f2 k ∙ f1 k);
    find_state = find_state_m5;
  }

  -- A table of schedules as it is before anything is registered.
  abbrev pub blank :
      Schedule Function → Schedule Function → List (Schedule Function) → Table platform
  blank c d rest = table_of empty 0 c d rest 0

  register_schedules_lem :
      (c d : Schedule Function) (rest : List (Schedule Function))
      → navigation_register_schedules platform (blank c d rest) ≡ some (table_of m5 5 c d rest 0)
  unfolding navigation_register_schedules register_named register_all register_function
      register_schedule m1 m2 m3 m4 m5
  register_schedules_lem c d rest = refl

  -- On an activity whose table of schedules was empty, and had its 32 cells, the configuration
  -- succeeds. The activity is in the first state, without pending events; the five schedules are
  -- found under their names; and the eventloop holds `activity_config` alone.
  pub configure_lcsm_lem :
      (w : World platform) (k n : ℕ) (c d : Schedule Function) (rest : List (Schedule Function))
      → schedule_table platform w ≡ table_of empty k c d rest n
      → length rest ≡ 30
      → (activity : Activity (navigation_types platform)) × (navigation_configure_lcsm platform
            w.activity
          ≡ some activity)
        × (activity.lcsm ≡ machine creation [])
        × (activity.lcsm_protocol ≡ initialisation)
        × Holds platform config_schedule (record w { activity = activity })
  unfolding navigation_configure_lcsm configure_lcsm_activity
  configure_lcsm_lem w k n c d rest e l = (
    record (w.activity) {
      lcsm = machine creation [];
      lcsm_flags = configured_flags w.activity.lcsm_flags;
      lcsm_protocol = initialisation;
      schedule_table = table_of m5 5 config_schedule d rest 1;
      table = some tt;
    },
    rw
        (
          e,
          init_lcsm_lem,
          register_schedules_lem c d rest,
          add_only schedule_map m5 5 c d config_schedule rest "activity_config" l
              m5-Registered.find_config,
        )
        refl,
    refl,
    refl,
    record {
      hash_map = m5;
      number = 5;
      dead = d;
      rest = rest;
      registered = m5-Registered;
      rest_length = l;
      same = refl;
    },
  )
