-- ===== src/Navigation/Slots.antt =====
-- The eventloop of the navigation activity holds one schedule, which its functions exchange
-- (navigation_template/src/activity/navigation_with_kelo_control.c).
use ecs_private.Common.{
  ℕ, ◌≡◌, refl, List, [], ◌∷◌, ◌++◌, Option, none, some, Bool, true, false, arith, length,
  replicate, String, str_eq,
}
use ecs_private.Lcsm.{State, creation, resource_configuration, capability_configuration, running}
use ecs_private.Schedule.{NamedFunction, Schedule, add_schedule_to_eventloop}
use ecs_private.Schedule.Single.{table_of, remove_only, remove_first, add_second, add_only}
use ecs_private.Navigation.{
  Platform, Function, activity_config, creation_coordinate, creation_configure, creation_compute,
  resource_configuration_coordinate, resource_configuration_configure,
  resource_configuration_compute, capability_configuration_coordinate,
  capability_configuration_configure, capability_configuration_compute,
  running_communicate_sensor_and_estimation, running_coordinate, running_configure, running_compute,
  running_communicate_control, running_logging, World,
}
use ecs_private.Navigation.Lifecycle.{
  Table, schedule_table, set_schedule_table, add_schedule_of, navigation_activity_config, leave,
}

-- The cells of functions that are registered under one name.
abbrev pub cells : String → List Function → List (Option (NamedFunction Function))
cells name [] = []
cells name (f ∷ fs) = some (record { name = name; function = f }) ∷ cells name fs

-- The states that have a schedule.
abbrev pub is_active : State → Bool
is_active creation = true
is_active resource_configuration = true
is_active capability_configuration = true
is_active running = true
is_active _ = false

-- The name of the schedule of a state, and its functions: the ones before that of the configuration,
-- that one, and the ones behind it.
abbrev pub name_of : State → String
name_of creation = "creation"
name_of resource_configuration = "resource_configuration"
name_of capability_configuration = "capability_configuration"
name_of running = "running"
name_of _ = ""

-- The first function of the schedule of a state.
abbrev pub first_of : State → Function
first_of resource_configuration = resource_configuration_compute
first_of capability_configuration = capability_configuration_compute
first_of running = running_communicate_sensor_and_estimation
first_of _ = creation_compute

-- The second.
abbrev pub coordinate_of : State → Function
coordinate_of resource_configuration = resource_configuration_coordinate
coordinate_of capability_configuration = capability_configuration_coordinate
coordinate_of running = running_coordinate
coordinate_of _ = creation_coordinate

-- The third, which may exchange the schedule.
abbrev pub configure_of : State → Function
configure_of resource_configuration = resource_configuration_configure
configure_of capability_configuration = capability_configuration_configure
configure_of running = running_configure
configure_of _ = creation_configure

-- The others.
abbrev pub post_of : State → List Function
post_of running = running_compute ∷ running_communicate_control ∷ running_logging ∷ []
post_of _ = []

abbrev pub functions_of : State → List Function
functions_of s = first_of s ∷ coordinate_of s ∷ configure_of s ∷ post_of s

abbrev pub unused_of : State → ℕ
unused_of running = 10
unused_of _ = 13

-- The schedule of a state.
abbrev pub schedule_of : State → Schedule Function
schedule_of s = record {
  name = name_of s;
  named_functions = cells (name_of s) (functions_of s) ++ replicate (unused_of s) none;
  number_of_functions = length (functions_of s);
}

abbrev pub config_schedule : Schedule Function
config_schedule = record {
  name = "activity_config";
  named_functions = cells "activity_config" (activity_config ∷ []) ++ replicate 15 none;
  number_of_functions = 1;
}

module _ (platform : Platform) where
  open platform use {schedule_map}
  open schedule_map use {Map, find}

  -- All five schedules are found under their names.
  pub record Registered (m : Map) : Type 0 where
    pub find_config : find m "activity_config" ≡ some config_schedule
    pub find_state : (s : State) → is_active s ≡ true → find m (name_of s) ≡ some (schedule_of s)

  -- The eventloop holds `c` alone.
  pub record Holds (c : Schedule Function) (w : World platform) : Type 0 where
    pub hash_map : Map
    pub number : ℕ
    pub dead : Schedule Function
    pub rest : List (Schedule Function)
    pub registered : Registered hash_map
    pub rest_length : length rest ≡ 30
    pub same : schedule_table platform w ≡ table_of hash_map number c dead rest 1

  -- The world after `leave`.
  abbrev pub left_world : (x : Schedule Function) (w : World platform) → Holds x w → World platform
  left_world x w h =
      set_schedule_table platform w
        (table_of h.hash_map h.number config_schedule config_schedule h.rest 1)

  pub leave_lem :
      (x : Schedule Function) (w : World platform) (h : Holds x w) (name : String)
      → str_eq x.name name ≡ true
      → leave platform name w ≡ some (left_world x w h)
  unfolding leave
  leave_lem x w h name e =
      rw
        (
          h.same,
          add_second schedule_map h.hash_map h.number x h.dead config_schedule h.rest
              "activity_config" h.rest_length h.registered.find_config,
          remove_first h.hash_map h.number x config_schedule h.rest name e,
        )
        refl

  pub left_world-Holds :
      (x : Schedule Function) (w : World platform) (h : Holds x w)
      → Holds config_schedule (left_world x w h)
  left_world-Holds x w h = record {
    hash_map = h.hash_map;
    number = h.number;
    dead = config_schedule;
    rest = h.rest;
    registered = h.registered;
    rest_length = h.rest_length;
    same = refl;
  }

  -- The world after `activity_config` in a state that has a schedule.
  abbrev pub installed : (w : World platform) → Holds config_schedule w → World platform
  installed w h =
      set_schedule_table platform w
        (table_of h.hash_map h.number (schedule_of w.activity.lcsm.state) h.dead h.rest 1)

  add_of_active :
      (s : State) (t : Table platform)
      → is_active s ≡ true
      → add_schedule_of platform s t ≡ add_schedule_to_eventloop schedule_map t (name_of s)
  unfolding add_schedule_of
  add_of_active s t e = ground arith

  add_of_inactive :
      (s : State) (t : Table platform) → is_active s ≡ false → add_schedule_of platform s t ≡ some t
  unfolding add_schedule_of
  add_of_inactive s t e = ground arith

  pub config_active :
      (w : World platform) (h : Holds config_schedule w)
      → is_active w.activity.lcsm.state ≡ true
      → navigation_activity_config platform w ≡ some (installed w h)
  unfolding navigation_activity_config
  config_active w h active =
      rw
        (
          h.same,
          remove_only h.hash_map h.number config_schedule h.dead h.rest "activity_config" refl,
          add_of_active w.activity.lcsm.state
              (table_of h.hash_map h.number config_schedule h.dead h.rest 0) active,
          add_only schedule_map h.hash_map h.number config_schedule h.dead
              (schedule_of w.activity.lcsm.state) h.rest (name_of w.activity.lcsm.state)
              h.rest_length (h.registered.find_state w.activity.lcsm.state active),
        )
        refl

  pub installed-Holds :
      (w : World platform) (h : Holds config_schedule w)
      → Holds (schedule_of w.activity.lcsm.state) (installed w h)
  installed-Holds w h = record {
    hash_map = h.hash_map;
    number = h.number;
    dead = h.dead;
    rest = h.rest;
    registered = h.registered;
    rest_length = h.rest_length;
    same = refl;
  }

  -- The world after `activity_config` in another state: the eventloop is empty.
  abbrev pub emptied : (w : World platform) → Holds config_schedule w → World platform
  emptied w h =
      set_schedule_table platform w (table_of h.hash_map h.number config_schedule h.dead h.rest 0)

  pub config_inactive :
      (w : World platform) (h : Holds config_schedule w)
      → is_active w.activity.lcsm.state ≡ false
      → navigation_activity_config platform w ≡ some (emptied w h)
  unfolding navigation_activity_config
  config_inactive w h inactive =
      rw
        (
          h.same,
          remove_only h.hash_map h.number config_schedule h.dead h.rest "activity_config" refl,
          add_of_inactive w.activity.lcsm.state
              (table_of h.hash_map h.number config_schedule h.dead h.rest 0) inactive,
        )
        refl
