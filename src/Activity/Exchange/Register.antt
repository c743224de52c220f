-- ===== src/Activity/Exchange/Register.antt =====
-- The registration of schedules that have one function each, and the first `activity_config` in the
-- eventloop (five_c/src/schedule.c).
use ecs_private.Common.{
  ℕ, ◌+◌, ◌≡◌, refl, ap, ◌∙◌, List, [], ◌∷◌, Option, none, some, false, arith, length, All, ◌>>=◌,
  String, str_eq, str_take, if◌then◌else◌,
}
use ecs_private.Common.StringMap.{StringMap}
use ecs_private.Lcsm.{State}
use ecs_private.Schedule.{
  Schedule, ScheduleTable, new_schedule, register_function, register_schedule,
  add_schedule_to_eventloop,
}
use ecs_private.Schedule.Single.{table_of, single_schedule, add_only}
use ecs_private.Activity.Exchange.{SingleActivity, config_schedule, Holds}

module _ {F : Type 0} (uthash : StringMap (Schedule F)) where
  open uthash use {Map, find, add, find-add}

  -- `schedule_t s = {.number_of_functions = 0}; register_function(&s, f, activity, name);
  -- register_schedule(&activity->schedule_table, s, name);`
  unfoldable pub register_single : ScheduleTable Map F → String → F → Option (ScheduleTable Map F)
  register_single t name f = do
    s ← register_function new_schedule f name
    some (register_schedule uthash t s name)

  -- The same for one name after the other.
  unfoldable pub register_singles :
      List (String × F) → ScheduleTable Map F → Option (ScheduleTable Map F)
  unfolding register_single
  register_singles [] t = some t
  register_singles ((name, f) ∷ fs) t = do t' ← register_single t name f; register_singles fs t'

  -- The names are different, and short enough to be kept whole.
  abbrev pub HasNames : List (String × F) → Type 0
  HasNames [] = Unit
  HasNames ((name, f) ∷ fs) =
      (str_take 63 name ≡ name) × All (λ (p : String × F). str_eq name p.0 ≡ false) fs × HasNames fs

  -- What is found after the registration, where before it was `d`.
  abbrev pub registered_as : List (String × F) → String → Option (Schedule F) → Option (Schedule F)
  registered_as [] j d = d
  registered_as ((name, f) ∷ fs) j d =
      registered_as fs j (if str_eq name j then some (single_schedule name f) else d)

  abbrev pub with_schedule : ScheduleTable Map F → String → F → ScheduleTable Map F
  with_schedule t name f = record t {
    hash_map = add t.hash_map name (single_schedule name f);
    number_of_schedules = t.number_of_schedules + 1;
  }

  register_single_lem :
      (t : ScheduleTable Map F) (name : String) (f : F)
      → str_take 63 name ≡ name
      → register_single t name f ≡ some (with_schedule t name f)
  unfolding register_single register_function register_schedule
  register_single_lem t name f e = rw e refl

  still_free :
      (m : Map) (name : String) (f : F) (fs : List (String × F))
      → find m name ≡ none
      → All (λ (p : String × F). str_eq name p.0 ≡ false) fs
      → All (λ (p : String × F). find m p.0 ≡ none) fs
      → All (λ (p : String × F). find (add m name (single_schedule name f)) p.0 ≡ none) fs
  still_free m name f [] e d h = tt
  still_free m name f ((j, g) ∷ fs) e d h =
      (rw (find-add m name j (single_schedule name f) e, d.0) h.0, still_free m name f fs e d.1 h.1)

  -- Names that are new to the table are all registered.
  pub register_singles_lem :
      (fs : List (String × F)) (t : ScheduleTable Map F)
      → HasNames fs
      → All (λ (p : String × F). find t.hash_map p.0 ≡ none) fs
      → (m : Map) × (register_singles fs t
          ≡ some
              (record t { hash_map = m; number_of_schedules = t.number_of_schedules + length fs }))
        × ((j : String) → find m j ≡ registered_as fs j (find t.hash_map j))
  unfolding register_singles
  register_singles_lem [] t n h =
      (t.hash_map, ap (λ k. some (record t { number_of_schedules = k })) (omega arith), λ j. refl)
  register_singles_lem ((name, f) ∷ fs) t n h =
      let (m, done, found) =
        register_singles_lem fs (with_schedule t name f) n.2
          (still_free t.hash_map name f fs h.0 n.1 h.1) in
      (
        m,
        rw (register_single_lem t name f n.0) (
            done
            ∙ ap (λ k. some (record t { hash_map = m; number_of_schedules = k })) (omega arith)),
        λ j.
            found j
            ∙ ap (registered_as fs j) (find-add t.hash_map name j (single_schedule name f) h.0),
      )

  module _ (activity : SingleActivity uthash) where
    open activity use {config, main_of, name_of}

    -- The list has `activity_config` and the functions of all the states that have a schedule.
    pub record Complete (fs : List (String × F)) : Type 0 where
      pub has_names : HasNames fs
      pub has_config :
          registered_as fs "activity_config" none ≡ some (config_schedule uthash activity)
      pub has_state :
          (s : State) (name : String)
          → name_of s ≡ some name
          → registered_as fs name none ≡ some (single_schedule name (main_of s))

    nothing_taken :
        (m : Map) (fs : List (String × F))
        → ((j : String) → find m j ≡ none)
        → All (λ (p : String × F). find m p.0 ≡ none) fs
    nothing_taken m [] h = tt
    nothing_taken m ((j, f) ∷ fs) h = (h j, nothing_taken m fs h)

    -- From an empty table with its 32 cells, the registration and the first addition succeed, and the
    -- eventloop holds `activity_config` alone.
    pub start_lem :
        (fs : List (String × F)) (m : Map) (k : ℕ) (c d : Schedule F) (rest : List (Schedule F))
        → Complete fs
        → ((j : String) → find m j ≡ none)
        → length rest ≡ 30
        → (t : ScheduleTable Map F) × ((register_singles fs (table_of m k c d rest 0) >>= λ t'.
              add_schedule_to_eventloop uthash t' "activity_config")
            ≡ some t)
          × Holds uthash activity (config_schedule uthash activity) t
    start_lem fs m k c d rest complete free l =
        let (m', done, found) =
          register_singles_lem fs (table_of m k c d rest 0) complete.has_names
            (nothing_taken m fs free) in
        let at = λ (j : String). found j ∙ ap (registered_as fs j) (free j) in
        (
          table_of m' (k + length fs) (config_schedule uthash activity) d rest 1,
          rw done (
              add_only uthash m' (k + length fs) c d (config_schedule uthash activity) rest
                "activity_config" l (at "activity_config" ∙ complete.has_config)),
          record {
            hash_map = m';
            number = k + length fs;
            dead = d;
            rest = rest;
            registered = record {
              find_config = at "activity_config" ∙ complete.has_config;
              find_state = λ s name n. at name ∙ complete.has_state s name n;
            };
            rest_length = l;
            same = refl;
          },
        )
