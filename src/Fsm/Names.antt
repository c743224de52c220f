-- ===== src/Fsm/Names.antt =====
-- The tables of names that `init_fsm` (FSM.c) makes, and the events that are fired by name.
use ecs_private.Common.{
  ℕ, zero, suc, ◌+◌, ◌<◌, ◌≤◌, ◌≡◌, refl, sym, ap, ◌∙◌, inl, inr, List, [], ◌∷◌, ◌++◌, Option, none,
  some, true, false, arith, length, get_elem?, replicate, All, if◌then◌else◌, Bool-cases,
  length-append, append_assoc, get_elem?-append, take, drop, take-append-drop, length-take, String,
  subst, All-get_elem?, eq_of_some, str_eq, characters, str_take, eq_iff,
}
use ecs_private.Common.StringMap.{StringMap}
use ecs_private.Fsm.{
  Configuration, Fsm, max_length_fsm_event_queue, add_event_fsm_int, index_lookup,
  new_string_index_entry, create_index_loop, create_index_hash_table, add_event_fsm, init_fsm,
}
use ecs_private.Fsm.Index.{IsValid, index_of, make_index_lem}
use ecs_private.Fsm.Update.{IsReady, pending}

-- The number under which the names, cut to 31 characters, have the key; `i` is that of the first.
abbrev pub number_of : List String → ℕ → String → Option ℕ
number_of [] i k = none
number_of (n ∷ ns) i k = if str_eq (str_take 31 n) k then some i else number_of ns (i + 1) k

-- No two names agree in their first 31 characters.
abbrev pub Distinct : List String → Type 0
Distinct [] = Unit
Distinct (n ∷ ns) = All (λ j. str_eq (str_take 31 n) (str_take 31 j) ≡ false) ns × Distinct ns

abbrev or_else {ℓ} : {A : Type ℓ} → Option A → Option A → Option A
or_else (some a) o = some a
or_else none o = o

module _ (uthash : StringMap ℕ) where
  open uthash use {Map, empty, find, add, find-empty, find-add}

  Fresh : Map → List String → Type 0
  Fresh m ns = All (λ j. find m (str_take 31 j) ≡ none) ns

or_else-none {ℓ} : {A : Type ℓ} (o : Option A) → or_else o none ≡ o
or_else-none none = refl
or_else-none (some a) = refl

characters-str_take : (n : ℕ) (s : String) → characters (str_take n s) ≤ n
characters-str_take zero s = omega arith
characters-str_take (suc n) String.[] = omega arith
characters-str_take (suc n) (String.◌∷◌ c s) = omega (arith, characters-str_take n s)

str_take_all : (n : ℕ) (s : String) → characters s ≤ n → str_take n s ≡ s
str_take_all zero String.[] h = refl
str_take_all zero (String.◌∷◌ c s) h = absurd (omega arith)
str_take_all (suc n) String.[] h = refl
str_take_all (suc n) (String.◌∷◌ c s) h = ap (String.◌∷◌ c) (str_take_all n s (omega arith))

-- A name of more than 31 characters is the key of no entry.
number_of-long :
    (ns : List String) (i : ℕ) (k : String) → 31 < characters k → number_of ns i k ≡ none
number_of-long [] i k h = refl
number_of-long (n ∷ ns) i k h = elim (Bool-cases (str_eq (str_take 31 n) k)) [
  | inl same ↦
      absurd
        (omega (arith, characters-str_take 31 n, ap characters ((eq_iff (str_take 31 n) k).0 same)))
  | inr other ↦ rw other (number_of-long ns (i + 1) k h)
]

-- A name of at most 31 characters has its place for its number.
number_of-get_elem? :
    (ns : List String) (i j : ℕ) (k : String)
    → Distinct ns
    → get_elem? ns j ≡ some k
    → characters k ≤ 31
    → number_of ns i k ≡ some (i + j)
number_of-get_elem? [] i j k d e h = cc
number_of-get_elem? (n ∷ ns) i zero k d e h =
    let same : n ≡ k = eq_of_some e in
    rw ((eq_iff (str_take 31 n) k).1 (rw same (str_take_all 31 k h))) (ap some (omega arith))
number_of-get_elem? (n ∷ ns) i (suc j) k d e h =
    rw
      (rw (str_take_all 31 k h) at
        (All-get_elem? (λ m. str_eq (str_take 31 n) (str_take 31 m) ≡ false) ns j d.0 e))
      (number_of-get_elem? ns (i + 1) j k d.1 e h ∙ ap some (omega arith))

number_of-absent :
    (a k : String) (ns : List String) (i : ℕ)
    → All (λ j. str_eq a (str_take 31 j) ≡ false) ns
    → str_eq a k ≡ true
    → number_of ns i k ≡ none
number_of-absent a k [] i h e = refl
number_of-absent a k (n ∷ ns) i h e = ground (
  arith,
  eq_iff a k,
  eq_iff a (str_take 31 n),
  eq_iff (str_take 31 n) k,
  number_of-absent a k ns (i + 1) h.1 e,
)

module _ (uthash : StringMap ℕ) where
  open uthash use {Map, empty, find, add, find-empty, find-add}

  Fresh-add :
      (m : Map) (a : String) (i : ℕ) (ns : List String)
      → find m a ≡ none
      → All (λ j. str_eq a (str_take 31 j) ≡ false) ns
      → Fresh uthash m ns
      → Fresh uthash (add m a i) ns
  unfolding Fresh
  Fresh-add m a i [] e h f = tt
  Fresh-add m a i (n ∷ ns) e h f =
      (rw (find-add m a (str_take 31 n) i e, h.0) f.0, Fresh-add m a i ns e h.1 f.1)

  create_index_loop_lem :
      (pre ns rest : List String) (m : Map)
      → Distinct ns
      → Fresh uthash m ns
      → (m' : Map) × (create_index_loop uthash (pre ++ (ns ++ rest)) (length ns) (length pre) m
          ≡ some m')
        × ((k : String) → find m' k ≡ or_else (number_of ns (length pre) k) (find m k))
  unfolding create_index_loop new_string_index_entry Fresh
  create_index_loop_lem pre [] rest m d f = (m, refl, λ k. refl)
  create_index_loop_lem pre (n ∷ ns) rest m d f =
      let a : String = str_take 31 n in
      let i : ℕ = length pre in
      let ih =
        create_index_loop_lem (pre ++ n ∷ []) ns rest (add m a i) d.1
          (Fresh-add m a i ns f.0 d.0 f.1) in
      (
        ih.0,
        rw (get_elem?-append n pre (ns ++ rest)) (simp (append_assoc, length-append {0}) at ih.1),
        λ k. elim (Bool-cases (str_eq a k)) [
          | inl same ↦
              rw (same, ih.2 k, find-add m a k i f.0, same, number_of-absent a k ns _ d.0 same) refl
          | inr other ↦
              rw (other, ih.2 k, find-add m a k i f.0, other, length-append pre (n ∷ [])) refl
        ],
      )

  Fresh-empty : (ns : List String) → Fresh uthash empty ns
  unfolding Fresh
  Fresh-empty [] = tt
  Fresh-empty (n ∷ ns) = (find-empty (str_take 31 n), Fresh-empty ns)

  -- From an empty table, with names that differ in their first 31 characters: every name is found,
  -- under those characters, with its place in the array, and nothing else is.
  pub create_index_hash_table_lem :
      (ns : List String) (n : ℕ)
      → n ≤ length ns
      → Distinct (take n ns)
      → (m : Map) × (create_index_hash_table uthash empty ns n ≡ some m)
        × ((k : String) → find m k ≡ number_of (take n ns) 0 k)
  unfolding create_index_hash_table
  create_index_hash_table_lem ns n h d =
      let r = create_index_loop_lem [] (take n ns) (drop n ns) empty d (Fresh-empty (take n ns)) in
      (
        r.0,
        rw (take-append-drop n ns, length-take n ns h) at r.1,
        λ k. r.2 k ∙ rw (find-empty k) (or_else-none (number_of (take n ns) 0 k)),
      )

  -- What a configuration needs besides, for the two tables of names.
  pub record HasNames (c : Configuration) : Type 0 where
    pub distinct_states : Distinct (take c.number_of_states c.state_names)
    pub distinct_events : Distinct (take c.number_of_events c.event_names)

  -- `init_fsm` comes to an end on every valid configuration in which no two names of states, and no
  -- two names of events, agree in their first 31 characters, with no read or write out of bounds. The
  -- machine is ready, in its default state, with no event waiting; and the table of events has each
  -- name, cut to 31 characters, under its number, and nothing else.
  pub init_fsm_lem :
      (c : Configuration)
      → IsValid c
      → HasNames c
      → (fsm : Fsm Map) × (init_fsm uthash c ≡ some fsm)
        × IsReady fsm
        × (fsm.fsm_configuration ≡ c)
        × (fsm.state ≡ c.default_state)
        × (pending fsm ≡ [])
        × ((k : String)
            → find fsm.event_names k ≡ number_of (take c.number_of_events c.event_names) 0 k)
  unfolding init_fsm
  init_fsm_lem c v names =
      let states =
        create_index_hash_table_lem c.state_names c.number_of_states v.state_names_length
          names.distinct_states in
      let events =
        create_index_hash_table_lem c.event_names c.number_of_events v.event_names_length
          names.distinct_events in
      let fsm : Fsm Map = record {
        state = c.default_state;
        event_queue = replicate max_length_fsm_event_queue 0;
        number_of_events = 0;
        fsm_configuration = c;
        state_entries = index_of c;
        state_names = states.0;
        event_names = events.0;
      } in
      (
        fsm,
        rw (make_index_lem c v, states.1, events.1) refl,
        record {
          configured = v;
          indexed = refl;
          state_in = v.default_in;
          queue_length = refl;
          events_in = omega arith;
        },
        refl,
        refl,
        refl,
        events.2,
      )

  event_table :
      (c : Configuration) {fsm : Fsm Map}
      → IsValid c
      → HasNames c
      → init_fsm uthash c ≡ some fsm
      → (k : String)
      → find fsm.event_names k ≡ number_of (take c.number_of_events c.event_names) 0 k
  event_table c v names e k =
      let r = init_fsm_lem c v names in
      subst (λ f. find f.event_names k ≡ number_of (take c.number_of_events c.event_names) 0 k)
        (eq_of_some (sym r.1 ∙ e)) (r.6 k)

  -- In a valid configuration in which no two names of states, and no two names of events, agree in
  -- their first 31 characters, after `init_fsm` the name of an event that has at most 31 characters
  -- fires the event that is its place in the array.
  pub add_event_fsm_by_name :
      (c : Configuration) (i : ℕ) (name : String) {fsm : Fsm Map}
      → IsValid c
      → HasNames c
      → init_fsm uthash c ≡ some fsm
      → get_elem? (take c.number_of_events c.event_names) i ≡ some name
      → characters name ≤ 31
      → add_event_fsm uthash fsm name ≡ some (add_event_fsm_int fsm i)
  unfolding add_event_fsm index_lookup
  add_event_fsm_by_name c i name {fsm} v names e at_i short = rw found refl
    where
      spec :
          (k : String)
          → find fsm.event_names k ≡ number_of (take c.number_of_events c.event_names) 0 k
      spec = event_table c v names e

      found : find fsm.event_names name ≡ some i
      found =
          spec name
          ∙ number_of-get_elem? (take c.number_of_events c.event_names) 0 i name
              names.distinct_events at_i short
          ∙ ap some (omega arith)

  -- A name of more than 31 characters is cut off when it is stored and is not when it is fired: the
  -- code then reads through a null pointer, whether or not the configuration has the name.
  pub add_event_fsm_long_name :
      (c : Configuration) (name : String) {fsm : Fsm Map}
      → IsValid c
      → HasNames c
      → init_fsm uthash c ≡ some fsm
      → 31 < characters name
      → add_event_fsm uthash fsm name ≡ none
  unfolding add_event_fsm index_lookup
  add_event_fsm_long_name c name {fsm} v names e long = rw missing refl
    where
      missing : find fsm.event_names name ≡ none
      missing =
          event_table c v names e name
          ∙ number_of-long (take c.number_of_events c.event_names) 0 name long
