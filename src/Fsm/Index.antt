-- ===== src/Fsm/Index.antt =====
-- `init_fsm` (FSM.c) gives each state the index of its own transitions, in table order.
use mathlib.Core.List.{map-append}
use ecs_private.Common.{
  ℕ, suc, ◌+◌, ◌<◌, ◌≤◌, ◌≡◌, ◌≢◌, refl, sym, ap, ◌∙◌, inl, inr, List, [], ◌∷◌, ◌++◌, map, Option,
  none, some, true, false, arith, length, set, replicate, tabulate, All, ◌==◌, if◌then◌else◌,
  Bool-cases, length-append, length-map, append_assoc, append-nil, get_elem?-append, set-append,
  get_elem?-tabulate, set-tabulate, map-tabulate, tabulate-congr, replicate-eq-tabulate, lt→ltb,
}
use ecs_private.Fsm.{
  Entry, Configuration, IndexTable, store, count_loop, allocate, fill_loop, make_index,
}

-- What a configuration has to satisfy: the table is as long as it says, and every number in it is
-- the number of a state.
pub record IsValid (c : Configuration) : Type 0 where
  pub table_length : c.number_of_transitions ≡ length c.entries
  pub sources : All (λ t. t.state1 < c.number_of_states) c.entries
  pub targets : All (λ t. t.state2 < c.number_of_states) c.entries
  pub default_in : c.default_state < c.number_of_states
  pub state_names_length : c.number_of_states ≤ length c.state_names
  pub event_names_length : c.number_of_events ≤ length c.event_names

-- The indices of the transitions that leave `s`, in table order; `i` is the index of the first.
unfoldable pub positions : ℕ → List Entry → ℕ → List ℕ
positions s [] i = []
positions s (t ∷ ts) i =
    let rest = positions s ts (i + 1) in if t.state1 == s then i ∷ rest else rest

eq_self : (n : ℕ) → (n == n) ≡ true
eq_self n = ground arith

==_ne : {m n : ℕ} → n ≢ m → (m == n) ≡ false
==_ne h = ground arith

abbrev counted : ℕ → IndexTable
counted n = record { pointers = []; number_of_transitions = n }

-- An index that holds `ps` and has room for `n` more.
abbrev pub bucket : List ℕ → ℕ → IndexTable
bucket ps n = record {
  pointers = map some ps ++ replicate n none;
  number_of_transitions = length ps;
}

count_loop_lem :
    (states : ℕ) (pre ts : List Entry) (n : ℕ → ℕ)
    → All (λ t. t.state1 < states) ts
    → count_loop (pre ++ ts) (length ts) (length pre) (tabulate states (λ s. counted (n s)))
      ≡ some (tabulate states (λ s. counted (n s + length (positions s ts (length pre)))))
unfolding count_loop positions
count_loop_lem states pre [] n h =
    ap some (tabulate-congr states _ _ (λ s lt. ap counted (omega arith)))
count_loop_lem states pre (t ∷ ts) n h =
    rw
      (
        get_elem?-append t pre ts,
        get_elem?-tabulate states (λ s. counted (n s)) t.state1 h.0,
        set-tabulate states (λ s. counted (n s)) (λ s. counted (n' s)) t.state1
            (counted (n t.state1 + 1)) (ground arith) (λ s ne. ground arith),
      )
      (simp (append_assoc, length-append {0}) at (count_loop_lem states (pre ++ t ∷ []) ts n' h.1)
        ∙ ap some (tabulate-congr states _ _ (λ s lt. ap counted (ground arith))))
  where
    n' : ℕ → ℕ
    n' s = if t.state1 == s then n s + 1 else n s

store-bucket :
    (ps : List ℕ) (k i : ℕ) → store (bucket ps (suc k)) i ≡ some (bucket (ps ++ i ∷ []) k)
unfolding store
store-bucket ps k i = rw (lt→ltb _ _ room, written, counts) refl
  where
    lengths : length (map {B = Option ℕ} some ps) ≡ length ps
    lengths = length-map ps some

    room : length ps < length (map some ps ++ replicate (suc k) none)
    room = omega (arith, length-append (map some ps) (replicate (suc k) none), lengths)

    written :
        set (map some ps ++ replicate (suc k) none) (length ps) (some i)
        ≡ map some (ps ++ i ∷ []) ++ replicate k none
    written =
        rw (← lengths, set-append (some i) none (map some ps) (replicate k none), map-append)
          (sym (append_assoc (map some ps) (some i ∷ []) (replicate k none)))

    counts : length ps + 1 ≡ length (ps ++ i ∷ [])
    counts = sym (length-append ps (i ∷ []))

fill_loop_lem :
    (states : ℕ) (pre ts : List Entry) (ps : ℕ → List ℕ)
    → All (λ t. t.state1 < states) ts
    → fill_loop
        (pre ++ ts)
        (length ts)
        (length pre)
        (tabulate states (λ s. bucket (ps s) (length (positions s ts (length pre)))))
      ≡ some (tabulate states (λ s. bucket (ps s ++ positions s ts (length pre)) 0))
unfolding fill_loop positions
fill_loop_lem states pre [] ps h =
    ap some (tabulate-congr states _ _ (λ s lt. ap (λ l. bucket l 0) (sym (append-nil (ps s)))))
fill_loop_lem states pre (t ∷ ts) ps h =
    rw
      (
        get_elem?-append t pre ts,
        get_elem?-tabulate states before t.state1 h.0,
        eq_self t.state1,
        store-bucket (ps t.state1) (length (positions t.state1 ts (length pre + 1))) (length pre),
        set-tabulate states before after t.state1
            (bucket (ps t.state1 ++ length pre ∷ [])
              (length (positions t.state1 ts (length pre + 1))))
            (rw (eq_self t.state1) refl) (λ s ne. rw (==_ne ne) refl),
      )
      (simp (append_assoc, length-append {0}) at (fill_loop_lem states (pre ++ t ∷ []) ts ps' h.1)
        ∙ ap some (tabulate-congr states _ _ (λ s lt. full s)))
  where
    ps' : ℕ → List ℕ
    ps' s = if t.state1 == s then ps s ++ length pre ∷ [] else ps s

    before : ℕ → IndexTable
    before s = bucket (ps s) (length (positions s (t ∷ ts) (length pre)))

    after : ℕ → IndexTable
    after s = bucket (ps' s) (length (positions s ts (length pre + 1)))

    rest : ℕ → List ℕ
    rest s = positions s ts (length pre + 1)

    full :
        (s : ℕ)
        → record {
          pointers = map some (ps' s ++ rest s) ++ [];
          number_of_transitions = length (ps' s) + length (rest s);
        }
          ≡ bucket (ps s ++ positions s (t ∷ ts) (length pre)) 0
    full s = elim (Bool-cases (t.state1 == s)) [
      | inl same ↦ rw (same, ← length-append (ps s ++ length pre ∷ []) (rest s), append_assoc) refl
      | inr other ↦ rw (other, length-append (ps s) (rest s)) refl
    ]

-- The finished index: for each state the pointers to its transitions, in table order.
abbrev pub index_of : Configuration → List IndexTable
index_of c = tabulate c.number_of_states (λ s. bucket (positions s c.entries 0) 0)

-- For a valid configuration `init_fsm` makes this index: it never writes outside an allocation, and
-- no pointer is missing from it.
pub make_index_lem : (c : Configuration) → IsValid c → make_index c ≡ some (index_of c)
unfolding make_index allocate
make_index_lem c v =
    rw
      (
        v.table_length,
        replicate-eq-tabulate c.number_of_states (counted 0),
        count_loop_lem c.number_of_states [] c.entries (λ _. 0) v.sources,
        map-tabulate allocate c.number_of_states
            (λ s. counted (0 + length (positions s c.entries 0))),
      )
      (ap (fill_loop c.entries (length c.entries) 0) (
          tabulate-congr c.number_of_states _ (λ s. bucket [] (length (positions s c.entries 0)))
            (λ s lt. ap (bucket []) {x = 0 + length (positions s c.entries 0)} (omega arith)))
        ∙ fill_loop_lem c.number_of_states [] c.entries (λ _. []) v.sources)
