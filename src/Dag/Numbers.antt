-- ===== src/Dag/Numbers.antt =====
-- The edges of a vertex are numbered in the order in which they were made
-- (coordination_libraries/src/DAG.c).
use ecs_private.Common.{
  ℕ, zero, suc, ◌+◌, ◌≤◌, ◌<◌, ◌≡◌, refl, sym, ap, ◌∙◌, List, [], ◌∷◌, ◌++◌, Option, some, true,
  false, ◌==◌, ltb, length, get_elem?, ◌>>=◌, arith, append_assoc, append-nil, length-append,
  ==_iff, none-ne-some, eq_of_some, ap₂,
}
use ecs_private.Dag.{
  Edge, is_edge, Cgraph, print_number, edge_loop, get_number_of_outgoing_edges,
  create_connection_vertices, get_outgoing_edge_by_number,
}

-- Edges to the vertices, with numbers that go up.
unfoldable pub numbered : ℕ → List ℕ → List Edge
numbered k [] = []
numbered k (c ∷ cs) = record { name = k; head = c } ∷ numbered (suc k) cs

numbered-snoc :
    (k : ℕ) (ds : List ℕ) (c : ℕ)
    → numbered k (ds ++ c ∷ []) ≡ numbered k ds ++ record { name = k + length ds; head = c } ∷ []
unfolding numbered
numbered-snoc k [] c = ap (λ n. record { name = n; head = c } ∷ []) (omega arith)
numbered-snoc k (d ∷ ds) c = ap (record { name = k; head = d } ∷◌) (
    numbered-snoc (suc k) ds c
    ∙ ap (λ n. numbered (suc k) ds ++ record { name = n; head = c } ∷ []) (omega arith))

length-numbered : (k : ℕ) (ds : List ℕ) → length (numbered k ds) ≡ length ds
unfolding numbered
length-numbered k [] = refl
length-numbered k (d ∷ ds) = ap suc (length-numbered (suc k) ds)

-- A number past the end is the name of no edge.
fresh :
    (k : ℕ) (ds : List ℕ) (child n : ℕ)
    → k + length ds ≤ n
    → is_edge (numbered k ds) child n ≡ false
unfolding numbered is_edge
fresh k [] child n h = refl
fresh k (d ∷ ds) child n h =
    let ih = fresh (suc k) ds child n (omega (arith, h)) in ground (arith, ih, h)

get_elem?-bound : (ds : List ℕ) (i c : ℕ) → get_elem? ds i ≡ some c → i < length ds
get_elem?-bound [] i c e = absurd (none-ne-some e)
get_elem?-bound (d ∷ ds) zero c e = omega arith
get_elem?-bound (d ∷ ds) (suc i) c e = omega (arith, get_elem?-bound ds i c e)

find_number :
    (k : ℕ) (ds : List ℕ) (i n c : ℕ)
    → n ≡ k + i
    → get_elem? ds i ≡ some c
    → edge_loop (numbered k ds) n ≡ some (record { name = n; head = c })
unfolding numbered edge_loop
find_number k [] i n c h e = absurd (none-ne-some e)
find_number k (d ∷ ds) zero n c h e =
    rw found (ap₂ (λ a b. some (record { name = a; head = b })) (omega (arith, h)) (eq_of_some e))
  where
    found : (k == n) ≡ true
    found = ground (arith, h)
find_number k (d ∷ ds) (suc i) n c h e =
    rw other (find_number (suc k) ds i n c (omega (arith, h)) e)
  where
    other : (k == n) ≡ false
    other = ground (arith, h)

module _ (cgraph : Cgraph) where
  open cgraph use {G, out, agedge, out-agedge}

  -- Edges are made from a vertex to one vertex after the other.
  unfoldable pub connect : G → ℕ → List ℕ → Option G
  connect g parent [] = some g
  connect g parent (c ∷ cs) = do
    g' ← create_connection_vertices cgraph g parent c
    connect g' parent cs

  -- One more edge has the next number.
  create_numbered :
      (g : G) (parent child : ℕ) (ds : List ℕ)
      → out g parent ≡ numbered 0 ds
      → length ds < 10000000
      → (g' : G) × (create_connection_vertices cgraph g parent child ≡ some g')
        × (out g' parent ≡ numbered 0 (ds ++ child ∷ []))
  unfolding create_connection_vertices get_number_of_outgoing_edges print_number
  create_numbered g parent child ds e h =
      (agedge g parent child (length ds), rw (count, small) refl, made)
    where
      count : length (out g parent) ≡ length ds
      count = ap length e ∙ length-numbered 0 ds

      small : ltb (length ds) 10000000 ≡ true
      small = ground (arith, h)

      made : out (agedge g parent child (length ds)) parent ≡ numbered 0 (ds ++ child ∷ [])
      made =
          out-agedge g parent child (length ds) parent
            (rw e (fresh 0 ds child (length ds) (omega arith)))
          ∙ rw ((==_iff parent parent).1 refl, e, numbered-snoc 0 ds child)
              (ap (λ n. numbered 0 ds ++ record { name = n; head = child } ∷ []) (omega arith))

  connect-numbered :
      (g : G) (parent : ℕ) (ds cs : List ℕ)
      → out g parent ≡ numbered 0 ds
      → length ds + length cs ≤ 10000000
      → (g' : G) × (connect g parent cs ≡ some g') × (out g' parent ≡ numbered 0 (ds ++ cs))
  unfolding connect
  connect-numbered g parent ds [] e h = (g, refl, e ∙ ap (numbered 0) (sym (append-nil ds)))
  connect-numbered g parent ds (c ∷ cs) e h =
      let (g', made, e') = create_numbered g parent c ds e (omega (arith, h)) in
      let (g'', rest, e'') =
        connect-numbered g' parent (ds ++ c ∷ []) cs e'
          (omega (arith, h, length-append ds (c ∷ []))) in
      (g'', rw made rest, e'' ∙ ap (numbered 0) (append_assoc ds (c ∷ []) cs))

  -- When a vertex that has no outgoing edges is connected to at most ten million vertices, one after
  -- the other, nothing fails, and the edge with the number i goes to the vertex that was the i-th.
  pub connect_lem :
      (g : G) (parent : ℕ) (children : List ℕ)
      → out g parent ≡ []
      → length children ≤ 10000000
      → (g' : G) × (connect g parent children ≡ some g')
        × ((i c : ℕ)
            → get_elem? children i ≡ some c
            → get_outgoing_edge_by_number cgraph g' parent i
              ≡ some (some (record { name = i; head = c })))
  unfolding get_outgoing_edge_by_number print_number numbered
  connect_lem g parent children e h =
      let (g', made, e') = connect-numbered g parent [] children e (omega (arith, h)) in
      (
        g',
        made,
        λ i c at.
            rw (e', found_small i c at) (ap some (find_number 0 children i i c (omega arith) at)),
      )
    where
      found_small : (i c : ℕ) → get_elem? children i ≡ some c → ltb i 10000000 ≡ true
      found_small i c at = ground (arith, h, get_elem?-bound children i c at)
