-- ===== src/Dag/Tests.antt =====
-- The theorems on directed acyclic graphs at a concrete graph.
use ecs_private.Common.{
  ℕ, ◌≡◌, refl, List, [], ◌∷◌, ◌++◌, none, some, arith, get_elem?, ◌==◌, if◌then◌else◌,
}
use ecs_private.Dag.{Edge, Cgraph, get_outgoing_edge_by_number}
use ecs_private.Dag.Numbers.{connect, connect_lem}

-- A graph as the edges of each vertex.
abbrev edges : Cgraph
edges = record {
  G = ℕ → List Edge;
  vertex = λ g name. none;
  out = λ g q. g q;
  agedge = λ g parent child k q.
      if parent == q then g parent ++ record { name = k; head = child } ∷ [] else g q;
  out-agedge = λ g parent child k q fresh. refl;
}

abbrev no_edges : ℕ → List Edge
no_edges q = []

connect_lem_example :
    (g : ℕ → List Edge) × (connect edges no_edges 4 (7 ∷ 9 ∷ 8 ∷ []) ≡ some g)
    × ((i c : ℕ)
        → get_elem? (7 ∷ 9 ∷ 8 ∷ []) i ≡ some c
        → get_outgoing_edge_by_number edges g 4 i ≡ some (some (record { name = i; head = c })))
connect_lem_example = connect_lem edges no_edges 4 (7 ∷ 9 ∷ 8 ∷ []) refl (omega arith)
