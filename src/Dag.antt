-- ===== src/Dag.antt =====
-- Directed acyclic graphs: mobile_platform_5c/baseline/coordination_libraries/src/DAG.c.
-- The graph itself belongs to cgraph, and the interface `Cgraph` has what the code asks of it: the
-- vertex with a name, the edges that go out of a vertex in the order in which they were made, and
-- the making of an edge. The name of an edge is the number that is printed into it.
pub mod Numbers
mod Tests
use ecs_private.Common.{
  ℕ, ◌≡◌, List, [], ◌∷◌, ◌++◌, Option, none, some, Bool, true, false, ◌&&◌, ◌||◌, ◌==◌, ltb, length,
  if◌then◌else◌, ◌>>=◌, String,
}

pub record Edge : Type 0 where
  pub name : ℕ
  pub head : ℕ

-- An edge with the name goes to the vertex.
unfoldable pub is_edge : List Edge → ℕ → ℕ → Bool
is_edge [] child k = false
is_edge (e ∷ es) child k = e.head == child && e.name == k || is_edge es child k

-- `agedge` gives back the edge with the name between the two vertices, or else makes one.
pub record Cgraph : Type 1 where
  pub G : Type 0
  pub vertex : G → String → Option ℕ
  pub out : G → ℕ → List Edge
  pub agedge : G → ℕ → ℕ → ℕ → G
  pub out-agedge :
      (g : G) (parent child k q : ℕ)
      → is_edge (out g parent) child k ≡ false
      → out (agedge g parent child k) q
        ≡ (if parent == q then out g parent ++ record { name = k; head = child } ∷ [] else out g q)

-- `sprintf(buffer, "%d", n)` into eight characters.
unfoldable pub print_number : ℕ → Option ℕ
print_number n = if ltb n 10000000 then some n else none

-- The loop over the edges of a vertex.
unfoldable pub edge_loop : List Edge → ℕ → Option Edge
edge_loop [] k = none
edge_loop (e ∷ es) k = let rest = edge_loop es k in if e.name == k then some e else rest

module _ (cgraph : Cgraph) where
  open cgraph use {G, vertex, out, agedge}

  unfoldable pub get_vertex_by_name : G → String → Option ℕ
  get_vertex_by_name g vertex_name = vertex g vertex_name

  unfoldable pub get_number_of_outgoing_edges : G → ℕ → ℕ
  get_number_of_outgoing_edges g p = length (out g p)

  unfoldable pub create_connection_vertices : G → ℕ → ℕ → Option G
  unfolding get_number_of_outgoing_edges print_number
  create_connection_vertices g parent child = do
    k ← print_number (get_number_of_outgoing_edges g parent)
    some (agedge g parent child k)

  -- A vertex that is missing is a null pointer, whose graph is read.
  unfoldable pub create_connection_vertices_by_name : G → String → String → Option G
  unfolding create_connection_vertices get_vertex_by_name
  create_connection_vertices_by_name g parent_vertex_name child_vertex_name = do
    parent ← get_vertex_by_name g parent_vertex_name
    child ← get_vertex_by_name g child_vertex_name
    create_connection_vertices g parent child

  -- The outer Option is the fault, the inner one the null pointer.
  unfoldable pub get_outgoing_edge_by_number : G → ℕ → ℕ → Option (Option Edge)
  unfolding print_number edge_loop
  get_outgoing_edge_by_number g parent outgoing_edge_number = do
    k ← print_number outgoing_edge_number
    some (edge_loop (out g parent) k)

  unfoldable pub get_outgoing_edge_of_named_vertex_by_number : G → String → ℕ → Option (Option Edge)
  unfolding get_vertex_by_name print_number edge_loop
  get_outgoing_edge_of_named_vertex_by_number g parent_vertex_name outgoing_edge_number = do
    parent ← get_vertex_by_name g parent_vertex_name
    k ← print_number outgoing_edge_number
    some (edge_loop (out g parent) k)

  unfoldable pub next_first_vertex : G → ℕ → Option ℕ
  unfolding get_outgoing_edge_by_number
  next_first_vertex g v = do found ← get_outgoing_edge_by_number g v 0; e ← found; some e.head

  unfoldable pub next_second_vertex : G → ℕ → Option ℕ
  unfolding get_outgoing_edge_by_number
  next_second_vertex g v = do found ← get_outgoing_edge_by_number g v 1; e ← found; some e.head
