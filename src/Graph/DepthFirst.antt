-- ===== src/Graph/DepthFirst.antt =====
-- The depth-first search of test_progs/graph.c: a stack in an array of five cells, and an adjacency
-- matrix of five vertices. The loops over vertices and over the matrix are those of bfs.c.
pub mod Stacked
pub mod Search
pub mod Whole
use oo_o_processor.Common.{
  ℕ, zero, suc, ◌+◌, ◌*◌, ℤ, pos, negsuc, ◌+ℤ◌, ◌-ℤ◌, ◌==ℤ◌, Bool, ltb, Run, ok, fault, out_of_fuel,
  ◌>>=◌, if◌then◌else◌, length, replicate, ◌++◌, [], ◌∷◌,
}
use oo_o_processor.Array.{Ints, load, store}
use oo_o_processor.Bfs.{index, set_adj_cell, find_loop, reset_loop, clear_rows}

-- int stack[5] and top.
pub record Stack : Type 0 where
  pub items : Ints
  pub top : ℤ

abbrev pub no_items : Stack
no_items = record { items = replicate 5 (pos 0); top = negsuc 0 }

-- The `visited` of the objects that lstVertices points to, and adjMatrix row after row. vertexCount is
-- their number.
pub record Vertices : Type 0 where
  pub visited : Ints
  pub adj : Ints

abbrev pub vertex_count : Vertices → ℕ
vertex_count g = length g.visited

abbrev pub no_vertices : Vertices
no_vertices = record { visited = []; adj = replicate 25 (pos 0) }

-- stack[++top] = item
unfoldable pub push : ℤ → Stack → Run Stack
push v s = do
  i ← index (s.top +ℤ pos 1)
  items ← store s.items i v
  ok (record { items = items; top = s.top +ℤ pos 1 })

-- stack[top--]
unfoldable pub pop : Stack → Run (ℤ × Stack)
pop s = do
  i ← index s.top
  x ← load s.items i
  ok (x, record { items = s.items; top = s.top -ℤ pos 1 })

unfoldable pub peek : Stack → Run ℤ
peek s = do i ← index s.top; load s.items i

unfoldable pub is_stack_empty : Stack → Bool
is_stack_empty s = s.top ==ℤ negsuc 0

-- The sixth vertex would be written past lstVertices.
unfoldable pub add_vertex : Vertices → Run Vertices
add_vertex g =
    if ltb (vertex_count g) 5
    then ok (record { visited = g.visited ++ pos 0 ∷ []; adj = g.adj })
    else fault

unfoldable pub add_edge_dfs : ℕ → ℕ → Vertices → Run Vertices
add_edge_dfs start end g = do
  m ← set_adj_cell g.adj start end (pos 1)
  m' ← set_adj_cell m end start (pos 1)
  ok (record { visited = g.visited; adj = m' })

unfoldable pub get_adj_unvisited_vertex : ℤ → Vertices → Run ℤ
get_adj_unvisited_vertex v g = do t ← index v; find_loop (vertex_count g) 0 t g.adj g.visited

-- lstVertices[v]->visited = true
unfoldable pub mark : ℤ → Vertices → Run Vertices
mark v g = do
  i ← index v
  flags ← store g.visited i (pos 1)
  ok (record { visited = flags; adj = g.adj })

-- The body of the while.
unfoldable pub search_round : Stack → Vertices → Run (Stack × Vertices)
search_round s g = do
  v ← peek s
  u ← get_adj_unvisited_vertex v g
  if u ==ℤ negsuc 0
      then (do (x, s') ← pop s; ok (s', g))
      else (do g' ← mark u g; s' ← push u s; ok (s', g'))

-- The while: a vertex is pushed and popped once, so ten rounds and the last test are enough.
unfoldable pub search_loop : ℕ → Stack → Vertices → Run (Stack × Vertices)
search_loop zero s g = out_of_fuel
search_loop (suc fuel) s g =
    if is_stack_empty s then ok (s, g) else (do (s', g') ← search_round s g; search_loop fuel s' g')

-- Up to the end of the while.
unfoldable pub search : Stack → Vertices → Run (Stack × Vertices)
search s g = do g' ← mark (pos 0) g; s' ← push (pos 0) s; search_loop 11 s' g'

unfoldable pub depth_first_search : Stack → Vertices → Run (Stack × Vertices)
depth_first_search s g = do
  (s', g') ← search s g
  flags ← reset_loop (vertex_count g') 0 g'.visited
  ok (s', record { visited = flags; adj = g'.adj })

-- The graph that DFS_test builds.
unfoldable pub build : Vertices → Run Vertices
build g = do
  m ← clear_rows 5 0 g.adj
  a ← add_vertex (record { visited = g.visited; adj = m })
  b ← add_vertex a
  c ← add_vertex b
  d ← add_vertex c
  e ← add_vertex d
  f ← add_edge_dfs 0 1 e
  h ← add_edge_dfs 0 2 f
  i ← add_edge_dfs 0 3 h
  j ← add_edge_dfs 1 4 i
  k ← add_edge_dfs 2 4 j
  add_edge_dfs 3 4 k

unfoldable pub dfs_test : Stack → Vertices → Run (Stack × Vertices)
dfs_test s g = do g' ← build g; depth_first_search s g'
