-- ===== src/Bfs.antt =====
-- test_progs/bfs.c: an adjacency matrix of five vertices and its breadth-first search, with a queue
-- in an array of five cells. The globals are passed on as a queue and a graph.
pub mod Reach
pub mod State
pub mod Removal
pub mod Search
pub mod Traversal
use oo_o_processor.Common.{
  ℕ, zero, suc, ◌+◌, ◌*◌, ℤ, pos, negsuc, ◌+ℤ◌, ◌-ℤ◌, ◌==ℤ◌, Bool, false, ltb, Run, ok, fault,
  out_of_fuel, ◌>>=◌, if◌then◌else◌, length, replicate, ◌++◌, [], ◌∷◌,
}
use oo_o_processor.Array.{Ints, load, store}

-- int queue[MAX], rear, front and queueItemCount.
pub record Queue : Type 0 where
  pub items : Ints
  pub rear : ℤ
  pub front : ℕ
  pub item_count : ℤ

-- The objects that lstVertices points to, field by field and in its order, and adjMatrix row after
-- row. vertexCount is their number; a slot from there on is NULL.
pub record Graph : Type 0 where
  pub labels : Ints
  pub visited : Ints
  pub adj : Ints

-- The globals at the start of the program.
abbrev pub no_items : Queue
no_items = record { items = replicate 5 (pos 0); rear = negsuc 0; front = 0; item_count = pos 0 }

abbrev pub no_vertices : Graph
no_vertices = record { labels = []; visited = []; adj = replicate 25 (pos 0) }

-- An `int` as an index.
unfoldable pub index : ℤ → Run ℕ
index (pos i) = ok i
index (negsuc n) = fault

unfoldable pub insert : ℤ → Queue → Run Queue
insert v q = do
  i ← index (q.rear +ℤ pos 1)
  items ← store q.items i v
  ok (record {
    items = items;
    rear = q.rear +ℤ pos 1;
    front = q.front;
    item_count = q.item_count +ℤ pos 1;
  })

unfoldable pub remove_data : Queue → Run (ℤ × Queue)
remove_data q = do
  x ← load q.items q.front
  ok (
    x,
    record {
      items = q.items;
      rear = q.rear;
      front = q.front + 1;
      item_count = q.item_count -ℤ pos 1;
    },
  )

unfoldable pub is_queue_empty : Queue → Bool
is_queue_empty q = q.item_count ==ℤ pos 0

abbrev pub vertex_count : Graph → ℕ
vertex_count g = length g.visited

-- The sixth vertex would be written past lstVertices.
unfoldable pub add_vertex : ℤ → Graph → Run Graph
add_vertex label g =
    if ltb (vertex_count g) 5
    then ok
        (record { labels = g.labels ++ label ∷ []; visited = g.visited ++ pos 0 ∷ []; adj = g.adj })
    else fault

-- adjMatrix[i][j], and adjMatrix[i][j] = v.
unfoldable pub adj_cell : Ints → ℕ → ℕ → Run ℤ
adj_cell m i j = if ltb j 5 then load m (5 * i + j) else fault

unfoldable pub set_adj_cell : Ints → ℕ → ℕ → ℤ → Run Ints
set_adj_cell m i j v = if ltb j 5 then store m (5 * i + j) v else fault

unfoldable pub add_edge : ℕ → ℕ → Graph → Run Graph
add_edge start end g = do
  m ← set_adj_cell g.adj start end (pos 1)
  m' ← set_adj_cell m end start (pos 1)
  ok (record { labels = g.labels; visited = g.visited; adj = m' })

-- The test in getAdjUnvisitedVertex: it reads lstVertices only where there is an edge.
unfoldable pub is_open : ℕ → ℕ → Ints → Ints → Run Bool
is_open t i m flags = do
  e ← adj_cell m t i
  if e ==ℤ pos 1 then (do f ← load flags i; ok (f ==ℤ pos 0)) else ok false

-- The loop of getAdjUnvisitedVertex, by the rounds left; `t` is vertexIndex.
unfoldable pub find_loop : ℕ → ℕ → ℕ → Ints → Ints → Run ℤ
find_loop zero i t m flags = ok (negsuc 0)
find_loop (suc n) i t m flags = do
  found ← is_open t i m flags
  let next = find_loop n (i + 1) t m flags
  if found then ok (pos i) else next

unfoldable pub get_adj_unvisited_vertex : ℤ → Graph → Run ℤ
get_adj_unvisited_vertex v g = do t ← index v; find_loop (vertex_count g) 0 t g.adj g.visited

-- lstVertices[i]->visited = b
unfoldable pub mark : ℤ → ℤ → Graph → Run Graph
mark v b g = do
  i ← index v
  flags ← store g.visited i b
  ok (record { labels = g.labels; visited = flags; adj = g.adj })

-- The inner while: it marks a vertex a round, so six rounds are enough.
unfoldable pub visit : ℕ → ℤ → Queue → Graph → Run (Queue × Graph)
visit zero v q g = out_of_fuel
visit (suc fuel) v q g = do
  u ← get_adj_unvisited_vertex v g
  if u ==ℤ negsuc 0
      then ok (q, g)
      else (do g' ← mark u (pos 1) g; q' ← insert u q; visit fuel v q' g')

-- The outer while: a vertex enters the queue once, so six rounds are enough.
unfoldable pub search_loop : ℕ → Queue → Graph → Run (Queue × Graph)
search_loop zero q g = out_of_fuel
search_loop (suc fuel) q g =
    if is_queue_empty q
    then ok (q, g)
    else (do (v, q') ← remove_data q; (q'', g') ← visit 6 v q' g; search_loop fuel q'' g')

-- The last loop of breadthFirstSearch, by the rounds left.
unfoldable pub reset_loop : ℕ → ℕ → Ints → Run Ints
reset_loop zero i flags = ok flags
reset_loop (suc n) i flags = do flags' ← store flags i (pos 0); reset_loop n (i + 1) flags'

unfoldable pub breadth_first_search : Queue → Graph → Run (Queue × Graph)
breadth_first_search q g = do
  g₁ ← mark (pos 0) (pos 1) g
  q₁ ← insert (pos 0) q
  (q₂, g₂) ← search_loop 6 q₁ g₁
  flags ← reset_loop (vertex_count g₂) 0 g₂.visited
  ok (q₂, record { labels = g₂.labels; visited = flags; adj = g₂.adj })

-- The loops of main that clear the matrix, by the rounds left.
unfoldable pub clear_row : ℕ → ℕ → ℕ → Ints → Run Ints
clear_row zero j i m = ok m
clear_row (suc n) j i m = do m' ← set_adj_cell m i j (pos 0); clear_row n (j + 1) i m'

unfoldable pub clear_rows : ℕ → ℕ → Ints → Run Ints
clear_rows zero i m = ok m
clear_rows (suc n) i m = do m' ← clear_row 5 0 i m; clear_rows n (i + 1) m'

-- The graph that main builds.
unfoldable pub build : Graph → Run Graph
build g = do
  m ← clear_rows 5 0 g.adj
  a ← add_vertex (pos 83) (record { labels = g.labels; visited = g.visited; adj = m })
  b ← add_vertex (pos 65) a
  c ← add_vertex (pos 66) b
  d ← add_vertex (pos 67) c
  e ← add_vertex (pos 68) d
  f ← add_edge 0 1 e
  h ← add_edge 0 2 f
  i ← add_edge 0 3 h
  j ← add_edge 1 4 i
  k ← add_edge 2 4 j
  add_edge 3 4 k

unfoldable pub main : Run (Queue × Graph)
main = do g ← build no_vertices; breadth_first_search no_items g
