-- ===== src/Graph/Adjacency.antt =====
-- The adjacency lists of test_progs/graph.c and their breadth-first search: createNode, createGraph,
-- addEdge, bfs and bfs_test. The nodes stand in a memory, at addresses from tj_malloc that are
-- arguments; the arrays of struct Graph are lists.
pub mod Lists
pub mod Search
pub mod Traversal
pub mod Edges
pub mod Explore
use oo_o_processor.Common.{
  ℕ, zero, suc, ◌+◌, ◌==◌, ℤ, pos, ◌==ℤ◌, Run, ok, fault, out_of_fuel, ◌>>=◌, if◌then◌else◌,
  replicate, List, [], ◌∷◌,
}
use oo_o_processor.Array.{Ints, load, store}
use oo_o_processor.Bfs.{index}
use oo_o_processor.Nodes.{Ptr, null, Heap, deref, place, set_next}
use oo_o_processor.Graph.{Queue, create_queue, is_empty, enqueue, dequeue}

-- struct Graph; a node's item is its vertex.
pub record Adjacency : Type 0 where
  pub num_vertices : ℕ
  pub lists : List Ptr
  pub visited : Ints

unfoldable pub create_node : Ptr → ℤ → Heap ℤ → Run (Heap ℤ)
create_node a v h = place h a v null

-- The loop that fills the two arrays, with the allocations.
unfoldable pub create_graph : ℕ → Adjacency
create_graph vertices = record {
  num_vertices = vertices;
  lists = replicate vertices null;
  visited = replicate vertices (pos 0);
}

-- graph->adjLists[i], and graph->adjLists[i] = p.
unfoldable pub list_at : List Ptr → ℕ → Run Ptr
list_at [] i = fault
list_at (p ∷ ls) zero = ok p
list_at (p ∷ ls) (suc i) = list_at ls i

unfoldable pub set_list : List Ptr → ℕ → Ptr → Run (List Ptr)
set_list [] i q = fault
set_list (p ∷ ls) zero q = ok (q ∷ ls)
set_list (p ∷ ls) (suc i) q = do ls' ← set_list ls i q; ok (p ∷ ls')

-- Half of addEdge: a new node for `dest` in front of the list of `src`.
unfoldable pub add_half_edge : Ptr → ℕ → ℕ → List Ptr → Heap ℤ → Run (List Ptr × Heap ℤ)
add_half_edge a src dest ls h = do
  h₁ ← create_node a (pos dest) h
  p ← list_at ls src
  h₂ ← set_next h₁ a p
  ls' ← set_list ls src a
  ok (ls', h₂)

unfoldable pub add_edge : Ptr → Ptr → ℕ → ℕ → Adjacency → Heap ℤ → Run (Adjacency × Heap ℤ)
add_edge a b src dest g h = do
  (ls, h₁) ← add_half_edge a src dest g.lists h
  (ls', h₂) ← add_half_edge b dest src ls h₁
  ok (record { num_vertices = g.num_vertices; lists = ls'; visited = g.visited }, h₂)

-- The test of the inner while and what it guards.
unfoldable pub visit : ℤ → Queue → Ints → Run (Queue × Ints)
visit v q flags = do
  i ← index v
  f ← load flags i
  if f ==ℤ pos 0
      then (do flags' ← store flags i (pos 1); q' ← enqueue q v; ok (q', flags'))
      else ok (q, flags)

-- The inner while: a round for each node of the list, and the last test.
unfoldable pub scan : ℕ → Ptr → Heap ℤ → Queue → Ints → Run (Queue × Ints)
scan zero temp h q flags = out_of_fuel
scan (suc fuel) temp h q flags =
    let round = do
      n ← deref h temp
      (q', flags') ← visit n.item q flags
      scan fuel n.next h q' flags'
    in if temp == null then ok (q, flags) else round

-- The outer while; `steps` is the fuel of the inner one.
unfoldable pub search_loop : ℕ → ℕ → List Ptr → Heap ℤ → Queue → Ints → Run (Queue × Ints)
search_loop zero steps ls h q flags = out_of_fuel
search_loop (suc fuel) steps ls h q flags =
    let round = do
      (v, q₁) ← dequeue q
      i ← index v
      temp ← list_at ls i
      (q₂, flags') ← scan steps temp h q₁ flags
      search_loop fuel steps ls h q₂ flags'
    in if is_empty q == 1 then ok (q, flags) else round

-- `items` is what the memory of the queue holds.
unfoldable pub bfs : ℕ → ℕ → Ints → ℕ → Adjacency → Heap ℤ → Run (Queue × Adjacency)
bfs fuel steps items start g h = do
  flags ← store g.visited start (pos 1)
  q ← enqueue (create_queue items) (pos start)
  (q', flags') ← search_loop fuel steps g.lists h q flags
  ok (q', record { num_vertices = g.num_vertices; lists = g.lists; visited = flags' })

-- The calls of addEdge, one after the other, each with what tj_malloc returns for its nodes.
unfoldable pub add_edges : List (Ptr × Ptr × ℕ × ℕ) → Adjacency → Heap ℤ → Run (Adjacency × Heap ℤ)
add_edges [] g h = ok (g, h)
add_edges ((a, b, src, dest) ∷ edges) g h = do
  (g', h') ← add_edge a b src dest g h
  add_edges edges g' h'

-- A graph of so many vertices, its edges, and the search from the vertex 0.
unfoldable pub explore :
    ℕ → ℕ → ℕ → Ints → List (Ptr × Ptr × ℕ × ℕ) → Heap ℤ → Run (Queue × Adjacency)
explore fuel steps vertices items edges h = do
  (g, h') ← add_edges edges (create_graph vertices) h
  bfs fuel steps items 0 g h'

unfoldable pub bfs_test : (ℕ → Ptr) → Ints → Heap ℤ → Run (Queue × Adjacency)
bfs_test malloc items h =
    explore 7 15 6 items
      ((malloc 0, malloc 1, 0, 1)
        ∷ (malloc 2, malloc 3, 0, 2)
        ∷ (malloc 4, malloc 5, 1, 2)
        ∷ (malloc 6, malloc 7, 1, 4)
        ∷ (malloc 8, malloc 9, 1, 3)
        ∷ (malloc 10, malloc 11, 2, 4)
        ∷ (malloc 12, malloc 13, 3, 4)
        ∷ [])
      h
