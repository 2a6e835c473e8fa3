-- ===== src/Tests/Adjacency.antt =====
-- Runs of the adjacency lists and of towers in graph.c, and their theorems at concrete inputs.
use oo_o_processor.Common.{
  ◌+◌, ◌≡◌, ◌≢◌, ◌↔◌, refl, false, [], ◌∷◌, arith, ok, none, Run, ◌>>=◌, Returns, ℤ, pos, ◌+ℤ◌,
  ◌-ℤ◌, ◌≤ℤ◌, replicate,
}
use oo_o_processor.Array.{Ints, set, load, store}
use oo_o_processor.Bfs.{index}
use oo_o_processor.Nodes.{Ptr, null, Heap, write, deref, set_next, place}
use oo_o_processor.Graph.{is_empty, item, set_item, enqueue, reset, dequeue}
use oo_o_processor.Graph.Adjacency.{
  create_node, create_graph, list_at, set_list, add_half_edge, add_edge, visit, scan, search_loop,
  bfs, add_edges, explore, bfs_test,
}
use oo_o_processor.Graph.Adjacency.Lists.{Lists, linked, add_edge-Links, create_graph-Lists}
use oo_o_processor.Graph.Adjacency.Edges.{Edges}
use oo_o_processor.Graph.Adjacency.Explore.{Visited, explore-Visited}
use oo_o_processor.Graph.Towers.{towers, towers_test, towers-returns}

abbrev free : Heap ℤ
free a = none

-- Three vertices, the first two of them joined.
abbrev one_edge : Edges
one_edge = (4, 8, 0, 1) ∷ []

explore-Visited_example :
    Returns (Visited 3 one_edge) (explore 4 3 3 (replicate 40 (pos 9)) one_edge free)
explore-Visited_example =
    explore-Visited 4 3 3 (replicate 40 (pos 9)) one_edge free (λ a. false) refl (omega arith)
      (omega arith) (omega arith) (omega arith) (λ c e. refl)
      (omega arith, omega arith, omega arith, refl, refl, omega arith, omega arith, tt)

add_edge-Links_example :
    Returns
      (λ (g', h').
        Lists h' g'.lists (linked 1 (pos 0) (linked 0 (pos 1) (replicate 3 [])))
        × (g'.visited ≡ replicate 3 (pos 0))
        × ((c : Ptr) → c ≢ 4 → c ≢ 8 → h' c ≡ none))
      (add_edge 4 8 0 1
        (record { num_vertices = 3; lists = replicate 3 null; visited = replicate 3 (pos 0) })
        free)
add_edge-Links_example =
    add_edge-Links
      (record { num_vertices = 3; lists = replicate 3 null; visited = replicate 3 (pos 0) }) 4 8 0 1
      (omega arith) (omega arith) (omega arith) refl refl (omega arith) (omega arith)
      (create_graph-Lists free 3)

-- The graph of bfs_test has a vertex 5 without edges.
tested : Run Ints
tested = do (q, g) ← bfs_test (λ k. k + 1) (replicate 40 (pos 0)) free; ok g.visited

tested_run : tested ≡ ok (pos 1 ∷ pos 1 ∷ pos 1 ∷ pos 1 ∷ pos 1 ∷ pos 0 ∷ [])
unfolding tested bfs_test explore create_graph add_edges add_edge add_half_edge create_node place
    write deref set_next list_at set_list bfs search_loop scan visit index store load set is_empty
    item set_item enqueue reset dequeue ◌+ℤ◌
tested_run = refl

towers_test_run : towers_test ≡ ok (pos 0)
unfolding towers_test towers ◌-ℤ◌
towers_test_run = refl

towers-returns_example :
    (towers 5 (pos 5) 65 67 66 ≡ ok (pos 0)) ↔ ((pos 1 ≤ℤ pos 5) × (pos 5 ≤ℤ pos 5))
towers-returns_example = towers-returns 5 (pos 5) 65 67 66
