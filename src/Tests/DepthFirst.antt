-- ===== src/Tests/DepthFirst.antt =====
-- Runs of the depth-first search of graph.c, and its theorems at concrete inputs.
use oo_o_processor.Common.{
  ℕ, zero, suc, ◌<◌, ◌≡◌, refl, [], ◌∷◌, ◌++◌, arith, ok, Run, ◌>>=◌, Returns, pos, negsuc, ◌+ℤ◌,
  ◌-ℤ◌, replicate,
}
use oo_o_processor.Array.{Ints, get, set, load, store, count}
use oo_o_processor.Bfs.{index, set_adj_cell, adj_cell, is_open, find_loop, clear_row, clear_rows}
use oo_o_processor.Graph.DepthFirst.{
  Stack, Vertices, no_items, no_vertices, push, pop, peek, is_stack_empty, add_vertex, add_edge_dfs,
  get_adj_unvisited_vertex, mark, search_round, search_loop, search, depth_first_search, build,
}
use oo_o_processor.Graph.DepthFirst.Stacked.{pushed}
use oo_o_processor.Graph.DepthFirst.Search.{Goes, Searched, search_round-Stacked}
use oo_o_processor.Graph.DepthFirst.Whole.{
  start-Stacked, empty, Restored, search-Searched, depth_first_search-Restored,
}

-- Three vertices, with an edge between 0 and 1.
abbrev one_edge : Vertices
one_edge = record {
  visited = replicate 3 (pos 0);
  adj = pos 0 ∷ pos 1 ∷ replicate 3 (pos 0) ++ pos 1 ∷ replicate 19 (pos 0);
}

one_edge-Unvisited : (i : ℕ) → i < 3 → get (replicate 3 (pos 0)) i ≡ pos 0
unfolding get
one_edge-Unvisited zero h = refl
one_edge-Unvisited (suc zero) h = refl
one_edge-Unvisited (suc (suc zero)) h = refl
one_edge-Unvisited (suc (suc (suc i))) h = absurd (omega arith)

search-Searched_example :
    Returns (Searched one_edge) (search (empty (replicate 5 (pos 9))) one_edge)
search-Searched_example =
    search-Searched (replicate 5 (pos 9)) one_edge refl refl (omega arith) (omega arith)
      one_edge-Unvisited

depth_first_search-Restored_example :
    Returns (Restored one_edge) (depth_first_search (empty (replicate 5 (pos 9))) one_edge)
depth_first_search-Restored_example =
    depth_first_search-Restored (replicate 5 (pos 9)) one_edge refl refl (omega arith) (omega arith)
      one_edge-Unvisited

-- The first round, with the vertex 0 on the stack.
search_round-Stacked_example : Returns (Goes one_edge.adj 3 5) (
    search_round
      (pushed 0 0 (empty (replicate 5 (pos 9))))
      (record { visited = pos 1 ∷ replicate 2 (pos 0); adj = one_edge.adj }))
unfolding set count
search_round-Stacked_example =
    search_round-Stacked one_edge.adj 3 0 (pushed 0 0 (empty (replicate 5 (pos 9))))
      (record { visited = pos 1 ∷ replicate 2 (pos 0); adj = one_edge.adj }) refl (omega arith) refl
      (start-Stacked (replicate 5 (pos 9)) one_edge refl (omega arith) one_edge-Unvisited)

-- The graph of DFS_test, and the search up to the end of the while.
tested : Run (Stack × Ints)
tested = do g ← build no_vertices; (s, g') ← search no_items g; ok (s, g'.visited)

tested_run :
    tested
    ≡ ok (
      record { items = pos 0 ∷ pos 1 ∷ pos 4 ∷ pos 3 ∷ pos 0 ∷ []; top = negsuc 0 },
      replicate 5 (pos 1),
    )
unfolding tested build search search_loop search_round push pop peek mark is_stack_empty add_vertex
    add_edge_dfs set_adj_cell adj_cell is_open find_loop clear_row clear_rows
    get_adj_unvisited_vertex index store load set ◌+ℤ◌ ◌-ℤ◌
tested_run = refl
