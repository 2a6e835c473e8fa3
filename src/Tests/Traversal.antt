-- ===== src/Tests/Traversal.antt =====
-- Runs of bfs.c, and its theorem on the graph of main.
use oo_o_processor.Common.{
  ℕ, zero, suc, ◌<◌, ◌≡◌, refl, arith, pos, ok, [], ◌∷◌, replicate, ◌+ℤ◌, ◌-ℤ◌, fault, Returns,
}
use oo_o_processor.Array.{Ints, get, load, store, set}
use oo_o_processor.Bfs
use oo_o_processor.Bfs.{
  Queue, Graph, index, insert, remove_data, is_queue_empty, add_vertex, adj_cell, set_adj_cell,
  add_edge, is_open, find_loop, get_adj_unvisited_vertex, mark, visit, search_loop, reset_loop,
  breadth_first_search, clear_row, clear_rows, build, no_vertices, no_items,
}
use oo_o_processor.Bfs.Traversal.{fresh, Traversal, breadth_first_search-Traversal}

abbrev edges : Ints
edges =
    pos 0
    ∷ pos 1
    ∷ pos 1
    ∷ pos 1
    ∷ pos 0
    ∷ pos 1
    ∷ pos 0
    ∷ pos 0
    ∷ pos 0
    ∷ pos 1
    ∷ pos 1
    ∷ pos 0
    ∷ pos 0
    ∷ pos 0
    ∷ pos 1
    ∷ pos 1
    ∷ pos 0
    ∷ pos 0
    ∷ pos 0
    ∷ pos 1
    ∷ pos 0
    ∷ pos 1
    ∷ pos 1
    ∷ pos 1
    ∷ pos 0
    ∷ []

abbrev main_graph : Graph
main_graph = record {
  labels = pos 83 ∷ pos 65 ∷ pos 66 ∷ pos 67 ∷ pos 68 ∷ [];
  visited = replicate 5 (pos 0);
  adj = edges;
}

build_runs : build no_vertices ≡ ok main_graph
unfolding build add_vertex add_edge set_adj_cell clear_row clear_rows store load set
build_runs = refl

abbrev main_queue : Queue
main_queue = record {
  items = pos 0 ∷ pos 1 ∷ pos 2 ∷ pos 3 ∷ pos 4 ∷ [];
  rear = pos 4;
  front = 5;
  item_count = pos 0;
}

bfs_main_runs : Bfs.main ≡ ok (main_queue, main_graph)
unfolding Bfs.main build add_vertex add_edge set_adj_cell clear_row clear_rows store load set
    breadth_first_search index insert remove_data is_queue_empty adj_cell is_open find_loop
    get_adj_unvisited_vertex mark visit search_loop reset_loop ◌+ℤ◌ ◌-ℤ◌
bfs_main_runs = refl

-- The flags are reset for a next search, but the queue is not: it writes past the array.
second_search_faults : breadth_first_search main_queue main_graph ≡ fault
unfolding breadth_first_search index insert mark store load set ◌+ℤ◌
second_search_faults = refl

zero_flags : (n i : ℕ) → i < n → get (replicate n (pos 0)) i ≡ pos 0
unfolding get
zero_flags zero i h = absurd (omega arith)
zero_flags (suc n) zero h = refl
zero_flags (suc n) (suc i) h = zero_flags n i (omega arith)

breadth_first_search-Traversal_example :
    Returns (Traversal main_graph) (breadth_first_search (fresh (replicate 5 (pos 0))) main_graph)
breadth_first_search-Traversal_example =
    breadth_first_search-Traversal (replicate 5 (pos 0)) main_graph refl refl (omega arith)
      (omega arith) (zero_flags 5)
