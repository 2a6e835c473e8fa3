-- ===== src/Bfs/Search.antt =====
-- The loops of breadthFirstSearch.
use mathlib.Core.Path.{subst, sym}
use oo_o_processor.Common.{
  ℕ, zero, suc, ◌+◌, ◌-◌, ◌<◌, ◌≤◌, ◌≡◌, ◌≢◌, refl, ap, ◌∙◌, arith, pos, negsuc, ◌==ℤ◌, true, false,
  length, Returns, returns, Returns-bind, Returns-if,
}
use oo_o_processor.Array.{Ints, get}
use oo_o_processor.Bfs.{
  Queue, Graph, vertex_count, index, find_loop, is_queue_empty, get_adj_unvisited_vertex, visit,
  search_loop,
}
use oo_o_processor.Bfs.Reach.{Reaches, Settled, Finds, found, none_left, find_loop-Finds}
use oo_o_processor.Bfs.State.{
  Search, pushed, marked, mark-marked, white-room, insert-pushed, same_item, Search-pushed,
}
use oo_o_processor.Bfs.Removal.{removed, remove_data-Search, Search-done}

not_minus : (u : ℕ) → (pos u ==ℤ negsuc 0) ≡ false
not_minus u = ground arith

zero_test : (u : ℕ) → (pos u ==ℤ pos 0) ≡ true → u ≡ 0
zero_test u t = ground arith

nonzero_test : (u : ℕ) → (pos u ==ℤ pos 0) ≡ false → u ≢ 0
nonzero_test u t = ground arith

-- A graph with the labels and the matrix given.
abbrev Fixed : Ints → Ints → Graph → Type 0
Fixed labels m g = (g.labels ≡ labels) × (g.adj ≡ m)

module _ (labels m : Ints) (n : ℕ) (size : length m ≡ 25) (small : n ≤ 5) where
  adjacent-Finds :
      (v : ℕ) (g : Graph)
      → v < n
      → length g.visited ≡ n
      → Fixed labels m g
      → Returns (Finds m n g.visited v 0) (get_adj_unvisited_vertex (pos v) g)
  unfolding get_adj_unvisited_vertex index
  adjacent-Finds v g below all (_, same) =
      subst (λ a. Returns (Finds m n g.visited v 0) (find_loop (vertex_count g) 0 v a g.visited))
        (sym same)
        (find_loop-Finds m g.visited n (vertex_count g) v 0 size all small (omega arith)
          (omega (arith, all)))

  -- The end of the inner loop: all neighbours are marked.
  abbrev Visits : ℕ → ℕ → Queue → Queue × Graph → Type 0
  Visits done v q (q', g') =
      (used : ℕ) × Search m n done used q' g'.visited
      × Fixed labels m g'
      × (q'.front ≡ q.front)
      × (get q'.items done ≡ pos v)
      × Settled m n g'.visited v

  visit-Visits :
      (fuel v used : ℕ) {done : ℕ} (q : Queue) (g : Graph)
      → n < fuel + used
      → v < n
      → Reaches m n v
      → done < used
      → get q.items done ≡ pos v
      → Search m n done used q g.visited
      → Fixed labels m g
      → Returns (Visits done v q) (visit fuel (pos v) q g)
  unfolding visit pushed marked
  visit-Visits zero v used q g enough below path lt at s same = absurd (omega (arith, s.white))
  visit-Visits (suc fuel) v used {done} q g enough below path lt at s same =
      Returns-bind (adjacent-Finds v g below s.vertices same) λ w found_w. elim found_w [
        | none_left e all ↦
            rw e (returns (used, s, same, refl, at, λ j edge. all j (omega arith) edge))
        | found u e edge white ↦
            let room = white-room s small u (edge.0) white in
            rw
              (
                e,
                not_minus u,
                mark-marked u g (omega (arith, s.vertices)),
                insert-pushed s small u room,
              )
              (visit-Visits fuel v (used + 1) (pushed used u q) (marked u g) (omega arith) below
                path (omega arith) (same_item s small u (edge.0) white done lt ∙ at)
                (Search-pushed s small u (edge.0) white (Reaches.step path edge)) same)
      ]

  -- The end of the outer loop: the vertices in the queue are all done.
  abbrev pub Searches : Queue × Graph → Type 0
  Searches (q', g') =
      (used : ℕ) × Search m n used used q' g'.visited × Fixed labels m g' × (q'.front ≡ used)

  -- A queue that is empty is used up.
  empty_used :
      {used : ℕ} {q : Queue} {flags : Ints}
      → Search m n q.front used q flags
      → is_queue_empty q ≡ true
      → q.front ≡ used
  unfolding is_queue_empty
  empty_used {used = used} {q = q} s t = omega (arith, s.first, none_waiting)
    where
      none_waiting : used - q.front ≡ 0
      none_waiting = zero_test (used - q.front) (ap (λ x. x ==ℤ pos 0) (sym s.waiting) ∙ t)

  more_used :
      {used : ℕ} {q : Queue} {flags : Ints}
      → Search m n q.front used q flags
      → is_queue_empty q ≡ false
      → q.front < used
  unfolding is_queue_empty
  more_used {used = used} {q = q} s t = omega (arith, some_waiting)
    where
      some_waiting : used - q.front ≢ 0
      some_waiting = nonzero_test (used - q.front) (ap (λ x. x ==ℤ pos 0) (sym s.waiting) ∙ t)

  pub search_loop-Searches :
      (fuel used : ℕ) (q : Queue) (g : Graph)
      → n < fuel + q.front
      → Search m n q.front used q g.visited
      → Fixed labels m g
      → Returns Searches (search_loop fuel q g)
  unfolding search_loop removed
  search_loop-Searches zero used q g enough s same = absurd (omega (arith, s.first, s.white))
  search_loop-Searches (suc fuel) used q g enough s same =
      Returns-if (is_queue_empty q)
        (λ t.
          let e = empty_used s t in
          returns (used, subst (λ k. Search m n k used q g.visited) e s, same, e))
        λ t.
          let lt = more_used s t in
          let (v, removes, at, below, path, s') = remove_data-Search s small lt in
          rw removes (
            Returns-bind
              (visit-Visits 6 v used (removed q) g (omega arith) below path lt at s' same)
              λ (q', g') (used', t', same', front, at', all).
                search_loop-Searches fuel used' q' g' (omega (arith, front))
                  (subst (λ k. Search m n k used' q' g'.visited) (sym front)
                    (Search-done t' small v at' (omega (arith, front)) all))
                  same')

  -- Every vertex that a path leads to is marked at the end.
  pub path-marked :
      {used v : ℕ} {q : Queue} {flags : Ints}
      → 0 < n
      → Search m n used used q flags
      → Reaches m n v
      → (v < n) × (get flags v ≢ pos 0)
  path-marked inside s Reaches.root = (inside, s.rooted)
  path-marked inside s (Reaches.step path edge) =
      let (below, marked_i) = path-marked inside s path in
      let (k, lt, at) = s.queued _ below marked_i in (edge.0, s.settled k _ lt at _ edge)
