-- ===== src/Graph/DepthFirst/Search.antt =====
-- The loop of depthFirstSearch in graph.c.
use mathlib.Core.Path.{subst, sym}
use oo_o_processor.Common.{
  ℕ, zero, suc, ◌+◌, ◌*◌, ◌<◌, ◌≤◌, ◌≡◌, ◌≢◌, ◌∙◌, inl, inr, arith, pos, negsuc, ◌↔◌, ◌==ℤ◌, false,
  length, Returns, returns, Returns-bind,
}
use oo_o_processor.Array.{Ints, get, count}
use oo_o_processor.Bfs.{index, find_loop}
use oo_o_processor.Bfs.Reach.{
  Reaches, root, step, Settled, Finds, found, none_left, find_loop-Finds,
}
use oo_o_processor.Bfs.State.{count-mark, same}
use oo_o_processor.Graph.DepthFirst.{
  Stack, Vertices, vertex_count, is_stack_empty, get_adj_unvisited_vertex, search_round,
  search_loop,
}
use oo_o_processor.Graph.DepthFirst.Stacked.{
  Stacked, marked, mark-marked, push-pushed, pop-popped, peek-get, is_stack_empty-top,
  Stacked-popped, Stacked-pushed, room,
}

not_minus : (u : ℕ) → (pos u ==ℤ negsuc 0) ≡ false
not_minus u = ground arith

-- The rounds that are left: each vertex that is not marked is pushed and popped, each item popped.
abbrev pub rounds : ℕ → Ints → ℕ
rounds depth flags = 2 * count (pos 0) flags + depth

-- After a round.
abbrev pub Goes : Ints → ℕ → ℕ → Stack × Vertices → Type 0
Goes m n left (s, g) =
    (depth : ℕ) × Stacked m n depth s g.visited
    × (g.adj ≡ m)
    × (suc (rounds depth g.visited) ≡ left)

module _ (m : Ints) (n : ℕ) (size : length m ≡ 25) (small : n ≤ 5) where
  adjacent-Finds :
      (v : ℕ) (g : Vertices)
      → v < n
      → length g.visited ≡ n
      → g.adj ≡ m
      → Returns (Finds m n g.visited v 0) (get_adj_unvisited_vertex (pos v) g)
  unfolding get_adj_unvisited_vertex index
  adjacent-Finds v g below all same =
      subst (λ a. Returns (Finds m n g.visited v 0) (find_loop (vertex_count g) 0 v a g.visited))
        (sym same)
        (find_loop-Finds m g.visited n (vertex_count g) v 0 size all small (omega arith)
          (omega (arith, all)))

-- With a matrix of 25 cells, at most five vertices, and an item on the stack, a round of the loop ends,
-- with no access out of bounds. It keeps the invariant: the items on the stack are marked vertices, each
-- a neighbour of the one below it, and a marked vertex is reached from the vertex 0 and is on the stack
-- or has only marked neighbours. The rounds that are left become one less.
pub search_round-Stacked :
    (m : Ints) (n d : ℕ) (s : Stack) (g : Vertices)
    → length m ≡ 25
    → n ≤ 5
    → g.adj ≡ m
    → Stacked m n (suc d) s g.visited
    → Returns (Goes m n (rounds (suc d) g.visited)) (search_round s g)
unfolding search_round marked
search_round-Stacked m n d s g size small same st =
    let (v, at, below, mark) = st.held d (omega arith) in
    let in_stack : d < length s.items = omega (arith, st.size, st.white) in
    rw (peek-get d s st.top in_stack, at)
      (Returns-bind (adjacent-Finds m n size small v g below st.vertices same) λ w f. elim f [
        | none_left e all ↦
            rw (e, pop-popped d s st.top in_stack)
              (returns
                (d, Stacked-popped st v at (λ j edge. all j (omega arith) edge), same, omega arith))
        | found u e edge white ↦
            rw
              (
                e,
                not_minus u,
                mark-marked u g (omega (arith, st.vertices)),
                push-pushed (suc d) u s st.top (room st v at small u edge white),
              )
              (returns (
                suc (suc d),
                Stacked-pushed st v at small u edge white,
                same,
                omega (arith, count-mark g.visited u (omega (arith, st.vertices)) white),
              ))
      ])

-- The end of the loop.
abbrev pub Ends : Ints → ℕ → Stack × Vertices → Type 0
Ends m n (s, g) = Stacked m n 0 s g.visited × (g.adj ≡ m)

pub search_loop-Ends :
    (m : Ints) (n fuel depth : ℕ) (s : Stack) (g : Vertices)
    → length m ≡ 25
    → n ≤ 5
    → rounds depth g.visited < fuel
    → g.adj ≡ m
    → Stacked m n depth s g.visited
    → Returns (Ends m n) (search_loop fuel s g)
unfolding search_loop
search_loop-Ends m n zero depth s g size small enough same st = absurd (omega arith)
search_loop-Ends m n (suc fuel) zero s g size small enough same st =
    rw (is_stack_empty-top 0 s st.top) (returns (st, same))
search_loop-Ends m n (suc fuel) (suc d) s g size small enough same st =
    let more : is_stack_empty s ≡ false = is_stack_empty-top (suc d) s st.top ∙ ground arith in
    rw more (
      Returns-bind (search_round-Stacked m n d s g size small same st)
        λ (s', g') (depth, st', same', less).
          search_loop-Ends m n fuel depth s' g' size small (omega arith) same' st')

-- Marks that all neighbours of marked vertices have are on every path.
path-marked :
    {m : Ints} (flags : Ints) {n v : ℕ}
    → 0 < n
    → get flags 0 ≢ pos 0
    → ((w : ℕ) → w < n → get flags w ≢ pos 0 → Settled m n flags w)
    → Reaches m n v
    → (v < n) × (get flags v ≢ pos 0)
path-marked flags inside rooted closed root = (inside, rooted)
path-marked flags inside rooted closed (step {j = j} path edge) =
    let (below, mark) = path-marked flags inside rooted closed path in
    (edge.0, closed _ below mark j edge)

abbrev pub Unvisited : Vertices → Type 0
Unvisited g = (i : ℕ) → i < vertex_count g → get g.visited i ≡ pos 0

-- The stack is empty, the marked vertices are those that a path reaches, and the matrix is as before.
pub record Searched (g : Vertices) (end : Stack × Vertices) : Type 0 where
  pub emptied : (end.0).top ≡ negsuc 0
  pub room : length ((end.0).items) ≡ 5
  pub matrix : (end.1).adj ≡ g.adj
  pub vertices : vertex_count (end.1) ≡ vertex_count g
  pub reached :
      (v : ℕ)
      → v < vertex_count g
      → (get (end.1).visited v ≢ pos 0) ↔ Reaches g.adj (vertex_count g) v

pub Ends-Searched :
    {g : Vertices} (end : Stack × Vertices)
    → 0 < vertex_count g
    → Ends g.adj (vertex_count g) end
    → Searched g end
Ends-Searched {g = g} (s, g') inside (st, same) = record {
  emptied = st.top;
  room = st.size;
  matrix = same;
  vertices = st.vertices;
  reached = λ v below.
      (st.reached v below, λ path. (path-marked g'.visited inside st.rooted all_settled path).1);
}
  where
    all_settled :
        (w : ℕ)
        → w < vertex_count g
        → get g'.visited w ≢ pos 0
        → Settled g.adj (vertex_count g) g'.visited w
    all_settled w below mark = elim (st.closed w below mark) [
      | inl (k, lt, at) ↦ absurd (omega arith)
      | inr settled ↦ settled
    ]
