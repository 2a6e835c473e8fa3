-- ===== src/Graph/DepthFirst/Whole.antt =====
-- depthFirstSearch of graph.c as a whole.
use mathlib.Core.Path.{subst, sym}
use oo_o_processor.Common.{
  ℕ, ◌<◌, ◌≤◌, ◌≡◌, ◌≢◌, refl, ap, ◌∙◌, inl, inr, arith, pos, negsuc, ◌==◌, length, Bool-cases,
  Returns, returns, Returns-bind, Returns-map,
}
use oo_o_processor.Array.{Ints, get-set_other, get-set_same, get, set, length-set}
use oo_o_processor.Bfs.Reach.{Reaches}
use oo_o_processor.Bfs.State.{count-mark, one_neq, same}
use oo_o_processor.Bfs.Traversal.{count-Unvisited, reset_loop-clears}
use oo_o_processor.Graph.DepthFirst.{Stack, Vertices, vertex_count, search, depth_first_search}
use oo_o_processor.Graph.DepthFirst.Stacked.{Stacked, pushed, marked, mark-marked, push-pushed}
use oo_o_processor.Graph.DepthFirst.Search.{search_loop-Ends, Searched, Ends-Searched, Unvisited}

-- An empty stack; `items` is what the array holds.
abbrev pub empty : Ints → Stack
empty items = record { items = items; top = negsuc 0 }

-- The search starts with the vertex 0 marked and pushed.
module _ (items : Ints) (g : Vertices) (size : length items ≡ 5) (inside : 0 < vertex_count g)
    (white : Unvisited g) where
  start-mark : (v : ℕ) → get (set g.visited 0 (pos 1)) v ≢ pos 0 → v < vertex_count g → v ≡ 0
  start-mark v mark below = elim (Bool-cases (0 == v)) [
    | inl t ↦ sym (same 0 v t)
    | inr f ↦
        absurd (mark (get-set_other g.visited 0 v (pos 1) inside (ground arith) ∙ white v below))
  ]

  start_marked : get (set g.visited 0 (pos 1)) 0 ≢ pos 0
  start_marked = subst (λ x. x ≢ pos 0) (sym (get-set_same g.visited 0 (pos 1) inside)) one_neq

  start_item : get (set items 0 (pos 0)) 0 ≡ pos 0
  start_item = get-set_same items 0 (pos 0) (omega (arith, size))

  pub start-Stacked :
      Stacked g.adj (vertex_count g) 1 (pushed 0 0 (empty items)) (set g.visited 0 (pos 1))
  unfolding pushed
  start-Stacked = record {
    size = length-set items 0 (pos 0) ∙ size;
    vertices = length-set g.visited 0 (pos 1);
    top = refl;
    white =
        omega
          (arith, count-mark g.visited 0 inside (white 0 inside), count-Unvisited g.visited white);
    held = λ k lt. let e : k ≡ 0 = omega arith in rw e (0, start_item, inside, start_marked);
    edges = λ k i j lt. absurd (omega arith);
    rooted = start_marked;
    reached = λ v below mark. rw (start-mark v mark below) Reaches.root;
    closed =
        λ v below mark. inl (0, omega arith, start_item ∙ ap pos (sym (start-mark v mark below)));
  }

-- From an empty stack and a graph of one to five vertices, none marked, the loop of depthFirstSearch
-- ends, with no access out of bounds. The stack is then empty, a vertex is marked if and only if a path
-- leads to it from the vertex 0, and the matrix is as before.
pub search-Searched :
    (items : Ints) (g : Vertices)
    → length items ≡ 5
    → length g.adj ≡ 25
    → 0 < vertex_count g
    → vertex_count g ≤ 5
    → Unvisited g
    → Returns (Searched g) (search (empty items) g)
unfolding search marked
search-Searched items g size matrix inside small white =
    rw (mark-marked 0 g inside, push-pushed 0 0 (empty items) refl (omega (arith, size)))
      (Returns-map
        (search_loop-Ends g.adj (vertex_count g) 11 1 (pushed 0 0 (empty items)) (marked 0 g) matrix
          small (omega (arith, (start-Stacked items g size inside white).white)) refl
          (start-Stacked items g size inside white))
        λ end. Ends-Searched end inside)

-- The stack is empty, no vertex is marked, and the graph is as before.
pub record Restored (g : Vertices) (end : Stack × Vertices) : Type 0 where
  pub emptied : (end.0).top ≡ negsuc 0
  pub room : length ((end.0).items) ≡ 5
  pub matrix : (end.1).adj ≡ g.adj
  pub vertices : vertex_count (end.1) ≡ vertex_count g
  pub cleared : Unvisited (end.1)

-- From an empty stack and a graph of one to five vertices, none marked, depthFirstSearch returns with
-- an empty stack and no vertex marked, and the matrix and the number of vertices are as before.
pub depth_first_search-Restored :
    (items : Ints) (g : Vertices)
    → length items ≡ 5
    → length g.adj ≡ 25
    → 0 < vertex_count g
    → vertex_count g ≤ 5
    → Unvisited g
    → Returns (Restored g) (depth_first_search (empty items) g)
unfolding depth_first_search
depth_first_search-Restored items g size matrix inside small white =
    Returns-bind (search-Searched items g size matrix inside small white) λ (s', g') e.
      Returns-bind
        (reset_loop-clears (vertex_count g') 0 g'.visited (omega arith)
          (λ k lt. absurd (omega arith)))
        λ flags (length_flags, clear). returns (record {
          emptied = e.emptied;
          room = e.room;
          matrix = e.matrix;
          vertices = length_flags ∙ e.vertices;
          cleared = λ k lt. clear k (omega (arith, length_flags));
        })
