-- ===== src/Graph/Adjacency/Explore.antt =====
-- A graph that addEdge builds in graph.c, and its search by bfs.
use mathlib.Core.Path.{subst, sym}
use mathlib.Core.List.{Memᴰ}
use mathlib.Core.List.Memᴰ
use oo_o_processor.Common.{
  ℕ, zero, suc, ◌*◌, ◌<◌, ◌≤◌, ◌≡◌, ◌≢◌, ◌⊎◌, ◌↔◌, refl, ap, ◌∙◌, arith, ℤ, pos, Bool, false, none,
  List, [], length, length-replicate, replicate, Returns, Returns-bind, Returns-map, inl, inr,
}
use oo_o_processor.Array.{Ints, get}
use oo_o_processor.Nodes.{Ptr, Heap}
use oo_o_processor.Graph.{Queue, is_empty}
use oo_o_processor.Graph.Adjacency.{Adjacency, create_graph, explore}
use oo_o_processor.Graph.Adjacency.Lists.{neighbours, create_graph-Lists}
use oo_o_processor.Graph.Adjacency.Search.{Leads, PathFrom, here, step, Inside}
use oo_o_processor.Graph.Adjacency.Traversal.{Unvisited, bfs-Explored}
use oo_o_processor.Graph.Adjacency.Edges.{
  Edges, Joins, Connected, root, along, Valid, all_linked, length-all_linked, add_edges-Lists,
  Built, all_linked-Built, neighbours-none,
}

-- The paths of the graph that is built are those along the edges.
Connected-path :
    (edges : Edges) (after : List (List ℤ)) (v : ℕ)
    → ((i j : ℕ) → Leads after i j ↔ (Joins edges i j ⊎ ⊥))
    → PathFrom after 0 v ↔ Connected edges v
Connected-path edges after v leads = (forth v, back v)
  where
    forth : (w : ℕ) → PathFrom after 0 w → Connected edges w
    forth w here = root
    forth w (step {i = i} {j = j} path edge) = elim ((leads i j).0 edge) [
      | inl joined ↦ along (forth i path) joined
      | inr never ↦ absurd never
    ]

    back : (w : ℕ) → Connected edges w → PathFrom after 0 w
    back w root = here
    back w (along {i = i} {j = j} path joined) = step (back i path) ((leads i j).1 (inl joined))

-- The queue is empty, and a vertex is marked if and only if edges connect it with the vertex 0.
pub record Visited (n : ℕ) (edges : Edges) (end : Queue × Adjacency) : Type 0 where
  pub emptied : is_empty end.0 ≡ 1
  pub vertices : length ((end.1).visited) ≡ n
  pub marked : (v : ℕ) → v < n → (get (end.1).visited v ≢ pos 0) ↔ Connected edges v

fresh-Unvisited : (n : ℕ) → Unvisited (replicate n (pos 0))
unfolding get
fresh-Unvisited zero i lt = absurd (omega arith)
fresh-Unvisited (suc n) zero lt = refl
fresh-Unvisited (suc n) (suc i) lt = fresh-Unvisited n i (omega arith)

no_leads : (n i : ℕ) (x : ℤ) → Memᴰ x (neighbours (replicate n []) i) → ⊥
no_leads n i x = rw (neighbours-none n i) λ m. Memᴰ.not-nil m

-- From a graph without edges, only the edges given lead anywhere.
Built-Leads :
    (n : ℕ) (edges : Edges) {after : List (List ℤ)}
    → Built n edges (replicate n []) after
    → (i j : ℕ) → Leads after i j ↔ (Joins edges i j ⊎ ⊥)
Built-Leads n edges b i j = (
  (λ m. elim ((b.leads i j).0 m) [
    | inl joined ↦ inl joined
    | inr m' ↦ inr (no_leads n i (pos j) m')
  ]),
  (λ c. elim c [ inl joined ↦ (b.leads i j).1 (inl joined) | inr never ↦ absurd never ]),
)

-- A graph of one to forty vertices is built by addEdge from any edges between them, each with two new
-- addresses, and searched by bfs from the vertex 0. With more fuel than vertices, and more steps than
-- twice the edges, this ends, with no access out of bounds; the queue is then empty, and a vertex is
-- marked if and only if edges connect it with the vertex 0.
pub explore-Visited :
    (fuel steps n : ℕ) (items : Ints) (edges : Edges) (h : Heap ℤ) (used : Ptr → Bool)
    → length items ≡ 40
    → 0 < n
    → n ≤ 40
    → n < fuel
    → 2 * length edges < steps
    → ((c : Ptr) → used c ≡ false → h c ≡ none)
    → Valid n used edges
    → Returns (Visited n edges) (explore fuel steps n items edges h)
unfolding explore create_graph
explore-Visited fuel steps n items edges h used size some small enough room free valid =
    let start : List (List ℤ) = replicate n [] in
    let length_start : length start ≡ n = length-replicate n [] in
    let after = all_linked edges start in
    let length_after : length after ≡ n = length-all_linked edges start ∙ length_start in
    let built =
      all_linked-Built edges n used start length_start valid (λ i x m. absurd (no_leads n i x m)) in
    Returns-bind
      (add_edges-Lists edges (create_graph n) free
        (subst (λ k. Valid k used edges) (sym length_start) valid) (create_graph-Lists h n))
      λ (g', h') (lists, flags).
        Returns-map
          (bfs-Explored fuel steps items 0 g' h' after size lists
            (subst (Inside after) (sym length_after) built.inside) (omega arith)
            (ap length flags ∙ length-replicate n (pos 0) ∙ sym length_after)
            (subst Unvisited (sym flags) (fresh-Unvisited n)) (omega arith) (omega arith)
            (λ i. omega (arith, built.short i, ap length (neighbours-none n i))))
          λ end e. record {
            emptied = e.emptied;
            vertices = e.vertices ∙ length_after;
            marked = λ v below.
                let (to, from) = e.marked v (omega arith) in
                let (to', from') = Connected-path edges after v (Built-Leads n edges built) in
                (λ mark. to' (to mark), λ joined. from (from' joined));
          }
