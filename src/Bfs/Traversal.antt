-- ===== src/Bfs/Traversal.antt =====
-- breadthFirstSearch of bfs.c as a whole.
use oo_o_processor.Common.{
  last_or_before, ℕ, zero, suc, ◌+◌, ◌-◌, ◌<◌, ◌≤◌, ◌≡◌, ◌≢◌, refl, ap, ◌∙◌, inl, inr, arith, pos,
  negsuc, ◌+ℤ◌, ◌==◌, true, ok, length, Returns, returns, Bool-cases, Returns-bind, Returns-map, [],
  ◌∷◌,
}
use oo_o_processor.Array.{Ints, get-set_other, get-set_same, get, set, store-set, length-set, count}
use oo_o_processor.Bfs.{
  Queue, Graph, vertex_count, index, insert, is_queue_empty, mark, reset_loop, breadth_first_search,
}
use oo_o_processor.Bfs.Reach.{Reaches}
use oo_o_processor.Bfs.State.{count-mark, Search, marked, mark-marked, pushed, one_neq, same}
use oo_o_processor.Bfs.Search.{search_loop-Searches, path-marked}

-- The queue before its first item; `items` is what the array holds.
abbrev pub fresh : Ints → Queue
fresh items = record { items = items; rear = negsuc 0; front = 0; item_count = pos 0 }

abbrev pub Unvisited : Graph → Type 0
Unvisited g = (i : ℕ) → i < vertex_count g → get g.visited i ≡ pos 0

-- The vertices reached from the vertex 0 are the items that the queue held, each once; the queue is
-- empty, and the graph is as before.
pub record Traversal (g : Graph) (end : Queue × Graph) : Type 0 where
  pub reached : ℕ
  pub last : (end.0).rear +ℤ pos 1 ≡ pos reached
  pub drained : is_queue_empty (end.0) ≡ true
  pub only :
      (k : ℕ)
      → k < reached
      → (v : ℕ) × (get (end.0).items k ≡ pos v) × Reaches g.adj (vertex_count g) v
  pub all :
      (v : ℕ)
      → Reaches g.adj (vertex_count g) v
      → (k : ℕ) × (k < reached) × (get (end.0).items k ≡ pos v)
  pub once : (j k : ℕ) → j < k → k < reached → get (end.0).items j ≢ get (end.0).items k
  pub labels : (end.1).labels ≡ g.labels
  pub matrix : (end.1).adj ≡ g.adj
  pub vertices : vertex_count (end.1) ≡ vertex_count g
  pub cleared : Unvisited (end.1)

pub reset_loop-clears :
    (n i : ℕ) (flags : Ints)
    → i + n ≡ length flags
    → ((k : ℕ) → k < i → get flags k ≡ pos 0)
    → Returns
        (λ after.
          (length after ≡ length flags) × ((k : ℕ) → k < length flags → get after k ≡ pos 0))
        (reset_loop n i flags)
unfolding reset_loop
reset_loop-clears zero i flags e clear = returns (refl, λ k lt. clear k (omega arith))
reset_loop-clears (suc n) i flags e clear =
    let kept = length-set flags i (pos 0) in
    rw (store-set flags i (pos 0) (omega arith)) (
      Returns-map
        (reset_loop-clears n (i + 1) (set flags i (pos 0)) (omega (arith, kept)) (λ k lt.
          elim (last_or_before lt) [
            | inl e' ↦ rw e' (get-set_same flags i (pos 0) (omega arith))
            | inr lt' ↦ get-set_other flags i k (pos 0) (omega arith) (omega arith) ∙ clear k lt'
          ]))
        λ after (size, all). (size ∙ kept, λ k lt. all k (omega (arith, kept))))

pub count-Unvisited :
    (flags : Ints)
    → ((k : ℕ) → k < length flags → get flags k ≡ pos 0)
    → count (pos 0) flags ≡ length flags
unfolding count get
count-Unvisited [] all = refl
count-Unvisited (x ∷ flags) all =
    rw (all 0 (omega arith))
      (omega (arith, count-Unvisited flags (λ k lt. all (suc k) (omega arith))))

-- The search starts with the vertex 0 marked and inserted.
module _ (items : Ints) (g : Graph) (size : length items ≡ 5) (inside : 0 < vertex_count g)
    (white : Unvisited g) where
  insert-start : insert (pos 0) (fresh items) ≡ ok (pushed 0 0 (fresh items))
  unfolding insert pushed index ◌+ℤ◌
  insert-start = rw (store-set items 0 (pos 0) (omega arith)) refl

  white-start : count (pos 0) (set g.visited 0 (pos 1)) + 1 ≡ vertex_count g
  white-start =
      omega (arith, count-mark g.visited 0 inside (white 0 inside), count-Unvisited g.visited white)

  root_marked : get (set g.visited 0 (pos 1)) 0 ≢ pos 0
  root_marked = rw (get-set_same g.visited 0 (pos 1) inside) one_neq

  start-Search :
      Search g.adj (vertex_count g) 0 1 (pushed 0 0 (fresh items)) (set g.visited 0 (pos 1))
  unfolding pushed ◌+ℤ◌
  start-Search = record {
    size = length-set items 0 (pos 0) ∙ size;
    vertices = length-set g.visited 0 (pos 1);
    rear = refl;
    behind = omega arith;
    first = omega arith;
    waiting = refl;
    white = white-start;
    rooted = root_marked;
    entered = λ k lt.
        let e : k ≡ 0 = omega arith in
        rw e (
          0,
          get-set_same items 0 (pos 0) (omega (arith, size)),
          inside,
          Reaches.root,
          root_marked,
        );
    queued = λ v below mark. elim (Bool-cases (0 == v)) [
      | inl t ↦
          (0, omega arith, get-set_same items 0 (pos 0) (omega (arith, size)) ∙ ap pos (same 0 v t))
      | inr t ↦
          absurd (mark (get-set_other g.visited 0 v (pos 1) inside (ground arith) ∙ white v below))
    ];
    apart = λ j k lt lt'. absurd (omega arith);
    settled = λ k v lt. absurd (omega arith);
  }

drained :
    {m flags : Ints} {n done used : ℕ} {q : Queue}
    → Search m n done used q flags
    → q.front ≡ used
    → is_queue_empty q ≡ true
unfolding is_queue_empty
drained {used = used} {q = q} s e =
    let none_waiting : used - q.front ≡ 0 = omega arith in rw (s.waiting, none_waiting) refl

-- From a new queue and a graph of one to five vertices, none marked, breadthFirstSearch returns.
-- The queue has then held exactly the vertices that a path from the vertex 0 reaches, each once,
-- and is empty; the labels and the matrix are as before, and no vertex is marked.
pub breadth_first_search-Traversal :
    (items : Ints) (g : Graph)
    → length items ≡ 5
    → length g.adj ≡ 25
    → 0 < vertex_count g
    → vertex_count g ≤ 5
    → Unvisited g
    → Returns (Traversal g) (breadth_first_search (fresh items) g)
unfolding breadth_first_search marked pushed
breadth_first_search-Traversal items g size matrix inside small white =
    rw (mark-marked 0 g inside, insert-start items g size inside white)
      (Returns-bind
        (search_loop-Searches g.labels g.adj (vertex_count g) matrix small 6 1
          (pushed 0 0 (fresh items)) (marked 0 g) (omega arith)
          (start-Search items g size inside white) (refl, refl))
        λ (q', g') (used, s, (labels, adj), front).
          Returns-bind
            (reset_loop-clears (vertex_count g') 0 g'.visited (omega arith)
              (λ k lt. absurd (omega arith)))
            λ flags (length_flags, clear). returns (record {
              reached = used;
              last = s.rear;
              drained = drained s front;
              only = λ k lt. let (v, at, below, path, mark) = s.entered k lt in (v, at, path);
              all = λ v path.
                  let (below, mark) =
                    path-marked g.labels g.adj (vertex_count g) matrix small inside s path in
                  s.queued v below mark;
              once = s.apart;
              labels = labels;
              matrix = adj;
              vertices = length_flags ∙ s.vertices;
              cleared = λ k lt. clear k (omega (arith, length_flags));
            }))
