-- ===== src/Graph/Adjacency/Traversal.antt =====
-- bfs of graph.c as a whole.
use mathlib.Core.Path.{subst, sym}
use mathlib.Core.List.{Memᴰ}
use mathlib.Core.List.Memᴰ
use oo_o_processor.Common.{
  ℕ, zero, suc, ◌+◌, ◌<◌, ◌≤◌, ◌≡◌, ◌≢◌, ◌↔◌, refl, ap, ◌∙◌, arith, ℤ, pos, List, [], ◌∷◌, ◌==◌,
  length, Returns, returns, Returns-bind, Bool-cases, inl, inr,
}
use oo_o_processor.Array.{Ints, get, set, store-set, length-set, get-set_same, get-set_other}
use oo_o_processor.Bfs.{index}
use oo_o_processor.Bfs.State.{count-mark, one_neq, pos_injective, same}
use oo_o_processor.Bfs.Traversal.{count-Unvisited}
use oo_o_processor.Nodes.{Ptr, null, Heap}
use oo_o_processor.Nodes.Chain.{Chain, nil, cons}
use oo_o_processor.Graph.{Queue, is_empty}
use oo_o_processor.Graph.Fifo.{Holds, empty, enqueue-Holds, dequeue-Holds-cons}
use oo_o_processor.Graph.Calls.{is_empty-nil, is_empty-cons}
use oo_o_processor.Graph.Adjacency.{Adjacency, search_loop, bfs}
use oo_o_processor.Graph.Adjacency.Lists.{Lists, neighbours, list_at-Chain}
use oo_o_processor.Graph.Adjacency.Search.{PathFrom, here, step, Inside, Settled, Seen, scan-Looked}

module _ {adj : List (List ℤ)} {n start done used : ℕ} {q : Queue} {flags : Ints} where
  -- The vertex that dequeue returned is the one whose neighbours are looked at.
  Seen-dequeue :
      {x : ℤ} {xs : List ℤ} {q' : Queue} (v : ℕ)
      → x ≡ pos v
      → Holds used q' xs
      → Seen adj n start done used n q flags (x ∷ xs)
      → Seen adj n start (done + 1) used v q' flags xs
  Seen-dequeue v at held s = record {
    vertices = s.vertices;
    white = s.white;
    queue = held;
    waiting = omega (arith, s.waiting);
    queued = λ y m. s.queued y (Memᴰ.tail m);
    rooted = s.rooted;
    reached = s.reached;
    closed = λ w lt mark. elim (s.closed w lt mark) [
      | inl waiting ↦ elim waiting [
        | inl m ↦ elim (Memᴰ.cases_cons m) [
          | inl e ↦ inl (inr (pos_injective (e ∙ at)))
          | inr later ↦ inl (inl later)
        ]
        | inr e ↦ absurd (omega (arith, e))
      ]
      | inr settled ↦ inr settled
    ];
  }

  -- Once its neighbours are marked, no vertex is looked at.
  Seen-done :
      {v : ℕ} {xs : List ℤ}
      → Settled adj flags v
      → Seen adj n start done used v q flags xs
      → Seen adj n start done used n q flags xs
  Seen-done {v = v} all s = record {
    vertices = s.vertices;
    white = s.white;
    queue = s.queue;
    waiting = s.waiting;
    queued = s.queued;
    rooted = s.rooted;
    reached = s.reached;
    closed = λ w lt mark. elim (s.closed w lt mark) [
      | inl waiting ↦ elim waiting [
        | inl m ↦ inl (inl m)
        | inr e ↦ inr (subst (Settled adj flags) (sym e) all)
      ]
      | inr settled ↦ inr settled
    ];
  }

-- The end of the search: nothing is in the queue.
abbrev pub Ends : List (List ℤ) → ℕ → ℕ → Queue × Ints → Type 0
Ends adj n start (q, flags) = (done : ℕ) × (used : ℕ) × Seen adj n start done used n q flags []

module _ (h : Heap ℤ) (ls : List Ptr) (adj : List (List ℤ)) (n start : ℕ) (lists : Lists h ls adj)
    (vertices : length adj ≡ n) (inside : Inside adj n) (small : n ≤ 40) where
  search_loop-Ends :
      (fuel steps : ℕ) {done used : ℕ} {q : Queue} {flags : Ints} (xs : List ℤ)
      → n < fuel + done
      → ((i : ℕ) (p : Ptr) (ps : List Ptr)
          → Chain h null p ps (neighbours adj i)
          → length ps < steps)
      → Seen adj n start done used n q flags xs
      → Returns (Ends adj n start) (search_loop fuel steps ls h q flags)
  unfolding search_loop index
  search_loop-Ends zero steps xs enough room s = absurd (omega (arith, s.waiting, s.white))
  search_loop-Ends (suc fuel) steps [] enough room s = rw (is_empty-nil s.queue) (returns (_, _, s))
  search_loop-Ends (suc fuel) steps {done} {used} {q} {flags} (x ∷ xs) enough room s =
      let (v, at, below, mark) = s.queued x (Memᴰ.head refl) in
      let (p, ps, found, chain) = list_at-Chain v (omega (arith, vertices)) lists in
      rw (is_empty-cons s.queue) (
        Returns-bind (dequeue-Holds-cons (omega (arith, s.white)) s.queue)
          λ (y, q₁) (same_item, held).
            rw (same_item, at, found)
              (Returns-bind
                (scan-Looked steps small chain (room v p ps chain)
                  (λ z m.
                    let (j, e, lt) = inside v z m in
                    (
                      j,
                      e,
                      lt,
                      PathFrom.step (s.reached v below mark)
                          (subst (λ t. Memᴰ t (neighbours adj v)) e m),
                    ))
                  (Seen-dequeue v at held s))
                λ (q₂, flags') (used', xs', s', kept, looked).
                  search_loop-Ends fuel steps xs' (omega arith) room (Seen-done looked s')))

length-Chain :
    {h : Heap ℤ} {stop p : Ptr} {ps : List Ptr} {xs : List ℤ}
    → Chain h stop p ps xs
    → length ps ≡ length xs
length-Chain nil = refl
length-Chain (cons e out chain) = ap suc (length-Chain chain)

-- A marked vertex has only marked neighbours at the end, so marks are on every path.
path-marked :
    {adj : List (List ℤ)} {n start : ℕ} (end : Queue × Ints) {w : ℕ}
    → Ends adj n start end
    → Inside adj n
    → start < n
    → PathFrom adj start w
    → (w < n) × (get end.1 w ≢ pos 0)
path-marked end (done, used, s) inside lt here = (lt, s.rooted)
path-marked end (done, used, s) inside lt (step {i = i} {j = j} path edge) =
    let (below, mark) = path-marked end (done, used, s) inside lt path in
    let (k, e, k_below) = inside i (pos j) edge in
    elim (s.closed i below mark) [
      | inl waiting ↦ elim waiting [
        | inl m ↦ absurd (Memᴰ.not-nil m)
        | inr e' ↦ absurd (omega (arith, e'))
      ]
      | inr settled ↦ (rw (pos_injective e) k_below, settled j edge)
    ]

abbrev pub Unvisited : Ints → Type 0
Unvisited flags = (i : ℕ) → i < length flags → get flags i ≡ pos 0

-- The queue is empty, and the marked vertices are those that a path reaches.
pub record Explored (adj : List (List ℤ)) (start : ℕ) (end : Queue × Adjacency) : Type 0 where
  pub emptied : is_empty end.0 ≡ 1
  pub vertices : length ((end.1).visited) ≡ length adj
  pub marked : (v : ℕ) → v < length adj → (get (end.1).visited v ≢ pos 0) ↔ PathFrom adj start v

-- The search starts with the vertex marked and enqueued.
module _ (adj : List (List ℤ)) (start : ℕ) (flags : Ints) (size : length flags ≡ length adj)
    (inside : start < length flags) (white : Unvisited flags) where
  start_mark : (v : ℕ) → v < length flags → get (set flags start (pos 1)) v ≢ pos 0 → v ≡ start
  start_mark v lt mark = elim (Bool-cases (start == v)) [
    | inl t ↦ sym (same start v t)
    | inr f ↦ absurd (mark (get-set_other flags start v (pos 1) inside (ground arith) ∙ white v lt))
  ]

  start-marked : get (set flags start (pos 1)) start ≢ pos 0
  start-marked = subst (λ x. x ≢ pos 0) (sym (get-set_same flags start (pos 1) inside)) one_neq

  start-Seen :
      (q : Queue)
      → Holds 1 q (pos start ∷ [])
      → Seen adj (length adj) start 0 1 (length adj) q (set flags start (pos 1)) (pos start ∷ [])
  start-Seen q held = record {
    vertices = length-set flags start (pos 1) ∙ size;
    white = omega (
      arith,
      count-mark flags start inside (white start inside),
      count-Unvisited flags white,
      size,
    );
    queue = held;
    waiting = refl;
    queued = λ x m. elim (Memᴰ.cases_cons m) [
      | inl e ↦ (start, e, omega (arith, size), start-marked)
      | inr none ↦ absurd (Memᴰ.not-nil none)
    ];
    rooted = start-marked;
    reached = λ w lt mark. rw (start_mark w (omega (arith, size)) mark) PathFrom.here;
    closed = λ w lt mark. inl (inl (Memᴰ.head (ap pos (start_mark w (omega (arith, size)) mark))));
  }

-- On lists in the memory that hold the neighbours, all of them among at most forty vertices, none of
-- these marked, and with fuel for the vertices and for the nodes of each list, bfs from one of the
-- vertices ends, with no access out of bounds. The queue is then empty, and a vertex is marked if and
-- only if a path leads to it from the start.
pub bfs-Explored :
    (fuel steps : ℕ) (items : Ints) (start : ℕ) (g : Adjacency) (h : Heap ℤ) (adj : List (List ℤ))
    → length items ≡ 40
    → Lists h g.lists adj
    → Inside adj (length adj)
    → length adj ≤ 40
    → length g.visited ≡ length adj
    → Unvisited g.visited
    → start < length adj
    → length adj < fuel
    → ((i : ℕ) → length (neighbours adj i) < steps)
    → Returns (Explored adj start) (bfs fuel steps items start g h)
unfolding bfs
bfs-Explored fuel steps items start g h adj size lists inside small vertices white lt enough room =
    let begin : start < length g.visited = omega (arith, vertices) in
    rw (store-set g.visited start (pos 1) begin) (
      Returns-bind (enqueue-Holds {used = 0} (pos start) (omega arith) (empty size refl refl))
        λ q held.
          Returns-bind
            (search_loop-Ends h g.lists adj (length adj) start lists refl inside small fuel steps
              (pos start ∷ []) (omega arith)
              (λ i p ps chain. omega (arith, room i, length-Chain chain))
              (start-Seen adj start g.visited vertices begin white q held))
            λ (q', flags') (done, used, s). returns (record {
              emptied = is_empty-nil s.queue;
              vertices = s.vertices;
              marked = λ v below. (
                s.reached v below,
                λ path. (path-marked (q', flags') (done, used, s) inside lt path).1,
              );
            }))
