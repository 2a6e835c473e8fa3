-- ===== src/Graph/Adjacency/Search.antt =====
-- bfs of graph.c: what holds of the queue and the marks during the search.
use mathlib.Core.Path.{subst, sym}
use mathlib.Core.List.{Memᴰ}
use mathlib.Core.List.Memᴰ
use oo_o_processor.Common.{
  ℕ, zero, suc, ◌+◌, ◌<◌, ◌≤◌, ◌≡◌, ◌≢◌, ◌⊎◌, refl, ap, ◌∙◌, arith, ℤ, pos, ◌==ℤ◌, false, List, [],
  ◌∷◌, ◌++◌, ◌==◌, length, length-append, Returns, returns, Returns-bind, Returns-map, Returns-if,
  Bool-cases, inl, inr,
}
use oo_o_processor.Array.{
  Ints, get, set, load-get, store-set, length-set, count, get-set_same, get-set_other,
}
use oo_o_processor.Bfs.{index}
use oo_o_processor.Bfs.State.{count-mark, stays, one_neq, pos_injective, same}
use oo_o_processor.Graph.{Queue, enqueue}
use oo_o_processor.Graph.Fifo.{Holds, enqueue-Holds}
use oo_o_processor.Nodes.{Ptr, null, Heap}
use oo_o_processor.Nodes.Chain.{Chain, nil, cons, not_null, deref-ok}
use oo_o_processor.Graph.Adjacency.{visit, scan}
use oo_o_processor.Graph.Adjacency.Lists.{neighbours}

-- An edge of the graph, to a vertex.
abbrev pub Leads : List (List ℤ) → ℕ → ℕ → Type 0
Leads adj i j = Memᴰ (pos j) (neighbours adj i)

-- A path from the vertex at the start.
pub data PathFrom (adj : List (List ℤ)) (start : ℕ) : ℕ → Type 0 where
  here : PathFrom adj start start
  step : {i j : ℕ} → PathFrom adj start i → Leads adj i j → PathFrom adj start j

-- Every neighbour is one of the n vertices.
abbrev pub Inside : List (List ℤ) → ℕ → Type 0
Inside adj n = (i : ℕ) (x : ℤ) → Memᴰ x (neighbours adj i) → (j : ℕ) × (x ≡ pos j) × (j < n)

-- Every neighbour of the vertex is marked.
abbrev pub Settled : List (List ℤ) → Ints → ℕ → Type 0
Settled adj flags i = (j : ℕ) → Leads adj i j → get flags j ≢ pos 0

-- `used` calls of enqueue and `done` calls of dequeue were made, the queue holds xs, and the neighbours of v are just looked at;
-- no vertex is, where v is n. The marked vertices are those that were found, and each is in the queue or
-- is v or has only marked neighbours.
pub record Seen (adj : List (List ℤ)) (n start done used v : ℕ) (q : Queue) (flags : Ints)
    (xs : List ℤ) : Type 0 where
  pub vertices : length flags ≡ n
  pub white : count (pos 0) flags + used ≡ n
  pub queue : Holds used q xs
  pub waiting : done + length xs ≡ used
  pub queued : (x : ℤ) → Memᴰ x xs → (w : ℕ) × (x ≡ pos w) × (w < n) × (get flags w ≢ pos 0)
  pub rooted : get flags start ≢ pos 0
  pub reached : (w : ℕ) → w < n → get flags w ≢ pos 0 → PathFrom adj start w
  pub closed :
      (w : ℕ) → w < n → get flags w ≢ pos 0 → (Memᴰ (pos w) xs ⊎ (w ≡ v)) ⊎ Settled adj flags w

module _ {adj : List (List ℤ)} {n start done used v : ℕ} {q : Queue} {flags : Ints} {xs : List ℤ}
    (s : Seen adj n start done used v q flags xs) (small : n ≤ 40) (u : ℕ) (below : u < n)
    (white : get flags u ≡ pos 0) (path : PathFrom adj start u) where
  in_flags : u < length flags
  in_flags = omega (arith, s.vertices)

  pub fewer : count (pos 0) (set flags u (pos 1)) + 1 ≡ count (pos 0) flags
  fewer = count-mark flags u in_flags white

  pub now_marked : get (set flags u (pos 1)) u ≢ pos 0
  now_marked = subst (λ x. x ≢ pos 0) (sym (get-set_same flags u (pos 1) in_flags)) one_neq

  -- A mark other than the new one is old.
  old_mark : (w : ℕ) → get (set flags u (pos 1)) w ≢ pos 0 → (u == w) ≡ false → get flags w ≢ pos 0
  old_mark w mark f =
      subst (λ x. x ≢ pos 0) (get-set_other flags u w (pos 1) in_flags (ground arith)) mark

  queued-set :
      (x : ℤ)
      → Memᴰ x (xs ++ pos u ∷ [])
      → (w : ℕ) × (x ≡ pos w) × (w < n) × (get (set flags u (pos 1)) w ≢ pos 0)
  queued-set x m = elim (Memᴰ.append_cases xs m) [
    | inl old ↦ let (w, e, lt, mark) = s.queued x old in (w, e, lt, stays flags u w in_flags mark)
    | inr new ↦ elim (Memᴰ.cases_cons new) [
      | inl e ↦ (u, e, below, now_marked)
      | inr none ↦ absurd (Memᴰ.not-nil none)
    ]
  ]

  closed-set :
      (w : ℕ)
      → w < n
      → get (set flags u (pos 1)) w ≢ pos 0
      → (Memᴰ (pos w) (xs ++ pos u ∷ []) ⊎ (w ≡ v)) ⊎ Settled adj (set flags u (pos 1)) w
  closed-set w lt mark = elim (Bool-cases (u == w)) [
    | inl t ↦ inl (inl (Memᴰ.append_right xs (Memᴰ.head (ap pos (sym (same u w t))))))
    | inr f ↦ elim (s.closed w lt (old_mark w mark f)) [
      | inl waiting ↦ elim waiting [
        | inl m ↦ inl (inl (Memᴰ.append_left (pos u ∷ []) m))
        | inr e ↦ inl (inr e)
      ]
      | inr settled ↦ inr λ j edge. stays flags u j in_flags (settled j edge)
    ]
  ]

  -- A vertex that was found is marked and enqueued.
  pub Seen-enqueue :
      Returns
        (λ q'. Seen adj n start done (used + 1) v q' (set flags u (pos 1)) (xs ++ pos u ∷ []))
        (enqueue q (pos u))
  Seen-enqueue =
      Returns-map (enqueue-Holds (pos u) (omega (arith, fewer, s.white)) s.queue) λ q' held.
        record {
          vertices = length-set flags u (pos 1) ∙ s.vertices;
          white = omega (arith, fewer, s.white);
          queue = held;
          waiting = omega (arith, s.waiting, length-append xs (pos u ∷ []));
          queued = queued-set;
          rooted = stays flags u start in_flags s.rooted;
          reached = λ w lt mark. elim (Bool-cases (u == w)) [
            | inl t ↦ subst (PathFrom adj start) (same u w t) path
            | inr f ↦ s.reached w lt (old_mark w mark f)
          ];
          closed = closed-set;
        }

-- After a vertex was looked at: it is marked, and the earlier marks are kept.
abbrev pub Looked : List (List ℤ) → ℕ → ℕ → ℕ → ℕ → Ints → (ℕ → Type 0) → Queue × Ints → Type 0
Looked adj n start done v flags Marked (q', flags') =
    (used : ℕ) × (xs : List ℤ) × Seen adj n start done used v q' flags' xs
    × ((w : ℕ) → get flags w ≢ pos 0 → get flags' w ≢ pos 0)
    × ((w : ℕ) → Marked w → get flags' w ≢ pos 0)

pub visit-Looked :
    {adj : List (List ℤ)} {n start done used v : ℕ} {q : Queue} {flags : Ints} {xs : List ℤ} (u : ℕ)
    → n ≤ 40
    → u < n
    → PathFrom adj start u
    → Seen adj n start done used v q flags xs
    → Returns (Looked adj n start done v flags (λ w. w ≡ u)) (visit (pos u) q flags)
unfolding visit index
visit-Looked {flags = flags} u small below path s =
    let inside : u < length flags = omega (arith, s.vertices) in
    rw (load-get flags u inside) (
      Returns-if (get flags u ==ℤ pos 0)
        (λ t.
          let white : get flags u ≡ pos 0 = ground arith in
          rw (store-set flags u (pos 1) inside) (
            Returns-bind (Seen-enqueue s small u below white path) λ q' s'. returns (
              _,
              _,
              s',
              (λ w mark. stays flags u w inside mark),
              λ w e. rw e (now_marked s small u below white path),
            )))
        (λ f. returns (_, _, s, (λ w mark. mark), λ w e. rw e (ground arith))))

-- The inner while looks at all nodes of a list.
pub scan-Looked :
    (fuel : ℕ) {adj : List (List ℤ)} {n start done used v : ℕ} {q : Queue} {flags : Ints}
    {xs : List ℤ} {h : Heap ℤ} {p : Ptr} {ps : List Ptr} {ys : List ℤ}
    → n ≤ 40
    → Chain h null p ps ys
    → length ps < fuel
    → ((y : ℤ) → Memᴰ y ys → (u : ℕ) × (y ≡ pos u) × (u < n) × PathFrom adj start u)
    → Seen adj n start done used v q flags xs
    → Returns (Looked adj n start done v flags (λ w. Memᴰ (pos w) ys)) (scan fuel p h q flags)
unfolding scan
scan-Looked zero small chain enough found s = absurd (omega arith)
scan-Looked (suc fuel) small nil enough found s =
    returns (_, _, s, (λ w mark. mark), λ w m. absurd (Memᴰ.not-nil m))
scan-Looked (suc fuel) small (cons {x = y} e out chain) enough found s =
    let (u, at, below, path) = found y (Memᴰ.head refl) in
    rw (not_null e, deref-ok e, at)
      (Returns-bind (visit-Looked u small below path s) λ (q', flags') (_, _, s', kept, looked).
        Returns-map (scan-Looked fuel small chain (omega arith) (λ y' m. found y' (Memᴰ.tail m)) s')
          λ end (used, xs', s'', kept', looked'). (
            used,
            xs',
            s'',
            (λ w mark. kept' w (kept w mark)),
            λ w m. elim (Memᴰ.cases_cons m) [
              | inl e' ↦ kept' w (looked w (pos_injective e'))
              | inr later ↦ looked' w later
            ],
          ))
