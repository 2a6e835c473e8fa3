-- ===== src/Graph/DepthFirst/Stacked.antt =====
-- What holds of the stack and the marks of graph.c during the depth-first search, and the two steps
-- that keep it.
use mathlib.Core.Path.{subst, sym}
use oo_o_processor.Common.{
  ℕ, zero, suc, ◌+◌, ◌<◌, ◌≤◌, ◌≡◌, ◌≢◌, ◌⊎◌, refl, ap, ◌∙◌, inl, inr, arith, ℤ, pos, negsuc, ◌+ℤ◌,
  ◌-ℤ◌, ◌==◌, false, ok, length, Bool-cases,
}
use oo_o_processor.Array.{
  Ints, get-set_other, get-set_same, get, set, store-set, length-set, count, load-get,
}
use oo_o_processor.Bfs.{index}
use oo_o_processor.Bfs.Reach.{Edge, Reaches, Settled}
use oo_o_processor.Bfs.State.{count-mark, stays, one_neq, pos_injective, same}
use oo_o_processor.Graph.DepthFirst.{Stack, Vertices, push, pop, peek, is_stack_empty, mark}

-- `top` with so many items on the stack.
abbrev pub top_of : ℕ → ℤ
top_of zero = negsuc 0
top_of (suc d) = pos d

-- A vertex in one of the cells on the stack.
abbrev pub OnStack : ℕ → Ints → ℕ → Type 0
OnStack depth items v = (k : ℕ) × (k < depth) × (get items k ≡ pos v)

-- The items on the stack are marked vertices, each a neighbour of the one below it; a marked vertex is
-- reached from the vertex 0, and is on the stack or has only marked neighbours.
pub record Stacked (m : Ints) (n depth : ℕ) (s : Stack) (flags : Ints) : Type 0 where
  pub size : length s.items ≡ 5
  pub vertices : length flags ≡ n
  pub top : s.top ≡ top_of depth
  pub white : count (pos 0) flags + depth ≤ n
  pub held :
      (k : ℕ) → k < depth → (v : ℕ) × (get s.items k ≡ pos v) × (v < n) × (get flags v ≢ pos 0)
  pub edges :
      (k i j : ℕ)
      → suc k < depth
      → get s.items k ≡ pos i
      → get s.items (suc k) ≡ pos j
      → Edge m n i j
  pub rooted : get flags 0 ≢ pos 0
  pub reached : (v : ℕ) → v < n → get flags v ≢ pos 0 → Reaches m n v
  pub closed : (v : ℕ) → v < n → get flags v ≢ pos 0 → OnStack depth s.items v ⊎ Settled m n flags v

top_up : (depth : ℕ) → top_of depth +ℤ pos 1 ≡ pos depth
unfolding ◌+ℤ◌
top_up zero = refl
top_up (suc d) = ground arith

top_down : (d : ℕ) → pos d -ℤ pos 1 ≡ top_of d
unfolding ◌-ℤ◌
top_down zero = refl
top_down (suc d) = ground arith

-- The stack after a push, after a pop, and the vertices after a mark.
unfoldable pub pushed : ℕ → ℕ → Stack → Stack
pushed depth u s = record { items = set s.items depth (pos u); top = pos depth }

unfoldable pub popped : ℕ → Stack → Stack
popped d s = record { items = s.items; top = top_of d }

unfoldable pub marked : ℕ → Vertices → Vertices
marked u g = record { visited = set g.visited u (pos 1); adj = g.adj }

pub mark-marked : (u : ℕ) (g : Vertices) → u < length g.visited → mark (pos u) g ≡ ok (marked u g)
unfolding mark marked index
mark-marked u g h = rw (store-set g.visited u (pos 1) h) refl

pub push-pushed :
    (depth u : ℕ) (s : Stack)
    → s.top ≡ top_of depth
    → depth < length s.items
    → push (pos u) s ≡ ok (pushed depth u s)
unfolding push pushed index
push-pushed depth u s e h = rw (e, top_up depth, store-set s.items depth (pos u) h) refl

pub pop-popped :
    (d : ℕ) (s : Stack)
    → s.top ≡ top_of (suc d)
    → d < length s.items
    → pop s ≡ ok (get s.items d, popped d s)
unfolding pop popped index
pop-popped d s e h = rw (e, load-get s.items d h, top_down d) refl

pub peek-get :
    (d : ℕ) (s : Stack) → s.top ≡ top_of (suc d) → d < length s.items → peek s ≡ ok (get s.items d)
unfolding peek index
peek-get d s e h = rw (e, load-get s.items d h) refl

pub is_stack_empty-top :
    (depth : ℕ) (s : Stack) → s.top ≡ top_of depth → is_stack_empty s ≡ (depth == 0)
unfolding is_stack_empty
is_stack_empty-top zero s e = rw e refl
is_stack_empty-top (suc d) s e = rw e (ground arith)

module _ {m : Ints} {n d : ℕ} {s : Stack} {flags : Ints} (st : Stacked m n (suc d) s flags) (v : ℕ)
    (at : get s.items d ≡ pos v) where
  -- With all neighbours of the last vertex marked, it is popped.
  pub Stacked-popped : Settled m n flags v → Stacked m n d (popped d s) flags
  unfolding popped
  Stacked-popped all = record {
    size = st.size;
    vertices = st.vertices;
    top = refl;
    white = omega (arith, st.white);
    held = λ k lt. st.held k (omega arith);
    edges = λ k i j lt. st.edges k i j (omega arith);
    rooted = st.rooted;
    reached = st.reached;
    closed = λ w below mark. elim (st.closed w below mark) [
      | inl (k, lt, at') ↦ elim (Bool-cases (k == d)) [
        | inl t ↦ inr (
            subst (Settled m n flags)
              (pos_injective (sym at ∙ ap (get s.items) (sym (same k d t)) ∙ at')) all)
        | inr f ↦ inl (k, ground arith, at')
      ]
      | inr settled ↦ inr settled
    ];
  }

  module _ (small : n ≤ 5) (u : ℕ) (edge : Edge m n v u) (white : get flags u ≡ pos 0) where
    in_flags : u < length flags
    in_flags = omega (arith, st.vertices, edge.0)

    fewer : count (pos 0) (set flags u (pos 1)) + 1 ≡ count (pos 0) flags
    fewer = count-mark flags u in_flags white

    pub room : suc d < length s.items
    room = omega (arith, st.size, st.white, fewer)

    kept_item : (k : ℕ) → k < suc d → get (set s.items (suc d) (pos u)) k ≡ get s.items k
    kept_item k lt = get-set_other s.items (suc d) k (pos u) room (omega arith)

    new_item : get (set s.items (suc d) (pos u)) (suc d) ≡ pos u
    new_item = get-set_same s.items (suc d) (pos u) room

    now_marked : get (set flags u (pos 1)) u ≢ pos 0
    now_marked = subst (λ x. x ≢ pos 0) (sym (get-set_same flags u (pos 1) in_flags)) one_neq

    -- A mark other than the new one is old.
    old_mark :
        (w : ℕ) → get (set flags u (pos 1)) w ≢ pos 0 → (u == w) ≡ false → get flags w ≢ pos 0
    old_mark w mark f =
        subst (λ x. x ≢ pos 0) (get-set_other flags u w (pos 1) in_flags (ground arith)) mark

    held-pushed :
        (k : ℕ)
        → k < suc (suc d)
        → (w : ℕ) × (get (set s.items (suc d) (pos u)) k ≡ pos w)
          × (w < n)
          × (get (set flags u (pos 1)) w ≢ pos 0)
    held-pushed k lt = elim (Bool-cases (k == suc d)) [
      | inl t ↦ rw (same k (suc d) t) (u, new_item, edge.0, now_marked)
      | inr f ↦
          let lt' : k < suc d = ground arith in
          let (w, at', below, mark) = st.held k lt' in
          (w, kept_item k lt' ∙ at', below, stays flags u w in_flags mark)
    ]

    edges-pushed :
        (k i j : ℕ)
        → suc k < suc (suc d)
        → get (set s.items (suc d) (pos u)) k ≡ pos i
        → get (set s.items (suc d) (pos u)) (suc k) ≡ pos j
        → Edge m n i j
    edges-pushed k i j lt ati atj = elim (Bool-cases (k == d)) [
      | inl t ↦
          let e = same k d t in
          let ei : v ≡ i = pos_injective (
            sym at
            ∙ sym (kept_item d (omega arith))
            ∙ ap (get (set s.items (suc d) (pos u))) (sym e)
            ∙ ati) in
          let ej : u ≡ j =
            pos_injective
              (sym new_item ∙ ap (λ x. get (set s.items (suc d) (pos u)) (suc x)) (sym e) ∙ atj) in
          subst (λ x. Edge m n i x) ej (subst (λ x. Edge m n x u) ei edge)
      | inr f ↦
          st.edges k i j (ground arith) (sym (kept_item k (omega arith)) ∙ ati)
            (sym (kept_item (suc k) (ground arith)) ∙ atj)
    ]

    reached-pushed : (w : ℕ) → w < n → get (set flags u (pos 1)) w ≢ pos 0 → Reaches m n w
    reached-pushed w below mark = elim (Bool-cases (u == w)) [
      | inl t ↦
          let (v', at', below', mark') = st.held d (omega arith) in
          let from : Reaches m n v =
            subst (Reaches m n) (pos_injective (sym at' ∙ at)) (st.reached v' below' mark') in
          subst (Reaches m n) (same u w t) (Reaches.step from edge)
      | inr f ↦ st.reached w below (old_mark w mark f)
    ]

    closed-pushed :
        (w : ℕ)
        → w < n
        → get (set flags u (pos 1)) w ≢ pos 0
        → OnStack (suc (suc d)) (set s.items (suc d) (pos u)) w
          ⊎ Settled m n (set flags u (pos 1)) w
    closed-pushed w below mark = elim (Bool-cases (u == w)) [
      | inl t ↦ inl (suc d, omega arith, new_item ∙ ap pos (same u w t))
      | inr f ↦ elim (st.closed w below (old_mark w mark f)) [
        | inl (k, lt, at') ↦ inl (k, omega arith, kept_item k lt ∙ at')
        | inr settled ↦ inr λ j edge'. stays flags u j in_flags (settled j edge')
      ]
    ]

    -- An open neighbour of the last vertex is marked and pushed.
    pub Stacked-pushed : Stacked m n (suc (suc d)) (pushed (suc d) u s) (set flags u (pos 1))
    unfolding pushed
    Stacked-pushed = record {
      size = length-set s.items (suc d) (pos u) ∙ st.size;
      vertices = length-set flags u (pos 1) ∙ st.vertices;
      top = refl;
      white = omega (arith, st.white, fewer);
      held = held-pushed;
      edges = edges-pushed;
      rooted = stays flags u 0 in_flags st.rooted;
      reached = reached-pushed;
      closed = closed-pushed;
    }
