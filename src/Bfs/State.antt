-- ===== src/Bfs/State.antt =====
-- What holds of the queue and the marks of bfs.c during the search, and the steps that keep it.
use mathlib.Core.Path.{subst, sym}
use oo_o_processor.Common.{
  last_or_before, ℕ, ◌+◌, ◌-◌, ◌<◌, ◌≤◌, ◌≡◌, ◌≢◌, refl, ap, ◌∙◌, inl, inr, pos_part, arith, pos,
  ◌+ℤ◌, ◌==ℤ◌, ◌==◌, true, ok, if◌then◌else◌, length, Bool-cases, if_both,
}
use oo_o_processor.Array.{
  Ints, get-set_other, get-set_same, get, set, store-set, length-set, get-set, count, count-set,
}
use oo_o_processor.Bfs.{Queue, Graph, index, insert, mark}
use oo_o_processor.Bfs.Reach.{Reaches, Settled}

-- `used` of the n vertices are marked, all found and in the queue's cells, each once; the neighbours
-- of those in the first `done` cells are marked.
pub record Search (m : Ints) (n done used : ℕ) (q : Queue) (flags : Ints) : Type 0 where
  pub size : length q.items ≡ 5
  pub vertices : length flags ≡ n
  pub rear : q.rear +ℤ pos 1 ≡ pos used
  pub behind : done ≤ q.front
  pub first : q.front ≤ used
  pub waiting : q.item_count ≡ pos (used - q.front)
  pub white : count (pos 0) flags + used ≡ n
  pub rooted : get flags 0 ≢ pos 0
  pub entered :
      (k : ℕ)
      → k < used
      → (v : ℕ) × (get q.items k ≡ pos v) × (v < n) × Reaches m n v × (get flags v ≢ pos 0)
  pub queued :
      (v : ℕ) → v < n → get flags v ≢ pos 0 → (k : ℕ) × (k < used) × (get q.items k ≡ pos v)
  pub apart : (j k : ℕ) → j < k → k < used → get q.items j ≢ get q.items k
  pub settled : (k v : ℕ) → k < done → get q.items k ≡ pos v → Settled m n flags v

-- The queue after a vertex is inserted.
unfoldable pub pushed : ℕ → ℕ → Queue → Queue
pushed used u q = record {
  items = set q.items used (pos u);
  rear = pos used;
  front = q.front;
  item_count = q.item_count +ℤ pos 1;
}

-- The graph after a vertex is marked.
unfoldable pub marked : ℕ → Graph → Graph
marked u g = record { labels = g.labels; visited = set g.visited u (pos 1); adj = g.adj }

pub mark-marked :
    (u : ℕ) (g : Graph) → u < length g.visited → mark (pos u) (pos 1) g ≡ ok (marked u g)
unfolding mark marked index
mark-marked u g h = rw (store-set g.visited u (pos 1) h) refl

pub same : (i j : ℕ) → (i == j) ≡ true → i ≡ j
same i j t = ground arith

pub pos_injective : {a b : ℕ} → pos a ≡ pos b → a ≡ b
pos_injective e = ap pos_part e

pub add_one : (n : ℕ) → pos n +ℤ pos 1 ≡ pos (n + 1)
unfolding ◌+ℤ◌
add_one n = ground arith

pub one_neq : pos 1 ≢ pos 0
one_neq = ground arith

-- A mark leaves one vertex less without.
pub count-mark :
    (flags : Ints) (u : ℕ)
    → u < length flags
    → get flags u ≡ pos 0
    → count (pos 0) (set flags u (pos 1)) + 1 ≡ count (pos 0) flags
count-mark flags u h e = omega (
  arith,
  subst
      (λ x.
        count (pos 0) (set flags u (pos 1)) + (if x ==ℤ pos 0 then 1 else 0)
        ≡ count (pos 0) flags + 0)
      e (count-set (pos 0) flags u (pos 1) h),
)

-- A mark stays.
pub stays :
    (flags : Ints) (u v : ℕ)
    → u < length flags
    → get flags v ≢ pos 0
    → get (set flags u (pos 1)) v ≢ pos 0
stays flags u v h ne =
    rw (get-set flags u v (pos 1) h) (if_both (λ x. x ≢ pos 0) (u == v) (λ _. one_neq) (λ _. ne))

module _ {m : Ints} {n done used : ℕ} {q : Queue} {flags : Ints} (s : Search m n done used q flags)
    (small : n ≤ 5) where
  pub insert-pushed : (u : ℕ) → used < 5 → insert (pos u) q ≡ ok (pushed used u q)
  unfolding insert pushed index
  insert-pushed u h = rw (s.rear, store-set q.items used (pos u) (omega (arith, s.size))) refl

  -- A vertex that is not marked leaves a cell of the queue.
  pub white-mark :
      (u : ℕ) → u < n → get flags u ≡ pos 0 → count (pos 0) (set flags u (pos 1)) + (used + 1) ≡ n
  white-mark u h e = omega (arith, s.white, count-mark flags u (omega (arith, s.vertices)) e)

  pub white-room : (u : ℕ) → u < n → get flags u ≡ pos 0 → used < 5
  white-room u h e = omega (arith, white-mark u h e)

  module _ (u : ℕ) (h : u < n) (e : get flags u ≡ pos 0) where
    in_flags : u < length flags
    in_flags = omega (arith, s.vertices)

    room : used < length q.items
    room = omega (arith, white-room u h e, s.size)

    -- The cells in use are not written.
    pub same_item : (k : ℕ) → k < used → get (set q.items used (pos u)) k ≡ get q.items k
    same_item k lt = get-set_other q.items used k (pos u) room (omega arith)

    entered-pushed :
        Reaches m n u
        → (k : ℕ) → k < used + 1
        → (v : ℕ) × (get (set q.items used (pos u)) k ≡ pos v)
          × (v < n)
          × Reaches m n v
          × (get (set flags u (pos 1)) v ≢ pos 0)
    entered-pushed reached k lt = elim (last_or_before lt) [
      | inl e' ↦ rw e' (
        u,
        get-set_same q.items used (pos u) room,
        h,
        reached,
        subst (λ x. x ≢ pos 0) (sym (get-set_same flags u (pos 1) in_flags)) one_neq,
      )
      | inr lt' ↦
          let (v, at, below, path, mark) = s.entered k lt' in
          (v, same_item k lt' ∙ at, below, path, stays flags u v in_flags mark)
    ]

    queued-pushed :
        (v : ℕ)
        → v < n
        → get (set flags u (pos 1)) v ≢ pos 0
        → (k : ℕ) × (k < used + 1) × (get (set q.items used (pos u)) k ≡ pos v)
    queued-pushed v below mark = elim (Bool-cases (u == v)) [
      | inl t ↦ (used, omega arith, get-set_same q.items used (pos u) room ∙ ap pos (same u v t))
      | inr t ↦
          let (k, lt, at) = s.queued v below (
            subst (λ x. x ≢ pos 0) (get-set_other flags u v (pos 1) in_flags (ground arith))
              mark) in
          (k, omega arith, same_item k lt ∙ at)
    ]

    new_item : (k : ℕ) → k < used → get q.items k ≢ pos u
    new_item k lt same =
        let (v, at, below, path, mark) = s.entered k lt in
        mark (subst (λ w. get flags w ≡ pos 0) (pos_injective (sym same ∙ at)) e)

    apart-pushed :
        (j k : ℕ)
        → j < k
        → k < used + 1
        → get (set q.items used (pos u)) j ≢ get (set q.items used (pos u)) k
    apart-pushed j k lt in_use e'' = elim (last_or_before in_use) [
      | inl e' ↦ new_item j (omega arith) (
          sym (same_item j (omega arith))
          ∙ e''
          ∙ ap (get (set q.items used (pos u))) e'
          ∙ get-set_same q.items used (pos u) room)
      | inr lt' ↦ s.apart j k lt lt' (sym (same_item j (omega arith)) ∙ e'' ∙ same_item k lt')
    ]

    pub Search-pushed :
        Reaches m n u → Search m n done (used + 1) (pushed used u q) (set flags u (pos 1))
    unfolding pushed
    Search-pushed reached = record {
      size = length-set q.items used (pos u) ∙ s.size;
      vertices = length-set flags u (pos 1) ∙ s.vertices;
      rear = add_one used;
      behind = s.behind;
      first = omega (arith, s.first);
      waiting = rw s.waiting (add_one (used - q.front) ∙ ap pos (omega (arith, s.first)));
      white = white-mark u h e;
      rooted = stays flags u 0 in_flags s.rooted;
      entered = entered-pushed reached;
      queued = queued-pushed;
      apart = apart-pushed;
      settled = λ k v lt at j edge.
          stays flags u j in_flags
            (s.settled k v lt (sym (same_item k (omega (arith, s.behind, s.first))) ∙ at) j edge);
    }
