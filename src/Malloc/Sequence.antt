-- ===== src/Malloc/Sequence.antt =====
-- Calls of tj_malloc from the initial state, with no call of tj_free between: each takes the next part
-- of the heap.
use oo_o_processor.Common.{
  ℕ, suc, ◌+◌, ◌<◌, ◌≤◌, ◌≡◌, ◌⊎◌, inl, inr, refl, ap, ◌∙◌, false, Bool-cases, List, [], ◌∷◌, ltb,
  leb, ◌==◌, Run, ok, arith, Returns, returns, Returns-bind, Returns-map, ◌>>=◌, if◌then◌else◌,
}
use oo_o_processor.Malloc.{
  Layout, State, heap_size, null, initial, write, next, search_free, start, round_up, tj_malloc,
}
use oo_o_processor.Malloc.Fields.{IsLayout}
use oo_o_processor.Malloc.Grow.{
  IsReady, allocated, search_free-grown, search_free-full, allocated-IsReady,
}

module _ (l : Layout) (lay : IsLayout l) where
  start-IsReady : (used : ℕ) (s : State) → IsReady l used s → start l s ≡ s
  unfolding start
  start-IsReady used s ready = ground (arith, ready.ring.head, lay.above_null)

  start-initial-IsReady : (words : ℕ → ℕ) → IsReady l 0 (start l (initial l words))
  unfolding start write
  start-initial-IsReady words = record {
    ring = record { head = refl; loop = ground arith; none = ground arith };
    taken = omega arith;
    left = omega arith;
  }

  start-start : (s : State) → start l (start l s) ≡ start l s
  unfolding start
  start-start s = ground (arith, lay.above_null)

  module _ (used : ℕ) (s : State) (ready : IsReady l used (start l s)) (n : ℕ)
      (positive : 0 < n) where
    tj_malloc-search :
        (fuel : ℕ)
        → n ≤ heap_size
        → tj_malloc l fuel s n ≡ search_free l fuel (start l s) (round_up n) l.base l.base
    unfolding tj_malloc next
    tj_malloc-search fuel small =
        let no : ltb heap_size n ≡ false = ground arith in
        let real : (l.base == null) ≡ false = ground (arith, lay.above_null) in
        rw (no, ready.ring.head, real, ready.ring.loop) refl

    round_up-positive : 0 < round_up n
    round_up-positive = ground arith

    round_up-ge : n ≤ round_up n
    round_up-ge = ground arith

    -- A block that fits behind the others.
    tj_malloc-fits :
        (fuel : ℕ) (fits : used + 8 + round_up n ≤ heap_size)
        → tj_malloc l (suc (suc fuel)) s n
          ≡ ok (
            l.heap + used + 8,
            allocated l lay (start l s) used (round_up n) ready round_up-positive fits,
          )
    tj_malloc-fits fuel fits =
        tj_malloc-search (suc (suc fuel)) (omega (arith, round_up-ge))
        ∙ search_free-grown l lay (start l s) used (round_up n) ready round_up-positive fits fuel

    -- A block that does not.
    tj_malloc-full :
        (fuel : ℕ)
        → heap_size < used + 8 + round_up n
        → (t : State) × (tj_malloc l (suc fuel) s n ≡ ok (null, t)) × (start l t ≡ start l s)
    unfolding tj_malloc
    tj_malloc-full fuel full = elim (Bool-cases (ltb heap_size n)) [
      | inl t ↦ (s, rw t refl, refl)
      | inr f ↦ (
        start l s,
        tj_malloc-search (suc fuel) (ground arith)
            ∙ search_free-full l lay (start l s) used (round_up n) ready round_up-positive fuel
                full,
        start-start s,
      )
    ]

-- A sequence of calls of tj_malloc: the blocks, and the last state.
unfoldable pub tj_mallocs : Layout → ℕ → State → List ℕ → Run (List ℕ × State)
tj_mallocs l fuel s [] = ok ([], s)
tj_mallocs l fuel s (n ∷ ns) = do
  (p, t) ← tj_malloc l fuel s n
  (ps, u) ← tj_mallocs l fuel t ns
  ok (p ∷ ps, u)

-- The blocks one after the other: each behind its header at the first free byte, NULL where it does not
-- fit into the rest of the heap.
unfoldable pub places : Layout → ℕ → List ℕ → List ℕ
places l used [] = []
places l used (n ∷ ns) =
    let taken = (l.heap + used + 8) ∷ places l (used + 8 + round_up n) ns in
    let refused = null ∷ places l used ns in
    if leb (used + 8 + round_up n) heap_size then taken else refused

abbrev pub AllPositive : List ℕ → Type 0
AllPositive [] = Unit {0}
AllPositive (n ∷ ns) = (0 < n) × AllPositive ns

module _ (l : Layout) (lay : IsLayout l) where
  tj_mallocs-from :
      (fuel : ℕ) (ns : List ℕ) (used : ℕ) (s : State)
      → IsReady l used (start l s)
      → AllPositive ns
      → Returns (λ r. r.0 ≡ places l used ns) (tj_mallocs l (suc (suc fuel)) s ns)
  unfolding tj_mallocs places
  tj_mallocs-from fuel [] used s ready h = returns refl
  tj_mallocs-from fuel (n ∷ ns) used s ready h =
      elim (Bool-cases (leb (used + 8 + round_up n) heap_size)) [
        | inl t ↦
            let fits : used + 8 + round_up n ≤ heap_size = ground arith in
            let size = round_up-positive l lay used s ready n h.0 in
            let after = allocated l lay (start l s) used (round_up n) ready size fits in
            let ready' = allocated-IsReady l lay (start l s) used (round_up n) ready size fits in
            rw (tj_malloc-fits l lay used s ready n h.0 fuel fits, t)
              (Returns-bind
                (tj_mallocs-from fuel ns (used + 8 + round_up n) after
                  (rw (start-IsReady l lay (used + 8 + round_up n) after ready') ready') h.1)
                λ r e. returns (ap (λ ps. (l.heap + used + 8) ∷ ps) e))
        | inr f ↦
            let c = tj_malloc-full l lay used s ready n h.0 (suc fuel) (ground arith) in
            rw (c.1, f)
              (Returns-bind (tj_mallocs-from fuel ns used c.0 (rw (c.2) ready) h.1)
                λ r e. returns (ap (λ ps. null ∷ ps) e))
      ]

  -- From the initial state, whatever the memory holds, and with fuel for two blocks in the free list,
  -- calls of tj_malloc with positive sizes and none of tj_free return the blocks one after the other:
  -- each behind a header at the first free byte of the heap, its size rounded up to a multiple of four,
  -- and NULL where it does not fit into the rest.
  pub tj_mallocs-places :
      (fuel : ℕ) (ns : List ℕ) (words : ℕ → ℕ)
      → AllPositive ns
      → Returns (λ r. r.0 ≡ places l 0 ns) (tj_mallocs l (suc (suc fuel)) (initial l words) ns)
  tj_mallocs-places fuel ns words h =
      tj_mallocs-from fuel ns 0 (initial l words) (start-initial-IsReady l lay words) h

-- Each block is NULL, or stands behind the ones before it and their headers, inside the heap.
abbrev pub Apart : Layout → ℕ → List ℕ → List ℕ → Type 0
Apart l low [] ps = Unit {0}
Apart l low (n ∷ ns) [] = ⊥
Apart l low (n ∷ ns) (p ∷ ps) =
    ((p ≡ null) × Apart l low ns ps)
    ⊎ ((low + 8 ≤ p) × (p + n ≤ l.heap + heap_size) × Apart l (p + n) ns ps)

places-Apart :
    (l : Layout) (ns : List ℕ) (low used : ℕ)
    → low ≤ l.heap + used
    → Apart l low ns (places l used ns)
unfolding places
places-Apart l [] low used h = tt
places-Apart l (n ∷ ns) low used h = elim (Bool-cases (leb (used + 8 + round_up n) heap_size)) [
  | inl t ↦
      let more : n ≤ round_up n = ground arith in
      rw t (
        inr (
          omega arith,
          ground (arith, more),
          places-Apart l ns (l.heap + used + 8 + n) (used + 8 + round_up n) (omega arith),
        ))
  | inr f ↦ rw f (inl (refl, places-Apart l ns low used h))
]

-- Such calls of tj_malloc give blocks that do not overlap one another or a header, inside the heap.
pub tj_mallocs-Apart :
    (l : Layout)
    → IsLayout l
    → (fuel : ℕ) (ns : List ℕ) (words : ℕ → ℕ) → AllPositive ns
    → Returns (λ r. Apart l l.heap ns r.0) (tj_mallocs l (suc (suc fuel)) (initial l words) ns)
tj_mallocs-Apart l lay fuel ns words h =
    Returns-map (tj_mallocs-places l lay fuel ns words h)
      λ r e. rw e (places-Apart l ns l.heap 0 (omega arith))
