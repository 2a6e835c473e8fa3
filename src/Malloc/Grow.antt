-- ===== src/Malloc/Grow.antt =====
-- tj_malloc with an empty free list: getmoremem takes the next part of the heap, and the loop returns it.
use oo_o_processor.Common.{
  ℕ, suc, ◌+◌, ◌-◌, ◌%◌, ◌^◌, ◌<◌, ◌≤◌, ◌≡◌, ◌≢◌, refl, ◌∙◌, true, false, ltb, leb, ◌==◌, ok, arith,
  ◌>>=◌, if◌then◌else◌,
}
use oo_o_processor.Malloc.{
  Layout, State, heap_size, null, write, next, size, set_next, set_size, headers, getmoremem,
  search_free,
}
use oo_o_processor.Malloc.Fields.{IsLayout, IsRing, tj_free-first}

-- The calls so far have used the first `used` bytes of the heap.
pub record IsReady (l : Layout) (used : ℕ) (s : State) : Type 0 where
  pub ring : IsRing l s
  pub taken : s.next_index ≡ l.heap + used
  pub left : s.avail_mem + used ≡ heap_size

module _ (l : Layout) (lay : IsLayout l) (s : State) (used m : ℕ) (ready : IsReady l used s)
    (fits : used + 8 + m ≤ heap_size) where
  -- The state after a block of `m` bytes is taken from the rest of the heap.
  abbrev pub grown : State
  grown = record {
    words =
        write (write (write s.words (l.heap + used + 4) m) (l.heap + used) l.base) l.base
          (l.heap + used);
    next_index = l.heap + used + 8 + m;
    avail_mem = s.avail_mem - (m + 8);
    freep = l.base;
  }

  abbrev sized_words : ℕ → ℕ
  sized_words = write s.words (l.heap + used + 4) m

  IsRing-sized : IsRing l (record s {
    words = sized_words;
    next_index = l.heap + used + 8 + m;
    avail_mem = s.avail_mem - (m + 8);
  })
  unfolding write
  IsRing-sized = record {
    head = ready.ring.head;
    loop = ground (arith, lay.below, ready.ring.loop);
    none = ground (arith, lay.below, ready.ring.none);
  }

  word : sized_words (l.heap + used + 4) ≡ m
  unfolding write
  word = ground arith

  getmoremem-grown : (fuel : ℕ) → getmoremem l (suc fuel) s (m + 8) ≡ ok (l.base, grown)
  unfolding getmoremem set_size
  getmoremem-grown fuel =
      let s' = record s {
        words = write s.words (l.heap + used + 4) m;
        next_index = l.heap + used + 8 + m;
        avail_mem = s.avail_mem - (m + 8);
      } in
      let free =
        tj_free-first l lay s' IsRing-sized (l.heap + used) m (omega arith) (omega arith) word
          fuel in
      let enough : ltb s.avail_mem (m + 8) ≡ false = ground (arith, ready.left) in
      let index : (l.heap + used + (m + 8)) % 2 ^ 32 ≡ l.heap + used + 8 + m =
        omega (arith, lay.inside) in
      let sized : m + 8 - 8 ≡ m = omega arith in
      let real : (l.heap + used == null) ≡ false = ground (arith, lay.above_null, lay.below) in
      rw (enough, ready.taken, index, real, sized, free) refl

-- The block that the loop of tj_malloc is at has the size that is asked for: it leaves the list.
pub search_free-exact :
    (l : Layout) (fuel : ℕ) (s : State) (m prevp p q : ℕ)
    → p ≢ null
    → prevp ≢ null
    → s.words (p + 4) ≡ m
    → s.words p ≡ q
    → search_free l (suc fuel) s m prevp p
      ≡ ok (headers p 1, record s { words = write s.words prevp q; freep = prevp })
unfolding search_free size next set_next
search_free-exact l fuel s m prevp p q real real' sized link = ground arith

module _ (l : Layout) (lay : IsLayout l) (s : State) (used m : ℕ) (ready : IsReady l used s)
    (some_bytes : 0 < m) where
  base_small : (leb m (s.words (l.base + 4))) ≡ false
  base_small = ground (arith, ready.ring.none)

  search_free-more :
      (fuel : ℕ)
      → search_free l (suc fuel) s m l.base l.base ≡ (do
        (q, s') ← getmoremem l fuel s (m + 8)
        if q == null then ok (null, s') else (do r ← next s' q; search_free l fuel s' m q r))
  unfolding search_free size
  search_free-more fuel = ground (arith, lay.above_null, ready.ring.head, base_small)

  pub search_free-full :
      (fuel : ℕ)
      → heap_size < used + 8 + m
      → search_free l (suc fuel) s m l.base l.base ≡ ok (null, s)
  unfolding getmoremem
  search_free-full fuel full =
      let less : ltb s.avail_mem (m + 8) ≡ true = ground (arith, ready.left) in
      search_free-more fuel ∙ rw less refl

  module _ (fits : used + 8 + m ≤ heap_size) where
    -- The state after the call: the block has left the free list again.
    abbrev pub allocated : State
    allocated =
        let g = grown l lay s used m ready fits in
        record g { words = write g.words l.base l.base; freep = l.base }

    grown_link : (grown l lay s used m ready fits).words l.base ≡ l.heap + used
    unfolding write
    grown_link = ground arith

    grown_next : (grown l lay s used m ready fits).words (l.heap + used) ≡ l.base
    unfolding write
    grown_next = ground (arith, lay.below)

    grown_size : (grown l lay s used m ready fits).words (l.heap + used + 4) ≡ m
    unfolding write
    grown_size = ground (arith, lay.below)

    pub search_free-grown :
        (fuel : ℕ)
        → search_free l (suc (suc fuel)) s m l.base l.base ≡ ok (l.heap + used + 8, allocated)
    unfolding next
    search_free-grown fuel =
        let g = grown l lay s used m ready fits in
        let real : (l.base == null) ≡ false = ground (arith, lay.above_null) in
        let place : headers (l.heap + used) 1 ≡ l.heap + used + 8 = omega (arith, lay.inside) in
        search_free-more (suc fuel)
        ∙ rw (getmoremem-grown l lay s used m ready fits fuel, real, grown_link)
            (search_free-exact l fuel g m l.base (l.heap + used) l.base
                (omega (arith, lay.above_null, lay.below)) (omega (arith, lay.above_null))
                grown_size grown_next
              ∙ rw place refl)

    pub allocated-IsReady : IsReady l (used + 8 + m) allocated
    unfolding write
    allocated-IsReady = record {
      ring = record {
        head = refl;
        loop = ground arith;
        none = ground (arith, lay.below, ready.ring.none);
      };
      taken = omega arith;
      left = omega (arith, ready.left);
    }
