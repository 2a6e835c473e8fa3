-- ===== src/Malloc/Reuse.antt =====
-- A block that tj_free has taken back, at the next call of tj_malloc: one of the same size reuses it,
-- a smaller one is cut out of the memory behind it.
use oo_o_processor.Common.{
  ℕ, suc, ◌+◌, ◌-◌, ◌%◌, ◌^◌, ◌<◌, ◌≤◌, ◌≡◌, ◌≢◌, refl, true, false, ltb, leb, ◌==◌, arith, Returns,
  returns, Returns-map, ◌>>=◌,
}
use oo_o_processor.Malloc.{
  Layout, State, heap_size, null, write, next, size, set_size, headers, search_free, start,
  round_up, tj_malloc, tj_free,
}
use oo_o_processor.Malloc.Fields.{IsLayout, tj_free-first}
use oo_o_processor.Malloc.Grow.{IsReady, search_free-exact}

-- The block is larger than what is asked for: the code cuts `kept` bytes' worth of headers off.
search_free-split :
    (l : Layout) (fuel : ℕ) (s : State) (m n prevp p : ℕ)
    → p ≢ null
    → s.words (p + 4) ≡ n
    → m < n
    → (let kept = (n + 2 ^ 32 - (m + 8)) % 2 ^ 32 in
        headers p kept ≢ null
        → Returns (λ r. r.0 ≡ headers (headers p kept) 1) (search_free l (suc fuel) s m prevp p))
unfolding search_free size set_size
search_free-split l fuel s m n prevp p real sized larger real' =
    let kept = (n + 2 ^ 32 - (m + 8)) % 2 ^ 32 in
    let a : (p == null) ≡ false = ground arith in
    let b : (headers p kept == null) ≡ false = ground arith in
    let c : leb m n ≡ true = ground arith in
    let d : (n == m) ≡ false = ground arith in
    let e : write s.words (p + 4) kept (p + 4) ≡ kept = unfold write in ground arith in
    rw (a, sized, c, d, e, b) (returns refl)

module _ (l : Layout) (lay : IsLayout l) (used : ℕ) (s : State) (ready : IsReady l used s)
    (bp m : ℕ) (above : l.heap ≤ bp) (fits : bp + 8 + m ≤ l.heap + heap_size)
    (sized : s.words (bp + 4) ≡ m) where
  -- The state after the block is freed.
  abbrev freed : State
  freed = record s { words = write (write s.words bp l.base) l.base bp; freep = l.base }

  freed_link : freed.words l.base ≡ bp
  unfolding write
  freed_link = ground arith

  freed_next : freed.words bp ≡ l.base
  unfolding write
  freed_next = ground (arith, lay.below)

  freed_size : freed.words (bp + 4) ≡ m
  unfolding write
  freed_size = ground (arith, lay.below)

  start-freed : start l freed ≡ freed
  unfolding start
  start-freed = ground (arith, lay.above_null)

  tj_malloc-freed :
      (fuel n : ℕ)
      → n ≤ heap_size
      → tj_malloc l fuel freed n ≡ search_free l fuel freed (round_up n) l.base bp
  unfolding tj_malloc next
  tj_malloc-freed fuel n small =
      let no : ltb heap_size n ≡ false = ground arith in
      let real : (l.base == null) ≡ false = ground (arith, lay.above_null) in
      rw (no, start-freed, real, freed_link) refl

  reused-IsReady : IsReady l used (record freed { words = write freed.words l.base l.base })
  unfolding write
  reused-IsReady = record {
    ring = record {
      head = refl;
      loop = ground arith;
      none = ground (arith, lay.below, ready.ring.none);
    };
    taken = ready.taken;
    left = ready.left;
  }

  -- The words of the memory after both calls.
  reused-words : (a : ℕ) → a ≢ bp → write freed.words l.base l.base a ≡ s.words a
  unfolding write
  reused-words a other = ground (arith, ready.ring.loop)

  -- On a free list that only holds base, tj_free of a block of m bytes inside the heap and then tj_malloc
  -- of a size that rounds up to m give the same block. The free list and the rest of the heap are as they
  -- were: no word of the memory has changed but the first of the block's header.
  pub tj_malloc-tj_free :
      (fuel n : ℕ)
      → round_up n ≡ m
      → Returns
          (λ r.
            (r.0 ≡ bp + 8) × IsReady l used r.1 × ((a : ℕ) → a ≢ bp → (r.1).words a ≡ s.words a))
          (do t ← tj_free l (suc fuel) s (bp + 8); tj_malloc l (suc fuel) t n)
  tj_malloc-tj_free fuel n same =
      let more : n ≤ round_up n = ground arith in
      let place : headers bp 1 ≡ bp + 8 = omega (arith, lay.inside) in
      rw
        (
          tj_free-first l lay s ready.ring bp m above fits sized fuel,
          tj_malloc-freed (suc fuel) n (omega (arith, more)),
          same,
          search_free-exact l fuel freed m l.base bp l.base
              (omega (arith, lay.above_null, lay.below)) (omega (arith, lay.above_null)) freed_size
              freed_next,
        )
        (returns (place, reused-IsReady, reused-words))

  -- On a free list that only holds base, with m a multiple of four, tj_free of a block of m bytes inside
  -- the heap and then tj_malloc of n bytes, where n rounded up and a header are less than m, give a block
  -- that ends behind the end of the freed one.
  pub tj_malloc-split :
      (fuel n : ℕ)
      → m % 4 ≡ 0
      → round_up n + 8 < m
      → Returns
          (λ r. bp + 8 + m < r.0 + n)
          (do t ← tj_free l (suc fuel) s (bp + 8); tj_malloc l (suc fuel) t n)
  tj_malloc-split fuel n whole larger =
      let more : n ≤ round_up n = ground arith in
      let near : round_up n ≤ n + 3 = ground arith in
      let cut : (m + 2 ^ 32 - (round_up n + 8)) % 2 ^ 32 ≡ m - (round_up n + 8) =
        omega (arith, lay.inside) in
      let four : round_up n % 4 ≡ 0 = ground arith in
      rw
        (
          tj_free-first l lay s ready.ring bp m above fits sized fuel,
          tj_malloc-freed (suc fuel) n (omega (arith, more)),
        )
        (Returns-map
          (search_free-split l fuel freed (round_up n) m l.base bp
            (omega (arith, lay.above_null, lay.below)) freed_size (omega arith)
            (rw cut (omega (arith, lay.inside, lay.above_null, lay.below))))
          λ r e. omega (arith, e, cut, more, near, four, lay.inside))
