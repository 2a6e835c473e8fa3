-- ===== src/Malloc/Fields.antt =====
-- The first block of a free list that only holds `base`: how tj_free links it.
use oo_o_processor.Common.{ℕ, suc, ◌+◌, ◌-◌, ◌^◌, ◌<◌, ◌≤◌, ◌≡◌, refl, false, ◌||◌, ltb, ok, arith}
use oo_o_processor.Malloc.{
  Layout, State, heap_size, write, next, size, set_next, find, join_upper, join_lower, tj_free,
}

-- What the linker script gives: `base` among the small data below `heap`, all in 64 KiB.
pub record IsLayout (l : Layout) : Type 0 where
  pub above_null : 0 < l.base
  pub below : l.base + 8 ≤ l.heap
  pub inside : l.heap + heap_size ≤ 2 ^ 16

-- The free list only holds `base`.
pub record IsRing (l : Layout) (s : State) : Type 0 where
  pub head : s.freep ≡ l.base
  pub loop : s.words l.base ≡ l.base
  pub none : s.words (l.base + 4) ≡ 0

module _ (l : Layout) (lay : IsLayout l) (s : State) (ring : IsRing l s) (bp m : ℕ)
    (above : l.heap ≤ bp) (fits : bp + 8 + m ≤ l.heap + heap_size)
    (sized : s.words (bp + 4) ≡ m) where
  find_base : (fuel : ℕ) → find (suc fuel) s bp s.freep ≡ ok l.base
  unfolding find next
  find_base fuel = ground arith

  join_upper-first : join_upper s bp l.base ≡ ok (record s { words = write s.words bp l.base })
  unfolding join_upper next size set_next
  join_upper-first = ground arith

  join_lower-first :
      join_lower (record s { words = write s.words bp l.base }) bp l.base
      ≡ ok (record s { words = write (write s.words bp l.base) l.base bp })
  unfolding join_lower next size set_next write
  join_lower-first = ground arith

  -- tj_free puts the block behind base.
  pub tj_free-first :
      (fuel : ℕ)
      → tj_free l (suc fuel) s (bp + 8)
        ≡ ok (record s { words = write (write s.words bp l.base) l.base bp; freep = l.base })
  unfolding tj_free
  tj_free-first fuel =
      let here : bp + 8 - 8 ≡ bp = omega arith in
      let inside : (ltb (bp + 8) l.heap || ltb (l.heap + heap_size) (bp + 8)) ≡ false =
        ground arith in
      rw (inside, here, find_base fuel, join_upper-first, join_lower-first) refl
