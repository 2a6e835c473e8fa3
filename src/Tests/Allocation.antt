-- ===== src/Tests/Allocation.antt =====
-- Runs of tj_malloc.h, and its theorems at inputs that meet their hypotheses.
use oo_o_processor.Common.{
  ℕ, ◌+◌, List, ◌≡◌, refl, [], ◌∷◌, arith, ok, Run, ◌>>=◌, ◌-◌, Returns, ◌==◌, ◌<◌, ◌≢◌,
  if◌then◌else◌,
}
use oo_o_processor.Malloc
use oo_o_processor.Malloc.{
  Layout, State, heap_size, initial, tj_free, tj_malloc, getmoremem, search_free, start, write,
  find, join_upper, join_lower,
}
use oo_o_processor.Malloc.Fields.{IsLayout}
use oo_o_processor.Malloc.Grow.{IsReady}
use oo_o_processor.Malloc.Sequence.{tj_mallocs, places, Apart, tj_mallocs-places, tj_mallocs-Apart}
use oo_o_processor.Malloc.Reuse.{tj_malloc-tj_free, tj_malloc-split}

abbrev layout : Layout
layout = record { heap = 0x1010; base = 0x1000 }

layout-IsLayout : IsLayout layout
layout-IsLayout = omega arith

-- Blocks of five bytes, of the whole heap, and of eight bytes.
abbrev requests : List ℕ
requests = 5 ∷ 16384 ∷ 8 ∷ []

blocks : Run (List ℕ)
blocks = do (ps, s) ← tj_mallocs layout 2 (initial layout λ a. 0xff) requests; ok ps

blocks_run : blocks ≡ ok (0x1018 ∷ 0 ∷ 0x1028 ∷ [])
unfolding blocks tj_mallocs tj_malloc start Malloc.next search_free Malloc.size getmoremem
    Malloc.set_size tj_free find join_upper join_lower Malloc.set_next write
blocks_run = refl

tj_mallocs-places_example :
    Returns
      (λ r. r.0 ≡ places layout 0 requests)
      (tj_mallocs layout 2 (initial layout λ a. 0xff) requests)
tj_mallocs-places_example =
    tj_mallocs-places layout layout-IsLayout 0 requests (λ a. 0xff) (omega arith)

tj_mallocs-Apart_example :
    Returns
      (λ r. Apart layout layout.heap requests r.0)
      (tj_mallocs layout 2 (initial layout λ a. 0xff) requests)
tj_mallocs-Apart_example =
    tj_mallocs-Apart layout layout-IsLayout 0 requests (λ a. 0xff) (omega arith)

-- Only base in the free list, and a block of 100 bytes in use.
abbrev in_use_state : State
in_use_state = record {
  words = λ a. if a == 0x1000 then 0x1000 else if a == 0x1014 then 100 else 0;
  next_index = 0x1010 + 108;
  avail_mem = 16384 - 108;
  freep = 0x1000;
}

in_use_state-IsReady : IsReady layout 108 in_use_state
in_use_state-IsReady = record {
  ring = record { head = refl; loop = refl; none = refl };
  taken = refl;
  left = refl;
}

tj_malloc-tj_free_example :
    Returns
      (λ r.
        (r.0 ≡ 0x1010 + 8)
        × IsReady layout 108 r.1
        × ((a : ℕ) → a ≢ 0x1010 → (r.1).words a ≡ in_use_state.words a))
      (do t ← tj_free layout 2 in_use_state 0x1018; tj_malloc layout 2 t 98)
tj_malloc-tj_free_example =
    tj_malloc-tj_free layout layout-IsLayout 108 in_use_state in_use_state-IsReady 0x1010 100
      (omega arith) (omega arith) refl 1 98 refl

tj_malloc-split_example :
    Returns
      (λ r. 0x1010 + 8 + 100 < r.0 + 20)
      (do t ← tj_free layout 2 in_use_state 0x1018; tj_malloc layout 2 t 20)
tj_malloc-split_example =
    tj_malloc-split layout layout-IsLayout 108 in_use_state in_use_state-IsReady 0x1010 100
      (omega arith) (omega arith) refl 1 20 refl (omega arith)

-- Five blocks of eight bytes; the fifth and the first are freed; two more calls.
double_block : Run (ℕ × ℕ)
double_block = do
  (ps, s) ← tj_mallocs layout 3 (initial layout λ a. 0) (8 ∷ 8 ∷ 8 ∷ 8 ∷ 8 ∷ [])
  s' ← tj_free layout 3 s 0x1058
  s'' ← tj_free layout 3 s' 0x1018
  (p, t) ← tj_malloc layout 3 s'' 8
  (q, u) ← tj_malloc layout 3 t 8
  ok (p, q)

-- They return the same block.
double_block_runs : double_block ≡ ok (0x1018, 0x1018)
unfolding double_block tj_mallocs tj_malloc start Malloc.next search_free Malloc.size getmoremem
    Malloc.set_size tj_free find join_upper join_lower Malloc.set_next write
double_block_runs = refl
