-- ===== src/Malloc.antt =====
-- test_progs/tj_malloc.h: tj_malloc, tj_free, getmoremem and tj_calloc over the flat memory of the
-- 32-bit machine. A block is its Header, `next` and `size` of four bytes each, and the bytes behind it.
-- A pointer is a byte address, so that `p + n` on a Header* is n headers of eight bytes further.
pub mod Fields
pub mod Grow
pub mod Sequence
pub mod Reuse
use oo_o_processor.Common.{
  ℕ, zero, suc, ◌+◌, ◌-◌, ◌*◌, ◌%◌, ◌^◌, Bool, true, false, ◌&&◌, ◌||◌, ltb, leb, ◌==◌, Run, ok,
  fault, out_of_fuel, ◌>>=◌, if◌then◌else◌,
}

-- Where the static variables `heap` and `base` stand.
pub record Layout : Type 0 where
  pub heap : ℕ
  pub base : ℕ

-- The static variables, and the memory as words at addresses.
pub record State : Type 0 where
  pub words : ℕ → ℕ
  pub next_index : ℕ
  pub avail_mem : ℕ
  pub freep : ℕ

abbrev pub heap_size : ℕ
heap_size = 16 * 1024

abbrev pub null : ℕ
null = 0

-- The state before the first call.
abbrev pub initial : Layout → (ℕ → ℕ) → State
initial l words = record { words = words; next_index = l.heap; avail_mem = heap_size; freep = null }

unfoldable pub write : (ℕ → ℕ) → ℕ → ℕ → ℕ → ℕ
write words a v b = if b == a then v else words b

-- p->next and p->size, with a fault at NULL.
unfoldable pub next : State → ℕ → Run ℕ
next s p = if p == null then fault else ok (s.words p)

unfoldable pub size : State → ℕ → Run ℕ
size s p = if p == null then fault else ok (s.words (p + 4))

unfoldable pub set_next : State → ℕ → ℕ → Run State
set_next s p v = if p == null then fault else ok (record s { words = write s.words p v })

unfoldable pub set_size : State → ℕ → ℕ → Run State
set_size s p v = if p == null then fault else ok (record s { words = write s.words (p + 4) v })

-- p + n on a Header*.
abbrev pub headers : ℕ → ℕ → ℕ
headers p n = (p + 8 * n) % 2 ^ 32

-- The loop of tj_free that looks for the place of bp in the free list.
unfoldable pub find : ℕ → State → ℕ → ℕ → Run ℕ
find zero s bp p = out_of_fuel
find (suc fuel) s bp p = do
  q ← next s p
  let further = find fuel s bp q in
      if (ltb p bp && ltb bp q) || (leb q p && (ltb p bp || ltb bp q)) then ok p else further

-- The two merges of tj_free: with the upper neighbour, and with the lower.
unfoldable pub join_upper : State → ℕ → ℕ → Run State
join_upper s bp p = do
  n ← size s bp
  q ← next s p
  if headers bp n == q
      then (do m ← size s q; s' ← set_size s bp ((n + m) % 2 ^ 32); r ← next s' q; set_next s' bp r)
      else set_next s bp q

unfoldable pub join_lower : State → ℕ → ℕ → Run State
join_lower s bp p = do
  n ← size s p
  if headers p n == bp
      then (do m ← size s bp; s' ← set_size s p ((n + m) % 2 ^ 32); r ← next s' bp; set_next s' p r)
      else set_next s p bp

-- exit(1) is a fault. The fuel bounds the length of the free list.
unfoldable pub tj_free : Layout → ℕ → State → ℕ → Run State
tj_free l fuel s mem =
    let bp = mem - 8 in
    let freed = do
      p ← find fuel s bp s.freep
      s' ← join_upper s bp p
      s'' ← join_lower s' bp p
      ok (record s'' { freep = p })
    in if ltb mem l.heap || ltb (l.heap + heap_size) mem then fault else freed

-- The block, or NULL, and the state.
unfoldable pub getmoremem : Layout → ℕ → State → ℕ → Run (ℕ × State)
getmoremem l fuel s total_size =
    let more = do
      let up = s.next_index in
          let s' = record s {
            next_index = (up + total_size) % 2 ^ 32;
            avail_mem = s.avail_mem - total_size;
          } in
          (do
            s'' ← set_size s' up (total_size - 8)
            freed ← tj_free l fuel s'' (up + 8)
            ok (freed.freep, freed))
    in if ltb s.avail_mem total_size then ok (null, s) else more

-- The loop of tj_malloc over the free list, for a size that is a multiple of four.
unfoldable pub search_free : Layout → ℕ → State → ℕ → ℕ → ℕ → Run (ℕ × State)
search_free l zero s request prevp p = out_of_fuel
search_free l (suc fuel) s request prevp p =
    let total_size = request + 8 in
    let exact = do
      q ← next s p
      s' ← set_next s prevp q
      ok (headers p 1, record s' { freep = prevp })
    in let split = do
      n ← size s p
      s' ← set_size s p ((n + 2 ^ 32 - total_size) % 2 ^ 32)
      m ← size s' p
      s'' ← set_size s' (headers p m) request
      ok (headers (headers p m) 1, record s'' { freep = prevp })
      in let more = do
        (q, s') ← getmoremem l fuel s total_size
        if q == null then ok (null, s') else (do r ← next s' q; search_free l fuel s' request q r)
        in let others = (do r ← next s p; search_free l fuel s request p r) in
          do
            n ← size s p
            if leb request n
                then (if n == request then exact else split)
                else (if p == s.freep then more else others)

-- The free list with only `base`, where there is none yet.
unfoldable pub start : Layout → State → State
start l s =
    if s.freep == null
    then record s { words = write (write s.words l.base l.base) (l.base + 4) 0; freep = l.base }
    else s

-- The size, rounded up to a multiple of four.
abbrev pub round_up : ℕ → ℕ
round_up n = if n % 4 == 0 then n else n + 4 - n % 4

unfoldable pub tj_malloc : Layout → ℕ → State → ℕ → Run (ℕ × State)
tj_malloc l fuel s request =
    let s' = start l s in
    let found = do p ← next s' s'.freep; search_free l fuel s' (round_up request) s'.freep p
    in if ltb heap_size request then ok (null, s) else found

-- memset of string.h is an argument: memory, address, byte, count.
unfoldable pub tj_calloc :
    ((ℕ → ℕ) → ℕ → ℕ → ℕ → (ℕ → ℕ)) → Layout → ℕ → State → ℕ → Run (ℕ × State)
tj_calloc memset l fuel s request = do
  (mem, s') ← tj_malloc l fuel s request
  ok (mem, record s' { words = memset s'.words mem 0 request })
