-- ===== src/SortSearch/Main.antt =====
-- `main` of sort_search.c: what its searches find.
use oo_o_processor.Common.{
  ℕ, ◌%◌, ◌≤◌, ◌<◌, ◌≡◌, ◌≢◌, ◌∙◌, ◌↔◌, arith, ℤ, pos, negsuc, ap, Returns, returns, Returns-bind,
  Returns-map, length,
}
use oo_o_processor.Array.{Ints, get, fill, length-fill, get-fill}
use oo_o_processor.Array.Swaps.{length-Swaps, all-Swaps, all-Swaps_back}
use oo_o_processor.Array.Sorted.{Sorts}
use oo_o_processor.SortSearch.{Answers, search, main}
use oo_o_processor.SortSearch.Bubble.{bubble-Sorts}
use oo_o_processor.SortSearch.Search.{Locates, binary_search-Locates}

-- The answer for `x` is -1 exactly where rand() & 31 was never `x`.
abbrev pub IsAnswer : (ℕ → ℕ) → ℕ → ℤ → Type 0
IsAnswer rand x r = (r ≡ negsuc 0) ↔ ((i : ℕ) → i < 99 → rand i % 32 ≢ x)

abbrev input : (ℕ → ℕ) → Ints
input rand = fill 99 0 λ i. pos (rand i % 32)

get-input : (rand : ℕ → ℕ) (i : ℕ) → i < 99 → get (input rand) i ≡ pos (rand i % 32)
get-input rand i h =
    get-fill 99 0 i (λ i. pos (rand i % 32)) h ∙ ap (λ (k : ℕ). pos (rand k % 32)) (omega arith)

fits : (rand : ℕ → ℕ) → 99 ≤ length (input rand)
fits rand = omega (arith, length-fill 99 0 (λ i. pos (rand i % 32)))

Locates-IsAnswer :
    (rand : ℕ → ℕ) (x : ℕ) (b : Ints) (r : ℤ)
    → Sorts 0 99 (input rand) b
    → Locates b (pos x) 0 99 r
    → IsAnswer rand x r
Locates-IsAnswer rand x b (pos p) s found = (
  λ e. cc,
  λ never. absurd (
      all-Swaps (fits rand) (λ v. v ≢ pos x) s.swaps
        (λ k _ q e. never k q (cc (get-input rand k q))) p (omega arith) found.1 found.2),
)
Locates-IsAnswer rand x b (negsuc n) s found = (
  λ e i h same.
      all-Swaps_back (fits rand) (λ v. v ≢ pos x) s.swaps (λ k _ q. found.1 k (omega arith) q) i
        (omega arith) h (get-input rand i h ∙ ap pos same),
  λ never. ap negsuc found.0,
)

search-IsAnswer :
    (rand : ℕ → ℕ) (x : ℕ) (b : Ints)
    → Sorts 0 99 (input rand) b
    → Returns (IsAnswer rand x) (search b x)
unfolding search
search-IsAnswer rand x b s =
    let size = length-Swaps s.swaps in
    let inside : 99 ≤ length b = omega (arith, fits rand) in
    Returns-map
      (binary_search-Locates b (pos x) 99 inside s.sorted 100 0 99 (omega arith) (omega arith))
      λ r found. Locates-IsAnswer rand x b r s found

-- Whatever rand() returns, `main` of sort_search.c finishes its searches with no access out of
-- bounds; each answer is -1 exactly where rand() & 31 was never the value looked for, and so for 420
-- and 33 always.
pub main-IsAnswer :
    (rand : ℕ → ℕ)
    → Returns
        (λ (s : Answers).
          IsAnswer rand 10 s.result
          × IsAnswer rand 23 s.goat
          × IsAnswer rand 12 s.brady
          × (s.another_result ≡ negsuc 0)
          × (s.larry ≡ negsuc 0))
        (main rand)
unfolding main
main-IsAnswer rand = Returns-bind (bubble-Sorts (input rand) 99 (fits rand)) λ arr s.
    Returns-bind (search-IsAnswer rand 10 arr s) λ result p.
      Returns-bind (search-IsAnswer rand 420 arr s) λ another_result q.
        Returns-bind (search-IsAnswer rand 33 arr s) λ larry u.
          Returns-bind (search-IsAnswer rand 23 arr s) λ goat v.
            Returns-bind (search-IsAnswer rand 12 arr s)
              λ brady w. returns (p, v, w, q.1 (λ i h. omega arith), u.1 (λ i h. omega arith))
