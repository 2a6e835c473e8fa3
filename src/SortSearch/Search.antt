-- ===== src/SortSearch/Search.antt =====
-- `binarySearch` of sort_search.c finds a value of an ascending range, or shows it absent.
use oo_o_processor.Common.{
  ℕ, zero, suc, ◌+◌, ◌-◌, ◌/◌, ◌≤◌, ◌<◌, ◌≡◌, ◌≢◌, arith, ℤ, pos, negsuc, pos_part, ◌-ℤ◌, ◌≤ℤ◌,
  ltb_ℤ, leb_ℤ, ◌==ℤ◌, eq_of_parts, Returns, returns, Returns-if, Returns-map, Bool-cases, inl, inr,
  true, false, length,
}
use oo_o_processor.Array.{Ints, get, load-get}
use oo_o_processor.Array.Sorted.{IsSortedIn}
use oo_o_processor.SortSearch.{binary_search}

-- The answer is an index of [l, end) that holds `x`, or -1 where no cell of [l, end) does.
abbrev pub Locates : Ints → ℤ → ℕ → ℕ → ℤ → Type 0
Locates a x l end (pos p) = (l ≤ p) × (p < end) × (get a p ≡ x)
Locates a x l end (negsuc n) = (n ≡ 0) × ((k : ℕ) → l ≤ k → k < end → get a k ≢ x)

end_bounds :
    (l end : ℕ)
    → leb_ℤ (pos l) (pos end -ℤ pos 1) ≡ true
    → (l < end) × (pos_part (pos end -ℤ pos 1) ≡ end - 1)
unfolding ◌-ℤ◌
end_bounds l end h = ground arith

end_empty : (l end : ℕ) → leb_ℤ (pos l) (pos end -ℤ pos 1) ≡ false → end ≤ l
unfolding ◌-ℤ◌
end_empty l end h = ground arith

module _ (a : Ints) (x : ℤ) (n : ℕ) (fits : n ≤ length a) (sorted : IsSortedIn a 0 n) where
  -- An answer for one half is one for the whole, when the probe shows the rest too large or small.
  from_left :
      (l mid end : ℕ) (r : ℤ)
      → mid < end
      → end ≤ n
      → x ≤ℤ get a mid
      → get a mid ≢ x
      → Locates a x l mid r
      → Locates a x l end r
  from_left l mid end (pos p) h fit above ne found = (found.0, omega arith, found.2)
  from_left l mid end (negsuc c) h fit above ne found =
      (found.0, λ k p q e. ground (arith, found.1 k, sorted mid k, eq_of_parts (get a mid) x))

  from_right :
      (l mid end : ℕ) (r : ℤ)
      → mid < end
      → end ≤ n
      → l ≤ mid
      → get a mid ≤ℤ x
      → get a mid ≢ x
      → Locates a x (mid + 1) end r
      → Locates a x l end r
  from_right l mid end (pos p) h fit low below ne found = (omega arith, found.1, found.2)
  from_right l mid end (negsuc c) h fit low below ne found =
      (found.0, λ k p q e. ground (arith, found.1 k, sorted k mid, eq_of_parts (get a mid) x))

  -- On the first n cells in ascending order, with more fuel than the range [l, end) is long,
  -- binarySearch with r = end - 1 returns: the index of a cell of the range that holds x, or -1
  -- where none does.
  pub binary_search-Locates :
      (fuel l end : ℕ)
      → end ≤ n
      → end - l < fuel
      → Returns (Locates a x l end) (binary_search fuel a l (pos end -ℤ pos 1) x)
  unfolding binary_search
  binary_search-Locates zero l end fit enough = absurd (omega arith)
  binary_search-Locates (suc fuel) l end fit enough =
      elim (Bool-cases (leb_ℤ (pos l) (pos end -ℤ pos 1))) [
        | inr f ↦ let empty = end_empty l end f in rw f (returns (omega arith))
        | inl t ↦
            let bounds = end_bounds l end t in
            let mid = l + (end - 1 - l) / 2 in
            rw (t, bounds.1, load-get a mid (omega arith))
              (Returns-if (get a mid ==ℤ x)
                (λ hit. returns (ground (arith, eq_of_parts (get a mid) x)))
                (λ miss.
                  let ne : get a mid ≢ x = λ e. ground arith in
                  Returns-if (ltb_ℤ x (get a mid))
                    (λ above.
                      Returns-map (binary_search-Locates fuel l mid (omega arith) (omega arith))
                        λ r found. from_left l mid end r (omega arith) fit (ground arith) ne found)
                    (λ below.
                      Returns-map
                        (binary_search-Locates fuel (mid + 1) end (omega arith) (omega arith))
                        λ r found.
                          from_right l mid end r (omega arith) fit (omega arith) (ground arith) ne
                            found)))
      ]
