-- ===== src/Graph/LinkedList/Pass.antt =====
-- A round of bubbleSort in graph.c: the greatest item of the chain ends up in its last node.
use mathlib.Core.Path.{subst}
use oo_o_processor.Common.{
  ℕ, zero, suc, ◌<◌, ◌≡◌, ◌≢◌, refl, ap, sym, ◌∙◌, ◌||◌, arith, ℤ, ◌≤ℤ◌, ltb_ℤ, Bool, true, false,
  some, List, [], ◌∷◌, ◌++◌, ok, ◌==◌, length, Returns, returns, Returns-bind, Returns-map,
  Bool-cases, inl, inr,
}
use oo_o_processor.Array.{count}
use oo_o_processor.Nodes.{Ptr, node, Heap, write}
use oo_o_processor.Nodes.Chain.{
  has, ◌∉◌, Points, Chain, nil, cons, deref-ok, set_item-ok, Points-write, Points-other, frame,
  write_twice,
}
use oo_o_processor.Graph.LinkedList.{swap, compare_step, bubble_pass}

abbrev pub Ascending : List ℤ → Type 0
Ascending [] = Unit
Ascending (x ∷ []) = Unit
Ascending (x ∷ y ∷ r) = (x ≤ℤ y) × Ascending (y ∷ r)

-- Every item is at most m.
abbrev pub AllBelow : ℤ → List ℤ → Type 0
AllBelow m [] = Unit
AllBelow m (x ∷ xs) = (x ≤ℤ m) × AllBelow m xs

swap-ok :
    {h : Heap ℤ} {p q r : Ptr} {x y : ℤ}
    → Points h p x q
    → Points h q y r
    → p ≢ q
    → swap p q h ≡ ok (write (write h p (some (node y q))) q (some (node x r)))
unfolding swap
swap-ok {h = h} {p = p} {q = q} {y = y} e f ne =
    rw (deref-ok e, deref-ok f, set_item-ok e y)
      (set_item-ok (Points-other p (some (node y q)) f (λ eq. ne (sym eq))) _)

-- Two neighbours after they were compared.
record Compared (h : Heap ℤ) (p q r : Ptr) (x y : ℤ) (b : Bool) (end : Bool × Heap ℤ) : Type 0 where
  lo : ℤ
  hi : ℤ
  low : Points (end.1) p lo q
  high : Points (end.1) q hi r
  order : lo ≤ℤ hi
  reach : x ≤ℤ hi
  same : (v : ℤ) → count v (lo ∷ hi ∷ []) ≡ count v (x ∷ y ∷ [])
  still : end.0 ≡ false → (b ≡ false) × (lo ≡ x) × (hi ≡ y)
  others : (a : Ptr) → a ≢ p → a ≢ q → (end.1) a ≡ h a

compare_step-Compared :
    {h : Heap ℤ} {p q r : Ptr} {x y : ℤ} (b : Bool)
    → Points h p x q
    → Points h q y r
    → p ≢ q
    → Returns (Compared h p q r x y b) (compare_step p q b h)
unfolding compare_step count
compare_step-Compared {h = h} {p = p} {q = q} {r = r} {x = x} {y = y} b e f ne =
    rw (deref-ok e, deref-ok f)
      (elim (Bool-cases (ltb_ℤ y x)) [
        | inl t ↦
            rw (t, swap-ok e f ne)
              (returns (record {
                lo = y;
                hi = x;
                low = Points-other q _ (Points-write h p y q e.ne_null) ne;
                high = Points-write (write h p (some (node y q))) q x r f.ne_null;
                order = ground arith;
                reach = ground arith;
                same = λ v. omega arith;
                still = λ k. cc;
                others = λ a np nq. write_twice h p q _ _ a np nq;
              }))
        | inr t ↦ rw t (
            returns (record {
              lo = x;
              hi = y;
              low = e;
              high = f;
              order = ground arith;
              reach = ground arith;
              same = λ v. refl;
              still = λ k. (k, refl, refl);
              others = λ a np nq. refl;
            }))
      ])

same_ptr : (p : Ptr) → (p == p) ≡ true
same_ptr p = ground arith

-- The list after a round: `fs` and `q` are its nodes, and q holds the greatest item.
pub record Passed (h : Heap ℤ) (stop p : Ptr) (ps : List Ptr) (x : ℤ) (xs : List ℤ) (b : Bool)
    (end : Ptr × Bool × Heap ℤ) : Type 0 where
  pub fs : List Ptr
  pub ys : List ℤ
  pub m : ℤ
  pub split : p ∷ ps ≡ fs ++ end.0 ∷ []
  pub front : Chain (end.2) (end.0) p fs ys
  pub last : Points (end.2) (end.0) m stop
  pub fresh : end.0 ∉ fs
  pub same : (v : ℤ) → count v (m ∷ ys) ≡ count v (x ∷ xs)
  pub below : AllBelow m ys
  pub reach : x ≤ℤ m
  pub still : end.1 ≡ false → (b ≡ false) × (ys ++ m ∷ [] ≡ x ∷ xs) × Ascending (x ∷ xs)
  pub single : fs ≡ [] → end.1 ≡ b
  pub outside : (a : Ptr) → a ∉ p ∷ ps → (end.2) a ≡ h a

pub has-snoc : (a q : Ptr) (ps : List Ptr) → has a (ps ++ q ∷ []) ≡ (has a ps || a == q)
has-snoc a q [] = ground arith
has-snoc a q (p ∷ ps) = ground (arith, has-snoc a q ps)

-- What a node that is not among the later ones is not.
apart : (p q : Ptr) (fs ps : List Ptr) → ps ≡ fs ++ q ∷ [] → p ∉ ps → (p ∉ fs) × ((q == p) ≡ false)
apart p q fs ps split out = ground (arith, has-snoc p q fs, ap (has p) split)

outside_both : (a p q : Ptr) (ps : List Ptr) → a ∉ p ∷ q ∷ ps → (a ≢ p) × (a ≢ q) × (a ∉ q ∷ ps)
outside_both a p q ps out = (ground arith, ground arith, ground arith)

still_cons :
    {lo hi x y : ℤ} {xs zs : List ℤ} {b : Bool}
    → lo ≡ x
    → hi ≡ y
    → lo ≤ℤ hi
    → zs ≡ hi ∷ xs
    → (b ≡ false) × Ascending (hi ∷ xs)
    → (b ≡ false) × (lo ∷ zs ≡ x ∷ y ∷ xs) × Ascending (x ∷ y ∷ xs)
still_cons {lo = lo} {x = x} {y = y} {xs = xs} low high order whole (quiet, rest) = (
  quiet,
  cc,
  (
    subst (λ l. l ≤ℤ y) low (subst (λ k. lo ≤ℤ k) high order),
    subst (λ k. Ascending (k ∷ xs)) high rest,
  ),
)

Passed-cons :
    {h : Heap ℤ} {stop p q r : Ptr} {ps : List Ptr} {x y : ℤ} {xs : List ℤ} {b : Bool}
    {mid : Bool × Heap ℤ} {end : Ptr × Bool × Heap ℤ}
    → (c : Compared h p q r x y b mid) → p ∉ q ∷ ps
    → Passed (mid.1) stop q ps c.hi xs (mid.0) end
    → Passed h stop p (q ∷ ps) x (y ∷ xs) b end
unfolding count
Passed-cons {p = p} {q = q} {ps = ps} {x = x} {xs = xs} {end = end} c out d =
    let (out_fs, ne) = apart p (end.0) d.fs (q ∷ ps) d.split out in
    record {
      fs = p ∷ d.fs;
      ys = c.lo ∷ d.ys;
      m = d.m;
      split = ap (λ l. p ∷ l) d.split;
      front =
          cons (record { ne_null = c.low.ne_null; holds = d.outside p out ∙ c.low.holds }) out_fs
            d.front;
      last = d.last;
      fresh = ground (arith, d.fresh, ne);
      same = λ v. omega (arith, d.same v, c.same v);
      below = (omega (arith, c.order, d.reach), d.below);
      reach = omega (arith, c.reach, d.reach);
      still = λ k.
          let (quiet, whole, rest) = d.still k in
          let (quiet', low, high) = c.still quiet in
          still_cons low high c.order whole (quiet', rest);
      single = λ e. cc;
      outside =
          λ a o. let (np, nq, o') = outside_both a p q ps o in d.outside a o' ∙ c.others a np nq;
    }

-- The next node is not the last pointer, and not this node.
not_yet :
    (stop p q : Ptr) (ps : List Ptr)
    → has stop (p ∷ q ∷ ps) ≡ false
    → p ∉ q ∷ ps
    → ((q == stop) ≡ false) × (has stop (q ∷ ps) ≡ false) × (p ≢ q)
not_yet stop p q ps out o = (ground arith, ground arith, ground arith)

-- An address among the later nodes is neither of the two compared.
later_node :
    (a p q : Ptr) (ps : List Ptr) → has a ps ≡ true → p ∉ q ∷ ps → q ∉ ps → (a ≢ p) × (a ≢ q)
later_node a p q ps i o o' = (ground arith, ground arith)

pub bubble_pass-Passed :
    (fuel : ℕ) {h : Heap ℤ} {stop p q : Ptr} {ps : List Ptr} {x : ℤ} {xs : List ℤ} (b : Bool)
    → length ps < fuel
    → has stop (p ∷ ps) ≡ false
    → Points h p x q
    → p ∉ ps
    → Chain h stop q ps xs
    → Returns (Passed h stop p ps x xs b) (bubble_pass fuel p stop b h)
unfolding bubble_pass
bubble_pass-Passed zero b enough out e o chain = absurd (omega arith)
bubble_pass-Passed (suc fuel) {stop = stop} {x = x} b enough out e o nil =
    rw (deref-ok e, same_ptr stop)
      (returns (record {
        fs = [];
        ys = [];
        m = x;
        split = refl;
        front = nil;
        last = e;
        fresh = refl;
        same = λ v. refl;
        below = tt;
        reach = omega arith;
        still = λ k. (k, refl, tt);
        single = λ k. refl;
        outside = λ a k. refl;
      }))
bubble_pass-Passed (suc fuel) {stop = stop} {p = p} b enough out e o
      (cons {p = q} {ps = ps} f o' chain) =
    let (no_stop, later, ne) = not_yet stop p q ps out o in
    rw (deref-ok e, no_stop)
      (Returns-bind (compare_step-Compared b e f ne) λ (b', h') c.
        Returns-map
          (bubble_pass-Passed fuel b' (omega arith) later c.high o'
            (frame chain λ a i. let (np, nq) = later_node a p q ps i o o' in c.others a np nq))
          λ end d. Passed-cons c o d)
