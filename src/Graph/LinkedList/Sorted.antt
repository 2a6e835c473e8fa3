-- ===== src/Graph/LinkedList/Sorted.antt =====
-- bubbleSort of graph.c sorts the list.
use mathlib.Core.Path.{subst}
use mathlib.Core.List.{append_assoc, append-nil}
use oo_o_processor.Common.{
  ℕ, zero, suc, ◌+◌, ◌<◌, ◌≤◌, ◌≡◌, ◌≢◌, refl, ap, sym, ◌∙◌, arith, ℤ, ◌≤ℤ◌, Bool, true, false,
  List, [], ◌∷◌, ◌++◌, ◌==◌, length, length-append, Returns, returns, Returns-bind, Returns-map,
  Returns-if,
}
use oo_o_processor.Array.{count}
use oo_o_processor.Nodes.{Ptr, null, Heap}
use oo_o_processor.Nodes.Chain.{
  has, ◌∉◌, Chain, nil, cons, not_null, frame, null-free, has-append, append,
}
use oo_o_processor.Graph.LinkedList.{bubble_rounds, bubble_sort}
use oo_o_processor.Graph.LinkedList.Pass.{Ascending, AllBelow, Passed, bubble_pass-Passed, has-snoc}

AllBelow-count : (w v : ℤ) (xs : List ℤ) → AllBelow w xs → 0 < count v xs → v ≤ℤ w
unfolding count
AllBelow-count w v [] b h = absurd (omega arith)
AllBelow-count w v (x ∷ xs) (here, below) h = ground (arith, AllBelow-count w v xs)

count-AllBelow : (w : ℤ) (xs : List ℤ) → ((v : ℤ) → 0 < count v xs → v ≤ℤ w) → AllBelow w xs
unfolding count
count-AllBelow w [] all = tt
count-AllBelow w (x ∷ xs) all =
    (ground (arith, all x), count-AllBelow w xs λ v h. all v (omega arith))

-- The first of the later items is not below any earlier one.
abbrev HeadAbove : List ℤ → List ℤ → Type 0
HeadAbove [] xs = Unit
HeadAbove (w ∷ ws) xs = AllBelow w xs

-- So the greatest item of the earlier ones goes before the later ones.
HeadAbove-Ascending :
    (m : ℤ) (ys xs ws : List ℤ)
    → ((v : ℤ) → count v (m ∷ ys) ≡ count v xs)
    → HeadAbove ws xs
    → Ascending ws
    → Ascending (m ∷ ws)
unfolding count
HeadAbove-Ascending m ys xs [] same above sorted = tt
HeadAbove-Ascending m ys xs (w ∷ ws) same above sorted =
    (AllBelow-count w m xs above (ground (arith, same m)), sorted)

Ascending-append :
    (ys : List ℤ) (m : ℤ) (ws : List ℤ)
    → Ascending (ys ++ m ∷ [])
    → Ascending (m ∷ ws)
    → Ascending (ys ++ m ∷ ws)
Ascending-append [] m ws a b = b
Ascending-append (y ∷ []) m ws (h, a) b = (h, b)
Ascending-append (y ∷ z ∷ ys) m ws (h, a) b = (h, Ascending-append (z ∷ ys) m ws a b)

count-append : (v : ℤ) (xs ys : List ℤ) → count v (xs ++ ys) ≡ count v xs + count v ys
unfolding count
count-append v [] ys = omega arith
count-append v (x ∷ xs) ys = omega (arith, count-append v xs ys)

-- The list at p has the same nodes, with its items in ascending order, each as often as before; no
-- other node has changed.
pub record ListSorts (h : Heap ℤ) (p : Ptr) (ps : List Ptr) (xs : List ℤ) (g : Heap ℤ)
    : Type 0 where
  pub sorted : List ℤ
  pub chain : Chain g null p ps sorted
  pub ascending : Ascending sorted
  pub same : (v : ℤ) → count v sorted ≡ count v xs
  pub outside : (a : Ptr) → a ∉ ps → g a ≡ h a

-- A node of a list is another than one that is not in it.
same_address : (a q : Ptr) (fs : List Ptr) → has a fs ≡ true → q ∉ fs → (a == q) ≡ false
same_address a q [] i o = cc
same_address a q (p ∷ fs) i o = ground (arith, same_address a q fs)

module _ {h : Heap ℤ} {stop p : Ptr} {ps bs : List Ptr} {x : ℤ} {xs ws : List ℤ}
    {end : Ptr × Bool × Heap ℤ} (d : Passed h stop p ps x xs false end)
    (back : Chain h null stop bs ws) (apart : (a : Ptr) → has a (p ∷ ps) ≡ true → a ∉ bs) where
  in_list : has (end.0) (p ∷ ps) ≡ true
  in_list = ground (arith, ap (has (end.0)) d.split, has-snoc (end.0) (end.0) d.fs)

  -- The greatest item's node before the later nodes.
  back-Chain : Chain (end.2) null (end.0) (end.0 ∷ bs) (d.m ∷ ws)
  back-Chain =
      cons d.last (apart (end.0) in_list)
        (frame back λ a i. d.outside a (ground (arith, apart a, i)))

  -- The nodes that come before it are not among them.
  front_apart : (a : Ptr) → has a d.fs ≡ true → a ∉ end.0 ∷ bs
  front_apart a i = ground (
    arith,
    ap (has a) d.split,
    has-snoc a (end.0) d.fs,
    apart a,
    d.fresh,
    same_address a (end.0) d.fs i,
  )

  nodes : d.fs ++ end.0 ∷ bs ≡ p ∷ (ps ++ bs)
  nodes = sym (append_assoc d.fs (end.0 ∷ []) bs) ∙ ap (λ l. l ++ bs) (sym d.split)

  -- Without an exchange the list is sorted.
  quiet-ListSorts :
      end.1 ≡ false → Ascending (d.m ∷ ws) → ListSorts h p (p ∷ (ps ++ bs)) (x ∷ (xs ++ ws)) (end.2)
  quiet-ListSorts quiet above =
      let (_, whole, sorted) = d.still quiet in
      let whole' : d.ys ++ d.m ∷ ws ≡ x ∷ (xs ++ ws) =
        sym (append_assoc d.ys (d.m ∷ []) ws) ∙ ap (λ l. l ++ ws) whole in
      record {
        sorted = d.ys ++ d.m ∷ ws;
        chain =
            subst (λ l. Chain (end.2) null p l (d.ys ++ d.m ∷ ws)) nodes
              (append d.front back-Chain front_apart);
        ascending = Ascending-append d.ys d.m ws (subst Ascending (sym whole) sorted) above;
        same = λ v. ap (count v) whole';
        outside = λ a o. d.outside a (ground (arith, has-append a ps bs, o));
      }

  counts : (v : ℤ) → count v (d.ys ++ d.m ∷ ws) ≡ count v (x ∷ (xs ++ ws))
  unfolding count
  counts v = omega (arith, count-append v d.ys (d.m ∷ ws), count-append v xs ws, d.same v)

  -- What later rounds do to the list, from what this one left.
  later-ListSorts :
      (g : Heap ℤ)
      → ListSorts (end.2) p (d.fs ++ end.0 ∷ bs) (d.ys ++ d.m ∷ ws) g
      → ListSorts h p (p ∷ (ps ++ bs)) (x ∷ (xs ++ ws)) g
  later-ListSorts g s = record {
    sorted = s.sorted;
    chain = subst (λ l. Chain g null p l s.sorted) nodes s.chain;
    ascending = s.ascending;
    same = λ v. s.same v ∙ counts v;
    outside = λ a o.
        s.outside a (subst (λ l. a ∉ l) (sym nodes) o)
        ∙ d.outside a (ground (arith, has-append a ps bs, o));
  }

bubble_rounds-ListSorts :
    (fuel : ℕ) {h : Heap ℤ} {stop p : Ptr} {fs bs : List Ptr} {vs ws : List ℤ}
    → length fs ≤ fuel
    → fs ≢ []
    → Chain h stop p fs vs
    → Chain h null stop bs ws
    → has stop fs ≡ false
    → ((a : Ptr) → has a fs ≡ true → a ∉ bs)
    → Ascending ws
    → HeadAbove ws vs
    → Returns (ListSorts h p (fs ++ bs) (vs ++ ws)) (bubble_rounds fuel p stop h)
unfolding bubble_rounds
bubble_rounds-ListSorts fuel enough some nil back out apart sorted above = absurd (some refl)
bubble_rounds-ListSorts zero enough some (cons e o chain) back out apart sorted above =
    absurd (omega arith)
bubble_rounds-ListSorts (suc fuel) {h = h} {stop = stop} {p = p} {bs = bs} {ws = ws} enough some
      (cons {x = x} {ps = ps} {xs = xs} e o chain) back out apart sorted above =
    Returns-bind (bubble_pass-Passed (suc fuel) false (omega arith) out e o chain) λ (q, b, g) d.
      let above' = HeadAbove-Ascending d.m d.ys (x ∷ xs) ws d.same above sorted in
      Returns-if b
        (λ again.
          Returns-map
            (bubble_rounds-ListSorts fuel
              (omega (arith, ap length d.split, length-append d.fs (q ∷ [])))
              (λ none. cc (d.single none)) d.front (back-Chain d back apart) d.fresh
              (front_apart d back apart) above' d.below)
            λ g' s. later-ListSorts d back apart g' s)
        (λ quiet. returns (quiet-ListSorts d back apart quiet above'))

-- From a list of nodes, with at least as much fuel as nodes, bubbleSort ends. The list then has the same
-- nodes, with its items in ascending order, each as often as before; no other node has changed.
pub bubble_sort-ListSorts :
    (fuel : ℕ) {h : Heap ℤ} {start : Ptr} {ps : List Ptr} {xs : List ℤ}
    → Chain h null start ps xs
    → length ps ≤ fuel
    → Returns (ListSorts h start ps xs) (bubble_sort fuel start h)
unfolding bubble_sort
bubble_sort-ListSorts fuel {h = h} nil enough =
    returns
      (record { sorted = []; chain = nil; ascending = tt; same = λ v. refl; outside = λ a o. refl })
bubble_sort-ListSorts fuel {h = h} {start = start} (cons {x = x} {ps = ps} {xs = xs} e o chain)
      enough =
    rw (not_null e) (
      subst
        (λ l. Returns (ListSorts h start (start ∷ l) (x ∷ xs)) (bubble_rounds fuel start null h))
        (append-nil ps)
        (subst
          (λ l.
            Returns (ListSorts h start (start ∷ (ps ++ [])) (x ∷ l))
              (bubble_rounds fuel start null h))
          (append-nil xs)
          (bubble_rounds-ListSorts fuel enough (λ none. cc) (cons e o chain) nil
            (null-free (cons e o chain)) (λ a i. refl) tt tt)))
