-- ===== src/Nodes/Chain.antt =====
-- Linked lists in a memory: from p the next pointers lead through distinct nodes to `stop`.
use oo_o_processor.Common.{
  ◌≡◌, ◌≢◌, refl, arith, Bool, true, false, ◌||◌, Option, none, some, List, [], ◌∷◌, ◌++◌, ok, ◌==◌,
}
use oo_o_processor.Nodes.{Ptr, null, Node, node, Heap, write, deref, set_item, set_next, release}

abbrev pub has : Ptr → List Ptr → Bool
has a [] = false
has a (p ∷ ps) = (a == p) || has a ps

infix 40 ◌∉◌
abbrev pub ◌∉◌ : Ptr → List Ptr → Type 0
a ∉ ps = has a ps ≡ false

module _ {ℓ} {A : Type ℓ} where
  -- `p` holds x and the successor q.
  pub record Points (h : Heap A) (p : Ptr) (x : A) (q : Ptr) : Type ℓ where
    pub ne_null : p ≢ null
    pub holds : h p ≡ some (node x q)

  pub data Chain (h : Heap A) (stop : Ptr) : Ptr → List Ptr → List A → Type ℓ where
    nil : Chain h stop stop [] []
    cons :
        {p q : Ptr} {x : A} {ps : List Ptr} {xs : List A}
        → Points h p x q
        → p ∉ ps
        → Chain h stop q ps xs
        → Chain h stop p (p ∷ ps) (x ∷ xs)

  module _ {h : Heap A} {p q : Ptr} {x : A} (e : Points h p x q) where
    pub not_null : (p == null) ≡ false
    not_null = ground (arith, e.ne_null)

    pub deref-ok : deref h p ≡ ok (node x q)
    unfolding deref
    deref-ok = rw (not_null, e.holds) refl

    pub set_item-ok : (y : A) → set_item h p y ≡ ok (write h p (some (node y q)))
    unfolding set_item
    set_item-ok y = rw deref-ok refl

    pub set_next-ok : (r : Ptr) → set_next h p r ≡ ok (write h p (some (node x r)))
    unfolding set_next
    set_next-ok r = rw deref-ok refl

    pub release-ok : release h p ≡ ok (write h p none)
    unfolding release
    release-ok = rw deref-ok refl

  pub Points-write :
      (h : Heap A) (p : Ptr) (y : A) (r : Ptr)
      → p ≢ null
      → Points (write h p (some (node y r))) p y r
  unfolding write
  Points-write h p y r ne = record { ne_null = ne; holds = ground arith }

  -- What a write elsewhere leaves.
  pub Points-other :
      {h : Heap A} {p q : Ptr} {x : A} (a : Ptr) (c : Option (Node A))
      → Points h p x q
      → p ≢ a
      → Points (write h a c) p x q
  unfolding write
  Points-other a c e ne = record { ne_null = e.ne_null; holds = ground (arith, e.holds, ne) }

  -- A chain survives any change that spares its own addresses.
  pub frame :
      {h g : Heap A} {stop p : Ptr} {ps : List Ptr} {xs : List A}
      → Chain h stop p ps xs
      → ((a : Ptr) → has a ps ≡ true → g a ≡ h a)
      → Chain g stop p ps xs
  frame nil same = nil
  frame (cons {p = p} e out c) same =
      cons (record { ne_null = e.ne_null; holds = ground (arith, same p, e.holds) }) out
        (frame c λ a i. same a (ground arith))

  pub frame-write :
      {h : Heap A} {stop p : Ptr} {ps : List Ptr} {xs : List A} (a : Ptr) (c : Option (Node A))
      → Chain h stop p ps xs
      → a ∉ ps
      → Chain (write h a c) stop p ps xs
  unfolding write
  frame-write a c chain out = frame chain λ b i. ground arith

pub has-append : (a : Ptr) (ps qs : List Ptr) → has a (ps ++ qs) ≡ (has a ps || has a qs)
has-append a [] qs = refl
has-append a (p ∷ ps) qs = ground (arith, has-append a ps qs)

-- Two chains, one after the other.
pub append {ℓ} :
    {A : Type ℓ} {h : Heap A} {stop end p : Ptr} {ps qs : List Ptr} {xs ys : List A}
    → Chain h stop p ps xs
    → Chain h end stop qs ys
    → ((a : Ptr) → has a ps ≡ true → a ∉ qs)
    → Chain h end p (ps ++ qs) (xs ++ ys)
append nil later apart = later
append {qs = qs} (cons {p = p} {ps = ps} e out chain) later apart =
    cons e (ground (arith, has-append p ps qs, apart p, out))
      (append chain later λ a i. apart a (ground arith))

pub null-free {ℓ} :
    {A : Type ℓ} {h : Heap A} {stop p : Ptr} {ps : List Ptr} {xs : List A}
    → Chain h stop p ps xs
    → null ∉ ps
null-free nil = refl
null-free (cons e out chain) = ground (arith, e.ne_null, null-free chain)

pub write_twice {ℓ} :
    {A : Type ℓ} (h : Heap A) (p q : Ptr) (c d : Option (Node A)) (a : Ptr)
    → a ≢ p
    → a ≢ q
    → write (write h p c) q d a ≡ h a
unfolding write
write_twice h p q c d a np nq = ground arith

-- The head of a list of addresses and another.
pub ∉-cons : (a p : Ptr) (ps : List Ptr) → a ∉ p ∷ ps → (a ≢ p) × (a ∉ ps)
∉-cons a p ps out = (ground arith, ground arith)

pub cons-∉ : (a p : Ptr) (ps : List Ptr) → a ≢ p → a ∉ ps → a ∉ p ∷ ps
cons-∉ a p ps ne out = ground arith
