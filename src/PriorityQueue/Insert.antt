-- ===== src/PriorityQueue/Insert.antt =====
-- push of priority_queue.c: where the new node goes.
use oo_o_processor.Common.{
  ℕ, zero, suc, ◌≤◌, ◌<◌, ◌≡◌, ◌≢◌, refl, ap, sym, ◌∙◌, arith, ℤ, ltb_ℤ, false, ◌||◌, Option, some,
  List, [], ◌∷◌, ◌==◌, if◌then◌else◌, length, Returns, returns, Returns-bind, Returns-map,
  Bool-cases, inl, inr,
}
use oo_o_processor.Nodes.{Ptr, null, Node, node, Heap, write, place}
use oo_o_processor.Nodes.Chain.{
  has, ◌∉◌, Points, Chain, nil, cons, not_null, deref-ok, set_next-ok, Points-write, Points-other,
  frame-write, write_twice, ∉-cons, cons-∉,
}
use oo_o_processor.PriorityQueue.{Item, item, new_node, link, insert_behind, push}

-- An item among the later ones: before the first whose priority is not below its own.
unfoldable pub before : Item → List Item → List Item
before x [] = x ∷ []
before x (y ∷ ys) = if ltb_ℤ y.priority x.priority then y ∷ before x ys else x ∷ y ∷ ys

-- An item in a queue: in front, where its priority is below the first one's.
unfoldable pub inserted : Item → List Item → List Item
inserted x [] = x ∷ []
inserted x (y ∷ ys) = if ltb_ℤ x.priority y.priority then x ∷ y ∷ ys else y ∷ before x ys

-- The chain behind `start`, with the new node in it.
record Inserted (h : Heap Item) (temp start : Ptr) (ps : List Ptr) (x : Item) (ys : List Item)
    (g : Heap Item) : Type 0 where
  nodes : List Ptr
  second : Ptr
  first : Points g start x second
  fresh : start ∉ nodes
  chain : Chain g null second nodes ys
  members : (a : Ptr) → has a nodes ≡ ((a == temp) || has a ps)
  size : length nodes ≡ suc (length ps)
  outside : (a : Ptr) → a ≢ temp → a ∉ start ∷ ps → g a ≡ h a

link-Inserted :
    {h : Heap Item} {temp start q r : Ptr} {ps : List Ptr} {x z : Item} {xs : List Item}
    → Points h temp z r
    → Points h start x q
    → temp ∉ start ∷ ps
    → start ∉ ps
    → Chain h null q ps xs
    → Returns (Inserted h temp start ps x (z ∷ xs)) (link start temp q h)
unfolding link
link-Inserted {h = h} {temp = temp} {start = start} {q = q} {ps = ps} {x = x} {z = z} new e out o
      chain =
    let (ne', out') = ∉-cons temp start ps out in
    let ne : start ≢ temp = λ k. ne' (sym k) in
    let e' : Points (write h temp (some (node z q))) start x q = Points-other temp _ e ne in
    rw (set_next-ok new q, set_next-ok e' temp)
      (returns (record {
        nodes = temp ∷ ps;
        second = temp;
        first = Points-write _ start x temp e.ne_null;
        fresh = cons-∉ start temp ps ne o;
        chain =
            cons (Points-other start _ (Points-write h temp z q new.ne_null) ne') out'
              (frame-write start _ (frame-write temp _ chain out') o);
        members = λ a. refl;
        size = refl;
        outside =
            λ a na oa. let (nb, _) = ∉-cons a start ps oa in write_twice h temp start _ _ a na nb;
      }))

Inserted-cons :
    {h g : Heap Item} {temp start q : Ptr} {ps : List Ptr} {x y : Item} {ys : List Item}
    → Points h start x q
    → start ≢ temp
    → start ∉ q ∷ ps
    → Inserted h temp q ps y ys g
    → Inserted h temp start (q ∷ ps) x (y ∷ ys) g
Inserted-cons {temp = temp} {start = start} {q = q} {ps = ps} e ne o i = record {
  nodes = q ∷ i.nodes;
  second = q;
  first = record { ne_null = e.ne_null; holds = i.outside start ne o ∙ e.holds };
  fresh = ground (arith, i.members start, o, ne);
  chain = cons i.first i.fresh i.chain;
  members = λ a. ground (arith, i.members a);
  size = ap suc i.size;
  outside = λ a na oa. i.outside a na ((∉-cons a start (q ∷ ps) oa).1);
}

insert_behind-Inserted :
    (fuel : ℕ) {h : Heap Item} {temp start q r : Ptr} {ps : List Ptr} {x z : Item} {xs : List Item}
    → length ps < fuel
    → Points h temp z r
    → Points h start x q
    → temp ∉ start ∷ ps
    → start ∉ ps
    → Chain h null q ps xs
    → Returns
        (Inserted h temp start ps x (before z xs))
        (insert_behind fuel start temp z.priority h)
unfolding insert_behind before
insert_behind-Inserted zero enough new e out o chain = absurd (omega arith)
insert_behind-Inserted (suc fuel) enough new e out o nil =
    rw (deref-ok e) (link-Inserted new e out o nil)
insert_behind-Inserted (suc fuel) {temp = temp} {start = start} {z = z} enough new e out o
      (cons {p = q} {x = y} {ps = ps} {xs = xs} f o' chain) =
    let (ne, out') = ∉-cons temp start (q ∷ ps) out in
    rw (deref-ok e, not_null f, deref-ok f)
      (elim (Bool-cases (ltb_ℤ y.priority z.priority)) [
        | inl t ↦ rw t (
            Returns-map (insert_behind-Inserted fuel (omega arith) new f out' o' chain)
              λ g i. Inserted-cons e (λ k. ne (sym k)) o i)
        | inr t ↦ rw t (link-Inserted new e out o (cons f o' chain))
      ])

pub is_not_null : (p : Ptr) → p ≢ null → (p == null) ≡ false
is_not_null p ne = ground arith

pub write_once :
    (h : Heap Item) (p : Ptr) (c : Option (Node Item)) (a : Ptr) → a ≢ p → write h p c a ≡ h a
unfolding write
write_once h p c a ne = ground arith

-- The queue after a push: its nodes are those before and the new one.
pub record Pushed (h : Heap Item) (temp : Ptr) (ps : List Ptr) (ys : List Item)
    (end : Ptr × Heap Item) : Type 0 where
  pub nodes : List Ptr
  pub chain : Chain (end.1) null (end.0) nodes ys
  pub members : (a : Ptr) → has a nodes ≡ ((a == temp) || has a ps)
  pub size : length nodes ≡ suc (length ps)
  pub outside : (a : Ptr) → a ≢ temp → a ∉ ps → (end.1) a ≡ h a

-- On a queue with an item, with at least as much fuel as items, and an address from tj_malloc that is not NULL
-- and not in the queue, push ends. It puts the item in front where its priority is below the first
-- one's, and else before the first later item whose priority is not below its own; the nodes of the
-- queue and the new one make up the new queue, and no other node has changed.
pub push-Pushed :
    (fuel : ℕ) {h : Heap Item} {head temp : Ptr} {ps : List Ptr} {xs : List Item} (d p : ℤ)
    → temp ≢ null
    → temp ∉ ps
    → Chain h null head ps xs
    → 0 < length ps
    → length ps ≤ fuel
    → Returns (Pushed h temp ps (inserted (item d p) xs)) (push fuel head temp d p h)
unfolding push new_node place inserted
push-Pushed fuel d p ne out nil filled enough = absurd (omega arith)
push-Pushed fuel {h = h} {head = head} {temp = temp} d p ne out (cons {x = x} {ps = ps} e o chain)
      filled enough =
    let (ne', out') = ∉-cons temp head ps out in
    let new : Points (write h temp (some (node (item d p) null))) temp (item d p) null =
      Points-write h temp (item d p) null ne in
    let e' = Points-other temp (some (node (item d p) null)) e (λ k. ne' (sym k)) in
    let chain' = frame-write temp (some (node (item d p) null)) chain out' in
    rw (is_not_null temp ne, deref-ok e')
      (elim (Bool-cases (ltb_ℤ p x.priority)) [
        | inl t ↦
            rw (t, set_next-ok new head)
              (returns (record {
                nodes = temp ∷ head ∷ ps;
                chain =
                    cons (Points-write _ temp (item d p) head ne) out
                      (frame-write temp _ (cons e' o chain') out);
                members = λ a. refl;
                size = refl;
                outside = λ a na oa. write_twice h temp temp _ _ a na na;
              }))
        | inr t ↦ rw t (
            Returns-bind (insert_behind-Inserted fuel enough new e' out o chain') λ g i.
              returns (record {
                nodes = head ∷ i.nodes;
                chain = cons i.first i.fresh i.chain;
                members = λ a. ground (arith, i.members a);
                size = ap suc i.size;
                outside = λ a na oa. i.outside a na oa ∙ write_once h temp _ a na;
              }))
      ])
