-- ===== src/PriorityQueue/Drain.antt =====
-- priority_queue.c as a whole: pushes, and the loop that empties the queue.
use oo_o_processor.Common.{
  ℕ, zero, suc, ◌+◌, ◌≤◌, ◌<◌, ◌≡◌, ◌≢◌, refl, ap, ◌∙◌, arith, ℤ, Bool, false, ◌||◌, none, some,
  List, [], ◌∷◌, map, ◌==◌, if◌then◌else◌, length, Returns, returns, Returns-bind, Returns-map,
  Bool-cases, inl, inr,
}
use oo_o_processor.Nodes.{Ptr, null, node, Heap, write, place}
use oo_o_processor.Nodes.Chain.{
  has, Chain, nil, cons, not_null, deref-ok, release-ok, Points-write, frame-write,
}
use oo_o_processor.PriorityQueue.{
  Item, item, new_node, peek, pop, is_empty, push_all, drain, main_with,
}
use oo_o_processor.PriorityQueue.Insert.{inserted, Pushed, write_once, is_not_null, push-Pushed}
use oo_o_processor.PriorityQueue.Order.{InOrder, occurs, inserted-InOrder, occurs-inserted}

abbrev pub values : List Item → List ℤ
values xs = map (λ (x : Item). x.value) xs

-- What the loop prints, and the memory after it: the nodes of the queue are free.
abbrev pub Drained : Heap Item → List Ptr → List Item → List ℤ × Heap Item → Type 0
Drained h ps xs (ds, g) = (ds ≡ values xs) × ((a : Ptr) → g a ≡ (if has a ps then none else h a))

free_both :
    (h : Heap Item) (head : Ptr) (ps : List Ptr) (a : Ptr)
    → (if has a ps then none else write h head none a) ≡ (if has a (head ∷ ps) then none else h a)
unfolding write
free_both h head ps a = ground arith

drain-Drained :
    (fuel : ℕ) {h : Heap Item} {head : Ptr} {ps : List Ptr} {xs : List Item}
    → Chain h null head ps xs
    → length ps < fuel
    → Returns (Drained h ps xs) (drain fuel head h)
unfolding drain is_empty peek pop
drain-Drained zero chain enough = absurd (omega arith)
drain-Drained (suc fuel) nil enough = returns (refl, λ a. refl)
drain-Drained (suc fuel) {h = h} {head = head} (cons {x = x} {ps = ps} e o chain) enough =
    rw (not_null e, deref-ok e, release-ok e)
      (Returns-bind (drain-Drained fuel (frame-write head none chain o) (omega arith))
        λ (ds, g) (same, freed).
          returns (ap (λ l. x.value ∷ l) same, λ a. freed a ∙ free_both h head ps a))

-- The addresses that tj_malloc returned so far, and the items that were pushed.
abbrev pub all_used : List (Ptr × ℤ × ℤ) → (Ptr → Bool) → Ptr → Bool
all_used [] used = used
all_used ((temp, d, p) ∷ r) used = all_used r (λ a. a == temp || used a)

abbrev pub all_given : List (Ptr × ℤ × ℤ) → List Item → List Item
all_given [] given = given
all_given ((temp, d, p) ∷ r) given = all_given r (item d p ∷ given)

-- Each address is not NULL, and another than the earlier ones.
abbrev pub Fresh : List (Ptr × ℤ × ℤ) → (Ptr → Bool) → Type 0
Fresh [] used = Unit
Fresh ((temp, d, p) ∷ r) used =
    (temp ≢ null) × (used temp ≡ false) × Fresh r (λ a. a == temp || used a)

-- A queue in order that holds the items given, on the addresses used.
record Built (h₀ : Heap Item) (used : Ptr → Bool) (given : List Item) (end : Ptr × Heap Item)
    : Type 0 where
  nodes : List Ptr
  items : List Item
  chain : Chain (end.1) null (end.0) nodes items
  ordered : InOrder items
  same : (v : Item) → occurs v items ≡ occurs v given
  members : (a : Ptr) → has a nodes ≡ used a
  size : length nodes ≡ length given
  outside : (a : Ptr) → used a ≡ false → (end.1) a ≡ h₀ a

not_used :
    (used : Ptr → Bool) (temp a : Ptr)
    → (a == temp || used a) ≡ false
    → (a ≢ temp) × (used a ≡ false)
not_used used temp a o = (ground arith, ground arith)

Built-Pushed :
    {h₀ h : Heap Item} {used : Ptr → Bool} {given : List Item} {head temp : Ptr} {d p : ℤ}
    {end : Ptr × Heap Item}
    → (b : Built h₀ used given (head, h)) → Pushed h temp b.nodes (inserted (item d p) b.items) end
    → Built h₀ (λ a. a == temp || used a) (item d p ∷ given) end
unfolding occurs
Built-Pushed {used = used} {temp = temp} {d = d} {p = p} b q = record {
  nodes = q.nodes;
  items = inserted (item d p) b.items;
  chain = q.chain;
  ordered = inserted-InOrder (item d p) b.items b.ordered;
  same = λ v. omega (arith, occurs-inserted v (item d p) b.items, b.same v);
  members = λ a. ground (arith, q.members a, b.members a);
  size = omega (arith, q.size, b.size);
  outside = λ a o.
      let (ne, old) = not_used used temp a o in
      q.outside a ne (b.members a ∙ old) ∙ b.outside a old;
}

push_all-Built :
    (fuel : ℕ) (items : List (Ptr × ℤ × ℤ)) {h₀ h : Heap Item} {used : Ptr → Bool}
    {given : List Item} {head : Ptr}
    → length given + length items ≤ fuel
    → 0 < length given
    → Fresh items used
    → Built h₀ used given (head, h)
    → Returns (Built h₀ (all_used items used) (all_given items given)) (push_all fuel items head h)
unfolding push_all
push_all-Built fuel [] enough filled fresh b = returns b
push_all-Built fuel ((temp, d, p) ∷ r) enough filled (ne, new, fresh) b =
    Returns-bind
      (push-Pushed fuel d p ne (b.members temp ∙ new) b.chain (omega (arith, b.size))
        (omega (arith, b.size)))
      λ (head', h') q. push_all-Built fuel r (omega arith) (omega arith) fresh (Built-Pushed b q)

-- A queue of the first item.
new_node-Built :
    (temp : Ptr) (d p : ℤ) (h : Heap Item)
    → temp ≢ null
    → Built h (λ a. a == temp) (item d p ∷ []) (temp, write h temp (some (node (item d p) null)))
new_node-Built temp d p h ne = record {
  nodes = temp ∷ [];
  items = item d p ∷ [];
  chain = cons (Points-write h temp (item d p) null ne) refl nil;
  ordered = tt;
  same = λ v. refl;
  members = λ a. ground arith;
  size = refl;
  outside = λ a o. write_once h temp _ a ((not_used (λ b. b == temp) temp a (ground arith)).0);
}

-- What the program prints, and the memory after it.
abbrev pub Emptied : Heap Item → (Ptr → Bool) → List Item → List ℤ × Heap Item → Type 0
Emptied h used given (ds, g) =
    (zs : List Item) × ((ds ≡ values zs)
      × InOrder zs
      × ((v : Item) → occurs v zs ≡ occurs v given)
      × ((a : Ptr) → g a ≡ (if used a then none else h a)))

emptied :
    {h h' g : Heap Item} (ps : List Ptr) (used : Ptr → Bool)
    → ((a : Ptr) → has a ps ≡ used a)
    → ((a : Ptr) → used a ≡ false → h' a ≡ h a)
    → ((a : Ptr) → g a ≡ (if has a ps then none else h' a))
    → (a : Ptr) → g a ≡ (if used a then none else h a)
emptied ps used members outside freed a = elim (Bool-cases (used a)) [
  | inl t ↦ rw (freed a, members a, t) refl
  | inr t ↦ rw (freed a, members a, t) (outside a t)
]

length-all_given :
    (items : List (Ptr × ℤ × ℤ)) (given : List Item)
    → length (all_given items given) ≡ length items + length given
length-all_given [] given = omega arith
length-all_given ((temp, d, p) ∷ r) given = omega (arith, length-all_given r (item d p ∷ given))

Built-Emptied :
    (fuel : ℕ) {h : Heap Item} {used : Ptr → Bool} {given : List Item} {head : Ptr} {h' : Heap Item}
    → length given < fuel
    → Built h used given (head, h')
    → Returns (Emptied h used given) (drain fuel head h')
Built-Emptied fuel {used = used} enough b =
    Returns-map (drain-Drained fuel b.chain (omega (arith, b.size))) λ (ds, g) (same, freed).
      (b.items, (same, b.ordered, b.same, emptied b.nodes used b.members b.outside freed))

-- Where tj_malloc returns addresses that are not NULL and differ, and with more fuel than items, the
-- program ends. It prints the values of all items given to it, each item as often as it was given, in
-- the order of their priorities, and afterwards every node is free again and nothing else has changed.
pub main_with-Emptied :
    (fuel : ℕ) (temp : Ptr) (d p : ℤ) (items : List (Ptr × ℤ × ℤ)) (h : Heap Item)
    → temp ≢ null
    → Fresh items (λ a. a == temp)
    → suc (length items) < fuel
    → Returns
        (Emptied h (all_used items (λ a. a == temp)) (all_given items (item d p ∷ [])))
        (main_with fuel temp d p items h)
unfolding main_with new_node place
main_with-Emptied fuel temp d p items h ne fresh enough = rw (is_not_null temp ne) (
    Returns-bind
      (push_all-Built fuel items (omega arith) (omega arith) fresh (new_node-Built temp d p h ne))
      λ (head, h') b. Built-Emptied fuel (omega (arith, length-all_given items (item d p ∷ []))) b)
