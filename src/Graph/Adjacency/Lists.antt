-- ===== src/Graph/Adjacency/Lists.antt =====
-- What the adjacency lists of graph.c hold, and what addEdge adds to it.
use mathlib.Core.Path.{sym}
use mathlib.Core.Bool.{true≢false}
use oo_o_processor.Common.{
  ℕ, zero, suc, ◌<◌, ◌≡◌, ◌≢◌, refl, ap, ◌∙◌, arith, ℤ, pos, true, false, none, some, List, [], ◌∷◌,
  ok, ◌==◌, if◌then◌else◌, length, Returns, returns, Returns-bind, replicate,
}
use oo_o_processor.Nodes.{Ptr, null, node, Heap, place}
use oo_o_processor.Nodes.Chain.{
  has, ◌∉◌, Chain, nil, cons, frame, set_next-ok, Points-write, write_twice,
}
use oo_o_processor.Graph.Adjacency.{
  Adjacency, create_node, list_at, set_list, add_half_edge, add_edge,
}

-- Each list in the memory holds the neighbours given.
pub data Lists (h : Heap ℤ) : List Ptr → List (List ℤ) → Type 0 where
  empty : Lists h [] []
  and :
      {p : Ptr} {ps ls : List Ptr} {xs : List ℤ} {adj : List (List ℤ)}
      → Chain h null p ps xs
      → Lists h ls adj
      → Lists h (p ∷ ls) (xs ∷ adj)

-- The neighbours of a vertex.
unfoldable pub neighbours : List (List ℤ) → ℕ → List ℤ
neighbours [] i = []
neighbours (xs ∷ adj) zero = xs
neighbours (xs ∷ adj) (suc i) = neighbours adj i

-- With one more neighbour of the vertex i.
unfoldable pub linked : ℕ → ℤ → List (List ℤ) → List (List ℤ)
linked i x [] = []
linked zero x (xs ∷ adj) = (x ∷ xs) ∷ adj
linked (suc i) x (xs ∷ adj) = xs ∷ linked i x adj

pub neighbours-linked :
    (i j : ℕ) (x : ℤ) (adj : List (List ℤ))
    → i < length adj
    → neighbours (linked i x adj) j ≡ (if i == j then x ∷ neighbours adj j else neighbours adj j)
unfolding neighbours linked
neighbours-linked i j x [] h = absurd (omega arith)
neighbours-linked zero zero x (xs ∷ adj) h = refl
neighbours-linked zero (suc j) x (xs ∷ adj) h = ground arith
neighbours-linked (suc i) zero x (xs ∷ adj) h = ground arith
neighbours-linked (suc i) (suc j) x (xs ∷ adj) h = ground (arith, neighbours-linked i j x adj)

pub length-linked : (i : ℕ) (x : ℤ) (adj : List (List ℤ)) → length (linked i x adj) ≡ length adj
unfolding linked
length-linked i x [] = refl
length-linked zero x (xs ∷ adj) = refl
length-linked (suc i) x (xs ∷ adj) = ap suc (length-linked i x adj)

-- An address without a node is in no list.
Chain-free :
    {h : Heap ℤ} {stop p : Ptr} {ps : List Ptr} {xs : List ℤ} (a : Ptr)
    → h a ≡ none
    → Chain h stop p ps xs
    → a ∉ ps
Chain-free a free nil = refl
Chain-free a free (cons {p = p} e out chain) =
    ground (arith, e.holds, free, Chain-free a free chain)

-- So the lists survive a change there.
Chain-outside :
    {h h' : Heap ℤ} {stop p : Ptr} {ps : List Ptr} {xs : List ℤ} (a : Ptr)
    → h a ≡ none
    → ((c : Ptr) → c ≢ a → h' c ≡ h c)
    → Chain h stop p ps xs
    → Chain h' stop p ps xs
Chain-outside a free same chain =
    frame chain λ c i. same c (apart _ _ (Chain-free a free chain) c i)
  where
    apart : (a : Ptr) (ps : List Ptr) → a ∉ ps → (c : Ptr) → has c ps ≡ true → c ≢ a
    apart a ps out c i e = true≢false (sym i ∙ ap (λ b. has b ps) e ∙ out)

Lists-outside :
    {h h' : Heap ℤ} {ls : List Ptr} {adj : List (List ℤ)} (a : Ptr)
    → h a ≡ none
    → ((c : Ptr) → c ≢ a → h' c ≡ h c)
    → Lists h ls adj
    → Lists h' ls adj
Lists-outside a free same empty = empty
Lists-outside a free same (and chain rest) =
    and (Chain-outside a free same chain) (Lists-outside a free same rest)

pub length-Lists :
    {h : Heap ℤ} {ls : List Ptr} {adj : List (List ℤ)} → Lists h ls adj → length ls ≡ length adj
length-Lists empty = refl
length-Lists (and chain rest) = ap suc (length-Lists rest)

-- The list of a vertex.
pub list_at-Chain :
    {h : Heap ℤ} {ls : List Ptr} {adj : List (List ℤ)} (i : ℕ)
    → i < length adj
    → Lists h ls adj
    → (p : Ptr) × (ps : List Ptr) × (list_at ls i ≡ ok p) × Chain h null p ps (neighbours adj i)
unfolding list_at neighbours
list_at-Chain i h empty = absurd (omega arith)
list_at-Chain zero h (and chain rest) = (_, _, refl, chain)
list_at-Chain (suc i) h (and chain rest) = list_at-Chain i (omega arith) rest

set_list-Lists :
    {h : Heap ℤ} {ls qs : List Ptr} {adj : List (List ℤ)} {a : Ptr} {x : ℤ} (i : ℕ)
    → i < length adj
    → Lists h ls adj
    → Chain h null a qs (x ∷ neighbours adj i)
    → Returns (λ ls'. Lists h ls' (linked i x adj)) (set_list ls i a)
unfolding set_list neighbours linked
set_list-Lists i h empty new = absurd (omega arith)
set_list-Lists zero h (and chain rest) new = returns (and new rest)
set_list-Lists (suc i) h (and chain rest) new =
    Returns-bind (set_list-Lists i (omega arith) rest new) λ ls' made. returns (and chain made)

-- After a step that used the address a: the lists, and the rest of the memory.
abbrev pub Links : Heap ℤ → Ptr → List (List ℤ) → List Ptr × Heap ℤ → Type 0
Links h a adj (ls, h') = Lists h' ls adj × ((c : Ptr) → c ≢ a → h' c ≡ h c)

add_half_edge-Links :
    {h : Heap ℤ} {ls : List Ptr} {adj : List (List ℤ)} (a : Ptr) (src dest : ℕ)
    → a ≢ null
    → h a ≡ none
    → src < length adj
    → Lists h ls adj
    → Returns (Links h a (linked src (pos dest) adj)) (add_half_edge a src dest ls h)
unfolding add_half_edge create_node place
add_half_edge-Links {h = h} a src dest ne free inside lists =
    let not_null : (a == null) ≡ false = ground arith in
    let new = Points-write h a (pos dest) null ne in
    let (p, ps, at, chain) = list_at-Chain src inside lists in
    let outside = λ (c : Ptr) (other : c ≢ a).
      write_twice h a a (some (node (pos dest) null)) (some (node (pos dest) p)) c other other in
    rw (not_null, at, set_next-ok new p)
      (Returns-bind
        (set_list-Lists src inside (Lists-outside a free outside lists) (
          cons (Points-write _ a (pos dest) p ne) (Chain-free a free chain)
            (Chain-outside a free outside chain)))
        λ ls' made. returns (made, outside))

-- addEdge with two new addresses, between vertices of the graph, returns: the list of src begins with
-- dest and then, the list of dest with src; nothing else is added, no mark is changed, and no other
-- node has changed.
pub add_edge-Links :
    {h : Heap ℤ} {adj : List (List ℤ)} (g : Adjacency) (a b : Ptr) (src dest : ℕ)
    → a ≢ null
    → b ≢ null
    → b ≢ a
    → h a ≡ none
    → h b ≡ none
    → src < length adj
    → dest < length adj
    → Lists h g.lists adj
    → Returns
        (λ (g', h').
          Lists h' g'.lists (linked dest (pos src) (linked src (pos dest) adj))
          × (g'.visited ≡ g.visited)
          × ((c : Ptr) → c ≢ a → c ≢ b → h' c ≡ h c))
        (add_edge a b src dest g h)
unfolding add_edge
add_edge-Links {h = h} {adj = adj} g a b src dest na nb apart fa fb inside inside' lists =
    Returns-bind (add_half_edge-Links a src dest na fa inside lists) λ (ls, h₁) (made, same).
      Returns-bind
        (add_half_edge-Links b dest src nb (same b apart ∙ fb)
          (omega (arith, length-linked src (pos dest) adj)) made)
        λ (ls', h₂) (made', same'). returns (made', refl, λ c oa ob. same' c ob ∙ same c oa)

-- A new graph has no neighbours.
pub create_graph-Lists : (h : Heap ℤ) (n : ℕ) → Lists h (replicate n null) (replicate n [])
create_graph-Lists h zero = empty
create_graph-Lists h (suc n) = and nil (create_graph-Lists h n)
