-- ===== src/Graph/Adjacency/Edges.antt =====
-- The graph that calls of addEdge build in graph.c.
use mathlib.Core.Path.{subst, sym}
use mathlib.Core.List.{Memᴰ}
use mathlib.Core.List.Memᴰ
use oo_o_processor.Common.{
  ℕ, zero, suc, ◌+◌, ◌*◌, ◌<◌, ◌≤◌, ◌≡◌, ◌≢◌, ◌⊎◌, ◌↔◌, refl, ap, ◌∙◌, arith, ℤ, pos, Bool, true,
  false, none, List, [], ◌∷◌, ◌==◌, if◌then◌else◌, length, replicate, Returns, returns,
  Returns-bind, Returns-map, Bool-cases, inl, inr,
}
use oo_o_processor.Bfs.State.{pos_injective, same}
use oo_o_processor.Nodes.{Ptr, null, Heap}
use oo_o_processor.Graph.Adjacency.{Adjacency, add_edges}
use oo_o_processor.Graph.Adjacency.Lists.{
  Lists, neighbours, linked, neighbours-linked, length-linked, add_edge-Links,
}
use oo_o_processor.Graph.Adjacency.Search.{Leads, Inside}

abbrev pub Edges : Type 0
Edges = List (Ptr × Ptr × ℕ × ℕ)

-- One of the edges joins i and j.
abbrev pub Joins : Edges → ℕ → ℕ → Type 0
Joins [] i j = ⊥
Joins ((a, b, src, dest) ∷ edges) i j =
    (((i ≡ src) × (j ≡ dest)) ⊎ ((i ≡ dest) × (j ≡ src))) ⊎ Joins edges i j

-- The vertices that edges connect with the vertex 0.
pub data Connected (edges : Edges) : ℕ → Type 0 where
  root : Connected edges 0
  along : {i j : ℕ} → Connected edges i → Joins edges i j → Connected edges j

-- The addresses from tj_malloc are not NULL, hold no node, and differ; the ends of the edges are vertices.
abbrev pub Valid : ℕ → (Ptr → Bool) → Edges → Type 0
Valid n used [] = Unit
Valid n used ((a, b, src, dest) ∷ edges) =
    (a ≢ null)
    × (b ≢ null)
    × (b ≢ a)
    × (used a ≡ false)
    × (used b ≡ false)
    × (src < n)
    × (dest < n)
    × Valid n (λ c. if c == a then true else if c == b then true else used c) edges

-- The neighbours after the calls.
abbrev pub all_linked : Edges → List (List ℤ) → List (List ℤ)
all_linked [] adj = adj
all_linked ((a, b, src, dest) ∷ edges) adj =
    all_linked edges (linked dest (pos src) (linked src (pos dest) adj))

pub length-all_linked :
    (edges : Edges) (adj : List (List ℤ)) → length (all_linked edges adj) ≡ length adj
length-all_linked [] adj = refl
length-all_linked ((a, b, src, dest) ∷ edges) adj =
    length-all_linked edges _ ∙ length-linked dest (pos src) _ ∙ length-linked src (pos dest) adj

still_free :
    {h h' : Heap ℤ} (used : Ptr → Bool) (a b : Ptr)
    → ((c : Ptr) → used c ≡ false → h c ≡ none)
    → ((c : Ptr) → c ≢ a → c ≢ b → h' c ≡ h c)
    → (c : Ptr) → (if c == a then true else if c == b then true else used c) ≡ false
    → h' c ≡ none
still_free used a b free other c f = other c (ground arith) (ground arith) ∙ free c (ground arith)

pub add_edges-Lists :
    (edges : Edges) {h : Heap ℤ} {used : Ptr → Bool} {adj : List (List ℤ)} (g : Adjacency)
    → ((c : Ptr) → used c ≡ false → h c ≡ none)
    → Valid (length adj) used edges
    → Lists h g.lists adj
    → Returns
        (λ (g', h'). Lists h' g'.lists (all_linked edges adj) × (g'.visited ≡ g.visited))
        (add_edges edges g h)
unfolding add_edges
add_edges-Lists [] g free valid lists = returns (lists, refl)
add_edges-Lists ((a, b, src, dest) ∷ edges) {used = used} {adj = adj} g free
      (na, nb, apart, fa, fb, lt, lt', valid) lists =
    Returns-bind (add_edge-Links g a b src dest na nb apart (free a fa) (free b fb) lt lt' lists)
      λ (g', h') (lists', flags, other).
        let size : length (linked dest (pos src) (linked src (pos dest) adj)) ≡ length adj =
          length-linked dest (pos src) _ ∙ length-linked src (pos dest) adj in
        Returns-map
          (add_edges-Lists edges g' (still_free used a b free other)
            (subst
              (λ n. Valid n (λ c. if c == a then true else if c == b then true else used c) edges)
              (sym size) valid)
            lists')
          λ end (made, flags'). (made, flags' ∙ flags)

apart : (s i : ℕ) → (s == i) ≡ false → i ≢ s
apart s i f e = ground arith

-- What one more neighbour adds to the edges.
linked-Leads :
    (adj : List (List ℤ)) (s d i j : ℕ)
    → s < length adj
    → Leads (linked s (pos d) adj) i j ↔ (((i ≡ s) × (j ≡ d)) ⊎ Leads adj i j)
linked-Leads adj s d i j lt = elim (Bool-cases (s == i)) [
  | inl t ↦
      rw (neighbours-linked s i (pos d) adj lt, t)
        (
          (λ m. elim (Memᴰ.cases_cons m) [
            | inl e ↦ inl (sym (same s i t), pos_injective e)
            | inr old ↦ inr old
          ]),
          (λ c. elim c [ inl (e, e') ↦ Memᴰ.head (ap pos e') | inr old ↦ Memᴰ.tail old ]),
        )
  | inr f ↦
      rw (neighbours-linked s i (pos d) adj lt, f)
        ((λ m. inr m), (λ c. elim c [ inl (e, e') ↦ absurd (apart s i f e) | inr old ↦ old ]))
]

Inside-linked :
    (adj : List (List ℤ)) (n s d : ℕ)
    → s < length adj
    → d < n
    → Inside adj n
    → Inside (linked s (pos d) adj) n
Inside-linked adj n s d lt below inside i x = elim (Bool-cases (s == i)) [
  | inl t ↦
      rw (neighbours-linked s i (pos d) adj lt, t)
        λ m. elim (Memᴰ.cases_cons m) [ inl e ↦ (d, e, below) | inr old ↦ inside i x old ]
  | inr f ↦ rw (neighbours-linked s i (pos d) adj lt, f) λ m. inside i x m
]

size-linked :
    (adj : List (List ℤ)) (s i : ℕ) (x : ℤ)
    → s < length adj
    → length (neighbours (linked s x adj) i) ≤ length (neighbours adj i) + 1
size-linked adj s i x lt = elim (Bool-cases (s == i)) [
  | inl t ↦ rw (neighbours-linked s i x adj lt, t) (omega arith)
  | inr f ↦ rw (neighbours-linked s i x adj lt, f) (omega arith)
]

-- The graph that the calls build has the edges given, between its vertices, and lists that are not long.
pub record Built (n : ℕ) (edges : Edges) (before after : List (List ℤ)) : Type 0 where
  pub inside : Inside after n
  pub short :
      (i : ℕ) → length (neighbours after i) ≤ length (neighbours before i) + 2 * length edges
  pub leads : (i j : ℕ) → Leads after i j ↔ (Joins edges i j ⊎ Leads before i j)

-- One more edge before the others.
module _ (n : ℕ) (a b : Ptr) (src dest : ℕ) (edges : Edges) (adj after : List (List ℤ))
    (lt_src : src < length adj) (lt_dest : dest < length (linked src (pos dest) adj))
    (rest : Built n edges (linked dest (pos src) (linked src (pos dest) adj)) after) where
  abbrev once : List (List ℤ)
  once = linked src (pos dest) adj

  Built-split : (i j : ℕ) → Leads after i j → Joins ((a, b, src, dest) ∷ edges) i j ⊎ Leads adj i j
  Built-split i j m = elim ((rest.leads i j).0 m) [
    | inl later ↦ inl (inr later)
    | inr m₂ ↦ elim ((linked-Leads once dest src i j lt_dest).0 m₂) [
      | inl back ↦ inl (inl (inr back))
      | inr m₁ ↦ elim ((linked-Leads adj src dest i j lt_src).0 m₁) [
        | inl forth ↦ inl (inl (inl forth))
        | inr old ↦ inr old
      ]
    ]
  ]

  -- What was there before the last half of the edge is there after all.
  Built-kept : (i j : ℕ) → Leads once i j → Leads after i j
  Built-kept i j m = (rest.leads i j).1 (inr ((linked-Leads once dest src i j lt_dest).1 (inr m)))

  Built-join : (i j : ℕ) → Joins ((a, b, src, dest) ∷ edges) i j ⊎ Leads adj i j → Leads after i j
  Built-join i j c = elim c [
    | inl joined ↦ elim joined [
      | inl ends ↦ elim ends [
        | inl forth ↦ Built-kept i j ((linked-Leads adj src dest i j lt_src).1 (inl forth))
        | inr back ↦
            (rest.leads i j).1 (inr ((linked-Leads once dest src i j lt_dest).1 (inl back)))
      ]
      | inr later ↦ (rest.leads i j).1 (inl later)
    ]
    | inr old ↦ Built-kept i j ((linked-Leads adj src dest i j lt_src).1 (inr old))
  ]

  Built-step : Built n ((a, b, src, dest) ∷ edges) adj after
  Built-step = record {
    inside = rest.inside;
    short = λ i. omega (
      arith,
      rest.short i,
      size-linked once dest i (pos src) lt_dest,
      size-linked adj src i (pos dest) lt_src,
    );
    leads = λ i j. (Built-split i j, Built-join i j);
  }

pub all_linked-Built :
    (edges : Edges) (n : ℕ) (used : Ptr → Bool) (adj : List (List ℤ))
    → length adj ≡ n
    → Valid n used edges
    → Inside adj n
    → Built n edges adj (all_linked edges adj)
all_linked-Built [] n used adj size valid inside = record {
  inside = inside;
  short = λ i. omega arith;
  leads = λ i j. ((λ m. inr m), (λ c. elim c [ inl never ↦ absurd never | inr m ↦ m ]));
}
all_linked-Built ((a, b, src, dest) ∷ edges) n used adj size (_, _, _, _, _, lt, lt', valid)
      inside =
    let lt_src : src < length adj = omega arith in
    let once = linked src (pos dest) adj in
    let lt_dest : dest < length once = omega (arith, length-linked src (pos dest) adj) in
    Built-step n a b src dest edges adj _ lt_src lt_dest (
      all_linked-Built edges n _ (linked dest (pos src) once)
        (length-linked dest (pos src) once ∙ length-linked src (pos dest) adj ∙ size) valid
        (Inside-linked once n dest src lt_dest lt (Inside-linked adj n src dest lt_src lt' inside)))

pub neighbours-none : (n i : ℕ) → neighbours (replicate n []) i ≡ []
unfolding neighbours
neighbours-none zero i = refl
neighbours-none (suc n) zero = refl
neighbours-none (suc n) (suc i) = neighbours-none n i
