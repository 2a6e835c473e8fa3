-- ===== src/Nodes.antt =====
-- The nodes of linked lists at their addresses, as graph.c and priority_queue.c have them: a memory of
-- struct objects with a payload and a next pointer. What an allocation returns is an argument.
pub mod Chain
use oo_o_processor.Common.{
  ℕ, ◌≡◌, ◌≢◌, Option, none, some, Run, ok, fault, ◌>>=◌, ◌==◌, if◌then◌else◌,
}

abbrev pub Ptr : Type 0
Ptr = ℕ

abbrev pub null : Ptr
null = 0

pub record Node {ℓ} (A : Type ℓ) : Type ℓ where
  pub item : A
  pub next : Ptr

abbrev pub Heap {ℓ} : Type ℓ → Type ℓ
Heap A = Ptr → Option (Node A)

module _ {ℓ} {A : Type ℓ} where
  abbrev pub node : A → Ptr → Node A
  node x q = record { item = x; next = q }

  -- `some n` fills the address, `none` gives it back.
  unfoldable pub write : Heap A → Ptr → Option (Node A) → Heap A
  write h p c a = if a == p then c else h a

  -- *p, with a fault at NULL and at an address that holds no node.
  unfoldable pub deref : Heap A → Ptr → Run (Node A)
  deref h p = if p == null then fault else elim (h p) [ none ↦ fault | some n ↦ ok n ]

  -- p->item = x and p->next = q
  unfoldable pub set_item : Heap A → Ptr → A → Run (Heap A)
  set_item h p x = do n ← deref h p; ok (write h p (some (node x n.next)))

  unfoldable pub set_next : Heap A → Ptr → Ptr → Run (Heap A)
  set_next h p q = do n ← deref h p; ok (write h p (some (node n.item q)))

  -- The object that an allocation made at p, with its fields set; a fault where it returned NULL.
  unfoldable pub place : Heap A → Ptr → A → Ptr → Run (Heap A)
  place h p x q = if p == null then fault else ok (write h p (some (node x q)))

  -- tj_free(p)
  unfoldable pub release : Heap A → Ptr → Run (Heap A)
  release h p = do n ← deref h p; ok (write h p none)
