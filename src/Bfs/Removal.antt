-- ===== src/Bfs/Removal.antt =====
-- removeData of bfs.c during the search, and a vertex whose neighbours are all marked.
use mathlib.Core.Path.{subst, sym}
use oo_o_processor.Common.{
  last_or_before, ℕ, ◌+◌, ◌-◌, ◌<◌, ◌≤◌, ◌≡◌, refl, ap, ◌∙◌, inl, inr, arith, pos, ◌-ℤ◌, ok,
}
use oo_o_processor.Array.{Ints, get, load-get}
use oo_o_processor.Bfs.{Queue, remove_data, mark}
use oo_o_processor.Bfs.Reach.{Reaches, Settled}
use oo_o_processor.Bfs.State.{Search, pos_injective}

-- The queue after removeData.
unfoldable pub removed : Queue → Queue
removed q = record {
  items = q.items;
  rear = q.rear;
  front = q.front + 1;
  item_count = q.item_count -ℤ pos 1;
}

sub_one : (n : ℕ) → 0 < n → pos n -ℤ pos 1 ≡ pos (n - 1)
unfolding ◌-ℤ◌
sub_one n h = ground arith

module _ {m : Ints} {n done used : ℕ} {q : Queue} {flags : Ints} (s : Search m n done used q flags)
    (small : n ≤ 5) where
  -- removeData, before the end of the queue, gives a vertex that was found.
  pub remove_data-Search :
      q.front < used
      → (v : ℕ) × (remove_data q ≡ ok (pos v, removed q))
        × (get q.items q.front ≡ pos v)
        × (v < n)
        × Reaches m n v
        × Search m n done used (removed q) flags
  unfolding remove_data removed
  remove_data-Search lt =
      let (v, at, below, path, mark) = s.entered q.front lt in
      (
        v,
        rw (load-get q.items q.front (omega (arith, s.size, s.white)), at) refl,
        at,
        below,
        path,
        record {
          size = s.size;
          vertices = s.vertices;
          rear = s.rear;
          behind = omega (arith, s.behind);
          first = omega arith;
          waiting = rw s.waiting (sub_one (used - q.front) (omega arith) ∙ ap pos (omega arith));
          white = s.white;
          rooted = s.rooted;
          entered = s.entered;
          queued = s.queued;
          apart = s.apart;
          settled = s.settled;
        },
      )

  -- Once the neighbours of the vertex last taken are marked, it counts as done.
  pub Search-done :
      (v : ℕ)
      → get q.items done ≡ pos v
      → done < q.front
      → Settled m n flags v
      → Search m n (done + 1) used q flags
  Search-done v at lt all = record {
    size = s.size;
    vertices = s.vertices;
    rear = s.rear;
    behind = omega arith;
    first = s.first;
    waiting = s.waiting;
    white = s.white;
    rooted = s.rooted;
    entered = s.entered;
    queued = s.queued;
    apart = s.apart;
    settled = λ k w in_done at'. elim (last_or_before in_done) [
      | inl e ↦
          subst (Settled m n flags) (pos_injective (sym at ∙ sym (ap (get q.items) e) ∙ at')) all
      | inr lt' ↦ s.settled k w lt' at'
    ];
  }
