-- ===== src/Graph/Calls.antt =====
-- Sequences of calls on the queue of graph.c, against the list that such a queue stands for.
use oo_o_processor.Common.{
  ℕ, suc, ◌+◌, ◌≤◌, ◌≡◌, refl, arith, List, [], ◌∷◌, ◌++◌, ℤ, pos, negsuc, length, Run, ok,
  Returns-inv, ◌>>=◌,
}
use oo_o_processor.Array.{Ints}
use oo_o_processor.Graph.{Queue, create_queue, is_empty, enqueue, dequeue}
use oo_o_processor.Graph.Fifo.{
  Holds, empty, filled, enqueue-Holds, dequeue-Holds-nil, dequeue-Holds-cons, in_use,
}

pub data Call : Type 0 where
  is_empty_call : Call
  enqueue_call : ℤ → Call
  dequeue_call : Call

-- The results of isEmpty and dequeue, call after call.
unfoldable pub results : List Call → Queue → Run (List ℤ)
results [] q = ok []
results (is_empty_call ∷ calls) q = do rs ← results calls q; ok (pos (is_empty q) ∷ rs)
results (enqueue_call v ∷ calls) q = do q' ← enqueue q v; results calls q'
results (dequeue_call ∷ calls) q = do (x, q') ← dequeue q; rs ← results calls q'; ok (x ∷ rs)

-- What a first-in first-out queue answers that holds a list: 1 where it is empty, the first item.
unfoldable pub answers : List Call → List ℤ → List ℤ
answers [] xs = []
answers (is_empty_call ∷ calls) [] = pos 1 ∷ answers calls []
answers (is_empty_call ∷ calls) (x ∷ xs) = pos 0 ∷ answers calls (x ∷ xs)
answers (enqueue_call v ∷ calls) xs = answers calls (xs ++ v ∷ [])
answers (dequeue_call ∷ calls) [] = negsuc 0 ∷ answers calls []
answers (dequeue_call ∷ calls) (x ∷ xs) = x ∷ answers calls xs

abbrev pub enqueues : List Call → ℕ
enqueues [] = 0
enqueues (enqueue_call v ∷ calls) = suc (enqueues calls)
enqueues (is_empty_call ∷ calls) = enqueues calls
enqueues (dequeue_call ∷ calls) = enqueues calls

pub is_empty-nil : {used : ℕ} {q : Queue} → Holds used q [] → is_empty q ≡ 1
unfolding is_empty
is_empty-nil (empty size f e) = rw e refl

pub is_empty-cons :
    {used : ℕ} {q : Queue} {x : ℤ} {xs : List ℤ} → Holds used q (x ∷ xs) → is_empty q ≡ 0
unfolding is_empty
is_empty-cons (filled first last size f e h block) = rw (e, in_use last) refl

results-answers :
    (calls : List Call) {used : ℕ} {q : Queue} {xs : List ℤ}
    → used + enqueues calls ≤ 40
    → Holds used q xs
    → results calls q ≡ ok (answers calls xs)
unfolding results answers
results-answers [] fits held = refl
results-answers (is_empty_call ∷ calls) {xs = []} fits held =
    rw (is_empty-nil held, results-answers calls fits held) refl
results-answers (is_empty_call ∷ calls) {xs = x ∷ xs} fits held =
    rw (is_empty-cons held, results-answers calls fits held) refl
results-answers (enqueue_call v ∷ calls) fits held =
    let r = Returns-inv (enqueue-Holds v (omega arith) held) in
    rw (r.1) (results-answers calls (omega arith) r.2)
results-answers (dequeue_call ∷ calls) {xs = []} fits held =
    rw (dequeue-Holds-nil held, results-answers calls fits held) refl
results-answers (dequeue_call ∷ calls) {xs = x ∷ xs} fits held =
    let r = Returns-inv (dequeue-Holds-cons (omega arith) held) in
    rw (r.1, r.2.0, results-answers calls fits r.2.1) refl

-- From createQueue, whatever its forty items hold, a sequence of calls with at most forty of enqueue
-- returns, and isEmpty and dequeue answer as a first-in first-out queue does: dequeue gives the items
-- in the order of enqueue, and -1 where the queue is empty.
pub create_queue-answers :
    (items : Ints) (calls : List Call)
    → length items ≡ 40
    → enqueues calls ≤ 40
    → results calls (create_queue items) ≡ ok (answers calls [])
create_queue-answers items calls size fits =
    results-answers calls {used = 0} (omega arith) (empty size refl refl)
