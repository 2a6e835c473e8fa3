-- ===== src/Tests.antt =====
-- Runs on concrete inputs, and the theorems at inputs that meet their hypotheses.
mod Allocation
mod Fourier
mod Traversal
mod Layers
mod Forward
mod Outer
mod Chains
mod DepthFirst
mod Adjacency
mod Matrix
mod Bounded
use oo_o_processor.Common.{
  ℕ, ◌+◌, zero, suc, ◌*◌, inl, map, ◌*ℤ◌, replicate, List, ◌+ℤ◌, ◌%◌, ◌^◌, ◌≡◌, ◌≢◌, refl, false,
  [], ◌∷◌, arith, pos, negsuc, ◌-ℤ◌, ◌≤ℤ◌, ok, Run, ◌>>=◌, ◌-◌, fault, Returns, ◌==◌, if◌then◌else◌,
}
use oo_o_processor.Array.{Ints, get, load, store, set, fill}
use oo_o_processor.Array.Sorted.{Sorts, IsSortedIn}
use oo_o_processor.QuickSort.{swap, partition_step, partition_loop, partition, quick_sort}
use oo_o_processor.QuickSort.Partition.{IsPartition, partition-IsPartition}
use oo_o_processor.QuickSort.Sorted.{quick_sort-Sorts}
use oo_o_processor.InsertionSort.{min_step, min_loop, insertion_round, insertion_loop, insertion}
use oo_o_processor.InsertionSort.Sorted.{insertion-Sorts}
use oo_o_processor.SortSearch
use oo_o_processor.SortSearch.{
  bubble_step, bubble_round, bubble_loop, bubble, binary_search, Answers,
}
use oo_o_processor.SortSearch.Bubble.{bubble-Sorts}
use oo_o_processor.SortSearch.Search.{Locates, binary_search-Locates}
use oo_o_processor.SortSearch.Main.{IsAnswer, main-IsAnswer}
use oo_o_processor.MergeSort.{copy_out, copy_back, merge_loop, merge, merge_sort, numbers}
use oo_o_processor.MergeSort.Sorted.{MergeSorts, merge-MergeSorts, merge_sort-MergeSorts}
use oo_o_processor.MergeSort.Merged.{IsAscending-get}
use oo_o_processor.MergeSort.Overrun.{merge_sort-fault}
use oo_o_processor.Backtrack.{
  x_moves, y_moves, cell, is_safe, try_move, try_moves, solve_kt_util, start_board, solve_kt,
}
use oo_o_processor.Backtrack.Tour.{Tour, IsFresh}
use oo_o_processor.Backtrack.Search.{Decides, solve_kt_util-Decides}
use oo_o_processor.Graph.{create_queue, is_empty, item, set_item, enqueue, reset, dequeue}
use oo_o_processor.Graph.Calls.{
  Call, is_empty_call, enqueue_call, dequeue_call, results, answers, create_queue-answers,
}
use oo_o_processor.Dft
use oo_o_processor.Dft.{
  Unset, to_short, raise, lower, modulo_m, split_loop, join_loop, dft, low_bit, shift_right,
  to_poly_loop, to_poly, product_loop, evaluate_loop, mult,
}
use oo_o_processor.Dft.Modulo.{mod17, modulo_m-mod17}
use oo_o_processor.Dft.Fourier.{transform, points, dft-transform}
use oo_o_processor.Dft.Bits.{low_byte}
use oo_o_processor.Dft.Product.{mult-product}
use oo_o_processor.Malloc
use oo_o_processor.Malloc.{
  Layout, State, heap_size, initial, tj_free, tj_malloc, getmoremem, search_free, start, write,
  find, join_upper, join_lower,
}
use oo_o_processor.Malloc.Fields.{IsLayout}
use oo_o_processor.Malloc.Grow.{IsReady}
use oo_o_processor.Malloc.Sequence.{tj_mallocs, places, Apart, tj_mallocs-places, tj_mallocs-Apart}
use oo_o_processor.Malloc.Reuse.{tj_malloc-tj_free, tj_malloc-split}
use oo_o_processor.Words.{field}
use oo_o_processor.RiscvInst.Signs.{offset, sign_imm-analyze}
use oo_o_processor.RiscvInst.{sign, sign_imm, s_imm, sw, invalid, num_riscv_t, num_imm_t, InstT}
use oo_o_processor.RiscvInst.Decode.{
  decode, split_word, decode_opcode, decode_store, analyze, immediate,
}
use oo_o_processor.RiscvInst.Encode.{SelectT, encode, encode_s}
use oo_o_processor.RiscvInst.Encode.RoundTrip.{encode-decode}
use oo_o_processor.PipePrint.Mnemonic.{inst_name}
use oo_o_processor.PipePrint.Agree.{inst_name-decode}

abbrev sample : Ints
sample = pos 3 ∷ negsuc 0 ∷ pos 2 ∷ pos 2 ∷ []

abbrev halves : Ints
halves = negsuc 0 ∷ pos 3 ∷ pos 2 ∷ pos 2 ∷ []

abbrev ordered : Ints
ordered = negsuc 0 ∷ pos 2 ∷ pos 2 ∷ pos 3 ∷ []

quick_sort_runs : quick_sort 5 sample 0 (pos 4 -ℤ pos 1) ≡ ok ordered
unfolding quick_sort partition partition_loop partition_step swap load store set ◌-ℤ◌
quick_sort_runs = refl

insertion_runs : insertion sample 4 ≡ ok ordered
unfolding insertion insertion_loop insertion_round min_loop min_step load store set
insertion_runs = refl

bubble_runs : bubble sample 4 ≡ ok ordered
unfolding bubble bubble_loop bubble_round bubble_step load store set
bubble_runs = refl

merge_sort_runs : merge_sort 4 sample 0 3 ≡ ok ordered
unfolding merge_sort merge merge_loop copy_out copy_back load store set
merge_sort_runs = refl

binary_search_runs : binary_search 5 ordered 0 (pos 4 -ℤ pos 1) (pos 3) ≡ ok (pos 3)
unfolding binary_search load ◌-ℤ◌
binary_search_runs = refl

quick_sort-Sorts_example : Returns (Sorts 0 4 sample) (quick_sort 5 sample 0 (pos 4 -ℤ pos 1))
quick_sort-Sorts_example = quick_sort-Sorts 5 sample 0 4 (omega arith) (omega arith)

partition-IsPartition_example : Returns (λ r. IsPartition 0 4 sample r.0 r.1) (partition sample 0 3)
partition-IsPartition_example = partition-IsPartition sample 0 3 (omega arith) (omega arith)

insertion-Sorts_example : Returns (Sorts 0 4 sample) (insertion sample 4)
insertion-Sorts_example = insertion-Sorts sample 4 (omega arith)

bubble-Sorts_example : Returns (Sorts 0 4 sample) (bubble sample 4)
bubble-Sorts_example = bubble-Sorts sample 4 (omega arith)

merge_sort-MergeSorts_example : Returns (MergeSorts 0 4 sample) (merge_sort 4 sample 0 3)
merge_sort-MergeSorts_example = merge_sort-MergeSorts 4 sample 0 3 (omega arith) (omega arith)

-- The call in `main` of mergesort.c.
merge_sort-fault_example : merge_sort 24 numbers 0 23 ≡ fault
merge_sort-fault_example = merge_sort-fault 24 numbers 0 23 (omega arith) refl (omega arith)

halves_left : get halves 0 ≤ℤ get halves 1
unfolding get
halves_left = omega arith

halves_right : get halves 2 ≤ℤ get halves 3
unfolding get
halves_right = omega arith

left-IsSortedIn : IsSortedIn halves 0 2
left-IsSortedIn i j p q r =
    let e : i ≡ 0 = omega arith in let f : j ≡ 1 = omega arith in rw (e, f) halves_left

right-IsSortedIn : IsSortedIn halves 2 4
right-IsSortedIn i j p q r =
    let e : i ≡ 2 = omega arith in let f : j ≡ 3 = omega arith in rw (e, f) halves_right

ordered-IsSortedIn : IsSortedIn ordered 0 4
ordered-IsSortedIn i j p q r = IsAscending-get ordered i j (omega arith) q r

binary_search-Locates_example :
    Returns (Locates ordered (pos 3) 0 4) (binary_search 5 ordered 0 (pos 4 -ℤ pos 1) (pos 3))
binary_search-Locates_example =
    binary_search-Locates ordered (pos 3) 4 (omega arith) ordered-IsSortedIn 5 0 4 (omega arith)
      (omega arith)

merge-MergeSorts_example : Returns (MergeSorts 0 4 halves) (merge halves 0 1 3)
merge-MergeSorts_example =
    merge-MergeSorts (omega arith) (omega arith) (omega arith) left-IsSortedIn right-IsSortedIn

main-IsAnswer_example :
    Returns
      (λ (s : Answers).
        IsAnswer (λ i. i) 10 s.result
        × IsAnswer (λ i. i) 23 s.goat
        × IsAnswer (λ i. i) 12 s.brady
        × (s.another_result ≡ negsuc 0)
        × (s.larry ≡ negsuc 0))
      (SortSearch.main (λ i. i))
main-IsAnswer_example = main-IsAnswer (λ i. i)

-- An instruction before it is decoded.
abbrev blank : InstT
blank = record {
  is_valid = false;
  opcode = 0;
  funct3 = 0;
  funct7 = 0;
  funct12 = 0;
  rs1 = 0;
  rs2 = 0;
  rd = 0;
  imm_value = 0;
  inst = 0;
  op = invalid;
  riscv = num_riscv_t;
  imm = num_imm_t;
  str = "";
}

-- sw s0, -4(sp)
abbrev store_word : ℕ
store_word = 0xfe812e23

store_word-sw : (decode blank store_word).op ≡ sw
unfolding decode decode_opcode decode_store split_word analyze
store_word-sw = refl

-- What encode gives back is sw s0, 2044(sp).
store_word_back : encode (decode blank store_word) ≡ 0x7e812e23
unfolding decode decode_opcode decode_store split_word analyze immediate encode encode_s
store_word_back = refl

store_word-valid : (decode blank store_word).op ≢ invalid
store_word-valid e = cc store_word-sw

encode-decode_example :
    encode (decode blank store_word)
    ≡ (if field store_word 0 7 == 0x23 then store_word % 2 ^ 31 else store_word)
encode-decode_example = encode-decode blank store_word (omega arith) store_word-valid

inst_name-decode_example :
    (inst_name store_word
      ≡ (if field store_word 0 7 == 0x37 then "lui" else (decode blank store_word).str))
    × ((decode blank store_word).str
        ≡ (if field store_word 0 7 == 0x37 then "LUI" else inst_name store_word))
inst_name-decode_example = inst_name-decode blank store_word (omega arith)

abbrev first_board : Ints
first_board = pos 0 ∷ replicate 8 (negsuc 0)

start_runs : start_board ≡ ok first_board
unfolding start_board fill store load set cell
start_runs = refl

-- The 3 x 3 board has no tour: its middle cannot be reached.
solve_kt_runs : solve_kt ≡ ok 0
unfolding solve_kt start_board solve_kt_util try_moves try_move is_safe fill load store set cell
    ◌+ℤ◌
solve_kt_runs = refl

free-IsFresh : (k : ℕ) → IsFresh 1 (replicate k (negsuc 0))
unfolding get
free-IsFresh zero i n h = ground arith
free-IsFresh (suc k) zero n h = ground arith
free-IsFresh (suc k) (suc i) n h = free-IsFresh k i n h

first_board-IsFresh : IsFresh 1 first_board
unfolding get
first_board-IsFresh zero n h = ground arith
first_board-IsFresh (suc i) n h = free-IsFresh 8 i n h

solve_kt_util-Decides_example :
    Returns
      (Decides (λ c. Tour x_moves y_moves c (pos 0) (pos 0) 1) first_board)
      (solve_kt_util x_moves y_moves 10 (pos 0) (pos 0) 1 first_board)
solve_kt_util-Decides_example =
    solve_kt_util-Decides x_moves y_moves refl refl 10 (pos 0) (pos 0) 1 first_board (omega arith)
      (omega arith) (record { size = refl; fresh = first_board-IsFresh })

abbrev queue_calls : List Call
queue_calls =
    is_empty_call
    ∷ enqueue_call (pos 7)
    ∷ enqueue_call (pos 8)
    ∷ dequeue_call
    ∷ is_empty_call
    ∷ dequeue_call
    ∷ dequeue_call
    ∷ []

results_run :
    results queue_calls (create_queue (replicate 40 (pos 0)))
    ≡ ok (pos 1 ∷ pos 7 ∷ pos 0 ∷ pos 8 ∷ negsuc 0 ∷ [])
unfolding results is_empty enqueue set_item dequeue item reset load store set ◌+ℤ◌
results_run = refl

create_queue-answers_example :
    results queue_calls (create_queue (replicate 40 (pos 0))) ≡ ok (answers queue_calls [])
create_queue-answers_example =
    create_queue-answers (replicate 40 (pos 0)) queue_calls refl (omega arith)

-- sw s0, -4(sp), before analyze.
abbrev store_inst : InstT
store_inst = record blank { inst = store_word; imm = s_imm }

sign_imm_runs : sign_imm (analyze store_inst) ≡ negsuc 3
unfolding sign_imm analyze immediate sign
sign_imm_runs = refl

sign_imm-analyze_example : sign_imm (analyze store_inst) ≡ offset store_inst
sign_imm-analyze_example = sign_imm-analyze store_inst

abbrev blank_select : SelectT
blank_select = record {
  riscv = num_riscv_t;
  imm = num_imm_t;
  opcode = 0;
  funct3 = 0;
  funct7 = 0;
  funct12 = 0;
}
