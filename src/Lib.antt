-- ===== src/Lib.antt =====
-- The C code of the out-of-order processor repository: the benchmark programs that run on the
-- processor (test_progs/), and the testbench code that decodes and prints instructions (testbench/).
--
-- Parts and files. A benchmark is one C file and shares nothing with the others but tj_malloc.h.
--   Array        C arrays of int, with a fault for an access out of bounds; Array/Swaps and
--                Array/Sorted hold the exchange of cells and what it is to sort a range.
--   QuickSort    test_progs/quicksort.c: swap, partition, quickSort, main.
--   InsertionSort  test_progs/insertionsort.c: insertion, main.
--   SortSearch   test_progs/sort_search.c: bubble, binarySearch, main.
--   MergeSort    test_progs/mergesort.c: merge, mergeSort, main.
--   Backtrack    test_progs/backtrack.c: isSafe, solveKTUtil, solveKT.
--   Nodes        the nodes of linked lists at their addresses, for graph.c and priority_queue.c; Nodes/Chain
--                says what list a memory holds. An address from tj_malloc is an argument.
--   Graph        test_progs/graph.c: createQueue, isEmpty, enqueue, dequeue. Graph/LinkedList has
--                insertAtTheBegin, swap, bubbleSort and link_list; Graph/DepthFirst the stack (push, pop,
--                peek), the vertices (addVertex, addEdge_DFS, getAdjUnvisitedVertex), depthFirstSearch and
--                DFS_test; Graph/Adjacency createGraph, addEdge, bfs and bfs_test; Graph/Towers towers.
--   PriorityQueue  test_progs/priority_queue.c: newNode, peek, pop, push, isEmpty, main.
--   Dft          test_progs/dft.c: modulo_m, dft, to_poly, mult, main, on shorts with their wrap-around.
--   Malloc       test_progs/tj_malloc.h: tj_malloc, tj_free, getmoremem, tj_calloc. A pointer is an address in
--                a flat memory of 32-bit words, as on the processor; where heap and base stand is an
--                argument, and IsLayout says what the linker script gives. exit(1) is a fault, memset an
--                argument.
--   Bfs          test_progs/bfs.c: the queue (insert, removeData, isQueueEmpty), the graph (addVertex, addEdge,
--                getAdjUnvisitedVertex), breadthFirstSearch, main.
--   Alexnet      test_progs/alexnet.c: random_gen and the fully connected layer; Alexnet/Convolution the
--                convolution and the pooling, Alexnet/Main main. An array of several dimensions is one list.
--   FcForward    test_progs/fc_forward.c: kernel, main, with a fault where an int overflows.
--   OuterProduct test_progs/outer_product.c: kernel (outer_kernel), main, with the same fault.
--   MatrixMultRec  test_progs/matrix_mult_rec.c: multiplyMatrixRec with its static counters, multiplyMatrix,
--                main, with the same fault.
--   Words        uint32_t shifts, fields and |.
--   RiscvInst    testbench/riscv_inst.h: inst_t with decode, analyze, select, assign, encode, and
--                sign, sign64.
--   PipePrint    testbench/pipe_print.c: print_stage and the other print functions; a print is a call of
--                fprintf with its arguments.
--   Tests        runs, and the theorems at concrete inputs.
--
-- How the code is read. An int of an array is an integer without bounds, which is exact for the
-- sorts and the search, since they only compare and move values; the board and the queue only
-- hold small numbers besides. The sums and products of the layers of alexnet.c wrap around at 32
-- bits, as the processor computes them (C leaves that undefined, and the theorem on fc_layer
-- excludes it); those of fc_forward.c, outer_product.c and matrix_mult_rec.c that leave an int
-- are a fault. An index is a number, but for the upper index of quickSort and binarySearch, which
-- can be -1. In partition `next` stands for i + 1. A word is a number below 2 ^ 32. Run is a
-- result, a fault (undefined behaviour in C) or the end of the fuel. Fuel bounds the depth of the
-- recursion: a range's length and one more is enough for quickSort, binarySearch and mergeSort,
-- the moves that are left and one more for solveKTUtil, and each theorem about them says so; so
-- is one more than the blocks in the free list for tj_malloc and tj_free, and so are 4 for dft on
-- eight items, and 1929 for the rounds of modulo_m, and 6 for the rounds of each loop of
-- breadthFirstSearch, on five vertices; 11 for those of depthFirstSearch, and the nodes of a list
-- for bubbleSort, push and the loops over lists, as the theorems say. The other loops recur on
-- the rounds that are left, or on the list that is left. rand() and the success of fopen are
-- arguments. The constructor of inst_t leaves op, riscv, imm and the opcode fields unset: decode
-- takes the instruction that it fills, and so keeps such values.
--
-- Not modelled: the Verilog of the processor; test programs in assembly; visual_c_hooks.cpp (curses
-- windows, pipes, and the history of the registers that it keeps); basic_malloc.c and omegalul.c.
pub mod Common
pub mod Array
pub mod QuickSort
pub mod InsertionSort
pub mod SortSearch
pub mod MergeSort
pub mod Backtrack
pub mod Graph
pub mod Dft
pub mod Malloc
pub mod Bfs
pub mod Alexnet
pub mod FcForward
pub mod OuterProduct
pub mod Nodes
pub mod PriorityQueue
pub mod MatrixMultRec
pub mod Words
pub mod RiscvInst
pub mod PipePrint
mod Tests
