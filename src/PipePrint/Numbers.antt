-- ===== src/PipePrint/Numbers.antt =====
-- The numbers that print_membus prints of a 64-bit value in two halves.
use oo_o_processor.Common.{◌+◌, ◌*◌, ◌^◌, ℤ, pos, negsuc, pos_part, neg_part, sub_ℕ}

-- The 64-bit integer whose upper word has the value `hi`, and whose lower word is read unsigned: `lo`,
-- or lo + 2 ^ 32 where the int is negative.
abbrev pub value64 : ℤ → ℤ → ℤ
value64 hi (pos n) = sub_ℕ (pos_part hi * 2 ^ 32 + n) (neg_part hi * 2 ^ 32)
value64 hi (negsuc n) = sub_ℕ (pos_part hi * 2 ^ 32 + 2 ^ 32) (neg_part hi * 2 ^ 32 + (n + 1))
