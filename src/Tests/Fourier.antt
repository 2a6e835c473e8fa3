-- ===== src/Tests/Fourier.antt =====
-- Runs of dft.c, and its theorems at inputs that meet their hypotheses.
use oo_o_processor.Common.{◌*◌, inl, map, ◌*ℤ◌, ◌+ℤ◌, ◌%◌, ◌≡◌, refl, arith, pos, negsuc, ◌-ℤ◌, ok}
use oo_o_processor.Array.{load, store, set, fill}
use oo_o_processor.Dft
use oo_o_processor.Dft.{
  Unset, to_short, raise, lower, modulo_m, split_loop, join_loop, dft, low_bit, shift_right,
  to_poly_loop, to_poly, product_loop, evaluate_loop, mult,
}
use oo_o_processor.Dft.Modulo.{mod17, modulo_m-mod17}
use oo_o_processor.Dft.Fourier.{transform, points, dft-transform}
use oo_o_processor.Dft.Bits.{low_byte}
use oo_o_processor.Dft.Product.{mult-product}

abbrev unset : Unset
unset = record { x = λ i. pos 7; y = λ i. negsuc i }

-- 3 * 16 * 4 * 23 modulo 17.
dft_main_runs : Dft.main unset ≡ ok (pos 13)
unfolding Dft.main mult to_poly to_poly_loop low_bit shift_right dft split_loop join_loop
    product_loop evaluate_loop modulo_m raise lower to_short load store set fill ◌+ℤ◌ ◌-ℤ◌ ◌*ℤ◌
dft_main_runs = refl

mult-product_example :
    mult unset (pos 16) (negsuc 4) ≡ ok (pos (low_byte (pos 16) * low_byte (negsuc 4) % 17))
mult-product_example = mult-product unset (pos 16) (negsuc 4)

dft-transform_example :
    dft unset 4 (map pos (points 1 1 0 0 0 0 0 1)) 8 (pos 2)
    ≡ ok (map pos (transform 8 0 2 (points 1 1 0 0 0 0 0 1)))
dft-transform_example = dft-transform unset 2 1 1 0 0 0 0 0 1 (inl refl) (omega arith)

modulo_m-mod17_example : modulo_m (to_short (negsuc 99)) ≡ ok (pos (mod17 (negsuc 99)))
modulo_m-mod17_example = modulo_m-mod17 (negsuc 99) (omega arith)
