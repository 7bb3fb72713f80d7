-- ===== src/Hoge/Tests.antt =====
-- Runs of the functions of src/hogewrapper.cpp and include/hogewrapper.hpp on small inputs.
use tangor.Base.{ℕ, ◌+◌, ◌*◌, ◌<◌, ◌≤◌, ◌≡◌, refl, true, false, [], ◌∷◌, arith, xor}
use tangor.Tfhe.{encode}
use tangor.Codelets.{cpu_func, cl_hom_xor}
use tangor.Codelets.Meaning.{apply_fn, codelet_fn}
use tangor.Hoge.{Board, hoge_mux_wrap}
use tangor.Hoge.Layout.{
  wordsinbus, totaliksknumbus, iksk_word, fill_ikskaligned, bkntt_bus, bkntt_word,
  fill_bknttaligned, IkskPlace, BknttPlace, iksk, bkntt, bank, argument, program_devices, bknumbus,
}
use tangor.Hoge.Readback.{
  find_iksk, find_bkntt, fill_ikskaligned-find, fill_bknttaligned-find, loops-bounds,
}
use tangor.Hoge.Boards.{bank-argument, program_devices-Chosen, Chosen}
use tangor.Hoge.Clear.{clear_kernel, clear_hoge, word}
use tangor.Hoge.Meaning.{
  hoge_mux_wrap-Carries, hoge_mux_wrap-negated, codelet-HogeYields, HogeYields,
}

-- A board before its first gate.
abbrev new_board : Board
new_board = record {
  buftlwea = [];
  buftlweb = [];
  bufres = [];
  scalea = 0;
  scaleb = 0;
  offset = 0;
  device_ina = [];
  device_inb = [];
  device_res = [];
}

-- A key whose words are distinct.
abbrev sample_key : ℕ → ℕ → ℕ → ℕ → ℕ
sample_key i j k w = i * 1000000 + j * 10000 + k * 1000 + w

abbrev no_iksk : IkskPlace → ℕ
no_iksk p = 0

abbrev no_bkntt : BknttPlace → ℕ
no_bkntt p = 0

fill_ikskaligned-find_example :
    fill_ikskaligned 32 2 3 1 sample_key no_iksk (find_iksk (wordsinbus 32) 1 2 0 637) ≡ 1020637
unfolding wordsinbus
fill_ikskaligned-find_example =
    fill_ikskaligned-find 32 2 3 1 1 2 0 637 sample_key no_iksk (omega arith) (omega arith)
      (omega arith) (omega arith) (omega arith)

fill_bknttaligned-find_example :
    fill_bknttaligned 2 4 sample_key no_bkntt (find_bkntt 1 3 1 1000) ≡ 1032000
fill_bknttaligned-find_example =
    fill_bknttaligned-find 2 4 1 3 1 1000 sample_key no_bkntt (omega arith) (omega arith)
      (omega arith) (omega arith)

loops-bounds_example :
    (iksk_word 16 9 3 15 < totaliksknumbus * 16)
    × (bkntt_bus 1 3 < bknumbus)
    × (bkntt_word 3 31 7 < 1024)
loops-bounds_example =
    loops-bounds 16 9 3 15 1 3 31 7 (omega arith) (omega arith) (omega arith) (omega arith)
      (omega arith) (omega arith) (omega arith)

bank-argument_example :
    (bank (iksk 9) < 32)
    × (3 ≤ argument (iksk 9))
    × (bank (iksk 9) ≡ bank (bkntt 0) → iksk 9 ≡ bkntt 0)
    × (argument (iksk 9) ≡ argument (bkntt 0) → iksk 9 ≡ bkntt 0)
bank-argument_example = bank-argument (iksk 9) (bkntt 0) (omega arith) (omega arith)

program_devices-Chosen_example : Chosen (false ∷ true ∷ []) (program_devices (false ∷ true ∷ []))
program_devices-Chosen_example = program_devices-Chosen (false ∷ true ∷ [])

hoge_mux_wrap-Carries_example :
    clear_hoge.Carries
      (hoge_mux_wrap clear_kernel false (word 7) (word 7) (word 1) new_board).0
      (encode true)
unfolding encode
hoge_mux_wrap-Carries_example =
    hoge_mux_wrap-Carries clear_hoge (word 7) (word 7) (word 1) false false true new_board
      (refl, omega arith) (refl, omega arith) (refl, omega arith)

-- `s` selects `c1`, which is false, and the result is false, not its negation.
hoge_mux_wrap-negated_example :
    clear_hoge.Carries
      (hoge_mux_wrap clear_kernel true (word 1) (word 7) (word 1) new_board).0
      (encode false)
    × ¬ clear_hoge.Carries
        (hoge_mux_wrap clear_kernel true (word 1) (word 7) (word 1) new_board).0
        (encode true)
unfolding encode
hoge_mux_wrap-negated_example =
    hoge_mux_wrap-negated clear_hoge (word 1) (word 7) (word 1) true false true new_board
      (refl, omega arith) (refl, omega arith) (refl, omega arith)

codelet-HogeYields_example :
    HogeYields clear_hoge (cpu_func cl_hom_xor) (word 1 ∷ word 7 ∷ []) new_board true
unfolding encode apply_fn codelet_fn xor
codelet-HogeYields_example =
    codelet-HogeYields clear_hoge cl_hom_xor (word 1) (word 7) true false true new_board
      (refl, omega arith) (refl, omega arith) (refl)
