-- ===== src/Offload.antt =====
-- src/iyokan-starpu-codelets.cpp and src/iyokan-cufhepp-starpu.cu, with `USE_CUFHEPP`: the codelets
-- for the gates and the CMUX of Iyokan, and the tasks that are made of them.
pub mod Meaning
pub mod Cmux
pub mod Table
pub mod Declared
mod Tests
use tangor.Base.{
  ℤ, pos, negsuc, ℕ, Bool, true, false, List, [], ◌∷◌, Option, none, some, ◌==◌, if◌then◌else◌,
}
use tangor.Tfhe.{
  Tfhe, Bootstrap, nand_bootstrap, nor_bootstrap, xnor_bootstrap, and_bootstrap, or_bootstrap,
  xor_bootstrap, and_yn_bootstrap, or_yn_bootstrap,
}
use tangor.StarpuApi.{Access, starpu_w, starpu_r, starpu_rw}
use tangor.Codelets.{Worker, cpu_worker, cuda_worker}

pub data IyokanBinaryGate : Type 0 where
  and_gate nand_gate andnot_gate or_gate nor_gate ornot_gate xor_gate xnor_gate : IyokanBinaryGate

-- `binary_codelet` has the template arguments of `binaryCodelet` and the CUDA implementation.
pub data GateCodelet : Type 0 where
  binary_codelet : ℤ → ℤ → ℤ → Bootstrap → GateCodelet
  not_codelet mux_codelet : GateCodelet

-- The functions `iyokanCufheppHom…`, which the table of codelets gets for a GPU.
unfoldable pub cuda_bootstrap : IyokanBinaryGate → Bootstrap
cuda_bootstrap and_gate = and_bootstrap
cuda_bootstrap nand_gate = nand_bootstrap
cuda_bootstrap andnot_gate = and_yn_bootstrap
cuda_bootstrap or_gate = or_bootstrap
cuda_bootstrap nor_gate = nor_bootstrap
cuda_bootstrap ornot_gate = or_yn_bootstrap
cuda_bootstrap xor_gate = xor_bootstrap
cuda_bootstrap xnor_gate = xnor_bootstrap

unfoldable pub codelet_for : IyokanBinaryGate → GateCodelet
unfolding cuda_bootstrap
codelet_for and_gate = binary_codelet (pos 1) (pos 1) (negsuc 0) (cuda_bootstrap and_gate)
codelet_for nand_gate = binary_codelet (negsuc 0) (negsuc 0) (pos 1) (cuda_bootstrap nand_gate)
codelet_for andnot_gate = binary_codelet (pos 1) (negsuc 0) (negsuc 0) (cuda_bootstrap andnot_gate)
codelet_for or_gate = binary_codelet (pos 1) (pos 1) (pos 1) (cuda_bootstrap or_gate)
codelet_for nor_gate = binary_codelet (negsuc 0) (negsuc 0) (negsuc 0) (cuda_bootstrap nor_gate)
codelet_for ornot_gate = binary_codelet (pos 1) (negsuc 0) (pos 1) (cuda_bootstrap ornot_gate)
codelet_for xor_gate = binary_codelet (pos 2) (pos 2) (pos 2) (cuda_bootstrap xor_gate)
codelet_for xnor_gate = binary_codelet (negsuc 1) (negsuc 1) (negsuc 1) (cuda_bootstrap xnor_gate)

-- The gates of TFHEpp that include/iyokan-starpu-offload.hpp replaces by macros.
pub data HomGate : Type 0 where
  hom_and hom_nand hom_andyn hom_or hom_nor hom_oryn hom_xor hom_xnor : HomGate

-- The gate with which each replacement calls `runIyokanStarpuBinaryGate`.
unfoldable pub replacement : HomGate → IyokanBinaryGate
replacement hom_and = and_gate
replacement hom_nand = nand_gate
replacement hom_andyn = andnot_gate
replacement hom_or = or_gate
replacement hom_nor = nor_gate
replacement hom_oryn = ornot_gate
replacement hom_xor = xor_gate
replacement hom_xnor = xnor_gate

-- What a worker leaves in `buffers[0]`. `hom_not` stands for the negation of every coefficient, and
-- the codelet of NOT has no CUDA implementation.
unfoldable pub run_gate : (t : Tfhe) → Worker → GateCodelet → List t.Cipher → Option t.Cipher
run_gate t cpu_worker (binary_codelet ca cb offset f) (left ∷ right ∷ []) =
    some (t.hom_gate ca cb offset left right)
run_gate t cuda_worker (binary_codelet ca cb offset f) (left ∷ right ∷ []) =
    some (t.bootstrap f left right)
run_gate t cpu_worker not_codelet (input ∷ []) = some (t.hom_not input)
run_gate t cpu_worker mux_codelet (select ∷ when_true ∷ when_false ∷ []) =
    some (t.hom_mux select when_true when_false)
run_gate t cuda_worker mux_codelet (select ∷ when_true ∷ when_false ∷ []) =
    some (t.mux_bootstrap select when_true when_false)
run_gate t _ _ _ = none

-- A `TRLWE` by its address, or the local copy that a codelet makes.
pub data Slot : Type 0 where
  word : ℕ → Slot
  local_copy : Slot

-- What is used of TFHEpp and cuFHEpp for RAM and ROM: `CMUXFFT` and `CMUXTFHEppFFTkernel`, with the selector,
-- the output, and the inputs for a true and a false selector, on the values in memory.
pub record Ram : Type 1 where
  pub Trlwe : Type 0
  pub Trgsw : Type 0
  pub cmux_fft : Trgsw → Slot → Slot → Slot → (Slot → Trlwe) → Slot → Trlwe
  pub cmux_kernel : Trgsw → Slot → Slot → Slot → (Slot → Trlwe) → Slot → Trlwe

pub data CmuxCodelet : Type 0 where
  cmux_fft_codelet cmux_fft_in_place_true_codelet cmux_fft_in_place_false_codelet : CmuxCodelet

-- A buffer is the address of a `TRLWE` or of a `TRGSWFFT`.
pub data Buffer : Type 0 where
  trlwe : ℕ → Buffer
  trgsw : ℕ → Buffer

pub record CmuxTask : Type 0 where
  pub codelet : CmuxCodelet
  pub buffers : List (Access × Buffer)

-- The task that `runIyokanStarpuCMUXFFT` submits, by the aliases of its output.
unfoldable pub cmux_task : ℕ → ℕ → ℕ → ℕ → CmuxTask
cmux_task output select when_true when_false =
    if output == when_true
    then record {
      codelet = cmux_fft_in_place_true_codelet;
      buffers =
          (starpu_rw, trlwe output) ∷ (starpu_r, trgsw select) ∷ (starpu_r, trlwe when_false) ∷ [];
    }
    else if output == when_false
    then record {
      codelet = cmux_fft_in_place_false_codelet;
      buffers =
          (starpu_rw, trlwe output) ∷ (starpu_r, trgsw select) ∷ (starpu_r, trlwe when_true) ∷ [];
    }
    else record {
      codelet = cmux_fft_codelet;
      buffers =
          (starpu_w, trlwe output)
          ∷ (starpu_r, trgsw select)
          ∷ (starpu_r, trlwe when_true)
          ∷ (starpu_r, trlwe when_false)
          ∷ [];
    }

module _ (r : Ram) where
  abbrev pub Words : Type 0
  Words = Slot → r.Trlwe

  -- `const IyokanTRLWE whenTrue = output;`
  abbrev pub copied : ℕ → Words → Words
  copied o words (word n) = words (word n)
  copied o words local_copy = words (word o)

  -- The codelets on a CPU worker, on the values in memory.
  unfoldable pub run_cmux_cpu :
      CmuxCodelet → (ℕ → r.Trgsw) → List (Access × Buffer) → Words → Option Words
  run_cmux_cpu cmux_fft_codelet selects
        ((m, trlwe o) ∷ (n, trgsw s) ∷ (k, trlwe a) ∷ (l, trlwe b) ∷ []) words =
      some (r.cmux_fft (selects s) (word o) (word a) (word b) words)
  run_cmux_cpu cmux_fft_in_place_true_codelet selects
        ((m, trlwe o) ∷ (n, trgsw s) ∷ (k, trlwe b) ∷ []) words =
      some (r.cmux_fft (selects s) (word o) local_copy (word b) (copied o words))
  run_cmux_cpu cmux_fft_in_place_false_codelet selects
        ((m, trlwe o) ∷ (n, trgsw s) ∷ (k, trlwe a) ∷ []) words =
      some (r.cmux_fft (selects s) (word o) (word a) local_copy (copied o words))
  run_cmux_cpu _ selects buffers words = none

  -- And on a CUDA worker.
  unfoldable pub run_cmux_cuda :
      CmuxCodelet → (ℕ → r.Trgsw) → List (Access × Buffer) → Words → Option Words
  run_cmux_cuda cmux_fft_codelet selects
        ((m, trlwe o) ∷ (n, trgsw s) ∷ (k, trlwe a) ∷ (l, trlwe b) ∷ []) words =
      some (r.cmux_kernel (selects s) (word o) (word a) (word b) words)
  run_cmux_cuda cmux_fft_in_place_true_codelet selects
        ((m, trlwe o) ∷ (n, trgsw s) ∷ (k, trlwe b) ∷ []) words =
      some (r.cmux_kernel (selects s) (word o) (word o) (word b) words)
  run_cmux_cuda cmux_fft_in_place_false_codelet selects
        ((m, trlwe o) ∷ (n, trgsw s) ∷ (k, trlwe a) ∷ []) words =
      some (r.cmux_kernel (selects s) (word o) (word a) (word o) words)
  run_cmux_cuda _ selects buffers words = none

  unfoldable pub run_cmux :
      Worker → CmuxCodelet → (ℕ → r.Trgsw) → List (Access × Buffer) → Words → Option Words
  unfolding run_cmux_cpu run_cmux_cuda
  run_cmux cpu_worker = run_cmux_cpu
  run_cmux cuda_worker = run_cmux_cuda
