-- ===== src/Codelets.antt =====
-- src/wrappedcodelets.cpp and src/cufhepp_starpu.cu: the StarPU codelets of the standalone Tangor
-- executable. A codelet has a CPU and a CUDA implementation, and StarPU takes either.
pub mod Meaning
pub mod Buffers
mod Tests
use tangor.Base.{
  ℤ, pos, negsuc, ℕ, ◌≡◌, Bool, true, false, not, List, [], ◌∷◌, Option, none, some, if◌then◌else◌,
}
use tangor.Tfhe.{
  Tfhe, Bootstrap, nand_bootstrap, nor_bootstrap, xnor_bootstrap, and_bootstrap, or_bootstrap,
  xor_bootstrap, and_ny_bootstrap, and_yn_bootstrap, or_ny_bootstrap, or_yn_bootstrap,
}

pub data Codelet : Type 0 where
  cl_hom_nand cl_hom_nor cl_hom_xnor cl_hom_and cl_hom_or cl_hom_xor : Codelet
  cl_hom_andny cl_hom_andyn cl_hom_orny cl_hom_oryn : Codelet
  cl_hom_not cl_hom_mux cl_hom_nmux : Codelet

pub data AccessMode : Type 0 where
  starpu_w starpu_r : AccessMode

-- `HomGateWrap<P, casign, cbsign, offset>`, `HomNOTWrap`, `HomMUXWrap` and `HomNMUXWrap`.
pub data CpuFunc : Type 0 where
  hom_gate_wrap : ℤ → ℤ → ℤ → CpuFunc
  hom_not_wrap hom_mux_wrap hom_nmux_wrap : CpuFunc

pub data CudaFunc : Type 0 where
  hom2_wrap : Bootstrap → CudaFunc
  cufhepp_hom_not_wrap cufhepp_hom_mux_wrap cufhepp_hom_nmux_wrap : CudaFunc

-- The field `.cpu_funcs`.
unfoldable pub cpu_func : Codelet → CpuFunc
cpu_func cl_hom_nand = hom_gate_wrap (negsuc 0) (negsuc 0) (pos 1)
cpu_func cl_hom_nor = hom_gate_wrap (negsuc 0) (negsuc 0) (negsuc 0)
cpu_func cl_hom_xnor = hom_gate_wrap (negsuc 1) (negsuc 1) (negsuc 1)
cpu_func cl_hom_and = hom_gate_wrap (pos 1) (pos 1) (negsuc 0)
cpu_func cl_hom_or = hom_gate_wrap (pos 1) (pos 1) (pos 1)
cpu_func cl_hom_xor = hom_gate_wrap (pos 2) (pos 2) (pos 2)
cpu_func cl_hom_andny = hom_gate_wrap (negsuc 0) (pos 1) (negsuc 0)
cpu_func cl_hom_andyn = hom_gate_wrap (pos 1) (negsuc 0) (negsuc 0)
cpu_func cl_hom_orny = hom_gate_wrap (negsuc 0) (pos 1) (pos 1)
cpu_func cl_hom_oryn = hom_gate_wrap (pos 1) (negsuc 0) (pos 1)
cpu_func cl_hom_not = hom_not_wrap
cpu_func cl_hom_mux = hom_mux_wrap
cpu_func cl_hom_nmux = hom_nmux_wrap

-- The field `.cuda_funcs`, and the call that each of these wrappers makes.
unfoldable pub cuda_func : Codelet → CudaFunc
cuda_func cl_hom_nand = hom2_wrap nand_bootstrap
cuda_func cl_hom_nor = hom2_wrap nor_bootstrap
cuda_func cl_hom_xnor = hom2_wrap xnor_bootstrap
cuda_func cl_hom_and = hom2_wrap and_bootstrap
cuda_func cl_hom_or = hom2_wrap or_bootstrap
cuda_func cl_hom_xor = hom2_wrap xor_bootstrap
cuda_func cl_hom_andny = hom2_wrap and_ny_bootstrap
cuda_func cl_hom_andyn = hom2_wrap and_yn_bootstrap
cuda_func cl_hom_orny = hom2_wrap or_ny_bootstrap
cuda_func cl_hom_oryn = hom2_wrap or_yn_bootstrap
cuda_func cl_hom_not = cufhepp_hom_not_wrap
cuda_func cl_hom_mux = cufhepp_hom_mux_wrap
cuda_func cl_hom_nmux = cufhepp_hom_nmux_wrap

-- The field `.modes`; `.nbuffers` is its length.
unfoldable pub modes : Codelet → List AccessMode
modes cl_hom_not = starpu_w ∷ starpu_r ∷ []
modes cl_hom_mux = starpu_w ∷ starpu_r ∷ starpu_r ∷ starpu_r ∷ []
modes cl_hom_nmux = starpu_w ∷ starpu_r ∷ starpu_r ∷ starpu_r ∷ []
modes _ = starpu_w ∷ starpu_r ∷ starpu_r ∷ []

unfoldable pub nbuffers : Codelet → ℕ
nbuffers cl_hom_not = 2
nbuffers cl_hom_mux = 4
nbuffers cl_hom_nmux = 4
nbuffers _ = 3

-- The kinds of StarPU worker that a codelet may run on.
pub data Worker : Type 0 where
  cpu_worker cuda_worker : Worker

module _ (t : Tfhe) where
  -- What an implementation leaves in `buffers[0]`, from the contents of `buffers[1]` on; `none` where
  -- it would read a buffer that the task does not have.
  unfoldable pub run_cpu : CpuFunc → List t.Cipher → Option t.Cipher
  run_cpu (hom_gate_wrap ca cb offset) (ina ∷ inb ∷ []) = some (t.hom_gate ca cb offset ina inb)
  run_cpu hom_not_wrap (ina ∷ []) = some (t.hom_not ina)
  run_cpu hom_mux_wrap (ins ∷ ina ∷ inb ∷ []) = some (t.hom_mux ins ina inb)
  run_cpu hom_nmux_wrap (ins ∷ ina ∷ inb ∷ []) = some (t.hom_nmux ins ina inb)
  run_cpu _ _ = none

  unfoldable pub run_cuda : CudaFunc → List t.Cipher → Option t.Cipher
  run_cuda (hom2_wrap f) (ina ∷ inb ∷ []) = some (t.bootstrap f ina inb)
  run_cuda cufhepp_hom_not_wrap (ina ∷ []) = some (t.not_bootstrap ina)
  run_cuda cufhepp_hom_mux_wrap (ins ∷ ina ∷ inb ∷ []) = some (t.mux_bootstrap ins ina inb)
  run_cuda cufhepp_hom_nmux_wrap (ins ∷ ina ∷ inb ∷ []) = some (t.nmux_bootstrap ins ina inb)
  run_cuda _ _ = none

  unfoldable pub run_codelet : Worker → Codelet → List t.Cipher → Option t.Cipher
  unfolding cpu_func cuda_func run_cpu run_cuda
  run_codelet cpu_worker c inputs = run_cpu (cpu_func c) inputs
  run_codelet cuda_worker c inputs = run_cuda (cuda_func c) inputs
