-- ===== src/Offload/Table.antt =====
-- The table of codelets of src/iyokan-starpu-codelets.cpp, and the accesses with which the functions
-- `runIyokanStarpu…` submit them.
use tangor.Base.{
  ℕ, Bool, true, false, List, [], ◌∷◌, Option, none, some, String, str_eq, length, map,
  if◌then◌else◌,
}
use tangor.Tfhe.{Bootstrap}
use tangor.StarpuApi.{Access, starpu_w, starpu_r, starpu_rw}
use tangor.Offload.{
  IyokanBinaryGate, and_gate, nand_gate, andnot_gate, or_gate, nor_gate, ornot_gate, xor_gate,
  xnor_gate, cuda_bootstrap, CmuxCodelet, cmux_fft_codelet, cmux_fft_in_place_true_codelet,
  cmux_fft_in_place_false_codelet, Buffer, trlwe, trgsw, cmux_task,
}

-- The variables of the type `starpu_codelet`; a binary gate stands for that of `codeletFor`.
pub data IyokanCodelet : Type 0 where
  binary : IyokanBinaryGate → IyokanCodelet
  not_starpu mux_starpu mux_wo_se_starpu : IyokanCodelet
  cmux : CmuxCodelet → IyokanCodelet

-- The functions of src/iyokan-cufhepp-starpu.cu.
pub data IyokanCuda : Type 0 where
  iyokan_cufhepp_hom : Bootstrap → IyokanCuda
  iyokan_cufhepp_hom_mux : IyokanCuda
  iyokan_cufhepp_cmux : CmuxCodelet → IyokanCuda

-- The fields of `starpu_codelet`; `on_cuda` says whether `.where` has `STARPU_CUDA` beside
-- `STARPU_CPU`.
pub record StarpuCodelet : Type 0 where
  pub on_cuda : Bool
  pub cpu_func_name : String
  pub nbuffers : ℕ
  pub modes : List Access
  pub cuda_func : Option IyokanCuda

unfoldable pub make_codelet : String → List Access → StarpuCodelet
make_codelet name modes = record {
  on_cuda = false;
  cpu_func_name = name;
  nbuffers = length modes;
  modes = modes;
  cuda_func = none;
}

unfoldable pub add_cuda_implementation : IyokanCuda → StarpuCodelet → StarpuCodelet
add_cuda_implementation f c = record c { on_cuda = true; cuda_func = some f }

abbrev codelet_name : IyokanBinaryGate → String
codelet_name and_gate = "andCodelet"
codelet_name nand_gate = "nandCodelet"
codelet_name andnot_gate = "andNotCodelet"
codelet_name or_gate = "orCodelet"
codelet_name nor_gate = "norCodelet"
codelet_name ornot_gate = "orNotCodelet"
codelet_name xor_gate = "xorCodelet"
codelet_name xnor_gate = "xnorCodelet"

-- The codelets before the initializers for CUDA.
unfoldable pub made : IyokanCodelet → StarpuCodelet
unfolding make_codelet
made (binary g) = make_codelet (codelet_name g) (starpu_w ∷ starpu_r ∷ starpu_r ∷ [])
made not_starpu = make_codelet "IyokanNOT" (starpu_w ∷ starpu_r ∷ [])
made mux_starpu = make_codelet "IyokanMUX" (starpu_w ∷ starpu_r ∷ starpu_r ∷ starpu_r ∷ [])
made mux_wo_se_starpu =
    make_codelet "IyokanMUXwoSE" (starpu_w ∷ starpu_r ∷ starpu_r ∷ starpu_r ∷ [])
made (cmux cmux_fft_codelet) =
    make_codelet "IyokanCMUXFFT" (starpu_w ∷ starpu_r ∷ starpu_r ∷ starpu_r ∷ [])
made (cmux cmux_fft_in_place_true_codelet) =
    make_codelet "IyokanCMUXFFTInPlaceTrue" (starpu_rw ∷ starpu_r ∷ starpu_r ∷ [])
made (cmux cmux_fft_in_place_false_codelet) =
    make_codelet "IyokanCMUXFFTInPlaceFalse" (starpu_rw ∷ starpu_r ∷ starpu_r ∷ [])

-- Whether `TANGOR_EXPERIMENTAL_CUDA_CMUX` is set to 1.
unfoldable pub enable_cuda_cmux : Option String → Bool
enable_cuda_cmux none = false
enable_cuda_cmux (some s) = str_eq s "1"

-- The codelets after the initializers of a build with `USE_CUFHEPP`, from that variable.
unfoldable pub registered : Option String → IyokanCodelet → StarpuCodelet
unfolding made add_cuda_implementation enable_cuda_cmux
registered env (binary g) =
    add_cuda_implementation (iyokan_cufhepp_hom (cuda_bootstrap g)) (made (binary g))
registered env mux_starpu = add_cuda_implementation iyokan_cufhepp_hom_mux (made mux_starpu)
registered env (cmux c) =
    if enable_cuda_cmux env
    then add_cuda_implementation (iyokan_cufhepp_cmux c) (made (cmux c))
    else made (cmux c)
registered env c = made c

-- How StarPU holds a value: `starpu_vector_data_register` or `starpu_variable_data_register`, and
-- `STARPU_VECTOR_GET_PTR` or `STARPU_VARIABLE_GET_PTR`.
pub data Interface : Type 0 where
  vector variable : Interface

-- The interfaces through which the CPU implementations of the codelets take their buffers.
unfoldable pub interfaces : IyokanCodelet → List Interface
interfaces (binary g) = vector ∷ vector ∷ vector ∷ []
interfaces not_starpu = vector ∷ vector ∷ []
interfaces mux_starpu = vector ∷ vector ∷ vector ∷ vector ∷ []
interfaces mux_wo_se_starpu = variable ∷ variable ∷ variable ∷ variable ∷ []
interfaces (cmux cmux_fft_codelet) = variable ∷ variable ∷ variable ∷ variable ∷ []
interfaces (cmux cmux_fft_in_place_true_codelet) = variable ∷ variable ∷ variable ∷ []
interfaces (cmux cmux_fft_in_place_false_codelet) = variable ∷ variable ∷ variable ∷ []

-- The arguments of the functions `runIyokanStarpu…`, as addresses.
pub data Submission : Type 0 where
  binary_gate : IyokanBinaryGate → ℕ → ℕ → ℕ → Submission
  not_gate : ℕ → ℕ → Submission
  mux cmux_fft mux_wo_se : ℕ → ℕ → ℕ → ℕ → Submission

-- A buffer of a task: its access, how its handle was registered, and its address.
pub record TaskBuffer : Type 0 where
  pub access : Access
  pub interface : Interface
  pub address : ℕ

abbrev buffer : Access → Interface → ℕ → TaskBuffer
buffer a i n = record { access = a; interface = i; address = n }

abbrev address_of : Buffer → ℕ
address_of (trlwe n) = n
address_of (trgsw n) = n

-- What a function submits: `submitAsync` registers vectors, `submitVariableAsync` variables, and
-- `submitMuxWoSEAsync` a variable and vectors.
unfoldable pub submitted : Submission → IyokanCodelet × List TaskBuffer
unfolding cmux_task
submitted (binary_gate g output left right) = (
  binary g,
  buffer starpu_w vector output ∷ buffer starpu_r vector left ∷ buffer starpu_r vector right ∷ [],
)
submitted (not_gate output input) =
    (not_starpu, buffer starpu_w vector output ∷ buffer starpu_r vector input ∷ [])
submitted (mux output select when_true when_false) = (
  mux_starpu,
  buffer starpu_w vector output
      ∷ buffer starpu_r vector select
      ∷ buffer starpu_r vector when_true
      ∷ buffer starpu_r vector when_false
      ∷ [],
)
submitted (cmux_fft output select when_true when_false) =
    let task = cmux_task output select when_true when_false in
    (
      cmux task.codelet,
      map (λ (x : Access × Buffer). buffer x.0 variable (address_of x.1)) task.buffers,
    )
submitted (mux_wo_se output select when_true when_false) = (
  mux_wo_se_starpu,
  buffer starpu_w variable output
      ∷ buffer starpu_r vector select
      ∷ buffer starpu_r vector when_true
      ∷ buffer starpu_r vector when_false
      ∷ [],
)
