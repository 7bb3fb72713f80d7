-- ===== src/Shim.antt =====
-- include/iyokan-starpu-offload.hpp: the calls of TFHEpp in Iyokan that its macros replace, as calls of
-- the runtime of src/iyokan-starpu-codelets.cpp.
pub mod Bits
pub mod Sequences
pub mod Threads
pub mod Clear
mod Tests
mod ThreadTests
use tangor.Base.{ℕ, ◌≡◌, Bool, [], ◌∷◌}
use tangor.StarpuApi.{StarpuApi}
use tangor.Offload.{HomGate, replacement, CmuxCodelet}
use tangor.Offload.Table.{IyokanCodelet, binary, not_starpu, mux_starpu, mux_wo_se_starpu, cmux}
use tangor.Iyokan.Calls.{Call, gate, not_gate, cmux_fft, mux_wo_se}

-- A call of TFHEpp, with its arguments by their addresses, the output first and a key last.
pub data HomCall : Type 0 where
  hom_gate : HomGate → ℕ → ℕ → ℕ → ℕ → HomCall
  hom_not : ℕ → ℕ → HomCall
  hom_mux : ℕ → ℕ → ℕ → ℕ → ℕ → HomCall
  hom_cmux_fft : ℕ → ℕ → ℕ → ℕ → HomCall
  hom_mux_wo_se : ℕ → ℕ → ℕ → ℕ → ℕ → HomCall

-- The functions `TangorStarpu…`.
unfoldable pub offloaded : (api : StarpuApi) → (IyokanCodelet → api.Codelet) → HomCall → Call api
unfolding replacement
offloaded api codelet (hom_gate g output left right key) =
    gate (codelet (binary (replacement g))) output (left ∷ right ∷ []) key
offloaded api codelet (hom_not output input) = not_gate (codelet not_starpu) output input
offloaded api codelet (hom_mux output select when_true when_false key) =
    gate (codelet mux_starpu) output (select ∷ when_true ∷ when_false ∷ []) key
offloaded api codelet (hom_cmux_fft output select when_true when_false) =
    cmux_fft (λ c. codelet (cmux c)) output select when_true when_false
offloaded api codelet (hom_mux_wo_se output select when_true when_false key) =
    mux_wo_se (codelet mux_wo_se_starpu) output (select ∷ when_true ∷ when_false ∷ []) key
