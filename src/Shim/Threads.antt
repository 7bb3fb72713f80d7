-- ===== src/Shim/Threads.antt =====
-- Iyokan's calls of TFHEpp from several threads at the same time, through
-- include/iyokan-starpu-offload.hpp and the runtime of src/iyokan-starpu-codelets.cpp.
use tangor.Base.{ℕ, ◌≡◌, sym, subst, ◌∙◌, Bool, List, [], ◌∷◌, ◌++◌, map, some}
use tangor.Tfhe.{Tfhe, TfheLaws}
use tangor.StarpuApi.{StarpuApi}
use tangor.StarpuApi.Memory.{Place, tlwe, Memory, MemoryLaws}
use tangor.Offload.Table.{IyokanCodelet}
use tangor.Iyokan.{value, Backend, ensure_starpu}
use tangor.Iyokan.Tasks.{synchronize_output}
use tangor.Iyokan.Calls.{Call}
use tangor.Iyokan.Memory.{value_at}
use tangor.Iyokan.Memory.Assignments.{output_of, Admissible}
use tangor.Iyokan.Memory.Starting.{configured}
use tangor.Iyokan.Threads.{Thread, submitted, Runs, unsubmitted, Interleaves}
use tangor.Iyokan.Threads.Submitted.{all_ready}
use tangor.Iyokan.Threads.Linear.{Performed, threads-Performed, thread-Fetched}
use tangor.Shim.{HomCall, offloaded}
use tangor.Shim.Bits.{
  Bits, evaluate, evaluate_all, RunsGates, HoldsBit, Stores, Stores-same, Assigns-Stores,
}
use tangor.Shim.Sequences.{prepared-Encrypted}

module _ {t : Tfhe} (laws : TfheLaws t) {api : StarpuApi} {y : Memory api} (starpu : MemoryLaws y)
    (codelet : IyokanCodelet → api.Codelet) (runs : RunsGates t y codelet)
    (IsCmux : y.Value → y.Value → y.Value → y.Value → Type 0) where
  -- A call whose output is none of its inputs, or a CMUX whose output is not both of its data inputs.
  pub record AdmissibleCall : Type 0 where
    pub hom_call : HomCall
    pub admissible : Admissible y IsCmux (offloaded api codelet hom_call)

  abbrev pub call_of : AdmissibleCall → Call api
  call_of c = offloaded api codelet c.hom_call

  abbrev pub hom_calls : List AdmissibleCall → List HomCall
  hom_calls [] = []
  hom_calls (c ∷ cs) = c.hom_call ∷ hom_calls cs

  Performed-Stores :
      (order : List AdmissibleCall) (μ ν : Place → y.Value) (bits : Bits)
      → Performed call_of y IsCmux order μ ν
      → Stores laws y codelet runs IsCmux μ bits
      → Stores laws y codelet runs IsCmux ν (evaluate_all (hom_calls order) bits)
  Performed-Stores [] μ ν bits same stores = Stores-same laws y codelet runs IsCmux bits same stores
  Performed-Stores (c ∷ cs) μ ν bits (κ, does, rest) stores =
      Performed-Stores cs κ ν (evaluate c.hom_call bits) rest
        (Assigns-Stores laws y codelet runs IsCmux c.hom_call μ κ bits does stores)

  -- Under the laws of TFHEpp and what StarPU documents: when, after the first preparation of the
  -- runtime, threads call TFHEpp through the shim at the same time, with their steps in any order
  -- and no exception, then the calls can be put in an order that keeps the order of each thread,
  -- such that a call, when its thread comes back from waiting for it, has left in main memory, at
  -- the address of its output, an encryption of the bit that the calls submitted until then, as
  -- TFHEpp documents them, give it in that order, if the ciphertexts that were in memory at first
  -- encrypt the known bits. The output of each gate is none of its inputs, and that of a CMUX, whose
  -- codelets compute it, not both of its data inputs.
  pub thread_calls-Encrypt :
      (key cpus gpus : ℕ) (m : api.Machine) (b s u : Backend api) (bits : Bits)
      (programs : List (List AdmissibleCall)) (order : List AdmissibleCall)
      (before after : List (Thread call_of)) (c : AdmissibleCall) (task : ℕ)
      (rest : List AdmissibleCall) (output : ℕ) (x : Bool)
      → Stores laws y codelet runs IsCmux (y.host m) bits
      → ensure_starpu api key (configured y cpus gpus m) ≡ (value tt, b)
      → Runs call_of
          (all_ready call_of programs)
          b
          order
          (before ++ submitted c task rest ∷ after)
          s
      → synchronize_output api task s ≡ (value tt, u)
      → output_of (call_of c) ≡ tlwe output
      → evaluate_all (hom_calls order) bits output ≡ some x
      → Interleaves programs order
          (map (unsubmitted call_of) (before ++ submitted c task rest ∷ after))
        × HoldsBit laws y codelet runs IsCmux (y.host u.machine (tlwe output)) x
  thread_calls-Encrypt key cpus gpus m b s u bits programs order before after c task rest output x
        stored prepared ran waited out at =
      let first =
        prepared-Encrypted laws starpu codelet runs IsCmux key cpus gpus m b bits stored prepared in
      let admissible = λ (d : AdmissibleCall). d.admissible in
      let (interleaves, performed, _) =
        threads-Performed call_of y IsCmux starpu admissible programs order _ b s first.started
          first.linked ran in
      let (w, fetched) =
        thread-Fetched call_of y IsCmux starpu admissible programs order before after c task rest b
          s u first.started first.linked ran waited in
      let here : y.host u.machine (tlwe output) ≡ value_at y s (tlwe output) =
        subst (λ (p : Place). y.host u.machine p ≡ value_at y u p) out fetched
        ∙ w.same_values (tlwe output) in
      (
        interleaves,
        subst (λ (v : y.Value). HoldsBit laws y codelet runs IsCmux v x) (sym here)
            (Performed-Stores order _ _ bits performed first.stores output x at),
      )
