-- ===== src/Shim/Sequences.antt =====
-- Iyokan's calls of TFHEpp in a row, through include/iyokan-starpu-offload.hpp and the runtime of
-- src/iyokan-starpu-codelets.cpp.
use tangor.Base.{ℕ, ◌≡◌, refl, sym, subst, ◌∙◌, Bool, true, false, List, [], ◌∷◌, some}
use tangor.Tfhe.{Tfhe, TfheLaws}
use tangor.StarpuApi.{StarpuApi}
use tangor.StarpuApi.Memory.{Place, tlwe, Memory, MemoryLaws}
use tangor.Offload.Table.{IyokanCodelet}
use tangor.Iyokan.{value, Backend, ensure_starpu}
use tangor.Iyokan.Rules.{Ends, ends, stops, Ends-if, Ends-value}
use tangor.Iyokan.Tasks.{begin_iyokan_starpu_capture, synchronize_iyokan_starpu_capture}
use tangor.Iyokan.Calls.{run_call}
use tangor.Iyokan.Memory.Registry.{Throws}
use tangor.Iyokan.Sessions.{initial}
use tangor.Iyokan.Memory.{IsStarted, value_at, IsLinked}
use tangor.Iyokan.Memory.Assignments.{output_of, Admissible}
use tangor.Iyokan.Memory.Effects.{Captured, run_call-Carries, synchronize-Fetched}
use tangor.Iyokan.Memory.Starting.{configured, prepared-Starts}
use tangor.Shim.{HomCall, offloaded}
use tangor.Shim.Bits.{
  Bits, evaluate, evaluate_all, RunsGates, HoldsBit, Stores, Stores-same, Assigns-Stores,
}

module _ {api : StarpuApi} (codelet : IyokanCodelet → api.Codelet) where
  -- The calls return one after the other, without an exception.
  pub data Returned : List HomCall → Backend api → Backend api → Type 0 where
    no_calls : {b : Backend api} → Returned [] b b
    next_call :
        {b s u : Backend api} {calls : List HomCall} (fuel : ℕ) (call : HomCall)
        → run_call api fuel (offloaded api codelet call) b ≡ some (value tt, s)
        → Returned calls s u
        → Returned (call ∷ calls) b u

module _ {t : Tfhe} (laws : TfheLaws t) {api : StarpuApi} {y : Memory api} (starpu : MemoryLaws y)
    (codelet : IyokanCodelet → api.Codelet) (runs : RunsGates t y codelet)
    (IsCmux : y.Value → y.Value → y.Value → y.Value → Type 0) where
  abbrev pub AllAdmissible : List HomCall → Type 0
  AllAdmissible [] = Unit {0}
  AllAdmissible (c ∷ cs) = Admissible y IsCmux (offloaded api codelet c) × AllAdmissible cs

  -- A started runtime whose values encrypt the bits.
  pub record Encrypted (capture : Bool) (bits : Bits) (b : Backend api) : Type 0 where
    pub started : IsStarted b
    pub linked : IsLinked y b
    pub stores : Stores laws y codelet runs IsCmux (value_at y b) bits
    pub same_capture : b.capture_active ≡ capture

  call-Encrypted :
      (capture : Bool) (bits : Bits) (fuel : ℕ) (call : HomCall) (b s : Backend api)
      → Encrypted capture bits b
      → Admissible y IsCmux (offloaded api codelet call)
      → run_call api fuel (offloaded api codelet call) b ≡ some (value tt, s)
      → Encrypted capture (evaluate call bits) s
        × (capture ≡ true → Captured y IsCmux (output_of (offloaded api codelet call)) s)
        × (capture ≡ false
            → y.host s.machine (output_of (offloaded api codelet call))
              ≡ value_at y s (output_of (offloaded api codelet call)))
  call-Encrypted capture bits fuel call b s e admissible ran =
      let c =
        run_call-Carries y IsCmux starpu fuel (offloaded api codelet call) b s e.started e.linked
          admissible ran in
      (
        record {
          started = c.started;
          linked = c.linked;
          stores = Assigns-Stores laws y codelet runs IsCmux call _ _ bits c.assigns e.stores;
          same_capture = c.same_capture ∙ e.same_capture;
        },
        λ on. c.in_capture (e.same_capture ∙ on),
        λ off. c.in_memory (e.same_capture ∙ off),
      )

  pub Returned-Encrypted :
      (capture : Bool) (calls : List HomCall) (bits : Bits) (b s : Backend api)
      → Encrypted capture bits b
      → Returned codelet calls b s
      → AllAdmissible calls
      → Encrypted capture (evaluate_all calls bits) s
  Returned-Encrypted capture _ bits b _ e no_calls all = e
  Returned-Encrypted capture _ bits b s e (next_call {s = u} {calls = calls} fuel call ran rest)
        (a, all) =
      Returned-Encrypted capture calls (evaluate call bits) u s
        (call-Encrypted capture bits fuel call b u e a ran).0 rest all

  -- The first preparation of the runtime keeps what is in memory.
  pub prepared-Encrypted :
      (key cpus gpus : ℕ) (m : api.Machine) (b : Backend api) (bits : Bits)
      → Stores laws y codelet runs IsCmux (y.host m) bits
      → ensure_starpu api key (configured y cpus gpus m) ≡ (value tt, b)
      → Encrypted false bits b
  unfolding initial
  prepared-Encrypted key cpus gpus m b bits stored prepared =
      let begun = prepared-Starts y starpu key cpus gpus m b prepared in
      record {
        started = begun.started;
        linked = begun.linked;
        stores = Stores-same laws y codelet runs IsCmux bits begun.same_memory stored;
        same_capture = begun.same_capture;
      }

  -- Under the laws of TFHEpp and what StarPU documents: after the first preparation of the runtime
  -- and any calls of TFHEpp through the shim that came back without an exception, a further call
  -- that does so leaves in main memory, at the address of its output, an encryption of the bit that
  -- the calls as TFHEpp documents them give it, if the ciphertexts that were in memory at first
  -- encrypt the known bits; whatever the workers are and whenever StarPU runs the tasks. The output
  -- of each gate is none of its inputs, and that of a CMUX, whose codelets compute it, not both of
  -- its data inputs.
  pub offloaded_calls-Encrypts :
      (key cpus gpus fuel : ℕ) (m : api.Machine) (b s u : Backend api) (calls : List HomCall)
      (call : HomCall) (bits : Bits) (output : ℕ) (x : Bool)
      → Stores laws y codelet runs IsCmux (y.host m) bits
      → ensure_starpu api key (configured y cpus gpus m) ≡ (value tt, b)
      → AllAdmissible calls
      → Returned codelet calls b s
      → Admissible y IsCmux (offloaded api codelet call)
      → run_call api fuel (offloaded api codelet call) s ≡ some (value tt, u)
      → output_of (offloaded api codelet call) ≡ tlwe output
      → evaluate call (evaluate_all calls bits) output ≡ some x
      → HoldsBit laws y codelet runs IsCmux (y.host u.machine (tlwe output)) x
  offloaded_calls-Encrypts key cpus gpus fuel m b s u calls call bits output x stored prepared all
        returned admissible ran out at =
      let first = prepared-Encrypted key cpus gpus m b bits stored prepared in
      let before = Returned-Encrypted false calls bits b s first returned all in
      let (after, _, in_memory) =
        call-Encrypted false (evaluate_all calls bits) fuel call s u before admissible ran in
      let here : y.host u.machine (tlwe output) ≡ value_at y u (tlwe output) =
        subst (λ (p : Place). y.host u.machine p ≡ value_at y u p) out (in_memory refl) in
      subst (λ (v : y.Value). HoldsBit laws y codelet runs IsCmux v x) (sym here)
        (after.stores output x at)

  begin-Encrypted :
      (bits : Bits) (b : Backend api)
      → Encrypted false bits b
      → Ends (λ _ s. Encrypted true bits s) (Throws y) (begin_iyokan_starpu_capture api b)
  unfolding begin_iyokan_starpu_capture
  begin-Encrypted bits b e =
      Ends-if b.capture_active (λ _. stops tt)
        λ _. ends (record {
          started = e.started;
          linked = e.linked;
          stores = e.stores;
          same_capture = refl;
        })

  -- Under the laws of TFHEpp and what StarPU documents: in a started runtime outside of a capture
  -- whose values encrypt the known bits, any calls of TFHEpp through the shim between the begin of a
  -- capture and its synchronization, if all of these come back without an exception, leave in main
  -- memory, at the address of the last output, an encryption of the bit that the calls as TFHEpp
  -- documents them give it, and leave every known bit encrypted for what is submitted later. The
  -- output of each gate is none of its inputs, and that of a CMUX, whose codelets compute it, not
  -- both of its data inputs.
  pub captured_calls-Encrypts :
      (fuel wait : ℕ) (b b₁ s u v : Backend api) (calls : List HomCall) (call : HomCall)
      (bits : Bits) (output : ℕ) (x : Bool)
      → Encrypted false bits b
      → begin_iyokan_starpu_capture api b ≡ (value tt, b₁)
      → AllAdmissible calls
      → Returned codelet calls b₁ s
      → Admissible y IsCmux (offloaded api codelet call)
      → run_call api fuel (offloaded api codelet call) s ≡ some (value tt, u)
      → synchronize_iyokan_starpu_capture api wait u ≡ some (value tt, v)
      → output_of (offloaded api codelet call) ≡ tlwe output
      → evaluate call (evaluate_all calls bits) output ≡ some x
      → HoldsBit laws y codelet runs IsCmux (y.host v.machine (tlwe output)) x
        × Encrypted true (evaluate call (evaluate_all calls bits)) v
  captured_calls-Encrypts fuel wait b b₁ s u v calls call bits output x e begun all returned
        admissible ran waited out at =
      let first : Encrypted true bits b₁ = Ends-value tt b₁ (begin-Encrypted bits b e) begun in
      let before = Returned-Encrypted true calls bits b₁ s first returned all in
      let (after, captured, _) =
        call-Encrypted true (evaluate_all calls bits) fuel call s u before admissible ran in
      let (w, fetched) =
        synchronize-Fetched y IsCmux starpu wait (output_of (offloaded api codelet call)) u v
          after.linked after.same_capture (captured refl) waited in
      let ended : Encrypted true (evaluate call (evaluate_all calls bits)) v = record {
        started = w.same_once ∙ after.started;
        linked = w.linked;
        stores = Stores-same laws y codelet runs IsCmux _ w.same_values after.stores;
        same_capture = w.same_capture ∙ after.same_capture;
      } in
      let here : y.host v.machine (tlwe output) ≡ value_at y v (tlwe output) =
        subst (λ (p : Place). y.host v.machine p ≡ value_at y v p) out fetched in
      (
        subst (λ (n : y.Value). HoldsBit laws y codelet runs IsCmux n x) (sym here)
            (ended.stores output x at),
        ended,
      )
