-- ===== src/Iyokan/Memory/Entries.antt =====
-- The entry points of src/iyokan-starpu-codelets.cpp carry out their assignments.
use tangor.Base.{ℕ, refl, sym, ◌∙◌, ◌==◌, List, [], ◌∷◌, map, Holds-if, Holds-option, if◌then◌else◌}
use tangor.StarpuApi.{starpu_r, StarpuApi}
use tangor.StarpuApi.Memory.{Place, tlwe, variable, Memory, MemoryLaws, reads}
use tangor.Iyokan.{
  value, throws, Backend, init_once, ensure_starpu_runtime, claim_key, ensure_starpu, is_zero,
  not_initialized,
}
use tangor.Iyokan.Rules.{Ends, ends, stops, Ends-then_do, Ends-mono, Ends-if}
use tangor.Iyokan.Calls.{Call, gate, not_gate, cmux_fft, mux_wo_se, submission}
use tangor.Iyokan.Memory.{IsStarted, value_at, IsLinked, Extends}
use tangor.Iyokan.Memory.Registry.{Extends-refl, Extends-trans, Throws}
use tangor.Iyokan.Memory.Insertion.{Submitted}
use tangor.Iyokan.Memory.Calls.{
  reads-written, Submitted-Extends, submit_async-Submitted, submit_mux_wo_se_async-Submitted,
  submit_variable_async-Submitted,
}
use tangor.Iyokan.Memory.Assignments.{output_of, Admissible, Yields, cmux_task-IsCmuxTask}

module _ {api : StarpuApi} (y : Memory api) where
  pub ensure_starpu_runtime-Extends :
      (b : Backend api)
      → IsStarted b
      → IsLinked y b
      → Ends (λ _ s. Extends y b s) (Throws y) (ensure_starpu_runtime api b)
  unfolding ensure_starpu_runtime
  ensure_starpu_runtime-Extends b on l =
      Holds-if
        (λ (s : Backend api).
          Ends (λ _ u. Extends y b u) (Throws y)
            (if is_zero s.starpu_init_status then (value tt, s) else (throws not_initialized, s)))
        b.starpu_init_once b (init_once api b)
        (λ _.
          Ends-if (is_zero b.starpu_init_status) (λ _. ends (Extends-refl y b l)) (λ _. stops tt))
        λ off. let both = sym on ∙ off in cc

  pub claim_key-Extends :
      (key : ℕ) (b : Backend api)
      → IsLinked y b
      → Ends (λ _ s. Extends y b s) (Throws y) (claim_key api key b)
  unfolding claim_key
  claim_key-Extends key b l =
      Holds-option (Ends (λ _ s. Extends y b s) (Throws y)) b.current_eval_key _ _
        (λ _. ends (record {
          linked = l;
          same_values = λ p. refl;
          keeps = λ p h e. e;
          same_states = refl;
          same_capture = refl;
          same_once = refl;
        }))
        λ k _. Ends-if (k == key) (λ _. ends (Extends-refl y b l)) (λ _. stops tt)

  pub ensure_starpu-Extends :
      (key : ℕ) (b : Backend api)
      → IsStarted b
      → IsLinked y b
      → Ends (λ _ s. Extends y b s) (Throws y) (ensure_starpu api key b)
  unfolding ensure_starpu
  ensure_starpu-Extends key b on l =
      Ends-then_do (ensure_starpu_runtime-Extends b on l)
        λ _ s e. Ends-mono (claim_key-Extends key s e.linked) λ _ u e'. Extends-trans y e e'

  -- The values that a vector task reads are those of its inputs.
  reads-inputs :
      (codelet : api.Codelet) (b : Backend api) (ps : List Place) (v : y.Value)
      → y.Computes codelet (map (value_at y b) (reads (map (λ q. (starpu_r, q)) ps))) v
      → y.Computes codelet (map (value_at y b) ps) v
  reads-inputs codelet b ps v c = rw (reads-written ps) at c

module _ {api : StarpuApi} (y : Memory api)
    (IsCmux : y.Value → y.Value → y.Value → y.Value → Type 0) where
  -- The submission of a call, with the state before it.
  abbrev pub Performs : Call api → Backend api → ℕ → Backend api → Type 0
  Performs call b task s =
      (codelet : api.Codelet) × (sources : List Place) × Submitted y codelet (output_of call)
        sources b task s
      × Yields y IsCmux call (value_at y b) (value_at y s (output_of call))

  module _ (laws : MemoryLaws y) where
    pub submission-Performs :
        (call : Call api) (b : Backend api)
        → IsStarted b
        → IsLinked y b
        → Admissible y IsCmux call
        → Ends (Performs call b) (Throws y) (submission api call b)
    unfolding submission
    submission-Performs (gate codelet output inputs key) b on l avoids =
        Ends-then_do (ensure_starpu-Extends y key b on l) λ _ s e.
          Ends-mono (submit_async-Submitted y laws codelet output inputs s e.linked avoids)
            λ task u m.
              let m' = Submitted-Extends y e m in
              (_, _, m', reads-inputs y codelet b (map tlwe inputs) _ m'.computes)
    submission-Performs (not_gate codelet output input) b on l avoids =
        Ends-then_do (ensure_starpu_runtime-Extends y b on l) λ _ s e.
          Ends-mono (submit_async-Submitted y laws codelet output (input ∷ []) s e.linked avoids)
            λ task u m. let m' = Submitted-Extends y e m in (_, _, m', m'.computes)
    submission-Performs (cmux_fft codelets output select when_true when_false) b on l
          (table, ne, apart) =
        let (mode, operands, shape, only, cmux) =
          cmux_task-IsCmuxTask y IsCmux codelets output select when_true when_false table ne
            apart in
        Ends-then_do (ensure_starpu_runtime-Extends y b on l) λ _ s e.
          Ends-mono
            (submit_variable_async-Submitted y laws _ _ mode (variable output) operands s e.linked
              shape only)
            λ task u m. let m' = Submitted-Extends y e m in (_, _, m', cmux _ _ m'.computes)
    submission-Performs (mux_wo_se codelet output inputs key) b on l avoids =
        Ends-then_do (ensure_starpu-Extends y key b on l) λ _ s e.
          Ends-mono
            (submit_mux_wo_se_async-Submitted y laws codelet output inputs s e.linked avoids)
            λ task u m.
              let m' = Submitted-Extends y e m in
              (_, _, m', reads-inputs y codelet b (map tlwe inputs) _ m'.computes)
