-- ===== src/Iyokan/Memory/Assignments.antt =====
-- The entry points of src/iyokan-starpu-codelets.cpp as assignments, as if TFHEpp had been called with the
-- values in memory; and the operands of a CMUX.
use tangor.Base.{ℕ, ◌≡◌, ◌≢◌, refl, sym, ap, ◌==◌, ==→eq, ==→ne, List, [], ◌∷◌, map, Holds-if}
use tangor.StarpuApi.{Access, starpu_w, starpu_rw, StarpuApi}
use tangor.StarpuApi.Memory.{Place, tlwe, variable, Memory, reads, OnlyReads}
use tangor.Offload.{
  CmuxCodelet, cmux_fft_codelet, cmux_fft_in_place_true_codelet, cmux_fft_in_place_false_codelet,
  CmuxTask, Buffer, cmux_task,
}
use tangor.Iyokan.Calls.{Call, gate, not_gate, cmux_fft, mux_wo_se, address}
use tangor.Iyokan.Memory.Operands.{variables}
use tangor.Iyokan.Memory.Calls.{Avoids}

abbrev pub output_of : {api : StarpuApi} → Call api → Place
output_of (gate codelet output inputs key) = tlwe output
output_of (not_gate codelet output input) = tlwe output
output_of (cmux_fft codelets output select when_true when_false) = variable output
output_of (mux_wo_se codelet output inputs key) = variable output

module _ {api : StarpuApi} (y : Memory api)
    (IsCmux : y.Value → y.Value → y.Value → y.Value → Type 0) where
  -- What the three codelets of the CMUX promise: selector, value for true, value for false, result.
  pub record ComputesCmux (codelets : CmuxCodelet → api.Codelet) : Type 0 where
    pub plain :
        (s a b v : y.Value)
        → y.Computes (codelets cmux_fft_codelet) (s ∷ a ∷ b ∷ []) v
        → IsCmux s a b v
    pub in_place_true :
        (s a b v : y.Value)
        → y.Computes (codelets cmux_fft_in_place_true_codelet) (a ∷ s ∷ b ∷ []) v
        → IsCmux s a b v
    pub in_place_false :
        (s a b v : y.Value)
        → y.Computes (codelets cmux_fft_in_place_false_codelet) (b ∷ s ∷ a ∷ []) v
        → IsCmux s a b v

  -- The output is none of the inputs. Only a CMUX may have one of its data inputs for output.
  abbrev pub Admissible : Call api → Type 0
  Admissible (gate codelet output inputs key) = Avoids (tlwe output) (map tlwe inputs)
  Admissible (not_gate codelet output input) = Avoids (tlwe output) (tlwe input ∷ [])
  Admissible (cmux_fft codelets output select when_true when_false) =
      ComputesCmux codelets × (select ≢ output) × (output ≡ when_true → output ≢ when_false)
  Admissible (mux_wo_se codelet output inputs key) = Avoids (variable output) (map tlwe inputs)

  -- What a call makes of the values before it.
  abbrev pub Yields : Call api → (Place → y.Value) → y.Value → Type 0
  Yields (gate codelet output inputs key) μ v = y.Computes codelet (map μ (map tlwe inputs)) v
  Yields (not_gate codelet output input) μ v = y.Computes codelet (μ (tlwe input) ∷ []) v
  Yields (cmux_fft codelets output select when_true when_false) μ v =
      IsCmux (μ (variable select)) (μ (variable when_true)) (μ (variable when_false)) v
  Yields (mux_wo_se codelet output inputs key) μ v = y.Computes codelet (map μ (map tlwe inputs)) v

  -- The call as an assignment.
  pub record Assigns (call : Call api) (before after : Place → y.Value) : Type 0 where
    pub yields : Yields call before (after (output_of call))
    pub others : (q : Place) → q ≢ output_of call → after q ≡ before q

  -- The operands of a CMUX, whatever aliases it has.
  abbrev IsCmuxTask : (CmuxCodelet → api.Codelet) → ℕ → ℕ → ℕ → ℕ → CmuxTask → Type 0
  IsCmuxTask codelets o s a b task =
      (mode : Access) × (operands : List (Access × Place)) × (variables
          (map (λ (x : Access × Buffer). (x.0, address x.1)) task.buffers)
        ≡ (mode, variable o) ∷ operands)
      × OnlyReads (variable o) operands
      × ((μ : Place → y.Value) (v : y.Value)
          → y.Computes (codelets task.codelet) (map μ (reads ((mode, variable o) ∷ operands))) v
          → IsCmux (μ (variable s)) (μ (variable a)) (μ (variable b)) v)

  variable-ne : (a b : ℕ) → a ≢ b → variable a ≢ variable b
  variable-ne a b ne e = ne (ap address_of e)
    where
      address_of : Place → ℕ
      address_of (tlwe n) = n
      address_of (variable n) = n

  pub cmux_task-IsCmuxTask :
      (codelets : CmuxCodelet → api.Codelet) (o s a b : ℕ)
      → ComputesCmux codelets
      → s ≢ o
      → (o ≡ a → o ≢ b)
      → IsCmuxTask codelets o s a b (cmux_task o s a b)
  unfolding cmux_task
  cmux_task-IsCmuxTask codelets o s a b table ne apart =
      Holds-if (IsCmuxTask codelets o s a b) (o == a) _ _
        (λ e.
          let same = ==→eq o a e in
          (
            starpu_rw,
            _,
            refl,
            (variable-ne s o ne, (variable-ne b o (λ e'. apart same (sym e')), tt)),
            λ μ v c. table.in_place_true _ _ _ v (rw (← same) c),
          ))
        λ e.
          Holds-if (IsCmuxTask codelets o s a b) (o == b) _ _
            (λ e'.
              let same = ==→eq o b e' in
              (
                starpu_rw,
                _,
                refl,
                (variable-ne s o ne, (variable-ne a o (λ d. ==→ne o a e (sym d)), tt)),
                λ μ v c. table.in_place_false _ _ _ v (rw (← same) c),
              ))
            λ e'. (
              starpu_w,
              _,
              refl,
              (
                variable-ne s o ne,
                (
                  variable-ne a o (λ d. ==→ne o a e (sym d)),
                  (variable-ne b o (λ d. ==→ne o b e' (sym d)), tt),
                ),
              ),
              λ μ v c. table.plain _ _ _ v c,
            )
