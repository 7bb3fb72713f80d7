-- ===== src/Iyokan/Threads/Tasks.antt =====
-- The operands of each entry point of src/iyokan-starpu-codelets.cpp against its assignment.
use tangor.Base.{◌≡◌, refl, List, [], ◌∷◌, map}
use tangor.StarpuApi.{Access, starpu_w, starpu_r, StarpuApi}
use tangor.StarpuApi.Memory.{Place, tlwe, Memory, reads, OnlyReads}
use tangor.Iyokan.Calls.{Call, gate, not_gate, cmux_fft, mux_wo_se}
use tangor.Iyokan.Memory.Calls.{written-OnlyReads, reads-written}
use tangor.Iyokan.Memory.Assignments.{output_of, Admissible, Yields, cmux_task-IsCmuxTask}
use tangor.Iyokan.Threads.{codelet_of, operands_of}

module _ {api : StarpuApi} (y : Memory api)
    (IsCmux : y.Value → y.Value → y.Value → y.Value → Type 0) where
  -- The output comes first, the others are read, and what the codelet computes is what the call
  -- yields.
  pub record IsTaskOf (call : Call api) : Type 0 where
    pub mode : Access
    pub others : List (Access × Place)
    pub output_first : operands_of call ≡ (mode, output_of call) ∷ others
    pub only_reads : OnlyReads (output_of call) others
    pub yields :
        (μ : Place → y.Value) (v : y.Value)
        → y.Computes (codelet_of call) (map μ (reads ((mode, output_of call) ∷ others))) v
        → Yields y IsCmux call μ v

  reads-Computes :
      (codelet : api.Codelet) (ps : List Place) (μ : Place → y.Value) (v : y.Value)
      → y.Computes codelet (map μ (reads (map (λ q. (starpu_r, q)) ps))) v
      → y.Computes codelet (map μ ps) v
  reads-Computes codelet ps μ v c = rw (reads-written ps) at c

  pub call-IsTaskOf : (call : Call api) → Admissible y IsCmux call → IsTaskOf call
  unfolding codelet_of operands_of
  call-IsTaskOf (gate codelet output inputs key) avoids = record {
    mode = starpu_w;
    others = map (λ q. (starpu_r, q)) (map tlwe inputs);
    output_first = refl;
    only_reads = written-OnlyReads _ _ avoids;
    yields = reads-Computes codelet (map tlwe inputs);
  }
  call-IsTaskOf (not_gate codelet output input) avoids = record {
    mode = starpu_w;
    others = (starpu_r, tlwe input) ∷ [];
    output_first = refl;
    only_reads = avoids;
    yields = λ μ v c. c;
  }
  call-IsTaskOf (cmux_fft codelets output select when_true when_false) (table, ne, apart) =
      let (mode, others, shape, only, cmux) =
        cmux_task-IsCmuxTask y IsCmux codelets output select when_true when_false table ne apart in
      record {
        mode = mode;
        others = others;
        output_first = shape;
        only_reads = only;
        yields = cmux;
      }
  call-IsTaskOf (mux_wo_se codelet output inputs key) avoids = record {
    mode = starpu_w;
    others = map (λ q. (starpu_r, q)) (map tlwe inputs);
    output_first = refl;
    only_reads = written-OnlyReads _ _ avoids;
    yields = reads-Computes codelet (map tlwe inputs);
  }
