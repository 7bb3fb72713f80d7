-- ===== src/Codelets/Tests.antt =====
-- Codelets on bits in the clear.
use tangor.Base.{◌≡◌, refl, Bool, true, false, xor, [], ◌∷◌, some}
use tangor.Tfhe.Clear.{clear, clear_laws}
use tangor.Codelets.{cl_hom_xnor, cl_hom_nmux, cpu_worker, run_codelet, modes, starpu_w, starpu_r}
use tangor.Codelets.Meaning.{run_codelet-Yields, codelet_fn, apply_fn}

run_codelet-Yields_example :
    (out : Bool) × (run_codelet clear cpu_worker cl_hom_xnor (true ∷ false ∷ []) ≡ some out)
    × (out ≡ false)
unfolding codelet_fn apply_fn xor
run_codelet-Yields_example =
    run_codelet-Yields clear_laws cpu_worker cl_hom_xnor (true ∷ false ∷ []) (true ∷ false ∷ [])
      false (refl, (refl, tt)) refl

nmux_modes : modes cl_hom_nmux ≡ starpu_w ∷ starpu_r ∷ starpu_r ∷ starpu_r ∷ []
unfolding modes
nmux_modes = refl
