-- ===== src/Iyokan/Memory/Calls.antt =====
-- The values after the submissions of src/iyokan-starpu-codelets.cpp.
use tangor.Base.{ℕ, ◌≡◌, ◌≢◌, refl, ap, subst, ◌∙◌, List, [], ◌∷◌, map}
use mathlib.Core.Path.{fun_ext}
use tangor.StarpuApi.{Access, starpu_w, starpu_r, StarpuApi}
use tangor.StarpuApi.Memory.{Place, tlwe, variable, Memory, MemoryLaws, reads, OnlyReads}
use tangor.Iyokan.{Backend}
use tangor.Iyokan.Rules.{Ends, Ends-then_do, Ends-mono}
use tangor.Iyokan.Tasks.{write_first, submit_async, submit_variable_async, submit_mux_wo_se_async}
use tangor.Iyokan.Memory.{value_at, IsLinked, Extends}
use tangor.Iyokan.Memory.Registry.{Throws}
use tangor.Iyokan.Memory.Operands.{
  written, variables, Bound, Bound-write_first, handles_for-AllRegistered,
  variable_handles_for-Bound, mux_wo_se-AllRegistered,
}
use tangor.Iyokan.Memory.Insertion.{Submitted, insert_task-Submitted}

-- No place of the list is `p`.
abbrev pub Avoids : Place → List Place → Type 0
Avoids p [] = Unit {0}
Avoids p (q ∷ qs) = (q ≢ p) × Avoids p qs

pub written-OnlyReads :
    (p : Place) (qs : List Place) → Avoids p qs → OnlyReads p (map (λ q. (starpu_r, q)) qs)
written-OnlyReads p [] a = tt
written-OnlyReads p (q ∷ qs) (ne, a) = (ne, written-OnlyReads p qs a)

pub reads-written : (qs : List Place) → reads (map (λ q. (starpu_r, q)) qs) ≡ qs
reads-written [] = refl
reads-written (q ∷ qs) = ap (λ (ps : List Place). q ∷ ps) (reads-written qs)

module _ {api : StarpuApi} (y : Memory api) where
  pub Submitted-Extends :
      {codelet : api.Codelet} {p : Place} {sources : List Place} {b s : Backend api} {task : ℕ}
      {u : Backend api}
      → Extends y b s
      → Submitted y codelet p sources s task u
      → Submitted y codelet p sources b task u
  Submitted-Extends {codelet = codelet} {p = p} {sources = sources} {u = u} e m = record {
    linked = m.linked;
    computes =
        subst (λ (μ : Place → y.Value). y.Computes codelet (map μ sources) (value_at y u p))
          (fun_ext e.same_values) m.computes;
    others = λ q ne. m.others q ne ∙ e.same_values q;
    output = m.output;
    is_output = m.is_output;
    has_output = m.has_output;
    same_capture = m.same_capture ∙ e.same_capture;
    same_once = m.same_once ∙ e.same_once;
  }

  module _ (laws : MemoryLaws y) where
    pub submit_async-Submitted :
        (codelet : api.Codelet) (output : ℕ) (inputs : List ℕ) (b : Backend api)
        → IsLinked y b
        → Avoids (tlwe output) (map tlwe inputs)
        → Ends
            (Submitted y codelet (tlwe output) (reads (written (tlwe output) (map tlwe inputs))) b)
            (Throws y)
            (submit_async api codelet (output ∷ inputs) b)
    unfolding submit_async
    submit_async-Submitted codelet output inputs b l avoids =
        Ends-then_do (handles_for-AllRegistered y laws (output ∷ inputs) b l) λ hs s (e, found).
          Ends-mono
            (insert_task-Submitted y laws codelet starpu_w (tlwe output) _ (write_first api hs) s
              e.linked (Bound-write_first y s (tlwe output) (map tlwe inputs) hs found)
              (written-OnlyReads _ _ avoids))
            λ task u. Submitted-Extends e

    pub submit_mux_wo_se_async-Submitted :
        (codelet : api.Codelet) (output : ℕ) (inputs : List ℕ) (b : Backend api)
        → IsLinked y b
        → Avoids (variable output) (map tlwe inputs)
        → Ends
            (Submitted y codelet
              (variable output)
              (reads (written (variable output) (map tlwe inputs)))
              b)
            (Throws y)
            (submit_mux_wo_se_async api codelet output inputs b)
    unfolding submit_mux_wo_se_async
    submit_mux_wo_se_async-Submitted codelet output inputs b l avoids =
        Ends-then_do (mux_wo_se-AllRegistered y laws output inputs b l) λ o s ((e, found), rest).
          Ends-then_do rest λ hs s' (e', all).
            Ends-mono
              (insert_task-Submitted y laws codelet starpu_w (variable output) _
                (write_first api (o ∷ hs)) s' e'.linked
                (Bound-write_first y s' (variable output) (map tlwe inputs) (o ∷ hs) all)
                (written-OnlyReads _ _ avoids))
              λ task u. Submitted-Extends e'

    pub submit_variable_async-Submitted :
        (codelet : api.Codelet) (values : List (Access × ℕ)) (mode : Access) (p : Place)
        (operands : List (Access × Place)) (b : Backend api)
        → IsLinked y b
        → variables values ≡ (mode, p) ∷ operands
        → OnlyReads p operands
        → Ends
            (Submitted y codelet p (reads ((mode, p) ∷ operands)) b)
            (Throws y)
            (submit_variable_async api codelet values b)
    unfolding submit_variable_async
    submit_variable_async-Submitted codelet values mode p operands b l shape only =
        Ends-then_do (variable_handles_for-Bound y laws values b l) λ hs s (e, found).
          Ends-mono
            (insert_task-Submitted y laws codelet mode p operands hs s e.linked
              (subst (λ (os : List (Access × Place)). Bound y s os hs) shape found) only)
            λ task u. Submitted-Extends e
