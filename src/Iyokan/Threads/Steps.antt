-- ===== src/Iyokan/Threads/Steps.antt =====
-- A step of one thread of src/iyokan-starpu-codelets.cpp, for the values and for the other threads.
use mathlib.Core.List.{append_assoc, append-nil}
use tangor.Base.{ℕ, ◌≡◌, refl, sym, subst, ◌∙◌, List, [], ◌∷◌, ◌++◌, Option, none, some}
use tangor.StarpuApi.{Access, StarpuApi}
use tangor.StarpuApi.Memory.{Place, tlwe, variable, Memory, MemoryLaws}
use tangor.Iyokan.{value, Backend}
use tangor.Iyokan.Rules.{Ends, Ends-value}
use tangor.Iyokan.Tasks.{insert_task, yield_once}
use tangor.Iyokan.Calls.{Call, gate, not_gate, cmux_fft, mux_wo_se}
use tangor.Iyokan.Memory.{IsStarted, value_at, IsLinked, Extends}
use tangor.Iyokan.Memory.Registry.{
  Gets, Throws, persistent_handle_for-Gets, persistent_variable_handle_for-Gets,
}
use tangor.Iyokan.Memory.Operands.{Bound, nothing, Bound-Keeps, Bound-snoc}
use tangor.Iyokan.Memory.Insertion.{insert_task-Submitted}
use tangor.Iyokan.Memory.Waited.{
  Waits, synchronize_output-Fetched, yield_once-Waits, yield_once-HasOutput,
}
use tangor.Iyokan.Memory.Entries.{ensure_starpu_runtime-Extends, ensure_starpu-Extends}
use tangor.Iyokan.Memory.Assignments.{output_of, Admissible, Assigns}
use tangor.Iyokan.Threads.{
  codelet_of, operands_of, ensure_for, register, Thread, submitted, ThreadStep, begins, registers,
  submits, yields, synchronizes, captures,
}
use tangor.Iyokan.Threads.Tasks.{IsTaskOf, call-IsTaskOf}
use tangor.Iyokan.Threads.Carried.{
  Carry, Carry-same, insert_task-Carry, synchronize_output-Carry, Good, Good-Carry,
}

module _ {api : StarpuApi} (y : Memory api) where
  module _ (laws : MemoryLaws y) where
    ensure_for-Extends :
        (call : Call api) (b : Backend api)
        → IsStarted b
        → IsLinked y b
        → Ends (λ r s. Extends y b s) (Throws y) (ensure_for call b)
    unfolding ensure_for
    ensure_for-Extends (gate codelet output inputs key) b on l = ensure_starpu-Extends y key b on l
    ensure_for-Extends (not_gate codelet output input) b on l =
        ensure_starpu_runtime-Extends y b on l
    ensure_for-Extends (cmux_fft codelets output select when_true when_false) b on l =
        ensure_starpu_runtime-Extends y b on l
    ensure_for-Extends (mux_wo_se codelet output inputs key) b on l =
        ensure_starpu-Extends y key b on l

    register-Gets :
        (p : Place) (b : Backend api) → IsLinked y b → Ends (Gets y b p) (Throws y) (register p b)
    unfolding register
    register-Gets (tlwe a) b l = persistent_handle_for-Gets y laws a b l
    register-Gets (variable a) b l = persistent_variable_handle_for-Gets y laws a b l

    module _ (IsCmux : y.Value → y.Value → y.Value → y.Value → Type 0) where
      -- What a step does to the values: nothing, or the assignment of the submitted call.
      abbrev pub Effect :
          {L : Type 0} → (L → Call api) → Option L → (Place → y.Value) → (Place → y.Value) → Type 0
      Effect call none μ ν = (p : Place) → ν p ≡ μ p
      Effect call (some c) μ ν = Assigns y IsCmux (call c) μ ν

      pub record Advances {L : Type 0} (call : L → Call api) (b : Backend api) (o : Option L)
          (u : Thread call) (s : Backend api) : Type 0 where
        pub started : IsStarted s
        pub linked : IsLinked y s
        pub carry : Carry y b s
        pub effect : Effect call o (value_at y b) (value_at y s)
        pub good : Good y call s u

      module _ {L : Type 0} (call : L → Call api) where
        quiet :
            {b s : Backend api} {u : Thread call}
            → IsStarted b
            → Extends y b s
            → Good y call s u
            → Advances call b none u s
        quiet on e g = record {
          started = e.same_once ∙ on;
          linked = e.linked;
          carry = Carry-same y e.keeps e.same_states;
          effect = e.same_values;
          good = g;
        }

        waiting :
            {b s : Backend api} {u : Thread call}
            → IsStarted b
            → Waits y b s
            → Carry y b s
            → Good y call s u
            → Advances call b none u s
        waiting on w k g = record {
          started = w.same_once ∙ on;
          linked = w.linked;
          carry = k;
          effect = w.same_values;
          good = g;
        }

        submits-Advances :
            (c : L) (cs : List L) (got : List (Access × ℕ)) (task : ℕ) (b s : Backend api)
            → IsStarted b
            → IsLinked y b
            → IsTaskOf y IsCmux (call c)
            → Bound y b (operands_of (call c)) got
            → insert_task api (codelet_of (call c)) got b ≡ (value task, s)
            → Advances call b (some c) (submitted c task cs) s
        submits-Advances c cs got task b s on l k held e =
            let p = output_of (call c) in
            let held' =
              subst (λ (ps : List (Access × Place)). Bound y b ps got) k.output_first held in
            let m =
              Ends-value task s
                (insert_task-Submitted y laws (codelet_of (call c)) k.mode p k.others got b l held'
                  k.only_reads)
                e in
            record {
              started = m.same_once ∙ on;
              linked = m.linked;
              carry = Ends-value task s (insert_task-Carry y (codelet_of (call c)) got b) e;
              effect = record { yields = k.yields (value_at y b) _ m.computes; others = m.others };
              good = (m.output, m.is_output, m.has_output);
            }

        -- What each step does, under what StarPU documents.
        pub ThreadStep-Advances :
            {t u : Thread call} {b s : Backend api} {o : Option L}
            → ((c : L) → Admissible y IsCmux (call c))
            → IsStarted b
            → IsLinked y b
            → ThreadStep call t b o u s
            → Good y call b t
            → Advances call b o u s
        ThreadStep-Advances adm on l (begins {c = c} {b = b} {s = s} e) g =
            quiet on (Ends-value tt s (ensure_for-Extends (call c) b on l) e) ([], nothing, refl)
        ThreadStep-Advances adm on l
              (registers {got = got} {mode = mode} {p = p} {rest = rest} {h = h} {b = b} {s = s} e)
              (before, held, whole) =
            let (ext, at) = Ends-value h s (register-Gets p b l) e in
            quiet on ext (
              before ++ (mode, p) ∷ [],
              Bound-snoc y mode p h at (Bound-Keeps y ext.keeps held),
              append_assoc before ((mode, p) ∷ []) rest ∙ whole,
            )
        ThreadStep-Advances adm on l
              (submits {c = c} {cs = cs} {got = got} {task = task} {b = b} {s = s} e)
              (before, held, whole) =
            submits-Advances c cs got task b s on l (call-IsTaskOf y IsCmux (call c) (adm c))
              (subst (λ (ps : List (Access × Place)). Bound y b ps got)
                (sym (append-nil before) ∙ whole) held)
              e
        ThreadStep-Advances adm on l (yields {c = c} {cs = cs} {task = task} {b = b}) g =
            let k : Carry y b (yield_once api b) = record {
              keeps = λ p h at. (yield_once-Waits y laws b l).same_registered p ∙ at;
              keeps_tasks = λ n h o. yield_once-HasOutput y laws n h b o;
            } in
            waiting on (yield_once-Waits y laws b l) k (Good-Carry y call (submitted c task cs) k g)
        ThreadStep-Advances adm on l (synchronizes {c = c} {task = task} {b = b} {s = s} finished e)
              (h, at, o) =
            let p = output_of (call c) in
            let (w, fetch) =
              Ends-value tt s (synchronize_output-Fetched y laws task h p b l at o) e in
            waiting on w (Ends-value tt s (synchronize_output-Carry y task b) e) tt
        ThreadStep-Advances adm on l (captures {b = b}) g = record {
          started = on;
          linked = l;
          carry = Carry-same y (λ p h at. at) refl;
          effect = λ p. refl;
          good = tt;
        }
