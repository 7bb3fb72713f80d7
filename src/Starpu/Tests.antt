-- ===== src/Starpu/Tests.antt =====
-- Two tasks that touch nothing in common, and one that reads what both write.
use tangor.Base.{ℕ, ◌≡◌, refl, true, false, [], ◌∷◌, some}
use tangor.Tfhe.{phase, bootstrap_fn}
use tangor.Tfhe.Clear.{clear}
use tangor.Codelets.{cl_hom_not, cl_hom_and, cpu_worker, cuda_worker, run_codelet}
use tangor.Starpu.{
  Handle, Placed, cipherin, cipherout, cipherwire, Store, update, exec, in_order, Run, done, take,
}
use tangor.Starpu.Order.{Run-in_order, in_order-Run}

abbrev input : ℕ → Handle
input i = record { vector = cipherin; index = i }

abbrev wire : ℕ → Handle
wire i = record { vector = cipherwire; index = i }

abbrev inverter : ℕ → Placed
inverter i = (
  record { codelet = cl_hom_not; output = wire i; inputs = input i ∷ []; priority = 0 },
  cuda_worker,
)

abbrev conjunction : Placed
conjunction = (
  record {
    codelet = cl_hom_and;
    output = record { vector = cipherout; index = 0 };
    inputs = wire 0 ∷ wire 1 ∷ [];
    priority = 1;
  },
  cpu_worker,
)

abbrev before : Store clear
before h = false

abbrev after : Store clear
after =
    update clear (update clear (update clear before (wire 0) true) (wire 1) true)
      (record { vector = cipherout; index = 0 }) true

-- The second task starts first.
swapped : Run clear (inverter 1 ∷ inverter 0 ∷ conjunction ∷ []) before after
unfolding exec run_codelet bootstrap_fn phase
swapped =
    take (inverter 1 ∷ []) (conjunction ∷ []) (inverter 0) refl (refl, tt) refl
      (take [] (conjunction ∷ []) (inverter 1) refl tt refl
        (take [] [] conjunction refl tt refl (done after)))

same_in_order : in_order clear (inverter 1 ∷ inverter 0 ∷ conjunction ∷ []) before ≡ some after
same_in_order = Run-in_order clear _ _ _ swapped

inverters-Run : Run clear (inverter 1 ∷ inverter 0 ∷ conjunction ∷ []) before after
inverters-Run =
    in_order-Run clear (inverter 1 ∷ inverter 0 ∷ conjunction ∷ []) before after same_in_order
