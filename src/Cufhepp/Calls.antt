-- ===== src/Cufhepp/Calls.antt =====
-- The order of the calls of cuFHEpp that src/iyokan-cufhepp-starpu.cu makes.
use tangor.Base.{Holds-if, Holds-option, ◌==◌, subst, ℕ, Bool, true, false, List, [], ◌∷◌}
use tangor.Cufhepp.{
  CudaCall, set_gpu_num, initialize, clean_up, at_exit, Devices, Cufhepp, usable_devices,
  cufhepp_clean_up, initialize_iyokan_cufhepp,
}

-- A request in a process: the function `initializeIyokanCufhepp`, whatever StarPU and CUDA answer
-- then, or `cleanupIyokanCufhepp`.
pub data Step : Type 0 where
  start : Devices → ℕ → Step
  stop : Step

abbrev pub step : Step → Cufhepp → Cufhepp
step (start d key) s = (initialize_iyokan_cufhepp d key s).1
step stop s = cufhepp_clean_up s

abbrev pub steps : List Step → Cufhepp → Cufhepp
steps [] s = s
steps (x ∷ xs) s = steps xs (step x s)

-- Whether cuFHEpp is initialized after calls in an order that it permits: `CleanUp` only after
-- `Initialize`, and a second `Initialize` only after a `CleanUp`.
pub data Permitted : List CudaCall → Bool → Type 0 where
  no_calls : Permitted [] false
  initializes :
      {key n : ℕ} {calls : List CudaCall}
      → Permitted calls false
      → Permitted (at_exit ∷ initialize key ∷ set_gpu_num n ∷ calls) true
  cleans_up : {calls : List CudaCall} → Permitted calls true → Permitted (clean_up ∷ calls) false

abbrev pub IsPermitted : Cufhepp → Type 0
IsPermitted s = Permitted s.calls s.initialized

initialize-IsPermitted :
    (d : Devices) (key : ℕ) (s : Cufhepp)
    → IsPermitted s
    → IsPermitted (initialize_iyokan_cufhepp d key s).1
unfolding initialize_iyokan_cufhepp
initialize-IsPermitted d key s p =
    let after = λ (r : Bool × Cufhepp). IsPermitted r.1 in
    Holds-if after s.initialized _ _ (λ _. p)
      λ e.
        Holds-option after (usable_devices d) _ _
          (λ _. Holds-if IsPermitted (d.cuda_workers == 0) _ _ (λ _. p) λ _. p)
          λ n _. initializes (subst (Permitted s.calls) e p)

clean_up-IsPermitted : (s : Cufhepp) → IsPermitted s → IsPermitted (cufhepp_clean_up s)
unfolding cufhepp_clean_up
clean_up-IsPermitted s p =
    Holds-if IsPermitted s.initialized _ _ (λ e. cleans_up (subst (Permitted s.calls) e p)) λ _. p

step-IsPermitted : (x : Step) (s : Cufhepp) → IsPermitted s → IsPermitted (step x s)
step-IsPermitted (start d key) s p = initialize-IsPermitted d key s p
step-IsPermitted stop s p = clean_up-IsPermitted s p

-- Whatever is requested in a row, and whatever devices there are at each time, the runtime of Iyokan
-- calls cuFHEpp in an order that it permits, and its flag says whether cuFHEpp is initialized.
pub steps-IsPermitted : (xs : List Step) (s : Cufhepp) → IsPermitted s → IsPermitted (steps xs s)
steps-IsPermitted [] s p = p
steps-IsPermitted (x ∷ xs) s p = steps-IsPermitted xs (step x s) (step-IsPermitted x s p)
