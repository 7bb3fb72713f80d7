-- ===== src/Offload/Declared.antt =====
-- The tasks of src/iyokan-starpu-codelets.cpp against what their codelets declare.
use tangor.Base.{
  ◌≡◌, refl, sym, ◌∙◌, Bool, true, false, List, Option, none, some, String, length, map, arith, ◌↔◌,
  Bool-cases, inl, inr,
}
use tangor.StarpuApi.{Access}
use tangor.Offload.{CmuxCodelet, cmux_fft_codelet}
use tangor.Offload.Table.{
  IyokanCodelet, binary, not_starpu, mux_starpu, mux_wo_se_starpu, cmux, IyokanCuda, make_codelet,
  made, add_cuda_implementation, enable_cuda_cmux, registered, Interface, interfaces, Submission,
  binary_gate, not_gate, mux, cmux_fft, mux_wo_se, TaskBuffer, submitted,
}

abbrev pub accesses : List TaskBuffer → List Access
accesses bs = map (λ (b : TaskBuffer). b.access) bs

abbrev pub is_mux_wo_se : Submission → Bool
is_mux_wo_se (mux_wo_se _ _ _ _) = true
is_mux_wo_se _ = false

abbrev pub interfaces_of : List TaskBuffer → List Interface
interfaces_of bs = map (λ (b : TaskBuffer). b.interface) bs

-- A CUDA implementation changes neither the modes nor the number of buffers, which agree.
registered-modes :
    (env : Option String) (c : IyokanCodelet)
    → ((registered env c).modes ≡ (made c).modes)
      × ((registered env c).nbuffers ≡ length (made c).modes)
unfolding registered made
registered-modes env (binary g) = (refl, refl)
registered-modes env not_starpu = (refl, refl)
registered-modes env mux_starpu = (refl, refl)
registered-modes env mux_wo_se_starpu = (refl, refl)
registered-modes env (cmux c) = ground arith

submitted-made :
    (s : Submission)
    → (accesses (submitted s).1 ≡ (made (submitted s).0).modes)
      × (length (submitted s).1 ≡ length (made (submitted s).0).modes)
unfolding submitted made
submitted-made (binary_gate g output left right) = (refl, refl)
submitted-made (not_gate output input) = (refl, refl)
submitted-made (mux output select when_true when_false) = (refl, refl)
submitted-made (cmux_fft output select when_true when_false) = ground arith
submitted-made (mux_wo_se output select when_true when_false) = (refl, refl)

submitted-interfaces :
    (s : Submission)
    → is_mux_wo_se s ≡ false
    → interfaces_of (submitted s).1 ≡ interfaces (submitted s).0
unfolding submitted interfaces
submitted-interfaces (binary_gate g output left right) e = refl
submitted-interfaces (not_gate output input) e = refl
submitted-interfaces (mux output select when_true when_false) e = refl
submitted-interfaces (cmux_fft output select when_true when_false) e = ground arith
submitted-interfaces (mux_wo_se output select when_true when_false) e = ground arith

abbrev pub is_some : Option IyokanCuda → Bool
is_some none = false
is_some (some f) = true

registered-on_cuda :
    (env : Option String) (c : IyokanCodelet)
    → (registered env c).on_cuda ≡ is_some (registered env c).cuda_func
unfolding registered made make_codelet add_cuda_implementation
registered-on_cuda env (binary g) = refl
registered-on_cuda env not_starpu = refl
registered-on_cuda env mux_starpu = refl
registered-on_cuda env mux_wo_se_starpu = refl
registered-on_cuda env (cmux c) = elim (Bool-cases (enable_cuda_cmux env)) [
  | inl e ↦ rw (registered, e) refl
  | inr e ↦ rw (registered, e) (not_made c)
]
  where
    not_made : (c : CmuxCodelet) → (made (cmux c)).on_cuda ≡ is_some (made (cmux c)).cuda_func
    not_made cmux_fft_codelet = refl
    not_made _ = refl

-- Every task is submitted with the accesses that its codelet declares, to as many buffers, and its
-- codelet may run on CUDA workers exactly if it has an implementation for them.
pub submitted-declared :
    (env : Option String) (s : Submission)
    → (accesses (submitted s).1 ≡ (registered env (submitted s).0).modes)
      × (length (submitted s).1 ≡ (registered env (submitted s).0).nbuffers)
      × ((registered env (submitted s).0).on_cuda
          ≡ is_some (registered env (submitted s).0).cuda_func)
submitted-declared env s =
    let (same, counted) = submitted-made s in
    let (kept, number) = registered-modes env (submitted s).0 in
    (same ∙ sym kept, counted ∙ sym number, registered-on_cuda env (submitted s).0)

-- The handles of a task are registered as its codelet takes its buffers, vectors or variables, except
-- for that of `runIyokanStarpuMuxWoSE`.
pub submitted-taken :
    (s : Submission)
    → (interfaces_of (submitted s).1 ≡ interfaces (submitted s).0) ↔ (is_mux_wo_se s ≡ false)
unfolding submitted interfaces
submitted-taken s = (mismatched s, submitted-interfaces s)
  where
    mismatched :
        (s : Submission)
        → interfaces_of (submitted s).1 ≡ interfaces (submitted s).0
        → is_mux_wo_se s ≡ false
    mismatched (mux_wo_se output select when_true when_false) e = ground arith
    mismatched (binary_gate g output left right) e = refl
    mismatched (not_gate output input) e = refl
    mismatched (mux output select when_true when_false) e = refl
    mismatched (cmux_fft output select when_true when_false) e = refl
