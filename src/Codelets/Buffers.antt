-- ===== src/Codelets/Buffers.antt =====
-- The fields `.nbuffers` and `.modes` of the codelets in src/wrappedcodelets.cpp.
use tangor.Base.{ℕ, suc, replicate, ◌≡◌, refl, ◌∷◌}
use tangor.Codelets.{
  Codelet, cl_hom_not, cl_hom_mux, cl_hom_nmux, modes, nbuffers, starpu_w, starpu_r,
}
use tangor.Codelets.Meaning.{Fn, unary, binary, ternary, codelet_fn}

-- How many arguments a function takes.
abbrev pub arity : Fn → ℕ
arity (unary f) = 1
arity (binary f) = 2
arity (ternary f) = 3

-- Each codelet declares one buffer more than its Boolean function has arguments and an access mode
-- for each, and only the first buffer is written.
pub modes-nbuffers :
    (c : Codelet)
    → (nbuffers c ≡ suc (arity (codelet_fn c)))
      × (modes c ≡ starpu_w ∷ replicate (arity (codelet_fn c)) starpu_r)
unfolding modes nbuffers codelet_fn
modes-nbuffers cl_hom_not = (refl, refl)
modes-nbuffers cl_hom_mux = (refl, refl)
modes-nbuffers cl_hom_nmux = (refl, refl)
modes-nbuffers _ = (refl, refl)
