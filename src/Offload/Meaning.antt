-- ===== src/Offload/Meaning.antt =====
-- The codelets for Iyokan in src/iyokan-starpu-codelets.cpp against what they promise.
use tangor.Base.{
  ℕ, ◌≡◌, refl, subst, Bool, false, not, ◌&&◌, ◌||◌, xor, List, [], ◌∷◌, some, ◌==◌, arith,
}
use tangor.Tfhe.{Tfhe, TfheLaws, phase, bootstrap_fn}
use tangor.Codelets.{Worker, cpu_worker, cuda_worker}
use tangor.Codelets.Meaning.{Separates, gate-Encrypts, bootstrap-Encrypts}
use tangor.StarpuApi.{Access, starpu_r}
use tangor.Offload.{
  IyokanBinaryGate, and_gate, nand_gate, andnot_gate, or_gate, nor_gate, ornot_gate, xor_gate,
  xnor_gate, HomGate, hom_and, hom_nand, hom_andyn, hom_or, hom_nor, hom_oryn, hom_xor, hom_xnor,
  replacement, codelet_for, GateCodelet, binary_codelet, run_gate, Buffer, trlwe, cmux_task,
}

-- The Boolean function that the name of a gate promises.
abbrev pub gate_fn : IyokanBinaryGate → Bool → Bool → Bool
gate_fn and_gate x y = x && y
gate_fn nand_gate x y = not (x && y)
gate_fn andnot_gate x y = x && not y
gate_fn or_gate x y = x || y
gate_fn nor_gate x y = not (x || y)
gate_fn ornot_gate x y = x || not y
gate_fn xor_gate x y = xor x y
gate_fn xnor_gate x y = not (xor x y)

-- What the table says of a gate: the codelet's coefficients and its CUDA function suit the function
-- of the gate.
abbrev Suited : IyokanBinaryGate → GateCodelet → Type 0
Suited gate (binary_codelet ca cb offset f) =
    Separates ca cb offset (gate_fn gate) × ((x y : Bool) → bootstrap_fn f x y ≡ gate_fn gate x y)
Suited gate _ = ⊥

codelet_for-Suited : (gate : IyokanBinaryGate) → Suited gate (codelet_for gate)
unfolding codelet_for phase bootstrap_fn xor
codelet_for-Suited and_gate = (λ x y. ground arith, λ x y. ground arith)
codelet_for-Suited nand_gate = (λ x y. ground arith, λ x y. ground arith)
codelet_for-Suited andnot_gate = (λ x y. ground arith, λ x y. ground arith)
codelet_for-Suited or_gate = (λ x y. ground arith, λ x y. ground arith)
codelet_for-Suited nor_gate = (λ x y. ground arith, λ x y. ground arith)
codelet_for-Suited ornot_gate = (λ x y. ground arith, λ x y. ground arith)
codelet_for-Suited xor_gate = (λ x y. ground arith, λ x y. ground arith)
codelet_for-Suited xnor_gate = (λ x y. ground arith, λ x y. ground arith)

module _ {t : Tfhe} (laws : TfheLaws t) where
  open laws use {Encrypts}

  Suited-run :
      (w : Worker) (gate : IyokanBinaryGate) (c : GateCodelet)
      → Suited gate c
      → (a b : t.Cipher) (x y : Bool) → Encrypts a x
      → Encrypts b y
      → (out : t.Cipher) × (run_gate t w c (a ∷ b ∷ []) ≡ some out)
        × Encrypts out (gate_fn gate x y)
  unfolding run_gate
  Suited-run cpu_worker gate (binary_codelet ca cb offset f) s a b x y ea eb = (
    t.hom_gate ca cb offset a b,
    refl,
    gate-Encrypts laws ca cb offset (gate_fn gate) s.0 a b x y ea eb,
  )
  Suited-run cuda_worker gate (binary_codelet ca cb offset f) s a b x y ea eb =
      (t.bootstrap f a b, refl, bootstrap-Encrypts laws f (gate_fn gate) s.1 a b x y ea eb)
  Suited-run _ gate _ s a b x y ea eb = elim s [ ]

  pub run_gate-codelet_for :
      (w : Worker) (gate : IyokanBinaryGate) (a b : t.Cipher) (x y : Bool)
      → Encrypts a x
      → Encrypts b y
      → (out : t.Cipher) × (run_gate t w (codelet_for gate) (a ∷ b ∷ []) ≡ some out)
        × Encrypts out (gate_fn gate x y)
  run_gate-codelet_for w gate = Suited-run w gate (codelet_for gate) (codelet_for-Suited gate)

-- The function that TFHEpp documents for a gate: `YN` negates the second input.
abbrev pub hom_fn : HomGate → Bool → Bool → Bool
hom_fn hom_and x y = x && y
hom_fn hom_nand x y = not (x && y)
hom_fn hom_andyn x y = x && not y
hom_fn hom_or x y = x || y
hom_fn hom_nor x y = not (x || y)
hom_fn hom_oryn x y = x || not y
hom_fn hom_xor x y = xor x y
hom_fn hom_xnor x y = not (xor x y)

replacement-hom_fn :
    (gate : HomGate) (x y : Bool) → gate_fn (replacement gate) x y ≡ hom_fn gate x y
unfolding replacement
replacement-hom_fn hom_and x y = refl
replacement-hom_fn hom_xor x y = refl
replacement-hom_fn _ x y = refl

-- A gate of TFHEpp that was replaced by its StarPU version gives, on either kind of worker, a
-- ciphertext of the function that TFHEpp documents for it.
pub run_gate-replacement :
    {t : Tfhe} (laws : TfheLaws t) (w : Worker) (gate : HomGate) (a b : t.Cipher) (x y : Bool)
    → laws.Encrypts a x
    → laws.Encrypts b y
    → (out : t.Cipher) × (run_gate t w (codelet_for (replacement gate)) (a ∷ b ∷ []) ≡ some out)
      × laws.Encrypts out (hom_fn gate x y)
run_gate-replacement {t} laws w gate a b x y ea eb =
    let (out, ran, enc) = run_gate-codelet_for laws w (replacement gate) a b x y ea eb in
    (out, ran, subst (laws.Encrypts out) (replacement-hom_fn gate x y) enc)

-- Whether a task that writes the word `output` reads it through another buffer.
abbrev pub reads : ℕ → List (Access × Buffer) → Bool
reads output [] = false
reads output ((starpu_r, trlwe o) ∷ bs) = output == o || reads output bs
reads output (_ ∷ bs) = reads output bs

-- The task of a CMUX passes its output in a second buffer exactly if the output and both inputs are
-- the same word.
pub cmux_task-reads :
    (output select when_true when_false : ℕ)
    → reads output (cmux_task output select when_true when_false).buffers
      ≡ (output == when_true && output == when_false)
unfolding cmux_task
cmux_task-reads output select when_true when_false = ground arith
