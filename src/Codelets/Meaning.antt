-- ===== src/Codelets/Meaning.antt =====
-- The codelets of src/wrappedcodelets.cpp against the Boolean functions that their names promise.
use tangor.Base.{
  ℤ, ◌<◌, ◌≡◌, refl, ◌≢◌, Bool, not, ◌&&◌, ◌||◌, xor, List, [], ◌∷◌, Option, none, some, arith, ltb,
  if◌then◌else◌, subst,
}
use tangor.Tfhe.{Tfhe, TfheLaws, phase, bootstrap_fn, Bootstrap}
use tangor.Codelets.{
  Codelet, cl_hom_nand, cl_hom_nor, cl_hom_xnor, cl_hom_and, cl_hom_or, cl_hom_xor, cl_hom_andny,
  cl_hom_andyn, cl_hom_orny, cl_hom_oryn, cl_hom_not, cl_hom_mux, cl_hom_nmux, Worker, cpu_worker,
  cuda_worker, run_codelet, run_cpu, run_cuda, cpu_func, cuda_func, CpuFunc, hom_gate_wrap,
  hom_not_wrap, hom_mux_wrap, hom_nmux_wrap, CudaFunc, hom2_wrap, cufhepp_hom_not_wrap,
  cufhepp_hom_mux_wrap, cufhepp_hom_nmux_wrap,
}

-- A Boolean function of one, two or three inputs.
pub data Fn : Type 0 where
  unary : (Bool → Bool) → Fn
  binary : (Bool → Bool → Bool) → Fn
  ternary : (Bool → Bool → Bool → Bool) → Fn

unfoldable pub apply_fn : Fn → List Bool → Option Bool
apply_fn (unary f) (x ∷ []) = some (f x)
apply_fn (binary f) (x ∷ y ∷ []) = some (f x y)
apply_fn (ternary f) (x ∷ y ∷ z ∷ []) = some (f x y z)
apply_fn _ _ = none

-- The specification of a codelet: `NY` negates the first input, `YN` the second, and a multiplexer
-- takes the selector first and what it selects when that is true second.
unfoldable pub codelet_fn : Codelet → Fn
codelet_fn cl_hom_nand = binary (λ x y. not (x && y))
codelet_fn cl_hom_nor = binary (λ x y. not (x || y))
codelet_fn cl_hom_xnor = binary (λ x y. not (xor x y))
codelet_fn cl_hom_and = binary (λ x y. x && y)
codelet_fn cl_hom_or = binary (λ x y. x || y)
codelet_fn cl_hom_xor = binary (λ x y. xor x y)
codelet_fn cl_hom_andny = binary (λ x y. not x && y)
codelet_fn cl_hom_andyn = binary (λ x y. x && not y)
codelet_fn cl_hom_orny = binary (λ x y. not x || y)
codelet_fn cl_hom_oryn = binary (λ x y. x || not y)
codelet_fn cl_hom_not = unary not
codelet_fn cl_hom_mux = ternary (λ s x y. if s then x else y)
codelet_fn cl_hom_nmux = ternary (λ s x y. not (if s then x else y))

-- A gate whose linear combination falls in the right half of the torus at all four inputs.
abbrev pub Separates : ℤ → ℤ → ℤ → (Bool → Bool → Bool) → Type 0
Separates ca cb offset f =
    (x y : Bool)
    → (0 < phase ca cb offset x y)
      × (phase ca cb offset x y ≢ 4)
      × (ltb (phase ca cb offset x y) 4 ≡ f x y)

-- What a CPU implementation computes on bits is the function `f`.
abbrev pub Computes : CpuFunc → Fn → Type 0
Computes (hom_gate_wrap ca cb offset) (binary f) = Separates ca cb offset f
Computes hom_not_wrap (unary f) = (x : Bool) → not x ≡ f x
Computes hom_mux_wrap (ternary f) = (s x y : Bool) → (if s then x else y) ≡ f s x y
Computes hom_nmux_wrap (ternary f) = (s x y : Bool) → not (if s then x else y) ≡ f s x y
Computes _ _ = ⊥

-- The same for a CUDA implementation.
abbrev CudaComputes : CudaFunc → Fn → Type 0
CudaComputes (hom2_wrap g) (binary f) = (x y : Bool) → bootstrap_fn g x y ≡ f x y
CudaComputes cufhepp_hom_not_wrap (unary f) = (x : Bool) → not x ≡ f x
CudaComputes cufhepp_hom_mux_wrap (ternary f) = (s x y : Bool) → (if s then x else y) ≡ f s x y
CudaComputes cufhepp_hom_nmux_wrap (ternary f) = (s x y : Bool) → not (if s then x else y) ≡ f s x y
CudaComputes _ _ = ⊥

pub cpu_func-Computes : (c : Codelet) → Computes (cpu_func c) (codelet_fn c)
unfolding cpu_func codelet_fn phase xor
cpu_func-Computes cl_hom_nand = λ x y. ground arith
cpu_func-Computes cl_hom_nor = λ x y. ground arith
cpu_func-Computes cl_hom_xnor = λ x y. ground arith
cpu_func-Computes cl_hom_and = λ x y. ground arith
cpu_func-Computes cl_hom_or = λ x y. ground arith
cpu_func-Computes cl_hom_xor = λ x y. ground arith
cpu_func-Computes cl_hom_andny = λ x y. ground arith
cpu_func-Computes cl_hom_andyn = λ x y. ground arith
cpu_func-Computes cl_hom_orny = λ x y. ground arith
cpu_func-Computes cl_hom_oryn = λ x y. ground arith
cpu_func-Computes cl_hom_not = λ x. refl
cpu_func-Computes cl_hom_mux = λ s x y. refl
cpu_func-Computes cl_hom_nmux = λ s x y. refl

cuda_func-Computes : (c : Codelet) → CudaComputes (cuda_func c) (codelet_fn c)
unfolding cuda_func codelet_fn bootstrap_fn xor
cuda_func-Computes cl_hom_nand = λ x y. ground arith
cuda_func-Computes cl_hom_nor = λ x y. ground arith
cuda_func-Computes cl_hom_xnor = λ x y. ground arith
cuda_func-Computes cl_hom_and = λ x y. ground arith
cuda_func-Computes cl_hom_or = λ x y. ground arith
cuda_func-Computes cl_hom_xor = λ x y. ground arith
cuda_func-Computes cl_hom_andny = λ x y. ground arith
cuda_func-Computes cl_hom_andyn = λ x y. ground arith
cuda_func-Computes cl_hom_orny = λ x y. ground arith
cuda_func-Computes cl_hom_oryn = λ x y. ground arith
cuda_func-Computes cl_hom_not = λ x. refl
cuda_func-Computes cl_hom_mux = λ s x y. refl
cuda_func-Computes cl_hom_nmux = λ s x y. refl

module _ {t : Tfhe} (laws : TfheLaws t) where
  open laws use {Encrypts}

  abbrev pub EncryptsAll : List t.Cipher → List Bool → Type 0
  EncryptsAll [] [] = Unit {0}
  EncryptsAll (c ∷ cs) (x ∷ xs) = Encrypts c x × EncryptsAll cs xs
  EncryptsAll _ _ = ⊥

  -- The result of an implementation is a ciphertext of `b`.
  abbrev Leaves : Option t.Cipher → Bool → Type 0
  Leaves result b = (out : t.Cipher) × (result ≡ some out) × Encrypts out b

  -- The worker `w` gets `inputs` and leaves a ciphertext of `b`.
  abbrev pub Yields : Worker → Codelet → List t.Cipher → Bool → Type 0
  Yields w c inputs b = (out : t.Cipher) × (run_codelet t w c inputs ≡ some out) × Encrypts out b

  abbrev Implements : (List t.Cipher → Option t.Cipher) → Fn → Type 0
  Implements run (unary f) = (a : t.Cipher) (x : Bool) → Encrypts a x → Leaves (run (a ∷ [])) (f x)
  Implements run (binary f) =
      (a b : t.Cipher) (x y : Bool)
      → Encrypts a x
      → Encrypts b y
      → Leaves (run (a ∷ b ∷ [])) (f x y)
  Implements run (ternary f) =
      (s a b : t.Cipher) (z x y : Bool)
      → Encrypts s z
      → Encrypts a x
      → Encrypts b y
      → Leaves (run (s ∷ a ∷ b ∷ [])) (f z x y)

  pub gate-Encrypts :
      (ca cb offset : ℤ) (f : Bool → Bool → Bool)
      → Separates ca cb offset f
      → (a b : t.Cipher) (x y : Bool) → Encrypts a x
      → Encrypts b y
      → Encrypts (t.hom_gate ca cb offset a b) (f x y)
  gate-Encrypts ca cb offset f sep a b x y ea eb =
      let (lo, mid, hi) = sep x y in
      subst (Encrypts (t.hom_gate ca cb offset a b)) hi
        (laws.gate_encrypts ca cb offset a b x y ea eb lo mid)

  pub bootstrap-Encrypts :
      (g : Bootstrap) (f : Bool → Bool → Bool)
      → ((x y : Bool) → bootstrap_fn g x y ≡ f x y)
      → (a b : t.Cipher) (x y : Bool) → Encrypts a x
      → Encrypts b y
      → Encrypts (t.bootstrap g a b) (f x y)
  bootstrap-Encrypts g f same a b x y ea eb =
      subst (Encrypts (t.bootstrap g a b)) (same x y) (laws.bootstrap_encrypts g a b x y ea eb)

  run_cpu-Implements : (g : CpuFunc) (f : Fn) → Computes g f → Implements (run_cpu t g) f
  unfolding run_cpu
  run_cpu-Implements (hom_gate_wrap ca cb offset) (binary f) sep = λ a b x y ea eb.
      (t.hom_gate ca cb offset a b, refl, gate-Encrypts ca cb offset f sep a b x y ea eb)
  run_cpu-Implements hom_not_wrap (unary f) same = λ a x ea.
      (t.hom_not a, refl, subst (Encrypts (t.hom_not a)) (same x) (laws.not_encrypts a x ea))
  run_cpu-Implements hom_mux_wrap (ternary f) same = λ s a b z x y es ea eb.
      let result = laws.mux_encrypts s a b z x y es ea eb in
      (t.hom_mux s a b, refl, subst (Encrypts (t.hom_mux s a b)) (same z x y) result)
  run_cpu-Implements hom_nmux_wrap (ternary f) same = λ s a b z x y es ea eb.
      let result = laws.nmux_encrypts s a b z x y es ea eb in
      (t.hom_nmux s a b, refl, subst (Encrypts (t.hom_nmux s a b)) (same z x y) result)
  run_cpu-Implements _ _ wrong = absurd wrong

  run_cuda-Implements : (g : CudaFunc) (f : Fn) → CudaComputes g f → Implements (run_cuda t g) f
  unfolding run_cuda
  run_cuda-Implements (hom2_wrap g) (binary f) same =
      λ a b x y ea eb. (t.bootstrap g a b, refl, bootstrap-Encrypts g f same a b x y ea eb)
  run_cuda-Implements cufhepp_hom_not_wrap (unary f) same = λ a x ea.
      let result = laws.not_bootstrap_encrypts a x ea in
      (t.not_bootstrap a, refl, subst (Encrypts (t.not_bootstrap a)) (same x) result)
  run_cuda-Implements cufhepp_hom_mux_wrap (ternary f) same = λ s a b z x y es ea eb.
      let result = laws.mux_bootstrap_encrypts s a b z x y es ea eb in
      (t.mux_bootstrap s a b, refl, subst (Encrypts (t.mux_bootstrap s a b)) (same z x y) result)
  run_cuda-Implements cufhepp_hom_nmux_wrap (ternary f) same = λ s a b z x y es ea eb.
      let result = laws.nmux_bootstrap_encrypts s a b z x y es ea eb in
      (t.nmux_bootstrap s a b, refl, subst (Encrypts (t.nmux_bootstrap s a b)) (same z x y) result)
  run_cuda-Implements _ _ wrong = absurd wrong

  codelet-Implements : (w : Worker) (c : Codelet) → Implements (run_codelet t w c) (codelet_fn c)
  unfolding run_codelet
  codelet-Implements cpu_worker c =
      run_cpu-Implements (cpu_func c) (codelet_fn c) (cpu_func-Computes c)
  codelet-Implements cuda_worker c =
      run_cuda-Implements (cuda_func c) (codelet_fn c) (cuda_func-Computes c)

  -- The inputs of a function that has a value are as many as its arguments.
  Implements-Leaves :
      (run : List t.Cipher → Option t.Cipher) (f : Fn) (cs : List t.Cipher) (xs : List Bool)
      (b : Bool)
      → Implements run f
      → EncryptsAll cs xs
      → apply_fn f xs ≡ some b
      → Leaves (run cs) b
  unfolding apply_fn
  Implements-Leaves run (unary f) (a ∷ []) (x ∷ []) b i e h =
      subst (Leaves (run (a ∷ []))) (cc) (i a x e.0)
  Implements-Leaves run (binary f) (a ∷ a' ∷ []) (x ∷ x' ∷ []) b i e h =
      subst (Leaves (run (a ∷ a' ∷ []))) (cc) (i a a' x x' e.0 e.1.0)
  Implements-Leaves run (ternary f) (a ∷ a' ∷ d ∷ []) (x ∷ x' ∷ y ∷ []) b i e h =
      subst (Leaves (run (a ∷ a' ∷ d ∷ []))) (cc) (i a a' d x x' y e.0 e.1.0 e.1.1.0)
  Implements-Leaves run _ _ _ b i e h = ground arith

  -- Wherever StarPU places a task, the codelet leaves in its output buffer a ciphertext of what the
  -- codelet's Boolean function gives at the bits that its input buffers encrypt.
  pub run_codelet-Yields :
      (w : Worker) (c : Codelet) (cs : List t.Cipher) (xs : List Bool) (b : Bool)
      → EncryptsAll cs xs
      → apply_fn (codelet_fn c) xs ≡ some b
      → Yields w c cs b
  run_codelet-Yields w c cs xs b =
      Implements-Leaves (run_codelet t w c) (codelet_fn c) cs xs b (codelet-Implements w c)
