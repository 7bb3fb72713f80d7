-- ===== src/Shim/Bits.antt =====
-- What the replaced calls of include/iyokan-starpu-offload.hpp do to encrypted bits.
use mathlib.Core.Option.{some-injective}
use tangor.Base.{
  ℕ, ◌≡◌, ◌≢◌, sym, ap, subst, ◌∙◌, ◌==◌, ==→eq, ==→ne, Bool, not, List, [], ◌∷◌, Option, some,
  ◌>>=◌, >>=-eq-some, if◌then◌else◌, Bool-cases, inl, inr,
}
use tangor.Tfhe.{Tfhe, TfheLaws}
use tangor.Codelets.{Worker, cpu_worker, cuda_worker}
use tangor.StarpuApi.{StarpuApi}
use tangor.StarpuApi.Memory.{Place, tlwe, variable, Memory}
use tangor.Offload.{
  HomGate, replacement, IyokanBinaryGate, codelet_for, not_codelet, mux_codelet, run_gate,
}
use tangor.Offload.Meaning.{hom_fn, run_gate-replacement}
use tangor.Offload.Table.{IyokanCodelet, binary, not_starpu, mux_starpu}
use tangor.Shim.{HomCall, hom_gate, hom_not, hom_mux, hom_cmux_fft, hom_mux_wo_se, offloaded}
use tangor.Iyokan.Memory.Assignments.{Assigns}

-- The bits that are known, by the addresses of their ciphertexts.
abbrev pub Bits : Type 0
Bits = ℕ → Option Bool

abbrev pub put : ℕ → Option Bool → Bits → Bits
put a x bits b = if a == b then x else bits b

-- The calls as TFHEpp documents them, on bits in the clear.
abbrev pub evaluate : HomCall → Bits → Bits
evaluate (hom_gate g output left right key) bits =
    put output (do x ← bits left; z ← bits right; some (hom_fn g x z)) bits
evaluate (hom_not output input) bits = put output (do x ← bits input; some (not x)) bits
evaluate (hom_mux output select when_true when_false key) bits =
    put output
      (do c ← bits select; x ← bits when_true; z ← bits when_false; some (if c then x else z)) bits
evaluate (hom_cmux_fft output select when_true when_false) bits = bits
evaluate (hom_mux_wo_se output select when_true when_false key) bits = bits

abbrev pub evaluate_all : List HomCall → Bits → Bits
evaluate_all [] bits = bits
evaluate_all (c ∷ cs) bits = evaluate_all cs (evaluate c bits)

-- The codelets in StarPU compute on ciphertexts what some worker computes.
pub record RunsGates (t : Tfhe) {api : StarpuApi} (y : Memory api)
    (codelet : IyokanCodelet → api.Codelet) : Type 0 where
  pub lwe : t.Cipher → y.Value
  pub binary_runs :
      (g : IyokanBinaryGate) (a b : t.Cipher) (v : y.Value)
      → y.Computes (codelet (binary g)) (lwe a ∷ lwe b ∷ []) v
      → (w : Worker) × (c : t.Cipher) × (run_gate t w (codelet_for g) (a ∷ b ∷ []) ≡ some c)
        × (v ≡ lwe c)
  pub not_runs :
      (a : t.Cipher) (v : y.Value)
      → y.Computes (codelet not_starpu) (lwe a ∷ []) v
      → (w : Worker) × (c : t.Cipher) × (run_gate t w not_codelet (a ∷ []) ≡ some c) × (v ≡ lwe c)
  pub mux_runs :
      (s a b : t.Cipher) (v : y.Value)
      → y.Computes (codelet mux_starpu) (lwe s ∷ lwe a ∷ lwe b ∷ []) v
      → (w : Worker) × (c : t.Cipher) × (run_gate t w mux_codelet (s ∷ a ∷ b ∷ []) ≡ some c)
        × (v ≡ lwe c)

abbrev tlwe_address : Place → ℕ
tlwe_address (tlwe a) = a
tlwe_address (variable a) = 0

tlwe-injective : (a b : ℕ) → tlwe a ≡ tlwe b → a ≡ b
tlwe-injective a b e = ap tlwe_address e

tlwe-ne-variable : (a o : ℕ) → tlwe a ≢ variable o
tlwe-ne-variable a o e = cc

module _ {t : Tfhe} (laws : TfheLaws t) where
  open laws use {Encrypts}

  not-Encrypts :
      (w : Worker) (a c : t.Cipher) (x : Bool)
      → Encrypts a x
      → run_gate t w not_codelet (a ∷ []) ≡ some c
      → Encrypts c (not x)
  unfolding run_gate
  not-Encrypts cpu_worker a c x ea e =
      subst (λ (d : t.Cipher). Encrypts d (not x)) (some-injective _ _ e) (laws.not_encrypts a x ea)
  not-Encrypts cuda_worker a c x ea e = cc

  mux-Encrypts :
      (w : Worker) (s a b c : t.Cipher) (z x y : Bool)
      → Encrypts s z
      → Encrypts a x
      → Encrypts b y
      → run_gate t w mux_codelet (s ∷ a ∷ b ∷ []) ≡ some c
      → Encrypts c (if z then x else y)
  unfolding run_gate
  mux-Encrypts cpu_worker s a b c z x y es ea eb e =
      subst (λ (d : t.Cipher). Encrypts d (if z then x else y)) (some-injective _ _ e)
        (laws.mux_encrypts s a b z x y es ea eb)
  mux-Encrypts cuda_worker s a b c z x y es ea eb e =
      subst (λ (d : t.Cipher). Encrypts d (if z then x else y)) (some-injective _ _ e)
        (laws.mux_bootstrap_encrypts s a b z x y es ea eb)

  module _ {api : StarpuApi} (y : Memory api) (codelet : IyokanCodelet → api.Codelet)
      (runs : RunsGates t y codelet) (IsCmux : y.Value → y.Value → y.Value → y.Value → Type 0) where
    -- The value is a ciphertext of the bit.
    abbrev pub HoldsBit : y.Value → Bool → Type 0
    HoldsBit v x = (c : t.Cipher) × (v ≡ runs.lwe c) × Encrypts c x

    -- The known bits are encrypted at their addresses.
    abbrev pub Stores : (Place → y.Value) → Bits → Type 0
    Stores μ bits = (a : ℕ) (x : Bool) → bits a ≡ some x → HoldsBit (μ (tlwe a)) x

    pub Stores-same :
        {μ ν : Place → y.Value} (bits : Bits)
        → ((p : Place) → ν p ≡ μ p)
        → Stores μ bits
        → Stores ν bits
    Stores-same bits same stores a x e =
        subst (λ (v : y.Value). HoldsBit v x) (sym (same (tlwe a))) (stores a x e)

    computed-gate :
        (g : HomGate) (u v w : y.Value) (x z : Bool)
        → HoldsBit u x
        → HoldsBit v z
        → y.Computes (codelet (binary (replacement g))) (u ∷ v ∷ []) w
        → HoldsBit w (hom_fn g x z)
    computed-gate g u v w x z (a, is_a, ea) (b, is_b, eb) computes =
        let (worker, c, ran, is_c) =
          runs.binary_runs (replacement g) a b w (rw (← is_a, ← is_b) computes) in
        let (out, ran', enc) = run_gate-replacement laws worker g a b x z ea eb in
        (
          c,
          is_c,
          subst (λ (d : t.Cipher). Encrypts d (hom_fn g x z)) (some-injective _ _ (sym ran' ∙ ran))
              enc,
        )

    computed-not :
        (u w : y.Value) (x : Bool)
        → HoldsBit u x
        → y.Computes (codelet not_starpu) (u ∷ []) w
        → HoldsBit w (not x)
    computed-not u w x (a, is_a, ea) computes =
        let (worker, c, ran, is_c) = runs.not_runs a w (rw (← is_a) computes) in
        (c, is_c, not-Encrypts worker a c x ea ran)

    computed-mux :
        (s u v w : y.Value) (k x z : Bool)
        → HoldsBit s k
        → HoldsBit u x
        → HoldsBit v z
        → y.Computes (codelet mux_starpu) (s ∷ u ∷ v ∷ []) w
        → HoldsBit w (if k then x else z)
    computed-mux s u v w k x z (c, is_c, ec) (a, is_a, ea) (b, is_b, eb) computes =
        let (worker, d, ran, is_d) = runs.mux_runs c a b w (rw (← is_c, ← is_a, ← is_b) computes) in
        (d, is_d, mux-Encrypts worker c a b d k x z ec ea eb ran)

    put-Stores :
        (o : ℕ) (r : Option Bool) (μ μ' : Place → y.Value) (bits : Bits)
        → ((x : Bool) → r ≡ some x → HoldsBit (μ' (tlwe o)) x)
        → ((q : Place) → q ≢ tlwe o → μ' q ≡ μ q)
        → Stores μ bits
        → Stores μ' (put o r bits)
    put-Stores o r μ μ' bits result others stores a x e = elim (Bool-cases (o == a)) [
      | inl same ↦
          let given : r ≡ some x = rw same at e in
          subst (λ (n : ℕ). HoldsBit (μ' (tlwe n)) x) (==→eq o a same) (result x given)
      | inr other ↦
          let given : bits a ≡ some x = rw other at e in
          let ne = λ (p : tlwe a ≡ tlwe o). ==→ne o a other (sym (tlwe-injective a o p)) in
          subst (λ (v : y.Value). HoldsBit v x) (sym (others (tlwe a) ne)) (stores a x given)
    ]

    keep-Stores :
        (o : ℕ) (μ μ' : Place → y.Value) (bits : Bits)
        → ((q : Place) → q ≢ variable o → μ' q ≡ μ q)
        → Stores μ bits
        → Stores μ' bits
    keep-Stores o μ μ' bits others stores a x e =
        subst (λ (v : y.Value). HoldsBit v x) (sym (others (tlwe a) (λ p. tlwe-ne-variable a o p)))
          (stores a x e)

    -- A replaced call that is carried out does to the encrypted bits what TFHEpp documents for it.
    pub Assigns-Stores :
        (call : HomCall) (μ μ' : Place → y.Value) (bits : Bits)
        → Assigns y IsCmux (offloaded api codelet call) μ μ'
        → Stores μ bits
        → Stores μ' (evaluate call bits)
    unfolding offloaded
    Assigns-Stores (hom_gate g o l r key) μ μ' bits does stores =
        put-Stores o _ μ μ' bits
          (λ v e.
            let (x, at_l, rest) = >>=-eq-some (bits l) _ e in
            let (z, at_r, is_v) = >>=-eq-some (bits r) _ rest in
            subst (HoldsBit (μ' (tlwe o))) (some-injective _ _ is_v)
              (computed-gate g _ _ _ x z (stores l x at_l) (stores r z at_r) does.yields))
          does.others stores
    Assigns-Stores (hom_not o i) μ μ' bits does stores =
        put-Stores o _ μ μ' bits
          (λ v e.
            let (x, at_i, is_v) = >>=-eq-some (bits i) _ e in
            subst (HoldsBit (μ' (tlwe o))) (some-injective _ _ is_v)
              (computed-not _ _ x (stores i x at_i) does.yields))
          does.others stores
    Assigns-Stores (hom_mux o s a b key) μ μ' bits does stores =
        put-Stores o _ μ μ' bits
          (λ v e.
            let (k, at_s, rest) = >>=-eq-some (bits s) _ e in
            let (x, at_a, rest') = >>=-eq-some (bits a) _ rest in
            let (z, at_b, is_v) = >>=-eq-some (bits b) _ rest' in
            subst (HoldsBit (μ' (tlwe o))) (some-injective _ _ is_v) (
              computed-mux _ _ _ _ k x z (stores s k at_s) (stores a x at_a) (stores b z at_b)
                does.yields))
          does.others stores
    Assigns-Stores (hom_cmux_fft o s a b) μ μ' bits does stores =
        keep-Stores o μ μ' bits does.others stores
    Assigns-Stores (hom_mux_wo_se o s a b key) μ μ' bits does stores =
        keep-Stores o μ μ' bits does.others stores
