-- ===== src/Tfhe.antt =====
-- What Tangor uses of TFHEpp and cuFHEpp, which are not part of the repository: the ciphertext type,
-- the homomorphic operations that the codelets call, and the documented behaviour of each.
-- Signs, scales and offsets of a gate are counted in units of `P::μ`, an eighth of the torus.
pub mod Clear
use tangor.Base.{
  ℤ, pos, negsuc, ℕ, suc, ◌+◌, ◌-◌, ◌*◌, ◌%◌, ◌<◌, ◌≡◌, ◌≢◌, Bool, true, false, not, ltb,
  if◌then◌else◌,
}

-- An integer multiple of `μ` as a position on the torus, which has eight of them.
unfoldable pub eighths : ℤ → ℕ
eighths (pos n) = n % 8
eighths (negsuc n) = 7 - n % 8

-- A bit is encrypted as +μ or -μ.
unfoldable pub encode : Bool → ℕ
encode true = 1
encode false = 7

-- The torus position of `ca * a + cb * b + offset` before the bootstrapping.
unfoldable pub phase : ℤ → ℤ → ℤ → Bool → Bool → ℕ
unfolding eighths encode
phase ca cb offset x y = (eighths ca * encode x + eighths cb * encode y + eighths offset) % 8

-- The functions of cuFHEpp that a CUDA codelet passes its buffers to.
pub data Bootstrap : Type 0 where
  nand_bootstrap nor_bootstrap xnor_bootstrap and_bootstrap or_bootstrap xor_bootstrap : Bootstrap
  and_ny_bootstrap and_yn_bootstrap or_ny_bootstrap or_yn_bootstrap : Bootstrap

unfoldable pub bootstrap_fn : Bootstrap → Bool → Bool → Bool
bootstrap_fn nand_bootstrap true true = false
bootstrap_fn nand_bootstrap _ _ = true
bootstrap_fn nor_bootstrap false false = true
bootstrap_fn nor_bootstrap _ _ = false
bootstrap_fn xnor_bootstrap true y = y
bootstrap_fn xnor_bootstrap false y = not y
bootstrap_fn and_bootstrap true y = y
bootstrap_fn and_bootstrap false y = false
bootstrap_fn or_bootstrap true y = true
bootstrap_fn or_bootstrap false y = y
bootstrap_fn xor_bootstrap true y = not y
bootstrap_fn xor_bootstrap false y = y
bootstrap_fn and_ny_bootstrap x y = if x then false else y
bootstrap_fn and_yn_bootstrap x y = if x then not y else false
bootstrap_fn or_ny_bootstrap x y = if x then y else true
bootstrap_fn or_yn_bootstrap x y = if x then true else not y

pub record Tfhe : Type 1 where
  pub Cipher : Type 0
  -- A value-initialised `TLWE<P>`.
  pub blank : Cipher
  pub hom_constant_zero : Cipher
  pub hom_not : Cipher → Cipher
  -- `HomGate<…, casign, cbsign, offset>(res, ina, inb, ek)`.
  pub hom_gate : ℤ → ℤ → ℤ → Cipher → Cipher → Cipher
  -- `HomMUX(res, s, c1, c0, ek)` and `HomNMUX`.
  pub hom_mux : Cipher → Cipher → Cipher → Cipher
  pub hom_nmux : Cipher → Cipher → Cipher → Cipher
  pub bootstrap : Bootstrap → Cipher → Cipher → Cipher
  pub not_bootstrap : Cipher → Cipher
  pub mux_bootstrap : Cipher → Cipher → Cipher → Cipher
  pub nmux_bootstrap : Cipher → Cipher → Cipher → Cipher

-- The documented behaviour: `Encrypts c x` says that `c` encrypts the bit `x` with little enough
-- noise for the next gate. A gate bootstrapping gives the sign of its linear combination, where
-- that is on neither boundary of the two halves of the torus.
pub record TfheLaws (t : Tfhe) : Type 1 where
  pub Encrypts : t.Cipher → Bool → Type 0
  pub constant_zero_encrypts : Encrypts t.hom_constant_zero false
  pub not_encrypts : (a : t.Cipher) (x : Bool) → Encrypts a x → Encrypts (t.hom_not a) (not x)
  pub gate_encrypts :
      (ca cb offset : ℤ) (a b : t.Cipher) (x y : Bool)
      → Encrypts a x
      → Encrypts b y
      → 0 < phase ca cb offset x y
      → phase ca cb offset x y ≢ 4
      → Encrypts (t.hom_gate ca cb offset a b) (ltb (phase ca cb offset x y) 4)
  pub mux_encrypts :
      (s a b : t.Cipher) (z x y : Bool)
      → Encrypts s z
      → Encrypts a x
      → Encrypts b y
      → Encrypts (t.hom_mux s a b) (if z then x else y)
  pub nmux_encrypts :
      (s a b : t.Cipher) (z x y : Bool)
      → Encrypts s z
      → Encrypts a x
      → Encrypts b y
      → Encrypts (t.hom_nmux s a b) (not (if z then x else y))
  pub bootstrap_encrypts :
      (f : Bootstrap) (a b : t.Cipher) (x y : Bool)
      → Encrypts a x
      → Encrypts b y
      → Encrypts (t.bootstrap f a b) (bootstrap_fn f x y)
  pub not_bootstrap_encrypts :
      (a : t.Cipher) (x : Bool) → Encrypts a x → Encrypts (t.not_bootstrap a) (not x)
  pub mux_bootstrap_encrypts :
      (s a b : t.Cipher) (z x y : Bool)
      → Encrypts s z
      → Encrypts a x
      → Encrypts b y
      → Encrypts (t.mux_bootstrap s a b) (if z then x else y)
  pub nmux_bootstrap_encrypts :
      (s a b : t.Cipher) (z x y : Bool)
      → Encrypts s z
      → Encrypts a x
      → Encrypts b y
      → Encrypts (t.nmux_bootstrap s a b) (not (if z then x else y))
