-- ===== src/Tfhe/Clear.antt =====
-- An instance of the assumptions on TFHEpp and cuFHEpp: bits in the clear, with a gate computed as the
-- bootstrapping does, by the half of the torus that its linear combination falls in.
use tangor.Base.{ℤ, ◌<◌, ◌≡◌, refl, ◌≢◌, Bool, false, not, ltb, if◌then◌else◌}
use tangor.Tfhe.{Tfhe, TfheLaws, phase, Bootstrap, bootstrap_fn}

abbrev pub clear : Tfhe
clear = record {
  Cipher = Bool;
  blank = false;
  hom_constant_zero = false;
  hom_not = λ a. not a;
  hom_gate = λ ca cb offset a b. ltb (phase ca cb offset a b) 4;
  hom_mux = λ s a b. if s then a else b;
  hom_nmux = λ s a b. not (if s then a else b);
  bootstrap = bootstrap_fn;
  not_bootstrap = λ a. not a;
  mux_bootstrap = λ s a b. if s then a else b;
  nmux_bootstrap = λ s a b. not (if s then a else b);
}

pub gate_clear :
    (ca cb offset : ℤ) (a b x y : Bool)
    → a ≡ x
    → b ≡ y
    → 0 < phase ca cb offset x y
    → phase ca cb offset x y ≢ 4
    → ltb (phase ca cb offset a b) 4 ≡ ltb (phase ca cb offset x y) 4
gate_clear ca cb offset a b x y p q lo mid = rw (p, q)

pub not_clear : (a x : Bool) → a ≡ x → not a ≡ not x
not_clear a x p = rw p

pub mux_clear :
    (s a b z x y : Bool) → s ≡ z → a ≡ x → b ≡ y → (if s then a else b) ≡ (if z then x else y)
mux_clear s a b z x y r p q = rw (r, p, q)

pub nmux_clear :
    (s a b z x y : Bool)
    → s ≡ z
    → a ≡ x
    → b ≡ y
    → not (if s then a else b) ≡ not (if z then x else y)
nmux_clear s a b z x y r p q = rw (r, p, q)

pub bootstrap_clear :
    (f : Bootstrap) (a b x y : Bool) → a ≡ x → b ≡ y → bootstrap_fn f a b ≡ bootstrap_fn f x y
bootstrap_clear f a b x y p q = rw (p, q)

abbrev pub clear_laws : TfheLaws clear
clear_laws = record {
  Encrypts = λ c x. c ≡ x;
  constant_zero_encrypts = refl;
  not_encrypts = not_clear;
  gate_encrypts = gate_clear;
  mux_encrypts = mux_clear;
  nmux_encrypts = nmux_clear;
  bootstrap_encrypts = bootstrap_clear;
  not_bootstrap_encrypts = not_clear;
  mux_bootstrap_encrypts = mux_clear;
  nmux_bootstrap_encrypts = nmux_clear;
}
