-- ===== src/Hoge/Clear.antt =====
-- An instance of the assumptions on the accelerator of src/hogewrapper.cpp: one word, which is a
-- position on the torus, and gates in the clear.
use tangor.Base.{
  ℕ, ◌+◌, ◌-◌, ◌*◌, ◌%◌, ◌<◌, ◌≡◌, ◌≢◌, refl, sym, ap, ◌∙◌, Bool, true, false, List, [], ◌∷◌, arith,
  ltb, ◌==◌, map,
}
use tangor.Tfhe.{encode, phase}
use tangor.Hoge.{
  Kernel, HogeLaws, scale_of, mu, zip_with, add_word, sub_word, neg_word, add_to_last,
}

abbrev pub word : ℕ → List ℕ
word p = p * mu ∷ []

-- The bit of a ciphertext.
abbrev decode : List ℕ → Bool
decode [] = false
decode (a ∷ as') = a == mu

abbrev pub clear_kernel : Kernel
clear_kernel = record {
  run = λ ia ib io a b.
      word (encode (ltb (phase (scale_of ia) (scale_of ib) (scale_of io) (decode a) (decode b)) 4));
}

abbrev pub Clear : List ℕ → ℕ → Type 0
Clear c p = (c ≡ word p) × (p < 8)

decode-encode : (c : List ℕ) (x : Bool) → Clear c (encode x) → decode c ≡ x
unfolding encode
decode-encode c true e = rw e.0 refl
decode-encode c false e = rw e.0 refl

encode-lt : (x : Bool) → encode x < 8
unfolding encode
encode-lt true = omega arith
encode-lt false = omega arith

pub run-Clear :
    (ia ib io : ℕ) (a b : List ℕ) (x y : Bool)
    → Clear a (encode x)
    → Clear b (encode y)
    → 0 < phase (scale_of ia) (scale_of ib) (scale_of io) x y
    → phase (scale_of ia) (scale_of ib) (scale_of io) x y ≢ 4
    → Clear
        (clear_kernel.run ia ib io a b)
        (encode (ltb (phase (scale_of ia) (scale_of ib) (scale_of io) x y) 4))
unfolding encode
run-Clear ia ib io a b x y ea eb lo mid = (
  rw (decode-encode a x ea, decode-encode b y eb) refl,
  encode-lt (ltb (phase (scale_of ia) (scale_of ib) (scale_of io) x y) 4),
)

pub add-Clear :
    (a b : List ℕ) (p q : ℕ) → Clear a p → Clear b q → Clear (zip_with add_word a b) ((p + q) % 8)
unfolding zip_with
add-Clear a b p q (ea, la) (eb, lb) =
    let e : add_word (p * mu) (q * mu) ≡ (p + q) % 8 * mu = omega arith in
    (rw (ea, eb) (ap (λ (n : ℕ). n ∷ []) e), omega arith)

pub sub-Clear :
    (a b : List ℕ) (p q : ℕ)
    → Clear a p
    → Clear b q
    → Clear (zip_with sub_word a b) ((p + 8 - q) % 8)
unfolding zip_with
sub-Clear a b p q (ea, la) (eb, lb) =
    let e : sub_word (p * mu) (q * mu) ≡ (p + 8 - q) % 8 * mu = omega arith in
    (rw (ea, eb) (ap (λ (n : ℕ). n ∷ []) e), omega arith)

pub neg-Clear : (a : List ℕ) (p : ℕ) → Clear a p → Clear (map neg_word a) ((8 - p) % 8)
neg-Clear a p (ea, la) =
    let e : neg_word (p * mu) ≡ (8 - p) % 8 * mu = omega arith in
    (rw ea (ap (λ (n : ℕ). n ∷ []) e), omega arith)

pub shift-Clear : (a : List ℕ) (p m : ℕ) → Clear a p → Clear (add_to_last (m * mu) a) ((p + m) % 8)
unfolding add_to_last
shift-Clear a p m (ea, la) =
    let e : add_word (p * mu) (m * mu) ≡ (p + m) % 8 * mu = omega arith in
    (rw ea (ap (λ (n : ℕ). n ∷ []) e), omega arith)

pub Clear-apart : (a : List ℕ) (p q : ℕ) → p < 8 → q < 8 → Clear a p → Clear a q → p ≡ q
Clear-apart a p q lp lq (ea, _) (eb, _) =
    let e : p * mu ≡ q * mu = ap first_word (sym ea ∙ eb) in omega arith
  where
    first_word : List ℕ → ℕ
    first_word [] = 0
    first_word (x ∷ xs) = x

abbrev pub clear_hoge : HogeLaws clear_kernel
clear_hoge = record {
  Carries = Clear;
  run_carries = run-Clear;
  add_carries = add-Clear;
  sub_carries = sub-Clear;
  neg_carries = neg-Clear;
  shift_carries = shift-Clear;
  carries_apart = Clear-apart;
}
