-- ===== src/Hoge/Meaning.antt =====
-- The gates on the accelerator, include/hogewrapper.hpp, against the Boolean functions of the codelets.
use tangor.Base.{
  ℤ, ℕ, ◌+◌, ◌-◌, ◌%◌, ◌<◌, ◌≡◌, ◌≢◌, refl, ap, sym, subst, Bool, true, false, not, ◌&&◌, List, [],
  ◌∷◌, some, arith, map, if◌then◌else◌,
}
use tangor.Tfhe.{encode, phase}
use tangor.Codelets.{
  Codelet, CpuFunc, hom_gate_wrap, hom_not_wrap, hom_mux_wrap, hom_nmux_wrap, cpu_func, cl_hom_nand,
  cl_hom_nor, cl_hom_xnor, cl_hom_and, cl_hom_or, cl_hom_xor, cl_hom_andny, cl_hom_andyn,
  cl_hom_orny, cl_hom_oryn, cl_hom_not, cl_hom_mux, cl_hom_nmux,
}
use tangor.Codelets.Meaning.{
  Separates, apply_fn, Fn, binary, unary, ternary, codelet_fn, Computes, cpu_func-Computes,
}
use tangor.Hoge.{
  Kernel, HogeLaws, Board, scale_of, scale_index, zip_with, add_word, sub_word, neg_word, combine,
  hoge_wrap, hoge_mux_wrap, run_hoge,
}

-- The signs, scales and offsets that the accelerator has indices for.
abbrev HasIndex : ℤ → Type 0
HasIndex c = scale_of (scale_index c) ≡ c

abbrev Indexed : CpuFunc → Type 0
Indexed (hom_gate_wrap ca cb offset) = HasIndex ca × HasIndex cb × HasIndex offset
Indexed _ = Unit {0}

-- The kernel takes the three indices of every codelet for the codelet's own signs and offset.
pub cpu_func-Indexed : (c : Codelet) → Indexed (cpu_func c)
unfolding cpu_func scale_of scale_index
cpu_func-Indexed cl_hom_nand = (refl, refl, refl)
cpu_func-Indexed cl_hom_nor = (refl, refl, refl)
cpu_func-Indexed cl_hom_xnor = (refl, refl, refl)
cpu_func-Indexed cl_hom_and = (refl, refl, refl)
cpu_func-Indexed cl_hom_or = (refl, refl, refl)
cpu_func-Indexed cl_hom_xor = (refl, refl, refl)
cpu_func-Indexed cl_hom_andny = (refl, refl, refl)
cpu_func-Indexed cl_hom_andyn = (refl, refl, refl)
cpu_func-Indexed cl_hom_orny = (refl, refl, refl)
cpu_func-Indexed cl_hom_oryn = (refl, refl, refl)
cpu_func-Indexed cl_hom_not = tt
cpu_func-Indexed cl_hom_mux = tt
cpu_func-Indexed cl_hom_nmux = tt

zip_with-neg_word :
    (a b : List ℕ)
    → zip_with (λ o r. neg_word (sub_word o r)) a b ≡ map neg_word (zip_with sub_word a b)
unfolding zip_with
zip_with-neg_word [] b = refl
zip_with-neg_word (x ∷ a) [] = refl
zip_with-neg_word (x ∷ a) (y ∷ b) =
    ap (λ (c : List ℕ). neg_word (sub_word x y) ∷ c) (zip_with-neg_word a b)

-- What the codelet's function is to compute, in eighths.
sum_of_ands :
    (z x y : Bool)
    → ((encode (z && x) + encode (not z && y)) % 8 + 1) % 8 ≡ encode (if z then x else y)
unfolding encode
sum_of_ands z x y = ground arith

-- And what it computes where one of the ands is subtracted.
difference_of_ands :
    (z x y : Bool)
    → ((8 - (encode (z && x) + 8 - encode (not z && y)) % 8) % 8 + 7) % 8
      ≡ (if z && x then 5 else encode (not z && y))
unfolding encode
difference_of_ands z x y = ground arith

and-Separates : Separates (scale_of 0) (scale_of 0) (scale_of 2) (λ x y. x && y)
unfolding scale_of phase
and-Separates x y = ground arith

and_not-Separates : Separates (scale_of 2) (scale_of 0) (scale_of 2) (λ x y. not x && y)
unfolding scale_of phase
and_not-Separates x y = ground arith

module _ {k : Kernel} (laws : HogeLaws k) where
  open laws use {Carries}

  run-Carries :
      (ia ib io : ℕ) (f : Bool → Bool → Bool) (a b : List ℕ) (x y : Bool)
      → Separates (scale_of ia) (scale_of ib) (scale_of io) f
      → Carries a (encode x)
      → Carries b (encode y)
      → Carries (k.run ia ib io a b) (encode (f x y))
  run-Carries ia ib io f a b x y sep ea eb =
      let (lo, mid, hi) = sep x y in
      subst (Carries (k.run ia ib io a b)) (ap encode hi)
        (laws.run_carries ia ib io a b x y ea eb lo mid)

  hoge_wrap-Carries :
      (ca cb offset : ℤ) (f : Bool → Bool → Bool) (a b : List ℕ) (x y : Bool) (board : Board)
      → Separates ca cb offset f
      → Indexed (hom_gate_wrap ca cb offset)
      → Carries a (encode x)
      → Carries b (encode y)
      → Carries
          (hoge_wrap k (scale_index ca) (scale_index cb) (scale_index offset) a b board).0
          (encode (f x y))
  unfolding hoge_wrap
  hoge_wrap-Carries ca cb offset f a b x y board sep (ia, ib, io) ea eb =
      run-Carries (scale_index ca) (scale_index cb) (scale_index offset) f a b x y
        (rw (ia, ib, io) sep) ea eb

  -- The multiplexer on the accelerator leaves a ciphertext of the selected bit.
  pub hoge_mux_wrap-Carries :
      (s c1 c0 : List ℕ) (z x y : Bool) (board : Board)
      → Carries s (encode z)
      → Carries c1 (encode x)
      → Carries c0 (encode y)
      → Carries (hoge_mux_wrap k false s c1 c0 board).0 (encode (if z then x else y))
  unfolding hoge_mux_wrap
  hoge_mux_wrap-Carries s c1 c0 z x y board es e1 e0 =
      let first = run-Carries 0 0 2 (λ x y. x && y) s c1 z x and-Separates es e1 in
      let second = run-Carries 2 0 2 (λ x y. not x && y) s c0 z y and_not-Separates es e0 in
      let out = k.run 0 0 2 s c1 in
      let res = k.run 2 0 2 s c0 in
      let sum = laws.add_carries out res (encode (z && x)) (encode (not z && y)) first second in
      subst (Carries (combine false out res)) (sum_of_ands z x y) (
        laws.shift_carries (zip_with add_word out res) ((encode (z && x) + encode (not z && y)) % 8)
          1 sum)

  -- The position that the negated multiplexer leaves is none of its promise.
  misses_negation :
      (z x y : Bool)
      → ((if z && x then 5 else encode (not z && y)) < 8)
        × (encode (not (if z then x else y)) < 8)
        × ((if z && x then 5 else encode (not z && y)) ≢ encode (not (if z then x else y)))
  unfolding encode
  misses_negation false x false = (omega arith, omega arith, λ e. omega (arith, e))
  misses_negation false x true = (omega arith, omega arith, λ e. omega (arith, e))
  misses_negation true false y = (omega arith, omega arith, λ e. omega (arith, e))
  misses_negation true true y = (omega arith, omega arith, λ e. omega (arith, e))

  negated-Carries :
      (s c1 c0 : List ℕ) (z x y : Bool) (board : Board)
      → Carries s (encode z)
      → Carries c1 (encode x)
      → Carries c0 (encode y)
      → Carries (hoge_mux_wrap k true s c1 c0 board).0 (if z && x then 5 else encode (not z && y))
  unfolding hoge_mux_wrap
  negated-Carries s c1 c0 z x y board es e1 e0 =
      let first = run-Carries 0 0 2 (λ x y. x && y) s c1 z x and-Separates es e1 in
      let second = run-Carries 2 0 2 (λ x y. not x && y) s c0 z y and_not-Separates es e0 in
      let out = k.run 0 0 2 s c1 in
      let res = k.run 2 0 2 s c0 in
      let p = encode (z && x) in
      let q = encode (not z && y) in
      let difference = laws.sub_carries out res p q first second in
      let negated = laws.neg_carries (zip_with sub_word out res) ((p + 8 - q) % 8) difference in
      let as_combined =
        subst (λ c. Carries c ((8 - (p + 8 - q) % 8) % 8)) (sym (zip_with-neg_word out res))
          negated in
      subst (Carries (combine true out res)) (difference_of_ands z x y) (
        laws.shift_carries (zip_with (λ o r. neg_word (sub_word o r)) out res)
          ((8 - (p + 8 - q) % 8) % 8) 7 as_combined)

  -- On an accelerator whose kernel bootstraps what its indices name, the negated multiplexer leaves,
  -- where s and c1 are not both true, a ciphertext of `not s && c0`, and elsewhere a ciphertext of
  -- the torus position 5/8, which is that of no bit. For no inputs does the result have the position
  -- of the negation of the selected bit.
  pub hoge_mux_wrap-negated :
      (s c1 c0 : List ℕ) (z x y : Bool) (board : Board)
      → Carries s (encode z)
      → Carries c1 (encode x)
      → Carries c0 (encode y)
      → Carries (hoge_mux_wrap k true s c1 c0 board).0 (if z && x then 5 else encode (not z && y))
        × ¬ Carries (hoge_mux_wrap k true s c1 c0 board).0 (encode (not (if z then x else y)))
  hoge_mux_wrap-negated s c1 c0 z x y board es e1 e0 =
      let left = negated-Carries s c1 c0 z x y board es e1 e0 in
      let (lp, lq, ne) = misses_negation z x y in
      (left, λ promised. ne (laws.carries_apart _ _ _ lp lq left promised))

  -- The accelerator leaves a ciphertext of `v`.
  abbrev pub HogeYields : CpuFunc → List (List ℕ) → Board → Bool → Type 0
  HogeYields g inputs board v =
      (out : List ℕ) × (after : Board) × (run_hoge k g inputs board ≡ some (out, after))
      × Carries out (encode v)

  run_hoge-HogeYields :
      (g : CpuFunc) (fn : Fn) (a b : List ℕ) (x y v : Bool) (board : Board)
      → Computes g fn
      → Indexed g
      → Carries a (encode x)
      → Carries b (encode y)
      → apply_fn fn (x ∷ y ∷ []) ≡ some v
      → HogeYields g (a ∷ b ∷ []) board v
  unfolding run_hoge apply_fn
  run_hoge-HogeYields (hom_gate_wrap ca cb offset) (binary f) a b x y v board sep ind ea eb h =
      let result = hoge_wrap k (scale_index ca) (scale_index cb) (scale_index offset) a b board in
      let e : f x y ≡ v = cc in
      let carries = hoge_wrap-Carries ca cb offset f a b x y board sep ind ea eb in
      (result.0, result.1, refl, subst (Carries result.0) (ap encode e) carries)
  run_hoge-HogeYields (hom_gate_wrap ca cb offset) (unary f) _ _ _ _ _ _ _ _ _ _ h = ground arith
  run_hoge-HogeYields (hom_gate_wrap ca cb offset) (ternary f) _ _ _ _ _ _ _ _ _ _ h = ground arith
  run_hoge-HogeYields hom_not_wrap (unary f) _ _ _ _ _ _ _ _ _ _ h = ground arith
  run_hoge-HogeYields hom_mux_wrap (ternary f) _ _ _ _ _ _ _ _ _ _ h = ground arith
  run_hoge-HogeYields hom_nmux_wrap (ternary f) _ _ _ _ _ _ _ _ _ _ h = ground arith
  run_hoge-HogeYields _ _ _ _ _ _ _ _ wrong _ _ _ h = absurd wrong

  -- With every codelet of two inputs, and whatever the buffers of the accelerator held, the accelerator
  -- leaves a ciphertext of what the codelet's Boolean function gives at the bits of the inputs.
  pub codelet-HogeYields :
      (c : Codelet) (a b : List ℕ) (x y v : Bool) (board : Board)
      → Carries a (encode x)
      → Carries b (encode y)
      → apply_fn (codelet_fn c) (x ∷ y ∷ []) ≡ some v
      → HogeYields (cpu_func c) (a ∷ b ∷ []) board v
  codelet-HogeYields c a b x y v board =
      run_hoge-HogeYields (cpu_func c) (codelet_fn c) a b x y v board (cpu_func-Computes c)
        (cpu_func-Indexed c)
