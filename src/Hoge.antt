-- ===== src/Hoge.antt =====
-- src/hogewrapper.cpp, include/hogewrapper.hpp and the branches of include/wrappedcodelets.hpp and
-- src/wrappedcodelets.cpp for `USE_HOGE`: gates on the FPGA accelerator HOGE. A ciphertext is the
-- vector of its words, which are unsigned numbers of 32 bits.
pub mod Layout
pub mod Loops
pub mod Key
pub mod Readback
pub mod Boards
pub mod Clear
pub mod Meaning
mod Tests
use tangor.Tfhe.{encode, phase}
use tangor.Codelets.{
  Codelet, CpuFunc, hom_gate_wrap, hom_not_wrap, hom_mux_wrap, hom_nmux_wrap, cpu_func,
}
use tangor.Base.{
  ◌<◌, ◌≡◌, ◌≢◌, ltb, map, ℤ, pos, negsuc, ℕ, zero, suc, ◌+◌, ◌-◌, ◌*◌, ◌%◌, ◌^◌, Bool, true, false,
  List, [], ◌∷◌, Option, none, some, ◌==◌, if◌then◌else◌,
}

-- `P::μ`, an eighth of the torus.
abbrev pub mu : ℕ
mu = 2 ^ 29

-- Arithmetic on words wraps.
abbrev pub add_word : ℕ → ℕ → ℕ
add_word a b = (a + b) % 2 ^ 32

abbrev pub neg_word : ℕ → ℕ
neg_word a = (2 ^ 32 - a) % 2 ^ 32

abbrev pub sub_word : ℕ → ℕ → ℕ
sub_word a b = (a + 2 ^ 32 - b) % 2 ^ 32

-- A loop over the words of two vectors of one length.
unfoldable pub zip_with : (ℕ → ℕ → ℕ) → List ℕ → List ℕ → List ℕ
zip_with f (a ∷ xs) (b ∷ ys) = f a b ∷ zip_with f xs ys
zip_with f _ _ = []

-- `…[P::n] += k`: the last word.
unfoldable pub add_to_last : ℕ → List ℕ → List ℕ
add_to_last k [] = []
add_to_last k (a ∷ []) = add_word a k ∷ []
add_to_last k (a ∷ b ∷ bs) = a ∷ add_to_last k (b ∷ bs)

-- `HomGate`, the kernel that is loaded into the FPGA: from the indices of the scales and the offset
-- and the contents of the input buffers to that of the result buffer.
pub record Kernel : Type 0 where
  pub run : ℕ → ℕ → ℕ → List ℕ → List ℕ → List ℕ

-- The host buffers of the file, the arguments 0 to 2 of the kernel, and the buffers of the device.
pub record Board : Type 0 where
  pub buftlwea : List ℕ
  pub buftlweb : List ℕ
  pub bufres : List ℕ
  pub scalea : ℕ
  pub scaleb : ℕ
  pub offset : ℕ
  pub device_ina : List ℕ
  pub device_inb : List ℕ
  pub device_res : List ℕ

-- `enqueueMigrateMemObjects` from the host for the one input buffer or for the other.
unfoldable pub migrate_ina : Board → Board
migrate_ina b = record b { device_ina = b.buftlwea }

unfoldable pub migrate_inb : Board → Board
migrate_inb b = record b { device_inb = b.buftlweb }

unfoldable pub migrate_res : Board → Board
migrate_res b = record b { bufres = b.device_res }

unfoldable pub enqueue_task : Kernel → Board → Board
enqueue_task k b = record b {
  device_res = k.run b.scalea b.scaleb b.offset b.device_ina b.device_inb;
}

-- `HOGEwrap`: what is left in `buffers[0]` from the contents of `buffers[1]` and `buffers[2]`, and the
-- board.
unfoldable pub hoge_wrap : Kernel → ℕ → ℕ → ℕ → List ℕ → List ℕ → Board → List ℕ × Board
unfolding migrate_ina migrate_inb migrate_res enqueue_task
hoge_wrap k scaleaindex scalebindex offsetindex ina inb b =
    let copied = record b { buftlwea = ina; buftlweb = inb } in
    let set = record copied { scalea = scaleaindex; scaleb = scalebindex; offset = offsetindex } in
    let done = migrate_res (enqueue_task k (migrate_inb (migrate_ina set))) in (done.bufres, done)

-- The last loop and the last line of `HOGEMUXwrap`, from the first result and `bufres`.
unfoldable pub combine : Bool → List ℕ → List ℕ → List ℕ
unfolding zip_with add_to_last
combine true out res = add_to_last (neg_word mu) (zip_with (λ o r. neg_word (sub_word o r)) out res)
combine false out res = add_to_last mu (zip_with add_word out res)

-- `HOGEMUXwrap<negate>`: the second run sets one argument and moves one buffer.
unfoldable pub hoge_mux_wrap : Kernel → Bool → List ℕ → List ℕ → List ℕ → Board → List ℕ × Board
unfolding migrate_ina migrate_inb migrate_res enqueue_task combine
hoge_mux_wrap k negate ins c1 c0 b =
    let copied = record b { buftlwea = ins; buftlweb = c1 } in
    let set = record copied { scalea = 0; scaleb = 0; offset = 2 } in
    let first = migrate_res (enqueue_task k (migrate_inb (migrate_ina set))) in
    let again = record first { buftlweb = c0; scalea = 2 } in
    let second = migrate_res (enqueue_task k (migrate_inb again)) in
    (combine negate first.bufres second.bufres, second)

abbrev is_negative : ℤ → Bool
is_negative (pos n) = false
is_negative (negsuc n) = true

abbrev is_two : ℤ → Bool
is_two (pos n) = n == 2
is_two (negsuc n) = false

abbrev is_minus_two : ℤ → Bool
is_minus_two (pos n) = false
is_minus_two (negsuc n) = n == 1

-- `scaleaindex`, `scalebindex` and `offsetindex` of `HomGateWrap`, with the offset in units of `P::μ`.
unfoldable pub scale_index : ℤ → ℕ
scale_index c =
    if is_negative c then (if is_minus_two c then 3 else 2) else (if is_two c then 1 else 0)

-- The functions of the codelets on the worker 0 of a build with `USE_HOGE`; `none` where they would
-- read a buffer that the task does not have, and for `HomNOTWrap`, which does not use the accelerator.
unfoldable pub run_hoge : Kernel → CpuFunc → List (List ℕ) → Board → Option (List ℕ × Board)
unfolding hoge_wrap hoge_mux_wrap scale_index
run_hoge k (hom_gate_wrap ca cb offset) (ina ∷ inb ∷ []) b =
    some (hoge_wrap k (scale_index ca) (scale_index cb) (scale_index offset) ina inb b)
run_hoge k hom_mux_wrap (ins ∷ c1 ∷ c0 ∷ []) b = some (hoge_mux_wrap k false ins c1 c0 b)
run_hoge k hom_nmux_wrap (ins ∷ c1 ∷ c0 ∷ []) b = some (hoge_mux_wrap k true ins c1 c0 b)
run_hoge k _ _ b = none

-- What the kernel takes an index for: ±1 and ±2.
unfoldable pub scale_of : ℕ → ℤ
scale_of zero = pos 1
scale_of (suc zero) = pos 2
scale_of (suc (suc zero)) = negsuc 0
scale_of (suc (suc (suc n))) = negsuc 1

-- What is assumed of the kernel and of the ciphertexts. `Carries c p`: the words `c` are a ciphertext
-- of the torus position `p` in eighths, with little noise. The kernel bootstraps the linear combination
-- that the three indices name, and ciphertexts are linear.
pub record HogeLaws (k : Kernel) : Type 1 where
  pub Carries : List ℕ → ℕ → Type 0
  pub run_carries :
      (ia ib io : ℕ) (a b : List ℕ) (x y : Bool)
      → Carries a (encode x)
      → Carries b (encode y)
      → 0 < phase (scale_of ia) (scale_of ib) (scale_of io) x y
      → phase (scale_of ia) (scale_of ib) (scale_of io) x y ≢ 4
      → Carries
          (k.run ia ib io a b)
          (encode (ltb (phase (scale_of ia) (scale_of ib) (scale_of io) x y) 4))
  pub add_carries :
      (a b : List ℕ) (p q : ℕ)
      → Carries a p
      → Carries b q
      → Carries (zip_with add_word a b) ((p + q) % 8)
  pub sub_carries :
      (a b : List ℕ) (p q : ℕ)
      → Carries a p
      → Carries b q
      → Carries (zip_with sub_word a b) ((p + 8 - q) % 8)
  pub neg_carries : (a : List ℕ) (p : ℕ) → Carries a p → Carries (map neg_word a) ((8 - p) % 8)
  pub shift_carries :
      (a : List ℕ) (p m : ℕ) → Carries a p → Carries (add_to_last (m * mu) a) ((p + m) % 8)
  -- With that little noise, a ciphertext has one position.
  pub carries_apart : (a : List ℕ) (p q : ℕ) → p < 8 → q < 8 → Carries a p → Carries a q → p ≡ q
