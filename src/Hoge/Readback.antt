-- ===== src/Hoge/Readback.antt =====
-- Reading back from the memory that `HOGEinit` of src/hogewrapper.cpp fills, by the index into the
-- evaluation key.
use native.Mathlib.Nat.{mod-lt, div-add-mod', div-lt_iff_lt-mul, add-mul, mul-le-mul_right}
use tangor.Base.{ℕ, ◌+◌, ◌*◌, ◌/◌, ◌%◌, ◌<◌, ◌≤◌, ◌≡◌, sym, ap, ap₂, ◌∙◌, arith}
use tangor.Hoge.Layout.{
  iksknumbus, totaliksknumbus, bknumbus, buswords, wordsinbus, numcycle, iksk_word,
  fill_ikskaligned, bkntt_bus, bkntt_word, fill_bknttaligned, IkskPlace, BknttPlace,
}
use tangor.Hoge.Key.{fill_ikskaligned-Kept, fill_bknttaligned-Held}

-- Where the word `w` of `iksk[i][j][k]` is, where a row has `words` words.
abbrev pub find_iksk : ℕ → ℕ → ℕ → ℕ → ℕ → IkskPlace
find_iksk words i j k w = record {
  bus = w / words % iksknumbus;
  i = i;
  j = j;
  k = k;
  group = w / words / iksknumbus;
  place = w % words;
}

-- Where the word `w` of `bkntt[i][l][k]` is.
abbrev pub find_bkntt : ℕ → ℕ → ℕ → ℕ → BknttPlace
find_bkntt i l k w = record {
  bus = k * 4 + w / buswords % 4;
  i = i;
  l = l;
  cycle = w / (4 * buswords);
  word = w % buswords;
}

module _ (words : ℕ) (some_words : 0 < words) where
  iksk_word-find : (w : ℕ) → iksk_word words (w / words % 10) (w / words / 10) (w % words) ≡ w
  unfolding iksk_word
  iksk_word-find w =
      let x = w / words in
      let split : x / 10 * 10 + x % 10 ≡ x = omega arith in
      ap (λ (n : ℕ). n + w % words)
        (sym (add-mul (x / 10 * 10) (x % 10) words) ∙ ap (λ (n : ℕ). n * words) split)
      ∙ div-add-mod' w words

  find_iksk-group : (w : ℕ) → w < totaliksknumbus * words → w / words / 10 < 4
  find_iksk-group w lt =
      let below : w / words < 40 = (div-lt_iff_lt-mul some_words).1 lt in omega arith

find_bkntt-half : (k w : ℕ) → (k * 4 + w / buswords % 4) / 4 ≡ k
find_bkntt-half k w = omega arith

bkntt_word-find :
    (k w : ℕ)
    → w < 1024
    → bkntt_word ((k * 4 + w / buswords % 4) % 4) (w / (4 * buswords)) (w % buswords) ≡ w
unfolding bkntt_word
bkntt_word-find k w lt = omega arith

module _ {W : Type 0} where
  -- The memory for the key-switching key holds the whole key: at each of its places, also after any
  -- other contents, reading back the word `w` of `iksk[i][j][k]` gives that word.
  pub fill_ikskaligned-find :
      (digits dim t base i j k w : ℕ) (iksk : ℕ → ℕ → ℕ → ℕ → W) (memory : IkskPlace → W)
      → 0 < wordsinbus digits
      → i < dim
      → j < t
      → k < base
      → w < totaliksknumbus * wordsinbus digits
      → fill_ikskaligned digits dim t base iksk memory (find_iksk (wordsinbus digits) i j k w)
        ≡ iksk i j k w
  fill_ikskaligned-find digits dim t base i j k w iksk memory some_words li lj lk lw =
      let words = wordsinbus digits in
      fill_ikskaligned-Kept digits iksk dim t base memory (find_iksk words i j k w) li lj lk
        (mod-lt w some_words) (omega arith) (find_iksk-group words some_words w lw)
      ∙ ap (iksk i j k) (iksk_word-find words some_words w)

  -- The memory for the bootstrapping key holds its two polynomials of 1024 words whole: reading back
  -- the word `w` of `bkntt[i][l][k]` gives that word.
  pub fill_bknttaligned-find :
      (dim rows i l k w : ℕ) (bkntt : ℕ → ℕ → ℕ → ℕ → W) (memory : BknttPlace → W)
      → i < dim
      → l < rows
      → k < 2
      → w < 1024
      → fill_bknttaligned dim rows bkntt memory (find_bkntt i l k w) ≡ bkntt i l k w
  fill_bknttaligned-find dim rows i l k w bkntt memory li ll lk lw =
      fill_bknttaligned-Held bkntt dim rows memory (find_bkntt i l k w) (omega arith) li ll
        (omega arith) (omega arith)
      ∙ ap₂ (bkntt i l) (find_bkntt-half k w) (bkntt_word-find k w lw)

iksk_word-bounds :
    (words m n l : ℕ)
    → m < iksknumbus
    → n < totaliksknumbus / iksknumbus
    → l < words
    → iksk_word words m n l < totaliksknumbus * words
unfolding iksk_word
iksk_word-bounds words m n l lm ln ll =
    let e = add-mul (n * 10) m words in
    let row : (n * 10 + m) * words ≤ 39 * words = mul-le-mul_right words (omega arith) in
    omega arith

-- For the counters that the loops run through, the index into a row of the key-switching key is below
-- 40 times the words of a bus, and so a row has to have as many; the index into a polynomial of the
-- bootstrapping key is below 1024; and the first index of `bknttaligned` is below its length.
pub loops-bounds :
    (words m n l k bus cycle word : ℕ)
    → m < iksknumbus
    → n < totaliksknumbus / iksknumbus
    → l < words
    → k < 2
    → bus < bknumbus / 2
    → cycle < numcycle
    → word < buswords
    → (iksk_word words m n l < totaliksknumbus * words)
      × (bkntt_bus k bus < bknumbus)
      × (bkntt_word bus cycle word < 1024)
unfolding bkntt_bus bkntt_word
loops-bounds words m n l k bus cycle word lm ln ll lk lb lc lw =
    (iksk_word-bounds words m n l lm ln ll, omega arith, omega arith)
