-- ===== src/Hoge/Layout.antt =====
-- `HOGEinit` of src/hogewrapper.cpp: the choice of a device, where the words of the evaluation key
-- lie, and the memory banks and the kernel arguments of the buffers.
use tangor.Base.{
  ℕ, zero, suc, ◌+◌, ◌*◌, ◌/◌, ◌^◌, ◌<◌, Bool, List, [], ◌∷◌, Option, none, some, if◌then◌else◌,
  ◌==◌, ◌&&◌,
}

abbrev pub iksknumbus : ℕ
iksknumbus = 10

abbrev pub totaliksknumbus : ℕ
totaliksknumbus = 40

abbrev pub bknumbus : ℕ
bknumbus = 8

abbrev pub buswords : ℕ
buswords = 8

abbrev pub numcycle : ℕ
numcycle = 32

-- The words of a row of 512 bits, from the number of bits of `TFHEpp::lvl0param::T`.
unfoldable pub wordsinbus : ℕ → ℕ
wordsinbus digits = 2 ^ 9 / digits

-- The index into `iksk[i][j][k]` of the word at `ikskaligned[m][i][j][k][n][l]`, where a row has
-- `words` words.
unfoldable pub iksk_word : ℕ → ℕ → ℕ → ℕ → ℕ
iksk_word words m n l = n * iksknumbus * words + m * words + l

-- `for (int c = 0; c < n; c++)` over a body that changes a state.
unfoldable pub for_below {ℓ} : {S : Type ℓ} → ℕ → (ℕ → S → S) → S → S
for_below zero body s = s
for_below (suc n) body s = body n (for_below n body s)

-- The indices of an element of `ikskaligned`, `[m][i][j][k][n][l]`.
pub record IkskPlace : Type 0 where
  pub bus : ℕ
  pub i : ℕ
  pub j : ℕ
  pub k : ℕ
  pub group : ℕ
  pub place : ℕ

abbrev pub same_iksk : IkskPlace → IkskPlace → Bool
same_iksk p q =
    (p.bus == q.bus && (p.group == q.group && p.place == q.place))
    && (p.i == q.i && (p.j == q.j && p.k == q.k))

abbrev pub store_iksk {ℓ} : {W : Type ℓ} → IkskPlace → W → (IkskPlace → W) → IkskPlace → W
store_iksk p w memory q = if same_iksk p q then w else memory q

-- The loops that fill `ikskaligned` from the key-switching key, whose dimensions `n`, `t` and
-- `(1 << basebit) - 1` and number of bits are those of TFHEpp.
unfoldable pub fill_ikskaligned {ℓ} :
    {W : Type ℓ} → ℕ → ℕ → ℕ → ℕ → (ℕ → ℕ → ℕ → ℕ → W) → (IkskPlace → W) → IkskPlace → W
unfolding for_below iksk_word wordsinbus
fill_ikskaligned digits dim t base iksk = for_below dim λ i. for_below t λ j. for_below base λ k.
    for_below (wordsinbus digits) λ l. for_below iksknumbus λ m.
      for_below (totaliksknumbus / iksknumbus) λ n.
        store_iksk (record { bus = m; i = i; j = j; k = k; group = n; place = l })
          (iksk i j k (iksk_word (wordsinbus digits) m n l))

-- The first index of `bknttaligned`, and the index into `bkntt[i][l][k]`.
unfoldable pub bkntt_bus : ℕ → ℕ → ℕ
bkntt_bus k bus = k * bknumbus / 2 + bus

unfoldable pub bkntt_word : ℕ → ℕ → ℕ → ℕ
bkntt_word bus cycle word = cycle * bknumbus / 2 * buswords + bus * buswords + word

-- The indices of an element of `bknttaligned`, `[k*bknumbus/2+bus][i][l][cycle][word]`.
pub record BknttPlace : Type 0 where
  pub bus : ℕ
  pub i : ℕ
  pub l : ℕ
  pub cycle : ℕ
  pub word : ℕ

abbrev pub same_bkntt : BknttPlace → BknttPlace → Bool
same_bkntt p q =
    p.bus == q.bus && (p.i == q.i && (p.l == q.l && (p.cycle == q.cycle && p.word == q.word)))

abbrev pub store_bkntt {ℓ} : {W : Type ℓ} → BknttPlace → W → (BknttPlace → W) → BknttPlace → W
store_bkntt p w memory q = if same_bkntt p q then w else memory q

-- The loops that fill `bknttaligned` from the bootstrapping key, with the dimensions `n` and `2 * l`
-- of TFHEpp.
unfoldable pub fill_bknttaligned {ℓ} :
    {W : Type ℓ} → ℕ → ℕ → (ℕ → ℕ → ℕ → ℕ → W) → (BknttPlace → W) → BknttPlace → W
unfolding for_below bkntt_bus bkntt_word
fill_bknttaligned dim rows bkntt = for_below 2 λ k. for_below (bknumbus / 2) λ bus.
    for_below dim λ i. for_below rows λ l. for_below numcycle λ cycle. for_below buswords λ word.
      store_bkntt (record { bus = bkntt_bus k bus; i = i; l = l; cycle = cycle; word = word })
        (bkntt i l k (bkntt_word bus cycle word))

-- The loop over the devices: the first that takes the program, and `exit(EXIT_FAILURE)` without one.
unfoldable pub program_devices : List Bool → Option ℕ
program_devices [] = none
program_devices (programmed ∷ devices) =
    let rest = program_devices devices in
    if programmed then some 0 else elim rest [ none ↦ none | some i ↦ some (suc i) ]

-- The buffers of the device.
pub data DeviceBuffer : Type 0 where
  res ina inb : DeviceBuffer
  iksk bkntt : ℕ → DeviceBuffer

abbrev pub Exists : DeviceBuffer → Type 0
Exists (iksk i) = i < iksknumbus
Exists (bkntt i) = i < bknumbus
Exists _ = Unit {0}

-- The memory bank of a buffer, `PC_NAME(…)` or an element of `pc`.
unfoldable pub bank : DeviceBuffer → ℕ
bank res = 0
bank ina = 1
bank inb = 2
bank (iksk i) = i + 3
bank (bkntt i) = 20 + i

-- The argument of the kernel that is set to a buffer.
unfoldable pub argument : DeviceBuffer → ℕ
argument res = 3
argument ina = 4
argument inb = 5
argument (iksk i) = i + 6
argument (bkntt i) = i + 6 + iksknumbus
