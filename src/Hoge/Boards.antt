-- ===== src/Hoge/Boards.antt =====
-- The memory banks, the kernel arguments and the device that `HOGEinit` of src/hogewrapper.cpp chooses.
use tangor.Base.{
  ℕ, zero, suc, ◌-◌, ◌<◌, ◌≤◌, ◌≡◌, ◌≢◌, refl, sym, ap, ◌∙◌, Bool, true, false, List, [], ◌∷◌,
  Option, none, some, arith, get_elem?, ◌==◌, ltb, if◌then◌else◌,
}
use tangor.Hoge.Layout.{
  DeviceBuffer, res, ina, inb, iksk, bkntt, Exists, bank, argument, program_devices,
}

-- Whose a bank is, and whose an argument is.
abbrev bank_owner : ℕ → DeviceBuffer
bank_owner n =
    if n == 0
    then res
    else if n == 1
    then ina
    else if n == 2
    then inb
    else if ltb n 20
    then iksk (n - 3)
    else bkntt (n - 20)

abbrev argument_owner : ℕ → DeviceBuffer
argument_owner n =
    if n == 3
    then res
    else if n == 4
    then ina
    else if n == 5
    then inb
    else if ltb n 16
    then iksk (n - 6)
    else bkntt (n - 16)

bank_owner-bank : (a : DeviceBuffer) → Exists a → bank_owner (bank a) ≡ a
unfolding bank
bank_owner-bank res e = refl
bank_owner-bank ina e = refl
bank_owner-bank inb e = refl
bank_owner-bank (iksk i) e = grind arith
bank_owner-bank (bkntt i) e = grind arith

argument_owner-argument : (a : DeviceBuffer) → Exists a → argument_owner (argument a) ≡ a
unfolding argument
argument_owner-argument res e = refl
argument_owner-argument ina e = refl
argument_owner-argument inb e = refl
argument_owner-argument (iksk i) e = grind arith
argument_owner-argument (bkntt i) e = grind arith

bank-lt : (a : DeviceBuffer) → Exists a → bank a < 32
unfolding bank
bank-lt a e = ground arith

argument-le : (a : DeviceBuffer) → 3 ≤ argument a
unfolding argument
argument-le a = ground arith

-- Two buffers of the device share neither a memory bank nor an argument of the kernel. The banks are
-- among the 32 of `pc`, and no argument is one of the three numbers that a gate sets.
pub bank-argument :
    (a b : DeviceBuffer)
    → Exists a
    → Exists b
    → (bank a < 32)
      × (3 ≤ argument a)
      × (bank a ≡ bank b → a ≡ b)
      × (argument a ≡ argument b → a ≡ b)
bank-argument a b ea eb = (
  bank-lt a ea,
  argument-le a,
  λ e. sym (bank_owner-bank a ea) ∙ ap bank_owner e ∙ bank_owner-bank b eb,
  λ e. sym (argument_owner-argument a ea) ∙ ap argument_owner e ∙ argument_owner-argument b eb,
)

-- The first device that takes the program, or none where no device does.
abbrev pub Chosen : List Bool → Option ℕ → Type 0
Chosen devices none = (j : ℕ) → get_elem? devices j ≢ some true
Chosen devices (some i) =
    (get_elem? devices i ≡ some true) × ((j : ℕ) → j < i → get_elem? devices j ≡ some false)

none_after :
    (devices : List Bool)
    → Chosen devices none
    → (j : ℕ) → get_elem? (false ∷ devices) j ≢ some true
none_after devices c zero e = ground arith
none_after devices c (suc j) e = c j e

one_after :
    (devices : List Bool) (i : ℕ)
    → ((j : ℕ) → j < i → get_elem? devices j ≡ some false)
    → (j : ℕ) → j < suc i
    → get_elem? (false ∷ devices) j ≡ some false
one_after devices i before zero lt = refl
one_after devices i before (suc j) lt = before j (omega arith)

Chosen-next :
    (devices : List Bool) (rest : Option ℕ)
    → Chosen devices rest
    → Chosen (false ∷ devices) (elim rest [ none ↦ none | some i ↦ some (suc i) ])
Chosen-next devices none c = none_after devices c
Chosen-next devices (some i) (there, before) = (there, one_after devices i before)

-- `HOGEinit` takes the first device that the program fits, and exits only where it fits none.
pub program_devices-Chosen : (devices : List Bool) → Chosen devices (program_devices devices)
unfolding program_devices
program_devices-Chosen [] = λ j e. ground arith
program_devices-Chosen (true ∷ devices) = (refl, λ j lt. absurd (omega arith))
program_devices-Chosen (false ∷ devices) =
    Chosen-next devices (program_devices devices) (program_devices-Chosen devices)
