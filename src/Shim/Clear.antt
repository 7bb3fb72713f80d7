-- ===== src/Shim/Clear.antt =====
-- The shim of include/iyokan-starpu-offload.hpp on bits in the clear, on a StarPU whose tasks run on a
-- device, with a first state and some calls.
use tangor.Base.{
  ◌≡◌, refl, Bool, true, false, ◌==◌, [], ◌∷◌, Option, none, some, arith, if◌then◌else◌,
}
use tangor.Tfhe.Clear.{clear, clear_laws}
use tangor.Codelets.{Worker, cpu_worker}
use tangor.Offload.{
  IyokanBinaryGate, and_gate, nand_gate, codelet_for, not_codelet, mux_codelet, run_gate, hom_xor,
}
use tangor.Offload.Table.{IyokanCodelet, binary, not_starpu, mux_starpu, mux_wo_se_starpu, cmux}
use tangor.Iyokan.{Outcome, value, throws, Backend, ensure_starpu}
use tangor.Iyokan.Memory.Assignments.{ComputesCmux}
use tangor.Iyokan.Memory.Device.{
  ClearCodelet, gate_codelet, cmux_codelet, run_clear, Device, device_api, device_memory,
  device_laws,
}
use tangor.Iyokan.Memory.Starting.{configured}
use tangor.Iyokan.Sessions.{initial}
use tangor.Shim.{HomCall, hom_gate, hom_mux}
use tangor.Shim.Sequences.{Encrypted, prepared-Encrypted}
use tangor.Shim.Bits.{Bits, RunsGates, Stores}
use tangor.Shim.Sequences.{Encrypted, prepared-Encrypted}

abbrev pub codelet : IyokanCodelet → ClearCodelet
codelet (binary g) = gate_codelet (codelet_for g)
codelet not_starpu = gate_codelet not_codelet
codelet mux_starpu = gate_codelet mux_codelet
codelet mux_wo_se_starpu = gate_codelet mux_codelet
codelet (cmux c) = cmux_codelet c

pub binary-runs :
    (g : IyokanBinaryGate) (a b v : Bool)
    → v ≡ run_clear (gate_codelet (codelet_for g)) (a ∷ b ∷ [])
    → (w : Worker) × (c : Bool) × (run_gate clear w (codelet_for g) (a ∷ b ∷ []) ≡ some c) × (v ≡ c)
unfolding run_clear codelet_for
binary-runs and_gate a b v e = (cpu_worker, _, refl, e)
binary-runs nand_gate a b v e = (cpu_worker, _, refl, e)
binary-runs _ a b v e = (cpu_worker, _, refl, e)

pub not-runs :
    (a v : Bool)
    → v ≡ run_clear (gate_codelet not_codelet) (a ∷ [])
    → (w : Worker) × (c : Bool) × (run_gate clear w not_codelet (a ∷ []) ≡ some c) × (v ≡ c)
unfolding run_clear
not-runs a v e = (cpu_worker, _, refl, e)

pub mux-runs :
    (s a b v : Bool)
    → v ≡ run_clear (gate_codelet mux_codelet) (s ∷ a ∷ b ∷ [])
    → (w : Worker) × (c : Bool) × (run_gate clear w mux_codelet (s ∷ a ∷ b ∷ []) ≡ some c) × (v ≡ c)
unfolding run_clear
mux-runs s a b v e = (cpu_worker, _, refl, e)

abbrev pub clear_runs : RunsGates clear device_memory codelet
clear_runs = record {
  lwe = λ c. c;
  binary_runs = binary-runs;
  not_runs = not-runs;
  mux_runs = mux-runs;
}

abbrev pub IsClearCmux : Bool → Bool → Bool → Bool → Type 0
IsClearCmux s a b v = v ≡ (if s then a else b)

pub clear-ComputesCmux : ComputesCmux device_memory IsClearCmux (λ c. codelet (cmux c))
unfolding run_clear
clear-ComputesCmux = record {
  plain = λ s a b v e. e;
  in_place_true = λ s a b v e. e;
  in_place_false = λ s a b v e. e;
}

-- The bits at 10 and 20 are true and false.
abbrev pub start : Device
start = record {
  memory = λ a. a == 10;
  variables = λ a. a == 70;
  next = 0;
  place = λ h. none;
  values = λ h. false;
  pending = [];
}

abbrev pub known : Bits
known a = if a == 10 then some true else if a == 20 then some false else none

pub start-Stores :
    Stores clear_laws device_memory codelet clear_runs IsClearCmux (device_memory.host start) known
start-Stores a x e = (a == 10, refl, ground arith)

unfoldable pub prepared : Backend device_api
unfolding ensure_starpu initial
prepared = (ensure_starpu device_api 5 (configured device_memory 0 0 start)).1

pub start-prepared :
    ensure_starpu device_api 5 (configured device_memory 0 0 start) ≡ (value tt, prepared)
unfolding prepared
start-prepared = refl

pub start-Encrypted :
    Encrypted clear_laws device_laws codelet clear_runs IsClearCmux false known prepared
start-Encrypted =
    prepared-Encrypted clear_laws device_laws codelet clear_runs IsClearCmux 5 0 0 start prepared
      known start-Stores start-prepared

abbrev pub state_of :
    Option (Outcome (Unit {0}) × Backend device_api) → Backend device_api → Backend device_api
state_of none b = b
state_of (some (r, s)) b = s

abbrev pub has_returned : Option (Outcome (Unit {0}) × Backend device_api) → Bool
has_returned none = false
has_returned (some (value r, s)) = true
has_returned (some (throws e, s)) = false

pub returned-state :
    (o : Option (Outcome (Unit {0}) × Backend device_api)) (b : Backend device_api)
    → has_returned o ≡ true
    → o ≡ some (value tt, state_of o b)
returned-state none b e = cc
returned-state (some (value r, s)) b e = refl
returned-state (some (throws x, s)) b e = cc

-- 30 = 10 ^ 20, then 40 = 30 ? 20 : 10.
abbrev pub xor_call : HomCall
xor_call = hom_gate hom_xor 30 10 20 5

abbrev pub mux_call : HomCall
mux_call = hom_mux 40 30 20 10 5
