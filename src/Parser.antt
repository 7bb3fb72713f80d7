-- ===== src/Parser.antt =====
-- src/yosys-json-parser.cpp, in the default build (without `USE_M12`): the constructor of `ParsedBC`.
mod Rules
pub mod Invariant
mod Steps
pub mod Results
pub mod Yosys
pub mod Documents
pub mod Samples
mod Tests
use tangor.Base.{
  ℤ, pos, negsuc, ℕ, zero, suc, ◌+◌, ◌-◌, ◌%◌, ◌^◌, Bool, true, false, not, ◌&&◌, ◌||◌, List, [],
  ◌∷◌, ◌++◌, map, Option, none, some, String, str_eq, ltb, leb, if◌then◌else◌, length, get_or, set,
  resize, elem, find,
}
use tangor.Base.Sort.{sort}
use tangor.Netlist.{GateStruct, ParsedBc}
use tangor.Json.{JsonApi}

-- `throw 1`; an exception or a failed precondition of nlohmann::json; a cell type that is too short
-- for `erase` and `pop_back`, or a write past the end of `dependency_vector`, which are undefined behaviour.
pub data Failure : Type 0 where
  port_definition_error json_error short_cell_type write_past_end : Failure

pub data Result {ℓ} (A : Type ℓ) : Type ℓ where
  ok : A → Result A
  err : Failure → Result A

infixl 5 ◌>>=◌ ◌>>◌
abbrev pub ◌>>=◌ {ℓ κ} : {A : Type ℓ} {B : Type κ} → Result A → (A → Result B) → Result B
ok a >>= f = f a
err e >>= f = err e

abbrev ◌>>◌ {ℓ} : {B : Type ℓ} → Result (Unit {0}) → Result B → Result B
m >> k = m >>= λ _. k

abbrev pub or_fail {ℓ} : {A : Type ℓ} → Option A → Failure → Result A
or_fail none e = err e
or_fail (some a) e = ok a

-- The object under construction, with the local variable `gate_index`.
pub record Parsing : Type 0 where
  pub bc : ParsedBc
  pub open bc use *
  pub gate_index : ℕ

abbrev pub empty_gate : GateStruct
empty_gate = record { name = ""; in0 = 0; in1 = 0; in2 = 0; out0 = 0; out1 = 0; out2 = 0 }

abbrev pub start : Parsing
start = record {
  bc = record {
    input_vector = [];
    output_vector = [];
    dff_q_vector = [];
    dff_d_vector = [];
    wire_vector = [];
    gate_vector = [];
    direct_port_pair_vector = [];
    dependency_vector = [];
  };
  gate_index = 1;
}

-- An `int` stored in a vector of `uint`.
unfoldable pub to_uint : ℤ → ℕ
to_uint (pos n) = n % 2 ^ 32
to_uint (negsuc n) = 2 ^ 32 - 1 - n % 2 ^ 32

-- `gate_name.erase(gate_name.begin(), gate_name.begin() + 2)` and `gate_name.pop_back()`.
unfoldable pub erase_two : String → Option String
erase_two (String.◌∷◌ c (String.◌∷◌ d s)) = some s
erase_two _ = none

unfoldable pub pop_back : String → Option String
pop_back String.[] = none
pop_back (String.◌∷◌ c s) = elim (pop_back s) [ none ↦ some "" | some r ↦ some (String.◌∷◌ c r) ]

unfoldable pub gate_name_of : String → Result String
unfolding erase_two pop_back
gate_name_of type = do
  name ← if str_eq type "$fa" then ok "fa" else (do
    rest ← or_fail (erase_two type) short_cell_type
    or_fail (pop_back rest) short_cell_type)
  if str_eq name "ANDNOT" then ok "ANDYN" else if str_eq name "ORNOT" then ok "ORYN" else ok name

-- An output bit that is neither an output of the netlist nor a wire is pushed to the wires.
unfoldable pub add_wire : ℕ → List ℕ → List ℕ → List ℕ
add_wire output_bit outputs wires =
    if not (elem output_bit outputs) && not (elem output_bit wires)
    then wires ++ output_bit ∷ []
    else wires

-- `dependency_vector[output_bit] = gate_index`, after a `resize` where that is needed, whose argument is a
-- `uint`.
unfoldable pub set_dependency : ℕ → ℕ → List ℕ → Result (List ℕ)
set_dependency output_bit gate_index dependencies =
    let resized =
      if leb (length dependencies) output_bit
      then resize ((output_bit + 1) % 2 ^ 32) 0 dependencies
      else dependencies in
    if ltb output_bit (length resized)
    then ok (set resized output_bit gate_index)
    else err write_past_end

-- The block of the source that is run for the port `Y`, and for `X` of an adder.
unfoldable pub record_output : ℕ → Parsing → Result Parsing
unfolding add_wire set_dependency
record_output output_bit p = do
  dependencies ← set_dependency output_bit p.gate_index p.dependency_vector
  ok (record p {
    bc = record p.bc {
      wire_vector = add_wire output_bit p.output_vector p.wire_vector;
      dependency_vector = dependencies;
    };
  })

-- `gate_vector[gate_index - 1] = gate`, after the `resize`.
unfoldable pub place_gate : ℕ → GateStruct → List GateStruct → List GateStruct
place_gate gate_index gate gates =
    set (if ltb (length gates) gate_index then resize gate_index empty_gate gates else gates)
      (gate_index - 1) gate

-- The finished gate, and `gate_index++`.
unfoldable pub store_gate : GateStruct → Parsing → Parsing
unfolding place_gate
store_gate gate p = record p {
  bc = record p.bc { gate_vector = place_gate p.gate_index gate p.gate_vector };
  gate_index = p.gate_index + 1;
}

module _ (j : JsonApi) where
  abbrev field : j.Json → String → Result j.Json
  field v key = or_fail (j.at_key v key) json_error

  -- `cell_json["connections"][port][0]`.
  unfoldable pub connection : j.Json → String → Result j.Json
  connection cell port = do
    connections ← field cell "connections"
    bits ← field connections port
    or_fail (j.first bits) json_error

  unfoldable pub connected_bit : j.Json → String → Result ℕ
  unfolding connection
  connected_bit cell port = do bit ← connection cell port; or_fail (j.get_uint bit) json_error

  -- The elements of `port_json["bits"].get<std::vector<int>>()`, as they are pushed.
  unfoldable pub port_bits : j.Json → Result (List ℕ)
  unfolding to_uint
  port_bits port = do
    bits_json ← field port "bits"
    bits ← or_fail (j.get_ints bits_json) json_error
    ok (map to_uint bits)

  unfoldable pub parse_port : j.Json → Parsing → Result Parsing
  unfolding port_bits
  parse_port port p = do
    direction_json ← field port "direction"
    direction ← or_fail (j.get_string direction_json) json_error
    if str_eq direction "input"
        then (do
          bits ← port_bits port
          ok (record p { bc = record p.bc { input_vector = p.input_vector ++ bits } }))
        else if str_eq direction "output"
        then (do
          bits ← port_bits port
          ok (record p { bc = record p.bc { output_vector = p.output_vector ++ bits } }))
        else err port_definition_error

  unfoldable pub parse_register : j.Json → Parsing → Result Parsing
  unfolding connected_bit
  parse_register cell p = do
    q ← connected_bit cell "Q"
    d ← connected_bit cell "D"
    ok (record p {
      bc = record p.bc {
        dff_q_vector = p.dff_q_vector ++ q ∷ [];
        dff_d_vector = p.dff_d_vector ++ d ∷ [];
      };
    })

  -- The third input of a multiplexer.
  unfoldable pub parse_select : j.Json → GateStruct → Parsing → Result (GateStruct × Parsing)
  unfolding connected_bit
  parse_select cell gate p = do s ← connected_bit cell "S"; ok (record gate { in2 = s }, p)

  -- The second output of an adder, and its third input: a constant there makes it a half adder.
  unfoldable pub parse_adder : j.Json → GateStruct → Parsing → Result (GateStruct × Parsing)
  unfolding connected_bit connection record_output
  parse_adder cell gate p = do
    x ← connected_bit cell "X"
    p' ← record_output x p
    carry ← connection cell "C"
    if j.is_string carry then ok (record gate { out1 = x; name = "ha" }, p') else (do
      c ← or_fail (j.get_uint carry) json_error
      ok (record gate { out1 = x; in2 = c }, p'))

  unfoldable pub parse_more_inputs : j.Json → GateStruct → Parsing → Result (GateStruct × Parsing)
  unfolding connected_bit parse_select parse_adder
  parse_more_inputs cell gate p = if str_eq gate.name "NOT" then ok (gate, p) else (do
    b ← connected_bit cell "B"
    let gate' = record gate { in1 = b }
    if str_eq gate.name "MUX" || str_eq gate.name "NMUX"
        then parse_select cell gate' p
        else if str_eq gate.name "fa"
        then parse_adder cell gate' p
        else ok (gate', p))

  unfoldable pub parse_gate : String → j.Json → Parsing → Result Parsing
  unfolding connected_bit parse_more_inputs store_gate record_output
  parse_gate gate_name cell p = do
    output_bit ← connected_bit cell "Y"
    recorded ← record_output output_bit p
    a ← connected_bit cell "A"
    (gate, p') ←
        parse_more_inputs cell (record empty_gate { name = gate_name; in0 = a; out0 = output_bit })
          recorded
    ok (store_gate gate p')

  unfoldable pub parse_cell : j.Json → Parsing → Result Parsing
  unfolding gate_name_of parse_register parse_gate
  parse_cell cell p = do
    type_json ← field cell "type"
    type ← or_fail (j.get_string type_json) json_error
    gate_name ← gate_name_of type
    if str_eq gate_name "SDFF_PP0" then parse_register cell p else parse_gate gate_name cell p

  -- A range-based `for` over JSON values.
  unfoldable pub for_each :
      (j.Json → Parsing → Result Parsing) → List j.Json → Parsing → Result Parsing
  for_each body [] p = ok p
  for_each body (v ∷ vs) p = do p' ← body v p; for_each body vs p'

  unfoldable pub parse_module : j.Json → Parsing → Result Parsing
  unfolding for_each parse_port parse_cell
  parse_module m p = do
    ports ← field m "ports"
    p' ← for_each parse_port (j.elements ports) p
    cells ← field m "cells"
    for_each parse_cell (j.elements cells) p'

  unfoldable pub parse_modules : String → Result Parsing
  unfolding for_each parse_module
  parse_modules jsonstring = do
    netlist ← or_fail (j.parse jsonstring) json_error
    modules ← field netlist "modules"
    for_each parse_module (j.elements modules) start

-- "If DFF's Q port is connected to output, needs copy at last."
unfoldable pub direct_pairs : List ℕ → List ℕ → List (ℕ × ℕ)
direct_pairs outputs [] = []
direct_pairs outputs (q ∷ qs) =
    let rest = direct_pairs outputs qs in
    elim (find outputs q) [ none ↦ rest | some i ↦ (q, get_or outputs i 0) ∷ rest ]

unfoldable pub finish : Parsing → ParsedBc
unfolding direct_pairs
finish p = record p.bc {
  direct_port_pair_vector = direct_pairs p.output_vector p.dff_q_vector;
  input_vector = sort p.input_vector;
  output_vector = sort p.output_vector;
  wire_vector = sort p.wire_vector;
}

unfoldable pub parsed_bc : (j : JsonApi) → String → Result ParsedBc
unfolding parse_modules finish
parsed_bc j jsonstring = do p ← parse_modules j jsonstring; ok (finish p)
