-- ===== src/Parser/Steps.antt =====
-- The steps of src/yosys-json-parser.cpp and the invariant of the object under construction.
use tangor.Base.{
  ℕ, ◌≡◌, refl, ◌||◌, List, [], ◌∷◌, ◌++◌, arith, elem-append, length-append, String, str_eq,
}
use tangor.Netlist.{GateStruct}
use tangor.Json.{JsonApi}
use tangor.Parser.Rules.{
  Ensures, returns, fails, Ensures-bind, Ensures-if, Ensures-ok, for_each_invariant,
}
use tangor.Parser.Invariant.{
  IsWellFormed, AllCovered-mono, Extends, record_output-Covers, store_gate-IsWellFormed,
}
use tangor.Parser.{
  or_fail, Parsing, start, empty_gate, record_output, port_bits, parse_port, parse_register,
  parse_select, parse_adder, parse_more_inputs, parse_gate, parse_cell, parse_module, parse_modules,
  for_each, connected_bit, connection, field, json_error, gate_name_of,
}

push_inputs :
    (p : Parsing) (bits : List ℕ)
    → IsWellFormed p
    → IsWellFormed (record p { bc = record p.bc { input_vector = p.input_vector ++ bits } })
push_inputs p bits w = record {
  counted = w.counted;
  registers = w.registers;
  distinct = w.distinct;
  covered =
      AllCovered-mono p (record p { bc = record p.bc { input_vector = p.input_vector ++ bits } })
        p.gate_vector (λ x c. c) w.covered;
}

push_outputs :
    (p : Parsing) (bits : List ℕ)
    → IsWellFormed p
    → IsWellFormed (record p { bc = record p.bc { output_vector = p.output_vector ++ bits } })
push_outputs p bits w = record {
  counted = w.counted;
  registers = w.registers;
  distinct = w.distinct;
  covered =
      AllCovered-mono p (record p { bc = record p.bc { output_vector = p.output_vector ++ bits } })
        p.gate_vector (λ x c. (ground (arith, elem-append x p.output_vector bits), c.1)) w.covered;
}

push_register :
    (p : Parsing) (q d : ℕ)
    → IsWellFormed p
    → IsWellFormed (record p {
      bc = record p.bc {
        dff_q_vector = p.dff_q_vector ++ q ∷ [];
        dff_d_vector = p.dff_d_vector ++ d ∷ [];
      };
    })
push_register p q d w = record {
  counted = w.counted;
  registers = omega (
    arith,
    w.registers,
    length-append p.dff_q_vector (q ∷ []),
    length-append p.dff_d_vector (d ∷ []),
  );
  distinct = w.distinct;
  covered =
      AllCovered-mono p
        (record p {
          bc = record p.bc {
            dff_q_vector = p.dff_q_vector ++ q ∷ [];
            dff_d_vector = p.dff_d_vector ++ d ∷ [];
          };
        })
        p.gate_vector (λ x c. c) w.covered;
}

module _ (j : JsonApi) where
  parse_port-IsWellFormed :
      (port : j.Json) (p : Parsing) → IsWellFormed p → Ensures IsWellFormed (parse_port j port p)
  unfolding parse_port
  parse_port-IsWellFormed port p w = Ensures-bind (field j port "direction") λ d _.
      Ensures-bind (or_fail (j.get_string d) json_error) λ direction _.
        Ensures-if (str_eq direction "input")
          (λ _. Ensures-bind (port_bits j port) λ bits _. returns (push_inputs p bits w))
          (λ _.
            Ensures-if (str_eq direction "output")
              (λ _. Ensures-bind (port_bits j port) λ bits _. returns (push_outputs p bits w))
              (λ _. fails))

  parse_register-IsWellFormed :
      (cell : j.Json) (p : Parsing)
      → IsWellFormed p
      → Ensures IsWellFormed (parse_register j cell p)
  unfolding parse_register
  parse_register-IsWellFormed cell p w =
      Ensures-bind (connected_bit j cell "Q")
        λ q _. Ensures-bind (connected_bit j cell "D") λ d _. returns (push_register p q d w)

  -- What the reading of the other ports leaves of a gate: its first output.
  abbrev Keeps : GateStruct → Parsing → GateStruct × Parsing → Type 0
  Keeps gate p r = (r.0.out0 ≡ gate.out0) × Extends p r.1

  parse_adder-Keeps :
      (cell : j.Json) (gate : GateStruct) (p : Parsing)
      → IsWellFormed p
      → Ensures (Keeps gate p) (parse_adder j cell gate p)
  unfolding parse_adder
  parse_adder-Keeps cell gate p w = Ensures-bind (connected_bit j cell "X") λ x _.
      Ensures-bind (record_output x p) λ p' e.
        let (extends, _) = Ensures-ok p' (record_output-Covers x p w) e in
        Ensures-bind (connection j cell "C") λ carry _.
          Ensures-if (j.is_string carry) (λ _. returns (refl, extends))
            (λ _.
              Ensures-bind (or_fail (j.get_uint carry) json_error) λ c _. returns (refl, extends))

  parse_more_inputs-Keeps :
      (cell : j.Json) (gate : GateStruct) (p : Parsing)
      → IsWellFormed p
      → Ensures (Keeps gate p) (parse_more_inputs j cell gate p)
  unfolding parse_more_inputs parse_select
  parse_more_inputs-Keeps cell gate p w =
      let same : Extends p p = record { well_formed = w; more = λ x c. c } in
      Ensures-if (str_eq gate.name "NOT") (λ _. returns (refl, same))
        (λ _. Ensures-bind (connected_bit j cell "B") λ b _.
          Ensures-if (str_eq gate.name "MUX" || str_eq gate.name "NMUX")
            (λ _. Ensures-bind (connected_bit j cell "S") λ s _. returns (refl, same))
            (λ _.
              Ensures-if (str_eq gate.name "fa")
                (λ _. parse_adder-Keeps cell (record gate { in1 = b }) p w)
                (λ _. returns (refl, same))))

  parse_gate-IsWellFormed :
      (gate_name : String) (cell : j.Json) (p : Parsing)
      → IsWellFormed p
      → Ensures IsWellFormed (parse_gate j gate_name cell p)
  unfolding parse_gate
  parse_gate-IsWellFormed gate_name cell p w = Ensures-bind (connected_bit j cell "Y") λ y _.
      Ensures-bind (record_output y p) λ recorded e.
        let (first, covered) = Ensures-ok recorded (record_output-Covers y p w) e in
        Ensures-bind (connected_bit j cell "A") λ a _.
          let gate = record empty_gate { name = gate_name; in0 = a; out0 = y } in
          Ensures-bind (parse_more_inputs j cell gate recorded) λ r e'.
            let (out, extends) =
              Ensures-ok r (parse_more_inputs-Keeps cell gate recorded first.well_formed) e' in
            returns (
              store_gate-IsWellFormed r.0 r.1 extends.well_formed (rw out (extends.more y covered)))

  parse_cell-IsWellFormed :
      (cell : j.Json) (p : Parsing) → IsWellFormed p → Ensures IsWellFormed (parse_cell j cell p)
  unfolding parse_cell
  parse_cell-IsWellFormed cell p w = Ensures-bind (field j cell "type") λ type_json _.
      Ensures-bind (or_fail (j.get_string type_json) json_error) λ type _.
        Ensures-bind (gate_name_of type) λ name _.
          Ensures-if (str_eq name "SDFF_PP0") (λ _. parse_register-IsWellFormed cell p w)
            (λ _. parse_gate-IsWellFormed name cell p w)

  parse_module-IsWellFormed :
      (m : j.Json) (p : Parsing) → IsWellFormed p → Ensures IsWellFormed (parse_module j m p)
  unfolding parse_module
  parse_module-IsWellFormed m p w = Ensures-bind (field j m "ports") λ ports _.
      Ensures-bind (for_each j (parse_port j) (j.elements ports) p) λ p' e.
        let w' =
          Ensures-ok p'
            (for_each_invariant j IsWellFormed (parse_port j) parse_port-IsWellFormed
              (j.elements ports) p w)
            e in
        Ensures-bind (field j m "cells") λ cells _.
          for_each_invariant j IsWellFormed (parse_cell j) parse_cell-IsWellFormed
            (j.elements cells) p' w'

  start-IsWellFormed : IsWellFormed start
  start-IsWellFormed = record { counted = refl; registers = refl; distinct = tt; covered = tt }

  pub parse_modules-IsWellFormed : (text : String) → Ensures IsWellFormed (parse_modules j text)
  unfolding parse_modules
  parse_modules-IsWellFormed text = Ensures-bind (or_fail (j.parse text) json_error) λ netlist _.
      Ensures-bind (field j netlist "modules") λ modules _.
        for_each_invariant j IsWellFormed (parse_module j) parse_module-IsWellFormed
          (j.elements modules) start start-IsWellFormed
