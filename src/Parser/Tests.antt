-- ===== src/Parser/Tests.antt =====
-- The netlist of an inverted and and a feedthrough register, as a JSON document.
use tangor.Base.{List, ℕ, ◌≡◌, refl, [], ◌∷◌, String, arith}
use tangor.Base.Sort.{sort}
use tangor.Netlist.{GateStruct, ParsedBc}
use tangor.Graph.Cells.{binary, nand, andyn}
use tangor.Parser.Samples.{api, document, ports, cells}
use tangor.Parser.Yosys.{YosysPort, YosysCell, input, output, gate as gate_cell, register}
use tangor.Parser.Documents.{Describes, IsNetlistOf, parsed_bc-Describes}
use tangor.Parser.{
  ok, err, parsed_bc, gate_name_of, connected_bit, port_bits, port_definition_error,
}
use tangor.Parser.Results.{IsConsistent, parsed_bc-IsConsistent}

abbrev gate : String → ℕ → ℕ → ℕ → GateStruct
gate name a b out = record {
  name = name;
  in0 = a;
  in1 = b;
  in2 = 0;
  out0 = out;
  out1 = 0;
  out2 = 0;
}

-- The gates stand in the order of the cells, with the gate of the wire 5 after its reader.
abbrev good : ParsedBc
good = record {
  input_vector = 2 ∷ 3 ∷ [];
  output_vector = 6 ∷ 9 ∷ [];
  dff_q_vector = 9 ∷ [];
  dff_d_vector = 5 ∷ [];
  wire_vector = 5 ∷ [];
  gate_vector = gate "NAND" 2 5 6 ∷ gate "ANDYN" 3 2 5 ∷ [];
  direct_port_pair_vector = (9, 9) ∷ [];
  dependency_vector = 0 ∷ 0 ∷ 0 ∷ 0 ∷ 0 ∷ 2 ∷ 1 ∷ [];
}

good_parsed : parsed_bc api "good" ≡ ok good
unfolding parsed_bc api gate_name_of sort
good_parsed = refl

bad_parsed : parsed_bc api "bad" ≡ err port_definition_error
unfolding parsed_bc api
bad_parsed = refl

parsed_bc-IsConsistent_example : IsConsistent good
parsed_bc-IsConsistent_example = parsed_bc-IsConsistent api "good" good good_parsed

abbrev good_ports : List YosysPort
good_ports = input (3 ∷ []) ∷ output (9 ∷ []) ∷ input (2 ∷ []) ∷ output (6 ∷ []) ∷ []

abbrev good_cells : List YosysCell
good_cells = gate_cell (binary nand) 6 2 5 0 ∷ register 9 5 ∷ gate_cell (binary andyn) 5 3 2 0 ∷ []

good-Describes : Describes api "good" good_ports good_cells
unfolding api connected_bit port_bits
good-Describes = record {
  netlist = document ports cells;
  modules = _;
  main_module = _;
  port_values = ports;
  cell_values = cells;
  parses = refl;
  at_modules = refl;
  one_module = refl;
  at_ports = refl;
  at_cells = refl;
  are_ports = (
    ((_, refl, refl), refl),
    (((_, refl, refl), refl), (((_, refl, refl), refl), (((_, refl, refl), refl), tt))),
  );
  are_cells = (
    ((_, refl, refl), refl, omega arith, refl, refl),
    (((_, refl, refl), refl, refl), (((_, refl, refl), refl, omega arith, refl, refl), tt)),
  );
}

parsed_bc-Describes_example :
    (bc : ParsedBc) × (parsed_bc api "good" ≡ ok bc) × IsNetlistOf good_ports good_cells bc
parsed_bc-Describes_example = parsed_bc-Describes api "good" good_ports good_cells good-Describes
