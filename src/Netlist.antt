-- ===== src/Netlist.antt =====
-- include/yosys-json-parser.hpp: what the parser hands to the graph builder.
use tangor.Base.{ℕ, List, String}

-- The arrays `in` and `out` of `GateStruct`, of three elements each.
pub record GateStruct : Type 0 where
  pub name : String
  pub in0 : ℕ
  pub in1 : ℕ
  pub in2 : ℕ
  pub out0 : ℕ
  pub out1 : ℕ
  pub out2 : ℕ

pub record ParsedBc : Type 0 where
  pub input_vector : List ℕ
  pub output_vector : List ℕ
  pub dff_q_vector : List ℕ
  pub dff_d_vector : List ℕ
  pub wire_vector : List ℕ
  pub gate_vector : List GateStruct
  pub direct_port_pair_vector : List (ℕ × ℕ)
  pub dependency_vector : List ℕ
