-- ===== src/Parser/Yosys.antt =====
-- What a JSON document of Yosys describes, and the steps of src/yosys-json-parser.cpp on its cells.
use tangor.Base.{
  str_eq, ℕ, ◌+◌, ◌<◌, ◌%◌, ◌^◌, ◌≡◌, refl, true, false, arith, ltb, leb, length, set, resize,
  length-resize, Bool-cases, inl, inr, if◌then◌else◌, List, [], ◌∷◌, ◌++◌, some, String,
}
use tangor.Netlist.{GateStruct}
use tangor.Json.{JsonApi}
use tangor.Graph.Cells.{Cell, not_cell, binary, nand, mux, nmux, cell_name}
use tangor.Parser.{
  ok, Parsing, empty_gate, add_wire, set_dependency, record_output, store_gate, connected_bit,
  port_bits, parse_port, parse_register, parse_gate, parse_more_inputs, parse_select, parse_cell,
}
use tangor.Parser.Results.{yosys_type, gate_name_of-yosys_type}

-- A cell with the signals at its ports Y, A, B and S, of which it may lack B and S, or a register with
-- those at Q and D.
pub data YosysCell : Type 0 where
  gate : Cell → ℕ → ℕ → ℕ → ℕ → YosysCell
  register : ℕ → ℕ → YosysCell

pub data YosysPort : Type 0 where
  input output : List ℕ → YosysPort

-- The ports B and S, or 0 for a cell without them.
abbrev pub second : Cell → ℕ → ℕ
second not_cell b = 0
second _ b = b

abbrev pub third : Cell → ℕ → ℕ
third mux s = s
third nmux s = s
third _ s = 0

abbrev pub gate_struct : Cell → ℕ → ℕ → ℕ → ℕ → GateStruct
gate_struct c y a b s = record empty_gate {
  name = cell_name c;
  in0 = a;
  in1 = second c b;
  in2 = third c s;
  out0 = y;
}

not_a_register : (c : Cell) → str_eq (cell_name c) "SDFF_PP0" ≡ false
not_a_register not_cell = refl
not_a_register (binary nand) = refl
not_a_register (binary f) = refl
not_a_register mux = refl
not_a_register nmux = refl

module _ (j : JsonApi) where
  abbrev IsTyped : j.Json → String → Type 0
  IsTyped cell type = (v : j.Json) × (j.at_key cell "type" ≡ some v) × (j.get_string v ≡ some type)

  abbrev HasBit : j.Json → String → ℕ → Type 0
  HasBit cell port bit = connected_bit j cell port ≡ ok bit

  abbrev HasInputs : j.Json → Cell → ℕ → ℕ → Type 0
  HasInputs cell not_cell b s = Unit {0}
  HasInputs cell (binary f) b s = HasBit cell "B" b
  HasInputs cell mux b s = HasBit cell "B" b × HasBit cell "S" s
  HasInputs cell nmux b s = HasBit cell "B" b × HasBit cell "S" s

  -- The JSON value is that of the cell. The signal that a gate drives is not the largest `uint`.
  abbrev pub IsCell : j.Json → YosysCell → Type 0
  IsCell v (gate c y a b s) =
      IsTyped v (yosys_type c)
      × HasBit v "Y" y
      × (y + 1 < 2 ^ 32)
      × HasBit v "A" a
      × HasInputs v c b s
  IsCell v (register q d) = IsTyped v "$_SDFF_PP0_" × HasBit v "Q" q × HasBit v "D" d

  -- The place of a signal in the dependency vector.
  abbrev dependency : ℕ → ℕ → List ℕ → List ℕ
  dependency y k ds = set (if leb (length ds) y then resize (y + 1) 0 ds else ds) y k

  set_dependency-dependency :
      (y k : ℕ) (ds : List ℕ) → y + 1 < 2 ^ 32 → set_dependency y k ds ≡ ok (dependency y k ds)
  unfolding set_dependency
  set_dependency-dependency y k ds small =
      let whole : (y + 1) % 2 ^ 32 ≡ y + 1 = omega arith in
      elim (Bool-cases (leb (length ds) y)) [
        | inl short ↦
            let inside : ltb y (length (resize (y + 1) 0 ds)) ≡ true =
              ground (arith, length-resize (y + 1) 0 ds) in
            rw (short, whole, inside) refl
        | inr long ↦ let inside : ltb y (length ds) ≡ true = ground arith in rw (long, inside) refl
      ]

  abbrev recorded : ℕ → Parsing → Parsing
  recorded y p = record p {
    bc = record p.bc {
      wire_vector = add_wire y p.output_vector p.wire_vector;
      dependency_vector = dependency y p.gate_index p.dependency_vector;
    };
  }

  record_output-recorded :
      (y : ℕ) (p : Parsing) → y + 1 < 2 ^ 32 → record_output y p ≡ ok (recorded y p)
  unfolding record_output
  record_output-recorded y p small =
      rw (set_dependency-dependency y p.gate_index p.dependency_vector small) refl

  abbrev add_gate : Cell → ℕ → ℕ → ℕ → ℕ → Parsing → Parsing
  add_gate c y a b s p = store_gate (gate_struct c y a b s) (recorded y p)

  parse_gate-cell :
      (c : Cell) (y a b s : ℕ) (v : j.Json) (p : Parsing)
      → HasBit v "Y" y
      → y + 1 < 2 ^ 32
      → HasBit v "A" a
      → HasInputs v c b s
      → parse_gate j (cell_name c) v p ≡ ok (add_gate c y a b s p)
  unfolding parse_gate parse_more_inputs parse_select
  parse_gate-cell not_cell y a b s v p ey small ea i =
      rw (ey, record_output-recorded y p small, ea) refl
  parse_gate-cell (binary nand) y a b s v p ey small ea i =
      rw (ey, record_output-recorded y p small, ea, i) refl
  parse_gate-cell (binary f) y a b s v p ey small ea i =
      rw (ey, record_output-recorded y p small, ea, i) refl
  parse_gate-cell mux y a b s v p ey small ea (i, k) =
      rw (ey, record_output-recorded y p small, ea, i, k) refl
  parse_gate-cell nmux y a b s v p ey small ea (i, k) =
      rw (ey, record_output-recorded y p small, ea, i, k) refl

  -- What a cell adds to the object under construction.
  abbrev pub add_cell : YosysCell → Parsing → Parsing
  add_cell (gate c y a b s) p = add_gate c y a b s p
  add_cell (register q d) p = record p {
    bc = record p.bc {
      dff_q_vector = p.dff_q_vector ++ q ∷ [];
      dff_d_vector = p.dff_d_vector ++ d ∷ [];
    };
  }

  pub parse_cell-IsCell :
      (c : YosysCell) (v : j.Json) (p : Parsing) → IsCell v c → parse_cell j v p ≡ ok (add_cell c p)
  unfolding parse_cell parse_register
  parse_cell-IsCell (gate c y a b s) v p ((t, et, es), ey, small, ea, i) =
      rw (et, es, gate_name_of-yosys_type c, not_a_register c)
        (parse_gate-cell c y a b s v p ey small ea i)
  parse_cell-IsCell (register q d) v p ((t, et, es), at_q, at_d) = rw (et, es, at_q, at_d) refl

  abbrev HasDirection : j.Json → String → Type 0
  HasDirection port direction =
      (v : j.Json) × (j.at_key port "direction" ≡ some v) × (j.get_string v ≡ some direction)

  abbrev pub IsPort : j.Json → YosysPort → Type 0
  IsPort v (input bits) = HasDirection v "input" × (port_bits j v ≡ ok bits)
  IsPort v (output bits) = HasDirection v "output" × (port_bits j v ≡ ok bits)

  abbrev pub add_port : YosysPort → Parsing → Parsing
  add_port (input bits) p = record p { bc = record p.bc { input_vector = p.input_vector ++ bits } }
  add_port (output bits) p = record p {
    bc = record p.bc { output_vector = p.output_vector ++ bits };
  }

  pub parse_port-IsPort :
      (port : YosysPort) (v : j.Json) (p : Parsing)
      → IsPort v port
      → parse_port j v p ≡ ok (add_port port p)
  unfolding parse_port
  parse_port-IsPort (input bits) v p ((d, at, is), e) = rw (at, is, e) refl
  parse_port-IsPort (output bits) v p ((d, at, is), e) = rw (at, is, e) refl
