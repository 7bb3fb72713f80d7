-- ===== src/Parser/Documents.antt =====
-- The netlist that src/yosys-json-parser.cpp makes of a JSON document of Yosys.
use mathlib.Core.List.{append_assoc, append-nil}
use tangor.Base.{
  ℕ, suc, ◌≡◌, refl, sym, ap, ◌∙◌, not, ◌&&◌, ◌||◌, List, [], ◌∷◌, ◌++◌, some, String, arith,
  length, elem, ◌==◌, ==→eq, Bool-cases, inl, inr, elem-append, length-append,
}
use tangor.Base.Sort.{sort, elem-sort}
use tangor.Netlist.{GateStruct, ParsedBc}
use tangor.Json.{JsonApi}
use tangor.Parser.{
  ok, Parsing, start, add_wire, store_gate, parse_cell, parse_port, for_each, parse_module,
  parse_modules, finish, parsed_bc,
}
use tangor.Parser.Invariant.{place_gate-append}
use tangor.Parser.Yosys.{
  YosysCell, gate, register, YosysPort, input, output, gate_struct, IsCell, add_cell,
  parse_cell-IsCell, IsPort, parse_port-IsPort,
}

abbrev pub gates : List YosysCell → List GateStruct
gates [] = []
gates (gate c y a b s ∷ cs) = gate_struct c y a b s ∷ gates cs
gates (register q d ∷ cs) = gates cs

abbrev pub q_ports : List YosysCell → List ℕ
q_ports [] = []
q_ports (gate c y a b s ∷ cs) = q_ports cs
q_ports (register q d ∷ cs) = q ∷ q_ports cs

abbrev pub d_ports : List YosysCell → List ℕ
d_ports [] = []
d_ports (gate c y a b s ∷ cs) = d_ports cs
d_ports (register q d ∷ cs) = d ∷ d_ports cs

-- The signals that the gates drive.
abbrev pub driven : List YosysCell → List ℕ
driven [] = []
driven (gate c y a b s ∷ cs) = y ∷ driven cs
driven (register q d ∷ cs) = driven cs

abbrev pub inputs : List YosysPort → List ℕ
inputs [] = []
inputs (input bits ∷ ps) = bits ++ inputs ps
inputs (output bits ∷ ps) = inputs ps

abbrev pub outputs : List YosysPort → List ℕ
outputs [] = []
outputs (input bits ∷ ps) = outputs ps
outputs (output bits ∷ ps) = bits ++ outputs ps

-- What the cells have added to the object under construction.
record Adds (p p' : Parsing) (gs : List GateStruct) (qs ds ys : List ℕ) : Type 0 where
  gates_added : p'.gate_vector ≡ p.gate_vector ++ gs
  q_added : p'.dff_q_vector ≡ p.dff_q_vector ++ qs
  d_added : p'.dff_d_vector ≡ p.dff_d_vector ++ ds
  wires_added :
      (x : ℕ)
      → elem x p'.wire_vector
        ≡ (elem x p.wire_vector || (elem x ys && not (elem x p.output_vector)))
  inputs_kept : p'.input_vector ≡ p.input_vector
  outputs_kept : p'.output_vector ≡ p.output_vector

elem-add_wire :
    (x b : ℕ) (outs ws : List ℕ)
    → elem x (add_wire b outs ws) ≡ (elem x ws || ((b == x) && not (elem x outs)))
unfolding add_wire
elem-add_wire x b outs ws = elim (Bool-cases (b == x)) [
  | inl e ↦ ground (arith, ==→eq b x e, elem-append x ws (b ∷ []))
  | inr e ↦ ground (arith, elem-append x ws (b ∷ []))
]

add_cell-index :
    (j : JsonApi) (c : YosysCell) (p : Parsing)
    → p.gate_index ≡ suc (length p.gate_vector)
    → (add_cell j c p).gate_index ≡ suc (length (add_cell j c p).gate_vector)
unfolding store_gate
add_cell-index j (gate c y a b s) p e =
    let g = gate_struct c y a b s in
    rw (place_gate-append p.gate_index g p.gate_vector e)
      (omega (arith, e, length-append p.gate_vector (g ∷ [])))
add_cell-index j (register q d) p e = e

add_cell-gate :
    (j : JsonApi) (c : YosysCell) (p : Parsing)
    → p.gate_index ≡ suc (length p.gate_vector)
    → Adds p
        (add_cell j c p)
        (gates (c ∷ []))
        (q_ports (c ∷ []))
        (d_ports (c ∷ []))
        (driven (c ∷ []))
unfolding store_gate
add_cell-gate j (gate c y a b s) p e = record {
  gates_added = place_gate-append p.gate_index (gate_struct c y a b s) p.gate_vector e;
  q_added = sym (append-nil p.dff_q_vector);
  d_added = sym (append-nil p.dff_d_vector);
  wires_added = λ x. elem-add_wire x y p.output_vector p.wire_vector ∙ ground arith;
  inputs_kept = refl;
  outputs_kept = refl;
}
add_cell-gate j (register q d) p e = record {
  gates_added = sym (append-nil p.gate_vector);
  q_added = refl;
  d_added = refl;
  wires_added = λ x. ground arith;
  inputs_kept = refl;
  outputs_kept = refl;
}

Adds-refl : (p : Parsing) → Adds p p [] [] [] []
Adds-refl p = record {
  gates_added = sym (append-nil p.gate_vector);
  q_added = sym (append-nil p.dff_q_vector);
  d_added = sym (append-nil p.dff_d_vector);
  wires_added = λ x. ground arith;
  inputs_kept = refl;
  outputs_kept = refl;
}

Adds-trans :
    (p p' p'' : Parsing) {gs gs' : List GateStruct} {qs qs' ds ds' ys ys' : List ℕ}
    → Adds p p' gs qs ds ys
    → Adds p' p'' gs' qs' ds' ys'
    → Adds p p'' (gs ++ gs') (qs ++ qs') (ds ++ ds') (ys ++ ys')
Adds-trans p p' p'' {gs} {gs'} {qs} {qs'} {ds} {ds'} {ys} {ys'} a b = record {
  gates_added = b.gates_added ∙ rw a.gates_added (append_assoc p.gate_vector gs gs');
  q_added = b.q_added ∙ rw a.q_added (append_assoc p.dff_q_vector qs qs');
  d_added = b.d_added ∙ rw a.d_added (append_assoc p.dff_d_vector ds ds');
  wires_added = λ x.
      b.wires_added x ∙ rw (a.wires_added x, a.outputs_kept, elem-append x ys ys') (ground arith);
  inputs_kept = b.inputs_kept ∙ a.inputs_kept;
  outputs_kept = b.outputs_kept ∙ a.outputs_kept;
}

-- The netlist of these ports and cells.
pub record IsNetlistOf (ports : List YosysPort) (cells : List YosysCell) (bc : ParsedBc)
    : Type 0 where
  pub all_inputs : bc.input_vector ≡ sort (inputs ports)
  pub all_outputs : bc.output_vector ≡ sort (outputs ports)
  pub all_gates : bc.gate_vector ≡ gates cells
  pub all_q : bc.dff_q_vector ≡ q_ports cells
  pub all_d : bc.dff_d_vector ≡ d_ports cells
  pub all_wires :
      (x : ℕ) → elem x bc.wire_vector ≡ (elem x (driven cells) && not (elem x (outputs ports)))

module _ (j : JsonApi) where
  abbrev pub AreCells : List j.Json → List YosysCell → Type 0
  AreCells [] [] = Unit {0}
  AreCells (v ∷ vs) (c ∷ cs) = IsCell j v c × AreCells vs cs
  AreCells _ _ = ⊥

  abbrev pub ArePorts : List j.Json → List YosysPort → Type 0
  ArePorts [] [] = Unit {0}
  ArePorts (v ∷ vs) (port ∷ ports) = IsPort j v port × ArePorts vs ports
  ArePorts _ _ = ⊥

  -- The loop over the cells.
  abbrev AddsCells : Parsing → List YosysCell → Parsing → Type 0
  AddsCells p cs p' = Adds p p' (gates cs) (q_ports cs) (d_ports cs) (driven cs)

  AddsCells-cons :
      (c : YosysCell) (cs : List YosysCell) (p p' p'' : Parsing)
      → AddsCells p (c ∷ []) p'
      → AddsCells p' cs p''
      → AddsCells p (c ∷ cs) p''
  AddsCells-cons (gate c y a b s) cs p p' p'' first rest = Adds-trans p p' p'' first rest
  AddsCells-cons (register q d) cs p p' p'' first rest = Adds-trans p p' p'' first rest

  parse_cells :
      (vs : List j.Json) (cs : List YosysCell) (p : Parsing)
      → AreCells vs cs
      → p.gate_index ≡ suc (length p.gate_vector)
      → (p' : Parsing) × (for_each j (parse_cell j) vs p ≡ ok p') × AddsCells p cs p'
  unfolding for_each
  parse_cells [] [] p are e = (p, refl, Adds-refl p)
  parse_cells (v ∷ vs) (c ∷ cs) p (is, are) e =
      let (p', looped, rest) = parse_cells vs cs (add_cell j c p) are (add_cell-index j c p e) in
      (
        p',
        rw (parse_cell-IsCell j c v p is) looped,
        AddsCells-cons c cs p (add_cell j c p) p' (add_cell-gate j c p e) rest,
      )
  parse_cells [] (c ∷ cs) p are e = absurd are
  parse_cells (v ∷ vs) [] p are e = absurd are

  abbrev with_ports : List ℕ → List ℕ → Parsing
  with_ports is os = record start { bc = record start.bc { input_vector = is; output_vector = os } }

  parse_ports :
      (vs : List j.Json) (ports : List YosysPort) (is os : List ℕ)
      → ArePorts vs ports
      → for_each j (parse_port j) vs (with_ports is os)
        ≡ ok (with_ports (is ++ inputs ports) (os ++ outputs ports))
  unfolding for_each
  parse_ports [] [] is os are = rw (append-nil is, append-nil os) refl
  parse_ports (v ∷ vs) (input bits ∷ ports) is os (at, are) =
      rw (parse_port-IsPort j (input bits) v (with_ports is os) at)
        (parse_ports vs ports (is ++ bits) os are ∙ rw (append_assoc is bits (inputs ports)) refl)
  parse_ports (v ∷ vs) (output bits ∷ ports) is os (at, are) =
      rw (parse_port-IsPort j (output bits) v (with_ports is os) at)
        (parse_ports vs ports is (os ++ bits) are ∙ rw (append_assoc os bits (outputs ports)) refl)
  parse_ports [] (port ∷ ports) is os are = absurd are
  parse_ports (v ∷ vs) [] is os are = absurd are

  -- The text is that of a document with one module, of these ports and cells.
  pub record Describes (text : String) (ports : List YosysPort) (cells : List YosysCell)
      : Type 0 where
    pub netlist : j.Json
    pub modules : j.Json
    pub main_module : j.Json
    pub port_values : j.Json
    pub cell_values : j.Json
    pub parses : j.parse text ≡ some netlist
    pub at_modules : j.at_key netlist "modules" ≡ some modules
    pub one_module : j.elements modules ≡ main_module ∷ []
    pub at_ports : j.at_key main_module "ports" ≡ some port_values
    pub at_cells : j.at_key main_module "cells" ≡ some cell_values
    pub are_ports : ArePorts (j.elements port_values) ports
    pub are_cells : AreCells (j.elements cell_values) cells

  -- A JSON document of one module that describes some ports and cells, where no cell drives the
  -- signal 2 ^ 32 - 1, is parsed to the netlist of these: the sorted inputs and outputs, the gates
  -- and the registers in the order of the cells, and as wires the signals that gates drive and that
  -- are no outputs.
  pub parsed_bc-Describes :
      (text : String) (ports : List YosysPort) (cells : List YosysCell)
      → Describes text ports cells
      → (bc : ParsedBc) × (parsed_bc j text ≡ ok bc) × IsNetlistOf ports cells bc
  unfolding parsed_bc parse_modules parse_module for_each finish
  parsed_bc-Describes text ports cells d =
      let (p, looped, adds) =
        parse_cells (j.elements d.cell_values) cells (with_ports (inputs ports) (outputs ports))
          d.are_cells refl in
      (
        finish p,
        rw
            (
              d.parses,
              d.at_modules,
              d.one_module,
              d.at_ports,
              parse_ports (j.elements d.port_values) ports [] [] d.are_ports,
              d.at_cells,
              looped,
            )
            refl,
        record {
          all_inputs = ap sort adds.inputs_kept;
          all_outputs = ap sort adds.outputs_kept;
          all_gates = adds.gates_added;
          all_q = adds.q_added;
          all_d = adds.d_added;
          all_wires = λ x. elem-sort x p.wire_vector ∙ adds.wires_added x;
        },
      )
