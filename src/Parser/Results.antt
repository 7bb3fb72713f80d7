-- ===== src/Parser/Results.antt =====
-- What the constructor of `ParsedBC` in src/yosys-json-parser.cpp leaves, and the names it gives to
-- the cells of Yosys.
use tangor.Base.{
  ℕ, ◌≡◌, refl, Bool, true, ◌||◌, List, [], ◌∷◌, map, if◌then◌else◌, length, elem, find-some,
  find-none, find-Has, get_or-some, Distinct, String, Bool-cases, inl, inr,
}
use tangor.Base.Sort.{sort, IsSorted, sort-IsSorted, elem-sort, sort-Distinct}
use tangor.Netlist.{GateStruct, ParsedBc}
use tangor.Json.{JsonApi}
use tangor.Parser.Rules.{returns, Ensures-bind, Ensures-ok}
use tangor.Parser.Invariant.{IsWellFormed, AllCovered}
use tangor.Parser.Steps.{parse_modules-IsWellFormed}
use tangor.Parser.{ok, Parsing, finish, direct_pairs, parsed_bc, parse_modules, gate_name_of}
use tangor.Graph.Cells.{
  Cell, cell_name, not_cell, binary, nand, nor, xnor, and, or, xor', andyn, oryn, mux, nmux,
}

-- Every gate drives a wire or an output of the netlist.
abbrev pub AllDriving : ParsedBc → List GateStruct → Type 0
AllDriving bc [] = Unit {0}
AllDriving bc (g ∷ gs) =
    ((elem g.out0 bc.wire_vector || elem g.out0 bc.output_vector) ≡ true) × AllDriving bc gs

-- The elements that pass a test.
abbrev pub such_that : (ℕ → Bool) → List ℕ → List ℕ
such_that test [] = []
such_that test (x ∷ xs) = if test x then x ∷ such_that test xs else such_that test xs

-- The registers whose Q port is an output, each paired with itself.
abbrev pub fed_through : ParsedBc → List (ℕ × ℕ)
fed_through bc = map (λ q. (q, q)) (such_that (λ q. elem q bc.output_vector) bc.dff_q_vector)

pub record IsConsistent (bc : ParsedBc) : Type 0 where
  pub registers : length bc.dff_q_vector ≡ length bc.dff_d_vector
  pub distinct_wires : Distinct bc.wire_vector
  pub sorted_inputs : IsSorted bc.input_vector
  pub sorted_outputs : IsSorted bc.output_vector
  pub sorted_wires : IsSorted bc.wire_vector
  pub driving : AllDriving bc bc.gate_vector
  pub pairs : bc.direct_port_pair_vector ≡ fed_through bc

AllCovered-AllDriving :
    (p : Parsing) (gs : List GateStruct) → AllCovered p gs → AllDriving (finish p) gs
unfolding finish
AllCovered-AllDriving p [] c = tt
AllCovered-AllDriving p (g ∷ gs) c = (
  rw (elem-sort g.out0 p.wire_vector, elem-sort g.out0 p.output_vector) c.0.0,
  AllCovered-AllDriving p gs c.1,
)

direct_pairs-such_that :
    (outputs sorted qs : List ℕ)
    → ((q : ℕ) → elem q sorted ≡ elem q outputs)
    → direct_pairs outputs qs ≡ map (λ q. (q, q)) (such_that (λ q. elem q sorted) qs)
unfolding direct_pairs
direct_pairs-such_that outputs sorted [] same = refl
direct_pairs-such_that outputs sorted (q ∷ qs) same =
    let rest = direct_pairs-such_that outputs sorted qs same in
    elim (Bool-cases (elem q outputs)) [
      | inl e ↦
          let (i, f) = find-Has outputs q e in
          rw
            (
              direct_pairs,
              such_that,
              f,
              same q,
              e,
              rest,
              get_or-some outputs i 0 q (find-some outputs q i f),
            )
            refl
      | inr e ↦ rw (direct_pairs, such_that, find-none outputs q e, same q, e, rest) refl
    ]

pub finish-IsConsistent : (p : Parsing) → IsWellFormed p → IsConsistent (finish p)
unfolding finish
finish-IsConsistent p w = record {
  registers = w.registers;
  distinct_wires = sort-Distinct p.wire_vector w.distinct;
  sorted_inputs = sort-IsSorted p.input_vector;
  sorted_outputs = sort-IsSorted p.output_vector;
  sorted_wires = sort-IsSorted p.wire_vector;
  driving = AllCovered-AllDriving p p.gate_vector w.covered;
  pairs =
      direct_pairs-such_that p.output_vector (sort p.output_vector) p.dff_q_vector
        (λ q. elem-sort q p.output_vector);
}

-- Whatever JSON text is parsed without an error gives a consistent netlist: as many Q as D ports,
-- wires without repetition, inputs, outputs and wires in order, only gates that drive a wire or an
-- output, and as direct port pairs the registers whose Q port is an output.
pub parsed_bc-IsConsistent :
    (j : JsonApi) (jsonstring : String) (bc : ParsedBc)
    → parsed_bc j jsonstring ≡ ok bc
    → IsConsistent bc
unfolding parsed_bc
parsed_bc-IsConsistent j jsonstring bc e =
    Ensures-ok {P = IsConsistent} bc
      (Ensures-bind (parse_modules j jsonstring) λ p parsed.
        returns
          (finish-IsConsistent p (Ensures-ok p (parse_modules-IsWellFormed j jsonstring) parsed)))
      e

-- The name of a cell in the output of Yosys.
abbrev pub yosys_type : Cell → String
yosys_type not_cell = "$_NOT_"
yosys_type (binary nand) = "$_NAND_"
yosys_type (binary nor) = "$_NOR_"
yosys_type (binary xnor) = "$_XNOR_"
yosys_type (binary and) = "$_AND_"
yosys_type (binary or) = "$_OR_"
yosys_type (binary xor') = "$_XOR_"
yosys_type (binary andyn) = "$_ANDNOT_"
yosys_type (binary oryn) = "$_ORNOT_"
yosys_type mux = "$_MUX_"
yosys_type nmux = "$_NMUX_"

-- The parser gives each combinational cell of Yosys the name under which the graph builder knows it.
pub gate_name_of-yosys_type : (c : Cell) → gate_name_of (yosys_type c) ≡ ok (cell_name c)
unfolding gate_name_of
gate_name_of-yosys_type not_cell = refl
gate_name_of-yosys_type (binary nand) = refl
gate_name_of-yosys_type (binary f) = refl
gate_name_of-yosys_type mux = refl
gate_name_of-yosys_type nmux = refl
