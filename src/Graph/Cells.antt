-- ===== src/Graph/Cells.antt =====
-- The cells that src/starpu_build_graph.cpp submits tasks for: their names in the netlist, their
-- Boolean functions as Yosys documents them, and the tasks that the loop of the source makes.
use mathlib.Core.Option.{some-injective}
use tangor.Base.{
  ℕ, ◌≡◌, refl, sym, ap, ◌∙◌, str_eq, Bool, not, ◌&&◌, ◌||◌, xor, List, [], ◌∷◌, map, arith, Option,
  none, some, String, if◌then◌else◌, ◌>>=◌,
}
use tangor.Netlist.{GateStruct, ParsedBc}
use tangor.Codelets.{
  Codelet, cl_hom_nand, cl_hom_nor, cl_hom_xnor, cl_hom_and, cl_hom_or, cl_hom_xor, cl_hom_andyn,
  cl_hom_oryn, cl_hom_not, cl_hom_mux, cl_hom_nmux,
}
use tangor.Codelets.Meaning.{apply_fn, codelet_fn}
use tangor.Starpu.{Handle, Task}
use tangor.Graph.{Handles, search_pointer, insert, submit_gate}

pub data Binary : Type 0 where
  nand nor xnor and or xor' andyn oryn : Binary

pub data Cell : Type 0 where
  not_cell : Cell
  binary : Binary → Cell
  mux nmux : Cell

abbrev pub cell_name : Cell → String
cell_name not_cell = "NOT"
cell_name (binary nand) = "NAND"
cell_name (binary nor) = "NOR"
cell_name (binary xnor) = "XNOR"
cell_name (binary and) = "AND"
cell_name (binary or) = "OR"
cell_name (binary xor') = "XOR"
cell_name (binary andyn) = "ANDYN"
cell_name (binary oryn) = "ORYN"
cell_name mux = "MUX"
cell_name nmux = "NMUX"

unfoldable pub cell_of : String → Option Cell
cell_of name =
    if str_eq name "NOT"
    then some not_cell
    else if str_eq name "NAND"
    then some (binary nand)
    else if str_eq name "NOR"
    then some (binary nor)
    else if str_eq name "XNOR"
    then some (binary xnor)
    else if str_eq name "AND"
    then some (binary and)
    else if str_eq name "OR"
    then some (binary or)
    else if str_eq name "XOR"
    then some (binary xor')
    else if str_eq name "ANDYN"
    then some (binary andyn)
    else if str_eq name "ORYN"
    then some (binary oryn)
    else if str_eq name "MUX"
    then some mux
    else if str_eq name "NMUX"
    then some nmux
    else none

pub cell_of-cell_name : (c : Cell) → cell_of (cell_name c) ≡ some c
unfolding cell_of
cell_of-cell_name not_cell = refl
cell_of-cell_name (binary nand) = refl
cell_of-cell_name (binary f) = refl
cell_of-cell_name mux = refl
cell_of-cell_name nmux = refl

-- Cells have different names.
pub cell_name_injective : (c d : Cell) → cell_name c ≡ cell_name d → c ≡ d
cell_name_injective c d e =
    some-injective _ _ (sym (cell_of-cell_name c) ∙ ap cell_of e ∙ cell_of-cell_name d)

-- The function of a cell of ports A, B and S: `$_ANDNOT_` is A & ~B, `$_ORNOT_` is A | ~B, and
-- `$_MUX_` is B where S holds and A elsewhere.
abbrev pub cell_fn : Cell → Bool → Bool → Bool → Bool
cell_fn not_cell a b s = not a
cell_fn (binary nand) a b s = not (a && b)
cell_fn (binary nor) a b s = not (a || b)
cell_fn (binary xnor) a b s = not (xor a b)
cell_fn (binary and) a b s = a && b
cell_fn (binary or) a b s = a || b
cell_fn (binary xor') a b s = xor a b
cell_fn (binary andyn) a b s = a && not b
cell_fn (binary oryn) a b s = a || not b
cell_fn mux a b s = if s then b else a
cell_fn nmux a b s = not (if s then b else a)

-- The value that a cell gives to its output under an assignment of bits to the signals.
abbrev pub eval_cell : Cell → (ℕ → Bool) → GateStruct → Bool
eval_cell c v g = cell_fn c (v g.in0) (v g.in1) (v g.in2)

abbrev binary_codelet : Binary → Codelet
binary_codelet nand = cl_hom_nand
binary_codelet nor = cl_hom_nor
binary_codelet xnor = cl_hom_xnor
binary_codelet and = cl_hom_and
binary_codelet or = cl_hom_or
binary_codelet xor' = cl_hom_xor
binary_codelet andyn = cl_hom_andyn
binary_codelet oryn = cl_hom_oryn

abbrev pub cell_codelet : Cell → Codelet
cell_codelet not_cell = cl_hom_not
cell_codelet (binary f) = binary_codelet f
cell_codelet mux = cl_hom_mux
cell_codelet nmux = cl_hom_nmux

-- The signals that the task of a cell reads, in the order of its buffers.
abbrev pub operands : Cell → GateStruct → List ℕ
operands not_cell g = g.in0 ∷ []
operands (binary f) g = g.in0 ∷ g.in1 ∷ []
operands mux g = g.in2 ∷ g.in1 ∷ g.in0 ∷ []
operands nmux g = g.in2 ∷ g.in1 ∷ g.in0 ∷ []

abbrev cell_priority : Cell → ℕ
cell_priority (binary f) = 1
cell_priority _ = 0

abbrev pub cell_task : Cell → Handle → List Handle → Task
cell_task c output inputs = record {
  codelet = cell_codelet c;
  output = output;
  inputs = inputs;
  priority = cell_priority c;
}

-- The codelet of a cell, at its buffers in their order, computes the cell's function.
pub codelet_fn-cell :
    (c : Cell) (v : ℕ → Bool) (g : GateStruct)
    → apply_fn (codelet_fn (cell_codelet c)) (map v (operands c g)) ≡ some (eval_cell c v g)
unfolding apply_fn codelet_fn
codelet_fn-cell not_cell v g = refl
codelet_fn-cell (binary nand) v g = refl
codelet_fn-cell (binary f) v g = refl
codelet_fn-cell mux v g = refl
codelet_fn-cell nmux v g = refl

abbrev pub search_all : List ℕ → ParsedBc → Handles → Option (List Handle)
search_all [] bc hs = some []
search_all (id ∷ ids) bc hs = do
  h ← search_pointer id bc hs
  rest ← search_all ids bc hs
  some (h ∷ rest)

-- The task that the loop submits for a cell, if the signals of the gate are found.
pub submit_gate-cell :
    (c : Cell) (bc : ParsedBc) (hs : Handles) (g : GateStruct) {o : Handle} {inputs : List Handle}
    → g.name ≡ cell_name c
    → search_pointer g.out0 bc hs ≡ some o
    → search_all (operands c g) bc hs ≡ some inputs
    → submit_gate bc hs g ≡ some (insert (cell_task c o inputs))
unfolding submit_gate
submit_gate-cell not_cell bc hs g e out ins = rw (e, submit_gate) (ground arith)
submit_gate-cell (binary nand) bc hs g e out ins = rw (e, submit_gate) (ground arith)
submit_gate-cell (binary nor) bc hs g e out ins = rw (e, submit_gate) (ground arith)
submit_gate-cell (binary xnor) bc hs g e out ins = rw (e, submit_gate) (ground arith)
submit_gate-cell (binary and) bc hs g e out ins = rw (e, submit_gate) (ground arith)
submit_gate-cell (binary or) bc hs g e out ins = rw (e, submit_gate) (ground arith)
submit_gate-cell (binary xor') bc hs g e out ins = rw (e, submit_gate) (ground arith)
submit_gate-cell (binary andyn) bc hs g e out ins = rw (e, submit_gate) (ground arith)
submit_gate-cell (binary oryn) bc hs g e out ins = rw (e, submit_gate) (ground arith)
submit_gate-cell mux bc hs g e out ins = rw (e, submit_gate) (ground arith)
submit_gate-cell nmux bc hs g e out ins = rw (e, submit_gate) (ground arith)
