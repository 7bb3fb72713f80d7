-- ===== src/Main/Circuit.antt =====
-- Circuits as a JSON document of Yosys describes them, and src/tangor.cpp on them.
use tangor.Base.{
  ℕ, ◌≡◌, refl, ap, ◌∙◌, Bool, true, false, ◌||◌, List, [], ◌∷◌, arith, elem, Has, Distinct,
  Bool-cases, inl, inr, ◌==◌,
}
use tangor.Netlist.{GateStruct, ParsedBc}
use tangor.Graph.Cells.{Cell, not_cell, binary, nand, mux, nmux, cell_fn, eval_cell, operands}
use tangor.Graph.Plan.{AllHas, IsOrdered, signals}
use tangor.Graph.Simulation.{
  assign, simulate_gate, simulate_gate-cell, simulate, WritesOnce, Has-head, Has-cons,
}
use tangor.Parser.Yosys.{YosysCell, gate, register, YosysPort, gate_struct}
use tangor.Parser.Documents.{gates, q_ports, d_ports, driven, inputs, outputs}

-- The signals that a cell reads.
abbrev pub reads : Cell → ℕ → ℕ → ℕ → List ℕ
reads not_cell a b s = a ∷ []
reads (binary f) a b s = a ∷ b ∷ []
reads mux a b s = s ∷ b ∷ a ∷ []
reads nmux a b s = s ∷ b ∷ a ∷ []

-- There are no registers, and each cell reads signals that have a value and gives one to a new signal.
abbrev pub InOrder : List ℕ → List YosysCell → Type 0
InOrder avail [] = Unit {0}
InOrder avail (gate c y a b s ∷ cs) =
    AllHas avail (reads c a b s) × (elem y avail ≡ false) × InOrder (y ∷ avail) cs
InOrder avail (register q d ∷ cs) = ⊥

-- The values that the cells give to the signals, in their order.
abbrev pub evaluate : List YosysCell → (ℕ → Bool) → ℕ → Bool
evaluate [] v = v
evaluate (gate c y a b s ∷ cs) v = evaluate cs (assign y (cell_fn c (v a) (v b) (v s)) v)
evaluate (register q d ∷ cs) v = evaluate cs v

-- A combinational circuit: its cells stand in order, and each output is driven by a cell.
pub record IsCircuit (ports : List YosysPort) (cells : List YosysCell) : Type 0 where
  pub in_order : InOrder (inputs ports) cells
  pub distinct : Distinct (outputs ports)
  pub is_driven : (id : ℕ) → Has id (outputs ports) → Has id (driven cells)
  pub not_input : (id : ℕ) → Has id (outputs ports) → elem id (inputs ports) ≡ false

operands-gate_struct : (c : Cell) (y a b s : ℕ) → operands c (gate_struct c y a b s) ≡ reads c a b s
operands-gate_struct not_cell y a b s = refl
operands-gate_struct (binary f) y a b s = refl
operands-gate_struct mux y a b s = refl
operands-gate_struct nmux y a b s = refl

eval_cell-gate_struct :
    (c : Cell) (y a b s : ℕ) (v : ℕ → Bool)
    → eval_cell c v (gate_struct c y a b s) ≡ cell_fn c (v a) (v b) (v s)
eval_cell-gate_struct not_cell y a b s v = refl
eval_cell-gate_struct (binary nand) y a b s v = refl
eval_cell-gate_struct (binary f) y a b s v = refl
eval_cell-gate_struct mux y a b s v = refl
eval_cell-gate_struct nmux y a b s v = refl

pub simulate-evaluate : (cs : List YosysCell) (v : ℕ → Bool) → simulate (gates cs) v ≡ evaluate cs v
simulate-evaluate [] v = refl
simulate-evaluate (gate c y a b s ∷ cs) v =
    let g = gate_struct c y a b s in
    simulate-evaluate cs (simulate_gate g v)
    ∙ ap (evaluate cs) (
        simulate_gate-cell c g v refl
        ∙ ap (λ (x : Bool). assign y x v) (eval_cell-gate_struct c y a b s v))
simulate-evaluate (register q d ∷ cs) v = simulate-evaluate cs v

-- Two lists of the same elements.
abbrev SameElems : List ℕ → List ℕ → Type 0
SameElems xs ys = (x : ℕ) → elem x ys ≡ elem x xs

SameElems-cons : (y : ℕ) (xs ys : List ℕ) → SameElems xs ys → SameElems (y ∷ xs) (y ∷ ys)
SameElems-cons y xs ys same x = ap (λ (b : Bool). y == x || b) (same x)

AllHas-SameElems : (xs ys ids : List ℕ) → SameElems xs ys → AllHas xs ids → AllHas ys ids
AllHas-SameElems xs ys [] same a = tt
AllHas-SameElems xs ys (id ∷ ids) same (h, a) = (same id ∙ h, AllHas-SameElems xs ys ids same a)

-- The gates of a netlist whose cells stand in order, of which each drives a wire or an output.
module _ (bc : ParsedBc) where
  abbrev IsDrivable : List ℕ → Type 0
  IsDrivable ids =
      (id : ℕ) → Has id ids → (elem id bc.wire_vector || elem id bc.output_vector) ≡ true

  pub InOrder-IsOrdered :
      (xs ys : List ℕ) (cs : List YosysCell)
      → SameElems xs ys
      → IsDrivable (driven cs)
      → InOrder xs cs
      → IsOrdered bc ys (gates cs) × WritesOnce ys (gates cs)
  InOrder-IsOrdered xs ys [] same known o = (tt, tt)
  InOrder-IsOrdered xs ys (gate c y a b s ∷ cs) same known (has, new, o) =
      let (ordered, once) =
        InOrder-IsOrdered (y ∷ xs) (y ∷ ys) cs (SameElems-cons y xs ys same)
          (λ id h. known id (Has-cons y id (driven cs) h)) o in
      (
        (
          (
            c,
            refl,
            rw (operands-gate_struct c y a b s) (AllHas-SameElems xs ys (reads c a b s) same has),
            known y (Has-head y (driven cs)),
          ),
          ordered,
        ),
        (same y ∙ new, once),
      )
  InOrder-IsOrdered xs ys (register q d ∷ cs) same known o = absurd o

Has-signals : (xs : List ℕ) (gs : List GateStruct) (id : ℕ) → Has id xs → Has id (signals xs gs)
Has-signals xs [] id h = h
Has-signals xs (g ∷ gs) id h = Has-signals (g.out0 ∷ xs) gs id (Has-cons g.out0 id xs h)

pub driven-signals :
    (xs : List ℕ) (cs : List YosysCell) (id : ℕ)
    → Has id (driven cs)
    → Has id (signals xs (gates cs))
driven-signals xs [] id h = absurd (ground (arith, h))
driven-signals xs (gate c y a b s ∷ cs) id h = elim (Bool-cases (y == id)) [
  | inl e ↦ Has-signals (y ∷ xs) (gates cs) id (rw e refl)
  | inr e ↦ driven-signals (y ∷ xs) cs id (rw e at h)
]
driven-signals xs (register q d ∷ cs) id h = driven-signals xs cs id h

pub InOrder-combinational :
    (xs : List ℕ) (cs : List YosysCell) → InOrder xs cs → (q_ports cs ≡ []) × (d_ports cs ≡ [])
InOrder-combinational xs [] o = (refl, refl)
InOrder-combinational xs (gate c y a b s ∷ cs) (has, new, o) = InOrder-combinational (y ∷ xs) cs o
InOrder-combinational xs (register q d ∷ cs) o = absurd o
