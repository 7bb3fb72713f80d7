-- ===== src/Graph/Simulation.antt =====
-- The evaluation of a netlist on bits in the clear, which the tasks of src/starpu_build_graph.cpp are
-- compared with.
use tangor.Base.{
  ℕ, ◌≡◌, refl, sym, ap, ◌∙◌, Bool, false, List, [], ◌∷◌, Option, some, none, arith, Bool-cases,
  ◌==◌, ==→eq, ==_refl, elem, Has, inl, inr, if◌then◌else◌,
}
use tangor.Netlist.{GateStruct, ParsedBc}
use tangor.Graph.Cells.{
  Cell, cell_name, cell_of, cell_of-cell_name, operands, eval_cell, not_cell, binary, nand, mux,
  nmux,
}
use tangor.Graph.Plan.{AllHas, IsOrdered}
use tangor.Graph.Correct.{Satisfies}

abbrev pub assign : ℕ → Bool → (ℕ → Bool) → ℕ → Bool
assign id x v n = if id == n then x else v n

-- One gate; a gate of no known cell changes nothing.
unfoldable pub write_cell : Option Cell → GateStruct → (ℕ → Bool) → ℕ → Bool
write_cell none g v = v
write_cell (some c) g v = assign g.out0 (eval_cell c v g) v

abbrev pub simulate_gate : GateStruct → (ℕ → Bool) → ℕ → Bool
simulate_gate g v = write_cell (cell_of g.name) g v

-- The gates in their order.
abbrev pub simulate : List GateStruct → (ℕ → Bool) → ℕ → Bool
simulate [] v = v
simulate (g ∷ gs) v = simulate gs (simulate_gate g v)

-- No gate writes a signal that has a value already.
abbrev pub WritesOnce : List ℕ → List GateStruct → Type 0
WritesOnce avail [] = Unit {0}
WritesOnce avail (g ∷ gs) = (elem g.out0 avail ≡ false) × WritesOnce (g.out0 ∷ avail) gs

-- Two assignments agree on some signals.
abbrev pub Agree : List ℕ → (ℕ → Bool) → (ℕ → Bool) → Type 0
Agree avail v w = (id : ℕ) → Has id avail → v id ≡ w id

eval_cell-Agree :
    (c : Cell) (avail : List ℕ) (v w : ℕ → Bool) (g : GateStruct)
    → Agree avail v w
    → AllHas avail (operands c g)
    → eval_cell c v g ≡ eval_cell c w g
eval_cell-Agree not_cell avail v w g e (a, _) = rw (e g.in0 a) refl
eval_cell-Agree (binary nand) avail v w g e (a, (b, _)) = rw (e g.in0 a, e g.in1 b) refl
eval_cell-Agree (binary f) avail v w g e (a, (b, _)) = rw (e g.in0 a, e g.in1 b) refl
eval_cell-Agree mux avail v w g e (s, (b, (a, _))) = rw (e g.in0 a, e g.in1 b, e g.in2 s) refl
eval_cell-Agree nmux avail v w g e (s, (b, (a, _))) = rw (e g.in0 a, e g.in1 b, e g.in2 s) refl

assign-new :
    (avail : List ℕ) (out : ℕ) (x : Bool) (v : ℕ → Bool)
    → elem out avail ≡ false
    → Agree avail (assign out x v) v
assign-new avail out x v new id h = elim (Bool-cases (out == id)) [
  | inl e ↦
      let same = ==→eq out id e in
      absurd (ground (arith, new, h, ap (λ (n : ℕ). elem n avail) same))
  | inr e ↦ rw e refl
]

assign_same : (out : ℕ) (x : Bool) (v : ℕ → Bool) → assign out x v out ≡ x
assign_same out x v = rw (==_refl out) refl

pub Has-head : (id : ℕ) (avail : List ℕ) → Has id (id ∷ avail)
Has-head id avail = ground (arith, ==_refl id)

pub Has-cons : (out id : ℕ) (avail : List ℕ) → Has id avail → Has id (out ∷ avail)
Has-cons out id avail h = ground (arith, h)

pub simulate_gate-cell :
    (c : Cell) (g : GateStruct) (v : ℕ → Bool)
    → g.name ≡ cell_name c
    → simulate_gate g v ≡ assign g.out0 (eval_cell c v g) v
unfolding write_cell
simulate_gate-cell c g v e =
    ap (λ (o : Option Cell). write_cell o g v) (ap cell_of e ∙ cell_of-cell_name c)

module _ (bc : ParsedBc) where
  pub simulate-Agree :
      (avail : List ℕ) (gs : List GateStruct) (v : ℕ → Bool)
      → IsOrdered bc avail gs
      → WritesOnce avail gs
      → Agree avail (simulate gs v) v
  simulate-Agree avail [] v ordered once id h = refl
  simulate-Agree avail (g ∷ gs) v ((c, name, reads, _), ordered) (new, once) id h =
      simulate-Agree (g.out0 ∷ avail) gs (simulate_gate g v) ordered once id
        (Has-cons g.out0 id avail h)
      ∙ ap (λ (w : ℕ → Bool). w id) (simulate_gate-cell c g v name)
      ∙ assign-new avail g.out0 (eval_cell c v g) v new id h

  -- On gates that stand in an order of evaluation and write each signal once, the evaluation obeys each gate.
  pub simulate-Satisfies :
      (avail : List ℕ) (gs : List GateStruct) (v : ℕ → Bool)
      → IsOrdered bc avail gs
      → WritesOnce avail gs
      → Satisfies (simulate gs v) gs
  simulate-Satisfies avail [] v ordered once = tt
  simulate-Satisfies avail (g ∷ gs) v ((c, name, reads, d), ordered) (new, once) =
      let last = simulate gs (simulate_gate g v) in
      let after = simulate-Agree (g.out0 ∷ avail) gs (simulate_gate g v) ordered once in
      let before = simulate-Agree avail (g ∷ gs) v ((c, name, reads, d), ordered) (new, once) in
      let written =
        ap (λ (w : ℕ → Bool). w g.out0) (simulate_gate-cell c g v name)
        ∙ assign_same g.out0 (eval_cell c v g) v in
      (
        (
          c,
          name,
          after g.out0 (Has-head g.out0 avail)
              ∙ written
              ∙ sym (eval_cell-Agree c avail last v g before reads),
        ),
        simulate-Satisfies (g.out0 ∷ avail) gs (simulate_gate g v) ordered once,
      )
