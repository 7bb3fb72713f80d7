-- ===== src/Parser/Invariant.antt =====
-- The invariant of the object that src/yosys-json-parser.cpp builds, and the blocks that store in it.
use tangor.Base.{
  ℕ, suc, ◌+◌, ◌-◌, ◌<◌, ◌≤◌, ◌==◌, ◌∙◌, ◌≡◌, refl, ap, true, ◌||◌, List, [], ◌∷◌, ◌++◌, arith, ltb,
  leb, ◌%◌, ◌^◌, if◌then◌else◌, length, set, resize, elem, Distinct, Distinct-snoc, elem-append,
  length-append, length-set, ==→eq, Bool-cases, inl, inr,
}
use tangor.Netlist.{GateStruct}
use tangor.Parser.Rules.{Ensures, returns, fails, Ensures-bind, Ensures-if, Ensures-ok}
use tangor.Parser.{
  Parsing, empty_gate, add_wire, set_dependency, record_output, place_gate, store_gate,
}

-- The signal is a wire or an output, and has a place in the dependency vector.
abbrev pub IsCovered : Parsing → ℕ → Type 0
IsCovered p x =
    ((elem x p.wire_vector || elem x p.output_vector) ≡ true) × (x < length p.dependency_vector)

abbrev pub AllCovered : Parsing → List GateStruct → Type 0
AllCovered p [] = Unit {0}
AllCovered p (g ∷ gs) = IsCovered p g.out0 × AllCovered p gs

pub record IsWellFormed (p : Parsing) : Type 0 where
  pub counted : p.gate_index ≡ suc (length p.gate_vector)
  pub registers : length p.dff_q_vector ≡ length p.dff_d_vector
  pub distinct : Distinct p.wire_vector
  pub covered : AllCovered p p.gate_vector

pub AllCovered-mono :
    (p p' : Parsing) (gs : List GateStruct)
    → ((x : ℕ) → IsCovered p x → IsCovered p' x)
    → AllCovered p gs
    → AllCovered p' gs
AllCovered-mono p p' [] more c = tt
AllCovered-mono p p' (g ∷ gs) more c = (more g.out0 c.0, AllCovered-mono p p' gs more c.1)

-- What a step may do beside its own gate: cover more signals.
pub record Extends (p p' : Parsing) : Type 0 where
  pub well_formed : IsWellFormed p'
  pub more : (x : ℕ) → IsCovered p x → IsCovered p' x

elem-add_wire :
    (x b : ℕ) (outs ws : List ℕ)
    → (elem x (add_wire b outs ws) || elem x outs) ≡ (b == x || (elem x ws || elem x outs))
unfolding add_wire
elem-add_wire x b outs ws = elim (Bool-cases (b == x)) [
  | inl e ↦ ground (arith, ==→eq b x e, elem-append x ws (b ∷ []))
  | inr e ↦ ground (arith, elem-append x ws (b ∷ []))
]

add_wire-Distinct : (b : ℕ) (outs ws : List ℕ) → Distinct ws → Distinct (add_wire b outs ws)
unfolding add_wire
add_wire-Distinct b outs ws d = ground (arith, Distinct-snoc ws b d)

set_dependency-Ensures :
    (b k : ℕ) (ds : List ℕ)
    → Ensures (λ es. (b < length es) × (length ds ≤ length es)) (set_dependency b k ds)
unfolding set_dependency
set_dependency-Ensures b k ds =
    let resized = if leb (length ds) b then resize ((b + 1) % 2 ^ 32) 0 ds else ds in
    let same_length = length-set resized b k in
    Ensures-if (ltb b (length resized))
      (λ inside. elim (Bool-cases (leb (length ds) b)) [
        | inl short ↦ returns (ground (arith, same_length), ground (arith, same_length))
        | inr long ↦
            let kept : resized ≡ ds = rw long refl in
            returns (ground (arith, same_length), ground (arith, same_length, kept))
      ])
      λ _. fails

-- A step that covers a signal.
abbrev pub Covers : ℕ → Parsing → Parsing → Type 0
Covers b p p' = Extends p p' × IsCovered p' b

pub record_output-Covers :
    (b : ℕ) (p : Parsing) → IsWellFormed p → Ensures (Covers b p) (record_output b p)
unfolding record_output
record_output-Covers b p w =
    Ensures-bind (set_dependency b p.gate_index p.dependency_vector) λ ds e.
      let (inside, longer) =
        Ensures-ok ds (set_dependency-Ensures b p.gate_index p.dependency_vector) e in
      let p' = record p {
        bc = record p.bc {
          wire_vector = add_wire b p.output_vector p.wire_vector;
          dependency_vector = ds;
        };
      } in
      let more : (x : ℕ) → IsCovered p x → IsCovered p' x =
        λ x c. (elem-add_wire x b p.output_vector p.wire_vector ∙ ground arith, omega arith) in
      let well : IsWellFormed p' = record {
        counted = w.counted;
        registers = w.registers;
        distinct = add_wire-Distinct b p.output_vector p.wire_vector w.distinct;
        covered = AllCovered-mono p p' p.gate_vector more w.covered;
      } in
      returns (
        record { well_formed = well; more = more },
        (elem-add_wire b b p.output_vector p.wire_vector ∙ ground arith, inside),
      )

AllCovered-snoc :
    (p : Parsing) (gs : List GateStruct) (g : GateStruct)
    → AllCovered p gs
    → IsCovered p g.out0
    → AllCovered p (gs ++ g ∷ [])
AllCovered-snoc p [] g c h = (h, tt)
AllCovered-snoc p (x ∷ gs) g c h = (c.0, AllCovered-snoc p gs g c.1 h)

-- With `gate_index` one past the gates, `resize` and the assignment append.
resize-set_last :
    (gs : List GateStruct) (g : GateStruct)
    → set (resize (suc (length gs)) empty_gate gs) (length gs) g ≡ gs ++ g ∷ []
resize-set_last [] g = refl
resize-set_last (x ∷ gs) g = ap (λ (r : List GateStruct). x ∷ r) (resize-set_last gs g)

pub place_gate-append :
    (k : ℕ) (g : GateStruct) (gs : List GateStruct)
    → k ≡ suc (length gs)
    → place_gate k g gs ≡ gs ++ g ∷ []
unfolding place_gate
place_gate-append k g gs e = elim (Bool-cases (ltb (length gs) k)) [
  | inl more ↦
      let last : k - 1 ≡ length gs = omega arith in rw (more, last, e) (resize-set_last gs g)
  | inr less ↦ absurd (ground arith)
]

pub store_gate-IsWellFormed :
    (g : GateStruct) (p : Parsing)
    → IsWellFormed p
    → IsCovered p g.out0
    → IsWellFormed (store_gate g p)
unfolding store_gate
store_gate-IsWellFormed g p w h =
    let appended = place_gate-append p.gate_index g p.gate_vector w.counted in
    record {
      counted = rw appended (omega (arith, w.counted, length-append p.gate_vector (g ∷ [])));
      registers = w.registers;
      distinct = w.distinct;
      covered = rw appended (
          AllCovered-snoc (store_gate g p) p.gate_vector g
            (AllCovered-mono p (store_gate g p) p.gate_vector (λ x c. c) w.covered) h);
    }
