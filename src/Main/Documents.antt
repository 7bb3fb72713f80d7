-- ===== src/Main/Documents.antt =====
-- src/tangor.cpp from the JSON document of a circuit and its encrypted inputs to the encrypted outputs.
use tangor.Base.{
  ℕ, ◌≡◌, sym, ap, subst, ◌∙◌, Bool, true, ◌||◌, List, some, String, arith, elem, Has, Distinct,
  get_elem?,
}
use tangor.Base.Sort.{sort, elem-sort, sort-Distinct}
use tangor.Tfhe.{Tfhe, TfheLaws}
use tangor.Netlist.{GateStruct, ParsedBc}
use tangor.Json.{JsonApi}
use tangor.Codelets.{Worker}
use tangor.Starpu.{Store, Run}
use tangor.Parser.Yosys.{YosysCell, YosysPort}
use tangor.Parser.Documents.{driven, inputs, outputs, Describes, IsNetlistOf, parsed_bc-Describes}
use tangor.Graph.{Globals, store_of}
use tangor.Graph.Correct.{place}
use tangor.Graph.Plan.{IsOrdered, signals}
use tangor.Graph.Results.{IsRunnable, IsDriven}
use tangor.Graph.Simulation.{simulate, WritesOnce}
use tangor.Main.{launched, launch, result_data}
use tangor.Main.Simulation.{launch_simulates}
use tangor.Main.Circuit.{
  evaluate, IsCircuit, simulate-evaluate, InOrder-IsOrdered, driven-signals, InOrder-combinational,
}

module _ (ports : List YosysPort) (cells : List YosysCell) (circuit : IsCircuit ports cells)
    (bc : ParsedBc) (n : IsNetlistOf ports cells bc) where
  elem-input : (x : ℕ) → elem x bc.input_vector ≡ elem x (inputs ports)
  elem-input x = ap (elem x) n.all_inputs ∙ elem-sort x (inputs ports)

  elem-output : (x : ℕ) → elem x bc.output_vector ≡ elem x (outputs ports)
  elem-output x = ap (elem x) n.all_outputs ∙ elem-sort x (outputs ports)

  drivable :
      (id : ℕ) → Has id (driven cells) → (elem id bc.wire_vector || elem id bc.output_vector) ≡ true
  drivable id h = ground (arith, h, n.all_wires id, elem-output id)

  ordered : IsOrdered bc bc.input_vector bc.gate_vector × WritesOnce bc.input_vector bc.gate_vector
  ordered =
      subst
        (λ (gs : List GateStruct). IsOrdered bc bc.input_vector gs × WritesOnce bc.input_vector gs)
        (sym n.all_gates)
        (InOrder-IsOrdered bc (inputs ports) bc.input_vector cells elem-input drivable
          circuit.in_order)

  runnable : IsRunnable bc
  runnable =
      let (no_q, no_d) = InOrder-combinational (inputs ports) cells circuit.in_order in
      record {
        combinational = record { no_q = n.all_q ∙ no_q; no_d = n.all_d ∙ no_d };
        ordered = ordered.0;
      }

  outputs-IsDriven : IsDriven bc
  outputs-IsDriven = record {
    distinct = subst Distinct (sym n.all_outputs) (sort-Distinct (outputs ports) circuit.distinct);
    not_input = λ id h. elem-input id ∙ circuit.not_input id (sym (elem-output id) ∙ h);
    not_wire = λ id h. ground (arith, h, n.all_wires id, elem-output id);
    driven = λ id h.
        subst (λ (gs : List GateStruct). Has id (signals bc.input_vector gs)) (sym n.all_gates)
          (driven-signals bc.input_vector cells id
            (circuit.is_driven id (sym (elem-output id) ∙ h)));
  }

module _ {t : Tfhe} (laws : TfheLaws t) (j : JsonApi) (circuit_json : String)
    (ports : List YosysPort) (cells : List YosysCell)
    (described : Describes j circuit_json ports cells) (circuit : IsCircuit ports cells)
    (cloud_data : List t.Cipher) (bits : ℕ → Bool)
    (encrypted : (i id : ℕ)
      → get_elem? (sort (inputs ports)) i ≡ some id
      → (c : t.Cipher) × (get_elem? cloud_data i ≡ some c) × laws.Encrypts c (bits id)) where
  open laws use {Encrypts}

  -- On the JSON document of a combinational circuit without registers, whose cells stand in order
  -- and each give a value to a new signal other than 2 ^ 32 - 1, and whose output bits are distinct
  -- and each driven by a cell, and on encryptions of its input bits in the order of the signals:
  -- main comes to a graph of tasks, which can be run to the end on any choice of workers; and
  -- however they are run, result.data has for each output, in the order of the signals, an
  -- encryption of the bit that the cells give it.
  pub launch_document :
      (ws : ℕ → Worker)
      → (g : Globals t) × (launch t j (some circuit_json) cloud_data true ≡ launched g)
        × ((s : Store t) × Run t (place ws g.tasks) (store_of t g) s)
        × ((s : Store t) (i id : ℕ)
            → Run t (place ws g.tasks) (store_of t g) s
            → get_elem? (sort (outputs ports)) i ≡ some id
            → (c : t.Cipher) × (get_elem? (result_data t j s g) i ≡ some c)
              × Encrypts c (evaluate cells bits id))
  launch_document ws =
      let (bc, parsed, n) = parsed_bc-Describes j circuit_json ports cells described in
      let ins = λ (i id : ℕ) (e : get_elem? bc.input_vector i ≡ some id).
        encrypted i id (ap (λ (xs : List ℕ). get_elem? xs i) (sym n.all_inputs) ∙ e) in
      let (g, e, end, outs) =
        launch_simulates laws j circuit_json bc cloud_data bits parsed
          (runnable ports cells circuit bc n) (ordered ports cells circuit bc n).1 ins
          (outputs-IsDriven ports cells circuit bc n) ws in
      let same : simulate bc.gate_vector bits ≡ evaluate cells bits =
        ap (λ (gs : List GateStruct). simulate gs bits) n.all_gates
        ∙ simulate-evaluate cells bits in
      (
        g,
        e,
        end,
        λ s i id ran at.
            let at' = ap (λ (xs : List ℕ). get_elem? xs i) n.all_outputs ∙ at in
            let (c, found, enc) = outs s i id ran at' in
            (c, found, subst (λ (v : ℕ → Bool). Encrypts c (v id)) same enc),
      )
