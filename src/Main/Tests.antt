-- ===== src/Main/Tests.antt =====
-- The program on the JSON text of a small netlist, with bits in the clear.
use tangor.Base.{List, arith, elem, Has, ℕ, ◌≡◌, refl, Bool, true, false, [], ◌∷◌, some, get_elem?}
use tangor.Tfhe.Clear.{clear, clear_laws}
use tangor.Starpu.{Store, Run}
use tangor.Base.Sort.{sort}
use tangor.Parser.{ok, parsed_bc, gate_name_of, connected_bit, port_bits}
use tangor.Parser.Samples.{api, document, runnable_ports, runnable_cells}
use tangor.Parser.Yosys.{YosysPort, YosysCell, input, output, gate}
use tangor.Parser.Documents.{Describes, inputs, outputs, driven}
use tangor.Graph.Cells.{binary, nand, xor', mux}
use tangor.Main.Circuit.{IsCircuit, evaluate}
use tangor.Main.Documents.{launch_document}
use tangor.Graph.{Globals, store_of}
use tangor.Graph.Correct.{place}
use tangor.Graph.Tests.{
  netlist, values, alternate, netlist-IsRunnable, netlist-IsDriven, loaded-EncryptsInputs, built,
  netlist-built,
}
use tangor.Main.{launched, launch, result_data}
use tangor.Main.Simulation.{launch_simulates}
use tangor.Graph.Simulation.{simulate, WritesOnce}

runnable_parsed : parsed_bc api "runnable" ≡ ok netlist
unfolding parsed_bc api gate_name_of sort
runnable_parsed = refl

pub runnable_launched :
    launch clear api (some "runnable") (true ∷ false ∷ true ∷ []) true ≡ launched (built netlist)
unfolding launch
runnable_launched = rw (runnable_parsed, netlist-built) refl

runnable-WritesOnce : WritesOnce netlist.input_vector netlist.gate_vector
runnable-WritesOnce = (refl, (refl, (refl, tt)))

launch_simulates_example :
    (g : Globals clear) × (launch clear api (some "runnable") (true ∷ false ∷ true ∷ []) true
      ≡ launched g)
    × ((s : Store clear) × Run clear (place alternate g.tasks) (store_of clear g) s)
    × ((s : Store clear) (i id : ℕ)
        → Run clear (place alternate g.tasks) (store_of clear g) s
        → get_elem? netlist.output_vector i ≡ some id
        → (c : Bool) × (get_elem? (result_data clear api s g) i ≡ some c)
          × (c ≡ simulate netlist.gate_vector values id))
launch_simulates_example =
    launch_simulates clear_laws api "runnable" netlist (true ∷ false ∷ true ∷ []) values
      runnable_parsed netlist-IsRunnable runnable-WritesOnce loaded-EncryptsInputs netlist-IsDriven
      alternate

abbrev pub circuit_ports : List YosysPort
circuit_ports =
    input (4 ∷ []) ∷ input (3 ∷ []) ∷ input (2 ∷ []) ∷ output (6 ∷ []) ∷ output (7 ∷ []) ∷ []

abbrev pub circuit_cells : List YosysCell
circuit_cells = gate (binary nand) 6 2 3 0 ∷ gate (binary xor') 5 2 4 0 ∷ gate mux 7 5 3 4 ∷ []

pub runnable-Describes : Describes api "runnable" circuit_ports circuit_cells
unfolding api connected_bit port_bits
runnable-Describes = record {
  netlist = document runnable_ports runnable_cells;
  modules = _;
  main_module = _;
  port_values = runnable_ports;
  cell_values = runnable_cells;
  parses = refl;
  at_modules = refl;
  one_module = refl;
  at_ports = refl;
  at_cells = refl;
  are_ports = (
    ((_, refl, refl), refl),
    (
      ((_, refl, refl), refl),
      (((_, refl, refl), refl), (((_, refl, refl), refl), (((_, refl, refl), refl), tt))),
    ),
  );
  are_cells = (
    ((_, refl, refl), refl, omega arith, refl, refl),
    (
      ((_, refl, refl), refl, omega arith, refl, refl),
      (((_, refl, refl), refl, omega arith, refl, (refl, refl)), tt),
    ),
  );
}

sample-driven : (id : ℕ) → Has id (outputs circuit_ports) → Has id (driven circuit_cells)
sample-driven id h = ground arith

sample-not_input :
    (id : ℕ) → Has id (outputs circuit_ports) → elem id (inputs circuit_ports) ≡ false
sample-not_input id h = ground arith

pub sample-IsCircuit : IsCircuit circuit_ports circuit_cells
sample-IsCircuit = record {
  in_order = (
    (refl, (refl, tt)),
    refl,
    ((refl, (refl, tt)), refl, ((refl, (refl, (refl, tt))), refl, tt)),
  );
  distinct = (refl, (refl, tt));
  is_driven = sample-driven;
  not_input = sample-not_input;
}

launch_document_example :
    (g : Globals clear) × (launch clear api (some "runnable") (true ∷ false ∷ true ∷ []) true
      ≡ launched g)
    × ((s : Store clear) × Run clear (place alternate g.tasks) (store_of clear g) s)
    × ((s : Store clear) (i id : ℕ)
        → Run clear (place alternate g.tasks) (store_of clear g) s
        → get_elem? (sort (outputs circuit_ports)) i ≡ some id
        → (c : Bool) × (get_elem? (result_data clear api s g) i ≡ some c)
          × (c ≡ evaluate circuit_cells values id))
unfolding sort
launch_document_example =
    launch_document clear_laws api "runnable" circuit_ports circuit_cells runnable-Describes
      sample-IsCircuit (true ∷ false ∷ true ∷ []) values loaded-EncryptsInputs alternate
