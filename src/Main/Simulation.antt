-- ===== src/Main/Simulation.antt =====
-- src/tangor.cpp against the evaluation of the netlist on bits in the clear.
use tangor.Base.{ℕ, ◌≡◌, sym, subst, Bool, true, List, some, String, get_elem?, get_elem?-Has}
use tangor.Tfhe.{Tfhe, TfheLaws}
use tangor.Netlist.{ParsedBc}
use tangor.Json.{JsonApi}
use tangor.Codelets.{Worker}
use tangor.Starpu.{Store, Run}
use tangor.Parser.{ok, parsed_bc}
use tangor.Graph.{Globals, store_of}
use tangor.Graph.Correct.{place}
use tangor.Graph.Results.{IsRunnable, IsDriven, EncryptsInputs}
use tangor.Graph.Simulation.{simulate, WritesOnce, simulate-Agree, simulate-Satisfies}
use tangor.Main.{launched, loaded, launch, result_data}
use tangor.Main.Evaluation.{launch_runs, launch_evaluates}

module _ {t : Tfhe} (laws : TfheLaws t) (j : JsonApi) (circuit_json : String) (bc : ParsedBc)
    (cloud_data : List t.Cipher) (bits : ℕ → Bool) (parsed : parsed_bc j circuit_json ≡ ok bc)
    (runnable : IsRunnable bc) (once : WritesOnce bc.input_vector bc.gate_vector)
    (inputs : EncryptsInputs laws bc bits (loaded t j cloud_data)) where
  open laws use {Encrypts}

  EncryptsInputs-simulate :
      EncryptsInputs laws bc (simulate bc.gate_vector bits) (loaded t j cloud_data)
  EncryptsInputs-simulate i id at =
      let (c, e, enc) = inputs i id at in
      let same =
        simulate-Agree bc bc.input_vector bc.gate_vector bits runnable.ordered once id
          (get_elem?-Has bc.input_vector id i at) in
      (c, e, subst (Encrypts c) (sym same) enc)

  -- On a JSON text that is parsed to a netlist without registers whose gates stand in an order of
  -- evaluation and write each signal once, whose outputs are driven, each once and neither inputs nor wires, and on encryptions of
  -- its inputs, `main` comes to a graph of tasks, which can be run to the end on any choice of workers; and however they
  -- are run, the element of result.data for each output encrypts the bit that the evaluation of the netlist on the input bits in the clear gives it.
  pub launch_simulates :
      (driven : IsDriven bc) (ws : ℕ → Worker)
      → (g : Globals t) × (launch t j (some circuit_json) cloud_data true ≡ launched g)
        × ((s : Store t) × Run t (place ws g.tasks) (store_of t g) s)
        × ((s : Store t) (i id : ℕ)
            → Run t (place ws g.tasks) (store_of t g) s
            → get_elem? bc.output_vector i ≡ some id
            → (c : t.Cipher) × (get_elem? (result_data t j s g) i ≡ some c)
              × Encrypts c (simulate bc.gate_vector bits id))
  launch_simulates driven ws =
      let v = simulate bc.gate_vector bits in
      let sat = simulate-Satisfies bc bc.input_vector bc.gate_vector bits runnable.ordered once in
      let (g, e, s, ran) =
        launch_runs laws j circuit_json bc cloud_data v parsed runnable sat EncryptsInputs-simulate
          ws in
      (
        g,
        e,
        (s, ran),
        λ s' i id ran' at.
            launch_evaluates laws j circuit_json bc cloud_data v parsed runnable sat
              EncryptsInputs-simulate driven ws g s' i id e ran' at,
      )
