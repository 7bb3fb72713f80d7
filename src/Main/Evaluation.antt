-- ===== src/Main/Evaluation.antt =====
-- src/tangor.cpp as a whole: from a JSON netlist and encrypted inputs to the written ciphertexts.
use tangor.Base.{ℕ, ◌≡◌, refl, ap, Bool, true, List, Option, none, some, String, get_elem?}
use tangor.Tfhe.{Tfhe, TfheLaws}
use tangor.Netlist.{ParsedBc}
use tangor.Json.{JsonApi}
use tangor.Codelets.{Worker}
use tangor.Starpu.{Store, Run}
use tangor.Parser.{ok, parsed_bc}
use tangor.Graph.{Globals, starpu_build_graph, store_of}
use tangor.Graph.Correct.{Satisfies, place}
use tangor.Graph.Results.{
  IsRunnable, IsDriven, EncryptsInputs, build_graph_evaluates, build_graph_runs,
}
use tangor.Main.{Launch, launched, loaded, launch, built, result_data}

pub built-launched :
    (t : Tfhe) (j : JsonApi) (o : Option (Globals t)) (g : Globals t)
    → built t j o ≡ launched g
    → o ≡ some g
built-launched t j none g e = cc
built-launched t j (some h) g e = ap (λ (l : Launch t j). of_launch l) e
  where
    of_launch : Launch t j → Option (Globals t)
    of_launch (launched k) = some k
    of_launch _ = none

module _ {t : Tfhe} (laws : TfheLaws t) (j : JsonApi) (circuit_json : String) (bc : ParsedBc)
    (cloud_data : List t.Cipher) (v : ℕ → Bool) (parsed : parsed_bc j circuit_json ≡ ok bc)
    (runnable : IsRunnable bc) (sat : Satisfies v bc.gate_vector)
    (inputs : EncryptsInputs laws bc v (loaded t j cloud_data)) where
  open laws use {Encrypts}

  -- From a JSON text that is parsed to a netlist without registers whose gates stand in order, and
  -- encryptions of its inputs under an assignment that the gates obey, `main` comes to a graph of tasks, and these can be run to the end on
  -- any choice of workers.
  pub launch_runs :
      (ws : ℕ → Worker)
      → (g : Globals t) × (launch t j (some circuit_json) cloud_data true ≡ launched g)
        × (s : Store t) × Run t (place ws g.tasks) (store_of t g) s
  unfolding launch
  launch_runs ws =
      let (g, build, quiet, s, ran) =
        build_graph_runs laws bc v (loaded t j cloud_data) runnable sat inputs refl ws in
      (g, rw (parsed, build) refl, s, ran)

  launched_build :
      (g : Globals t)
      → launch t j (some circuit_json) cloud_data true ≡ launched g
      → starpu_build_graph t bc (loaded t j cloud_data) ≡ some g
  unfolding launch
  launched_build g e =
      built-launched t j (starpu_build_graph t bc (loaded t j cloud_data)) g (rw parsed at e)

  -- On such a text and such inputs, if moreover each output is driven, once and by a gate of its own, and is neither an input nor a
  -- wire, then on any workers and in any execution that StarPU's data consistency permits, the element
  -- of result.data for each output encrypts the value of that output.
  pub launch_evaluates :
      (driven : IsDriven bc) (ws : ℕ → Worker) (g : Globals t) (s : Store t) (i id : ℕ)
      → launch t j (some circuit_json) cloud_data true ≡ launched g
      → Run t (place ws g.tasks) (store_of t g) s
      → get_elem? bc.output_vector i ≡ some id
      → (c : t.Cipher) × (get_elem? (result_data t j s g) i ≡ some c) × Encrypts c (v id)
  unfolding result_data
  launch_evaluates driven ws g s i id e ran at =
      build_graph_evaluates laws bc v (loaded t j cloud_data) runnable sat inputs refl driven ws g s
        i id (launched_build g e) ran at
