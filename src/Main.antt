-- ===== src/Main.antt =====
-- The function `main` of src/tangor.cpp, in the default build, from the contents of its files.
mod Evaluation
mod Simulation
mod Circuit
mod Documents
mod Program
mod Protocol
mod Written
mod Runs
mod Tests
use tangor.Base.{Bool, true, false, List, [], Option, none, some, String}
use tangor.Tfhe.{Tfhe}
use tangor.Netlist.{ParsedBc}
use tangor.Json.{JsonApi}
use tangor.Starpu.{Store}
use tangor.Parser.{Failure, Result, ok, err, parsed_bc}
use tangor.Graph.{Globals, starpu_build_graph, sync_outputs_to_host}

module _ (t : Tfhe) (j : JsonApi) where
  -- How far `main` comes before it waits for the tasks: `return 1`, a failure of the parser that nothing
  -- catches, undefined behaviour of the graph builder, or a graph of tasks.
  pub data Launch : Type 0 where
    returns_one : Launch
    uncaught : Failure → Launch
    undefined : Launch
    launched : Globals t → Launch

  -- The globals after `ar(cipherin)`.
  abbrev pub loaded : List t.Cipher → Globals t
  loaded cloud_data = record {
    in_ciphers = cloud_data;
    out_ciphers = [];
    dffq_ciphers = [];
    dffd_ciphers = [];
    wire_ciphers = [];
    handles = record {
      cipherin_handle = [];
      cipherout_handle = [];
      cipherdffq_handle = [];
      cipherdffd_handle = [];
      cipherwire_handle = [];
    };
    tasks = [];
    lines = [];
  }

  abbrev pub built : Option (Globals t) → Launch
  built none = undefined
  built (some g) = launched g

  -- `BCnetlist`, then `starpu_init`, then `starpu_build_graph`.
  unfoldable pub initialize : Result ParsedBc → Bool → List t.Cipher → Launch
  initialize (err e) starpu_initialized cloud_data = uncaught e
  initialize (ok bc) false cloud_data = returns_one
  initialize (ok bc) true cloud_data = built (starpu_build_graph t bc (loaded cloud_data))

  -- From the contents of circuit.json, if it can be opened, those of cloud.data, and the success of
  -- `starpu_init`.
  unfoldable pub launch : Option String → List t.Cipher → Bool → Launch
  unfolding initialize
  launch none cloud_data starpu_initialized = returns_one
  launch (some circuit_json) cloud_data starpu_initialized =
      initialize (parsed_bc j circuit_json) starpu_initialized cloud_data

  -- What is written to result.data when the tasks have left the store `s`.
  unfoldable pub result_data : Store t → Globals t → List t.Cipher
  unfolding sync_outputs_to_host
  result_data s g = (sync_outputs_to_host t s g).out_ciphers
