-- ===== src/Graph/Tests.antt =====
-- A small netlist: outputs 6 = ~(2 & 3) and 7 = 4 ? 3 : 6' through the wire 5 = 2 ^ 4.
use tangor.Base.{
  ℕ, zero, suc, ◌%◌, ◌≡◌, refl, inl, ap, Bool, true, false, [], ◌∷◌, Option, none, some, arith,
  get_elem?, if◌then◌else◌, ◌==◌, ◌||◌, xor, String,
}
use mathlib.Core.Option.{some-injective}
use tangor.Graph.Unwritten.{shadowed_output}
use tangor.Tfhe.{phase, bootstrap_fn}
use tangor.Tfhe.Clear.{clear, clear_laws}
use tangor.Netlist.{GateStruct, ParsedBc}
use tangor.Codelets.{run_codelet, Worker, cpu_worker, cuda_worker}
use tangor.Starpu.{cipherout, Store, Run, in_order, exec}
use tangor.Starpu.Order.{in_order-Run}
use tangor.Graph.{
  Globals, starpu_build_graph, store_of, sync_outputs_to_host, submit_gates, search_pointer,
}
use tangor.Graph.Correct.{Satisfies, place}
use tangor.Graph.Cells.{binary, nand, mux, xor'}
use tangor.Graph.Results.{
  IsRunnable, IsDriven, EncryptsInputs, build_graph_runs, build_graph_evaluates,
}

abbrev pub gate : String → ℕ → ℕ → ℕ → ℕ → GateStruct
gate name a b s out = record {
  name = name;
  in0 = a;
  in1 = b;
  in2 = s;
  out0 = out;
  out1 = 0;
  out2 = 0;
}

abbrev pub netlist : ParsedBc
netlist = record {
  input_vector = 2 ∷ 3 ∷ 4 ∷ [];
  output_vector = 6 ∷ 7 ∷ [];
  dff_q_vector = [];
  dff_d_vector = [];
  wire_vector = 5 ∷ [];
  gate_vector = gate "NAND" 2 3 0 6 ∷ gate "XOR" 2 4 0 5 ∷ gate "MUX" 5 3 4 7 ∷ [];
  direct_port_pair_vector = [];
  dependency_vector = 0 ∷ 0 ∷ 0 ∷ 0 ∷ 0 ∷ 2 ∷ 1 ∷ 3 ∷ [];
}

-- The inputs 2, 3 and 4 are true, false and true.
abbrev pub values : ℕ → Bool
values n = n == 2 || n == 4 || n == 6

abbrev pub loaded : Globals clear
loaded = record {
  in_ciphers = true ∷ false ∷ true ∷ [];
  out_ciphers = [];
  dffq_ciphers = [];
  dffd_ciphers = [];
  wire_ciphers = [];
  handles = record {
    cipherin_handle = [];
    cipherout_handle = [];
    cipherdffq_handle = [];
    cipherdffd_handle = [];
    cipherwire_handle = [];
  };
  tasks = [];
  lines = [];
}

pub netlist-IsRunnable : IsRunnable netlist
netlist-IsRunnable = record {
  combinational = record { no_q = refl; no_d = refl };
  ordered = (
    (binary nand, refl, (refl, (refl, tt)), refl),
    (
      (binary xor', refl, (refl, (refl, tt)), refl),
      ((mux, refl, (refl, (refl, (refl, tt))), refl), tt),
    ),
  );
}

pub netlist-Satisfies : Satisfies values netlist.gate_vector
unfolding xor
netlist-Satisfies =
    ((binary nand, refl, refl), ((binary xor', refl, refl), ((mux, refl, refl), tt)))

pub loaded-EncryptsInputs : EncryptsInputs clear_laws netlist values loaded
loaded-EncryptsInputs zero id e = (true, refl, ap values (some-injective 2 id e))
loaded-EncryptsInputs (suc zero) id e = (false, refl, ap values (some-injective 3 id e))
loaded-EncryptsInputs (suc (suc zero)) id e = (true, refl, ap values (some-injective 4 id e))
loaded-EncryptsInputs (suc (suc (suc i))) id e = cc

pub netlist-IsDriven : IsDriven netlist
netlist-IsDriven = record {
  distinct = (refl, (refl, tt));
  not_input = λ id h. ground arith;
  not_wire = λ id h. ground arith;
  driven = λ id h. ground arith;
}

-- Even tasks on a GPU.
abbrev pub alternate : ℕ → Worker
alternate n = if n % 2 == 0 then cuda_worker else cpu_worker

build_graph_runs_example :
    (g : Globals clear) × (starpu_build_graph clear netlist loaded ≡ some g)
    × (g.lines ≡ [])
    × (s : Store clear) × Run clear (place alternate g.tasks) (store_of clear g) s
build_graph_runs_example =
    build_graph_runs clear_laws netlist values loaded netlist-IsRunnable netlist-Satisfies
      loaded-EncryptsInputs refl alternate

-- The globals that the builder leaves, and the store that a run of its tasks leaves.
abbrev or_else : {A : Type 0} → Option A → A → A
or_else none a = a
or_else (some b) a = b

unfoldable pub built : ParsedBc → Globals clear
unfolding starpu_build_graph submit_gates search_pointer
built bc = or_else (starpu_build_graph clear bc loaded) loaded

unfoldable pub final : ParsedBc → Store clear
unfolding built in_order exec store_of run_codelet bootstrap_fn phase
final bc =
    or_else (in_order clear (place alternate (built bc).tasks) (store_of clear (built bc)))
      (store_of clear (built bc))

pub netlist-built : starpu_build_graph clear netlist loaded ≡ some (built netlist)
unfolding built
netlist-built = refl

pub netlist-Run :
    Run clear
      (place alternate (built netlist).tasks)
      (store_of clear (built netlist))
      (final netlist)
unfolding final
netlist-Run = in_order-Run clear _ _ _ refl

build_graph_evaluates_example :
    (c : Bool) × (get_elem?
        (sync_outputs_to_host clear (final netlist) (built netlist)).out_ciphers
        1
      ≡ some c)
    × (c ≡ false)
build_graph_evaluates_example =
    build_graph_evaluates clear_laws netlist values loaded netlist-IsRunnable netlist-Satisfies
      loaded-EncryptsInputs refl netlist-IsDriven alternate (built netlist) (final netlist) 1 7
      netlist-built netlist-Run refl

netlist_results :
    (sync_outputs_to_host clear (final netlist) (built netlist)).out_ciphers ≡ true ∷ false ∷ []
unfolding final sync_outputs_to_host
netlist_results = refl

-- The output 2 is an input too, and its element of `cipherout` keeps its initial value.
abbrev feedthrough : ParsedBc
feedthrough = record netlist { output_vector = 2 ∷ 6 ∷ 7 ∷ [] }

feedthrough-IsRunnable : IsRunnable feedthrough
feedthrough-IsRunnable = record {
  combinational = record { no_q = refl; no_d = refl };
  ordered = netlist-IsRunnable.ordered;
}

feedthrough-built : starpu_build_graph clear feedthrough loaded ≡ some (built feedthrough)
unfolding built
feedthrough-built = refl

feedthrough-Run :
    Run clear
      (place alternate (built feedthrough).tasks)
      (store_of clear (built feedthrough))
      (final feedthrough)
unfolding final
feedthrough-Run = in_order-Run clear _ _ _ refl

shadowed_output_example : final feedthrough (record { vector = cipherout; index = 0 }) ≡ false
shadowed_output_example =
    shadowed_output clear feedthrough loaded (built feedthrough) alternate (final feedthrough) 0 2
      feedthrough-IsRunnable refl feedthrough-built feedthrough-Run refl (inl refl)
