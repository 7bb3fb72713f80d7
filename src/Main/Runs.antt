-- ===== src/Main/Runs.antt =====
-- The whole program on a small circuit, with two GPUs and the bound of StarPU recorded.
use mathlib.Core.Option.{some-injective}
use tangor.Base.{◌≡◌, ◌≢◌, ◌∙◌, refl, sym, subst, true, false, [], ◌∷◌, none, some}
use tangor.Base.Sort.{sort}
use tangor.Tfhe.Clear.{clear, clear_laws}
use tangor.Starpu.{Store, Run}
use tangor.Parser.Samples.{api}
use tangor.Graph.{Globals, store_of}
use tangor.Graph.Correct.{place}
use tangor.Graph.Tests.{
  netlist, values, alternate, loaded-EncryptsInputs, built, final, netlist-Run,
}
use tangor.Main.{launch, launched}
use tangor.Main.Evaluation.{built-launched}
use tangor.Main.Tests.{
  circuit_ports, circuit_cells, runnable-Describes, sample-IsCircuit, runnable_launched,
}
use tangor.Main.Program.{Setting, Files, returned, undefined_behaviour, main}
use tangor.Main.Protocol.{IsClosed, main-IsClosed}
use tangor.Main.Written.{WritesOutputs, main_document}

abbrev gpus : Setting
gpus = record {
  use_cufhepp = true;
  use_hoge = none;
  starpu_starts = true;
  devices = record { cuda_workers = 2; device_count = some 2 };
  write_starpu_bound_lp = true;
  result_writes = true;
  bound_opens = true;
}

abbrev files : Files clear api
files = record {
  eval_key = some 5;
  cloud_data = some (true ∷ false ∷ true ∷ []);
  circuit_json = some "runnable";
}

abbrev complete : Globals clear → Store clear
complete g = final netlist

complete-Run :
    (g : Globals clear)
    → launch clear api (some "runnable") (true ∷ false ∷ true ∷ []) true ≡ launched g
    → Run clear (place alternate g.tasks) (store_of clear g) (complete g)
complete-Run g e =
    let same : built netlist ≡ g =
      some-injective _ _
        (built-launched clear api (some (built netlist)) g (sym runnable_launched ∙ e)) in
    subst
      (λ (k : Globals clear).
        Run clear (place alternate k.tasks) (store_of clear k) (final netlist))
      same netlist-Run

main_document_example :
    WritesOutputs clear_laws api circuit_ports circuit_cells values
      (main clear api gpus files complete)
unfolding sort
main_document_example =
    main_document clear_laws api "runnable" circuit_ports circuit_cells runnable-Describes
      sample-IsCircuit (true ∷ false ∷ true ∷ []) values loaded-EncryptsInputs gpus 5 alternate
      complete refl refl refl complete-Run

files-defined : (main clear api gpus files complete).0 ≢ undefined_behaviour
unfolding sort
files-defined e =
    let written =
      main_document clear_laws api "runnable" circuit_ports circuit_cells runnable-Describes
        sample-IsCircuit (true ∷ false ∷ true ∷ []) values loaded-EncryptsInputs gpus 5 alternate
        complete refl refl refl complete-Run in
    let at_end : returned 0 ≡ undefined_behaviour = sym written.0 ∙ e in absurd (cc at_end)

main-IsClosed_example : IsClosed clear api (main clear api gpus files complete)
main-IsClosed_example = main-IsClosed clear api gpus files complete files-defined
