-- ===== src/Main/Program.antt =====
-- The whole function `main` of src/tangor.cpp, as its exit and the calls that it makes of StarPU and cuFHEpp.
use tangor.Base.{
  ℕ, Bool, true, false, ◌&&◌, List, [], ◌∷◌, ◌++◌, map, length, Option, none, some, String,
  if◌then◌else◌,
}
use tangor.Tfhe.{Tfhe}
use tangor.Json.{JsonApi}
use tangor.Starpu.{Store}
use tangor.Graph.{Globals}
use tangor.Cufhepp.{CudaCall, Devices, Cufhepp, cufhepp_initialize, cufhepp_clean_up}
use tangor.Parser.{Failure, port_definition_error, json_error, short_cell_type, write_past_end}
use tangor.Main.{Launch, returns_one, uncaught, undefined, launched, launch, result_data}

-- The build, in one with USE_HOGE whether `HOGEinit` returns, the answers of StarPU and CUDA, whether TANGOR_WRITE_STARPU_BOUND_LP is set, whether
-- result.data can be opened and written, and whether minimum_runtime.lp can be opened.
pub record Setting : Type 0 where
  pub use_cufhepp : Bool
  pub use_hoge : Option Bool
  pub starpu_starts : Bool
  pub devices : Devices
  pub write_starpu_bound_lp : Bool
  pub result_writes : Bool
  pub bound_opens : Bool

pub data Exit : Type 0 where
  returned : ℕ → Exit
  threw undefined_behaviour : Exit
  -- `exit(EXIT_FAILURE)` in `HOGEinit`.
  exited : Exit

-- How a failure of the parser ends the program.
unfoldable pub failure_exit : Failure → Exit
failure_exit port_definition_error = threw
failure_exit json_error = threw
failure_exit short_cell_type = undefined_behaviour
failure_exit write_past_end = undefined_behaviour

abbrev pub untouched : Cufhepp
untouched = record { initialized = false; calls = []; lines = [] }

abbrev pub when {ℓ} : {A : Type ℓ} → Bool → A → List A
when b a = if b then a ∷ [] else []

-- cuFHEpp once `main` has initialized it.
unfoldable pub ready_cufhepp : Bool → Devices → ℕ → Cufhepp
unfolding cufhepp_initialize
ready_cufhepp use_cufhepp d key =
    if use_cufhepp then (cufhepp_initialize d key untouched).1 else untouched

-- The file that the time of the run is appended to.
unfoldable pub runtime_file : Bool → String
runtime_file use_cufhepp = if use_cufhepp then "cuFHEpp_runtime.txt" else "CPU_runtime.txt"

module _ (t : Tfhe) (j : JsonApi) where
  -- The calls of `main` that succeed, but for those that only read a file or the clock.
  pub data MainCall : Type 0 where
    start_starpu : MainCall
    cuda : CudaCall → MainCall
    start_bound stop_bound print_bound : MainCall
    insert_tasks : ℕ → MainCall
    wait_for_all sync_outputs : MainCall
    write_result : List t.Cipher → MainCall
    shut_down : MainCall
    append_time : String → MainCall

  -- What is read of eval.key, as the address of the key, of cloud.data, and of circuit.json.
  pub record Files : Type 0 where
    pub eval_key : Option ℕ
    pub cloud_data : Option (List t.Cipher)
    pub circuit_json : Option String

  -- From `starpu_init` to `starpu_bound_start`, the last call first.
  unfoldable pub start_backend : Bool → Bool → Devices → ℕ → Cufhepp × List MainCall
  start_backend use_cufhepp write_bound d key =
      let c = ready_cufhepp use_cufhepp d key in
      (c, when write_bound start_bound ++ (map cuda c.calls ++ start_starpu ∷ []))

  -- From `starpu_task_wait_for_all` to the end. Where result.data cannot be written, cereal throws.
  unfoldable pub conclude :
      Bool → Bool → Bool → Bool → List t.Cipher → Cufhepp × List MainCall → Exit × List MainCall
  conclude use_cufhepp write_bound result_writes bound_opens result (c, calls) =
      let waited : List MainCall = sync_outputs ∷ wait_for_all ∷ calls in
      let stopped : List MainCall = when write_bound stop_bound ++ waited in
      let written : List MainCall = write_result result ∷ stopped in
      let printed = when (write_bound && bound_opens) print_bound ++ written in
      let s = record c { calls = [] } in
      let cleaned = if use_cufhepp then cufhepp_clean_up s else s in
      if result_writes
      then (
        returned 0,
        append_time (runtime_file use_cufhepp) ∷ shut_down ∷ (map cuda cleaned.calls ++ printed),
      )
      else (threw, stopped)

  -- `HOGEinit`, if it is called, and what follows it.
  unfoldable pub after_hoge :
      Setting → ℕ → Option Bool → Exit × List MainCall → Exit × List MainCall
  unfolding start_backend
  after_hoge x key none rest = rest
  after_hoge x key (some true) rest = rest
  after_hoge x key (some false) rest = (exited, (start_backend x.use_cufhepp false x.devices key).1)

  -- What follows `BCnetlist`, with the store that StarPU leaves when it has waited for the tasks.
  unfoldable pub proceed : Setting → ℕ → (Globals t → Store t) → Launch t j → Exit × List MainCall
  unfolding start_backend conclude failure_exit after_hoge
  proceed x key complete returns_one = (returned 1, [])
  proceed x key complete (uncaught e) = (failure_exit e, [])
  proceed x key complete undefined =
      after_hoge x key x.use_hoge
        (undefined_behaviour, (start_backend x.use_cufhepp x.write_starpu_bound_lp x.devices key).1)
  proceed x key complete (launched g) =
      let (c, calls) = start_backend x.use_cufhepp x.write_starpu_bound_lp x.devices key in
      after_hoge x key x.use_hoge (
        conclude x.use_cufhepp x.write_starpu_bound_lp x.result_writes x.bound_opens
          (result_data t j (complete g) g) (c, insert_tasks (length g.tasks) ∷ calls))

  -- `main`. A file that cereal cannot read makes it throw.
  unfoldable pub main : Setting → Files → (Globals t → Store t) → Exit × List MainCall
  unfolding proceed
  main x f complete = elim f.eval_key [
    | none ↦ (threw, [])
    | some key ↦ elim f.cloud_data [
      | none ↦ (threw, [])
      | some cipherin ↦ proceed x key complete (launch t j f.circuit_json cipherin x.starpu_starts)
    ]
  ]

  -- The contents of result.data, for each time that it is written, the last first.
  unfoldable pub results : List MainCall → List (List t.Cipher)
  results [] = []
  results (write_result r ∷ cs) = r ∷ results cs
  results (_ ∷ cs) = results cs
