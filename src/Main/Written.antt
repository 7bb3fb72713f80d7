-- ===== src/Main/Written.antt =====
-- What src/tangor.cpp writes to result.data.
use tangor.Base.{
  ◌≡◌, refl, sym, subst, ◌∙◌, ap, ℕ, Bool, true, false, List, [], ◌∷◌, ◌++◌, map, none, some,
  String, get_elem?,
}
use tangor.Base.Sort.{sort}
use tangor.Tfhe.{Tfhe, TfheLaws}
use tangor.Json.{JsonApi}
use tangor.Codelets.{Worker}
use tangor.Starpu.{Store, Run}
use tangor.Graph.{Globals, store_of}
use tangor.Graph.Correct.{place}
use tangor.Cufhepp.{CudaCall, Cufhepp}
use tangor.Parser.Yosys.{YosysPort, YosysCell}
use tangor.Parser.Documents.{Describes, inputs, outputs}
use tangor.Main.{Launch, launched, launch, result_data}
use tangor.Main.Circuit.{IsCircuit, evaluate}
use tangor.Main.Documents.{launch_document}
use tangor.Main.Program.{
  Setting, Exit, returned, ready_cufhepp, MainCall, cuda, start_starpu, start_bound, when,
  start_backend, conclude, after_hoge, proceed, main, results,
}

module _ (t : Tfhe) (j : JsonApi) where
  results-cuda :
      (xs : List CudaCall) (cs : List (MainCall t j))
      → results t j (map cuda xs ++ cs) ≡ results t j cs
  unfolding results
  results-cuda [] cs = refl
  results-cuda (x ∷ xs) cs = results-cuda xs cs

  results-start_backend :
      (b : Bool) (s : Cufhepp)
      → results t j (when b start_bound ++ (map cuda s.calls ++ start_starpu ∷ [])) ≡ []
  unfolding results
  results-start_backend false s = results-cuda s.calls (start_starpu ∷ [])
  results-start_backend true s = results-cuda s.calls (start_starpu ∷ [])

  -- Where result.data can be written, `main` returns 0 and has written it once.
  abbrev Writes : List t.Cipher → List (List t.Cipher) → Exit × List (MainCall t j) → Type 0
  Writes r rs p = (p.0 ≡ returned 0) × (results t j p.1 ≡ r ∷ rs)

  conclude-Writes :
      (c b o : Bool) (r : List t.Cipher) (s : Cufhepp) (cs : List (MainCall t j))
      → Writes r (results t j cs) (conclude t j c b true o r (s, cs))
  unfolding results conclude
  conclude-Writes c false o r s cs = (refl, rw results-cuda refl)
  conclude-Writes c true false r s cs = (refl, rw results-cuda refl)
  conclude-Writes c true true r s cs = (refl, rw results-cuda refl)

  proceed-Writes :
      (x : Setting) (key : ℕ) (complete : Globals t → Store t) (g : Globals t)
      → x.use_hoge ≡ none
      → x.result_writes ≡ true
      → Writes (result_data t j (complete g) g) [] (proceed t j x key complete (launched g))
  unfolding proceed start_backend results after_hoge
  proceed-Writes x key complete g plain writes =
      let r = result_data t j (complete g) g in
      let (at_end, written) =
        conclude-Writes x.use_cufhepp x.write_starpu_bound_lp x.bound_opens r
          (ready_cufhepp x.use_cufhepp x.devices key) _ in
      rw (plain, writes)
        (
          at_end,
          written
              ∙ ap (λ (rs : List (List t.Cipher)). r ∷ rs)
                  (results-start_backend x.write_starpu_bound_lp
                    (ready_cufhepp x.use_cufhepp x.devices key)),
        )

module _ {t : Tfhe} (laws : TfheLaws t) (j : JsonApi) (ports : List YosysPort)
    (cells : List YosysCell) (bits : ℕ → Bool) where
  open laws use {Encrypts}

  -- `return 0` at the end of `main`, after result.data was written once, with an encryption of each
  -- output of the circuit.
  abbrev pub WritesOutputs : Exit × List (MainCall t j) → Type 0
  WritesOutputs p =
      (p.0 ≡ returned 0)
      × (file : List t.Cipher) × (results t j p.1 ≡ file ∷ [])
      × ((i id : ℕ)
          → get_elem? (sort (outputs ports)) i ≡ some id
          → (c : t.Cipher) × (get_elem? file i ≡ some c) × Encrypts c (evaluate cells bits id))

module _ {t : Tfhe} (laws : TfheLaws t) (j : JsonApi) (circuit_json : String)
    (ports : List YosysPort) (cells : List YosysCell)
    (described : Describes j circuit_json ports cells) (circuit : IsCircuit ports cells)
    (cloud_data : List t.Cipher) (bits : ℕ → Bool)
    (encrypted : (i id : ℕ)
      → get_elem? (sort (inputs ports)) i ≡ some id
      → (c : t.Cipher) × (get_elem? cloud_data i ≡ some c) × laws.Encrypts c (bits id)) where
  -- On the JSON document of a combinational circuit without registers, whose cells stand in order
  -- and each give a value to a new signal other than 2 ^ 32 - 1, and whose output bits are distinct
  -- and each driven by a cell, on encryptions of its input bits in the order of the signals and any
  -- key, in a build without USE_HOGE, if StarPU starts and runs the tasks to the end on any workers
  -- as its data consistency permits and result.data can be written: `main` returns 0, with or
  -- without cuFHEpp and its devices, after it wrote result.data once, which has for each output, in
  -- the order of the signals, an encryption of the bit that the cells give it.
  pub main_document :
      (x : Setting) (key : ℕ) (ws : ℕ → Worker) (complete : Globals t → Store t)
      → x.starpu_starts ≡ true
      → x.use_hoge ≡ none
      → x.result_writes ≡ true
      → ((g : Globals t)
          → launch t j (some circuit_json) cloud_data true ≡ launched g
          → Run t (place ws g.tasks) (store_of t g) (complete g))
      → WritesOutputs laws j ports cells bits (
          main t j x
            (record {
              eval_key = some key;
              cloud_data = some cloud_data;
              circuit_json = some circuit_json;
            })
            complete)
  unfolding main
  main_document x key ws complete starts plain opened runs =
      let (g, at, end, outs) =
        launch_document laws j circuit_json ports cells described circuit cloud_data bits encrypted
          ws in
      let came = ap (λ (b : Bool). launch t j (some circuit_json) cloud_data b) starts ∙ at in
      let writes : WritesOutputs laws j ports cells bits (proceed t j x key complete (launched g)) =
        let (at_end, written) = proceed-Writes t j x key complete g plain opened in
        (at_end, _, written, λ i id. outs (complete g) i id (runs g at)) in
      subst
        (λ (l : Launch t j). WritesOutputs laws j ports cells bits (proceed t j x key complete l))
        (sym came) writes
