-- ===== src/Graph/Results.antt =====
-- src/starpu_build_graph.cpp with the calls that src/tangor.cpp makes around it: from the encrypted
-- inputs to the ciphertexts that are written to the result file.
use tangor.Base.{
  ℕ, ◌≡◌, refl, String, sym, ap, ap₂, subst, ◌∙◌, Bool, false, List, [], ◌++◌, some, length,
  get_elem?, get_elem?-lt, get_elem?-resize, get_elem?-map, get_elem?-Has, get_or-some, elem, Has,
  find-some, find-Has, find-Distinct, Distinct,
}
use mathlib.Core.Path.{fun_ext}
use mathlib.Core.List.{append-nil}
use mathlib.Core.Option.{some-injective}
use tangor.Tfhe.{Tfhe, TfheLaws}
use tangor.Netlist.{ParsedBc}
use tangor.Codelets.{Worker}
use tangor.Starpu.{CipherVector, cipherin, cipherout, Task, Store, Run, in_order}
use tangor.Starpu.Order.{Run-in_order, in_order-Run}
use tangor.Graph.{
  register_handles, submit_gates, Globals, allocate, starpu_build_graph, store_of,
  sync_outputs_to_host,
}
use tangor.Graph.Search.{
  IsCombinational, registered, locate, locate-input, locate-output, search_pointer-locate,
}
use tangor.Graph.Plan.{signals, IsOrdered, Plan, submit_gates-Plan}
use tangor.Graph.Correct.{Satisfies, place, Good, Plan-Good}

-- A netlist without registers whose gates stand in an order of evaluation.
pub record IsRunnable (bc : ParsedBc) : Type 0 where
  pub combinational : IsCombinational bc
  pub ordered : IsOrdered bc bc.input_vector bc.gate_vector

-- Every output is an output of a gate, of its own, and neither an input nor a wire.
pub record IsDriven (bc : ParsedBc) : Type 0 where
  pub distinct : Distinct bc.output_vector
  pub not_input : (id : ℕ) → Has id bc.output_vector → elem id bc.input_vector ≡ false
  pub not_wire : (id : ℕ) → Has id bc.output_vector → elem id bc.wire_vector ≡ false
  pub driven : (id : ℕ) → Has id bc.output_vector → Has id (signals bc.input_vector bc.gate_vector)

module _ {t : Tfhe} (laws : TfheLaws t) (bc : ParsedBc) (v : ℕ → Bool) (g₀ : Globals t) where
  open laws use {Encrypts}

  -- The ciphertexts that were read from `cloud.data` encrypt the inputs.
  abbrev pub EncryptsInputs : Type 0
  EncryptsInputs =
      (i id : ℕ)
      → get_elem? bc.input_vector i ≡ some id
      → (c : t.Cipher) × (get_elem? g₀.in_ciphers i ≡ some c) × Encrypts c (v id)

-- The memory does not depend on what was submitted.
pub store_of-tasks :
    {t : Tfhe} (g : Globals t) (tasks : List Task)
    → store_of t (record g { tasks = tasks }) ≡ store_of t g
unfolding store_of
store_of-tasks {t} g tasks = fun_ext λ h. at h.vector h.index
  where
    at :
        (c : CipherVector) (i : ℕ)
        → store_of t (record g { tasks = tasks }) (record { vector = c; index = i })
          ≡ store_of t g (record { vector = c; index = i })
    at cipherin i = refl
    at _ i = refl

-- The builder without an earlier task, where the loop over the gates submits `tasks` and prints nothing.
pub build_graph-submitted :
    {t : Tfhe} (bc : ParsedBc) (g₀ : Globals t) (tasks : List Task)
    → g₀.tasks ≡ []
    → submit_gates bc (register_handles bc) bc.gate_vector ≡ some (tasks, [])
    → starpu_build_graph t bc g₀ ≡ some (record (allocate t bc g₀) { tasks = tasks })
unfolding starpu_build_graph
build_graph-submitted {t} bc g₀ tasks fresh submitted =
    let ends = λ (ts : List Task) (ls : List String).
      some (record (allocate t bc g₀) { tasks = ts; lines = ls }) in
    rw submitted (ap₂ ends (ap (λ (ts : List Task). ts ++ tasks) fresh) (append-nil g₀.lines))

module _ {t : Tfhe} (bc : ParsedBc) (g₀ : Globals t) (runnable : IsRunnable bc)
    (fresh : g₀.tasks ≡ []) where
  open runnable use {combinational, ordered}

  -- What the builder returns: the allocated vectors and a task for every gate.
  pub build_graph-Plan :
      (tasks : List Task) × (starpu_build_graph t bc g₀
        ≡ some (record (allocate t bc g₀) { tasks = tasks }))
      × Plan bc combinational bc.input_vector bc.gate_vector tasks
  build_graph-Plan =
      let (tasks, submitted, plan) =
        submit_gates-Plan bc combinational bc.gate_vector bc.input_vector (λ id h. rw h) ordered in
      (tasks, build_graph-submitted bc g₀ tasks fresh submitted, plan)

module _ {t : Tfhe} (laws : TfheLaws t) (bc : ParsedBc) (v : ℕ → Bool) (g₀ : Globals t)
    (runnable : IsRunnable bc) (sat : Satisfies v bc.gate_vector)
    (inputs : EncryptsInputs laws bc v g₀) (fresh : g₀.tasks ≡ []) where
  open laws use {Encrypts}
  open runnable use {combinational}

  store_of-input :
      (i id : ℕ)
      → get_elem? bc.input_vector i ≡ some id
      → Encrypts (store_of t (allocate t bc g₀) (record { vector = cipherin; index = i })) (v id)
  unfolding store_of allocate
  store_of-input i id e =
      let (c, at, enc) = inputs i id e in
      rw
        (get_or-some _ i t.blank c (
          get_elem?-resize (length bc.input_vector) t.blank g₀.in_ciphers i
            (get_elem?-lt bc.input_vector i e) at))
        enc

  start-Good : Good laws bc combinational v bc.input_vector (store_of t (allocate t bc g₀))
  start-Good id h has e =
      let (i, f) = find-Has bc.input_vector id has in
      let at : locate bc id ≡ some h = sym (search_pointer-locate bc id combinational) ∙ e in
      subst (λ k. Encrypts (store_of t (allocate t bc g₀) k) (v id))
        (some-injective _ _ (sym (locate-input bc id i f) ∙ at))
        (store_of-input i id (find-some bc.input_vector id i f))

  run_of_Plan :
      (ws : ℕ → Worker) (tasks : List Task)
      → Plan bc combinational bc.input_vector bc.gate_vector tasks
      → (s : Store t) × (in_order t
            (place ws tasks)
            (store_of t (record (allocate t bc g₀) { tasks = tasks }))
          ≡ some s)
        × Good laws bc combinational v (signals bc.input_vector bc.gate_vector) s
  run_of_Plan ws tasks plan = Plan-Good laws bc combinational v ws _ plan sat (
      subst (Good laws bc combinational v bc.input_vector)
        (sym (store_of-tasks (allocate t bc g₀) tasks)) start-Good)

  -- What the builder made is what a run ends with, at the output `id`.
  abbrev Evaluates : Globals t → ℕ → ℕ → Store t → Type 0
  Evaluates g i id s =
      (c : t.Cipher) × (get_elem? (sync_outputs_to_host t s g).out_ciphers i ≡ some c)
      × Encrypts c (v id)

  Plan-Evaluates :
      (driven : IsDriven bc) (ws : ℕ → Worker) (tasks : List Task) (s : Store t) (i id : ℕ)
      → Plan bc combinational bc.input_vector bc.gate_vector tasks
      → Run t (place ws tasks) (store_of t (record (allocate t bc g₀) { tasks = tasks })) s
      → get_elem? bc.output_vector i ≡ some id
      → Evaluates (record (allocate t bc g₀) { tasks = tasks }) i id s
  unfolding sync_outputs_to_host allocate register_handles
  Plan-Evaluates driven ws tasks s i id plan ran e =
      let (s', ran', good) = run_of_Plan ws tasks plan in
      let same_end : s' ≡ s = some-injective _ _ (sym ran' ∙ Run-in_order t _ _ s ran) in
      let has = get_elem?-Has bc.output_vector id i e in
      let at = find-Distinct bc.output_vector id i driven.distinct e in
      let found =
        search_pointer-locate bc id combinational
        ∙ locate-output bc id i (driven.not_input id has) (driven.not_wire id has) at in
      (
        s (record { vector = cipherout; index = i }),
        get_elem?-map s _ i (registered cipherout bc.output_vector id i at),
        subst (λ (r : Store t). Encrypts (r (record { vector = cipherout; index = i })) (v id))
            same_end (good id _ (driven.driven id has) found),
      )

  -- On a netlist without registers whose gates stand in an order of evaluation, with no earlier task
  -- and encryptions of the inputs under an assignment that the gates obey, the builder has a result,
  -- prints nothing, and the submitted tasks can be run to the end, whatever worker each is placed on.
  pub build_graph_runs :
      (ws : ℕ → Worker)
      → (g : Globals t) × (starpu_build_graph t bc g₀ ≡ some g)
        × (g.lines ≡ g₀.lines)
        × (s : Store t) × Run t (place ws g.tasks) (store_of t g) s
  unfolding allocate
  build_graph_runs ws =
      let (tasks, built, plan) = build_graph-Plan bc g₀ runnable fresh in
      let (s, ran, good) = run_of_Plan ws tasks plan in
      (record (allocate t bc g₀) { tasks = tasks }, built, refl, s, in_order-Run t _ _ s ran)

  -- If moreover every output is driven, once and neither an input nor a wire, then after
  -- `starpu_sync_outputs_to_host` each element of `cipherout` encrypts the value of its
  -- output, on any workers and in any execution that StarPU's data consistency permits.
  pub build_graph_evaluates :
      (driven : IsDriven bc) (ws : ℕ → Worker) (g : Globals t) (s : Store t) (i id : ℕ)
      → starpu_build_graph t bc g₀ ≡ some g
      → Run t (place ws g.tasks) (store_of t g) s
      → get_elem? bc.output_vector i ≡ some id
      → (c : t.Cipher) × (get_elem? (sync_outputs_to_host t s g).out_ciphers i ≡ some c)
        × Encrypts c (v id)
  build_graph_evaluates driven ws g s i id built ran e =
      let (tasks, built', plan) = build_graph-Plan bc g₀ runnable fresh in
      let g_is = some-injective _ _ (sym built' ∙ built) in
      subst (λ (k : Globals t). Run t (place ws k.tasks) (store_of t k) s → Evaluates k i id s) g_is
        (λ r. Plan-Evaluates driven ws tasks s i id plan r e) ran
