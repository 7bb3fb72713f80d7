-- ===== src/Graph/Early.antt =====
-- Gates that stand before the gate that drives one of their operands, in the order in which
-- src/starpu_build_graph.cpp submits them.
use mathlib.Core.Option.{some-injective}
use tangor.Base.{
  ℕ, zero, suc, ◌≡◌, ◌≢◌, refl, sym, ap, subst, ◌∙◌, false, List, [], ◌∷◌, ◌++◌, map, some, arith,
  length, get_elem?, ◌==◌, ==→eq, Option, ◌>>=◌, >>=-eq-some, Has, Bool-cases, inl, inr,
  elem-append,
}
use tangor.Tfhe.{Tfhe}
use tangor.Netlist.{GateStruct, ParsedBc}
use tangor.Codelets.{Worker, run_codelet}
use tangor.Starpu.{Handle, Task, same, same→eq, same_refl, Store, exec, in_order, Run}
use tangor.Starpu.Order.{Run-in_order}
use tangor.Graph.{Globals, starpu_build_graph, store_of, register_handles, search_pointer}
use tangor.Graph.Cells.{
  Cell, cell_codelet, cell_name, cell_name_injective, operands, search_all, cell_task,
}
use tangor.Graph.Search.{IsCombinational}
use tangor.Graph.Plan.{
  IsSignal, IsOrdered, search, search-id_at, Plan, end, step, submit_gates-Plan,
}
use tangor.Graph.Correct.{place}
use tangor.Graph.Results.{build_graph-submitted}
use tangor.Graph.Unwritten.{Spares, exec-Spares, in_order-Spares}

-- No gate of the list drives the signal.
abbrev pub NoneDrives : ℕ → List GateStruct → Type 0
NoneDrives id [] = Unit {0}
NoneDrives id (g ∷ gs) = (g.out0 ≢ id) × NoneDrives id gs

module _ (bc : ParsedBc) (comb : IsCombinational bc) where
  other-signal :
      (a b : ℕ) (o h : Handle)
      → search bc comb a ≡ some o
      → search bc comb b ≡ some h
      → a ≢ b
      → same o h ≡ false
  other-signal a b o h ea eb ne = elim (Bool-cases (same o h)) [
    | inl hit ↦
        let ia = search-id_at bc comb a o ea in
        let ib = search-id_at bc comb b h eb in
        let oh = same→eq o h hit in absurd (ne (some-injective _ _ (sym ia ∙ rw oh ib)))
    | inr miss ↦ miss
  ]

  NoneDrives-Spares :
      (id : ℕ) (h : Handle) {avail : List ℕ} {gates : List GateStruct} {tasks : List Task}
      → search bc comb id ≡ some h
      → Plan bc comb avail gates tasks
      → NoneDrives id gates
      → Spares h tasks
  NoneDrives-Spares id h found end none_drives = tt
  NoneDrives-Spares id h found (step {g = g} c o ins name has at ats plan) (ne, rest) =
      (other-signal g.out0 id o h at found ne, NoneDrives-Spares id h found plan rest)

  search_all-at :
      (id : ℕ) (h : Handle) (ids : List ℕ) (ins : List Handle)
      → search bc comb id ≡ some h
      → Has id ids
      → search_all ids bc (register_handles bc) ≡ some ins
      → (n : ℕ) × (get_elem? ins n ≡ some h)
  search_all-at id h [] ins found has e = absurd (ground arith)
  search_all-at id h (x ∷ ids) ins found has e =
      let (k, at, more) = >>=-eq-some (search_pointer x bc (register_handles bc)) _ e in
      let (ks, rest, is) = >>=-eq-some (search_all ids bc (register_handles bc)) _ more in
      let whole : k ∷ ks ≡ ins = some-injective _ _ is in
      elim (Bool-cases (x == id)) [
        | inl same_id ↦
            let first : some k ≡ some h = sym at ∙ rw (==→eq x id same_id) found in
            (zero, subst (λ (hs : List Handle). get_elem? hs zero ≡ some h) whole first)
        | inr other ↦
            let (n, there) = search_all-at id h ids ks found (rw other at has) rest in
            (suc n, subst (λ (hs : List Handle). get_elem? hs (suc n) ≡ some h) whole there)
      ]

  module _ (t : Tfhe) where
    -- The task of the gate `g`, which is a cell `c` that reads `h`, stands at `n` among the tasks. At the end it has
    -- left its codelet's result on the store in which the tasks before it leave `s₀`, and that still has at `h` what
    -- `s₀` has.
    pub record ReadsEarly (c : Cell) (g : GateStruct) (h : Handle) (n : ℕ) (tasks : List Task)
        (ws : ℕ → Worker) (s₀ s : Store t) : Type 0 where
      pub output : Handle
      pub inputs : List Handle
      pub earlier : List Task
      pub later : List Task
      pub stands : tasks ≡ earlier ++ cell_task c output inputs ∷ later
      pub at_n : length earlier ≡ n
      pub is_output : search bc comb g.out0 ≡ some output
      pub are_inputs : search_all (operands c g) bc (register_handles bc) ≡ some inputs
      pub reads : (k : ℕ) × (get_elem? inputs k ≡ some h)
      pub early : Store t
      pub ran_before : in_order t (place ws earlier) s₀ ≡ some early
      pub still : early h ≡ s₀ h
      pub result : run_codelet t (ws n) (cell_codelet c) (map early inputs) ≡ some (s output)

    Plan-ReadsEarly :
        (before after : List GateStruct) (g : GateStruct) (c : Cell) (id : ℕ) (h : Handle)
        (ws : ℕ → Worker) (s₀ s : Store t) {avail : List ℕ} {tasks : List Task}
        → search bc comb id ≡ some h
        → g.name ≡ cell_name c
        → Has id (operands c g)
        → NoneDrives id before
        → NoneDrives g.out0 after
        → Plan bc comb avail (before ++ g ∷ after) tasks
        → in_order t (place ws tasks) s₀ ≡ some s
        → ReadsEarly c g h (length before) tasks ws s₀ s
    unfolding in_order exec
    Plan-ReadsEarly [] after g c id h ws s₀ s found is_c has early alone
          (step {tasks = tasks} c' o ins name _ at ats' plan) ran =
        let same_cell : c' ≡ c = cell_name_injective c' c (sym name ∙ is_c) in
        let ats : search_all (operands c g) bc (register_handles bc) ≡ some ins =
          rw (← same_cell) ats' in
        let (s₁, ran₁, rest) = >>=-eq-some (exec t (cell_task c' o ins, ws zero) s₀) _ ran in
        let (out, result, e) =
          >>=-eq-some (run_codelet t (ws zero) (cell_codelet c') (map s₀ ins)) _ ran₁ in
        let later =
          in_order-Spares t (λ n. ws (suc n)) tasks s₁ s o
            (NoneDrives-Spares g.out0 o at plan alone) rest in
        let stored : s₁ o ≡ out =
          subst (λ (r : Store t). r o ≡ out) (some-injective _ _ e) (rw (same_refl o) refl) in
        record {
          output = o;
          inputs = ins;
          earlier = [];
          later = tasks;
          stands = ap (λ (d : Cell). cell_task d o ins ∷ tasks) same_cell;
          at_n = refl;
          is_output = at;
          are_inputs = ats;
          reads = search_all-at id h (operands c g) ins found has ats;
          early = s₀;
          ran_before = refl;
          still = refl;
          result = rw (← same_cell) (result ∙ ap some (sym (later ∙ stored)));
        }
    Plan-ReadsEarly (b ∷ bs) after g c id h ws s₀ s found is_c has (ne, early) alone
          (step {tasks = tasks} c' o ins name _ at ats plan) ran =
        let x = cell_task c' o ins in
        let (s₁, ran₁, rest) = >>=-eq-some (exec t (x, ws zero) s₀) _ ran in
        let r =
          Plan-ReadsEarly bs after g c id h (λ n. ws (suc n)) s₁ s found is_c has early alone plan
            rest in
        let spared = other-signal b.out0 id o h at found ne in
        record {
          output = r.output;
          inputs = r.inputs;
          earlier = x ∷ r.earlier;
          later = r.later;
          stands = ap (λ (ys : List Task). x ∷ ys) r.stands;
          at_n = ap suc r.at_n;
          is_output = r.is_output;
          are_inputs = r.are_inputs;
          reads = r.reads;
          early = r.early;
          ran_before =
              ap (λ (m : Option (Store t)). m >>= in_order t (place (λ n. ws (suc n)) r.earlier))
                ran₁
              ∙ r.ran_before;
          still = r.still ∙ exec-Spares t x (ws zero) s₀ s₁ h spared ran₁;
          result = r.result;
        }

-- The signals of a netlist without registers.
abbrev pub signals_of : ParsedBc → List ℕ
signals_of bc = bc.input_vector ++ (bc.wire_vector ++ bc.output_vector)

signals_of-IsSignal : (bc : ParsedBc) (id : ℕ) → Has id (signals_of bc) → IsSignal bc id
signals_of-IsSignal bc id h = ground (
  arith,
  h,
  elem-append id bc.input_vector (bc.wire_vector ++ bc.output_vector),
  elem-append id bc.wire_vector bc.output_vector,
)

-- On a netlist without registers of known cells on its signals, in any order, built with no
-- earlier task: a gate that reads the signal `id`, stands before every gate that drives it, and
-- whose output no later gate drives ends, on any workers and in any execution that StarPU's data
-- consistency permits, with its codelet's result on the ciphertexts that its operands have when
-- the tasks before its own have run, and that of `id` is the one from before the first task.
pub build_graph-ReadsEarly :
    (t : Tfhe) (bc : ParsedBc) (comb : IsCombinational bc) (g₀ built : Globals t) (ws : ℕ → Worker)
    (s : Store t) (before after : List GateStruct) (g : GateStruct) (c : Cell) (id : ℕ) (h : Handle)
    → IsOrdered bc (signals_of bc) bc.gate_vector
    → bc.gate_vector ≡ before ++ g ∷ after
    → g.name ≡ cell_name c
    → Has id (operands c g)
    → NoneDrives id before
    → NoneDrives g.out0 after
    → search_pointer id bc (register_handles bc) ≡ some h
    → g₀.tasks ≡ []
    → starpu_build_graph t bc g₀ ≡ some built
    → Run t (place ws built.tasks) (store_of t built) s
    → ReadsEarly bc comb t c g h (length before) built.tasks ws (store_of t built) s
build_graph-ReadsEarly t bc comb g₀ built ws s before after g c id h cells split is_c has early
      alone found fresh build ran =
    let (tasks, submitted, plan) =
      submit_gates-Plan bc comb bc.gate_vector (signals_of bc) (signals_of-IsSignal bc) cells in
    let built_is =
      some-injective _ _ (sym (build_graph-submitted bc g₀ tasks fresh submitted) ∙ build) in
    let plan' =
      subst (λ (gs : List GateStruct). Plan bc comb (signals_of bc) gs tasks) split plan in
    subst
      (λ (k : Globals t).
        Run t (place ws k.tasks) (store_of t k) s
        → ReadsEarly bc comb t c g h (length before) k.tasks ws (store_of t k) s)
      built_is
      (λ r.
        Plan-ReadsEarly bc comb t before after g c id h ws _ s found is_c has early alone plan'
          (Run-in_order t _ _ s r))
      ran
