-- ===== src/Graph/Unwritten.antt =====
-- Outputs that are inputs too, or stand earlier among the outputs, and the tasks that
-- src/starpu_build_graph.cpp submits.
use mathlib.Core.Option.{some-injective}
use tangor.Base.{
  ℕ, zero, suc, ◌≡◌, ◌≢◌, ◌⊎◌, inl, inr, refl, sym, ap, subst, ◌∙◌, false, List, [], ◌∷◌, map,
  Option, none, some, arith, >>=-eq-some, length, get_elem?, get_or, resize, Has, find, find-Has,
  Bool-cases,
}
use tangor.Tfhe.{Tfhe}
use tangor.Netlist.{GateStruct, ParsedBc}
use tangor.Codelets.{Worker, run_codelet}
use tangor.Starpu.{cipherout, Handle, Task, same, same→eq, Store, exec, in_order, Run}
use tangor.Starpu.Order.{Run-in_order}
use tangor.Graph.{Globals, allocate, starpu_build_graph, store_of}
use tangor.Graph.Search.{locate, choose, locate-id_at, search_pointer-locate, IsCombinational}
use tangor.Graph.Plan.{Plan, end, step}
use tangor.Graph.Correct.{place}
use tangor.Graph.Results.{IsRunnable, build_graph-Plan}

abbrev out_handle : ℕ → Handle
out_handle i = record { vector = cipherout; index = i }

-- No task of the list writes `h`.
abbrev pub Spares : Handle → List Task → Type 0
Spares h [] = Unit {0}
Spares h (x ∷ xs) = (same x.output h ≡ false) × Spares h xs

pub exec-Spares :
    (t : Tfhe) (x : Task) (w : Worker) (s s' : Store t) (h : Handle)
    → same x.output h ≡ false
    → exec t (x, w) s ≡ some s'
    → s' h ≡ s h
unfolding exec
exec-Spares t x w s s' h spared ran =
    let (out, _, e) = >>=-eq-some (run_codelet t w x.codelet (map s x.inputs)) _ ran in
    subst (λ (r : Store t). r h ≡ s h) (some-injective _ _ e) (rw spared)

pub in_order-Spares :
    (t : Tfhe) (ws : ℕ → Worker) (tasks : List Task) (s s' : Store t) (h : Handle)
    → Spares h tasks
    → in_order t (place ws tasks) s ≡ some s'
    → s' h ≡ s h
unfolding in_order
in_order-Spares t ws [] s s' h spares ran =
    subst (λ (r : Store t). r h ≡ s h) (some-injective _ _ ran) refl
in_order-Spares t ws (x ∷ xs) s s' h spares ran =
    let (s₁, ran₁, rest) = >>=-eq-some (exec t (x, ws zero) s) _ ran in
    in_order-Spares t (λ n. ws (suc n)) xs s₁ s' h spares.1 rest
    ∙ exec-Spares t x (ws zero) s s₁ h spares.0 ran₁

choose-out :
    (a w o : Option ℕ) (i : ℕ) → choose a w o ≡ some (out_handle i) → (a ≡ none) × (o ≡ some i)
unfolding choose
choose-out (some j) w o i e = ground arith
choose-out none (some j) o i e = ground arith
choose-out none none (some j) i e = ground arith
choose-out none none none i e = ground arith

module _ (bc : ParsedBc) (i id : ℕ) where
  -- The output is an input too, or the same signal stands earlier among the outputs.
  abbrev pub IsShadowed : Type 0
  IsShadowed = Has id bc.input_vector ⊎ ((j : ℕ) × (find bc.output_vector id ≡ some j) × (j ≢ i))

  not-IsShadowed : find bc.input_vector id ≡ none → find bc.output_vector id ≡ some i → ¬ IsShadowed
  not-IsShadowed a o (inl h) = let (j, f) = find-Has bc.input_vector id h in cc
  not-IsShadowed a o (inr (j, f, ne)) = ne (some-injective _ _ (sym f ∙ o))

  shadowed-locate :
      get_elem? bc.output_vector i ≡ some id
      → IsShadowed
      → (x : ℕ) → locate bc x ≢ some (out_handle i)
  unfolding locate
  shadowed-locate at sh x e =
      let same_id : id ≡ x = some-injective _ _ (sym at ∙ locate-id_at bc x _ e) in
      let (a, o) = choose-out _ _ _ i (rw (← same_id) at e) in not-IsShadowed a o sh

  Plan-Spares :
      (combinational : IsCombinational bc) {avail : List ℕ} {gates : List GateStruct}
      {tasks : List Task}
      → get_elem? bc.output_vector i ≡ some id
      → IsShadowed
      → Plan bc combinational avail gates tasks
      → Spares (out_handle i) tasks
  Plan-Spares comb at sh end = tt
  Plan-Spares comb at sh (step {g = g} c o ins name has found founds plan) =
      (spared, Plan-Spares comb at sh plan)
    where
      spared : same o (out_handle i) ≡ false
      spared = elim (Bool-cases (same o (out_handle i))) [
        | inl hit ↦ absurd (
            shadowed-locate at sh g.out0 (
              sym (search_pointer-locate bc g.out0 comb)
              ∙ found
              ∙ ap some (same→eq o (out_handle i) hit)))
        | inr miss ↦ miss
      ]

-- On a netlist without registers whose gates stand in order, built with no earlier task, an output
-- that is an input too, or that stands earlier among the outputs, is not computed: whatever StarPU does, its element of `cipherout` is at the end what it was before the
-- first task.
pub shadowed_output :
    (t : Tfhe) (bc : ParsedBc) (g₀ g : Globals t) (ws : ℕ → Worker) (s : Store t) (i id : ℕ)
    → IsRunnable bc
    → g₀.tasks ≡ []
    → starpu_build_graph t bc g₀ ≡ some g
    → Run t (place ws g.tasks) (store_of t g) s
    → get_elem? bc.output_vector i ≡ some id
    → IsShadowed bc i id
    → s (out_handle i) ≡ get_or (resize (length bc.output_vector) t.blank g₀.out_ciphers) i t.blank
unfolding store_of allocate
shadowed_output t bc g₀ g ws s i id runnable fresh built ran at sh =
    let (tasks, built', plan) = build_graph-Plan bc g₀ runnable fresh in
    let g_is = some-injective _ _ (sym built' ∙ built) in
    let spares = Plan-Spares bc i id runnable.combinational at sh plan in
    subst
      (λ (k : Globals t).
        Run t (place ws k.tasks) (store_of t k) s
        → s (out_handle i)
          ≡ get_or (resize (length bc.output_vector) t.blank g₀.out_ciphers) i t.blank)
      g_is (λ r. in_order-Spares t ws tasks _ s (out_handle i) spares (Run-in_order t _ _ s r)) ran
