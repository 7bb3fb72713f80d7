-- ===== src/Graph/Correct.antt =====
-- The tasks that src/starpu_build_graph.cpp submits for a netlist, run in the order of submission, and
-- the ciphertexts that they leave.
use tangor.Base.{
  ℕ, zero, suc, ◌≡◌, refl, sym, subst, Bool, true, List, [], ◌∷◌, map, some, arith, Bool-cases, ◌∙◌,
  ◌==◌, ==→eq, Has, inl, inr,
}
use tangor.Tfhe.{Tfhe, TfheLaws}
use tangor.Netlist.{GateStruct, ParsedBc}
use tangor.Codelets.{Worker}
use tangor.Codelets.Meaning.{EncryptsAll, run_codelet-Yields}
use tangor.Starpu.{Handle, Task, Placed, same, same→eq, same_refl, Store, update, exec, in_order}
use tangor.Graph.{Handles, search_pointer, register_handles}
use tangor.Graph.Search.{IsCombinational}
use tangor.Graph.Cells.{
  Cell, cell_name, cell_name_injective, operands, eval_cell, cell_codelet, cell_task, search_all,
  codelet_fn-cell,
}
use tangor.Graph.Plan.{AllHas, signals, search, search-id_at, Plan, end, step}

-- An assignment of bits to the signals that obeys every gate.
abbrev pub Satisfies : (ℕ → Bool) → List GateStruct → Type 0
Satisfies v [] = Unit {0}
Satisfies v (g ∷ gs) =
    ((c : Cell) × (g.name ≡ cell_name c) × (v g.out0 ≡ eval_cell c v g)) × Satisfies v gs

obeys :
    (v : ℕ → Bool) (c : Cell) (g : GateStruct)
    → g.name ≡ cell_name c
    → ((d : Cell) × (g.name ≡ cell_name d) × (v g.out0 ≡ eval_cell d v g))
    → v g.out0 ≡ eval_cell c v g
obeys v c g name (d, name', holds) =
    subst (λ k. v g.out0 ≡ eval_cell k v g) (cell_name_injective d c (sym name' ∙ name)) holds

-- A choice of a worker for each task.
abbrev pub place : (ℕ → Worker) → List Task → List Placed
place ws [] = []
place ws (x ∷ xs) = (x, ws zero) ∷ place (λ n. ws (suc n)) xs

search_all-cons :
    (bc : ParsedBc) (hs : Handles) (id : ℕ) (ids : List ℕ) (h : Handle) (rest : List Handle)
    → search_all (id ∷ ids) bc hs ≡ some (h ∷ rest)
    → (search_pointer id bc hs ≡ some h) × (search_all ids bc hs ≡ some rest)
search_all-cons bc hs id ids h rest e = ground arith

module _ {t : Tfhe} (laws : TfheLaws t) (bc : ParsedBc) (comb : IsCombinational bc)
    (v : ℕ → Bool) where
  open laws use {Encrypts}

  -- The store holds a ciphertext of every signal of `avail`.
  abbrev pub Good : List ℕ → Store t → Type 0
  Good avail s =
      (id : ℕ) (h : Handle) → Has id avail → search bc comb id ≡ some h → Encrypts (s h) (v id)

  Good-EncryptsAll :
      (avail ids : List ℕ) (hs : List Handle) (s : Store t)
      → Good avail s
      → AllHas avail ids
      → search_all ids bc (register_handles bc) ≡ some hs
      → EncryptsAll laws (map s hs) (map v ids)
  Good-EncryptsAll avail [] [] s good a e = tt
  Good-EncryptsAll avail [] (h ∷ hs) s good a e = absurd (ground arith)
  Good-EncryptsAll avail (id ∷ ids) [] s good a e = absurd (ground arith)
  Good-EncryptsAll avail (id ∷ ids) (h ∷ hs) s good a e =
      let (found, rest) = search_all-cons bc (register_handles bc) id ids h hs e in
      (good id h a.0 found, Good-EncryptsAll avail ids hs s good a.1 rest)

  -- A search for the signal that a handle was found for is the only one that finds it.
  same-signal :
      (a b : ℕ) (o h : Handle)
      → search bc comb a ≡ some o
      → search bc comb b ≡ some h
      → same o h ≡ true
      → a ≡ b
  same-signal a b o h ea eb hit =
      let ia = search-id_at bc comb a o ea in
      let ib = search-id_at bc comb b h eb in
      let oh = same→eq o h hit in ground (arith, ia, rw (← oh) at ib)

  update-Good :
      (id : ℕ) (avail : List ℕ) (o : Handle) (s : Store t) (out : t.Cipher)
      → Good avail s
      → Encrypts out (v id)
      → search bc comb id ≡ some o
      → Good (id ∷ avail) (update t s o out)
  update-Good id avail o s out good enc found id' h m e = elim (Bool-cases (same o h)) [
    | inl hit ↦ rw hit (subst (λ n. Encrypts out (v n)) (same-signal id id' o h found e hit) enc)
    | inr miss ↦ elim (Bool-cases (id == id')) [
      | inl old ↦ absurd (cc (==→eq id id' old, same_refl o))
      | inr other ↦ rw miss (good id' h (rw other at m) e)
    ]
  ]

  -- The task of a cell gives its output signal a value and leaves the others theirs.
  exec-Good :
      (c : Cell) (g : GateStruct) (avail : List ℕ) (o : Handle) (ins : List Handle) (w : Worker)
      (s : Store t)
      → Good avail s
      → AllHas avail (operands c g)
      → v g.out0 ≡ eval_cell c v g
      → search bc comb g.out0 ≡ some o
      → search_all (operands c g) bc (register_handles bc) ≡ some ins
      → (s' : Store t) × (exec t (cell_task c o ins, w) s ≡ some s') × Good (g.out0 ∷ avail) s'
  unfolding exec
  exec-Good c g avail o ins w s good has sat found founds =
      let (out, ran, enc) =
        run_codelet-Yields laws w (cell_codelet c) (map s ins) (map v (operands c g))
          (eval_cell c v g) (Good-EncryptsAll avail (operands c g) ins s good has founds)
          (codelet_fn-cell c v g) in
      (update t s o out, rw ran, update-Good g.out0 avail o s out good (rw sat enc) found)

  -- The tasks of the gates, run in submission order on any workers, give every signal its value.
  pub Plan-Good :
      {gates : List GateStruct} {avail : List ℕ} {tasks : List Task} (ws : ℕ → Worker) (s : Store t)
      → Plan bc comb avail gates tasks
      → Satisfies v gates
      → Good avail s
      → (s' : Store t) × (in_order t (place ws tasks) s ≡ some s') × Good (signals avail gates) s'
  unfolding in_order
  Plan-Good ws s end sat good = (s, refl, good)
  Plan-Good ws s (step {g = g} c o ins name has found founds plan) sat good =
      let (s₁, ran, good₁) =
        exec-Good c _ _ o ins (ws zero) s good has (obeys v c g name sat.0) found founds in
      let (s₂, rans, good₂) = Plan-Good (λ n. ws (suc n)) s₁ plan sat.1 good₁ in
      (s₂, rw (ran, rans), good₂)
