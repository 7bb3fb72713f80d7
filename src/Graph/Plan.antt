-- ===== src/Graph/Plan.antt =====
-- The loop over the gates in src/starpu_build_graph.cpp, on a netlist whose gates stand in order.
use tangor.Base.{
  ℕ, ◌≡◌, refl, sym, true, ◌||◌, List, [], ◌∷◌, Option, some, arith, Bool-cases, ◌∙◌, ◌==◌, ==→eq,
  elem, Has, inl, inr,
}
use tangor.Netlist.{GateStruct, ParsedBc}
use tangor.Starpu.{Handle, Task}
use tangor.Graph.{search_pointer, register_handles, submit_gates}
use tangor.Graph.Search.{IsCombinational, id_at, search_pointer-locate, locate-id_at, locate-total}
use tangor.Graph.Cells.{Cell, cell_name, operands, cell_task, search_all, submit_gate-cell}

abbrev pub AllHas : List ℕ → List ℕ → Type 0
AllHas avail [] = Unit {0}
AllHas avail (id ∷ ids) = Has id avail × AllHas avail ids

-- The signals that have a value after the gates, if `avail` have one before.
abbrev pub signals : List ℕ → List GateStruct → List ℕ
signals avail [] = avail
signals avail (g ∷ gs) = signals (g.out0 ∷ avail) gs

-- Every gate is a cell that the builder knows, its operands are inputs or outputs of earlier gates,
-- and its output is a wire or an output of the netlist.
abbrev pub IsOrdered : ParsedBc → List ℕ → List GateStruct → Type 0
IsOrdered bc avail [] = Unit {0}
IsOrdered bc avail (g ∷ gs) =
    ((c : Cell) × (g.name ≡ cell_name c)
      × AllHas avail (operands c g)
      × ((elem g.out0 bc.wire_vector || elem g.out0 bc.output_vector) ≡ true))
    × IsOrdered bc (g.out0 ∷ avail) gs

abbrev pub IsSignal : ParsedBc → ℕ → Type 0
IsSignal bc id =
    (elem id bc.input_vector || (elem id bc.wire_vector || elem id bc.output_vector)) ≡ true

module _ (bc : ParsedBc) (comb : IsCombinational bc) where
  abbrev pub search : ℕ → Option Handle
  search id = search_pointer id bc (register_handles bc)

  pub search-id_at : (id : ℕ) (h : Handle) → search id ≡ some h → id_at bc h ≡ some id
  search-id_at id h e = locate-id_at bc id h (sym (search_pointer-locate bc id comb) ∙ e)

  search-total : (id : ℕ) → IsSignal bc id → (h : Handle) × (search id ≡ some h)
  search-total id s = let (h, e) = locate-total bc id s in (h, search_pointer-locate bc id comb ∙ e)

  search_all-total :
      (avail ids : List ℕ)
      → ((id : ℕ) → Has id avail → IsSignal bc id)
      → AllHas avail ids
      → (hs : List Handle) × (search_all ids bc (register_handles bc) ≡ some hs)
  search_all-total avail [] known a = ([], refl)
  search_all-total avail (id ∷ ids) known a =
      let (h, e) = search-total id (known id a.0) in
      let (hs, es) = search_all-total avail ids known a.1 in (h ∷ hs, rw (e, es))

  -- Signals with a value keep being signals.
  known-cons :
      (avail : List ℕ) (out : ℕ)
      → ((id : ℕ) → Has id avail → IsSignal bc id)
      → (elem out bc.wire_vector || elem out bc.output_vector) ≡ true
      → (id : ℕ) → Has id (out ∷ avail)
      → IsSignal bc id
  known-cons avail out known driven id h = elim (Bool-cases (out == id)) [
    | inl e ↦ ground (arith, ==→eq out id e)
    | inr e ↦ known id (rw e at h)
  ]

  -- What the loop over the gates has made of them: for each gate the task of its cell.
  pub data Plan : List ℕ → List GateStruct → List Task → Type 0 where
    end : {avail : List ℕ} → Plan avail [] []
    step :
        {avail : List ℕ} {g : GateStruct} {gs : List GateStruct} {tasks : List Task} (c : Cell)
        (o : Handle) (ins : List Handle)
        → g.name ≡ cell_name c
        → AllHas avail (operands c g)
        → search g.out0 ≡ some o
        → search_all (operands c g) bc (register_handles bc) ≡ some ins
        → Plan (g.out0 ∷ avail) gs tasks
        → Plan avail (g ∷ gs) (cell_task c o ins ∷ tasks)

  -- The loop over the gates submits the task of each cell, and prints nothing.
  pub submit_gates-Plan :
      (gates : List GateStruct) (avail : List ℕ)
      → ((id : ℕ) → Has id avail → IsSignal bc id)
      → IsOrdered bc avail gates
      → (tasks : List Task) × (submit_gates bc (register_handles bc) gates ≡ some (tasks, []))
        × Plan avail gates tasks
  unfolding submit_gates
  submit_gates-Plan [] avail known o = ([], refl, end)
  submit_gates-Plan (g ∷ gs) avail known o =
      let (c, name, has, driven) = o.0 in
      let (out, found) = search-total g.out0 (ground arith) in
      let (ins, founds) = search_all-total avail (operands c g) known has in
      let known' = known-cons avail g.out0 known driven in
      let (tasks, rest, plan) = submit_gates-Plan gs (g.out0 ∷ avail) known' o.1 in
      let first = submit_gate-cell c bc (register_handles bc) g name found founds in
      (cell_task c out ins ∷ tasks, rw (first, rest), step c out ins name has found founds plan)
