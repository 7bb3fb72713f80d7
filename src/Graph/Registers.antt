-- ===== src/Graph/Registers.antt =====
-- src/starpu_build_graph.cpp on a netlist with registers.
use tangor.Base.{◌≡◌, ◌≢◌, sym, subst, List, [], ◌∷◌, ◌++◌, none, Option-cases, inl, inr}
use tangor.Tfhe.{Tfhe}
use tangor.Netlist.{GateStruct, ParsedBc}
use tangor.Graph.{
  Handles, search_pointer, submit_gate, submit_gates, starpu_build_graph, Globals, allocate,
}
use tangor.Graph.Search.{search_pointer-register}
use tangor.Graph.Cells.{Cell, cell_name, not_cell, binary, nand, mux, nmux}

submit_gate-search :
    (c : Cell) (bc : ParsedBc) (hs : Handles) (g : GateStruct)
    → g.name ≡ cell_name c
    → search_pointer g.out0 bc hs ≡ none
    → submit_gate bc hs g ≡ none
unfolding submit_gate
submit_gate-search not_cell bc hs g name e = rw (submit_gate, name, e)
submit_gate-search (binary nand) bc hs g name e = rw (submit_gate, name, e)
submit_gate-search (binary f) bc hs g name e = rw (submit_gate, name, e)
submit_gate-search mux bc hs g name e = rw (submit_gate, name, e)
submit_gate-search nmux bc hs g name e = rw (submit_gate, name, e)

submit_gates-none :
    (bc : ParsedBc) (hs : Handles) (before after : List GateStruct) (g : GateStruct)
    → submit_gate bc hs g ≡ none
    → submit_gates bc hs (before ++ g ∷ after) ≡ none
unfolding submit_gates
submit_gates-none bc hs [] after g e = rw e
submit_gates-none bc hs (b ∷ before) after g e =
    let rest = submit_gates-none bc hs before after g e in
    elim (Option-cases (submit_gate bc hs b)) [ inl p ↦ rw p | inr (x, p) ↦ rw (p, rest) ]

-- On a netlist that has a register and any gate of a known cell, `starpu_build_graph` has no defined
-- behaviour: the first search for such a gate goes over a range from one vector to another.
pub build_graph_register :
    (t : Tfhe) (bc : ParsedBc) (g₀ : Globals t) (c : Cell) (before after : List GateStruct)
    (g : GateStruct)
    → bc.dff_q_vector ≢ []
    → bc.gate_vector ≡ before ++ g ∷ after
    → g.name ≡ cell_name c
    → starpu_build_graph t bc g₀ ≡ none
unfolding starpu_build_graph
build_graph_register t bc g₀ c before after g registers at name =
    let hs = (allocate t bc g₀).handles in
    let failed =
      submit_gate-search c bc hs g name (search_pointer-register bc g.out0 hs registers) in
    let none_built =
      subst (λ (gs : List GateStruct). submit_gates bc hs gs ≡ none) (sym at)
        (submit_gates-none bc hs before after g failed) in
    rw none_built
