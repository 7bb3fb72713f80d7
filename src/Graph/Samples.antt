-- ===== src/Graph/Samples.antt =====
-- Searches and submissions on a netlist with one gate, 7 = 6 ? 3 : 2 with the wire 6, and on the same
-- netlist with a register.
use tangor.Base.{◌≡◌, refl, [], ◌∷◌, none, some}
use tangor.Tfhe.Clear.{clear}
use tangor.Netlist.{GateStruct, ParsedBc}
use tangor.Codelets.{cl_hom_mux}
use tangor.Starpu.{cipherin, cipherout, cipherwire}
use tangor.Graph.{
  Globals, starpu_build_graph, search_pointer, register_handles, submit_gate, insert,
}
use tangor.Graph.Cells.{mux}
use tangor.Graph.Registers.{build_graph_register}

abbrev gate : GateStruct
gate = record { name = "MUX"; in0 = 2; in1 = 3; in2 = 6; out0 = 7; out1 = 0; out2 = 0 }

abbrev netlist : ParsedBc
netlist = record {
  input_vector = 2 ∷ 3 ∷ [];
  output_vector = 7 ∷ [];
  dff_q_vector = [];
  dff_d_vector = [];
  wire_vector = 6 ∷ [];
  gate_vector = gate ∷ [];
  direct_port_pair_vector = [];
  dependency_vector = [];
}

abbrev registered_netlist : ParsedBc
registered_netlist = record netlist { dff_q_vector = 6 ∷ []; dff_d_vector = 7 ∷ [] }

abbrev no_globals : Globals clear
no_globals = record {
  in_ciphers = [];
  out_ciphers = [];
  dffq_ciphers = [];
  dffd_ciphers = [];
  wire_ciphers = [];
  handles = record {
    cipherin_handle = [];
    cipherout_handle = [];
    cipherdffq_handle = [];
    cipherdffd_handle = [];
    cipherwire_handle = [];
  };
  tasks = [];
  lines = [];
}

search_wire :
    search_pointer 6 netlist (register_handles netlist)
    ≡ some (record { vector = cipherwire; index = 0 })
unfolding search_pointer register_handles
search_wire = refl

submit_gate_mux :
    submit_gate netlist (register_handles netlist) gate
    ≡ some (
        insert (record {
          codelet = cl_hom_mux;
          output = record { vector = cipherout; index = 0 };
          inputs =
              record { vector = cipherwire; index = 0 }
              ∷ record { vector = cipherin; index = 1 }
              ∷ record { vector = cipherin; index = 0 }
              ∷ [];
          priority = 0;
        }))
unfolding search_pointer register_handles submit_gate
submit_gate_mux = refl

build_graph_register_example : starpu_build_graph clear registered_netlist no_globals ≡ none
build_graph_register_example =
    build_graph_register clear registered_netlist no_globals mux [] [] gate (λ e. cc) refl refl
