-- ===== src/Graph/Reversed.antt =====
-- A netlist whose gate 7 = 4 ? 5 : 3 stands before the gate of the wire 5 = 2 ^ 3.
use tangor.Base.{◌≡◌, refl, false, [], ◌∷◌, some, arith}
use tangor.Tfhe.Clear.{clear}
use tangor.Netlist.{ParsedBc}
use tangor.Starpu.{Handle, cipherwire, cipherout, Run}
use tangor.Starpu.Order.{in_order-Run}
use tangor.Graph.{starpu_build_graph, store_of, search_pointer, register_handles}
use tangor.Graph.Search.{IsCombinational}
use tangor.Graph.Plan.{IsOrdered}
use tangor.Graph.Correct.{place}
use tangor.Graph.Cells.{binary, nand, mux, xor'}
use tangor.Graph.Early.{ReadsEarly, signals_of, build_graph-ReadsEarly}
use tangor.Graph.Tests.{gate, netlist, loaded, built, final, alternate}

abbrev reversed : ParsedBc
reversed = record netlist {
  gate_vector = gate "MUX" 3 5 4 7 ∷ gate "XOR" 2 3 0 5 ∷ gate "NAND" 2 3 0 6 ∷ [];
}

reversed-IsCombinational : IsCombinational reversed
reversed-IsCombinational = record { no_q = refl; no_d = refl }

reversed-IsOrdered : IsOrdered reversed (signals_of reversed) reversed.gate_vector
reversed-IsOrdered = (
  (mux, refl, (refl, (refl, (refl, tt))), refl),
  (
    (binary xor', refl, (refl, (refl, tt)), refl),
    ((binary nand, refl, (refl, (refl, tt)), refl), tt),
  ),
)

abbrev wire : Handle
wire = record { vector = cipherwire; index = 0 }

reversed-wire : search_pointer 5 reversed (register_handles reversed) ≡ some wire
unfolding search_pointer register_handles
reversed-wire = refl

reversed-built : starpu_build_graph clear reversed loaded ≡ some (built reversed)
unfolding built
reversed-built = refl

reversed-Run :
    Run clear
      (place alternate (built reversed).tasks)
      (store_of clear (built reversed))
      (final reversed)
unfolding final
reversed-Run = in_order-Run clear _ _ _ refl

build_graph-ReadsEarly_example :
    ReadsEarly reversed reversed-IsCombinational clear mux
      (gate "MUX" 3 5 4 7)
      wire
      0
      (built reversed).tasks
      alternate
      (store_of clear (built reversed))
      (final reversed)
build_graph-ReadsEarly_example =
    build_graph-ReadsEarly clear reversed reversed-IsCombinational loaded (built reversed) alternate
      (final reversed) [] (gate "XOR" 2 3 0 5 ∷ gate "NAND" 2 3 0 6 ∷ []) (gate "MUX" 3 5 4 7) mux 5
      wire reversed-IsOrdered refl refl refl tt ((λ e. ground arith), ((λ e. ground arith), tt))
      reversed-wire refl reversed-built reversed-Run

-- 4 ? 2 ^ 3 : 3 is true on the inputs true, false and true, and `cipherout` has false for it.
reversed_output : final reversed (record { vector = cipherout; index = 1 }) ≡ false
unfolding final
reversed_output = refl
