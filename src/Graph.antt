-- ===== src/Graph.antt =====
-- src/starpu_build_graph.cpp, in the default build (without `USE_M12`). `none` stands for undefined
-- behaviour: a search over a range that is none, or a read through a null or past-the-end iterator.
pub mod Search
pub mod Cells
pub mod Plan
pub mod Correct
pub mod Simulation
pub mod Results
pub mod Unwritten
pub mod Early
pub mod Registers
pub mod Tests
mod Samples
mod Reversed
use tangor.Base.{
  ℕ, zero, suc, Bool, true, false, ◌||◌, List, [], ◌∷◌, ◌++◌, map, Option, none, some, String,
  str_eq, if◌then◌else◌, ◌>>=◌, ◌>>◌, length, get_elem?, find, resize, get_or,
}
use tangor.Tfhe.{Tfhe}
use tangor.Netlist.{GateStruct, ParsedBc}
use tangor.Codelets.{
  Codelet, cl_hom_nand, cl_hom_nor, cl_hom_xnor, cl_hom_and, cl_hom_or, cl_hom_xor, cl_hom_andyn,
  cl_hom_oryn, cl_hom_not, cl_hom_mux, cl_hom_nmux,
}
use tangor.Starpu.{
  CipherVector, cipherin, cipherout, cipherdffq, cipherdffd, cipherwire, Handle, Task, Store,
}

-- The five vectors of handles.
pub record Handles : Type 0 where
  pub cipherin_handle : List Handle
  pub cipherout_handle : List Handle
  pub cipherdffq_handle : List Handle
  pub cipherdffd_handle : List Handle
  pub cipherwire_handle : List Handle

-- `std::find(DFF_Q_vector.begin(), DFF_D_vector.end(), id)`: the range goes from one vector to the
-- end of another. It is a range only if both vectors are empty, and then nothing is found.
unfoldable pub find_dffd : List ℕ → List ℕ → ℕ → Option (Option ℕ)
find_dffd [] [] id = some none
find_dffd _ _ id = none

-- The chain of tests on the five iterators, in the order of the source: input, D, Q, wire, output.
unfoldable pub select_handle :
    Handles → Option ℕ → Option ℕ → Option ℕ → Option ℕ → Option ℕ → Option Handle
select_handle hs (some i) _ _ _ _ = get_elem? hs.cipherin_handle i
select_handle hs none (some i) _ _ _ = get_elem? hs.cipherdffd_handle i
select_handle hs none none (some i) _ _ = get_elem? hs.cipherdffq_handle i
select_handle hs none none none (some i) _ = get_elem? hs.cipherwire_handle i
select_handle hs none none none none (some i) = get_elem? hs.cipherout_handle i
select_handle hs none none none none none = none

unfoldable pub search_pointer : ℕ → ParsedBc → Handles → Option Handle
unfolding find_dffd select_handle
search_pointer id bc hs = do
  let outiterator = find bc.output_vector id
  let initerator = find bc.input_vector id
  dffditerator ← find_dffd bc.dff_q_vector bc.dff_d_vector id
  let dffqiterator = find bc.dff_q_vector id
  let wireiterator = find bc.wire_vector id
  select_handle hs initerator dffditerator dffqiterator wireiterator outiterator

-- A loop `for (int i = …; i < size; i++) starpu_vector_data_register(&handle[i], …)` with `n`
-- rounds left.
unfoldable pub register_from : CipherVector → ℕ → ℕ → List Handle
register_from v i zero = []
register_from v i (suc n) = record { vector = v; index = i } ∷ register_from v (suc i) n

-- The registration loops: each vector of handles is as long as the vector of the netlist.
unfoldable pub register_handles : ParsedBc → Handles
unfolding register_from
register_handles bc = record {
  cipherin_handle = register_from cipherin 0 (length bc.input_vector);
  cipherout_handle = register_from cipherout 0 (length bc.output_vector);
  cipherdffq_handle = register_from cipherdffq 0 (length bc.dff_q_vector);
  cipherdffd_handle = register_from cipherdffd 0 (length bc.dff_d_vector);
  cipherwire_handle = register_from cipherwire 0 (length bc.wire_vector);
}

unfoldable pub in2out1_gates : List String
in2out1_gates = "NAND" ∷ "NOR" ∷ "XNOR" ∷ "AND" ∷ "OR" ∷ "XOR" ∷ "ANDYN" ∷ "ORYN" ∷ []

unfoldable pub in3out1_gates : List String
in3out1_gates = "MUX" ∷ "NMUX" ∷ []

-- `std::set::find(name) != end()`.
unfoldable pub has_name : List String → String → Bool
has_name [] name = false
has_name (n ∷ ns) name = str_eq name n || has_name ns name

unfoldable pub in2out1_codelet : String → Option Codelet
in2out1_codelet name =
    if str_eq name "NAND"
    then some cl_hom_nand
    else if str_eq name "NOR"
    then some cl_hom_nor
    else if str_eq name "XNOR"
    then some cl_hom_xnor
    else if str_eq name "AND"
    then some cl_hom_and
    else if str_eq name "OR"
    then some cl_hom_or
    else if str_eq name "XOR"
    then some cl_hom_xor
    else if str_eq name "ANDYN"
    then some cl_hom_andyn
    else if str_eq name "ORYN"
    then some cl_hom_oryn
    else none

unfoldable pub in3out1_codelet : String → Option Codelet
in3out1_codelet name =
    if str_eq name "MUX"
    then some cl_hom_mux
    else if str_eq name "NMUX"
    then some cl_hom_nmux
    else none

-- What one round of the loop over the gates does: it submits a task, or prints lines.
pub data Submission : Type 0 where
  insert : Task → Submission
  print : List String → Submission

or_print : Option Codelet → (Codelet → Task) → List String → Submission
or_print (some c) task lines = insert (task c)
or_print none task lines = print lines

unfoldable pub submit_gate : ParsedBc → Handles → GateStruct → Option Submission
unfolding in2out1_gates in3out1_gates has_name in2out1_codelet in3out1_codelet or_print
submit_gate bc hs gate =
    if str_eq gate.name "NOT"
    then (do
      outcipher ← search_pointer gate.out0 bc hs
      inacipher ← search_pointer gate.in0 bc hs
      some (
          insert (record {
            codelet = cl_hom_not;
            output = outcipher;
            inputs = inacipher ∷ [];
            priority = 0;
          })))
    else if has_name in2out1_gates gate.name
    then (do
      outcipher ← search_pointer gate.out0 bc hs
      inacipher ← search_pointer gate.in0 bc hs
      inbcipher ← search_pointer gate.in1 bc hs
      some (
          or_print (in2out1_codelet gate.name)
            (λ c. record {
              codelet = c;
              output = outcipher;
              inputs = inacipher ∷ inbcipher ∷ [];
              priority = 1;
            })
            ("GATE PARSE ERROR" ∷ gate.name ∷ [])))
    else if has_name in3out1_gates gate.name
    then (do
      outcipher ← search_pointer gate.out0 bc hs
      inacipher ← search_pointer gate.in0 bc hs
      inbcipher ← search_pointer gate.in1 bc hs
      inscipher ← search_pointer gate.in2 bc hs
      some (
          or_print (in3out1_codelet gate.name)
            (λ c. record {
              codelet = c;
              output = outcipher;
              inputs = inscipher ∷ inbcipher ∷ inacipher ∷ [];
              priority = 0;
            })
            []))
    else some (print ("GATE PARSE ERROR!" ∷ []))

-- The loop over `gate_vector`: the tasks and the printed lines, in order.
unfoldable pub submit_gates :
    ParsedBc → Handles → List GateStruct → Option (List Task × List String)
unfolding submit_gate
submit_gates bc hs [] = some ([], [])
submit_gates bc hs (gate ∷ gates) = do
  submission ← submit_gate bc hs gate
  (tasks, lines) ← submit_gates bc hs gates
  elim submission [
    | insert task ↦ some (task ∷ tasks, lines)
    | print ls ↦ some (tasks, ls ++ lines)
  ]

module _ (t : Tfhe) where
  -- The globals of the file, with the tasks that StarPU was given and the lines on `std::cout`.
  pub record Globals : Type 0 where
    pub in_ciphers : List t.Cipher
    pub out_ciphers : List t.Cipher
    pub dffq_ciphers : List t.Cipher
    pub dffd_ciphers : List t.Cipher
    pub wire_ciphers : List t.Cipher
    pub handles : Handles
    pub open handles use *
    pub tasks : List Task
    pub lines : List String

  -- The `resize` calls, the registration loops and the loop that sets the registers to 0.
  unfoldable pub allocate : ParsedBc → Globals → Globals
  unfolding register_handles
  allocate bc g = record g {
    in_ciphers = resize (length bc.input_vector) t.blank g.in_ciphers;
    out_ciphers = resize (length bc.output_vector) t.blank g.out_ciphers;
    dffq_ciphers =
        map (λ _. t.hom_constant_zero) (resize (length bc.dff_q_vector) t.blank g.dffq_ciphers);
    dffd_ciphers = resize (length bc.dff_d_vector) t.blank g.dffd_ciphers;
    wire_ciphers = resize (length bc.wire_vector) t.blank g.wire_ciphers;
    handles = register_handles bc;
  }

  unfoldable pub starpu_build_graph : ParsedBc → Globals → Option Globals
  unfolding allocate submit_gates
  starpu_build_graph bc g = do
    let allocated = allocate bc g
    (tasks, lines) ← submit_gates bc allocated.handles bc.gate_vector
    some (record allocated { tasks = allocated.tasks ++ tasks; lines = allocated.lines ++ lines })

  abbrev ciphers_of : Globals → CipherVector → List t.Cipher
  ciphers_of g cipherin = g.in_ciphers
  ciphers_of g cipherout = g.out_ciphers
  ciphers_of g cipherdffq = g.dffq_ciphers
  ciphers_of g cipherdffd = g.dffd_ciphers
  ciphers_of g cipherwire = g.wire_ciphers

  -- The registered memory when the first task starts.
  unfoldable pub store_of : Globals → Store t
  store_of g h = get_or (ciphers_of g h.vector) h.index t.blank

  -- `starpu_sync_outputs_to_host`: acquiring a handle for reading brings its value to the host.
  unfoldable pub sync_outputs_to_host : Store t → Globals → Globals
  sync_outputs_to_host s g = record g { out_ciphers = map s g.cipherout_handle }
