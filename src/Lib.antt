-- ===== src/Lib.antt =====
-- Tangor evaluates a netlist of logic gates on encrypted bits: it parses the JSON output of
-- Yosys, submits one StarPU task for each gate, and lets StarPU run the tasks on CPU and CUDA
-- workers.
--
-- The main program (src/tangor.cpp) reads the encrypted inputs into `cipherin`, builds
-- `ParsedBC` (src/yosys-json-parser.cpp), calls `starpu_build_graph` and
-- `starpu_sync_outputs_to_host` (src/starpu_build_graph.cpp), and writes `cipherout`. The tasks
-- run the codelets of src/wrappedcodelets.cpp, whose CUDA implementations are in
-- src/cufhepp_starpu.cu.
--
-- Main models `main`: `launch` is the part up to the start of the tasks, from the contents of
--   the files and the success of `starpu_init`, and `result_data` is what is written;
--   Main/Evaluation puts the parser, the builder and the codelets together, Main/Simulation
--   compares this with the evaluation in the clear, and Main/Circuit and Main/Documents with that
--   of the circuit that a JSON document describes. Main/Program is the whole function with its
--   exits and calls; Main/Written is about result.data, and Main/Protocol about the order of the
--   calls of StarPU and cuFHEpp.
-- Base holds shared names and lemmas (Base/Tests, Base/Lists, Base/Sort).
-- Tfhe states what is used of TFHEpp and cuFHEpp, as a record of operations and a record of
--   their documented behaviour; Tfhe/Clear instantiates both with bits in the clear.
-- Codelets models src/wrappedcodelets.cpp, include/wrappedcodelets.hpp and
--   src/cufhepp_starpu.cu: `cpu_func`, `cuda_func`, `modes` and `nbuffers` are the fields of the
--   codelets, `run_codelet` is a run on a worker. Codelets/Meaning compares them with the
--   Boolean functions.
-- Starpu states what is used of StarPU: handles, tasks, and the executions that its data
--   consistency permits (`Run`); Starpu/Order is about these executions.
-- Netlist models include/yosys-json-parser.hpp.
-- Graph models src/starpu_build_graph.cpp: `search_pointer`, `starpu_build_graph` and
--   `sync_outputs_to_host` stand for the functions of these names, `Globals` for the global
--   vectors. `none` is undefined behaviour. Graph/Search is about `search_pointer`, Graph/Cells
--   about the task of one gate, Graph/Plan about the loop over the gates, Graph/Correct and
--   Graph/Results about the ciphertexts, Graph/Unwritten about outputs without a task,
--   Graph/Early about gates before the gates that they read from, Graph/Registers about
--   registers. Graph/Simulation evaluates a netlist on bits in the clear.
-- Json states what is used of nlohmann::json.
-- Parser models the constructor of `ParsedBC`, one function for each of its blocks; `parsed_bc`
--   is the whole. Parser/Rules, Parser/Invariant and Parser/Steps are about the object under
--   construction, Parser/Results is about the finished object. Parser/Yosys and Parser/Documents
--   compare it with the ports and cells that a document describes.
-- Offload models the codelets of src/iyokan-starpu-codelets.cpp and src/iyokan-cufhepp-starpu.cu
--   for the gates and the CMUX of Iyokan, the gates that include/iyokan-starpu-offload.hpp
--   replaces, and the task that `runIyokanStarpuCMUXFFT` submits; Offload/Meaning compares them
--   with what they promise, and Offload/Cmux the CMUX in memory. Offload/Table models the table of codelets and what each entry point
--   submits, which Offload/Declared compares.
-- Cufhepp models the initialization of cuFHEpp in src/cufhepp_starpu.cu and src/iyokan-cufhepp-
--   starpu.cu, as the list of its calls; Cufhepp/Calls is about their order.
-- Hoge models the gates of include/hogewrapper.hpp on the accelerator HOGE, which the codelets
--   of a build with `USE_HOGE` call; its kernel is a parameter. Hoge/Layout models `HOGEinit` of
--   src/hogewrapper.cpp: where the evaluation key and the buffers lie. Hoge/Meaning is about the
--   gates, with Hoge/Clear as an instance of what is assumed; Hoge/Key and Hoge/Readback are
--   about the key, with the rules for loops of Hoge/Loops, and Hoge/Boards about the device.
-- StarpuApi states what this runtime calls of StarPU, and StarpuApi/Memory what StarPU documents
--   about the registered values.
-- Shim models include/iyokan-starpu-offload.hpp: `offloaded` is the call of the runtime that a
--   replaced call of TFHEpp makes. Shim/Bits is about encrypted bits, and Shim/Sequences puts the
--   shim, the runtime, the codelets and StarPU together, Shim/Threads for several host threads.
--   Shim/Clear instantiates it with bits in the clear.
-- Iyokan models the state of src/iyokan-starpu-codelets.cpp (`Backend` holds its globals), its
--   handle registries and its lifetime, for one host thread; Iyokan/Tasks models submissions,
--   waiting, captures and host writes, and Iyokan/Calls the entry points. Iyokan/Submissions,
--   Iyokan/Lifetime, Iyokan/Waiting, Iyokan/Answers and Iyokan/Capture are about these, with the
--   proof rules of Iyokan/Rules. Iyokan/Sessions has the sequences of all requests and the abstract session; Iyokan/Soundness, Iyokan/Requests, Iyokan/Waits,
--   Iyokan/Served and Iyokan/History follow it through them. Iyokan/Memory is about the values
--   behind the handles: its children follow them through the registries, submissions and waits
--   to the entry points, which Iyokan/Memory/Assignments describes as assignments;
--   Iyokan/Memory/Device is an instance of StarPU. Iyokan/Threads models several host threads that
--   make calls at the same time: what is done under a mutex or by one call of StarPU is one step, the
--   acquisition of an output with its release too. Iyokan/Threads/Linear is about the values,
--   Iyokan/Threads/Submitted about the order of the calls. Iyokan/Cuda models the lifetime and the
--   end of the process in a build with `USE_CUFHEPP`: Iyokan/Cuda/Keys is about the key that
--   cuFHEpp holds, Iyokan/Cuda/Handlers, Iyokan/Cuda/Registration and Iyokan/Cuda/Exit about the
--   functions that are passed to `std::atexit`.
--
-- Apart from one, all loops are structural recursion over lists or over a counter, so that no
-- fuel is needed. The loop of `waitForTask` runs on fuel, one unit for each test of
-- `finished`, and the property on it says how much is enough. The default build is modelled,
-- without `USE_M12`, with `USE_CUFHEPP` in Codelets, Offload, Cufhepp, Iyokan/Cuda and
-- Main/Program only, and with `USE_HOGE` in Hoge and Main/Program only, where `HOGEinit` returns or
-- exits.
--
-- Noise is not modelled beyond the laws of Tfhe: `Encrypts` says that a ciphertext has little
-- enough noise for the next gate. Not modelled: several host threads where one throws, starts
-- or shuts down the runtime, or marks a host write; what the codelet of MUXwoSE computes, the
-- failures of OpenCL, reads past the end of a row of the key in Hoge, times and
-- messages in src/tangor.cpp, the tests, and the library under thirdparties.
pub mod Base
pub mod Tfhe
pub mod Codelets
pub mod Starpu
pub mod Netlist
pub mod Graph
pub mod Json
pub mod Parser
pub mod Shim
pub mod Offload
pub mod StarpuApi
pub mod Iyokan
pub mod Main
pub mod Hoge
pub mod Cufhepp
