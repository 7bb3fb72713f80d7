-- ===== src/Main/Protocol.antt =====
-- The order of the calls of StarPU and cuFHEpp that src/tangor.cpp makes.
use tangor.Base.{
  ◌≡◌, ◌≢◌, refl, ℕ, Bool, true, false, not, ◌&&◌, List, [], ◌∷◌, ◌++◌, map, length, Option, none,
  some, ◌==◌, if◌then◌else◌, ◌>>=◌, Holds-if, Holds-option, String,
}
use tangor.Tfhe.{Tfhe}
use tangor.Json.{JsonApi}
use tangor.Starpu.{Store}
use tangor.Graph.{Globals}
use tangor.Cufhepp.{
  set_gpu_num, initialize, clean_up, at_exit, Devices, Cufhepp, cufhepp_initialize,
  cufhepp_clean_up, usable_devices,
}
use tangor.Main.{Launch, returns_one, uncaught, undefined, launched, launch, result_data}
use tangor.Main.Program.{
  Setting, Exit, returned, threw, undefined_behaviour, exited, after_hoge, failure_exit, untouched,
  when, MainCall, start_starpu, cuda, start_bound, stop_bound, print_bound, insert_tasks,
  wait_for_all, sync_outputs, write_result, shut_down, append_time, Files, ready_cufhepp,
  start_backend, conclude, proceed, main,
}

-- What has been started and not stopped: StarPU, the recording of its bound, tasks, cuFHEpp; and whether
-- the host has the current outputs.
pub record Machine : Type 0 where
  pub running : Bool
  pub recording : Bool
  pub pending : Bool
  pub ready : Bool
  pub on_host : Bool

abbrev pub off : Machine
off = record { running = false; recording = false; pending = false; ready = false; on_host = false }

abbrev provided : Bool → Machine → Option Machine
provided b m = if b then some m else none

module _ (t : Tfhe) (j : JsonApi) where
  -- A call where it is allowed: StarPU serves calls between its start and its shutdown; it is shut
  -- down when no task is left and cuFHEpp is cleaned up; cuFHEpp is cleaned up after it was
  -- initialized, when no task is left; a recording is printed after it was stopped; the outputs are
  -- read when no task is left and the host has their values.
  unfoldable pub allow : MainCall t j → Machine → Option Machine
  allow start_starpu m = provided (not m.running) (record m { running = true })
  allow (cuda (set_gpu_num n)) m = provided (m.running && not m.ready) m
  allow (cuda (initialize key)) m = provided (m.running && not m.ready) (record m { ready = true })
  allow (cuda clean_up) m =
      provided (m.running && (m.ready && not m.pending)) (record m { ready = false })
  allow (cuda at_exit) m = none
  allow start_bound m = provided (m.running && not m.recording) (record m { recording = true })
  allow stop_bound m =
      provided (m.running && (m.recording && not m.pending)) (record m { recording = false })
  allow print_bound m = provided (m.running && not m.recording) m
  allow (insert_tasks n) m = provided m.running (record m { pending = true; on_host = false })
  allow wait_for_all m = provided m.running (record m { pending = false })
  allow sync_outputs m = provided (m.running && not m.pending) (record m { on_host = true })
  allow (write_result r) m = provided (m.on_host && not m.pending) m
  allow shut_down m =
      provided (m.running && (not m.pending && (not m.recording && not m.ready)))
        (record m { running = false })
  allow (append_time file) m = some m

  -- The state after calls, the last of which comes first.
  unfoldable pub after : List (MainCall t j) → Option Machine
  after [] = some off
  after (c ∷ cs) = after cs >>= allow c

  -- What is left where `main` returns, and where it throws or exits.
  abbrev Leaves : Exit → Machine → Type 0
  Leaves (returned n) m =
      (m.running ≡ false) × (m.recording ≡ false) × (m.pending ≡ false) × (m.ready ≡ false)
  Leaves threw m = (m.recording ≡ false) × (m.pending ≡ false)
  Leaves undefined_behaviour m = Unit {0}
  Leaves exited m = (m.recording ≡ false) × (m.pending ≡ false)

  -- The calls are allowed, and nothing that they start is left running where `main` returns, and no
  -- recording or task where it throws or exits.
  abbrev pub IsClosed : Exit × List (MainCall t j) → Type 0
  IsClosed p = (m : Machine) × (after p.1 ≡ some m) × Leaves p.0 m

  abbrev tail_of :
      Bool → Bool → Bool → Bool → ℕ → List t.Cipher → Bool × Cufhepp → Exit × List (MainCall t j)
  tail_of c b w o n r (answer, s) =
      conclude t j c b w o r
        (s, insert_tasks n ∷ (when b start_bound ++ (map cuda s.calls ++ start_starpu ∷ [])))

  plain-IsClosed :
      (b w o : Bool) (n : ℕ) (r : List t.Cipher)
      → IsClosed (tail_of false b w o n r (false, untouched))
  unfolding conclude after allow
  plain-IsClosed false true o n r = (_, refl, (refl, refl, refl, refl))
  plain-IsClosed true true false n r = (_, refl, (refl, refl, refl, refl))
  plain-IsClosed true true true n r = (_, refl, (refl, refl, refl, refl))
  plain-IsClosed false false o n r = (_, refl, (refl, refl))
  plain-IsClosed true false o n r = (_, refl, (refl, refl))

  idle-IsClosed :
      (b w o : Bool) (n : ℕ) (r : List t.Cipher) (ls : List String)
      → IsClosed (tail_of true b w o n r (false, record untouched { lines = ls }))
  unfolding conclude after allow cufhepp_clean_up
  idle-IsClosed false true o n r ls = (_, refl, (refl, refl, refl, refl))
  idle-IsClosed true true false n r ls = (_, refl, (refl, refl, refl, refl))
  idle-IsClosed true true true n r ls = (_, refl, (refl, refl, refl, refl))
  idle-IsClosed false false o n r ls = (_, refl, (refl, refl))
  idle-IsClosed true false o n r ls = (_, refl, (refl, refl))

  ready-IsClosed :
      (b w o : Bool) (n key gpus : ℕ) (r : List t.Cipher)
      → IsClosed (
          tail_of true b w o n r (
            true,
            record untouched { initialized = true; calls = initialize key ∷ set_gpu_num gpus ∷ [] },
          ))
  unfolding conclude after allow cufhepp_clean_up
  ready-IsClosed false true o n key gpus r = (_, refl, (refl, refl, refl, refl))
  ready-IsClosed true true false n key gpus r = (_, refl, (refl, refl, refl, refl))
  ready-IsClosed true true true n key gpus r = (_, refl, (refl, refl, refl, refl))
  ready-IsClosed false false o n key gpus r = (_, refl, (refl, refl))
  ready-IsClosed true false o n key gpus r = (_, refl, (refl, refl))

  cufhepp-IsClosed :
      (b w o : Bool) (n key : ℕ) (d : Devices) (r : List t.Cipher)
      → IsClosed (tail_of true b w o n r (cufhepp_initialize d key untouched))
  unfolding cufhepp_initialize
  cufhepp-IsClosed b w o n key d r =
      let closes = λ (p : Bool × Cufhepp). IsClosed (tail_of true b w o n r p) in
      Holds-option closes (usable_devices d) _ _
        (λ _.
          Holds-if (λ (s : Cufhepp). closes (false, s)) (d.cuda_workers == 0) _ _
            (λ _. idle-IsClosed b w o n r _) λ _. idle-IsClosed b w o n r _)
        λ gpus _. ready-IsClosed b w o n key gpus r

  launched-IsClosed :
      (c b w o : Bool) (n key : ℕ) (d : Devices) (r : List t.Cipher)
      → IsClosed (
          conclude t j c b w o r
            ((start_backend t j c b d key).0, insert_tasks n ∷ (start_backend t j c b d key).1))
  unfolding start_backend ready_cufhepp
  launched-IsClosed false b w o n key d r = plain-IsClosed b w o n r
  launched-IsClosed true b w o n key d r = cufhepp-IsClosed b w o n key d r

  off-IsClosed : (e : Exit) → IsClosed (e, [])
  unfolding after
  off-IsClosed (returned n) = (_, refl, (refl, refl, refl, refl))
  off-IsClosed threw = (_, refl, (refl, refl))
  off-IsClosed undefined_behaviour = (_, refl, tt)
  off-IsClosed exited = (_, refl, (refl, refl))

  -- The end in `HOGEinit`.
  abbrev exits_after : Bool × Cufhepp → Exit × List (MainCall t j)
  exits_after (answer, s) = (exited, map cuda s.calls ++ start_starpu ∷ [])

  exited-IsClosed :
      (c : Bool) (key : ℕ) (d : Devices) → IsClosed (exited, (start_backend t j c false d key).1)
  unfolding start_backend ready_cufhepp cufhepp_initialize after allow
  exited-IsClosed false key d = (_, refl, (refl, refl))
  exited-IsClosed true key d =
      let closes = λ (p : Bool × Cufhepp). IsClosed (exits_after p) in
      Holds-option closes (usable_devices d) _ _
        (λ _.
          Holds-if (λ (s : Cufhepp). closes (false, s)) (d.cuda_workers == 0) _ _
            (λ _. (_, refl, (refl, refl))) λ _. (_, refl, (refl, refl)))
        λ gpus _. (_, refl, (refl, refl))

  after_hoge-IsClosed :
      (x : Setting) (key : ℕ) (h : Option Bool) (p : Exit × List (MainCall t j))
      → (after_hoge t j x key h p).0 ≢ undefined_behaviour
      → (p.0 ≢ undefined_behaviour → IsClosed p)
      → IsClosed (after_hoge t j x key h p)
  unfolding after_hoge
  after_hoge-IsClosed x key none p defined closed = closed defined
  after_hoge-IsClosed x key (some true) p defined closed = closed defined
  after_hoge-IsClosed x key (some false) p defined closed =
      exited-IsClosed x.use_cufhepp key x.devices

  proceed-IsClosed :
      (x : Setting) (key : ℕ) (complete : Globals t → Store t) (l : Launch t j)
      → (proceed t j x key complete l).0 ≢ undefined_behaviour
      → IsClosed (proceed t j x key complete l)
  unfolding proceed
  proceed-IsClosed x key complete returns_one defined = off-IsClosed (returned 1)
  proceed-IsClosed x key complete (uncaught e) defined = off-IsClosed (failure_exit e)
  proceed-IsClosed x key complete undefined defined =
      after_hoge-IsClosed x key x.use_hoge _ defined λ never. absurd (never refl)
  proceed-IsClosed x key complete (launched g) defined =
      after_hoge-IsClosed x key x.use_hoge _ defined λ _.
        launched-IsClosed x.use_cufhepp x.write_starpu_bound_lp x.result_writes x.bound_opens
          (length g.tasks) key x.devices (result_data t j (complete g) g)

  -- Whatever the build, the answers of StarPU and CUDA, whether HOGEinit returns, and the files
  -- are, if no behaviour of `main` is undefined and StarPU runs the tasks to the end: its calls of
  -- StarPU and cuFHEpp are allowed in their order; where it returns, it leaves neither StarPU, nor
  -- a recording, nor a task, nor cuFHEpp running, and where HOGEinit exits or an exception ends it,
  -- also one for result.data, it leaves no recording and no task.
  pub main-IsClosed :
      (x : Setting) (f : Files t j) (complete : Globals t → Store t)
      → (main t j x f complete).0 ≢ undefined_behaviour
      → IsClosed (main t j x f complete)
  unfolding main
  main-IsClosed x f complete =
      let Closes = λ (p : Exit × List (MainCall t j)). p.0 ≢ undefined_behaviour → IsClosed p in
      Holds-option Closes f.eval_key _ _ (λ _ _. off-IsClosed threw)
        λ key _.
          Holds-option Closes f.cloud_data _ _ (λ _ _. off-IsClosed threw)
            λ cipherin _.
              proceed-IsClosed x key complete (launch t j f.circuit_json cipherin x.starpu_starts)
