-- ===== src/StarpuApi/Memory.antt =====
-- The documented behaviour of StarPU on the values that src/iyokan-starpu-codelets.cpp registers: tasks
-- take effect in the order of their submission, whatever workers run them and when, and a program
-- that acquires a value finds it in main memory.
use tangor.Base.{pos, ℕ, ◌≡◌, ◌≢◌, List, [], ◌∷◌, map, Option, none, some}
use tangor.StarpuApi.{Conf, Access, starpu_w, starpu_r, starpu_rw, StarpuApi}

-- A value in main memory by its address: a `TLWE`, which is registered as a vector, or one of the
-- values that are registered as variables.
pub data Place : Type 0 where
  tlwe variable : ℕ → Place

-- What a task reads.
abbrev pub reads {ℓ} : {A : Type ℓ} → List (Access × A) → List A
reads [] = []
reads ((starpu_w, h) ∷ accesses) = reads accesses
reads ((starpu_r, h) ∷ accesses) = h ∷ reads accesses
reads ((starpu_rw, h) ∷ accesses) = h ∷ reads accesses

-- All accesses are reads, and of others than the output.
abbrev pub OnlyReads : {A : Type 0} → A → List (Access × A) → Type 0
OnlyReads output [] = Unit {0}
OnlyReads output ((starpu_r, h) ∷ accesses) = (h ≢ output) × OnlyReads output accesses
OnlyReads output (_ ∷ accesses) = ⊥

pub record Memory (api : StarpuApi) : Type 1 where
  pub Value : Type 0
  -- What a codelet may leave in its first buffer, on some worker, from the values that it reads.
  pub Computes : api.Codelet → List Value → Value → Type 0
  -- StarPU is initialized and not shut down.
  pub Up : api.Machine → Type 0
  -- What a handle was registered for.
  pub stands_for : api.Machine → ℕ → Option Place
  -- The value of a handle when all submitted tasks are done.
  pub content : api.Machine → ℕ → Value
  -- Main memory.
  pub host : api.Machine → Place → Value

module _ {api : StarpuApi} (y : Memory api) where
  -- StarPU may write back what is registered at any time, and nothing else.
  pub record Continues (m n : api.Machine) : Type 0 where
    pub up : y.Up n
    pub same_handles : (h : ℕ) → y.stands_for n h ≡ y.stands_for m h
    pub same_contents : (h : ℕ) → y.content n h ≡ y.content m h
    pub same_host : (p : Place) → ((h : ℕ) → y.stands_for m h ≢ some p) → y.host n p ≡ y.host m p

  -- A new handle stands for a value as it is in main memory.
  pub record Registers (p : Place) (m : api.Machine) (h : ℕ) (n : api.Machine) : Type 0 where
    pub up : y.Up n
    pub is_new : y.stands_for m h ≡ none
    pub stands : y.stands_for n h ≡ some p
    pub holds : y.content n h ≡ y.host m p
    pub same_handles : (k : ℕ) → k ≢ h → y.stands_for n k ≡ y.stands_for m k
    pub same_contents : (k : ℕ) → k ≢ h → y.content n k ≡ y.content m k
    pub same_host : (q : Place) → ((k : ℕ) → y.stands_for m k ≢ some q) → y.host n q ≡ y.host m q

  -- A task gives its first handle a value that its codelet computes.
  pub record Inserts (codelet : api.Codelet) (output : ℕ) (inputs : List ℕ) (m n : api.Machine)
      : Type 0 where
    pub up : y.Up n
    pub computes : y.Computes codelet (map (y.content m) inputs) (y.content n output)
    pub same_handles : (h : ℕ) → y.stands_for n h ≡ y.stands_for m h
    pub same_contents : (h : ℕ) → h ≢ output → y.content n h ≡ y.content m h
    pub same_host : (p : Place) → ((h : ℕ) → y.stands_for m h ≢ some p) → y.host n p ≡ y.host m p

  pub record MemoryLaws : Type 0 where
    pub init_starts :
        (c : Conf) (m : api.Machine)
        → (api.init c m).0 ≡ pos 0
        → y.Up (api.init c m).1
          × ((h : ℕ) → y.stands_for (api.init c m).1 h ≡ none)
          × ((p : Place) → y.host (api.init c m).1 p ≡ y.host m p)
    pub vector_registers :
        (address : ℕ) (m : api.Machine)
        → y.Up m
        → ((h : ℕ) → y.stands_for m h ≢ some (tlwe address))
        → Registers
            (tlwe address)
            m
            (api.vector_data_register address m).0
            (api.vector_data_register address m).1
    pub variable_registers :
        (address : ℕ) (m : api.Machine)
        → y.Up m
        → ((h : ℕ) → y.stands_for m h ≢ some (variable address))
        → Registers
            (variable address)
            m
            (api.variable_data_register address m).0
            (api.variable_data_register address m).1
    -- No handle is passed twice, and only the first buffer is written.
    pub task_inserts :
        (codelet : api.Codelet) (mode : Access) (output : ℕ) (accesses : List (Access × ℕ))
        (arg : ℕ) (m : api.Machine)
        → y.Up m
        → OnlyReads output accesses
        → (api.task_insert codelet ((mode, output) ∷ accesses) arg m).0 ≡ pos 0
        → Inserts codelet output
            (reads ((mode, output) ∷ accesses))
            m
            (api.task_insert codelet ((mode, output) ∷ accesses) arg m).1
    -- The acquisition waits for the tasks that write the value.
    pub acquire_continues :
        (h : ℕ) (m : api.Machine) → y.Up m → Continues m (api.data_acquire h starpu_r m).1
    pub acquire_fetches :
        (h : ℕ) (p : Place) (m : api.Machine)
        → y.Up m
        → y.stands_for m h ≡ some p
        → (api.data_acquire h starpu_r m).0 ≡ pos 0
        → y.host (api.data_acquire h starpu_r m).1 p ≡ y.content m h
    pub release_continues : (h : ℕ) (m : api.Machine) → y.Up m → Continues m (api.data_release h m)
    -- Nothing changes a value that was acquired before a task is submitted.
    pub release_keeps :
        (h : ℕ) (p : Place) (m : api.Machine)
        → y.stands_for m h ≡ some p
        → y.host (api.data_release h m) p ≡ y.host m p
    pub yield_continues : (m : api.Machine) → y.Up m → Continues m (api.yield m).1
