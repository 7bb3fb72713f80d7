-- ===== src/Starpu.antt =====
-- StarPU, which is not part of the repository, as include/starpu_build_graph.hpp uses it: handles of
-- the registered ciphertexts, tasks with declared accesses, and the executions that its documented
-- data consistency permits. A task may start when no earlier task that is still pending touches
-- what it writes or writes what it touches, and it may run on any worker of its codelet.
pub mod Order
mod Tests
use tangor.Base.{
  ℕ, ◌≡◌, Bool, true, false, not, ◌&&◌, ◌||◌, List, [], ◌∷◌, ◌++◌, map, Option, none, some, ◌==◌,
  if◌then◌else◌, ◌>>=◌, ◌>>◌, arith, ◌≢◌,
}
use tangor.Tfhe.{Tfhe}
use tangor.Codelets.{Codelet, Worker, run_codelet}

-- The vectors of ciphertexts whose elements are registered.
pub data CipherVector : Type 0 where
  cipherin cipherout cipherdffq cipherdffd cipherwire : CipherVector

abbrev vector_number : CipherVector → ℕ
vector_number cipherin = 0
vector_number cipherout = 1
vector_number cipherdffq = 2
vector_number cipherdffd = 3
vector_number cipherwire = 4

-- A handle stands for the element that it was registered for.
pub record Handle : Type 0 where
  pub vector : CipherVector
  pub index : ℕ

abbrev pub same : Handle → Handle → Bool
same h k = vector_number h.vector == vector_number k.vector && h.index == k.index

pub same→eq : (h k : Handle) → same h k ≡ true → h ≡ k
same→eq h k e = ground arith

pub same_refl : (h : Handle) → same h h ≡ true
same_refl h = ground arith

pub same_comm : (h k : Handle) → same h k ≡ same k h
same_comm h k = ground arith

-- `starpu_task_insert(&codelet, STARPU_W, output, STARPU_R, inputs …, STARPU_PRIORITY, priority, 0)`.
pub record Task : Type 0 where
  pub codelet : Codelet
  pub output : Handle
  pub inputs : List Handle
  pub priority : ℕ

abbrev pub among : Handle → List Handle → Bool
among h [] = false
among h (k ∷ ks) = same k h || among h ks

-- Neither task writes what the other touches.
abbrev pub independent : Task → Task → Bool
independent a b =
    not (same a.output b.output) && (not (among a.output b.inputs) && not (among b.output a.inputs))

-- A submitted task with the worker that StarPU chooses for it.
abbrev pub Placed : Type 0
Placed = Task × Worker

abbrev pub AllIndependent : List Placed → Task → Type 0
AllIndependent [] x = Unit {0}
AllIndependent ((a, w) ∷ ps) x = (independent a x ≡ true) × AllIndependent ps x

module _ (t : Tfhe) where
  -- The current value of each registered ciphertext, wherever its valid copy lies.
  abbrev pub Store : Type 0
  Store = Handle → t.Cipher

  abbrev pub update : Store → Handle → t.Cipher → Store
  update s h c k = if same h k then c else s k

  unfoldable pub exec : Placed → Store → Option Store
  exec (task, w) s = do
    out ← run_codelet t w task.codelet (map s task.inputs)
    some (update s task.output out)

  unfoldable pub in_order : List Placed → Store → Option Store
  in_order [] s = some s
  in_order (p ∷ ps) s = do s' ← exec p s; in_order ps s'

  -- The executions of the pending tasks that StarPU's data consistency permits.
  pub data Run : List Placed → Store → Store → Type 0 where
    done : (s : Store) → Run [] s s
    take :
        {pending : List Placed} {s s₁ s₂ : Store} (before after : List Placed) (x : Placed)
        → pending ≡ before ++ x ∷ after
        → AllIndependent before x.0
        → exec x s ≡ some s₁
        → Run (before ++ after) s₁ s₂
        → Run pending s s₂
