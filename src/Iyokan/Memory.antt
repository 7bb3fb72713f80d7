-- ===== src/Iyokan/Memory.antt =====
-- The values behind the handles of src/iyokan-starpu-codelets.cpp, as Iyokan sees them.
pub mod Registry
pub mod Operands
pub mod Insertion
pub mod Waited
pub mod Calls
pub mod Assignments
pub mod Entries
pub mod Effects
pub mod Starting
pub mod Device
use tangor.Base.{ℕ, ◌≡◌, true, List, [], ◌∷◌, map, Option, none, some}
use tangor.StarpuApi.{Access, StarpuApi}
use tangor.StarpuApi.Memory.{Place, tlwe, variable, Memory}
use tangor.Iyokan.{find_handle, Backend}

-- The two registries, by what they hold the handle of.
unfoldable pub handle_of : List (ℕ × ℕ) → List (ℕ × ℕ) → Place → Option ℕ
unfolding find_handle
handle_of vectors variables (tlwe address) = find_handle address vectors
handle_of vectors variables (variable address) = find_handle address variables

-- StarPU was started, by `std::call_once`.
abbrev pub IsStarted : {api : StarpuApi} → Backend api → Type 0
IsStarted b = b.starpu_init_once ≡ true

module _ {api : StarpuApi} (y : Memory api) where
  -- The registries and StarPU agree on the registered values.
  pub record Linked (m : api.Machine) (vectors variables : List (ℕ × ℕ)) : Type 0 where
    pub up : y.Up m
    pub stands :
        (p : Place) (h : ℕ) → handle_of vectors variables p ≡ some h → y.stands_for m h ≡ some p
    pub recorded :
        (p : Place) (h : ℕ) → y.stands_for m h ≡ some p → handle_of vectors variables p ≡ some h

  -- The value that Iyokan finds at a place once all submitted tasks are done and it is synchronized.
  unfoldable pub value_in : api.Machine → Option ℕ → Place → y.Value
  value_in m none p = y.host m p
  value_in m (some h) p = y.content m h

  abbrev pub registered : Backend api → Place → Option ℕ
  registered b p = handle_of b.persistent_handles b.persistent_variable_handles p

  abbrev pub value_at : Backend api → Place → y.Value
  value_at b p = value_in b.machine (registered b p) p

  abbrev pub IsLinked : Backend api → Type 0
  IsLinked b = Linked b.machine b.persistent_handles b.persistent_variable_handles

  -- From `b` to `s` no value changes, what is registered stays so, and no task is added or captured.
  pub record Extends (b s : Backend api) : Type 0 where
    pub linked : IsLinked s
    pub same_values : (p : Place) → value_at s p ≡ value_at b p
    pub keeps : (p : Place) (h : ℕ) → registered b p ≡ some h → registered s p ≡ some h
    pub same_states : s.states ≡ b.states
    pub same_capture : s.capture_active ≡ b.capture_active
    pub same_once : s.starpu_init_once ≡ b.starpu_init_once
