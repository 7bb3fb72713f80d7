-- ===== src/Json.antt =====
-- What src/yosys-json-parser.cpp uses of nlohmann::json, which is not part of the repository. An
-- operation without a result throws an exception of the library or fails its precondition.
use tangor.Base.{ℤ, ℕ, Bool, List, Option, String}

pub record JsonApi : Type 1 where
  pub Json : Type 0
  pub parse : String → Option Json
  -- The elements of an array or the values of an object, in the order of a range-based `for`.
  pub elements : Json → List Json
  -- `operator[]` with a key, and with the index 0.
  pub at_key : Json → String → Option Json
  pub first : Json → Option Json
  pub get_string : Json → Option String
  pub get_uint : Json → Option ℕ
  pub get_ints : Json → Option (List ℤ)
  pub is_string : Json → Bool
