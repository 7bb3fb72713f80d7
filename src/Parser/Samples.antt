-- ===== src/Parser/Samples.antt =====
-- JSON values and documents for the tests of the parser.
use tangor.Base.{
  ℤ, pos, ℕ, Bool, true, false, List, [], ◌∷◌, Option, none, some, String, str_eq, if◌then◌else◌,
}
use tangor.Json.{JsonApi}

pub data Value : Type 0 where
  number : ℕ → Value
  text : String → Value
  empty : Value
  item : Value → Value → Value
  member : String → Value → Value → Value

elements : Value → List Value
elements (item v rest) = v ∷ elements rest
elements (member key v rest) = v ∷ elements rest
elements _ = []

at_key : Value → String → Option Value
at_key (member key v rest) k = if str_eq key k then some v else at_key rest k
at_key _ k = none

first : Value → Option Value
first (item v rest) = some v
first _ = none

get_string : Value → Option String
get_string (text s) = some s
get_string _ = none

get_uint : Value → Option ℕ
get_uint (number n) = some n
get_uint _ = none

get_ints : Value → Option (List ℤ)
get_ints empty = some []
get_ints (item (number n) rest) = elim (get_ints rest) [ none ↦ none | some ns ↦ some (pos n ∷ ns) ]
get_ints _ = none

is_string : Value → Bool
is_string (text s) = true
is_string _ = false

abbrev pub bits : ℕ → Value
bits n = item (number n) empty

abbrev pub port : String → ℕ → Value → Value
port direction n rest =
    item (member "direction" (text direction) (member "bits" (bits n) empty)) rest

abbrev pub cell : String → Value → Value
cell type connections = member "type" (text type) (member "connections" connections empty)

abbrev pub ports : Value
ports = port "input" 3 (port "output" 9 (port "input" 2 (port "output" 6 empty)))

abbrev pub cells : Value
cells =
    item (cell "$_NAND_" (member "A" (bits 2) (member "B" (bits 5) (member "Y" (bits 6) empty)))) (
      item (cell "$_SDFF_PP0_" (member "D" (bits 5) (member "Q" (bits 9) empty))) (
        item
          (cell "$_ANDNOT_" (member "A" (bits 3) (member "B" (bits 2) (member "Y" (bits 5) empty))))
          empty))

abbrev pub document : Value → Value → Value
document ps cs = member "modules" (item (member "ports" ps (member "cells" cs empty)) empty) empty

-- 6 = ~(2 & 3), 5 = 2 ^ 4 and 7 = 4 ? 3 : 5.
abbrev pub runnable_ports : Value
runnable_ports =
    port "input" 4 (port "input" 3 (port "input" 2 (port "output" 6 (port "output" 7 empty))))

abbrev pub runnable_cells : Value
runnable_cells =
    item (cell "$_NAND_" (member "A" (bits 2) (member "B" (bits 3) (member "Y" (bits 6) empty)))) (
      item (cell "$_XOR_" (member "A" (bits 2) (member "B" (bits 4) (member "Y" (bits 5) empty)))) (
        item
          (cell "$_MUX_" (
            member "A" (bits 5)
              (member "B" (bits 3) (member "S" (bits 4) (member "Y" (bits 7) empty)))))
          empty))

-- "good", "bad" and "runnable" stand for the texts of documents.
unfoldable pub api : JsonApi
unfolding elements at_key first get_string get_uint get_ints is_string
api = record {
  Json = Value;
  parse = λ s.
      if str_eq s "good"
      then some (document ports cells)
      else if str_eq s "bad"
      then some (document (port "inout" 2 empty) cells)
      else if str_eq s "runnable"
      then some (document runnable_ports runnable_cells)
      else none;
  elements = elements;
  at_key = at_key;
  first = first;
  get_string = get_string;
  get_uint = get_uint;
  get_ints = get_ints;
  is_string = is_string;
}
