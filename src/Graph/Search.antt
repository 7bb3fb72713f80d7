-- ===== src/Graph/Search.antt =====
-- `search_pointer` of src/starpu_build_graph.cpp: what it finds, and when it has no defined result.
use tangor.Base.{
  ℕ, zero, suc, ◌+◌, ◌<◌, ◌≡◌, ◌≢◌, refl, inl, inr, true, false, ◌||◌, List, [], Option, none, some,
  arith, length, get_elem?, get_elem?-lt, elem, find, find-some, find-Has, find-none, Bool-cases,
}
use tangor.Netlist.{ParsedBc}
use tangor.Starpu.{CipherVector, cipherin, cipherout, cipherdffq, cipherdffd, cipherwire, Handle}
use tangor.Graph.{
  Handles, select_handle, search_pointer, find_dffd, register_from, register_handles,
}

-- A netlist without registers.
pub record IsCombinational (bc : ParsedBc) : Type 0 where
  pub no_q : bc.dff_q_vector ≡ []
  pub no_d : bc.dff_d_vector ≡ []

-- The vector of ids beside a vector of ciphertexts.
abbrev pub ids_of : ParsedBc → CipherVector → List ℕ
ids_of bc cipherin = bc.input_vector
ids_of bc cipherout = bc.output_vector
ids_of bc cipherdffq = bc.dff_q_vector
ids_of bc cipherdffd = bc.dff_d_vector
ids_of bc cipherwire = bc.wire_vector

-- The id of the signal that a handle stands for.
abbrev pub id_at : ParsedBc → Handle → Option ℕ
id_at bc h = get_elem? (ids_of bc h.vector) h.index

register_from_lem :
    (v : CipherVector) (k n i : ℕ)
    → i < n
    → get_elem? (register_from v k n) i ≡ some (record { vector = v; index = k + i })
unfolding register_from
register_from_lem v k zero i h = elim h [ ]
register_from_lem v k (suc n) zero h = ground arith
register_from_lem v k (suc n) (suc i) h = ground (arith, register_from_lem v (suc k) n i)

absent : (ids : List ℕ) (id : ℕ) → find ids id ≡ none → elem id ids ≡ false
absent ids id e = elim (Bool-cases (elem id ids)) [
  | inl h ↦ let (i, p) = find-Has ids id h in cc
  | inr h ↦ h
]

pub registered :
    (v : CipherVector) (ids : List ℕ) (id i : ℕ)
    → find ids id ≡ some i
    → get_elem? (register_from v 0 (length ids)) i ≡ some (record { vector = v; index = i })
registered v ids id i e =
    ground (arith, register_from_lem v 0 (length ids) i (get_elem?-lt ids i (find-some ids id i e)))

unfoldable pub choose : Option ℕ → Option ℕ → Option ℕ → Option Handle
choose (some i) _ _ = some (record { vector = cipherin; index = i })
choose none (some i) _ = some (record { vector = cipherwire; index = i })
choose none none (some i) = some (record { vector = cipherout; index = i })
choose none none none = none

-- Where the ciphertext of a signal lies when there are no registers: with the inputs if it is one,
-- else with the wires, else with the outputs.
unfoldable pub locate : ParsedBc → ℕ → Option Handle
unfolding choose
locate bc id = choose (find bc.input_vector id) (find bc.wire_vector id) (find bc.output_vector id)

select-choose :
    (bc : ParsedBc) (id : ℕ) (a w o : Option ℕ)
    → find bc.input_vector id ≡ a
    → find bc.wire_vector id ≡ w
    → find bc.output_vector id ≡ o
    → select_handle (register_handles bc) a none none w o ≡ choose a w o
unfolding select_handle choose register_handles
select-choose bc id (some i) w o ea ew eo = registered cipherin bc.input_vector id i ea
select-choose bc id none (some i) o ea ew eo = registered cipherwire bc.wire_vector id i ew
select-choose bc id none none (some i) ea ew eo = registered cipherout bc.output_vector id i eo
select-choose bc id none none none ea ew eo = refl

-- Without registers a search gives the handle that was registered for the signal.
pub search_pointer-locate :
    (bc : ParsedBc) (id : ℕ)
    → IsCombinational bc
    → search_pointer id bc (register_handles bc) ≡ locate bc id
unfolding search_pointer find_dffd locate
search_pointer-locate bc id c = ground (arith, select-choose bc id _ _ _ refl refl refl)

choose-id_at :
    (bc : ParsedBc) (id : ℕ) (h : Handle) (a w o : Option ℕ)
    → find bc.input_vector id ≡ a
    → find bc.wire_vector id ≡ w
    → find bc.output_vector id ≡ o
    → choose a w o ≡ some h
    → id_at bc h ≡ some id
unfolding choose
choose-id_at bc id h (some i) w o ea ew eo e = ground (arith, find-some bc.input_vector id i ea)
choose-id_at bc id h none (some i) o ea ew eo e = ground (arith, find-some bc.wire_vector id i ew)
choose-id_at bc id h none none (some i) ea ew eo e =
    ground (arith, find-some bc.output_vector id i eo)
choose-id_at bc id h none none none ea ew eo e = cc

-- The handle that is found belongs to the signal that was searched for.
pub locate-id_at :
    (bc : ParsedBc) (id : ℕ) (h : Handle) → locate bc id ≡ some h → id_at bc h ≡ some id
unfolding locate
locate-id_at bc id h e = choose-id_at bc id h _ _ _ refl refl refl e

pub locate-input :
    (bc : ParsedBc) (id i : ℕ)
    → find bc.input_vector id ≡ some i
    → locate bc id ≡ some (record { vector = cipherin; index = i })
unfolding locate
locate-input bc id i e = rw (locate, e)

pub locate-output :
    (bc : ParsedBc) (id i : ℕ)
    → elem id bc.input_vector ≡ false
    → elem id bc.wire_vector ≡ false
    → find bc.output_vector id ≡ some i
    → locate bc id ≡ some (record { vector = cipherout; index = i })
unfolding locate
locate-output bc id i a w e =
    rw (locate, find-none bc.input_vector id a, find-none bc.wire_vector id w, e)

choose-total :
    (bc : ParsedBc) (id : ℕ) (a w o : Option ℕ)
    → find bc.input_vector id ≡ a
    → find bc.wire_vector id ≡ w
    → find bc.output_vector id ≡ o
    → (elem id bc.input_vector || (elem id bc.wire_vector || elem id bc.output_vector)) ≡ true
    → (h : Handle) × (choose a w o ≡ some h)
unfolding choose
choose-total bc id (some i) w o ea ew eo h = (record { vector = cipherin; index = i }, refl)
choose-total bc id none (some i) o ea ew eo h = (record { vector = cipherwire; index = i }, refl)
choose-total bc id none none (some i) ea ew eo h = (record { vector = cipherout; index = i }, refl)
choose-total bc id none none none ea ew eo h = absurd (
    ground (
      arith,
      absent bc.input_vector id ea,
      absent bc.wire_vector id ew,
      absent bc.output_vector id eo,
    ))

-- An input, a wire or an output is found.
pub locate-total :
    (bc : ParsedBc) (id : ℕ)
    → (elem id bc.input_vector || (elem id bc.wire_vector || elem id bc.output_vector)) ≡ true
    → (h : Handle) × (locate bc id ≡ some h)
unfolding locate
locate-total bc id h = choose-total bc id _ _ _ refl refl refl h

-- With a register in the netlist no search has a defined result.
pub search_pointer-register :
    (bc : ParsedBc) (id : ℕ) (hs : Handles) → bc.dff_q_vector ≢ [] → search_pointer id bc hs ≡ none
unfolding search_pointer find_dffd
search_pointer-register bc id hs r = ground arith
