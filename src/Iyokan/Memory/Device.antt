-- ===== src/Iyokan/Memory/Device.antt =====
-- A StarPU whose tasks run on a device: values come back to main memory when they are acquired, and the
-- callbacks are run when the host yields. Ciphertexts and selectors are bits in the clear.
use tangor.Base.{
  pos, ℕ, suc, ◌≤◌, ◌≡◌, ◌≢◌, refl, sym, ap, subst, ◌∙◌, ◌==◌, ne→==, ==_refl, Bool, false, List,
  [], ◌∷◌, ◌++◌, map, Option, none, some, arith, if◌then◌else◌,
}
use tangor.StarpuApi.{Access, StarpuApi}
use tangor.StarpuApi.Memory.{
  Place, tlwe, variable, reads, Memory, MemoryLaws, Continues, Registers, Inserts,
}
use tangor.Offload.{
  GateCodelet, CmuxCodelet, cmux_fft_codelet, cmux_fft_in_place_true_codelet,
  cmux_fft_in_place_false_codelet, run_gate,
}
use tangor.Codelets.{cpu_worker}
use tangor.Tfhe.Clear.{clear}

pub data ClearCodelet : Type 0 where
  gate_codelet : GateCodelet → ClearCodelet
  cmux_codelet : CmuxCodelet → ClearCodelet

abbrev or_false : Option Bool → Bool
or_false none = false
or_false (some b) = b

unfoldable pub run_clear : ClearCodelet → List Bool → Bool
unfolding run_gate
run_clear (gate_codelet c) bits = or_false (run_gate clear cpu_worker c bits)
run_clear (cmux_codelet cmux_fft_codelet) (s ∷ a ∷ b ∷ []) = if s then a else b
run_clear (cmux_codelet cmux_fft_in_place_true_codelet) (a ∷ s ∷ b ∷ []) = if s then a else b
run_clear (cmux_codelet cmux_fft_in_place_false_codelet) (b ∷ s ∷ a ∷ []) = if s then a else b
run_clear _ _ = false

-- Handles are numbers below `next`.
pub record Device : Type 0 where
  pub memory : ℕ → Bool
  pub variables : ℕ → Bool
  pub next : ℕ
  pub place : ℕ → Option Place
  pub values : ℕ → Bool
  pub pending : List ℕ

abbrev at_place : Device → Place → Bool
at_place d (tlwe a) = d.memory a
at_place d (variable a) = d.variables a

abbrev update {ℓ} : {A : Type ℓ} → (ℕ → A) → ℕ → A → ℕ → A
update f n a k = if n == k then a else f k

abbrev add : Place → Device → ℕ × Device
add p d = (
  d.next,
  record d {
    next = suc d.next;
    place = update d.place d.next (some p);
    values = update d.values d.next (at_place d p);
  },
)

abbrev store : Option Place → Bool → Device → Device
store none v d = d
store (some (tlwe a)) v d = record d { memory = update d.memory a v }
store (some (variable a)) v d = record d { variables = update d.variables a v }

abbrev run_on : ClearCodelet → List (Access × ℕ) → ℕ → Device → Device
run_on c [] arg d = d
run_on c ((mode, o) ∷ accesses) arg d = record d {
  values = update d.values o (run_clear c (map d.values (reads ((mode, o) ∷ accesses))));
  pending = d.pending ++ arg ∷ [];
}

abbrev pub device_api : StarpuApi
device_api = record {
  Machine = Device;
  Codelet = ClearCodelet;
  init = λ conf d. (pos 0, record d { next = 0; place = λ _. none; pending = [] });
  vector_data_register = λ address d. add (tlwe address) d;
  variable_data_register = λ address d. add (variable address) d;
  task_insert = λ codelet handles arg d. (pos 0, run_on codelet handles arg d);
  data_acquire = λ handle access d. (pos 0, store (d.place handle) (d.values handle) d);
  data_release = λ handle d. d;
  data_unregister_no_coherency = λ handle d. d;
  task_wait_for_all = λ d. (d.pending, record d { pending = [] });
  shutdown = λ d. d;
  yield = λ d. (d.pending, record d { pending = [] });
}

-- No handle is in use from `next` on.
abbrev Bounded : Device → Type 0
Bounded d = (h : ℕ) → d.next ≤ h → d.place h ≡ none

abbrev pub device_memory : Memory device_api
device_memory = record {
  Value = Bool;
  Computes = λ codelet inputs v. v ≡ run_clear codelet inputs;
  Up = Bounded;
  stands_for = λ d h. d.place h;
  content = λ d h. d.values h;
  host = at_place;
}

update_other {ℓ} : {A : Type ℓ} (f : ℕ → A) (n k : ℕ) (a : A) → k ≢ n → update f n a k ≡ f k
update_other f n k a ne = rw (ne→== n k (λ e. ne (sym e))) refl

update_same {ℓ} : {A : Type ℓ} (f : ℕ → A) (n : ℕ) (a : A) → update f n a n ≡ a
update_same f n a = rw (==_refl n) refl

add-Registers :
    (p : Place) (d : Device) → Bounded d → Registers device_memory p d (add p d).0 (add p d).1
add-Registers p d up = record {
  up = λ h le.
      update_other d.place d.next h (some p) (λ e. absurd (omega arith)) ∙ up h (omega arith);
  is_new = up d.next (omega arith);
  stands = update_same d.place d.next (some p);
  holds = update_same d.values d.next (at_place d p);
  same_handles = λ k ne. update_other d.place d.next k (some p) ne;
  same_contents = λ k ne. update_other d.values d.next k (at_place d p) ne;
  same_host = λ q free. same_place q;
}
  where
    same_place : (q : Place) → at_place (add p d).1 q ≡ at_place d q
    same_place (tlwe a) = refl
    same_place (variable a) = refl

run_on-Inserts :
    (c : ClearCodelet) (mode : Access) (o : ℕ) (accesses : List (Access × ℕ)) (arg : ℕ) (d : Device)
    → Bounded d
    → Inserts device_memory c o
        (reads ((mode, o) ∷ accesses))
        d
        (run_on c ((mode, o) ∷ accesses) arg d)
run_on-Inserts c mode o accesses arg d up = record {
  up = up;
  computes = update_same d.values o _;
  same_handles = λ h. refl;
  same_contents = λ h ne. update_other d.values o h _ ne;
  same_host = λ q free. same_place q;
}
  where
    same_place : (q : Place) → at_place (run_on c ((mode, o) ∷ accesses) arg d) q ≡ at_place d q
    same_place (tlwe a) = refl
    same_place (variable a) = refl

store_other :
    (p q : Place) (v : Bool) (d : Device) → q ≢ p → at_place (store (some p) v d) q ≡ at_place d q
store_other (tlwe a) (tlwe b) v d ne = update_other d.memory a b v (λ e. ne (ap tlwe e))
store_other (tlwe a) (variable b) v d ne = refl
store_other (variable a) (tlwe b) v d ne = refl
store_other (variable a) (variable b) v d ne =
    update_other d.variables a b v (λ e. ne (ap variable e))

store_self : (p : Place) (v : Bool) (d : Device) → at_place (store (some p) v d) p ≡ v
store_self (tlwe a) v d = update_same d.memory a v
store_self (variable a) v d = update_same d.variables a v

store-Continues :
    (o : Option Place) (h : ℕ) (v : Bool) (d : Device)
    → Bounded d
    → d.place h ≡ o
    → Continues device_memory d (store o v d)
store-Continues none h v d up at = record {
  up = up;
  same_handles = λ k. refl;
  same_contents = λ k. refl;
  same_host = λ q free. refl;
}
store-Continues (some (tlwe a)) h v d up at = record {
  up = up;
  same_handles = λ k. refl;
  same_contents = λ k. refl;
  same_host = λ q free. store_other (tlwe a) q v d (λ e. free h (at ∙ ap some (sym e)));
}
store-Continues (some (variable a)) h v d up at = record {
  up = up;
  same_handles = λ k. refl;
  same_contents = λ k. refl;
  same_host = λ q free. store_other (variable a) q v d (λ e. free h (at ∙ ap some (sym e)));
}

still-Continues :
    (d : Device) (tasks : List ℕ)
    → Bounded d
    → Continues device_memory d (record d { pending = tasks })
still-Continues d tasks up = record {
  up = up;
  same_handles = λ k. refl;
  same_contents = λ k. refl;
  same_host = λ q free. same_place q;
}
  where
    same_place : (q : Place) → at_place (record d { pending = tasks }) q ≡ at_place d q
    same_place (tlwe a) = refl
    same_place (variable a) = refl

acquire-fetches :
    (h : ℕ) (p : Place) (d : Device)
    → d.place h ≡ some p
    → at_place (store (d.place h) (d.values h) d) p ≡ d.values h
acquire-fetches h p d at =
    subst (λ (o : Option Place). at_place (store o (d.values h) d) p ≡ d.values h) (sym at)
      (store_self p (d.values h) d)

init-host :
    (d : Device) (p : Place)
    → at_place (record d { next = 0; place = λ _. none; pending = [] }) p ≡ at_place d p
init-host d (tlwe a) = refl
init-host d (variable a) = refl

pub device_laws : MemoryLaws device_memory
device_laws = record {
  init_starts = λ c d e. (λ h le. refl, λ h. refl, init-host d);
  vector_registers = λ a d up free. add-Registers (tlwe a) d up;
  variable_registers = λ a d up free. add-Registers (variable a) d up;
  task_inserts = λ c mode o accesses arg d up only e. run_on-Inserts c mode o accesses arg d up;
  acquire_continues = λ h d up. store-Continues (d.place h) h (d.values h) d up refl;
  acquire_fetches = λ h p d up at e. acquire-fetches h p d at;
  release_continues = λ h d up. still-Continues d d.pending up;
  release_keeps = λ h p d at. refl;
  yield_continues = λ d up. still-Continues d [] up;
}
