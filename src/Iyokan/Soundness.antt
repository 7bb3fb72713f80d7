-- ===== src/Iyokan/Soundness.antt =====
-- The start of StarPU in src/iyokan-starpu-codelets.cpp, its key and its handles, as moves of a session.
use tangor.Base.{
  Holds-if, Holds-option, ℤ, ℕ, ◌≡◌, refl, ap, Bool, true, false, ◌==◌, none, some, arith,
  Bool-cases, inl, inr, if◌then◌else◌,
}
use tangor.StarpuApi.{StarpuApi}
use tangor.Iyokan.{
  Outcome, then_do, is_zero, Backend, init_once, ensure_starpu_runtime, claim_key, ensure_starpu,
}
use tangor.Iyokan.Rules.{Ends, ends, stops, Ends-map, Ends-if}
use tangor.Iyokan.Sessions.{
  Session, session, fresh, Moves, stays, starts, fails, claims_running, claims_stopped, shuts_down,
  phase_of, view, IsSound,
}

pub Moves-trans : {a b c : Session} → Moves a b → Moves b c → Moves a c
Moves-trans stays n = n
Moves-trans (starts m) n = starts (Moves-trans m n)
Moves-trans (fails m) n = fails (Moves-trans m n)
Moves-trans (claims_running m) n = claims_running (Moves-trans m n)
Moves-trans (claims_stopped m) n = claims_stopped (Moves-trans m n)
Moves-trans (shuts_down m) n = shuts_down (Moves-trans m n)

-- The first start of StarPU with a status.
phase_of-init :
    (status : ℤ) (r : Bool)
    → r ≡ false
    → Moves
        (session fresh none)
        (session (phase_of true status (if is_zero status then true else r)) none)
phase_of-init status r e = elim (Bool-cases (is_zero status)) [
  | inl z ↦ rw (phase_of, z) (starts stays)
  | inr z ↦ rw (phase_of, z, e, z) (fails stays)
]

-- A live runtime takes a key.
phase_of-claims :
    (once : Bool) (status : ℤ) (r : Bool) (key : ℕ)
    → once ≡ true
    → is_zero status ≡ true
    → Moves (session (phase_of once status r) none) (session (phase_of once status r) (some key))
phase_of-claims once status true key e z = rw e (claims_running stays)
phase_of-claims once status false key e z = rw (e, phase_of, z) (claims_stopped stays)

module _ (api : StarpuApi) where
  -- From `b` the session moves to a sound state.
  abbrev pub Follows : Backend api → Backend api → Type 0
  Follows b s = IsSound api s × Moves (view api b) (view api s)

  abbrev pub IsLive : Backend api → Type 0
  IsLive b = is_zero b.starpu_init_status ≡ true

  -- A step with a value leaves StarPU started.
  abbrev pub Lives : {A : Type 0} → Backend api → Outcome A × Backend api → Type 0
  Lives b m = Ends (λ _ s. Follows b s × IsLive s) (Follows b) m

  pub Lives-then_do :
      {A B : Type 0} (b : Backend api) {m : Outcome A × Backend api}
      {f : A → Backend api → Outcome B × Backend api}
      → Lives b m
      → ((a : A) (s : Backend api) → IsSound api s → IsLive s → Lives s (f a s))
      → Lives b (then_do m f)
  Lives-then_do b (ends ((w, m), l)) h =
      Ends-map (h _ _ w l) (λ _ s ((w', m'), l'). ((w', Moves-trans m m'), l'))
        (λ s (w', m'). (w', Moves-trans m m'))
  Lives-then_do b (stops q) h = stops q

  init_once-Follows :
      (b : Backend api) → IsSound api b → b.starpu_init_once ≡ false → Follows b (init_once api b)
  unfolding init_once
  init_once-Follows b (first, unused, idle, task, vectors, variables) e =
      let (quiet, free, no_vectors, no_variables, no_states) = unused (ap is_zero (first e)) in
      (
        (
          λ d. ground arith,
          λ d. (rw (d, quiet) refl, free, no_vectors, no_variables, no_states),
          idle,
          task,
          vectors,
          variables,
        ),
        rw (e, free) (phase_of-init (init_once api b).starpu_init_status b.starpu_running quiet),
      )

  -- The runtime after `std::call_once`.
  abbrev started : Backend api → Backend api
  started b = if b.starpu_init_once then b else init_once api b

  started-Follows : (b : Backend api) → IsSound api b → Follows b (started b)
  started-Follows b w =
      Holds-if (Follows b) b.starpu_init_once b (init_once api b) (λ e. (w, stays))
        (init_once-Follows b w)

  pub ensure_starpu_runtime-Lives :
      (b : Backend api) → IsSound api b → Lives b (ensure_starpu_runtime api b)
  unfolding ensure_starpu_runtime
  ensure_starpu_runtime-Lives b w =
      let f = started-Follows b w in
      Ends-if (is_zero (started b).starpu_init_status) (λ z. ends (f, z)) (λ z. stops f)

  pub IsLive-once : (b : Backend api) → IsSound api b → IsLive b → b.starpu_init_once ≡ true
  IsLive-once b w live = elim (Bool-cases b.starpu_init_once) [
    | inl e ↦ e
    | inr e ↦ absurd (ground (arith, live, ap is_zero (w.0 e)))
  ]

  IsSound-claimed :
      (key : ℕ) (b : Backend api)
      → IsSound api b
      → IsLive b
      → IsSound api (record b { current_eval_key = some key })
  IsSound-claimed key b (first, unused, idle, task, vectors, variables) live =
      (first, λ d. ground arith, idle, task, vectors, variables)

  claim_key-Lives :
      (key : ℕ) (b : Backend api) → IsSound api b → IsLive b → Lives b (claim_key api key b)
  unfolding claim_key
  claim_key-Lives key b w live =
      Holds-option (Lives b) b.current_eval_key _ _
        (λ e. ends (
          (
            IsSound-claimed key b w live,
            rw e (
                phase_of-claims b.starpu_init_once b.starpu_init_status b.starpu_running key
                  (IsLive-once b w live) live),
          ),
          live,
        ))
        λ k e. Ends-if (k == key) (λ _. ends ((w, stays), live)) (λ _. stops (w, stays))

  pub ensure_starpu-Lives :
      (key : ℕ) (b : Backend api) → IsSound api b → Lives b (ensure_starpu api key b)
  unfolding ensure_starpu
  ensure_starpu-Lives key b w =
      Lives-then_do b (ensure_starpu_runtime-Lives b w) λ _ s. claim_key-Lives key s
