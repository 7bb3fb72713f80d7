-- ===== src/Iyokan/History.antt =====
-- All requests to src/iyokan-starpu-codelets.cpp in a row, as the moves of a session.
use tangor.Base.{
  ℤ, ℕ, ◌≡◌, refl, subst, Bool, true, false, Option, none, some, arith, Bool-cases, inl, inr,
}
use tangor.StarpuApi.{StarpuApi}
use tangor.Iyokan.{Outcome, is_zero, Backend}
use tangor.Iyokan.Rules.{ends, stops, Ends-map}
use tangor.Iyokan.Sessions.{
  Session, session, Phase, fresh, running, Moves, stays, shuts_down, starts, fails, claims_running,
  claims_stopped, phase_of, view, IsSound, Request, configure, prepare, call, begin_capture,
  end_capture, synchronize_capture, shut_down, tlwe_host_write, variable_host_write, serve, forget,
  forget_all, initial, Reaches, at_first, and_then,
}
use tangor.Iyokan.Soundness.{Moves-trans, Follows, ensure_starpu-Lives}
use tangor.Iyokan.Served.{
  run_call-Settles, begin-Moved, end-Moved, synchronize-Settles, tlwe_host_write-Moved,
  variable_host_write-Moved, configure-Moved, shutdown-Follows,
}
use tangor.Iyokan.Waits.{Moved, Settles, waits, settles}

abbrev HasEnded : Phase → Type 0
HasEnded fresh = ⊥
HasEnded running = ⊥
HasEnded _ = Unit {0}

-- No move leads out of an end.
Moves-HasEnded : {a b : Session} → Moves a b → HasEnded a.phase → HasEnded b.phase
Moves-HasEnded stays h = h
Moves-HasEnded (starts m) h = absurd h
Moves-HasEnded (fails m) h = Moves-HasEnded m tt
Moves-HasEnded (claims_running m) h = absurd h
Moves-HasEnded (claims_stopped m) h = Moves-HasEnded m tt
Moves-HasEnded (shuts_down m) h = Moves-HasEnded m tt

phase_of-HasEnded :
    (once : Bool) (status : ℤ) (r : Bool)
    → once ≡ true
    → r ≡ false
    → HasEnded (phase_of once status r)
phase_of-HasEnded once status r e d = elim (Bool-cases (is_zero status)) [
  | inl z ↦ rw (e, d, phase_of, z) tt
  | inr z ↦ rw (e, d, phase_of, z) tt
]

HasEnded-phase_of :
    (once : Bool) (status : ℤ) (r : Bool)
    → HasEnded (phase_of once status r)
    → (once ≡ true) × (r ≡ false)
HasEnded-phase_of false status r h = absurd h
HasEnded-phase_of true status true h = absurd h
HasEnded-phase_of true status false h = (refl, refl)

module _ (api : StarpuApi) where
  -- What a request did, with the outcome forgotten.
  Moved-Follows :
      {A : Type 0} (b : Backend api) (m : Outcome A × Backend api)
      → Moved api b m
      → Follows api b (forget api m)
  Moved-Follows b _ (ends f) = f
  Moved-Follows b _ (stops f) = f

  abbrev FollowsIf : Backend api → Option (Backend api) → Type 0
  FollowsIf b none = Unit {0}
  FollowsIf b (some s) = Follows api b s

  Settles-FollowsIf :
      {A : Type 0} (b : Backend api) (m : Option (Outcome A × Backend api))
      → Settles api b m
      → FollowsIf b (forget_all api m)
  Settles-FollowsIf b _ waits = tt
  Settles-FollowsIf b _ (settles {m = m} h) = Moved-Follows b m h

  serve-FollowsIf :
      (fuel : ℕ) (r : Request api) (b : Backend api)
      → IsSound api b
      → FollowsIf b (serve api fuel r b)
  unfolding serve
  serve-FollowsIf fuel (configure cpus gpus) b w =
      Moved-Follows b _ (configure-Moved api cpus gpus b w)
  serve-FollowsIf fuel (prepare key) b w =
      Moved-Follows b _ (Ends-map (ensure_starpu-Lives api key b w) (λ _ s (f, _). f) λ s f. f)
  serve-FollowsIf fuel (call c) b w = Settles-FollowsIf b _ (run_call-Settles api fuel c b w)
  serve-FollowsIf fuel begin_capture b w = Moved-Follows b _ (begin-Moved api b w)
  serve-FollowsIf fuel end_capture b w = Moved-Follows b _ (end-Moved api b w)
  serve-FollowsIf fuel synchronize_capture b w =
      Settles-FollowsIf b _ (synchronize-Settles api fuel b w)
  serve-FollowsIf fuel shut_down b w = shutdown-Follows api b w
  serve-FollowsIf fuel (tlwe_host_write v) b w = Moved-Follows b _ (tlwe_host_write-Moved api v b w)
  serve-FollowsIf fuel (variable_host_write v) b w =
      Moved-Follows b _ (variable_host_write-Moved api v b w)

  -- Each request to a sound runtime that does not wait for ever moves its session, and leaves it sound.
  pub serve-Follows :
      (fuel : ℕ) (r : Request api) (b s : Backend api)
      → IsSound api b
      → serve api fuel r b ≡ some s
      → IsSound api s × Moves (view api b) (view api s)
  serve-Follows fuel r b s w e = subst (FollowsIf b) e (serve-FollowsIf fuel r b w)

  -- After any requests the runtime is sound.
  pub Reaches-IsSound :
      (machine : api.Machine) (b : Backend api) → Reaches api machine b → IsSound api b
  unfolding initial
  Reaches-IsSound machine _ at_first =
      (λ _. refl, λ _. (refl, refl, refl, refl, refl), λ _. refl, λ t e. ground arith, tt, tt)
  Reaches-IsSound machine _ (and_then {b = b} {b' = s} fuel r h e) =
      (serve-Follows fuel r b s (Reaches-IsSound machine b h) e).0

  -- The session of a runtime after any requests came there from a fresh one.
  pub Reaches-Moves :
      (machine : api.Machine) (b : Backend api)
      → Reaches api machine b
      → Moves (session fresh none) (view api b)
  unfolding initial
  Reaches-Moves machine _ at_first = stays
  Reaches-Moves machine _ (and_then {b = b} {b' = s} fuel r h e) =
      Moves-trans (Reaches-Moves machine b h)
        (serve-Follows fuel r b s (Reaches-IsSound machine b h) e).1

  -- A runtime that was shut down, or whose start failed, never runs StarPU again, whatever is requested.
  pub serve-stopped :
      (fuel : ℕ) (r : Request api) (b s : Backend api)
      → IsSound api b
      → b.starpu_init_once ≡ true
      → b.starpu_running ≡ false
      → serve api fuel r b ≡ some s
      → (s.starpu_init_once ≡ true) × (s.starpu_running ≡ false)
  serve-stopped fuel r b s w once still e =
      HasEnded-phase_of s.starpu_init_once s.starpu_init_status s.starpu_running (
        Moves-HasEnded (serve-Follows fuel r b s w e).1
          (phase_of-HasEnded b.starpu_init_once b.starpu_init_status b.starpu_running once still))
