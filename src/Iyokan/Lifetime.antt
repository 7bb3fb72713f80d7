-- ===== src/Iyokan/Lifetime.antt =====
-- The lifetime of the runtime in src/iyokan-starpu-codelets.cpp: `prepareIyokanStarpu`
-- (`ensure_starpu`) and `shutdownIyokanStarpu`.
use tangor.Base.{
  ℕ, ◌≡◌, refl, ap, ◌∙◌, true, false, ◌==◌, ==→eq, none, some, arith, Option-cases, Bool-cases, inl,
  inr, if◌then◌else◌,
}
use tangor.StarpuApi.{StarpuApi}
use tangor.Iyokan.Rules.{Ends, ends, stops, Ends-then_do, Ends-if, Ends-value}
use tangor.Iyokan.{
  value, is_zero, Backend, complete_all, init_once, ensure_starpu_runtime, claim_key, ensure_starpu,
  shutdown_iyokan_starpu,
}

module _ (api : StarpuApi) where
  -- StarPU was initialized, and the runtime has a key.
  pub record IsPrepared (key : ℕ) (b : Backend api) : Type 0 where
    pub once : b.starpu_init_once ≡ true
    pub status : is_zero b.starpu_init_status ≡ true
    pub owner : b.current_eval_key ≡ some key

  claim_key-Ends :
      (key : ℕ) (b : Backend api)
      → b.starpu_init_once ≡ true
      → is_zero b.starpu_init_status ≡ true
      → Ends (λ _ s. IsPrepared key s) (λ _. Unit {0}) (claim_key api key b)
  unfolding claim_key
  claim_key-Ends key b once status = elim (Option-cases b.current_eval_key) [
    | inl p ↦ rw (claim_key, p) (ends (record { once = once; status = status; owner = refl }))
    | inr (k, p) ↦
        rw (claim_key, p)
          (Ends-if (k == key)
            (λ e.
              ends (record { once = once; status = status; owner = ground (arith, ==→eq k key e) }))
            (λ e. stops tt))
  ]

  -- The runtime after `std::call_once`.
  abbrev started : Backend api → Backend api
  started b = if b.starpu_init_once then b else init_once api b

  started-once : (b : Backend api) → (started b).starpu_init_once ≡ true
  unfolding init_once
  started-once b = elim (Bool-cases b.starpu_init_once) [
    | inl e ↦ rw (started, e) refl
    | inr e ↦ rw (started, e) refl
  ]

  ensure_starpu-Ends :
      (key : ℕ) (b : Backend api)
      → Ends (λ _ s. IsPrepared key s) (λ _. Unit {0}) (ensure_starpu api key b)
  unfolding ensure_starpu ensure_starpu_runtime
  ensure_starpu-Ends key b =
      Ends-then_do {P = λ _ s. (s.starpu_init_once ≡ true) × (is_zero s.starpu_init_status ≡ true)}
        (Ends-if (is_zero (started b).starpu_init_status) (λ e. ends (started-once b, e))
          (λ e. stops tt))
        λ _ s p. claim_key-Ends key s p.0 p.1

  prepared :
      (key : ℕ) (b b' : Backend api) → ensure_starpu api key b ≡ (value tt, b') → IsPrepared key b'
  prepared key b b' e = Ends-value tt b' (ensure_starpu-Ends key b) e

  pub shutdown-stopped :
      (b : Backend api)
      → b.starpu_running ≡ true
      → (shutdown_iyokan_starpu api b).starpu_running ≡ false
  unfolding shutdown_iyokan_starpu
  shutdown-stopped b e = rw (shutdown_iyokan_starpu, e) refl

  pub shutdown-once :
      (b : Backend api)
      → ((shutdown_iyokan_starpu api b).starpu_init_once ≡ b.starpu_init_once)
        × ((shutdown_iyokan_starpu api b).starpu_init_status ≡ b.starpu_init_status)
  unfolding shutdown_iyokan_starpu complete_all
  shutdown-once b = elim (Bool-cases b.starpu_running) [
    | inl e ↦ rw (shutdown_iyokan_starpu, e) (refl, refl)
    | inr e ↦ rw (shutdown_iyokan_starpu, e) (refl, refl)
  ]

  shutdown-key :
      (b : Backend api)
      → b.starpu_running ≡ true
      → (shutdown_iyokan_starpu api b).current_eval_key ≡ none
  unfolding shutdown_iyokan_starpu complete_all
  shutdown-key b e = rw (shutdown_iyokan_starpu, e) refl

  ensure_starpu-none :
      (key : ℕ) (s : Backend api)
      → s.starpu_init_once ≡ true
      → is_zero s.starpu_init_status ≡ true
      → s.current_eval_key ≡ none
      → ensure_starpu api key s ≡ (value tt, record s { current_eval_key = some key })
  unfolding ensure_starpu ensure_starpu_runtime claim_key
  ensure_starpu-none key s once status free = rw (once, status, free) refl

  -- After a shutdown the runtime accepts any key without starting StarPU again: nothing but the key
  -- changes, and StarPU stays stopped.
  pub ensure_starpu-shutdown :
      (key key' : ℕ) (b b' : Backend api)
      → ensure_starpu api key b ≡ (value tt, b')
      → b'.starpu_running ≡ true
      → (ensure_starpu api key' (shutdown_iyokan_starpu api b')
          ≡ (value tt, record (shutdown_iyokan_starpu api b') { current_eval_key = some key' }))
        × ((shutdown_iyokan_starpu api b').starpu_running ≡ false)
  ensure_starpu-shutdown key key' b b' e running =
      let p = prepared key b b' e in
      let (once, status) = shutdown-once b' in
      (
        ensure_starpu-none key' (shutdown_iyokan_starpu api b') (once ∙ p.once)
            (ap is_zero status ∙ p.status) (shutdown-key b' running),
        shutdown-stopped b' running,
      )
