-- ===== src/Hoge/Loops.antt =====
-- Proof rules for the loop nests of src/hogewrapper.cpp that fill a memory.
use tangor.Base.{ℕ, zero, suc, ◌<◌, ◌≡◌, refl, ◌∙◌, ◌⊎◌, inl, inr, arith, ◌==◌, ==→eq, Bool-cases}
use tangor.Hoge.Layout.{for_below}

module _ {A W : Type 0} (a : A) (w : W) where
  -- The element `a` gets the value `w`.
  abbrev pub Writes : ((A → W) → A → W) → Type 0
  Writes body = (memory : A → W) → body memory a ≡ w

  -- The element `a` gets the value `w` or stays.
  abbrev pub MayWrite : ((A → W) → A → W) → Type 0
  MayWrite body = (memory : A → W) → (body memory a ≡ w) ⊎ (body memory a ≡ memory a)

  pub for_below-MayWrite :
      (n : ℕ) (body : ℕ → (A → W) → A → W)
      → ((c : ℕ) → c < n → MayWrite (body c))
      → MayWrite (for_below n body)
  unfolding for_below
  for_below-MayWrite zero body may memory = inr refl
  for_below-MayWrite (suc n) body may memory =
      let before = for_below-MayWrite n body (λ c lt. may c (omega arith)) memory in
      elim (may n (omega arith) (for_below n body memory)) [
        | inl e ↦ inl e
        | inr e ↦ elim before [ inl d ↦ inl (e ∙ d) | inr d ↦ inr (e ∙ d) ]
      ]

  for_below-Writes :
      (n c : ℕ) (body : ℕ → (A → W) → A → W)
      → ((c : ℕ) → c < n → MayWrite (body c))
      → c < n
      → Writes (body c)
      → Writes (for_below n body)
  unfolding for_below
  for_below-Writes zero c body may lt writes memory = absurd (omega arith)
  for_below-Writes (suc n) c body may lt writes memory = elim (Bool-cases (c == n)) [
    | inl e ↦ rw (==→eq c n e) at (writes (for_below n body memory))
    | inr e ↦
        let smaller = λ (b : ℕ) (l : b < n). may b (omega arith) in
        let before = for_below-Writes n c body smaller (ground arith) writes memory in
        elim (may n (omega arith) (for_below n body memory)) [ inl d ↦ d | inr d ↦ d ∙ before ]
  ]

  -- A loop body that stores nothing wrong at `a` where `P` holds.
  abbrev pub Careful : Type 0 → Type 0
  Careful P = (body : (A → W) → A → W) × (P → MayWrite body)

  abbrev pub loop : {P : Type 0} → ℕ → (ℕ → Careful P) → Careful P
  loop n body = (
    for_below n λ c. (body c).0,
    λ p. for_below-MayWrite n (λ c. (body c).0) (λ c lt. (body c).1 p),
  )

  -- A loop whose body relies on the bounds of its counter.
  abbrev pub loop_below : (n : ℕ) → ((c : ℕ) → Careful (c < n)) → Careful (Unit {0})
  loop_below n body = (
    for_below n λ c. (body c).0,
    λ p. for_below-MayWrite n (λ c. (body c).0) (λ c lt. (body c).1 lt),
  )

  pub loop-Writes :
      {P : Type 0} (p : P) (n c : ℕ) (body : ℕ → Careful P)
      → c < n
      → Writes (body c).0
      → Writes (loop n body).0
  loop-Writes p n c body lt writes =
      for_below-Writes n c (λ c. (body c).0) (λ c lt. (body c).1 p) lt writes

  pub loop_below-Writes :
      (n c : ℕ) (body : (c : ℕ) → Careful (c < n))
      → c < n
      → Writes (body c).0
      → Writes (loop_below n body).0
  loop_below-Writes n c body lt writes =
      for_below-Writes n c (λ c. (body c).0) (λ c lt. (body c).1 lt) lt writes
