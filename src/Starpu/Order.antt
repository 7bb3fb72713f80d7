-- ===== src/Starpu/Order.antt =====
-- The executions that the data consistency of StarPU permits, and the order of submission.
use mathlib.Core.Path.{fun_ext, ◌≡⟨◌⟩◌, ◌∎}
use tangor.Base.{
  ◌≡◌, refl, sym, ap, subst, true, false, List, [], ◌∷◌, ◌++◌, map, Option, none, some, ◌>>=◌,
  Option-cases, >>=-eq-some, arith, inl, inr,
}
use tangor.Tfhe.{Tfhe}
use tangor.Codelets.{run_codelet}
use tangor.Starpu.{
  Handle, Placed, same, same_comm, among, independent, AllIndependent, Store, update, exec,
  in_order, Run, done, take,
}

module _ (t : Tfhe) where
  -- A write to `h` is not seen through handles other than `h`.
  map-update :
      (s : Store t) (h : Handle) (c : t.Cipher) (ks : List Handle)
      → among h ks ≡ false
      → map (update t s h c) ks ≡ map s ks
  map-update s h c [] e = refl
  map-update s h c (k ∷ ks) e = ground (arith, same_comm h k, map-update s h c ks)

  update_comm :
      (s : Store t) (h k : Handle) (c d : t.Cipher)
      → same h k ≡ false
      → update t (update t s h c) k d ≡ update t (update t s k d) h c
  update_comm s h k c d e = fun_ext λ j. ground arith

  -- Two independent tasks may be exchanged.
  exec_comm :
      (p q : Placed) (s : Store t)
      → independent p.0 q.0 ≡ true
      → (exec t p s >>= exec t q) ≡ (exec t q s >>= exec t p)
  unfolding exec
  exec_comm (a, v) (b, w) s e =
      let qa = λ (c : t.Cipher). map-update s a.output c b.inputs (ground arith) in
      let pb = λ (c : t.Cipher). map-update s b.output c a.inputs (ground arith) in
      elim (Option-cases (run_codelet t v a.codelet (map s a.inputs))) [
        | inl x ↦ elim (Option-cases (run_codelet t w b.codelet (map s b.inputs))) [
          | inl y ↦ ground arith
          | inr (d, y) ↦ rw (x, y, pb d, x)
        ]
        | inr (c, x) ↦ elim (Option-cases (run_codelet t w b.codelet (map s b.inputs))) [
          | inl y ↦ rw (x, y, qa c, y)
          | inr (d, y) ↦
              rw (x, y, qa c, y, pb d, x)
                (ap some (update_comm s a.output b.output c d (ground arith)))
        ]
      ]

  >>=_assoc :
      {A B C : Type 0} (m : Option A) (f : A → Option B) (g : B → Option C)
      → ((m >>= f) >>= g) ≡ (m >>= λ a. f a >>= g)
  >>=_assoc none f g = refl
  >>=_assoc (some a) f g = refl

  -- A task that no earlier one conflicts with may go first.
  in_order-take :
      (before after : List Placed) (x : Placed) (s : Store t)
      → AllIndependent before x.0
      → in_order t (before ++ x ∷ after) s ≡ (exec t x s >>= in_order t (before ++ after))
  unfolding in_order
  in_order-take [] after x s h = refl
  in_order-take (p ∷ ps) after x s h =
      in_order t (p ∷ ps ++ x ∷ after) s
      ≡⟨ ap (◌>>=◌ (exec t p s)) (fun_ext λ s'. in_order-take ps after x s' h.1) ⟩
        (exec t p s >>= λ s'. exec t x s' >>= in_order t (ps ++ after))
      ≡⟨ sym (>>=_assoc (exec t p s) (exec t x) (in_order t (ps ++ after))) ⟩
        ((exec t p s >>= exec t x) >>= in_order t (ps ++ after))
      ≡⟨ ap (λ m. m >>= in_order t (ps ++ after)) (exec_comm p x s h.0) ⟩
        ((exec t x s >>= exec t p) >>= in_order t (ps ++ after))
      ≡⟨ >>=_assoc (exec t x s) (exec t p) (in_order t (ps ++ after)) ⟩
        (exec t x s >>= in_order t (p ∷ ps ++ after)) ∎

  -- Every execution that StarPU may choose ends in the store of the submission order.
  pub Run-in_order :
      (pending : List Placed) (s s' : Store t) → Run t pending s s' → in_order t pending s ≡ some s'
  unfolding in_order
  Run-in_order _ s _ (done _) = refl
  Run-in_order _ s s' (take before after x e free ran rest) =
      rw (e, in_order-take before after x s free, ran) (Run-in_order _ _ s' rest)

  -- And the submission order is one of them.
  pub in_order-Run :
      (pending : List Placed) (s s' : Store t) → in_order t pending s ≡ some s' → Run t pending s s'
  unfolding in_order
  in_order-Run [] s s' h = subst (Run t [] s) (cc) (done s)
  in_order-Run (p ∷ ps) s s' h =
      let (s₁, ran, rest) = >>=-eq-some (exec t p s) (in_order t ps) h in
      take [] ps p refl tt ran (in_order-Run ps s₁ s' rest)
