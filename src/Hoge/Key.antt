-- ===== src/Hoge/Key.antt =====
-- Where `HOGEinit` of src/hogewrapper.cpp puts the words of the evaluation key.
use tangor.Base.{ℕ, ◌+◌, ◌*◌, ◌/◌, ◌%◌, ◌<◌, ◌≡◌, refl, sym, true, inl, inr, arith, Bool-cases, ◌∙◌}
use tangor.Hoge.Loops.{Writes, MayWrite, Careful, loop, loop_below, loop-Writes, loop_below-Writes}
use tangor.Hoge.Layout.{
  iksknumbus, totaliksknumbus, bknumbus, buswords, wordsinbus, numcycle, iksk_word,
  fill_ikskaligned, bkntt_bus, bkntt_word, fill_bknttaligned, IkskPlace, BknttPlace, store_iksk,
  store_bkntt, same_iksk, same_bkntt,
}

abbrev element : ℕ → ℕ → ℕ → ℕ → ℕ → ℕ → IkskPlace
element i j k l m n = record { bus = m; i = i; j = j; k = k; group = n; place = l }

module _ {W : Type 0} (digits : ℕ) (iksk : ℕ → ℕ → ℕ → ℕ → W) where
  abbrev Kept : IkskPlace → W
  Kept p = iksk p.i p.j p.k (iksk_word (wordsinbus digits) p.bus p.group p.place)

  same_iksk-Kept : (p q : IkskPlace) → same_iksk p q ≡ true → Kept p ≡ Kept q
  same_iksk-Kept p q e = grind arith

  store_iksk-MayWrite : (p q : IkskPlace) → MayWrite q (Kept q) (store_iksk p (Kept p))
  store_iksk-MayWrite p q memory = elim (Bool-cases (same_iksk p q)) [
    | inl e ↦ inl (rw e (same_iksk-Kept p q e))
    | inr e ↦ inr (rw e refl)
  ]

  same_iksk_refl : (q : IkskPlace) → same_iksk q q ≡ true
  same_iksk_refl q = grind arith

  store_iksk-Writes : (q : IkskPlace) → Writes q (Kept q) (store_iksk q (Kept q))
  store_iksk-Writes q memory = rw (same_iksk_refl q) refl

  abbrev put : (q : IkskPlace) → IkskPlace → Careful q (Kept q) (Unit {0})
  put q p = (store_iksk p (Kept p), λ any. store_iksk-MayWrite p q)

  -- Whatever the memory held, the loops leave at each place of `ikskaligned` the word of the
  -- key-switching key that the place stands for.
  pub fill_ikskaligned-Kept :
      (dim t base : ℕ) (memory : IkskPlace → W) (q : IkskPlace)
      → q.i < dim
      → q.j < t
      → q.k < base
      → q.place < wordsinbus digits
      → q.bus < iksknumbus
      → q.group < totaliksknumbus / iksknumbus
      → fill_ikskaligned digits dim t base iksk memory q
        ≡ iksk q.i q.j q.k (iksk_word (wordsinbus digits) q.bus q.group q.place)
  unfolding fill_ikskaligned
  fill_ikskaligned-Kept dim t base memory q li lj lk ll lm ln =
      let v = Kept q in
      let groups = totaliksknumbus / iksknumbus in
      let l1 = λ (i j k l m : ℕ). loop q v groups λ n. put q (element i j k l m n) in
      let l2 = λ (i j k l : ℕ). loop q v iksknumbus (l1 i j k l) in
      let l3 = λ (i j k : ℕ). loop q v (wordsinbus digits) (l2 i j k) in
      let l4 = λ (i j : ℕ). loop q v base (l3 i j) in
      let l5 = λ (i : ℕ). loop q v t (l4 i) in
      let w1 =
        loop-Writes q v tt groups q.group (λ n. put q (element q.i q.j q.k q.place q.bus n)) ln
          (store_iksk-Writes q) in
      let w2 = loop-Writes q v tt iksknumbus q.bus (l1 q.i q.j q.k q.place) lm w1 in
      let w3 = loop-Writes q v tt (wordsinbus digits) q.place (l2 q.i q.j q.k) ll w2 in
      let w4 = loop-Writes q v tt base q.k (l3 q.i q.j) lk w3 in
      let w5 = loop-Writes q v tt t q.j (l4 q.i) lj w4 in loop-Writes q v tt dim q.i l5 li w5 memory

module _ {W : Type 0} (bkntt : ℕ → ℕ → ℕ → ℕ → W) where
  abbrev Held : BknttPlace → W
  Held q = bkntt q.i q.l (q.bus / 4) (bkntt_word (q.bus % 4) q.cycle q.word)

  same_bkntt-Held : (p q : BknttPlace) → same_bkntt p q ≡ true → Held p ≡ Held q
  same_bkntt-Held p q e = grind arith

  -- The store of the loop body.
  abbrev place : ℕ → ℕ → ℕ → ℕ → ℕ → ℕ → BknttPlace
  place k bus i l cycle word = record {
    bus = bkntt_bus k bus;
    i = i;
    l = l;
    cycle = cycle;
    word = word;
  }

  place-Held :
      (k bus i l cycle word : ℕ)
      → bus < 4
      → Held (place k bus i l cycle word) ≡ bkntt i l k (bkntt_word bus cycle word)
  unfolding bkntt_bus
  place-Held k bus i l cycle word lt =
      let e : (k * 8 / 2 + bus) / 4 ≡ k = omega arith in
      let d : (k * 8 / 2 + bus) % 4 ≡ bus = omega arith in rw (e, d) refl

  store_bkntt-MayWrite :
      (q : BknttPlace) (k bus i l cycle word : ℕ)
      → bus < 4
      → MayWrite q
          (Held q)
          (store_bkntt (place k bus i l cycle word) (bkntt i l k (bkntt_word bus cycle word)))
  store_bkntt-MayWrite q k bus i l cycle word lt memory =
      let p = place k bus i l cycle word in
      elim (Bool-cases (same_bkntt p q)) [
        | inl e ↦ inl (rw e (sym (place-Held k bus i l cycle word lt) ∙ same_bkntt-Held p q e))
        | inr e ↦ inr (rw e refl)
      ]

  store_bkntt-Writes :
      (q : BknttPlace)
      → Writes q
          (Held q)
          (store_bkntt (place (q.bus / 4) (q.bus % 4) q.i q.l q.cycle q.word) (Held q))
  unfolding bkntt_bus
  store_bkntt-Writes q memory =
      let p = place (q.bus / 4) (q.bus % 4) q.i q.l q.cycle q.word in
      let e : same_bkntt p q ≡ true = grind arith in rw e refl

  abbrev put_bkntt :
      (q : BknttPlace) (k bus i l cycle word : ℕ) → Careful q (Held q) (bus < bknumbus / 2)
  put_bkntt q k bus i l cycle word = (
    store_bkntt (place k bus i l cycle word) (bkntt i l k (bkntt_word bus cycle word)),
    store_bkntt-MayWrite q k bus i l cycle word,
  )

  -- Whatever the memory held, the loops leave at each place of `bknttaligned` the word of the
  -- bootstrapping key that the place stands for.
  pub fill_bknttaligned-Held :
      (dim rows : ℕ) (memory : BknttPlace → W) (q : BknttPlace)
      → q.bus < bknumbus
      → q.i < dim
      → q.l < rows
      → q.cycle < numcycle
      → q.word < buswords
      → fill_bknttaligned dim rows bkntt memory q
        ≡ bkntt q.i q.l (q.bus / 4) (bkntt_word (q.bus % 4) q.cycle q.word)
  unfolding fill_bknttaligned
  fill_bknttaligned-Held dim rows memory q lb li ll lc lw =
      let v = Held q in
      let high : q.bus / 4 < 2 = omega arith in
      let low : q.bus % 4 < 4 = omega arith in
      let l1 = λ (k bus i l cycle : ℕ). loop q v buswords (put_bkntt q k bus i l cycle) in
      let l2 = λ (k bus i l : ℕ). loop q v numcycle (l1 k bus i l) in
      let l3 = λ (k bus i : ℕ). loop q v rows (l2 k bus i) in
      let l4 = λ (k bus : ℕ). loop q v dim (l3 k bus) in
      let l5 = λ (k : ℕ). loop_below q v (bknumbus / 2) (l4 k) in
      let inner = put_bkntt q (q.bus / 4) (q.bus % 4) q.i q.l q.cycle in
      let w1 = loop-Writes q v low buswords q.word inner lw (store_bkntt-Writes q) in
      let w2 = loop-Writes q v low numcycle q.cycle (l1 (q.bus / 4) (q.bus % 4) q.i q.l) lc w1 in
      let w3 = loop-Writes q v low rows q.l (l2 (q.bus / 4) (q.bus % 4) q.i) ll w2 in
      let w4 = loop-Writes q v low dim q.i (l3 (q.bus / 4) (q.bus % 4)) li w3 in
      let w5 = loop_below-Writes q v (bknumbus / 2) (q.bus % 4) (l4 (q.bus / 4)) low w4 in
      loop-Writes q v tt 2 (q.bus / 4) l5 high w5 memory
