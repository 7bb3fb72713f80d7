-- ===== src/Offload/Cmux.antt =====
-- The CMUX of Iyokan in src/iyokan-starpu-codelets.cpp and src/iyokan-cufhepp-starpu.cu, in memory.
use tangor.Base.{
  ℕ, ◌≡◌, ◌≢◌, refl, sym, ap, subst, [], ◌∷◌, Option, some, ◌==◌, ==→eq, ==→ne, Holds-if,
}
use tangor.Codelets.{Worker, cpu_worker, cuda_worker}
use tangor.StarpuApi.{starpu_w, starpu_r, starpu_rw}
use tangor.Offload.{
  Ram, Slot, word, local_copy, copied, CmuxTask, cmux_fft_codelet, cmux_fft_in_place_true_codelet,
  cmux_fft_in_place_false_codelet, trlwe, trgsw, cmux_task, run_cmux,
}

-- What TFHEpp and cuFHEpp promise: `mux` is the result on a worker. On a CPU the output is none of the inputs; on a
-- GPU it may be one. Nothing else in memory changes.
pub record RamLaws (r : Ram) : Type 0 where
  pub mux : Worker → r.Trgsw → r.Trlwe → r.Trlwe → r.Trlwe
  pub fft_result :
      (s : r.Trgsw) (o a b : Slot) (words : Slot → r.Trlwe)
      → a ≢ o
      → b ≢ o
      → r.cmux_fft s o a b words o ≡ mux cpu_worker s (words a) (words b)
  pub fft_others :
      (s : r.Trgsw) (o a b x : Slot) (words : Slot → r.Trlwe)
      → x ≢ o
      → r.cmux_fft s o a b words x ≡ words x
  pub kernel_result :
      (s : r.Trgsw) (o a b : Slot) (words : Slot → r.Trlwe)
      → (a ≡ o → b ≢ o)
      → r.cmux_kernel s o a b words o ≡ mux cuda_worker s (words a) (words b)
  pub kernel_others :
      (s : r.Trgsw) (o a b x : Slot) (words : Slot → r.Trlwe)
      → x ≢ o
      → r.cmux_kernel s o a b words x ≡ words x

word-injective : (a b : ℕ) → word a ≡ word b → a ≡ b
word-injective a b e = ap address e
  where
    address : Slot → ℕ
    address (word n) = n
    address local_copy = 0

abbrev true_task : ℕ → ℕ → ℕ → CmuxTask
true_task o s b = record {
  codelet = cmux_fft_in_place_true_codelet;
  buffers = (starpu_rw, trlwe o) ∷ (starpu_r, trgsw s) ∷ (starpu_r, trlwe b) ∷ [];
}

abbrev false_task : ℕ → ℕ → ℕ → CmuxTask
false_task o s a = record {
  codelet = cmux_fft_in_place_false_codelet;
  buffers = (starpu_rw, trlwe o) ∷ (starpu_r, trgsw s) ∷ (starpu_r, trlwe a) ∷ [];
}

abbrev plain_task : ℕ → ℕ → ℕ → ℕ → CmuxTask
plain_task o s a b = record {
  codelet = cmux_fft_codelet;
  buffers =
      (starpu_w, trlwe o) ∷ (starpu_r, trgsw s) ∷ (starpu_r, trlwe a) ∷ (starpu_r, trlwe b) ∷ [];
}

module _ {r : Ram} (laws : RamLaws r) (selects : ℕ → r.Trgsw) (words : Slot → r.Trlwe) where
  -- The run succeeds, `o` has the CMUX of what the inputs had, and no other word changed.
  abbrev pub Muxes : Worker → ℕ → ℕ → ℕ → ℕ → Option (Slot → r.Trlwe) → Type 0
  Muxes w o s a b result =
      (after : Slot → r.Trlwe) × (result ≡ some after)
      × (after (word o) ≡ laws.mux w (selects s) (words (word a)) (words (word b)))
      × ((n : ℕ) → n ≢ o → after (word n) ≡ words (word n))

  apart : (a b : ℕ) → a ≢ b → word a ≢ word b
  apart a b ne e = ne (word-injective a b e)

  abbrev RunsAs : Worker → ℕ → ℕ → ℕ → ℕ → CmuxTask → Type 0
  RunsAs w o s a b task = Muxes w o s a b (run_cmux r w task.codelet selects task.buffers words)

  in_place_true : (w : Worker) (o s b : ℕ) → o ≢ b → RunsAs w o s o b (true_task o s b)
  unfolding run_cmux
  in_place_true cpu_worker o s b ne = (
    _,
    refl,
    laws.fft_result (selects s) (word o) local_copy (word b) (copied r o words) (λ e. cc)
        (apart b o λ e. ne (sym e)),
    λ n other.
        laws.fft_others (selects s) (word o) local_copy (word b) (word n) _ (apart n o other),
  )
  in_place_true cuda_worker o s b ne = (
    _,
    refl,
    laws.kernel_result (selects s) (word o) (word o) (word b) words
        (λ _. apart b o λ e. ne (sym e)),
    λ n other.
        laws.kernel_others (selects s) (word o) (word o) (word b) (word n) _ (apart n o other),
  )

  in_place_false : (w : Worker) (o s a : ℕ) → o ≢ a → RunsAs w o s a o (false_task o s a)
  unfolding run_cmux
  in_place_false cpu_worker o s a ne = (
    _,
    refl,
    laws.fft_result (selects s) (word o) (word a) local_copy (copied r o words)
        (apart a o λ e. ne (sym e)) (λ e. cc),
    λ n other.
        laws.fft_others (selects s) (word o) (word a) local_copy (word n) _ (apart n o other),
  )
  in_place_false cuda_worker o s a ne = (
    _,
    refl,
    laws.kernel_result (selects s) (word o) (word a) (word o) words
        (λ e. absurd (apart a o (λ d. ne (sym d)) e)),
    λ n other.
        laws.kernel_others (selects s) (word o) (word a) (word o) (word n) _ (apart n o other),
  )

  plain : (w : Worker) (o s a b : ℕ) → o ≢ a → o ≢ b → RunsAs w o s a b (plain_task o s a b)
  unfolding run_cmux
  plain cpu_worker o s a b na nb = (
    _,
    refl,
    laws.fft_result (selects s) (word o) (word a) (word b) words (apart a o λ e. na (sym e))
        (apart b o λ e. nb (sym e)),
    λ n other. laws.fft_others (selects s) (word o) (word a) (word b) (word n) _ (apart n o other),
  )
  plain cuda_worker o s a b na nb = (
    _,
    refl,
    laws.kernel_result (selects s) (word o) (word a) (word b) words
        (λ e. absurd (apart a o (λ d. na (sym d)) e)),
    λ n other.
        laws.kernel_others (selects s) (word o) (word a) (word b) (word n) _ (apart n o other),
  )

  -- Under what TFHEpp and cuFHEpp promise, where `CMUXFFT` needs an output apart from its inputs: the task of a
  -- CMUX whose output is none of its data inputs, or one of them but not both, leaves in it, on a CPU and on a CUDA worker,
  -- the CMUX of the values that the inputs had before the task, and changes no other word.
  pub run_cmux-cmux_task :
      (w : Worker) (output select when_true when_false : ℕ)
      → (output ≡ when_true → output ≢ when_false)
      → Muxes w output select when_true when_false (
          run_cmux r w
            (cmux_task output select when_true when_false).codelet
            selects
            (cmux_task output select when_true when_false).buffers
            words)
  unfolding cmux_task
  run_cmux-cmux_task w o s a b alias =
      Holds-if (RunsAs w o s a b) (o == a) _ _
        (λ e.
          let same = ==→eq o a e in
          subst (λ (n : ℕ). RunsAs w o s n b (true_task o s b)) same
            (in_place_true w o s b (alias same)))
        λ e.
          Holds-if (RunsAs w o s a b) (o == b) _ _
            (λ e'.
              subst (λ (n : ℕ). RunsAs w o s a n (false_task o s a)) (==→eq o b e')
                (in_place_false w o s a (==→ne o a e)))
            λ e'. plain w o s a b (==→ne o a e) (==→ne o b e')
