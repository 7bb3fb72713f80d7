-- ===== src/Offload/Tests.antt =====
-- Gates of Iyokan on bits in the clear, and a CMUX whose words are bits.
use tangor.Base.{
  ◌≡◌, ◌≢◌, refl, ap, ==_refl, ==→eq, Bool-cases, inl, inr, arith, Bool, true, false, [], ◌∷◌, none,
  some, length, ◌↔◌, ◌==◌, if◌then◌else◌,
}
use tangor.Tfhe.Clear.{clear, clear_laws}
use tangor.Codelets.{cpu_worker, cuda_worker}
use tangor.StarpuApi.{starpu_r, starpu_rw}
use tangor.Offload.{
  hom_oryn, replacement, codelet_for, run_gate, Ram, Slot, word, local_copy, cmux_task, run_cmux,
  cmux_fft_in_place_false_codelet, trlwe, trgsw,
}
use tangor.Offload.Table.{cmux_fft, mux_wo_se, submitted, registered, interfaces}
use tangor.Offload.Declared.{
  accesses, interfaces_of, is_some, is_mux_wo_se, submitted-declared, submitted-taken,
}
use tangor.Offload.Cmux.{RamLaws, Muxes, run_cmux-cmux_task}
use tangor.Offload.Meaning.{run_gate-replacement, reads, cmux_task-reads}

run_gate-replacement_example :
    (out : Bool) × (run_gate clear cuda_worker
        (codelet_for (replacement hom_oryn))
        (false ∷ false ∷ [])
      ≡ some out)
    × (out ≡ true)
run_gate-replacement_example =
    run_gate-replacement clear_laws cuda_worker hom_oryn false false false false refl refl

abbrev same_slot : Slot → Slot → Bool
same_slot (word m) (word n) = m == n
same_slot local_copy local_copy = true
same_slot _ _ = false

abbrev muxed : Bool → Slot → Slot → Slot → (Slot → Bool) → Slot → Bool
muxed s o a b words x = if same_slot x o then if s then words a else words b else words x

abbrev bits : Ram
bits = record { Trlwe = Bool; Trgsw = Bool; cmux_fft = muxed; cmux_kernel = muxed }

muxed-result :
    (s : Bool) (o a b : Slot) (words : Slot → Bool)
    → muxed s o a b words o ≡ (if s then words a else words b)
muxed-result s (word n) a b words = rw (==_refl n) refl
muxed-result s local_copy a b words = refl

muxed-others :
    (s : Bool) (o a b x : Slot) (words : Slot → Bool) → x ≢ o → muxed s o a b words x ≡ words x
muxed-others s (word n) a b (word m) words ne = elim (Bool-cases (m == n)) [
  | inl e ↦ absurd (ne (ap word (==→eq m n e)))
  | inr e ↦ rw e refl
]
muxed-others s local_copy a b local_copy words ne = absurd (ne refl)
muxed-others s local_copy a b (word m) words ne = refl
muxed-others s (word n) a b local_copy words ne = refl

bits_laws : RamLaws bits
bits_laws = record {
  mux = λ w s a b. if s then a else b;
  fft_result = λ s o a b words _ _. muxed-result s o a b words;
  fft_others = muxed-others;
  kernel_result = λ s o a b words _. muxed-result s o a b words;
  kernel_others = muxed-others;
}

abbrev words : Slot → Bool
words (word n) = n == 1
words local_copy = false

-- The words 1 and 2 are true and false, and the selector 7 is true; the output is the word 2.
run_cmux-cmux_task_example :
    Muxes bits_laws
      (λ n. n == 7)
      words
      cpu_worker
      2
      7
      1
      2
      (run_cmux bits cpu_worker cmux_fft_in_place_false_codelet
        (λ n. n == 7)
        ((starpu_rw, trlwe 2) ∷ (starpu_r, trgsw 7) ∷ (starpu_r, trlwe 1) ∷ [])
        words)
unfolding cmux_task
run_cmux-cmux_task_example =
    run_cmux-cmux_task bits_laws (λ n. n == 7) words cpu_worker 2 7 1 2
      (λ e. absurd (omega (arith, e)))

cmux_task-reads_example : reads 3 (cmux_task 3 7 3 3).buffers ≡ true
cmux_task-reads_example = cmux_task-reads 3 7 3 3

-- With the variable unset, a CMUX into one of its inputs is submitted as the codelet for that declares.
submitted-declared_example :
    (accesses (submitted (cmux_fft 2 7 2 3)).1
      ≡ (registered none (submitted (cmux_fft 2 7 2 3)).0).modes)
    × (length (submitted (cmux_fft 2 7 2 3)).1
        ≡ (registered none (submitted (cmux_fft 2 7 2 3)).0).nbuffers)
    × ((registered none (submitted (cmux_fft 2 7 2 3)).0).on_cuda
        ≡ is_some (registered none (submitted (cmux_fft 2 7 2 3)).0).cuda_func)
submitted-declared_example = submitted-declared none (cmux_fft 2 7 2 3)

submitted-taken_example :
    (interfaces_of (submitted (mux_wo_se 1 2 3 4)).1 ≡ interfaces (submitted (mux_wo_se 1 2 3 4)).0)
    ↔ (is_mux_wo_se (mux_wo_se 1 2 3 4) ≡ false)
submitted-taken_example = submitted-taken (mux_wo_se 1 2 3 4)
