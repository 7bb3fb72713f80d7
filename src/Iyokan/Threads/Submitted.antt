-- ===== src/Iyokan/Threads/Submitted.antt =====
-- The order in which threads that call src/iyokan-starpu-codelets.cpp submit their calls.
use mathlib.Core.List.{map-append}
use tangor.Base.{◌≡◌, refl, sym, ap, subst, ◌∙◌, List, [], ◌∷◌, ◌++◌, map, Option, none, some}
use tangor.StarpuApi.{StarpuApi}
use tangor.Iyokan.{Backend}
use tangor.Iyokan.Calls.{Call}
use tangor.Iyokan.Threads.{
  Thread, ready, ThreadStep, begins, registers, submits, yields, synchronizes, captures, Runs,
  rests, runs_on, runs_call, unsubmitted, Interleaves, nothing_taken, takes,
}

module _ {api : StarpuApi} {L : Type 0} (call : L → Call api) where
  -- What a step takes of the calls that a thread has not submitted.
  abbrev Takes : Option L → List L → List L → Type 0
  Takes none ps qs = ps ≡ qs
  Takes (some c) ps qs = ps ≡ c ∷ qs

  ThreadStep-Takes :
      {t u : Thread call} {b s : Backend api} {o : Option L}
      → ThreadStep call t b o u s
      → Takes o (unsubmitted call t) (unsubmitted call u)
  ThreadStep-Takes (begins e) = refl
  ThreadStep-Takes (registers e) = refl
  ThreadStep-Takes (submits e) = refl
  ThreadStep-Takes yields = refl
  ThreadStep-Takes (synchronizes finished e) = refl
  ThreadStep-Takes captures = refl

  -- The threads before their first calls.
  abbrev pub all_ready : List (List L) → List (Thread call)
  all_ready = map λ (cs : List L). ready cs

  pub Runs-Interleaves :
      {ts us : List (Thread call)} {b z : Backend api} {order : List L}
      → Runs call ts b order us z
      → Interleaves (map (unsubmitted call) ts) order (map (unsubmitted call) us)
  Runs-Interleaves rests = nothing_taken
  Runs-Interleaves (runs_on {ts = ts} {us = us} {order = order} before after t u e step rest) =
      let same : map (unsubmitted call) (before ++ u ∷ after) ≡ map (unsubmitted call) ts =
        map-append (unsubmitted call) before (u ∷ after)
        ∙ ap (λ (p : List L). map (unsubmitted call) before ++ p ∷ map (unsubmitted call) after)
            (sym (ThreadStep-Takes step))
        ∙ sym (map-append (unsubmitted call) before (t ∷ after))
        ∙ ap (map (unsubmitted call)) (sym e) in
      subst (λ (ps : List (List L)). Interleaves ps order (map (unsubmitted call) us)) same
        (Runs-Interleaves rest)
  Runs-Interleaves (runs_call {us = us} {order = order} before after t u c e step rest) =
      takes (map (unsubmitted call) before) (map (unsubmitted call) after) c (unsubmitted call u)
        (ap (map (unsubmitted call)) e
          ∙ map-append (unsubmitted call) before (t ∷ after)
          ∙ ap (λ (p : List L). map (unsubmitted call) before ++ p ∷ map (unsubmitted call) after)
              (ThreadStep-Takes step))
        (subst (λ (ps : List (List L)). Interleaves ps order (map (unsubmitted call) us))
          (map-append (unsubmitted call) before (u ∷ after)) (Runs-Interleaves rest))

  pub unsubmitted-ready : (ps : List (List L)) → map (unsubmitted call) (all_ready ps) ≡ ps
  unsubmitted-ready [] = refl
  unsubmitted-ready (p ∷ ps) = ap (λ (qs : List (List L)). p ∷ qs) (unsubmitted-ready ps)
