-- ===== src/Regexp/Runs.antt =====
-- What the two searches for a run take: a text that the rest of the pattern lets them take, where there
-- is one, and the lazy search the shortest of these.
use kagents.Prelude.{
  ◌≡◌, ◌≢◌, refl, sym, ap, ◌∙◌, ◌⊎◌, inl, inr, ℕ, String, false, Option, none, some, List, eqb,
  Lacks, ◌<>◌, arith, Bool-cases, Option-cases,
}
use Prim.Native.Char.{Char, code}
use text.Mathlib.TextLemmas.{
  nil-append, cons-append, head-eq_of_cons-eq, tail-eq_of_cons-eq, append-eq-nil_iff,
}
use kagents.Regexp.{Taken, first, start, with_char, greedy, lazy}

abbrev pub IsRun : ℕ → String → Type 0
IsRun stop s = (s ≢ "") × Lacks stop s

start-some :
    (o : Option (List String)) (a : String) (captures : List String)
    → start o ≡ some (a, captures)
    → (a ≡ "") × (o ≡ some captures)
start-some none a captures h = ground arith
start-some (some found) a captures h =
    let e : ◌≡◌ {A = String × List String} ("", found) (a, captures) = cc in
    (sym (ap (λ p. p.0) e), ap (λ p. some p.1) e)

with_char-some :
    (c : Char) (t : Taken) (a : String) (captures : List String)
    → with_char c t ≡ some (a, captures)
    → (a' : String) × (t ≡ some (a', captures)) × (a ≡ String.◌∷◌ c a')
with_char-some c none a captures h = ground arith
with_char-some c (some (a', found)) a captures h =
    let e : ◌≡◌ {A = String × List String} (String.◌∷◌ c a', found) (a, captures) = cc in
    (a', ap (λ p. some (a', p.1)) e, sym (ap (λ p. p.0) e))

pub first-some :
    {A : Type 0} (o other : Option A) {a : A}
    → first o other ≡ some a
    → (o ≡ some a) ⊎ (other ≡ some a)
first-some (some b) other h = inl h
first-some none other h = inr h

module _ (next : String → Option (List String)) (stop : ℕ) where
  -- What a run leaves is what the rest of the pattern is searched in.
  abbrev pub IsSplit : String → String → List String → Type 0
  IsSplit s a captures = (r : String) × (s ≡ a <> r) × IsRun stop a × (next r ≡ some captures)

  -- A run of one character more, or of one.
  cons-IsSplit :
      (c : Char) (s a : String) (captures : List String)
      → eqb (code c) stop ≡ false
      → IsSplit s a captures ⊎ ((a ≡ "") × (next s ≡ some captures))
      → IsSplit (String.◌∷◌ c s) (String.◌∷◌ c a) captures
  unfolding ◌<>◌
  cons-IsSplit c s a captures free (inl (r, e, run, found)) =
      (r, ap (λ x. String.◌∷◌ c x) e ∙ sym (cons-append c a r), (λ h. cc, (free, run.1)), found)
  cons-IsSplit c s a captures free (inr (e, found)) =
      (s, rw (e, cons-append c "" s, nil-append s) refl, (λ h. cc, (free, rw e tt)), found)

  -- The shorter of two splits of a text that begins with `c`.
  uncons-IsSplit :
      (c : Char) (s a : String) (captures : List String)
      → IsSplit (String.◌∷◌ c s) a captures
      → (eqb (code c) stop ≡ false)
        × (((a' : String) × IsSplit s a' captures) ⊎ (next s ≡ some captures))
  unfolding ◌<>◌
  uncons-IsSplit c s String.[] captures (r, e, run, found) = absurd (run.0 refl)
  uncons-IsSplit c s (String.◌∷◌ d a) captures (r, e, run, found) =
      let here = e ∙ cons-append d a r in
      let free = ap (λ x. eqb (code x) stop) (head-eq_of_cons-eq here) ∙ run.1.0 in
      (free, shorter a run.1.1 (tail-eq_of_cons-eq here))
    where
      shorter :
          (a : String)
          → Lacks stop a
          → s ≡ a <> r
          → ((a' : String) × IsSplit s a' captures) ⊎ (next s ≡ some captures)
      shorter String.[] lacks here = inr (ap next (here ∙ nil-append r) ∙ found)
      shorter (String.◌∷◌ x a) lacks here =
          inl (String.◌∷◌ x a, (r, here, ((λ h. cc), lacks), found))

  pub greedy_sound :
      (s a : String) (captures : List String)
      → greedy next stop s ≡ some (a, captures)
      → IsSplit s a captures
  unfolding greedy
  greedy_sound String.[] a captures h = ground arith
  greedy_sound (String.◌∷◌ c s) a captures h = elim (Bool-cases (eqb (code c) stop)) [
    | inl stopped ↦ ground arith
    | inr free ↦
        let (a', found, e) = with_char-some c _ a captures (rw (greedy, free) at h) in
        rw e (
          cons-IsSplit c s a' captures free (elim (first-some _ _ found) [
            | inl longer ↦ inl (greedy_sound s a' captures longer)
            | inr here ↦ inr (start-some (next s) a' captures here)
          ]))
  ]

  pub greedy_complete :
      (s a : String) (captures : List String)
      → IsSplit s a captures
      → (t : String × List String) × (greedy next stop s ≡ some t)
  unfolding greedy ◌<>◌
  greedy_complete String.[] a captures (r, e, run, found) =
      absurd (run.0 (append-eq-nil_iff.0 (sym e)).0)
  greedy_complete (String.◌∷◌ c s) a captures split =
      let (free, rest) = uncons-IsSplit c s a captures split in
      elim rest [
        | inl (a', shorter) ↦
            let (t, found) = greedy_complete s a' captures shorter in rw (free, found) (_, refl)
        | inr here ↦ elim (Option-cases (greedy next stop s)) [
          | inl none_found ↦ rw (free, none_found, here) (_, refl)
          | inr (t, found) ↦ rw (free, found) (_, refl)
        ]
      ]

  pub lazy_sound :
      (s a : String) (captures : List String)
      → lazy next stop s ≡ some (a, captures)
      → IsSplit s a captures
  unfolding lazy
  lazy_sound String.[] a captures h = ground arith
  lazy_sound (String.◌∷◌ c s) a captures h = elim (Bool-cases (eqb (code c) stop)) [
    | inl stopped ↦ ground arith
    | inr free ↦
        let (a', found, e) = with_char-some c _ a captures (rw (lazy, free) at h) in
        rw e (
          cons-IsSplit c s a' captures free (elim (first-some _ _ found) [
            | inl here ↦ inr (start-some (next s) a' captures here)
            | inr longer ↦ inl (lazy_sound s a' captures longer)
          ]))
  ]

  -- Of all the texts that may be taken, `a` is the shortest.
  abbrev pub IsLeastOf : String → String → List String → String → Type 0
  IsLeastOf s a captures r =
      (a' : String)
      → lazy next stop s ≡ some (a, captures)
      → s ≡ a' <> r
      → a' ≢ ""
      → (extra : String) × (a' ≡ a <> extra)

  -- The same where one character more is taken, if any is.
  cons-IsLeastOf :
      (s a r : String) (captures : List String)
      → IsLeastOf s a captures r
      → first (start (next s)) (lazy next stop s) ≡ some (a, captures)
      → (captures' : List String) → next r ≡ some captures'
      → (a' : String) → s ≡ a' <> r
      → (extra : String) × (a' ≡ a <> extra)
  unfolding ◌<>◌
  cons-IsLeastOf s a r captures least taken captures' found a' e = elim (Option-cases (next s)) [
    | inr (captures1, here) ↦
        let (ended, one) = start-some (next s) a captures (rw here (rw here at taken)) in
        (a', rw ended (sym (nil-append a')))
    | inl none_here ↦ longer a' e (rw none_here at taken) none_here
  ]
    where
      longer :
          (a' : String)
          → s ≡ a' <> r
          → lazy next stop s ≡ some (a, captures)
          → next s ≡ none
          → (extra : String) × (a' ≡ a <> extra)
      longer String.[] e later none_here =
          absurd (let e' = ap next (e ∙ nil-append r) ∙ found in ground arith)
      longer (String.◌∷◌ d a') e later none_here = least (String.◌∷◌ d a') later e (λ h. cc)

  pub lazy_least :
      (s a r : String) (captures captures' : List String)
      → next r ≡ some captures'
      → IsLeastOf s a captures r
  unfolding lazy ◌<>◌
  lazy_least String.[] a r captures captures' found a' h e filled = ground arith
  lazy_least (String.◌∷◌ c s) a r captures captures' found String.[] h e filled =
      absurd (filled refl)
  lazy_least (String.◌∷◌ c s) a r captures captures' found (String.◌∷◌ d a') h e filled =
      let same = head-eq_of_cons-eq (e ∙ cons-append d a' r) in
      let rest = tail-eq_of_cons-eq (e ∙ cons-append d a' r) in
      elim (Bool-cases (eqb (code c) stop)) [
        | inl stopped ↦ ground arith
        | inr free ↦
            let (a1, taken, whole) = with_char-some c _ a captures (rw (lazy, free) at h) in
            let (extra, longer) =
              cons-IsLeastOf s a1 r captures (lazy_least s a1 r captures captures' found) taken
                captures' found a' rest in
            (
              extra,
              rw (whole, ← same) (ap (λ x. String.◌∷◌ c x) longer ∙ sym (cons-append c a1 extra)),
            )
      ]

  pub lazy_complete :
      (s a : String) (captures : List String)
      → IsSplit s a captures
      → (t : String × List String) × (lazy next stop s ≡ some t)
  unfolding lazy ◌<>◌
  lazy_complete String.[] a captures (r, e, run, found) =
      absurd (run.0 (append-eq-nil_iff.0 (sym e)).0)
  lazy_complete (String.◌∷◌ c s) a captures split =
      let (free, rest) = uncons-IsSplit c s a captures split in
      elim (Option-cases (next s)) [
        | inr (found_here, here) ↦ rw (free, here) (_, refl)
        | inl none_here ↦ elim rest [
          | inr here ↦ ground arith
          | inl (a', shorter) ↦
              let (t, found) = lazy_complete s a' captures shorter in
              rw (free, none_here, found) (_, refl)
        ]
      ]
