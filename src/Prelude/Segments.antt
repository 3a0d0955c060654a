-- ===== src/Prelude/Segments.antt =====
-- Paths: segments that are joined by a separator and taken apart again.
use Prim.Native.Nat.{ℕ}
use Prim.Native.String
use Prim.Native.String.{String}
use Prim.Native.Char.{Char, code}
use mathlib.Core.Path.{◌≡◌, refl, ap, ◌∙◌, sym}
use mathlib.Core.Logic.{◌≢◌, inl, inr}
use mathlib.Core.Bool.{Bool, true, false}
use mathlib.Core.Option.{none, some}
use mathlib.Core.List.{List, [], ◌∷◌}
use text.Mathlib.TextEquality.{eq_iff}
use text.Mathlib.TextLemmas.{nil-append, append-nil, cons-append}
use text.Mathlib.TextPositions.{starts_with-append, slice-append_right, len-append}
use kagents.Prelude.Tests.{Bool-cases, if◌then◌else◌, eqb}
use kagents.Prelude.Text.{Lacks, ◌<>◌, ◌==◌, join, trim_prefix}
use kagents.Prelude.Lists.{All}
use kagents.Prelude.Cuts.{
  trim_char, trim_char_left, trim_char_right, after_prefix, after_prefix-append,
}
use kagents.Prelude.Splits.{split, split-append, split_one}

-- A text that is not empty and lacks the separator.
abbrev pub IsSegment : ℕ → String → Type 0
IsSegment stop s = (s ≢ "") × Lacks stop s

pub trim_prefix-append : (p r : String) → trim_prefix (p <> r) p ≡ r
unfolding trim_prefix ◌<>◌
trim_prefix-append p r = rw (starts_with-append p r) (
    ap (λ k. String.slice (String.◌++◌ p r) (String.len p) k) (len-append p r)
    ∙ slice-append_right p r)

-- The other end of a text that stays as it is.
abbrev IsTrimmed : ℕ → String → Type 0
IsTrimmed stop s = (trim_char_right stop s ≡ s) × (s ≢ "")

trim_char_right-Lacks : (stop : ℕ) (s : String) → Lacks stop s → trim_char_right stop s ≡ s
unfolding trim_char_right
trim_char_right-Lacks stop String.[] h = refl
trim_char_right-Lacks stop (String.◌∷◌ c s) h =
    rw (h.0) (ap (λ x. String.◌∷◌ c x) (trim_char_right-Lacks stop s h.1))

trim_char_right-cons :
    (stop : ℕ) (c : Char) (s : String)
    → IsTrimmed stop s
    → trim_char_right stop (String.◌∷◌ c s) ≡ String.◌∷◌ c s
unfolding trim_char_right
trim_char_right-cons stop c s (same, filled) = elim (Bool-cases (s == "")) [
  | inl blank ↦ absurd (filled ((eq_iff s "").0 blank))
  | inr some_text ↦ elim (Bool-cases (eqb (code c) stop)) [
    | inl slash ↦ rw (same, some_text, slash) refl
    | inr other ↦ rw (same, other) refl
  ]
]

IsTrimmed-append : (stop : ℕ) (a b : String) → IsTrimmed stop b → IsTrimmed stop (a <> b)
unfolding ◌<>◌
IsTrimmed-append stop String.[] b h = rw (nil-append b) h
IsTrimmed-append stop (String.◌∷◌ c a) b h =
    let rest = IsTrimmed-append stop a b h in
    rw (cons-append c a b) (trim_char_right-cons stop c (a <> b) rest, λ h. cc)

trim_char_left-Segment :
    (stop : ℕ) (a b : String) → IsSegment stop a → trim_char_left stop (a <> b) ≡ a <> b
unfolding trim_char_left ◌<>◌
trim_char_left-Segment stop String.[] b h = absurd (h.0 refl)
trim_char_left-Segment stop (String.◌∷◌ c a) b h =
    rw (cons-append c a b, trim_char_left, h.1.0) refl

join-IsTrimmed :
    (sep : Char) (part : String) (parts : List String)
    → All (IsSegment (code sep)) (part ∷ parts)
    → IsTrimmed (code sep) (join (part ∷ parts) (String.◌∷◌ sep ""))
unfolding join
join-IsTrimmed sep part [] h = (trim_char_right-Lacks (code sep) part h.0.1, h.0.0)
join-IsTrimmed sep part (next ∷ parts) h =
    IsTrimmed-append (code sep) part _
      (IsTrimmed-append (code sep) (String.◌∷◌ sep "") _ (join-IsTrimmed sep next parts h.1))

trim_char_left-join :
    (sep : Char) (part : String) (parts : List String)
    → All (IsSegment (code sep)) (part ∷ parts)
    → trim_char_left (code sep) (join (part ∷ parts) (String.◌∷◌ sep ""))
      ≡ join (part ∷ parts) (String.◌∷◌ sep "")
unfolding join ◌<>◌
trim_char_left-join sep part [] h =
    ap (λ x. trim_char_left (code sep) x) (sym (append-nil part))
    ∙ trim_char_left-Segment (code sep) part "" h.0
    ∙ append-nil part
trim_char_left-join sep part (next ∷ parts) h = trim_char_left-Segment (code sep) part _ h.0

split-join :
    (sep : Char) (part : String) (parts : List String)
    → All (IsSegment (code sep)) (part ∷ parts)
    → split (code sep) (join (part ∷ parts) (String.◌∷◌ sep "")) ≡ part ∷ parts
unfolding join ◌<>◌
split-join sep part [] h = split_one (code sep) part h.0.1
split-join sep part (next ∷ parts) h =
    let rest = join (next ∷ parts) (String.◌∷◌ sep "") in
    ap (λ x. split (code sep) (part <> x))
      (cons-append sep "" rest ∙ ap (λ x. String.◌∷◌ sep x) (nil-append rest))
    ∙ split-append sep part rest h.0.1
    ∙ ap (λ x. part ∷ x) (split-join sep next parts h.1)

-- Segments that are joined are the parts again.
pub split-trim_char-join :
    (sep : Char) (part : String) (parts : List String)
    → All (IsSegment (code sep)) (part ∷ parts)
    → split (code sep) (trim_char (code sep) (join (part ∷ parts) (String.◌∷◌ sep "")))
      ≡ part ∷ parts
unfolding trim_char
split-trim_char-join sep part parts h =
    ap (λ x. split (code sep) (trim_char_right (code sep) x)) (trim_char_left-join sep part parts h)
    ∙ ap (λ x. split (code sep) x) (join-IsTrimmed sep part parts h).0
    ∙ split-join sep part parts h

-- A literal that does not start with `p` is another text.
pub differs_past : (p r other : String) → after_prefix p other ≡ none → (p <> r == other) ≡ false
differs_past p r other h = elim (Bool-cases (p <> r == other)) [
  | inl same ↦
      let e = (eq_iff (p <> r) other).0 same in
      let found : some r ≡ none =
        sym (after_prefix-append p r) ∙ ap (λ x. after_prefix p x) e ∙ h in
      cc
  | inr differs ↦ differs
]

-- Two texts have different characters at one place.
abbrev pub clashes : String → String → Bool
clashes String.[] q = false
clashes (String.◌∷◌ c p) String.[] = false
clashes (String.◌∷◌ c p) (String.◌∷◌ d q) = if eqb (code c) (code d) then clashes p q else true

pub after_prefix-clash : (p q r : String) → clashes p q ≡ true → after_prefix p (q <> r) ≡ none
unfolding after_prefix ◌<>◌
after_prefix-clash String.[] q r h = cc
after_prefix-clash (String.◌∷◌ c p) String.[] r h = cc
after_prefix-clash (String.◌∷◌ c p) (String.◌∷◌ d q) r h =
    elim (Bool-cases (eqb (code c) (code d))) [
      | inl same ↦
          rw (cons-append d q r, after_prefix, same) (after_prefix-clash p q r (rw same at h))
      | inr other ↦ rw (cons-append d q r, after_prefix, other) refl
    ]
