-- ===== src/Prelude/Splits.antt =====
-- strings.Split of a native text at one character.
use Prim.Native.Nat.{ℕ}
use Prim.Native.String.{String}
use Prim.Native.Char.{Char, code}
use mathlib.Core.Path.{◌≡◌, refl, ap, ◌∙◌}
use mathlib.Core.Bool.{Bool, true, false}
use mathlib.Core.Logic.{inl, inr}
use mathlib.Core.List.{List, [], ◌∷◌}
use native.Mathlib.Omega.{arith}
use text.Mathlib.TextEquality.{Char-path}
use text.Mathlib.TextLemmas.{nil-append, cons-append}
use kagents.Prelude.Tests.{Bool-cases, if◌then◌else◌, eqb}
use kagents.Prelude.Text.{◌<>◌, join, Lacks}
use kagents.Prelude.Lists.{All}

-- The test of Lacks, for literals.
abbrev pub lacks : ℕ → String → Bool
lacks stop String.[] = true
lacks stop (String.◌∷◌ c s) = if eqb (code c) stop then false else lacks stop s

pub Lacks-of_literal : (stop : ℕ) (s : String) → lacks stop s ≡ true → Lacks stop s
Lacks-of_literal stop String.[] h = tt
Lacks-of_literal stop (String.◌∷◌ c s) h = elim (Bool-cases (eqb (code c) stop)) [
  | inl same ↦ ground arith
  | inr differs ↦ (differs, Lacks-of_literal stop s (rw differs at h))
]

abbrev pub extended : Char → List String → List String
extended c [] = String.◌∷◌ c "" ∷ []
extended c (part ∷ parts) = String.◌∷◌ c part ∷ parts

-- The parts of a text between the characters of code `stop`: at least one part.
unfoldable pub split : ℕ → String → List String
split stop String.[] = "" ∷ []
split stop (String.◌∷◌ c s) =
    let rest = split stop s in if eqb (code c) stop then "" ∷ rest else extended c rest

extended-All :
    (stop : ℕ) (c : Char) (parts : List String)
    → eqb (code c) stop ≡ false
    → All (Lacks stop) parts
    → All (Lacks stop) (extended c parts)
extended-All stop c [] other h = ((other, tt), tt)
extended-All stop c (part ∷ parts) other h = ((other, h.0), h.1)

-- A part has no separator, and no other character that the text lacks.
pub split-Lacks : (stop : ℕ) (s : String) → All (Lacks stop) (split stop s)
unfolding split
split-Lacks stop String.[] = (tt, tt)
split-Lacks stop (String.◌∷◌ c s) = elim (Bool-cases (eqb (code c) stop)) [
  | inl same ↦ rw same (tt, split-Lacks stop s)
  | inr other ↦ rw other (extended-All stop c (split stop s) other (split-Lacks stop s))
]

pub split-Lacks_also : (stop also : ℕ) (s : String) → Lacks also s → All (Lacks also) (split stop s)
unfolding split
split-Lacks_also stop also String.[] h = (tt, tt)
split-Lacks_also stop also (String.◌∷◌ c s) h = elim (Bool-cases (eqb (code c) stop)) [
  | inl same ↦ rw same (tt, split-Lacks_also stop also s h.1)
  | inr other ↦ rw other (extended-All also c (split stop s) h.0 (split-Lacks_also stop also s h.1))
]

-- What joins to the text again.
IsJoin : Char → List String → String → Type 0
IsJoin c parts s =
    (part : String) × (rest : List String) × (parts ≡ part ∷ rest)
    × (join parts (String.◌∷◌ c "") ≡ s)

IsJoin-extended :
    (sep c : Char) (parts : List String) (s : String)
    → IsJoin sep parts s
    → IsJoin sep (extended c parts) (String.◌∷◌ c s)
unfolding IsJoin join ◌<>◌
IsJoin-extended sep c [] s (part, rest, filled, joined) = cc
IsJoin-extended sep c (part ∷ []) s (p, rest, filled, joined) =
    (_, _, refl, ap (λ x. String.◌∷◌ c x) joined)
IsJoin-extended sep c (part ∷ next ∷ parts) s (p, rest, filled, joined) =
    (_, _, refl, cons-append c part _ ∙ ap (λ x. String.◌∷◌ c x) joined)

IsJoin-first :
    (sep : Char) (parts : List String) (s : String)
    → IsJoin sep parts s
    → IsJoin sep ("" ∷ parts) (String.◌∷◌ sep s)
unfolding IsJoin join ◌<>◌
IsJoin-first sep [] s (part, rest, filled, joined) = cc
IsJoin-first sep (part ∷ parts) s (p, rest, filled, joined) = (
  _,
  _,
  refl,
  nil-append _ ∙ cons-append sep "" _ ∙ ap (λ x. String.◌∷◌ sep x) (nil-append _ ∙ joined),
)

split-IsJoin : (sep : Char) (s : String) → IsJoin sep (split (code sep) s) s
unfolding split IsJoin join
split-IsJoin sep String.[] = (_, _, refl, refl)
split-IsJoin sep (String.◌∷◌ c s) = elim (Bool-cases (eqb (code c) (code sep))) [
  | inl same ↦
      rw (same, Char-path c sep (ground arith))
        (IsJoin-first sep (split (code sep) s) s (split-IsJoin sep s))
  | inr other ↦ rw other (IsJoin-extended sep c (split (code sep) s) s (split-IsJoin sep s))
]

pub join-split : (sep : Char) (s : String) → join (split (code sep) s) (String.◌∷◌ sep "") ≡ s
unfolding IsJoin
join-split sep s = let (part, rest, filled, joined) = split-IsJoin sep s in joined

-- A text without the separator is the first part of what it starts.
pub split-append :
    (sep : Char) (a s : String)
    → Lacks (code sep) a
    → split (code sep) (a <> String.◌∷◌ sep s) ≡ a ∷ split (code sep) s
unfolding split ◌<>◌
split-append sep String.[] s h =
    let same : eqb (code sep) (code sep) ≡ true = ground arith in
    rw (nil-append (String.◌∷◌ sep s), split, same) refl
split-append sep (String.◌∷◌ c a) s h =
    rw (cons-append c a (String.◌∷◌ sep s), split, h.0, split-append sep a s h.1) refl

-- Without the separator there is one part.
pub split_one : (stop : ℕ) (s : String) → Lacks stop s → split stop s ≡ s ∷ []
unfolding split
split_one stop String.[] h = refl
split_one stop (String.◌∷◌ c s) h = rw (split, h.0, split_one stop s h.1) refl

pub Lacks-append : (stop : ℕ) (a b : String) → Lacks stop a → Lacks stop b → Lacks stop (a <> b)
unfolding ◌<>◌
Lacks-append stop String.[] b h k = rw (nil-append b) k
Lacks-append stop (String.◌∷◌ c a) b h k = rw (cons-append c a b) (h.0, Lacks-append stop a b h.1 k)

-- There is a first part.
pub split_filled :
    (sep : Char) (s : String)
    → (part : String) × (rest : List String) × (split (code sep) s ≡ part ∷ rest)
unfolding IsJoin
split_filled sep s = let (part, rest, filled, joined) = split-IsJoin sep s in (part, rest, filled)
