-- ===== src/Prelude/Cuts.antt =====
-- Cutting native texts: white space at the ends, a text at the start, and parts between separators.
use Prim.Native.Nat.{ℕ}
use Prim.Native.String.{String}
use Prim.Native.Char.{code}
use mathlib.Core.Path.{◌≡◌, ap, ◌∙◌, sym}
use mathlib.Core.Bool.{Bool, true, ◌&&◌, ◌||◌}
use mathlib.Core.Option.{Option, none, some}
use mathlib.Core.Logic.{inl, inr}
use native.Mathlib.Omega.{arith}
use text.Mathlib.TextEquality.{Char-path}
use text.Mathlib.TextLemmas.{nil-append, cons-append}
use kagents.Prelude.Tests.{Bool-cases, if◌then◌else◌, eqb, leb}
use kagents.Prelude.Text.{◌==◌, ◌<>◌}

-- unicode.IsSpace
is_space : ℕ → Bool
is_space c =
    leb 9 c && leb c 13
    || eqb c 32
    || eqb c 0x85
    || eqb c 0xa0
    || eqb c 0x1680
    || leb 0x2000 c && leb c 0x200a
    || eqb c 0x2028
    || eqb c 0x2029
    || eqb c 0x202f
    || eqb c 0x205f
    || eqb c 0x3000

trim_left : String → String
trim_left String.[] = ""
trim_left (String.◌∷◌ c s) =
    let rest = trim_left s in if is_space (code c) then rest else String.◌∷◌ c s

trim_right : String → String
trim_right String.[] = ""
trim_right (String.◌∷◌ c s) =
    let rest = trim_right s in if is_space (code c) && rest == "" then "" else String.◌∷◌ c rest

-- strings.TrimSpace
unfoldable pub trim_space : String → String
unfolding is_space trim_left trim_right
trim_space s = trim_right (trim_left s)

-- What follows `p` at the start of a text.
unfoldable pub after_prefix : String → String → Option String
after_prefix String.[] s = some s
after_prefix (String.◌∷◌ c p) String.[] = none
after_prefix (String.◌∷◌ c p) (String.◌∷◌ d s) =
    if eqb (code c) (code d) then after_prefix p s else none

pub after_prefix_sound : (p s : String) {r : String} → after_prefix p s ≡ some r → s ≡ p <> r
unfolding after_prefix ◌<>◌
after_prefix_sound String.[] s {r} h = let e : s ≡ r = cc in e ∙ sym (nil-append r)
after_prefix_sound (String.◌∷◌ c p) String.[] h = ground arith
after_prefix_sound (String.◌∷◌ c p) (String.◌∷◌ d s) {r} h =
    elim (Bool-cases (eqb (code c) (code d))) [
      | inl same ↦
          ap (λ x. String.◌∷◌ x s) (sym (Char-path c d (ground arith)))
          ∙ ap (λ x. String.◌∷◌ c x) (after_prefix_sound p s (rw (after_prefix, same) at h))
          ∙ sym (cons-append c p r)
      | inr other ↦ ground arith
    ]

pub after_prefix-append : (p r : String) → after_prefix p (p <> r) ≡ some r
unfolding after_prefix ◌<>◌
after_prefix-append String.[] r = ap (λ x. some x) (nil-append r)
after_prefix-append (String.◌∷◌ c p) r =
    let same : eqb (code c) (code c) ≡ true = ground arith in
    rw (cons-append c p r, after_prefix, same) (after_prefix-append p r)

-- strings.TrimSuffix
unfoldable pub trim_suffix : String → String → String
trim_suffix String.[] suffix = ""
trim_suffix (String.◌∷◌ c s) suffix =
    let kept = String.◌∷◌ c (trim_suffix s suffix) in if String.◌∷◌ c s == suffix then "" else kept

-- strings.Trim with one character

unfoldable pub trim_char_left : ℕ → String → String
trim_char_left stop String.[] = ""
trim_char_left stop (String.◌∷◌ c s) =
    let rest = trim_char_left stop s in if eqb (code c) stop then rest else String.◌∷◌ c s

unfoldable pub trim_char_right : ℕ → String → String
trim_char_right stop String.[] = ""
trim_char_right stop (String.◌∷◌ c s) =
    let rest = trim_char_right stop s in
    if eqb (code c) stop && rest == "" then "" else String.◌∷◌ c rest

unfoldable pub trim_char : ℕ → String → String
trim_char stop s = trim_char_right stop (trim_char_left stop s)
