-- ===== src/Prelude/Text.antt =====
-- Native texts: equality, concatenation, decimal numbers, and sets and maps with text keys.
pub mod Numerals
use Prim.Native.Nat.{ℕ, zero, suc, ◌/◌, ◌%◌}
use Prim.Native.String.{String}
use Prim.Native.Char.{Char, code}
use Prim.Native.String
use mathlib.Core.Path.{◌≡◌, refl, ap, ◌∙◌, sym}
use mathlib.Core.Logic.{◌⊎◌, inl, inr}
use mathlib.Core.Bool.{Bool, true, false, ◌||◌}
use mathlib.Core.Option.{Option, none, some}
use mathlib.Core.List.{List, [], ◌∷◌}
use native.Mathlib.Omega.{arith}
use kagents.Prelude.Tests.{if◌then◌else◌, ltb, eqb}
use kagents.Prelude.Lists.{In}
pub use text.Mathlib.Text.{◌==◌, starts_with}
use text.Mathlib.TextEquality.{Char-path}
use text.Mathlib.TextLemmas.{nil-append, cons-append}
pub use text.Mathlib.TextEquality.{eq_iff}
pub use text.Mathlib.TextPositions.{eq_refl}

-- `a + b` on Go strings.
infixr 66 ◌<>◌
unfoldable pub ◌<>◌ : String → String → String
a <> b = String.◌++◌ a b

-- strings.Join
unfoldable pub join : List String → String → String
join [] sep = ""
join (s ∷ []) sep = s
join (s ∷ t ∷ rest) sep = s <> sep <> join (t ∷ rest) sep

digit_names : List String
digit_names = "0" ∷ "1" ∷ "2" ∷ "3" ∷ "4" ∷ "5" ∷ "6" ∷ "7" ∷ "8" ∷ "9" ∷ []

nth : List String → ℕ → String
nth [] n = ""
nth (s ∷ ss) zero = s
nth (s ∷ ss) (suc n) = nth ss n

show_digits : ℕ → ℕ → String → String
unfolding digit_names nth ◌<>◌
show_digits zero n acc = acc
show_digits (suc fuel) n acc =
    let acc' = nth digit_names (n % 10) <> acc in
    let rest = show_digits fuel (n / 10) acc' in if ltb n 10 then acc' else rest

-- The verb %d of fmt. A number has fewer than n + 2 digits.
unfoldable pub show_nat : ℕ → String
unfolding show_digits
show_nat n = show_digits (suc n) n ""

-- `map[string]struct{}` as the list of its keys.
unfoldable pub contains : String → List String → Bool
contains k [] = false
contains k (j ∷ js) = k == j || contains k js

pub contains→In : (k : String) (js : List String) → contains k js ≡ true → In k js
unfolding contains
contains→In k [] h = cc
contains→In k (j ∷ js) h = ground (arith, eq_iff k j, contains→In k js)

pub In→contains : (k : String) (js : List String) → In k js → contains k js ≡ true
unfolding contains
In→contains k [] h = absurd h
In→contains k (j ∷ js) (inl e) = ground (arith, eq_iff k j)
In→contains k (j ∷ js) (inr h) = ground (arith, In→contains k js h)

-- A Go map with text keys, the last write first.
abbrev pub Dict : Type 0 → Type 0
Dict V = List (String × V)

module _ {V : Type 0} where
  unfoldable pub lookup : String → Dict V → Option V
  lookup k [] = none
  lookup k ((j, v) ∷ m) = if j == k then some v else lookup k m

  -- A read of a missing key gives the zero value.
  unfoldable pub lookup_or : V → String → Dict V → V
  unfolding lookup
  lookup_or z k m = elim (lookup k m) [ none ↦ z | some v ↦ v ]

  pub lookup_or-cases :
      (z : V) (k : String) (m : Dict V)
      → (lookup_or z k m ≡ z) ⊎ (lookup k m ≡ some (lookup_or z k m))
  unfolding lookup_or
  lookup_or-cases z k m = found_or (lookup k m)
    where
      found_or :
          (o : Option V)
          → ((elim o as (λ _. V) [ none ↦ z | some v ↦ v ]) ≡ z)
            ⊎ (o ≡ some (elim o as (λ _. V) [ none ↦ z | some v ↦ v ]))
      found_or none = inl refl
      found_or (some v) = inr refl

  unfoldable pub insert : String → V → Dict V → Dict V
  insert k v m = (k, v) ∷ m

  pub lookup-insert :
      (k j : String) (v : V) (m : Dict V)
      → lookup j (insert k v m) ≡ (if k == j then some v else lookup j m)
  unfolding lookup insert
  lookup-insert k j v m = refl

-- filepath.Base on Unix: `segment` is the element being read, `last` the last one that is not empty.
last_segment : String → String → String → String
last_segment String.[] segment last = if segment == "" then last else segment
last_segment (String.◌∷◌ c path) segment last =
    let slash = eqb (code c) b'/' in
    last_segment path (if slash then "" else segment <> String.◌∷◌ c String.[])
      (if slash then (if segment == "" then last else segment) else last)

unfoldable pub base_name : String → String
unfolding last_segment
base_name path =
    if path == ""
    then "."
    else (let last = last_segment path "" "" in if last == "" then "/" else last)

-- strings.TrimPrefix
unfoldable pub trim_prefix : String → String → String
trim_prefix s prefix =
    if starts_with s prefix then String.slice s (String.len prefix) (String.len s) else s

with_char : Char → Option (String × String) → Option (String × String)
with_char c none = none
with_char c (some (before, after)) = some (String.◌∷◌ c before, after)

or_here : Bool → String → Option (String × String) → Option (String × String)
or_here here rest (some cut) = some cut
or_here false rest none = none
or_here true rest none = some ("", rest)

-- The texts before and after the slash that strings.LastIndex(s, "/") finds.
unfoldable pub cut_last_slash : String → Option (String × String)
unfolding with_char or_here
cut_last_slash String.[] = none
cut_last_slash (String.◌∷◌ c rest) =
    or_here (eqb (code c) b'/') rest (with_char c (cut_last_slash rest))

-- A text without a character.
abbrev pub Lacks : ℕ → String → Type 0
Lacks stop String.[] = Unit {0}
Lacks stop (String.◌∷◌ c s) = (eqb (code c) stop ≡ false) × Lacks stop s

-- What lies before the last slash of a text, and after it.
abbrev IsCutOf : String → Option (String × String) → Type 0
IsCutOf s none = Lacks b'/' s
IsCutOf s (some (before, after)) = (s ≡ before <> "/" <> after) × Lacks b'/' after

slash_first : (rest : String) → "" <> "/" <> rest ≡ String.◌∷◌ "/" rest
unfolding ◌<>◌
slash_first rest =
    nil-append _ ∙ cons-append "/" String.[] rest ∙ ap (λ r. String.◌∷◌ "/" r) (nil-append rest)

or_here-IsCutOf :
    (c : Char) (rest : String) (here : Bool) (cut : Option (String × String))
    → eqb (code c) b'/' ≡ here
    → cut_last_slash rest ≡ cut
    → IsCutOf rest cut
    → IsCutOf (String.◌∷◌ c rest) (or_here here rest (with_char c cut))
unfolding or_here with_char ◌<>◌
or_here-IsCutOf c rest here (some (before, after)) slash found exact =
    (ap (λ r. String.◌∷◌ c r) exact.0 ∙ sym (cons-append c before _), exact.1)
or_here-IsCutOf c rest false none slash found exact = (slash, exact)
or_here-IsCutOf c rest true none slash found exact =
    (ap (λ d. String.◌∷◌ d rest) (Char-path c "/" (ground arith)) ∙ sym (slash_first rest), exact)

pub cut_last_slash-IsCutOf : (s : String) → IsCutOf s (cut_last_slash s)
unfolding cut_last_slash
cut_last_slash-IsCutOf String.[] = tt
cut_last_slash-IsCutOf (String.◌∷◌ c rest) =
    or_here-IsCutOf c rest _ _ refl refl (cut_last_slash-IsCutOf rest)
