-- ===== src/Regexp.antt =====
-- The part of Go's regexp that internal/github/parse.go uses: a pattern that is anchored at both ends,
-- of literal texts, optional texts, and runs of one or more characters other than a given one. A match
-- is the first one in the order of a backtracking search, and the captured texts are listed in order.
pub mod Runs
pub mod Spelling
use kagents.Prelude.{ℕ, String, Option, none, some, List, [], ◌∷◌, eqb, after_prefix, if◌then◌else◌}
use Prim.Native.Char.{Char, code}

pub data Piece : Type 0 where
  literal : String → Piece  -- the text itself
  maybe : String → Piece  -- (?:text)?
  many : ℕ → Piece  -- [^c]+
  group : ℕ → Piece  -- ([^c]+)
  lazy_group : ℕ → Piece  -- ([^c]+?)

-- A taken text and the captures after it.
abbrev pub Taken : Type 0
Taken = Option (String × List String)

abbrev pub first {ℓ} : {A : Type ℓ} → Option A → Option A → Option A
first (some a) other = some a
first none other = other

abbrev pub start : Option (List String) → Taken
start none = none
start (some captures) = some ("", captures)

abbrev pub with_char : Char → Taken → Taken
with_char c none = none
with_char c (some (taken, captures)) = some (String.◌∷◌ c taken, captures)

abbrev pub dropped : Taken → Option (List String)
dropped none = none
dropped (some (taken, captures)) = some captures

abbrev pub captured : Taken → Option (List String)
captured none = none
captured (some (taken, captures)) = some (taken ∷ captures)

abbrev pub after : Option String → (String → Option (List String)) → Option (List String)
after none next = none
after (some rest) next = next rest

-- As many characters as the rest of the pattern allows.
unfoldable pub greedy : (String → Option (List String)) → ℕ → String → Taken
greedy next stop String.[] = none
greedy next stop (String.◌∷◌ c s) =
    let longer = greedy next stop s in
    if eqb (code c) stop then none else with_char c (first longer (start (next s)))

-- As few as it allows.
unfoldable pub lazy : (String → Option (List String)) → ℕ → String → Taken
lazy next stop String.[] = none
lazy next stop (String.◌∷◌ c s) =
    let longer = lazy next stop s in
    if eqb (code c) stop then none else with_char c (first (start (next s)) longer)

unfoldable pub find : List Piece → String → Option (List String)
unfolding greedy lazy
find [] String.[] = some []
find [] (String.◌∷◌ c s) = none
find (literal p ∷ pieces) s = after (after_prefix p s) (find pieces)
find (maybe p ∷ pieces) s = first (after (after_prefix p s) (find pieces)) (find pieces s)
find (many stop ∷ pieces) s = dropped (greedy (find pieces) stop s)
find (group stop ∷ pieces) s = captured (greedy (find pieces) stop s)
find (lazy_group stop ∷ pieces) s = captured (lazy (find pieces) stop s)
