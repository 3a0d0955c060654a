-- ===== src/Regexp/Spelling.antt =====
-- Which texts a pattern spells, with no order of search in it, against what the search finds: a match
-- exactly where there is one, and of the lazy groups the shortest.
use kagents.Prelude.{
  ◌≡◌, refl, sym, ap, ◌⊎◌, inl, inr, ℕ, String, Option, none, some, List, [], ◌∷◌, ◌<>◌,
  after_prefix, after_prefix_sound, after_prefix-append, arith, Option-cases,
}
use kagents.Regexp.{
  Piece, literal, maybe, many, group, lazy_group, Taken, dropped, captured, after, find,
}
use kagents.Regexp.Runs.{
  IsRun, first-some, greedy_sound, greedy_complete, lazy_sound, lazy_complete, lazy_least,
}

abbrev pub Spells : List Piece → String → List String → Type 0
Spells [] s captures = (s ≡ "") × (captures ≡ [])
Spells (literal p ∷ pieces) s captures = (r : String) × (s ≡ p <> r) × Spells pieces r captures
Spells (maybe p ∷ pieces) s captures =
    (r : String) × ((s ≡ p <> r) ⊎ (s ≡ r)) × Spells pieces r captures
Spells (many stop ∷ pieces) s captures =
    (a r : String) × (s ≡ a <> r) × IsRun stop a × Spells pieces r captures
Spells (group stop ∷ pieces) s captures =
    (a r : String) × (rest : List String) × (s ≡ a <> r)
    × IsRun stop a
    × (captures ≡ a ∷ rest)
    × Spells pieces r rest
Spells (lazy_group stop ∷ pieces) s captures =
    (a r : String) × (rest : List String) × (s ≡ a <> r)
    × IsRun stop a
    × (captures ≡ a ∷ rest)
    × Spells pieces r rest

-- No text that the group could take instead, with the rest of the pattern after it, is shorter.
abbrev pub IsLeast : ℕ → List Piece → String → String → Type 0
IsLeast stop pieces s a =
    (a' r : String) (rest : List String)
    → s ≡ a' <> r
    → IsRun stop a'
    → Spells pieces r rest
    → (extra : String) × (a' ≡ a <> extra)

-- The texts that a search picks: the same, with its lazy groups.
abbrev pub Picks : List Piece → String → List String → Type 0
Picks [] s captures = (s ≡ "") × (captures ≡ [])
Picks (literal p ∷ pieces) s captures = (r : String) × (s ≡ p <> r) × Picks pieces r captures
Picks (maybe p ∷ pieces) s captures =
    (r : String) × ((s ≡ p <> r) ⊎ (s ≡ r)) × Picks pieces r captures
Picks (many stop ∷ pieces) s captures =
    (a r : String) × (s ≡ a <> r) × IsRun stop a × Picks pieces r captures
Picks (group stop ∷ pieces) s captures =
    (a r : String) × (rest : List String) × (s ≡ a <> r)
    × IsRun stop a
    × (captures ≡ a ∷ rest)
    × Picks pieces r rest
Picks (lazy_group stop ∷ pieces) s captures =
    (a r : String) × (rest : List String) × (s ≡ a <> r)
    × IsRun stop a
    × (captures ≡ a ∷ rest)
    × Picks pieces r rest
    × IsLeast stop pieces s a

after-some :
    (o : Option String) (next : String → Option (List String)) {captures : List String}
    → after o next ≡ some captures
    → (r : String) × (o ≡ some r) × (next r ≡ some captures)
after-some none next h = ground arith
after-some (some r) next h = (r, refl, h)

dropped-some :
    (t : Taken) {captures : List String}
    → dropped t ≡ some captures
    → (a : String) × (t ≡ some (a, captures))
dropped-some none h = ground arith
dropped-some (some (a, rest)) {captures} h =
    let e : rest ≡ captures = cc in (a, ap (λ x. some (a, x)) e)

captured-some :
    (t : Taken) {captures : List String}
    → captured t ≡ some captures
    → (a : String) × (rest : List String) × (t ≡ some (a, rest)) × (captures ≡ a ∷ rest)
captured-some none h = ground arith
captured-some (some (a, rest)) {captures} h =
    let e : a ∷ rest ≡ captures = cc in (a, rest, refl, sym e)

-- The search finds a match where there is one.
pub find_complete :
    (pieces : List Piece) (s : String) (captures : List String)
    → Spells pieces s captures
    → (found : List String) × (find pieces s ≡ some found)
unfolding find
find_complete [] s captures (e, listed) = rw e ([], refl)
find_complete (literal p ∷ pieces) s captures (r, e, rest) =
    let (found, h) = find_complete pieces r _ rest in (found, rw (e, after_prefix-append p r) h)
find_complete (maybe p ∷ pieces) s captures (r, inl e, rest) =
    let (found, h) = find_complete pieces r _ rest in
    (found, rw (e, after_prefix-append p r, h) refl)
find_complete (maybe p ∷ pieces) s captures (r, inr e, rest) =
    let (found, h) = find_complete pieces r _ rest in
    elim (Option-cases (after (after_prefix p s) (find pieces))) [
      | inl without ↦ (found, rw without (rw e h))
      | inr (other, there) ↦ (other, rw there refl)
    ]
find_complete (many stop ∷ pieces) s captures (a, r, e, run, rest) =
    let (found, h) = find_complete pieces r _ rest in
    let (t, taken) = greedy_complete (find pieces) stop s a found (r, e, run, h) in
    (t.1, rw taken refl)
find_complete (group stop ∷ pieces) s captures (a, r, others, e, run, listed, rest) =
    let (found, h) = find_complete pieces r _ rest in
    let (t, taken) = greedy_complete (find pieces) stop s a found (r, e, run, h) in
    (t.0 ∷ t.1, rw taken refl)
find_complete (lazy_group stop ∷ pieces) s captures (a, r, others, e, run, listed, rest) =
    let (found, h) = find_complete pieces r _ rest in
    let (t, taken) = lazy_complete (find pieces) stop s a found (r, e, run, h) in
    (t.0 ∷ t.1, rw taken refl)

-- The match that the search finds is of the pattern, and its lazy groups are as short as they can be.
pub find-Picks :
    (pieces : List Piece) (s : String) {captures : List String}
    → find pieces s ≡ some captures
    → Picks pieces s captures
unfolding find
find-Picks [] String.[] h = (refl, cc)
find-Picks [] (String.◌∷◌ c s) h = ground arith
find-Picks (literal p ∷ pieces) s h =
    let (r, e, found) = after-some _ _ h in (r, after_prefix_sound p s e, find-Picks pieces r found)
find-Picks (maybe p ∷ pieces) s h = elim (first-some (after (after_prefix p s) (find pieces)) _ h) [
  | inl there ↦
      let (r, e, found) = after-some (after_prefix p s) (find pieces) there in
      (r, inl (after_prefix_sound p s e), find-Picks pieces r found)
  | inr without ↦ (s, inr refl, find-Picks pieces s without)
]
find-Picks (many stop ∷ pieces) s h =
    let (a, e) = dropped-some _ h in
    let (r, cut, run, found) = greedy_sound (find pieces) stop s a _ e in
    (a, r, cut, run, find-Picks pieces r found)
find-Picks (group stop ∷ pieces) s h =
    let (a, rest, e, listed) = captured-some _ h in
    let (r, cut, run, found) = greedy_sound (find pieces) stop s a rest e in
    (a, r, rest, cut, run, listed, find-Picks pieces r found)
find-Picks (lazy_group stop ∷ pieces) s h =
    let (a, rest, e, listed) = captured-some _ h in
    let (r, cut, run, found) = lazy_sound (find pieces) stop s a rest e in
    (
      a,
      r,
      rest,
      cut,
      run,
      listed,
      find-Picks pieces r found,
      λ a' r' rest' other run' spelled.
          let (captures', there) = find_complete pieces r' rest' spelled in
          lazy_least (find pieces) stop s a r' rest captures' there a' e other run'.0,
    )
