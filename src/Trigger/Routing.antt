-- ===== src/Trigger/Routing.antt =====
-- The trigger that a path names, and the directory in which a payload is mounted.
use kagents.Prelude.{
  ◌≡◌, ◌≢◌, refl, ap, subst, ◌⊎◌, Lacks, inl, inr, String, true, false, Option, none, some, List,
  [], ◌∷◌, ◌++◌, In, ◌==◌, ◌<>◌, eq_iff, arith, Bool-cases, Option-cases, cut_last_slash,
  cut_last_slash-IsCutOf,
}
use kagents.Api.Triggers.{AgentTeamTrigger}
use kagents.Trigger.{matches, first_match, split_mount_dir}

abbrev pub path_of : AgentTeamTrigger → Option String
path_of trig = elim trig.spec.trigger.webhook [ none ↦ none | some hook ↦ some hook.path ]

-- What the answer for a path says of the triggers, in the order of the list.
abbrev pub IsFirst : String → List AgentTeamTrigger → Option AgentTeamTrigger → Type 0
IsFirst path triggers none = (t : AgentTeamTrigger) → In t triggers → path_of t ≢ some path
IsFirst path triggers (some trig) =
    (before after : List AgentTeamTrigger) × (triggers ≡ before ++ trig ∷ after)
    × (path_of trig ≡ some path)
    × ((t : AgentTeamTrigger) → In t before → path_of t ≢ some path)

matches_exact :
    (path : String) (trig : AgentTeamTrigger)
    → ((matches path trig ≡ true) × (path_of trig ≡ some path))
      ⊎ ((matches path trig ≡ false) × (path_of trig ≢ some path))
unfolding matches
matches_exact path trig = elim (Option-cases trig.spec.trigger.webhook) [
  | inl e ↦ rw e (inr (refl, λ h. ground arith))
  | inr (hook, e) ↦ elim (Bool-cases (hook.path == path)) [
    | inl same ↦ rw e (inl (same, ap (λ p. some p) ((eq_iff hook.path path).0 same)))
    | inr other ↦ rw e (inr (other, λ h. ground (arith, eq_iff hook.path path)))
  ]
]

cons-IsFirst :
    (path : String) (trig : AgentTeamTrigger) (rest : List AgentTeamTrigger)
    (answer : Option AgentTeamTrigger)
    → path_of trig ≢ some path
    → IsFirst path rest answer
    → IsFirst path (trig ∷ rest) answer
cons-IsFirst path trig rest none other first =
    λ t h. elim h [ inl same ↦ rw same other | inr later ↦ first t later ]
cons-IsFirst path trig rest (some found) other (before, after, e, at, none_before) = (
  trig ∷ before,
  after,
  ap (λ l. trig ∷ l) e,
  at,
  λ t h. elim h [ inl same ↦ rw same other | inr later ↦ none_before t later ],
)

-- The answer for a path is the first trigger of the list that has it, and there is none only where no
-- trigger has it.
pub first_match-IsFirst :
    (path : String) (triggers : List AgentTeamTrigger)
    → IsFirst path triggers (first_match path triggers)
unfolding first_match
first_match-IsFirst path [] = λ t h. absurd h
first_match-IsFirst path (trig ∷ rest) = elim (matches_exact path trig) [
  | inl (hit, e) ↦ rw hit ([], rest, refl, e, λ t h. absurd h)
  | inr (miss, e) ↦ rw miss (cons-IsFirst path trig rest _ e (first_match-IsFirst path rest))
]

-- The parts beside the last slash.
abbrev pub IsDivided : String → String → String → Type 0
IsDivided path dir base = (path ≡ dir <> "/" <> base) × (dir ≢ "") × Lacks b'/' base

-- The path as it is, in which no character, or only the first, is a slash.
abbrev pub IsWhole : String → String → String → Type 0
IsWhole path dir base =
    (dir ≡ path)
    × (base ≡ "")
    × (Lacks b'/' path ⊎ ((rest : String) × (path ≡ "" <> "/" <> rest) × Lacks b'/' rest))

-- A payload's path is split at its last slash and nothing of it is lost: the directory is not empty and
-- no slash follows. It is kept whole only where it has no slash, or only one that is its first
-- character.
pub split_mount_dir_exact :
    (path : String)
    → let (dir, base) = split_mount_dir path in IsDivided path dir base ⊎ IsWhole path dir base
unfolding split_mount_dir
split_mount_dir_exact path =
    let exact = cut_last_slash-IsCutOf path in
    elim (Option-cases (cut_last_slash path)) [
      | inl e ↦ rw (split_mount_dir, e) (inr (refl, refl, inl (rw e at exact)))
      | inr ((dir, base), e) ↦
          let (cut, plain) = rw e at exact in
          elim (Bool-cases (dir == "")) [
            | inl root ↦
                let at_root : path ≡ "" <> "/" <> base =
                  subst (λ d. path ≡ d <> "/" <> base) ((eq_iff dir "").0 root) cut in
                rw (split_mount_dir, e, root) (inr (refl, refl, inr (base, at_root, plain)))
            | inr inner ↦
                rw (split_mount_dir, e, inner)
                  (inl (cut, (λ h. ground (arith, eq_iff dir "")), plain))
          ]
    ]
