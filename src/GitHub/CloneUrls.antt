-- ===== src/GitHub/CloneUrls.antt =====
-- ParseRepo against a description of the clone URLs without a pattern.
use text.Mathlib.TextLemmas.{append-eq-nil_iff}
use kagents.Prelude.{
  ◌≡◌, ◌≢◌, subst, refl, sym, ◌∙◌, inl, inr, String, [], ◌∷◌, ◌==◌, ◌<>◌, trim_space, arith,
  Bool-cases, Option-cases, eq_iff,
}
use kagents.Result.{ok}
use kagents.Regexp.{find}
use kagents.Regexp.Spelling.{find-Picks, find_complete}
use kagents.GitHub.Repo.{https_repo, ssh_repo, names_of, try_patterns, parse_repo}
use kagents.GitHub.Shapes.{
  IsHttps, IsSsh, IsUrl, IsShortNamed, IsCloneUrl, IsHttps-of_Picks, IsSsh-of_Picks,
  Spells-of_IsHttps, Spells-of_IsSsh,
}

-- What the two patterns find in a text that is not empty.
try_patterns_exact :
    (url : String)
    → ((owner repo : String)
        → try_patterns (https_repo ∷ ssh_repo ∷ []) url ≡ ok (owner, repo)
        → IsUrl IsShortNamed url owner repo)
      × ((owner repo : String)
          → IsCloneUrl url owner repo
          → (found : String × String) × (try_patterns (https_repo ∷ ssh_repo ∷ []) url ≡ ok found))
unfolding try_patterns
try_patterns_exact url = elim (Option-cases (find https_repo url)) [
  | inr (captures, https) ↦ rw https (
    λ owner repo h.
        let e : names_of captures ≡ (owner, repo) = cc in
        inl (
          subst (λ n. IsHttps IsShortNamed url n.0 n.1) e
            (IsHttps-of_Picks url (find-Picks _ url https))),
    λ owner repo h. (names_of captures, refl),
  )
  | inl no_https ↦ elim (Option-cases (find ssh_repo url)) [
    | inr (captures, ssh) ↦
        rw (no_https, ssh)
          (
            λ owner repo h.
                let e : names_of captures ≡ (owner, repo) = cc in
                inr (
                  subst (λ n. IsSsh IsShortNamed url n.0 n.1) e
                    (IsSsh-of_Picks url (find-Picks _ url ssh))),
            λ owner repo h. (names_of captures, refl),
          )
    | inl no_ssh ↦
        rw (no_https, no_ssh)
          (
            λ owner repo h. ground arith,
            λ owner repo h. elim h [
              | inl u ↦
                  let (captures, there) =
                    find_complete https_repo url _ (Spells-of_IsHttps url owner repo u) in
                  ground arith
              | inr u ↦
                  let (captures, there) =
                    find_complete ssh_repo url _ (Spells-of_IsSsh url owner repo u) in
                  ground arith
            ],
          )
  ]
]

IsCloneUrl-ne-nil : (url owner repo : String) → IsCloneUrl url owner repo → url ≢ ""
unfolding ◌<>◌
IsCloneUrl-ne-nil url owner repo (inl u) h =
    let none = (append-eq-nil_iff.0 (sym u.whole ∙ h)).0 in
    elim u.is_scheme [
      | inl plain ↦ let e : ◌≡◌ {A = String} "http" "" = sym plain ∙ none in cc
      | inr secure ↦ let e : ◌≡◌ {A = String} "https" "" = sym secure ∙ none in cc
    ]
IsCloneUrl-ne-nil url owner repo (inr u) h = u.user_run.0 (append-eq-nil_iff.0 (sym u.whole ∙ h)).0

-- ParseRepo succeeds exactly on the clone URLs, with white space around them or not: those of the form
-- http(s)://host/owner/repo or user@host:owner/repo, where `.git`, a slash or both may follow. The
-- owner and the name that it returns are those of the URL, not empty and without a slash, and no shorter
-- name can be read there: the `.git` that may follow is not part of the name.
pub parse_repo_exact :
    (text : String)
    → ((owner repo : String)
        → parse_repo text ≡ ok (owner, repo)
        → IsUrl IsShortNamed (trim_space text) owner repo)
      × ((owner repo : String)
          → IsCloneUrl (trim_space text) owner repo
          → (found : String × String) × (parse_repo text ≡ ok found))
unfolding parse_repo
parse_repo_exact text = elim (Bool-cases (trim_space text == "")) [
  | inl blank ↦ rw blank (
    λ owner repo h. ground arith,
    λ owner repo u.
        absurd (IsCloneUrl-ne-nil _ owner repo u ((eq_iff (trim_space text) "").0 blank)),
  )
  | inr url ↦ rw url (try_patterns_exact (trim_space text))
]
