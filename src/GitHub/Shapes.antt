-- ===== src/GitHub/Shapes.antt =====
-- The clone URLs, described without a pattern, and that the patterns spell just these.
use text.Mathlib.TextLemmas.{append_assoc, append_cancel_left}
use kagents.Prelude.{◌≡◌, refl, sym, ap, ◌∙◌, ◌⊎◌, inl, inr, String, List, [], ◌∷◌, ◌<>◌}
use kagents.Regexp.{literal, many, maybe}
use kagents.Regexp.Runs.{IsRun}
use kagents.Regexp.Spelling.{Spells, Picks}
use kagents.GitHub.Repo.{names_pattern, https_repo, ssh_repo, names_of}

-- What may follow the name.
abbrev pub IsTail : String → Type 0
IsTail s = (s ≡ "") ⊎ ((s ≡ "/") ⊎ ((s ≡ ".git") ⊎ (s ≡ ".git/")))

-- The end of a URL, from the owner on.
pub record IsNamed (s owner repo : String) : Type 0 where
  pub tail : String
  pub is_tail : IsTail tail
  pub owner_run : IsRun b'/' owner
  pub repo_run : IsRun b'/' repo
  pub whole : s ≡ owner <> "/" <> repo <> tail

-- The same, where no shorter name could be read there: a `.git` before the end, or before a slash at
-- the end, is not part of the name.
abbrev pub IsShortNamed : String → String → String → Type 0
IsShortNamed s owner repo =
    IsNamed s owner repo
    × ((longer : String) → IsNamed s owner longer → (extra : String) × (longer ≡ repo <> extra))

-- http://host/owner/repo or https://host/owner/repo
pub record IsHttps (Named : String → String → String → Type 0) (url owner repo : String)
    : Type 0 where
  pub scheme : String
  pub host : String
  pub rest : String
  pub is_scheme : (scheme ≡ "http") ⊎ (scheme ≡ "https")
  pub host_run : IsRun b'/' host
  pub whole : url ≡ scheme <> "://" <> host <> "/" <> rest
  pub named : Named rest owner repo

-- user@host:owner/repo
pub record IsSsh (Named : String → String → String → Type 0) (url owner repo : String)
    : Type 0 where
  pub user : String
  pub host : String
  pub rest : String
  pub user_run : IsRun b'@' user
  pub host_run : IsRun b':' host
  pub whole : url ≡ user <> "@" <> host <> ":" <> rest
  pub named : Named rest owner repo

abbrev pub IsUrl : (String → String → String → Type 0) → String → String → String → Type 0
IsUrl Named url owner repo = IsHttps Named url owner repo ⊎ IsSsh Named url owner repo

abbrev pub IsCloneUrl : String → String → String → Type 0
IsCloneUrl = IsUrl IsNamed

-- The patterns and the description say the same.

IsTail-of_Picks :
    (s : String) {captures : List String}
    → Picks (maybe ".git" ∷ maybe "/" ∷ []) s captures
    → IsTail s × (captures ≡ [])
unfolding ◌<>◌
IsTail-of_Picks s (r, inl e, (q, inl f, (g, done))) = (inr (inr (inr (rw (e, f, g) refl))), done)
IsTail-of_Picks s (r, inl e, (q, inr f, (g, done))) = (inr (inr (inl (rw (e, f, g) refl))), done)
IsTail-of_Picks s (r, inr e, (q, inl f, (g, done))) = (inr (inl (rw (e, f, g) refl)), done)
IsTail-of_Picks s (r, inr e, (q, inr f, (g, done))) = (inl (rw (e, f, g) refl), done)

Spells-of_tail : (s : String) → IsTail s → Spells (maybe ".git" ∷ maybe "/" ∷ []) s []
unfolding ◌<>◌
Spells-of_tail s (inl e) = (s, inr refl, (s, inr refl, (e, refl)))
Spells-of_tail s (inr (inl e)) = (s, inr refl, ("", inl e, (refl, refl)))
Spells-of_tail s (inr (inr (inl e))) = ("", inl e, ("", inr refl, (refl, refl)))
Spells-of_tail s (inr (inr (inr e))) = ("/", inl e, ("", inl refl, (refl, refl)))

IsShortNamed-of_Picks :
    (s : String) {captures : List String}
    → Picks names_pattern s captures
    → IsShortNamed s (names_of captures).0 (names_of captures).1
unfolding ◌<>◌
IsShortNamed-of_Picks s
      (
        owner,
        r,
        rest,
        cut,
        run,
        listed,
        (r', slash, (repo, t, rest', cut', run', listed', tail, least)),
      ) =
    let whole = cut ∙ ap (λ x. owner <> x) (slash ∙ ap (λ x. "/" <> x) cut') in
    rw (listed, listed')
      (
        record {
          tail = t;
          is_tail = (IsTail-of_Picks t tail).0;
          owner_run = run;
          repo_run = run';
          whole = whole;
        },
        λ longer n.
            let after_owner = append_cancel_left owner _ _ (sym cut ∙ n.whole) in
            let after_slash = append_cancel_left "/" _ _ (sym slash ∙ after_owner) in
            least longer n.tail [] after_slash n.repo_run (Spells-of_tail n.tail n.is_tail),
      )

Spells-of_IsNamed :
    (s owner repo : String) → IsNamed s owner repo → Spells names_pattern s (owner ∷ repo ∷ [])
Spells-of_IsNamed s owner repo n = (
  owner,
  "/" <> repo <> n.tail,
  repo ∷ [],
  n.whole,
  n.owner_run,
  refl,
  (
    repo <> n.tail,
    refl,
    (repo, n.tail, [], refl, n.repo_run, refl, Spells-of_tail n.tail n.is_tail),
  ),
)

with_s : (rest : String) → "https" <> rest ≡ "http" <> "s" <> rest
unfolding ◌<>◌
with_s rest = append_assoc "http" "s" rest

pub IsHttps-of_Picks :
    (url : String) {captures : List String}
    → Picks https_repo url captures
    → IsHttps IsShortNamed url (names_of captures).0 (names_of captures).1
IsHttps-of_Picks url (a, http, (b, optional, (c, colon, (host, d, cut, run, (e, slash, names))))) =
    let after_host = colon ∙ ap (λ x. "://" <> x) (cut ∙ ap (λ x. host <> x) slash) in
    elim optional [
      | inl s ↦ record {
        scheme = "https";
        host = host;
        rest = e;
        is_scheme = inr refl;
        host_run = run;
        whole = http ∙ ap (λ x. "http" <> x) (s ∙ ap (λ x. "s" <> x) after_host) ∙ sym (with_s _);
        named = IsShortNamed-of_Picks e names;
      }
      | inr plain ↦ record {
        scheme = "http";
        host = host;
        rest = e;
        is_scheme = inl refl;
        host_run = run;
        whole = http ∙ ap (λ x. "http" <> x) (plain ∙ after_host);
        named = IsShortNamed-of_Picks e names;
      }
    ]

pub IsSsh-of_Picks :
    (url : String) {captures : List String}
    → Picks ssh_repo url captures
    → IsSsh IsShortNamed url (names_of captures).0 (names_of captures).1
IsSsh-of_Picks url (user, a, cut, run, (b, at, (host, c, cut', run', (rest, colon, names)))) =
    record {
      user = user;
      host = host;
      rest = rest;
      user_run = run;
      host_run = run';
      whole =
          cut ∙ ap (λ x. user <> x) (at ∙ ap (λ x. "@" <> x) (cut' ∙ ap (λ x. host <> x) colon));
      named = IsShortNamed-of_Picks rest names;
    }

Spells-of_host :
    (host rest owner repo : String)
    → IsRun b'/' host
    → IsNamed rest owner repo
    → Spells
        (literal "://" ∷ many b'/' ∷ literal "/" ∷ names_pattern)
        ("://" <> host <> "/" <> rest)
        (owner ∷ repo ∷ [])
Spells-of_host host rest owner repo run named = (
  host <> "/" <> rest,
  refl,
  (host, "/" <> rest, refl, run, (rest, refl, Spells-of_IsNamed rest owner repo named)),
)

pub Spells-of_IsHttps :
    (url owner repo : String)
    → IsHttps IsNamed url owner repo
    → Spells https_repo url (owner ∷ repo ∷ [])
Spells-of_IsHttps url owner repo u =
    let rest = "://" <> u.host <> "/" <> u.rest in
    let tail = Spells-of_host u.host u.rest owner repo u.host_run u.named in
    elim u.is_scheme [
      | inl plain ↦ (rest, u.whole ∙ ap (λ x. x <> rest) plain, (rest, inr refl, tail))
      | inr secure ↦
          ("s" <> rest, u.whole ∙ ap (λ x. x <> rest) secure ∙ with_s rest, (rest, inl refl, tail))
    ]

pub Spells-of_IsSsh :
    (url owner repo : String)
    → IsSsh IsNamed url owner repo
    → Spells ssh_repo url (owner ∷ repo ∷ [])
Spells-of_IsSsh url owner repo u = (
  u.user,
  "@" <> u.host <> ":" <> u.rest,
  u.whole,
  u.user_run,
  (
    u.host <> ":" <> u.rest,
    refl,
    (
      u.host,
      ":" <> u.rest,
      refl,
      u.host_run,
      (u.rest, refl, Spells-of_IsNamed u.rest owner repo u.named),
    ),
  ),
)
