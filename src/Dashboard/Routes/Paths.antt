-- ===== src/Dashboard/Routes/Paths.antt =====
-- The links of the web interface and of its API as paths.
use kagents.Prelude.{
  ◌≡◌, refl, ap, ◌∙◌, String, List, [], ◌∷◌, ◌<>◌, All, join, split, IsSegment, trim_prefix-append,
  split-trim_char-join, Lacks-of_literal, trim_char,
}
use kagents.Dashboard.{path_parts}

-- By namespace and team, and the agent of a log.
pub data Link : Type 0 where
  team_link : String → String → Link
  events_link : String → String → Link
  log_link : String → String → String → Link
  page_link : String → String → Link
  fragment_link : String → String → Link

abbrev pub prefix_of : Link → String
prefix_of (team_link ns name) = "/api/teams/"
prefix_of (events_link ns name) = "/api/teams/"
prefix_of (log_link ns name agent) = "/api/teams/"
prefix_of (page_link ns name) = "/teams/"
prefix_of (fragment_link ns name) = "/api/htmx/teams/"

abbrev pub first_of : Link → String
first_of (team_link ns name) = ns
first_of (events_link ns name) = ns
first_of (log_link ns name agent) = ns
first_of (page_link ns name) = ns
first_of (fragment_link ns name) = ns

abbrev pub others_of : Link → List String
others_of (team_link ns name) = name ∷ []
others_of (events_link ns name) = name ∷ "events" ∷ []
others_of (log_link ns name agent) = name ∷ "logs" ∷ agent ∷ []
others_of (page_link ns name) = name ∷ []
others_of (fragment_link ns name) = name ∷ []

abbrev pub path_of : Link → String
path_of link = prefix_of link <> join (first_of link ∷ others_of link) "/"

abbrev pub IsName : String → Type 0
IsName = IsSegment b'/'

abbrev pub IsClean : Link → Type 0
IsClean (team_link ns name) = IsName ns × IsName name
IsClean (events_link ns name) = IsName ns × IsName name
IsClean (log_link ns name agent) = IsName ns × IsName name × IsName agent
IsClean (page_link ns name) = IsName ns × IsName name
IsClean (fragment_link ns name) = IsName ns × IsName name

Names-of_IsClean : (link : Link) → IsClean link → All IsName (first_of link ∷ others_of link)
Names-of_IsClean (team_link ns name) (h, k) = (h, (k, tt))
Names-of_IsClean (events_link ns name) (h, k) =
    (h, (k, ((λ e. cc, Lacks-of_literal b'/' "events" refl), tt)))
Names-of_IsClean (log_link ns name agent) (h, k, l) =
    (h, (k, ((λ e. cc, Lacks-of_literal b'/' "logs" refl), (l, tt))))
Names-of_IsClean (page_link ns name) (h, k) = (h, (k, tt))
Names-of_IsClean (fragment_link ns name) (h, k) = (h, (k, tt))

pub path_parts-path_of :
    (link : Link)
    → IsClean link
    → path_parts (prefix_of link) (path_of link) ≡ first_of link ∷ others_of link
unfolding path_parts
path_parts-path_of link h =
    ap (λ x. split b'/' (trim_char b'/' x)) (trim_prefix-append (prefix_of link) _)
    ∙ split-trim_char-join "/" (first_of link) (others_of link) (Names-of_IsClean link h)
