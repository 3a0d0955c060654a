-- ===== src/GitHub/Repo.antt =====
-- internal/github/parse.go: the owner and the name of a repository in its clone URL.
use kagents.Prelude.{
  String, Option, none, some, List, [], ◌∷◌, ◌==◌, ◌<>◌, trim_space, if◌then◌else◌,
}
use kagents.Result.{Result, ok, err, other}
use kagents.Fmt.{quote}
use kagents.Regexp.{Piece, literal, maybe, many, group, lazy_group, find}

-- ([^/]+)/([^/]+?)(?:\.git)?/?$
abbrev pub names_pattern : List Piece
names_pattern = group b'/' ∷ literal "/" ∷ lazy_group b'/' ∷ maybe ".git" ∷ maybe "/" ∷ []

abbrev pub https_repo : List Piece
https_repo = literal "http" ∷ maybe "s" ∷ literal "://" ∷ many b'/' ∷ literal "/" ∷ names_pattern

abbrev pub ssh_repo : List Piece
ssh_repo = many b'@' ∷ literal "@" ∷ many b':' ∷ literal ":" ∷ names_pattern

-- m[1] and m[2]: each of the two patterns has two groups.
abbrev pub names_of : List String → String × String
names_of (owner ∷ repo ∷ rest) = (owner, repo)
names_of (owner ∷ []) = (owner, "")
names_of [] = ("", "")

abbrev pub named : Option (List String) → Result (String × String) → Result (String × String)
named (some captures) next = ok (names_of captures)
named none next = next

unfoldable pub try_patterns : List (List Piece) → String → Result (String × String)
try_patterns [] url = err (other ("unrecognized git URL format: " <> quote url))
try_patterns (pattern ∷ patterns) url = named (find pattern url) (try_patterns patterns url)

unfoldable pub parse_repo : String → Result (String × String)
unfolding try_patterns
parse_repo text =
    let url = trim_space text in
    if url == ""
    then err (other "empty repository URL")
    else try_patterns (https_repo ∷ ssh_repo ∷ []) url
