-- ===== src/Fmt.antt =====
-- What the code uses of fmt and path/filepath: the verb %q, and Join on a system with the separator "/".
use Prim.Native.Nat.{◌/◌, ◌%◌}
use Prim.Native.String
use Prim.Native.Char.{Char, code}
use kagents.Prelude.{
  ℕ, ◌+◌, ◌≡◌, refl, String, Bool, List, [], ◌∷◌, ◌==◌, ◌<>◌, ◌||◌, eqb, ltb, join, split,
  if◌then◌else◌, starts_with,
}

hex_digit : ℕ → String
hex_digit n = String.slice "0123456789abcdef" n (n + 1)

-- A character of a quoted text. A character beyond ASCII that is not printable is kept here.
quote_char : Char → String
unfolding hex_digit
quote_char c =
    let n = code c in
    if eqb n 34
    then "\\\""
    else if eqb n 92
    then "\\\\"
    else if eqb n 7
    then "\\a"
    else if eqb n 8
    then "\\b"
    else if eqb n 9
    then "\\t"
    else if eqb n 10
    then "\\n"
    else if eqb n 11
    then "\\v"
    else if eqb n 12
    then "\\f"
    else if eqb n 13
    then "\\r"
    else if ltb n 32 || eqb n 127
    then "\\x" <> hex_digit (n / 16) <> hex_digit (n % 16)
    else String.◌∷◌ c ""

quote_chars : String → String
unfolding quote_char
quote_chars String.[] = ""
quote_chars (String.◌∷◌ c s) = quote_char c <> quote_chars s

-- fmt.Sprintf("%q", s)
unfoldable pub quote : String → String
unfolding quote_chars
quote s = "\"" <> quote_chars s <> "\""

quote_test : quote "say \"hi\"\n" ≡ "\"say \\\"hi\\\"\\n\""
unfolding quote ◌<>◌
quote_test = refl

-- The segments that filepath.Clean keeps, the last first.
clean_segment : Bool → List String → String → List String
clean_segment rooted kept segment =
    if segment == "" || segment == "."
    then kept
    else if segment == ".."
    then elim kept [
      | [] ↦ if rooted then [] else ".." ∷ []
      | last ∷ before ↦ if last == ".." then ".." ∷ last ∷ before else before
    ]
    else segment ∷ kept

clean_segments : Bool → List String → List String → List String
unfolding clean_segment
clean_segments rooted kept [] = kept
clean_segments rooted kept (segment ∷ rest) =
    clean_segments rooted (clean_segment rooted kept segment) rest

backwards : List String → List String → List String
backwards [] acc = acc
backwards (s ∷ ss) acc = backwards ss (s ∷ acc)

unfoldable pub clean : String → String
unfolding clean_segments backwards
clean path =
    let rooted = starts_with path "/" in
    let cleaned = join (backwards (clean_segments rooted [] (split b'/' path)) []) "/" in
    if rooted then "/" <> cleaned else if cleaned == "" then "." else cleaned

-- filepath.Join of two elements, an empty one left out.
unfoldable pub join_path : String → String → String
join_path dir name =
    if dir == ""
    then (if name == "" then "" else clean name)
    else if name == ""
    then clean dir
    else clean (dir <> "/" <> name)

join_path_test : join_path "/workspace/in/" "../drafts//a.md" ≡ "/workspace/drafts/a.md"
unfolding join_path clean split ◌<>◌ join
join_path_test = refl

join_path_relative_test : join_path "" "./../x/.." ≡ ".."
unfolding join_path clean split ◌<>◌ join
join_path_relative_test = refl
