-- ===== src/Dashboard/Sse/Reader.antt =====
-- The other end of the stream: how a browser reads server-sent events. A line ends at a line feed or at
-- a carriage return; the texts in question never have the one after the other.
use Prim.Native.Char.{Char, code}
use text.Mathlib.TextLemmas.{nil-append, cons-append, append_assoc}
use mathlib.Core.List
use kagents.Prelude.{
  ◌≡◌, refl, ap, sym, ◌∙◌, ℕ, String, Bool, true, Option, none, some, List, [], ◌∷◌, ◌++◌, ◌<>◌,
  ◌||◌, map, eqb, All, Lacks, split, split_filled, split-Lacks, split-Lacks_also, Lacks-append,
  lacks, Lacks-of_literal, join, join-split, split_filled, after_prefix, after_prefix-append,
  append-nil, if◌then◌else◌,
}
use kagents.Dashboard.Sse.{data_lines, write_sse_frame, heartbeat_comment}

is_end : ℕ → Bool
is_end c = eqb c 10 || eqb c 13

abbrev with_first : Char → List String → List String
with_first c [] = []
with_first c (line ∷ lines) = String.◌∷◌ c line ∷ lines

-- The lines that have ended.
unfoldable pub complete_lines : String → List String
unfolding is_end
complete_lines String.[] = []
complete_lines (String.◌∷◌ c s) =
    let rest = complete_lines s in if is_end (code c) then "" ∷ rest else with_first c rest

pub record Event : Type 0 where
  pub name : String
  pub data_text : String

-- A value without the one space before it.
abbrev unspaced : String → String
unspaced String.[] = ""
unspaced (String.◌∷◌ c s) = if eqb (code c) 32 then s else String.◌∷◌ c s

abbrev as_event : Option String → String → String
as_event (some value) name = unspaced value
as_event none name = name

abbrev as_data : Option String → List String → List String
as_data (some value) texts = texts ++ unspaced value ∷ []
as_data none texts = texts

abbrev dispatch : String → List String → List Event → List Event
dispatch name [] rest = rest
dispatch name (text ∷ texts) rest =
    record { name = name; data_text = join (text ∷ texts) "\n" } ∷ rest

-- The events in the lines, after the name and the data so far. An empty line ends an event, which
-- counts if it has data. Other fields and comments are passed over.
unfoldable pub read_lines : String → List String → List String → List Event
read_lines name texts [] = []
read_lines name texts (String.[] ∷ lines) = dispatch name texts (read_lines "message" [] lines)
read_lines name texts (String.◌∷◌ c s ∷ lines) =
    read_lines (as_event (after_prefix "event:" (String.◌∷◌ c s)) name)
      (as_data (after_prefix "data:" (String.◌∷◌ c s)) texts) lines

unfoldable pub read_events : String → List Event
read_events text = read_lines "message" [] (complete_lines text)

-- What the server writes is read back.

-- A text that is one line.
abbrev pub IsLine : String → Type 0
IsLine s = Lacks 10 s × Lacks 13 s

pub IsLine-of_literal : (s : String) → lacks 10 s ≡ true → lacks 13 s ≡ true → IsLine s
IsLine-of_literal s h k = (Lacks-of_literal 10 s h, Lacks-of_literal 13 s k)

IsLine-append : (a b : String) → IsLine a → IsLine b → IsLine (a <> b)
IsLine-append a b h k = (Lacks-append 10 a b h.0 k.0, Lacks-append 13 a b h.1 k.1)

complete_lines-append :
    (a r : String) → IsLine a → complete_lines (a <> "\n" <> r) ≡ a ∷ complete_lines r
unfolding complete_lines is_end ◌<>◌
complete_lines-append String.[] r h =
    rw (nil-append ("\n" <> r), cons-append "\n" "" r, nil-append r) refl
complete_lines-append (String.◌∷◌ c a) r (h, k) =
    rw (cons-append c a ("\n" <> r), complete_lines, h.0, k.0, complete_lines-append a r (h.1, k.1))
      refl

complete_lines-end : (r : String) → complete_lines ("\n" <> r) ≡ "" ∷ complete_lines r
unfolding ◌<>◌
complete_lines-end r =
    ap complete_lines (sym (nil-append ("\n" <> r))) ∙ complete_lines-append "" r (tt, tt)

abbrev data_line : String → String
data_line text = "data: " <> text

lines_of_data :
    (lines : List String) (r : String)
    → All IsLine lines
    → complete_lines (data_lines lines <> r) ≡ map data_line lines ++ complete_lines r
unfolding data_lines ◌<>◌
lines_of_data [] r h = ap complete_lines (nil-append r)
lines_of_data (line ∷ lines) r h =
    ap complete_lines (
      append_assoc "data: " (line <> "\n" <> data_lines lines) r
      ∙ ap (λ x. "data: " <> x)
          (append_assoc line ("\n" <> data_lines lines) r
            ∙ ap (λ x. line <> x) (append_assoc "\n" (data_lines lines) r))
      ∙ sym (append_assoc "data: " line ("\n" <> data_lines lines <> r)))
    ∙ complete_lines-append (data_line line) (data_lines lines <> r)
        (IsLine-append "data: " line (IsLine-of_literal "data: " refl refl) h.0)
    ∙ ap (λ x. data_line line ∷ x) (lines_of_data lines r h.1)

read_line :
    (name : String) (texts lines : List String) (l : String) {c : Char} {s : String}
    → l ≡ String.◌∷◌ c s
    → read_lines name texts (l ∷ lines)
      ≡ read_lines
          (as_event (after_prefix "event:" l) name)
          (as_data (after_prefix "data:" l) texts)
          lines
unfolding read_lines
read_line name texts lines l h = rw h refl

unspaced-space : (s : String) → unspaced (" " <> s) ≡ s
unfolding ◌<>◌
unspaced-space s = rw (cons-append " " "" s, nil-append s) refl

data_line-read :
    (name line : String) (texts lines : List String)
    → read_lines name texts (data_line line ∷ lines) ≡ read_lines name (texts ++ line ∷ []) lines
unfolding ◌<>◌ after_prefix
data_line-read name line texts lines =
    let start = cons-append "d" "ata: " line in
    let found : after_prefix "data:" (data_line line) ≡ some (" " <> line) =
      ap (λ x. after_prefix "data:" x) (append_assoc "data:" " " line)
      ∙ after_prefix-append "data:" (" " <> line) in
    let missing : after_prefix "event:" (data_line line) ≡ none =
      ap (λ x. after_prefix "event:" x) start in
    read_line name texts lines (data_line line) start
    ∙ rw (found, missing, unspaced-space line) refl

event_line-read :
    (old name : String) (texts lines : List String)
    → read_lines old texts (("event: " <> name) ∷ lines) ≡ read_lines name texts lines
unfolding ◌<>◌ after_prefix
event_line-read old name texts lines =
    let start = cons-append "e" "vent: " name in
    let found : after_prefix "event:" ("event: " <> name) ≡ some (" " <> name) =
      ap (λ x. after_prefix "event:" x) (append_assoc "event:" " " name)
      ∙ after_prefix-append "event:" (" " <> name) in
    let missing : after_prefix "data:" ("event: " <> name) ≡ none =
      ap (λ x. after_prefix "data:" x) start in
    read_line old texts lines ("event: " <> name) start
    ∙ rw (found, missing, unspaced-space name) refl

read_data :
    (name : String) (texts lines rest : List String)
    → read_lines name texts (map data_line lines ++ rest) ≡ read_lines name (texts ++ lines) rest
read_data name texts [] rest = ap (λ x. read_lines name x rest) (sym (append-nil texts))
read_data name texts (line ∷ lines) rest =
    data_line-read name line texts (map data_line lines ++ rest)
    ∙ read_data name (texts ++ line ∷ []) lines rest
    ∙ ap (λ x. read_lines name x rest) (mathlib.Core.List.append_assoc texts (line ∷ []) lines)

regrouped : (a b c d e r : String) → (a <> b <> c <> d <> e) <> r ≡ (a <> b) <> c <> d <> e <> r
unfolding ◌<>◌
regrouped a b c d e r = simp (append_assoc)

All-both : (parts : List String) → All (Lacks 10) parts → All (Lacks 13) parts → All IsLine parts
All-both [] h k = tt
All-both (part ∷ parts) h k = ((h.0, k.0), All-both parts h.1 k.1)

lines_of_frame :
    (name payload r : String)
    → IsLine name
    → Lacks 13 payload
    → complete_lines (write_sse_frame name payload <> r)
      ≡ ("event: " <> name) ∷ (map data_line (split 10 payload) ++ "" ∷ complete_lines r)
unfolding write_sse_frame
lines_of_frame name payload r h k =
    let parts = split 10 payload in
    ap complete_lines (regrouped "event: " name "\n" (data_lines parts) "\n" r)
    ∙ complete_lines-append ("event: " <> name) (data_lines parts <> "\n" <> r)
        (IsLine-append "event: " name (IsLine-of_literal "event: " refl refl) h)
    ∙ ap (λ x. ("event: " <> name) ∷ x)
        (lines_of_data parts ("\n" <> r)
            (All-both parts (split-Lacks 10 payload) (split-Lacks_also 10 13 payload k))
          ∙ ap (λ x. map data_line parts ++ x) (complete_lines-end r))

dispatch_payload :
    (name payload : String) (rest : List Event)
    → dispatch name (split 10 payload) rest ≡ record { name = name; data_text = payload } ∷ rest
dispatch_payload name payload rest =
    let (part, parts, filled) = split_filled "\n" payload in
    let joined : join (part ∷ parts) "\n" ≡ payload =
      ap (λ x. join x "\n") (sym filled) ∙ join-split "\n" payload in
    rw (filled, joined) refl

-- A frame is read as one event, whose data is the payload.
pub read_frame :
    (name payload r old : String)
    → IsLine name
    → Lacks 13 payload
    → read_lines old [] (complete_lines (write_sse_frame name payload <> r))
      ≡ record { name = name; data_text = payload } ∷ read_events r
unfolding read_lines read_events
read_frame name payload r old h k =
    ap (λ x. read_lines old [] x) (lines_of_frame name payload r h k)
    ∙ event_line-read old name [] _
    ∙ read_data name [] (split 10 payload) ("" ∷ complete_lines r)
    ∙ dispatch_payload name payload (read_events r)

-- A heartbeat is not an event.
pub read_heartbeat : (r : String) → read_events (heartbeat_comment <> r) ≡ read_events r
unfolding read_lines read_events ◌<>◌ after_prefix
read_heartbeat r =
    ap (λ x. read_lines "message" [] (complete_lines x))
      (append_assoc ": heartbeat" "\n\n" r
        ∙ ap (λ x. ": heartbeat" <> x) (append_assoc "\n" "\n" r))
    ∙ ap (λ x. read_lines "message" [] x)
        (complete_lines-append ": heartbeat" ("\n" <> r) (IsLine-of_literal ": heartbeat" refl refl)
          ∙ ap (λ x. ": heartbeat" ∷ x) (complete_lines-end r))
