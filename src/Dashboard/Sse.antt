-- ===== src/Dashboard/Sse.antt =====
-- internal/dashboard/sse.go: the stream of server-sent events to one viewer.
pub mod Reader
pub mod Changes
use Prim.Native.Nat.{bit_xor}
use Prim.Native.Char.{code}
use kagents.Prelude.{
  ℕ, ◌+◌, ◌*◌, ◌/◌, ◌%◌, ◌^◌, String, Bool, true, false, Option, none, some, List, [], ◌∷◌, ◌++◌,
  ◌<>◌, eqb, ltb, split, if◌then◌else◌,
}
use kagents.Result.{Result, Error, ok, err, is_not_found}

-- hash/fnv

-- The bytes of a character in UTF-8.
utf8 : ℕ → List ℕ
utf8 c =
    if ltb c 0x80
    then c ∷ []
    else if ltb c 0x800
    then (0xc0 + c / 64) ∷ (0x80 + c % 64) ∷ []
    else if ltb c 0x10000
    then (0xe0 + c / 4096) ∷ (0x80 + c / 64 % 64) ∷ (0x80 + c % 64) ∷ []
    else (0xf0 + c / 262144) ∷ (0x80 + c / 4096 % 64) ∷ (0x80 + c / 64 % 64) ∷ (0x80 + c % 64) ∷ []

fnv_bytes : ℕ → List ℕ → ℕ
fnv_bytes h [] = h
fnv_bytes h (b ∷ bs) = fnv_bytes (bit_xor h b * 1099511628211 % 2 ^ 64) bs

fnv_text : ℕ → String → ℕ
unfolding utf8 fnv_bytes
fnv_text h String.[] = h
fnv_text h (String.◌∷◌ c s) = fnv_text (fnv_bytes h (utf8 (code c))) s

-- FNV-1a with 64 bits
unfoldable pub hash_string : String → ℕ
unfolding fnv_text
hash_string s = fnv_text 14695981039346656037 s

-- Frames

data_lines : List String → String
data_lines [] = ""
data_lines (line ∷ lines) = "data: " <> line <> "\n" <> data_lines lines

unfoldable pub write_sse_frame : String → String → String
unfolding data_lines
write_sse_frame event_name payload =
    "event: " <> event_name <> "\n" <> data_lines (split 10 payload) <> "\n"

abbrev pub heartbeat_comment : String
heartbeat_comment = ": heartbeat\n\n"

-- What `select` chose: the request's context is cancelled, the heartbeat ticked, and whether its comment
-- could be written, or the poll ticked, and what `render` returned.
pub data Signal : Type 0 where
  done : Signal
  heartbeat : Bool → Signal
  poll : Result String → Signal

-- What is written to the viewer, and whether the handler has returned.
pub record Written : Type 0 where
  pub text : String
  pub closed : Bool

abbrev pub and_then : String → Written → Written
and_then text rest = record rest { text = text <> rest.text }

abbrev closed_with : String → Written
closed_with text = record { text = text; closed = true }

-- !first && h == lastHash, where `none` stands for `first`
unfoldable pub is_unchanged : Option ℕ → ℕ → Bool
is_unchanged none h = false
is_unchanged (some last_hash) h = eqb h last_hash

-- streamUntilDone on the signals so far.
unfoldable pub stream_until_done : Option ℕ → List Signal → Written
stream_until_done last_hash [] = record { text = ""; closed = false }
stream_until_done last_hash (done ∷ signals) = closed_with ""
stream_until_done last_hash (heartbeat false ∷ signals) = closed_with ""
stream_until_done last_hash (heartbeat true ∷ signals) =
    and_then heartbeat_comment (stream_until_done last_hash signals)
stream_until_done last_hash (poll (err e) ∷ signals) =
    let rest = stream_until_done last_hash signals in
    if is_not_found e then closed_with (write_sse_frame "deleted" "team no longer exists") else rest
stream_until_done last_hash (poll (ok body) ∷ signals) =
    let h = hash_string body in
    let unchanged = stream_until_done last_hash signals in
    let rest = stream_until_done (some h) signals in
    if is_unchanged last_hash h then unchanged else and_then (write_sse_frame "update" body) rest
