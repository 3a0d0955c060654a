-- ===== src/Dashboard/Sse/Changes.antt =====
-- What a viewer is told, against the bodies that were rendered.
use text.Mathlib.TextLemmas.{append-nil}
use kagents.Prelude.{
  ◌≡◌, refl, inl, inr, ap, sym, ◌∙◌, ℕ, String, Bool, true, false, Option, none, some, List, [],
  ◌∷◌, ◌++◌, ◌<>◌, map, eqb, All, Lacks, Lacks-of_literal, arith, Bool-cases, if◌then◌else◌,
}
use kagents.Result.{ok, err, not_found, already_exists, other, is_not_found}
use kagents.Dashboard.Sse.{
  Signal, done, heartbeat, poll, hash_string, is_unchanged, write_sse_frame, stream_until_done,
}
use kagents.Dashboard.Sse.Reader.{
  Event, read_events, read_lines, complete_lines, read_frame, read_heartbeat, IsLine-of_literal,
}

-- The signal is the last one.
abbrev pub ends : Signal → Bool
ends done = true
ends (heartbeat written) = if written then false else true
ends (poll (ok body)) = false
ends (poll (err e)) = is_not_found e

-- The signals up to the last one, that one included.
abbrev pub until_end : List Signal → List Signal
until_end [] = []
until_end (signal ∷ signals) =
    let rest = until_end signals in if ends signal then signal ∷ [] else signal ∷ rest

-- The bodies that were rendered.
abbrev pub bodies : List Signal → List String
bodies [] = []
bodies (done ∷ signals) = bodies signals
bodies (heartbeat written ∷ signals) = bodies signals
bodies (poll (err e) ∷ signals) = bodies signals
bodies (poll (ok body) ∷ signals) = body ∷ bodies signals

-- Each body whose hash differs from that of the body before it; the first one counts.
abbrev pub changes : Option String → List String → List String
changes previous [] = []
changes previous (body ∷ rest) =
    let later = changes (some body) rest in if differs previous body then body ∷ later else later
  where
    differs : Option String → String → Bool
    differs none body = true
    differs (some before) body = if eqb (hash_string body) (hash_string before) then false else true

abbrev pub updates : List String → List Event
updates [] = []
updates (body ∷ rest) = record { name = "update"; data_text = body } ∷ updates rest

-- The goodbye of a stream whose team is gone.
abbrev pub farewell : List Signal → List Event
farewell [] = []
farewell (poll (err e) ∷ signals) =
    let rest = farewell signals in
    if is_not_found e
    then record { name = "deleted"; data_text = "team no longer exists" } ∷ []
    else rest
farewell (done ∷ signals) = farewell signals
farewell (heartbeat written ∷ signals) = farewell signals
farewell (poll (ok body) ∷ signals) = farewell signals

abbrev pub ended : List Signal → Bool
ended [] = false
ended (signal ∷ signals) = let rest = ended signals in if ends signal then true else rest

-- What the viewer of the signals is to be told.
abbrev pub told : Option String → List Signal → List Event
told previous signals =
    updates (changes previous (bodies (until_end signals))) ++ farewell (until_end signals)

abbrev pub hash_of : Option String → Option ℕ
hash_of none = none
hash_of (some body) = some (hash_string body)

abbrev IsTold : Option String → List Signal → Type 0
IsTold previous signals =
    let written = stream_until_done (hash_of previous) signals in
    (read_events written.text ≡ told previous signals) × (written.closed ≡ ended signals)

read_update :
    (body r : String)
    → Lacks 13 body
    → read_events (write_sse_frame "update" body <> r)
      ≡ record { name = "update"; data_text = body } ∷ read_events r
unfolding read_events
read_update body r k = read_frame "update" body r "message" (IsLine-of_literal "update" refl refl) k

abbrev gone_frame : String
gone_frame = write_sse_frame "deleted" "team no longer exists"

read_deleted :
    read_events gone_frame ≡ record { name = "deleted"; data_text = "team no longer exists" } ∷ []
unfolding read_events read_lines ◌<>◌ complete_lines
read_deleted =
    ap (λ x. read_events x) (sym (append-nil gone_frame))
    ∙ read_frame "deleted" "team no longer exists" "" "message"
        (IsLine-of_literal "deleted" refl refl) (Lacks-of_literal 13 "team no longer exists" refl)

stream_until_done-IsTold :
    (previous : Option String) (signals : List Signal)
    → All (Lacks 13) (bodies signals)
    → IsTold previous signals
unfolding stream_until_done is_unchanged read_events read_lines complete_lines write_sse_frame
stream_until_done-IsTold previous [] h = (refl, refl)
stream_until_done-IsTold previous (done ∷ signals) h = (refl, refl)
stream_until_done-IsTold previous (heartbeat false ∷ signals) h = (refl, refl)
stream_until_done-IsTold previous (heartbeat true ∷ signals) h =
    let (same, over) = stream_until_done-IsTold previous signals h in
    (read_heartbeat _ ∙ same, over)
stream_until_done-IsTold previous (poll (err (not_found m)) ∷ signals) h = (read_deleted, refl)
stream_until_done-IsTold previous (poll (err (already_exists m)) ∷ signals) h =
    stream_until_done-IsTold previous signals h
stream_until_done-IsTold previous (poll (err (other m)) ∷ signals) h =
    stream_until_done-IsTold previous signals h
stream_until_done-IsTold none (poll (ok body) ∷ signals) h =
    let (same, over) = stream_until_done-IsTold (some body) signals h.1 in
    (read_update body _ h.0 ∙ ap (λ x. record { name = "update"; data_text = body } ∷ x) same, over)
stream_until_done-IsTold (some before) (poll (ok body) ∷ signals) h =
    let (same, over) = stream_until_done-IsTold (some body) signals h.1 in
    elim (Bool-cases (eqb (hash_string body) (hash_string before))) [
      | inl unchanged ↦
          let e : hash_string body ≡ hash_string before = ground arith in
          rw (unchanged, sym e) (same, over)
      | inr changed ↦ rw changed (
        read_update body _ h.0 ∙ ap (λ x. record { name = "update"; data_text = body } ∷ x) same,
        over,
      )
    ]

-- A viewer that splits the stream into server-sent events, which needs bodies without a carriage
-- return, reads exactly these: an update for each rendered body whose hash differs from the one
-- rendered before it, and the first, in order and with the body as its data; and one event "deleted" if
-- the team is found to be gone. The handler returns exactly at the first of these signals: the context
-- is done, a heartbeat cannot be written, the team is gone. Other errors of a render are passed over.
pub stream_until_done_exact :
    (signals : List Signal)
    → All (Lacks 13) (bodies signals)
    → (read_events (stream_until_done none signals).text ≡ told none signals)
      × ((stream_until_done none signals).closed ≡ ended signals)
stream_until_done_exact signals h = stream_until_done-IsTold none signals h

-- The last of some bodies, or the one before them.
abbrev pub latest : Option String → List String → Option String
latest previous [] = previous
latest previous (body ∷ rest) = latest (some body) rest

latest-hash :
    (p q : Option String) (rest : List String)
    → hash_of p ≡ hash_of q
    → hash_of (latest p rest) ≡ hash_of (latest q rest)
latest-hash p q [] h = h
latest-hash p q (body ∷ rest) h = refl

latest-changes :
    (previous : Option String) (rest : List String)
    → hash_of (latest previous (changes previous rest)) ≡ hash_of (latest previous rest)
latest-changes previous [] = refl
latest-changes none (body ∷ rest) = latest-changes (some body) rest
latest-changes (some before) (body ∷ rest) =
    elim (Bool-cases (eqb (hash_string body) (hash_string before))) [
      | inl unchanged ↦
          let e : hash_string body ≡ hash_string before = ground arith in
          rw unchanged (
            latest-hash (some before) (some body) (changes (some body) rest)
              (ap (λ h. some h) (sym e))
            ∙ latest-changes (some body) rest)
      | inr changed ↦ rw changed (latest-changes (some body) rest)
    ]

until_end-open :
    (signals : List Signal)
    → ended signals ≡ false
    → (until_end signals ≡ signals) × (farewell signals ≡ [])
until_end-open [] h = (refl, refl)
until_end-open (done ∷ signals) h = cc
until_end-open (heartbeat false ∷ signals) h = cc
until_end-open (heartbeat true ∷ signals) h =
    let (same, nothing) = until_end-open signals h in (ap (λ x. heartbeat true ∷ x) same, nothing)
until_end-open (poll (ok body) ∷ signals) h =
    let (same, nothing) = until_end-open signals h in (ap (λ x. poll (ok body) ∷ x) same, nothing)
until_end-open (poll (err (not_found m)) ∷ signals) h = cc
until_end-open (poll (err (already_exists m)) ∷ signals) h =
    let (same, nothing) = until_end-open signals h in
    (ap (λ x. poll (err (already_exists m)) ∷ x) same, nothing)
until_end-open (poll (err (other m)) ∷ signals) h =
    let (same, nothing) = until_end-open signals h in
    (ap (λ x. poll (err (other m)) ∷ x) same, nothing)

abbrev pub data_of : List Event → List String
data_of events = map (λ e. e.data_text) events

data_of-updates : (texts : List String) → data_of (updates texts ++ []) ≡ texts
data_of-updates [] = refl
data_of-updates (text ∷ texts) = ap (λ x. text ∷ x) (data_of-updates texts)

-- As long as the handler has not returned, the last event that the viewer has read has data of the same
-- hash as the body that was rendered last; there is one as soon as a body was rendered. The bodies are
-- without a carriage return.
pub stream_until_done-latest :
    (signals : List Signal)
    → All (Lacks 13) (bodies signals)
    → (stream_until_done none signals).closed ≡ false
    → hash_of (latest none (data_of (read_events (stream_until_done none signals).text)))
      ≡ hash_of (latest none (bodies signals))
stream_until_done-latest signals h running =
    let (same, over) = stream_until_done-IsTold none signals h in
    let (all, nothing) = until_end-open signals (sym over ∙ running) in
    rw (same, all, nothing, data_of-updates (changes none (bodies signals)))
      (latest-changes none (bodies signals))
