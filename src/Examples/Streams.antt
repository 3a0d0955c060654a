-- ===== src/Examples/Streams.antt =====
-- The stream of events at concrete inputs.
use kagents.Prelude.{◌≡◌, refl, true, false, none, List, [], ◌∷◌, All, Lacks, Lacks-of_literal}
use kagents.Result.{ok, err, not_found, other}
use kagents.Dashboard.Sse.{Signal, heartbeat, poll, hash_string, stream_until_done, is_unchanged}
use kagents.Dashboard.Sse.Reader.{read_events}
use kagents.Dashboard.Sse.Changes.{
  bodies, told, ended, latest, hash_of, data_of, stream_until_done_exact, stream_until_done-latest,
}

hash_string_runs : (hash_string "" ≡ 0xcbf29ce484222325) × (hash_string "a" ≡ 0xaf63dc4c8601ec8c)
unfolding hash_string
hash_string_runs = (refl, refl)

-- Two lines, twice; a failed read; one line; then the team is gone.
abbrev before_deletion : List Signal
before_deletion =
    poll (ok "<p>\nRunning")
    ∷ heartbeat true
    ∷ poll (ok "<p>\nRunning")
    ∷ poll (err (other "timeout"))
    ∷ poll (ok "Completed")
    ∷ []

abbrev signals : List Signal
signals =
    poll (ok "<p>\nRunning")
    ∷ heartbeat true
    ∷ poll (ok "<p>\nRunning")
    ∷ poll (err (not_found "team"))
    ∷ poll (ok "<p>\nRunning")
    ∷ []

clean : All (Lacks 13) (bodies signals)
clean = (
  Lacks-of_literal 13 "<p>\nRunning" refl,
  (Lacks-of_literal 13 "<p>\nRunning" refl, (Lacks-of_literal 13 "<p>\nRunning" refl, tt)),
)

stream_until_done_example :
    (read_events (stream_until_done none signals).text ≡ told none signals)
    × ((stream_until_done none signals).closed ≡ ended signals)
stream_until_done_example = stream_until_done_exact signals clean

told_runs :
    (told none signals
      ≡ record { name = "update"; data_text = "<p>\nRunning" }
        ∷ record { name = "deleted"; data_text = "team no longer exists" }
        ∷ [])
    × (ended signals ≡ true)
unfolding hash_string
told_runs = (refl, refl)

clean_before : All (Lacks 13) (bodies before_deletion)
clean_before = (
  Lacks-of_literal 13 "<p>\nRunning" refl,
  (Lacks-of_literal 13 "<p>\nRunning" refl, (Lacks-of_literal 13 "Completed" refl, tt)),
)

still_open : (stream_until_done none before_deletion).closed ≡ false
unfolding stream_until_done is_unchanged hash_string
still_open = refl

latest_example :
    hash_of (latest none (data_of (read_events (stream_until_done none before_deletion).text)))
    ≡ hash_of (latest none (bodies before_deletion))
latest_example = stream_until_done-latest before_deletion clean_before still_open
