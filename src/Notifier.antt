-- ===== src/Notifier.antt =====
-- internal/webhook/notifier.go: the events that a team's webhook is sent. The POST of an event runs in
-- the background, and its errors are only logged.
use kagents.Prelude.{
  String, Bool, Option, none, some, List, [], ◌∷◌, ◌==◌, contains, Dict, insert, if◌then◌else◌,
}
use kagents.Result.{ok, err}
use kagents.Http.{Json, str, Transport}

-- The URL, and the set of the events.
pub record Notifier : Type 0 where
  pub url : String
  pub events : List String

-- A nil notifier is `none`.
abbrev pub new_notifier : String → List String → Option Notifier
new_notifier url events = if url == "" then none else some (record { url = url; events = events })

abbrev pub is_subscribed : Notifier → String → Bool
is_subscribed n event_type = contains event_type n.events

-- The payload, with the two keys of the envelope over its own.
unfoldable pub envelope : String → String → Dict Json → Dict Json
envelope event_type timestamp payload =
    insert "timestamp" (str timestamp) (insert "event" (str event_type) payload)

-- What SendEvent has posted in the background: nothing, or an envelope to the notifier's URL.
abbrev pub envelope_of : String → String → Dict Json → Notifier → Option (String × Dict Json)
envelope_of event_type timestamp payload n =
    if is_subscribed n event_type then some (n.url, envelope event_type timestamp payload) else none

unfoldable pub send_notice :
    Option Notifier → String → String → Dict Json → Option (String × Dict Json)
send_notice none event_type timestamp payload = none
send_notice (some n) event_type timestamp payload = envelope_of event_type timestamp payload n

module _ {W : Type 0} (transport : Transport W) (marshal : Dict Json → Json) where
  -- post: what is left of the network.
  unfoldable pub post_notice : W → String × Dict Json → W
  post_notice w (url, fields) = elim (transport.new_request "POST" url) [
    | err e ↦ w
    | ok u ↦
        (transport.do_request w (record {
          method = "POST";
          url = url;
          headers = ("Content-Type", "application/json") ∷ [];
          body = marshal fields;
        })).1
  ]
