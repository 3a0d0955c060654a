-- ===== src/Examples/Deliveries.antt =====
-- The senders of deliveries at concrete inputs.
use kagents.Prelude.{
  Option, none, some, Dict, insert, contains, ◌≡◌, refl, ℕ, ◌+◌, String, ◌∷◌, [], show_nat, lookup,
  lookup_or, ◌<>◌, ◌==◌, if◌then◌else◌,
}
use kagents.Result.{ok, err, other}
use kagents.Http.{Json, str}
use kagents.Notifier.{new_notifier, send_notice, envelope}
use kagents.Api.Spec.{DeliveryTarget}
use kagents.Delivery.{send}
use kagents.Delivery.Senders.{Courier, slack_sender, webhook_sender, new_dispatcher}
use kagents.Delivery.Senders.Outcome.{IsDelivered, send-IsDelivered}
use kagents.Examples.Data.{report_team}

-- Counts the requests, and refuses those for one URL.
abbrev courier : Courier ℕ
courier = record {
  transport = record {
    new_request = λ method url. ok tt;
    do_request = λ w req. (
      ok (
          if req.url == "https://down"
          then record { code = 503; status = "503 Service Unavailable"; body = "" }
          else record { code = 204; status = "204 No Content"; body = "" }),
      w + 1,
    );
  };
  get_secret = λ w namespace name. ok (("slack-webhook-url", "https://hooks.slack.com/x") ∷ []);
  show_time = show_nat;
}

abbrev target : String → String → DeliveryTarget
target type url = record {
  type = type;
  artifact_path = "";
  message = "";
  url = url;
  channel = "#reports";
  to = [];
  subject = "";
  attachment_path = "";
  folder = "";
  credentials_secret = "slack";
}

abbrev map_fields : String → Option (String × Dict Json) → Option (Option Json)
map_fields key none = none
map_fields key (some (url, fields)) = some (lookup key fields)

slack_answers : (send (new_dispatcher courier) 0 (target "slack" "") report_team).0 ≡ ok tt
unfolding send new_dispatcher lookup slack_sender lookup_or
slack_answers = refl

send_example : IsDelivered courier 0 (target "slack" "") report_team
send_example = send-IsDelivered courier 0 (target "slack" "") report_team slack_answers

send_runs :
    (send (new_dispatcher courier) 0 (target "webhook" "https://down") report_team
      ≡ (err (other "webhook returned 503 Service Unavailable"), 1))
    × (send (new_dispatcher courier) 0 (target "webhook" "") report_team
        ≡ (err (other "webhook delivery requires url"), 0))
    × ((send (new_dispatcher courier) 0 (target "webhook" "https://up") report_team).0 ≡ ok tt)
unfolding send new_dispatcher lookup webhook_sender ◌<>◌
send_runs = (refl, refl, refl)

-- A notifier posts what it is subscribed to; the envelope's keys win over the payload's.
send_notice_runs :
    let n = new_notifier "https://hook" ("team.started" ∷ []) in
    (send_notice n "team.failed" "now" [] ≡ none)
    × (send_notice (new_notifier "" ("team.started" ∷ [])) "team.started" "now" [] ≡ none)
    × (map_fields "event" (send_notice n "team.started" "now" (("event", str "mine") ∷ []))
        ≡ some (some (str "team.started")))
unfolding send_notice envelope lookup insert contains
send_notice_runs = (refl, refl, refl)
