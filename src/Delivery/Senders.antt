-- ===== src/Delivery/Senders.antt =====
-- internal/delivery/slack.go and webhook.go, and the dispatcher that holds them. The network and the
-- read of a secret are the parameters of the record `Courier`.
pub mod Outcome
use kagents.Prelude.{
  String, Bool, Option, none, some, List, [], ◌∷◌, ◌==◌, ◌<>◌, ◌||◌, Dict, lookup_or, ltb, leb,
  if◌then◌else◌,
}
use kagents.Result.{Result, ok, err, other, wrap}
use kagents.Fmt.{quote}
use kagents.Http.{
  Json, str, arr, obj, Items, nil, cons, Fields, end, field, HttpRequest, HttpResponse, Transport,
}
use kagents.Api.Spec.{DeliveryTarget}
use kagents.Api.Status.{Time, ArtifactStatus}
use kagents.Api.Resources.{AgentTeam}
use kagents.Delivery.Dispatch.{Sender, not_implemented}

pub record Courier (W : Type 0) : Type 0 where
  pub transport : Transport W
  -- the data of a secret, by namespace and name
  pub get_secret : W → String → String → Result (Dict String)
  -- the JSON text of a time
  pub show_time : Time → String

artifact_lines : List ArtifactStatus → String
artifact_lines [] = ""
artifact_lines (a ∷ rest) =
    "• " <> a.name <> " (by " <> a.produced_by <> ")\n" <> artifact_lines rest

artifacts_part : List ArtifactStatus → String
unfolding artifact_lines
artifacts_part [] = ""
artifacts_part (a ∷ rest) = "\nArtifacts:\n" <> artifact_lines (a ∷ rest)

unfoldable pub format_slack_message : DeliveryTarget → AgentTeam → String
unfolding artifacts_part
format_slack_message target team =
    (if target.message == ""
      then "Team *" <> team.meta.name <> "* finished with phase *" <> team.status.phase <> "*."
      else target.message)
    <> artifacts_part team.status.artifacts

-- A text field that `omitempty` leaves out where it is empty.
abbrev optional : String → String → Fields → Fields
optional key value rest = if value == "" then rest else field key (str value) rest

unfoldable pub slack_payload : DeliveryTarget → AgentTeam → Json
slack_payload target team =
    obj (
      field "text" (str (format_slack_message target team)) (optional "channel" target.channel end))

module _ {W : Type 0} (courier : Courier W) where
  open courier use {transport, get_secret, show_time}

  artifact_items : List ArtifactStatus → Items
  artifact_items [] = nil
  artifact_items (a ∷ rest) =
      cons
        (obj (
          field "name" (str a.name) (
            field "path" (str a.path) (
              field "producedBy" (str a.produced_by)
                (field "producedAt" (str (show_time a.produced_at)) end)))))
        (artifact_items rest)

  artifacts_field : List ArtifactStatus → Fields
  unfolding artifact_items
  artifacts_field [] = end
  artifacts_field (a ∷ rest) = field "artifacts" (arr (artifact_items (a ∷ rest))) end

  unfoldable pub webhook_payload : DeliveryTarget → AgentTeam → Json
  unfolding artifacts_field
  webhook_payload target team = obj (
      field "event" (str "team.completed") (
        field "team" (str team.meta.name) (
          field "namespace" (str team.meta.namespace) (
            field "phase" (str team.status.phase)
              (optional "message" target.message (artifacts_field team.status.artifacts))))))

  abbrev pub post_request : String → Json → HttpRequest
  post_request url body = record {
    method = "POST";
    url = url;
    headers = ("Content-Type", "application/json") ∷ ("User-Agent", "kagents/0.8") ∷ [];
    body = body;
  }

  check_code : String → Result HttpResponse → Result (Unit {0})
  check_code receiver (err e) = err (wrap "post" e)
  check_code receiver (ok answer) =
      if ltb answer.code 200 || leb 300 answer.code
      then err (other (receiver <> " returned " <> answer.status))
      else ok tt

  -- The POST that both senders end in.
  post : String → W → String → Json → Result (Unit {0}) × W
  unfolding check_code
  post receiver w url body = elim (transport.new_request "POST" url) [
    | err e ↦ (err (wrap "build request" e), w)
    | ok u ↦
        let (r, w') = transport.do_request w (post_request url body) in (check_code receiver r, w')
  ]

  missing_url : String → W → Result (Unit {0}) × W
  missing_url name w =
      (err (other ("secret " <> name <> " is missing key " <> quote "slack-webhook-url")), w)

  send_to_slack : Result (Dict String) → Sender W
  unfolding missing_url post
  send_to_slack (err e) w target team =
      (err (wrap ("loading credentials " <> target.credentials_secret) e), w)
  send_to_slack (ok entries) w target team =
      let url = lookup_or "" "slack-webhook-url" entries in
      if url == ""
      then missing_url target.credentials_secret w
      else post "slack" w url (slack_payload target team)

  -- SlackSender.Send
  unfoldable pub slack_sender : Sender W
  unfolding send_to_slack
  slack_sender w target team =
      if target.credentials_secret == ""
      then (err (other "slack delivery requires credentialsSecret"), w)
      else send_to_slack (get_secret w team.meta.namespace target.credentials_secret) w target team

  -- WebhookSender.Send
  unfoldable pub webhook_sender : Sender W
  unfolding post
  webhook_sender w target team =
      if target.url == ""
      then (err (other "webhook delivery requires url"), w)
      else post "webhook" w target.url (webhook_payload target team)

  unfoldable pub new_dispatcher : Dict (Sender W)
  new_dispatcher =
      ("webhook", webhook_sender)
      ∷ ("slack", slack_sender)
      ∷ ("email", not_implemented "email")
      ∷ ("google-drive", not_implemented "google-drive")
      ∷ []
