-- ===== src/Delivery/Senders/Outcome.antt =====
-- What a delivery that succeeds has done.
use kagents.Prelude.{
  ◌≡◌, refl, sym, ◌⊎◌, inl, inr, ◌≤◌, ◌<◌, String, some, ◌==◌, Dict, lookup, lookup_or, eq_iff,
  arith, Bool-cases, lookup_or-cases,
}
use kagents.Result.{Result, ok, err, Result-cases}
use kagents.Http.{Json, HttpResponse}
use kagents.Api.Spec.{DeliveryTarget}
use kagents.Api.Resources.{AgentTeam}
use kagents.Delivery.Dispatch.{send, not_implemented}
use kagents.Delivery.Senders.{
  Courier, slack_payload, webhook_payload, post_request, check_code, post, send_to_slack,
  slack_sender, webhook_sender, new_dispatcher,
}

module _ {W : Type 0} (courier : Courier W) where
  open courier use {transport, get_secret, show_time}

  -- One POST was sent to the URL, and the answer has a code of success.
  pub record IsAnswered (w : W) (url : String) (body : Json) : Type 0 where
    pub answer : HttpResponse
    pub answered : (transport.do_request w (post_request courier url body)).0 ≡ ok answer
    pub at_least : 200 ≤ answer.code
    pub below : answer.code < 300

  check_code-ok :
      (receiver : String) (r : Result HttpResponse)
      → check_code courier receiver r ≡ ok tt
      → (answer : HttpResponse) × (r ≡ ok answer) × (200 ≤ answer.code) × (answer.code < 300)
  unfolding check_code
  check_code-ok receiver (err e) h = cc
  check_code-ok receiver (ok answer) h = (answer, refl, ground arith, ground arith)

  post-IsAnswered :
      (receiver : String) (w : W) (url : String) (body : Json)
      → (post courier receiver w url body).0 ≡ ok tt
      → IsAnswered w url body
  unfolding post
  post-IsAnswered receiver w url body h = elim (Result-cases (transport.new_request "POST" url)) [
    | inr (e, refused) ↦ ground arith
    | inl (u, made) ↦
        let (answer, answered, at_least, below) =
          check_code-ok receiver (transport.do_request w (post_request courier url body)).0
            (rw (made, post) at h) in
        record { answer = answer; answered = answered; at_least = at_least; below = below }
  ]

  -- The URL that a Slack target's secret holds.
  abbrev pub IsSlackUrl : W → DeliveryTarget → AgentTeam → String → Type 0
  IsSlackUrl w target team url =
      (entries : Dict String) × (get_secret w team.meta.namespace target.credentials_secret
        ≡ ok entries)
      × (lookup "slack-webhook-url" entries ≡ some url)

  abbrev pub IsDelivered : W → DeliveryTarget → AgentTeam → Type 0
  IsDelivered w target team =
      ((target.type ≡ "webhook") × IsAnswered w target.url (webhook_payload courier target team))
      ⊎ ((target.type ≡ "slack")
          × ((url : String) × IsSlackUrl w target team url
              × IsAnswered w url (slack_payload target team)))

  send_to_slack-IsAnswered :
      (r : Result (Dict String)) (w : W) (target : DeliveryTarget) (team : AgentTeam)
      → (send_to_slack courier r w target team).0 ≡ ok tt
      → (entries : Dict String) × (url : String) × (r ≡ ok entries)
        × (lookup "slack-webhook-url" entries ≡ some url)
        × IsAnswered w url (slack_payload target team)
  unfolding send_to_slack
  send_to_slack-IsAnswered (err e) w target team h = ground arith
  send_to_slack-IsAnswered (ok entries) w target team h =
      let url = lookup_or "" "slack-webhook-url" entries in
      elim (Bool-cases (url == "")) [
        | inl unset ↦ ground arith
        | inr set ↦ elim (lookup_or-cases "" "slack-webhook-url" entries) [
          | inl empty ↦ ground (arith, eq_iff url "")
          | inr found ↦ (
            entries,
            url,
            refl,
            found,
            post-IsAnswered "slack" w url (slack_payload target team)
                (rw (set, send_to_slack) at h),
          )
        ]
      ]

  slack_sender-IsDelivered :
      (w : W) (target : DeliveryTarget) (team : AgentTeam)
      → (slack_sender courier w target team).0 ≡ ok tt
      → (url : String) × IsSlackUrl w target team url × IsAnswered w url (slack_payload target team)
  unfolding slack_sender
  slack_sender-IsDelivered w target team h = elim (Bool-cases (target.credentials_secret == "")) [
    | inl unset ↦ ground arith
    | inr set ↦
        let (entries, url, loaded, found, answered) =
          send_to_slack-IsAnswered (get_secret w team.meta.namespace target.credentials_secret) w
            target team (rw (set, slack_sender) at h) in
        (url, (entries, loaded, found), answered)
  ]

  webhook_sender-IsDelivered :
      (w : W) (target : DeliveryTarget) (team : AgentTeam)
      → (webhook_sender courier w target team).0 ≡ ok tt
      → IsAnswered w target.url (webhook_payload courier target team)
  unfolding webhook_sender
  webhook_sender-IsDelivered w target team h = elim (Bool-cases (target.url == "")) [
    | inl unset ↦ ground arith
    | inr set ↦ post-IsAnswered "webhook" w target.url _ (rw (set, webhook_sender) at h)
  ]

  -- The dispatcher that the operator builds reports a success only for a webhook or a Slack target
  -- whose receiver, at the target's URL or at the URL in its secret, has answered the one POST of the
  -- team's summary with a code from 200 to 299.
  pub send-IsDelivered :
      (w : W) (target : DeliveryTarget) (team : AgentTeam)
      → (send (new_dispatcher courier) w target team).0 ≡ ok tt
      → IsDelivered w target team
  unfolding send new_dispatcher lookup not_implemented
  send-IsDelivered w target team h = elim (Bool-cases ("webhook" == target.type)) [
    | inl hook ↦ inl (
      sym ((eq_iff "webhook" target.type).0 hook),
      webhook_sender-IsDelivered w target team (rw (hook, send, lookup) at h),
    )
    | inr other ↦ elim (Bool-cases ("slack" == target.type)) [
      | inl slack ↦ inr (
        sym ((eq_iff "slack" target.type).0 slack),
        slack_sender-IsDelivered w target team (rw (other, slack, send, lookup) at h),
      )
      | inr neither ↦ elim (Bool-cases ("email" == target.type)) [
        | inl email ↦ ground arith
        | inr none_of_these ↦ ground arith
      ]
    ]
  ]
