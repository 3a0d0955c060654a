-- ===== src/Team/Runtime.antt =====
-- What one pass of the AgentTeam reconciler works on: its parameters (`Env`), and the state that it
-- changes (`Pass`): the cluster, the team in memory, and the record of what it sent out. One pass
-- reads the clock once, and between its own writes the cluster stays as it is.
use kagents.Prelude.{
  ℕ, ◌+◌, ◌-◌, ◌/◌, String, Bool, false, Option, none, some, List, [], ◌∷◌, ◌++◌, ltb, Dict,
  if◌then◌else◌,
}
use kagents.Result.{Result, ok}
use kagents.Exec.{Exec}
use kagents.Api.Spec.{DeliveryTarget, ObservabilitySpec, WebhookSpec, TeammateSpec, LifecycleSpec}
use kagents.Api.Status.{Time, AgentTeamStatus}
use kagents.Api.Resources.{AgentTeam}
use kagents.Cluster.{Client}
use kagents.GitHub.{RestApi}
use kagents.Http.{Json}
use kagents.Harness.{Harness}
use kagents.Budget.{Float, Tracker, new_tracker, record_session, is_over_budget}
use kagents.Metrics.{Metric, Amount}
use kagents.Notifier.{Notifier, new_notifier, is_subscribed}
use kagents.Team.Conditions.{set_condition}
use kagents.Team.Names.{or_default}

-- The fields of AgentTeamReconciler; "" and [] where a field is not set.
pub record Reconciler : Type 0 where
  pub agent_image : String
  pub init_image : String
  pub skill_puller_image : String
  pub skip_init_script : Bool
  pub agent_command : List String
  pub pvc_access_mode : String
  pub github_base_url : String
  pub has_recorder : Bool
  pub harnesses : Dict Harness

-- time.Duration, in nanoseconds; `ago d` is the negative duration of -d.
pub data Duration : Type 0 where
  ahead : ℕ → Duration
  ago : ℕ → Duration

pub record Env : Type 1 where
  pub client : Client
  pub open client use *
  pub float : Float
  pub reconciler : Reconciler
  -- time.Now()
  pub now : Time
  -- time.ParseDuration
  pub parse_duration : String → Option Duration
  -- text/template with the two keys TeamName and Namespace
  pub render : String → String → String → Result String
  -- json.Marshal, which writes the keys of a map in their order
  pub marshal : Json → Result String
  -- the senders of r.Delivery by the type of their target
  pub senders : Dict (World → DeliveryTarget → AgentTeam → Result (Unit {0}) × World)
  -- the GitHub API, over a network that is part of the world
  pub github : RestApi World

pub data Effect (F : Type 0) : Type 0 where
  -- Eventf: type, reason, message
  event : String → String → String → Effect F
  -- a POST of the team's notifier: URL, event type, the name and namespace of the team, data
  posted : String → String → String → String → Dict String → Effect F
  metric : Metric → Effect F
  amount : Amount F → Effect F
  -- the status that a Status().Update carried, whether it succeeded or not
  status_update : AgentTeamStatus → Effect F

pub record Pass (W F : Type 0) : Type 0 where
  pub world : W
  pub team : AgentTeam
  pub effects : List (Effect F)

module _ (env : Env) where
  open env use {World, now}

  abbrev pub Action : Type 0 → Type 0
  Action A = Exec (Pass World env.float.F) A

  unfoldable pub emit : Effect env.float.F → Action (Unit {0})
  emit e s = (ok tt, record s { effects = s.effects ++ e ∷ [] })

  -- recordEvent
  unfoldable pub record_event : String → String → String → Action (Unit {0})
  record_event event_type reason message s =
      if env.reconciler.has_recorder then emit (event event_type reason message) s else (ok tt, s)

  unfoldable pub change_status : (AgentTeamStatus → AgentTeamStatus) → Action (Unit {0})
  change_status f s = (ok tt, record s { team = record s.team { status = f s.team.status } })

  -- setCondition on the team in memory.
  unfoldable pub put_condition : String → String → String → Action (Unit {0})
  put_condition status reason message =
      change_status
        λ st. record st { conditions = set_condition now status reason message st.conditions }

  unfoldable pub put_phase : String → Action (Unit {0})
  put_phase phase = change_status λ st. record st { phase = phase }

  -- r.Status().Update(ctx, team)
  unfoldable pub update_status : Action (Unit {0})
  update_status s =
      let (r, w) = env.update_status s.world s.team in
      (r, record s { world = w; effects = s.effects ++ status_update s.team.status ∷ [] })

  -- A call whose state is the world alone.
  unfoldable pub in_world : {A : Type 0} → Exec World A → Action A
  in_world m s = let (r, w) = m s.world in (r, record s { world = w })

  -- A write to the cluster.
  unfoldable pub write : (World → Result (Unit {0}) × World) → Action (Unit {0})
  write f s = let (r, w) = f s.world in (r, record s { world = w })

  unfoldable pub notify : Option Notifier → String → Dict String → Action (Unit {0})
  notify none event_type fields s = (ok tt, s)
  notify (some n) event_type fields s =
      if is_subscribed n event_type
      then emit (posted n.url event_type s.team.meta.name s.team.meta.namespace fields) s
      else (ok tt, s)

  abbrev pub webhook_of : Option ObservabilitySpec → Option WebhookSpec
  webhook_of none = none
  webhook_of (some observability) = observability.webhook

  abbrev notifier_of : Option WebhookSpec → Option Notifier
  notifier_of none = none
  notifier_of (some hook) = new_notifier hook.url hook.events

  abbrev pub team_notifier : AgentTeam → Option Notifier
  team_notifier team = notifier_of (webhook_of team.spec.observability)

  -- teamNotifier(team).SendEvent of a teamEventPayload: a POST only for an event that the team
  -- subscribes to.
  unfoldable pub send_event : String → Dict String → Action (Unit {0})
  unfolding notify
  send_event event_type fields s = notify (team_notifier s.team) event_type fields s

  -- Durations

  abbrev pub elapsed : Time → ℕ
  elapsed started = now - started

  -- time.Since(started) > d
  duration_passed : Option Duration → Time → Bool
  duration_passed none started = false
  duration_passed (some (ahead d)) started = ltb (started + d) now
  duration_passed (some (ago d)) started = ltb started (now + d)

  abbrev pub timeout_of : Option LifecycleSpec → String
  timeout_of none = "4h"
  timeout_of (some lifecycle) = or_default lifecycle.timeout "4h"

  started_too_long_ago : AgentTeam → Option Time → Bool
  unfolding duration_passed
  started_too_long_ago team none = false
  started_too_long_ago team (some started) =
      duration_passed (env.parse_duration (timeout_of team.spec.lifecycle)) started

  unfoldable pub is_timed_out : AgentTeam → Bool
  unfolding started_too_long_ago
  is_timed_out team = started_too_long_ago team team.status.started_at

  -- Budget

  abbrev pub budget_limit_of : Option LifecycleSpec → Option String
  budget_limit_of none = none
  budget_limit_of (some lifecycle) = lifecycle.budget_limit

  -- The variable `limit` after fmt.Sscanf, whose error is dropped: 0 where nothing was read.
  scanned_limit : Option String → env.float.F
  scanned_limit none = env.float.of_int 0
  scanned_limit (some text) = elim (env.float.scan text) [
    | none ↦ env.float.of_int 0
    | some limit ↦ limit
  ]

  unfoldable pub record_teammates : ℕ → List TeammateSpec → Tracker env.float → Tracker env.float
  record_teammates seconds [] t = t
  record_teammates seconds (tm ∷ rest) t =
      record_teammates seconds rest (record_session env.float tm.model seconds t)

  track : AgentTeam → Option Time → Tracker env.float → Tracker env.float
  track team none t = t
  track team (some started) t =
      let seconds = elapsed started / 1_000_000_000 in
      record_teammates seconds team.spec.teammates
        (record_session env.float team.spec.lead.model seconds t)

  unfoldable pub new_team_tracker : AgentTeam → Tracker env.float
  unfolding scanned_limit track
  new_team_tracker team =
      track team team.status.started_at
        (new_tracker env.float (scanned_limit (budget_limit_of team.spec.lifecycle)))

  unfoldable pub estimate_team_cost : AgentTeam → String
  estimate_team_cost team = env.float.show_cents (new_team_tracker team).total_cost

  unfoldable pub is_budget_exceeded : AgentTeam → Bool
  is_budget_exceeded team = elim (budget_limit_of team.spec.lifecycle) [
    | none ↦ false
    | some text ↦ is_over_budget env.float (new_team_tracker team)
  ]
