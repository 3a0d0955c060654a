-- ===== src/Trigger.antt =====
-- internal/trigger/handler.go: the HTTP handler that turns a webhook into a run. The API client, the
-- request's body and the cryptography are the parameters of the record `Listener`.
mod Requests
pub mod Admission
pub mod Routing
pub mod Firing
use kagents.Prelude.{
  ◌+◌, ◌/◌, String, Option, none, some, [], ◌∷◌, lookup, ◌==◌, ◌<>◌, not, ltb, leb, show_nat,
  if◌then◌else◌, starts_with, trim_prefix,
}
use kagents.Result.{Result, ok, err, other, wrap, message, is_not_found}
use kagents.Fmt.{quote}
use kagents.Exec.{Exec, ◌>>=◌, ◌>>◌}
use kagents.Api.Resources.{AgentTeamRun}
use kagents.Api.Triggers.{AgentTeamTrigger}
use kagents.Cluster.Objects.{ConfigMap}
unfoldable pub use Requests.*

module _ (listener : Listener) where
  open listener use {World, Bytes, byte_length, now}

  unfoldable pub find_trigger : World → String → Result (Option AgentTeamTrigger)
  find_trigger w path = elim (listener.list_triggers w) [
    | ok triggers ↦ ok (first_match path triggers)
    | err e ↦ err e
  ]

  key_of : String → Option Bytes → Result Bytes
  key_of name none = err (other ("secret " <> name <> " is missing data key \"hmac-secret\""))
  key_of name (some key) =
      if leb (byte_length key) 0
      then err (other ("secret " <> name <> " is missing data key \"hmac-secret\""))
      else ok key

  load_key : World → String → String → Result Bytes
  unfolding key_of
  load_key w namespace name = elim (listener.get_secret w namespace name) [
    | ok secrets ↦ key_of name (lookup "hmac-secret" secrets)
    | err e ↦ err (wrap ("loading secret " <> name) e)
  ]

  check_mac : Result Bytes → Bytes → Bytes → Result (Unit {0})
  check_mac (err e) body want = err e
  check_mac (ok key) body want =
      if listener.mac_equal (listener.hmac_sha256 key body) want
      then ok tt
      else err (other "signature mismatch")

  -- The wanted digest is decoded before the secret is read.
  unfoldable pub verify_signature : World → AgentTeamTrigger → Bytes → String → Result (Unit {0})
  unfolding load_key check_mac
  verify_signature w trig body header =
      if header == ""
      then err (other "missing signature header")
      else if not (starts_with header "sha256=")
      then err (other "unsupported signature scheme")
      else elim (listener.decode_hex (trim_prefix header "sha256=")) [
        | err e ↦ err (wrap "malformed signature hex" e)
        | ok want ↦ check_mac (load_key w trig.meta.namespace (secret_name trig)) body want
      ]

  unfoldable pub delete_run : String → String → Exec World (Unit {0})
  delete_run namespace name w = elim (listener.get_run w namespace name) [
    | ok run ↦ listener.delete_run w run
    | err e ↦ (err e, w)
  ]

  pub create_payload : AgentTeamTrigger → String → Bytes → Exec World (Unit {0})
  create_payload trig config_map body w = elim trig.spec.payload_injection [
    | none ↦ (ok tt, w)
    | some payload ↦
        let (r, w') = listener.create_config_map w (record {
          meta = meta_of trig config_map;
          entries = ("payload.json", listener.text_of body) ∷ [];
        }) in
        (tolerate_existing "creating payload ConfigMap" r, w')
  ]

  create_team_run : AgentTeamRun → Exec World (Unit {0})
  create_team_run run w =
      let (r, w') = listener.create_run w run in (tolerate_existing "creating run" r, w')

  unfoldable pub create_run : AgentTeamTrigger → String → Bytes → Exec World (Unit {0})
  unfolding create_payload create_team_run
  create_run trig name body = do
    create_payload trig (name <> "-payload") body
    create_team_run (triggered_run trig name (name <> "-payload"))

  abbrev pub accepted : AgentTeamTrigger → String → Response
  accepted trig name = record {
    code = 202;
    content_type = "application/json";
    body =
        "{\"run\":"
        <> quote name
        <> ",\"trigger\":"
        <> quote trig.meta.name
        <> ",\"namespace\":"
        <> quote trig.meta.namespace
        <> "}";
  }

  fired : AgentTeamTrigger → String → Result (Unit {0}) × World → Response × World
  fired trig name (ok u, w) = (accepted trig name, w)
  fired trig name (err e, w) = (http_error ("could not create run: " <> message e) 500, w)

  unfoldable pub fire : AgentTeamTrigger → Bytes → World → Response × World
  unfolding fired
  fire trig body w = fired trig (run_name trig now) (create_run trig (run_name trig now) body w)

  -- The active run is gone, or it could not be deleted.
  replaced : AgentTeamTrigger → Bytes → Result (Unit {0}) × World → Response × World
  replaced trig body (ok u, w) = fire trig body w
  replaced trig body (err e, w) =
      if is_not_found e
      then fire trig body w
      else (http_error "could not replace active run" 500, w)

  unfoldable pub apply_policy : AgentTeamTrigger → Bytes → World → Response × World
  unfolding replaced
  apply_policy trig body w =
      let active = trig.status.active_run in
      let policy = trig.spec.concurrency_policy in
      if policy == "Forbid"
      then (if active == ""
          then fire trig body w
          else (http_error "previous run still active" 409, w))
      else if policy == "Replace"
      then (if active == ""
          then fire trig body w
          else replaced trig body (delete_run trig.meta.namespace active w))
      else fire trig body w

  unfoldable pub authorize : AgentTeamTrigger → Bytes → Result (Unit {0}) → World → Response × World
  authorize trig body (ok u) w = apply_policy trig body w
  authorize trig body (err e) w = (http_error "bad signature" 401, w)

  -- No secret, no signature.
  check_request : World → AgentTeamTrigger → Bytes → String → Result (Unit {0})
  check_request w trig body header =
      if secret_name trig == "" then ok tt else verify_signature w trig body header

  unfoldable pub dispatch :
      Request Bytes → Bytes → Result (Option AgentTeamTrigger) → World → Response × World
  unfolding check_request
  dispatch req body (err e) w = (http_error "lookup failed" 500, w)
  dispatch req body (ok none) w = (http_error "no trigger for path" 404, w)
  dispatch req body (ok (some trig)) w =
      authorize trig body (check_request w trig body (req.header "X-Hub-Signature-256")) w

  unfoldable pub receive : Request Bytes → Result Bytes → World → Response × World
  receive req (err e) w = (http_error ("could not read body: " <> message e) 400, w)
  receive req (ok body) w =
      if ltb max_body_bytes (byte_length body)
      then (http_error ("body exceeds " <> show_nat max_body_bytes <> " bytes") 413, w)
      else dispatch req body (find_trigger w req.path) w

  unfoldable pub serve_http : Request Bytes → World → Response × World
  serve_http req w =
      if req.path == "/healthz"
      then (record { code = 200; content_type = ""; body = "" }, w)
      else if not (req.method == "POST")
      then (http_error "method not allowed" 405, w)
      else receive req (req.read_body (max_body_bytes + 1)) w
