-- ===== src/Trigger/Requests.antt =====
-- Requests and responses of internal/trigger/handler.go, and what it computes without the cluster.
use kagents.Prelude.{
  ℕ, ◌/◌, String, Bool, false, Option, none, some, List, [], ◌∷◌, ◌++◌, Dict, ◌==◌, ◌<>◌, show_nat,
  if◌then◌else◌, cut_last_slash,
}
use kagents.Result.{Result, ok, err, wrap, is_already_exists}
use kagents.Api.Spec.{WorkspaceSpec}
use kagents.Api.Status.{Time}
use kagents.Api.Resources.{ObjectMeta, AgentTeamRun}
use kagents.Api.Triggers.{AgentTeamTrigger}
use kagents.Cluster.Objects.{ConfigMap}
use kagents.Run.{zero_team}

-- maxBodyBytes
abbrev pub max_body_bytes : ℕ
max_body_bytes = 1_048_576

pub record Response : Type 0 where
  pub code : ℕ
  pub content_type : String
  pub body : String

-- http.Error
abbrev pub http_error : String → ℕ → Response
http_error text code = record {
  code = code;
  content_type = "text/plain; charset=utf-8";
  body = text <> "\n";
}

pub record Request (Bytes : Type 0) : Type 0 where
  pub method : String
  pub path : String
  -- r.Header.Get
  pub header : String → String
  -- io.ReadAll of the body, at most so many bytes of it
  pub read_body : ℕ → Result Bytes

pub record Listener : Type 1 where
  pub World : Type 0
  pub Bytes : Type 0
  pub byte_length : Bytes → ℕ
  -- string(body)
  pub text_of : Bytes → String
  pub list_triggers : World → Result (List AgentTeamTrigger)
  -- the data of a Secret, by namespace and name
  pub get_secret : World → String → String → Result (Dict Bytes)
  pub get_run : World → String → String → Result AgentTeamRun
  pub create_config_map : World → ConfigMap → Result (Unit {0}) × World
  pub create_run : World → AgentTeamRun → Result (Unit {0}) × World
  pub delete_run : World → AgentTeamRun → Result (Unit {0}) × World
  -- hex.DecodeString
  pub decode_hex : String → Result Bytes
  -- HMAC-SHA256 of a text, under the key that comes first
  pub hmac_sha256 : Bytes → Bytes → Bytes
  -- hmac.Equal
  pub mac_equal : Bytes → Bytes → Bool
  pub now : Time

unfoldable pub split_mount_dir : String → String × String
split_mount_dir path = elim (cut_last_slash path) [
  | none ↦ (path, "")
  | some (dir, base) ↦ if dir == "" then (path, "") else (dir, base)
]

-- A trigger that has no webhook matches no path.
unfoldable pub matches : String → AgentTeamTrigger → Bool
matches path trig = elim trig.spec.trigger.webhook [ none ↦ false | some hook ↦ hook.path == path ]

unfoldable pub first_match : String → List AgentTeamTrigger → Option AgentTeamTrigger
first_match path [] = none
first_match path (trig ∷ rest) = if matches path trig then some trig else first_match path rest

-- The secret that a request is checked with, or the empty name.
unfoldable pub secret_name : AgentTeamTrigger → String
secret_name trig = elim trig.spec.trigger.webhook [ none ↦ "" | some hook ↦ hook.secret ]

-- A unix timestamp in seconds makes the name.
abbrev pub run_name : AgentTeamTrigger → Time → String
run_name trig now = trig.meta.name <> "-" <> show_nat (now / 1_000_000_000)

abbrev pub meta_of : AgentTeamTrigger → String → ObjectMeta
meta_of trig name = record {
  name = name;
  namespace = trig.meta.namespace;
  labels = ("kagents.dev/trigger", trig.meta.name) ∷ [];
  annotations = [];
  creation_timestamp = 0;
  owner_references = [];
}

abbrev pub base_workspace : Option WorkspaceSpec → WorkspaceSpec
base_workspace none = record { inputs = []; output = none }
base_workspace (some ws) = ws

-- The workspace of a run, with the payload's mount where one is configured.
unfoldable pub workspace_of : AgentTeamTrigger → String → Option WorkspaceSpec
workspace_of trig config_map = elim trig.spec.payload_injection [
  | none ↦ trig.spec.workspace
  | some payload ↦
      let base = base_workspace trig.spec.workspace in
      some (record base {
        inputs =
            base.inputs
            ++ record {
              config_map = config_map;
              pvc = "";
              mount_path = (split_mount_dir payload.mount_path).0;
            }
              ∷ [];
      })
]

abbrev pub triggered_run : AgentTeamTrigger → String → String → AgentTeamRun
triggered_run trig name config_map = record {
  meta = meta_of trig name;
  spec = record {
    template_ref = trig.spec.template_ref;
    repository = trig.spec.repository;
    workspace = workspace_of trig config_map;
    auth = trig.spec.auth;
    lead = trig.spec.lead;
    lifecycle = trig.spec.lifecycle;
  };
  status = zero_team.status;
}

-- What exists already counts as created.
abbrev pub tolerate_existing : String → Result (Unit {0}) → Result (Unit {0})
tolerate_existing text (ok u) = ok u
tolerate_existing text (err e) = if is_already_exists e then ok tt else err (wrap text e)
