-- ===== src/Examples/Triggers.antt =====
-- Requests to a listener whose cluster is the list of the runs that it made. The digest of a body is
-- the body here.
use kagents.Prelude.{
  ℕ, inl, inr, In, length, arith, ◌≤◌, subst, sym, ◌≡◌, ◌≢◌, refl, ◌⊎◌, ◌==◌, String, none, some,
  List, [], ◌∷◌, cut_last_slash, lookup, trim_prefix, if◌then◌else◌,
}
use kagents.Result.{Result, ok, err, not_found}
use kagents.Exec.{◌>>=◌}
use kagents.Api.Resources.{AgentTeamRun}
use kagents.Api.Triggers.{AgentTeamTrigger}
use kagents.Trigger.{
  Listener, Request, serve_http, apply_policy, fire, first_match, split_mount_dir, matches,
  find_trigger, secret_name, verify_signature, receive, dispatch, authorize, delete_run, create_run,
  triggered_run,
}
use kagents.Trigger.Admission.{IsRefused, IsAdmitted, serve_http-IsAdmitted}
use kagents.Trigger.Firing.{new_run, IsPrepared, IsMade, apply_policy-IsHonest}
use kagents.Trigger.Routing.{
  IsFirst, first_match-IsFirst, IsDivided, IsWhole, split_mount_dir_exact,
}
use kagents.TriggerStatus.{status_for, trigger_history_limit}
use kagents.TriggerStatus.Newest.{Sorts, IsNewestActive, IsLatest, status_for_exact}
use kagents.Examples.Data.{report_meta, report_team, lead}

abbrev report_trigger : String → AgentTeamTrigger
report_trigger active = record {
  meta = report_meta;
  spec = record {
    trigger = record { webhook = some (record { path = "/hooks/report"; secret = "hooks" }) };
    template_ref = record { name = "report" };
    auth = report_team.spec.auth;
    lead = lead;
    repository = none;
    workspace = none;
    lifecycle = none;
    payload_injection = some (record { mount_path = "/workspace/data/event.json" });
    concurrency_policy = "Replace";
  };
  status = record { last_triggered_at = none; active_run = active; total_runs = 1; runs = [] };
}

abbrev run_named : String → List AgentTeamRun → Result AgentTeamRun
run_named name [] = err (not_found name)
run_named name (run ∷ runs) = if run.meta.name == name then ok run else run_named name runs

abbrev runs_without : String → List AgentTeamRun → List AgentTeamRun
runs_without name [] = []
runs_without name (run ∷ runs) =
    if run.meta.name == name then runs else run ∷ runs_without name runs

abbrev old_run : AgentTeamRun
old_run = triggered_run (report_trigger "") "old" "old-payload"

abbrev listener : Listener
listener = record {
  World = List AgentTeamRun;
  Bytes = String;
  byte_length = λ text. 4;
  text_of = λ text. text;
  list_triggers = λ w. ok (report_trigger "" ∷ []);
  get_secret = λ w namespace name. ok (("hmac-secret", "key") ∷ []);
  get_run = λ w namespace name. run_named name w;
  create_config_map = λ w c. (ok tt, w);
  create_run = λ w run. (ok tt, run ∷ w);
  delete_run = λ w run. (ok tt, runs_without run.meta.name w);
  decode_hex = λ text. ok text;
  hmac_sha256 = λ key body. body;
  mac_equal = λ a b. a == b;
  now = 5_000_000_000;
}

abbrev request : String → Request String
request signature = record {
  method = "POST";
  path = "/hooks/report";
  header = λ name. signature;
  read_body = λ limit. ok "beef";
}

serve_http_example :
    IsRefused listener [] (serve_http listener (request "sha256=dead") [])
    ⊎ IsAdmitted listener (request "sha256=dead") []
serve_http_example = serve_http-IsAdmitted listener (request "sha256=dead") []

-- The run that the trigger still has is deleted, and only the new one is left.
replaced_accepted :
    (apply_policy listener (report_trigger "old") "beef" (old_run ∷ [])).0.code ≡ 202
unfolding apply_policy delete_run fire create_run ◌>>=◌
replaced_accepted = refl

replaced_world :
    (apply_policy listener (report_trigger "old") "beef" (old_run ∷ [])).1
    ≡ new_run listener (report_trigger "old") ∷ []
unfolding apply_policy delete_run fire create_run ◌>>=◌
replaced_world = refl

apply_policy_example :
    (start : List AgentTeamRun) × IsPrepared listener (report_trigger "old") (old_run ∷ []) start
    × IsMade listener
        (report_trigger "old")
        "beef"
        start
        (apply_policy listener (report_trigger "old") "beef" (old_run ∷ []))
apply_policy_example =
    apply_policy-IsHonest listener (report_trigger "old") "beef" (old_run ∷ []) replaced_accepted

-- A wrong digest is refused, and a right one makes a run.
wrong_digest : (serve_http listener (request "sha256=dead") []).0.code ≡ 401
unfolding serve_http receive dispatch find_trigger first_match matches authorize secret_name
    verify_signature lookup trim_prefix
wrong_digest = refl

right_digest : (serve_http listener (request "sha256=beef") []).0.code ≡ 202
unfolding serve_http receive dispatch find_trigger first_match matches authorize secret_name
    verify_signature lookup trim_prefix apply_policy delete_run fire create_run ◌>>=◌
right_digest = refl

first_match_example :
    IsFirst "/hooks/report"
      (report_trigger "" ∷ report_trigger "old" ∷ [])
      (first_match "/hooks/report" (report_trigger "" ∷ report_trigger "old" ∷ []))
first_match_example =
    first_match-IsFirst "/hooks/report" (report_trigger "" ∷ report_trigger "old" ∷ [])

split_mount_dir_example :
    let (dir, base) = split_mount_dir "/workspace/data/event.json" in
    IsDivided "/workspace/data/event.json" dir base ⊎ IsWhole "/workspace/data/event.json" dir base
split_mount_dir_example = split_mount_dir_exact "/workspace/data/event.json"

event_directory : split_mount_dir "/workspace/data/event.json" ≡ ("/workspace/data", "event.json")
unfolding split_mount_dir cut_last_slash
event_directory = refl

abbrev made_at : ℕ → String → AgentTeamRun
made_at time phase =
    let run = triggered_run (report_trigger "") "report-1" "report-1-payload" in
    record run {
      meta = record run.meta { creation_timestamp = time };
      status = record run.status { phase = phase };
    }

abbrev two_runs : List AgentTeamRun
two_runs = made_at 3 "Running" ∷ made_at 8 "Completed" ∷ []

abbrev two_sorted : List AgentTeamRun
two_sorted = made_at 8 "Completed" ∷ made_at 3 "Running" ∷ []

two_runs-Sorts : Sorts two_runs two_sorted
two_runs-Sorts = record {
  same = λ r. (
    λ h. elim h [ inl e ↦ inr (inl e) | inr h' ↦ elim h' [ inl e ↦ inl e | inr n ↦ absurd n ] ],
    λ h. elim h [ inl e ↦ inr (inl e) | inr h' ↦ elim h' [ inl e ↦ inl e | inr n ↦ absurd n ] ],
  );
  as_many = refl;
  ordered =
      (λ q h. elim h [ inl e ↦ rw e (omega arith) | inr n ↦ absurd n ], (λ q h. absurd h, tt));
}

report_1_named : ◌≢◌ {A = String} "report-1" ""
report_1_named = λ h. cc

two_runs_named : (r : AgentTeamRun) → In r two_runs → r.meta.name ≢ ""
two_runs_named r (inl e) = subst (λ x. x.meta.name ≢ "") (sym e) report_1_named
two_runs_named r (inr (inl e)) = subst (λ x. x.meta.name ≢ "") (sym e) report_1_named
two_runs_named r (inr (inr n)) = absurd n

status_for_example :
    let st = status_for 0 (report_trigger "").status two_sorted in
    (st.total_runs ≡ length two_runs)
    × IsNewestActive two_runs st.active_run
    × IsLatest two_runs none st.last_triggered_at
    × (length st.runs ≤ trigger_history_limit 0)
status_for_example =
    status_for_exact 0 (report_trigger "").status two_runs two_sorted two_runs-Sorts two_runs_named
