-- ===== src/Trigger/Admission.antt =====
-- Which requests reach the cluster.
use kagents.Prelude.{
  ◌≡◌, ◌≢◌, refl, ◌⊎◌, inl, inr, ◌≤◌, ◌+◌, String, true, false, Option, none, some, Dict, lookup,
  ◌==◌, eq_iff, ltb, leb, arith, Bool-cases, starts_with, trim_prefix,
}
use kagents.Result.{Result, ok, err, Result-cases}
use kagents.Api.Triggers.{AgentTeamTrigger}
use kagents.Trigger.{
  Listener, Request, Response, max_body_bytes, secret_name, find_trigger, key_of, load_key,
  check_mac, verify_signature, apply_policy, authorize, check_request, dispatch, receive,
  serve_http,
}

module _ (listener : Listener) where
  open listener use {World, Bytes, byte_length, now}

  -- The header holds the digest of the body under the key that the trigger's secret holds.
  pub record IsSigned (w : World) (trig : AgentTeamTrigger) (body : Bytes) (header : String)
      : Type 0 where
    pub want : Bytes
    pub key : Bytes
    pub secrets : Dict Bytes
    pub scheme : starts_with header "sha256=" ≡ true
    pub decoded : listener.decode_hex (trim_prefix header "sha256=") ≡ ok want
    pub loaded : listener.get_secret w trig.meta.namespace (secret_name trig) ≡ ok secrets
    pub keyed : lookup "hmac-secret" secrets ≡ some key
    pub given : leb (byte_length key) 0 ≡ false
    pub agrees : listener.mac_equal (listener.hmac_sha256 key body) want ≡ true

  -- A request that may fire a trigger.
  pub record IsAdmitted (req : Request Bytes) (w : World) : Type 0 where
    pub body : Bytes
    pub trig : AgentTeamTrigger
    pub posted : req.method ≡ "POST"
    pub read : req.read_body (max_body_bytes + 1) ≡ ok body
    pub small : byte_length body ≤ max_body_bytes
    pub found : find_trigger listener w req.path ≡ ok (some trig)
    pub signed : secret_name trig ≢ "" → IsSigned w trig body (req.header "X-Hub-Signature-256")
    pub free : trig.spec.concurrency_policy ≡ "Forbid" → trig.status.active_run ≡ ""

  key_of-ok :
      (name : String) (k : Option Bytes) (key : Bytes)
      → key_of listener name k ≡ ok key
      → (k ≡ some key) × (leb (byte_length key) 0 ≡ false)
  unfolding key_of
  key_of-ok name none key h = cc
  key_of-ok name (some k) key h = elim (Bool-cases (leb (byte_length k) 0)) [
    | inl e ↦ ground arith
    | inr e ↦ ground arith
  ]

  load_key-ok :
      (w : World) (namespace name : String) (key : Bytes)
      → load_key listener w namespace name ≡ ok key
      → (secrets : Dict Bytes) × (listener.get_secret w namespace name ≡ ok secrets)
        × (lookup "hmac-secret" secrets ≡ some key)
        × (leb (byte_length key) 0 ≡ false)
  unfolding load_key
  load_key-ok w namespace name key h = elim (Result-cases (listener.get_secret w namespace name)) [
    | inl (secrets, e) ↦
        let (keyed, given) = key_of-ok name _ key (rw (load_key, e) at h) in
        (secrets, e, keyed, given)
    | inr (x, e) ↦ ground arith
  ]

  check_mac-ok :
      (r : Result Bytes) (body want : Bytes)
      → check_mac listener r body want ≡ ok tt
      → (key : Bytes) × (r ≡ ok key)
        × (listener.mac_equal (listener.hmac_sha256 key body) want ≡ true)
  unfolding check_mac
  check_mac-ok (err e) body want h = cc
  check_mac-ok (ok key) body want h =
      elim (Bool-cases (listener.mac_equal (listener.hmac_sha256 key body) want)) [
        | inl same ↦ (key, refl, same)
        | inr differs ↦ ground arith
      ]

  verify_signature-IsSigned :
      (w : World) (trig : AgentTeamTrigger) (body : Bytes) (header : String)
      → verify_signature listener w trig body header ≡ ok tt
      → IsSigned w trig body header
  unfolding verify_signature
  verify_signature-IsSigned w trig body header h = elim (Bool-cases (header == "")) [
    | inl e ↦ ground arith
    | inr e ↦ elim (Bool-cases (starts_with header "sha256=")) [
      | inr s ↦ ground arith
      | inl s ↦ elim (Result-cases (listener.decode_hex (trim_prefix header "sha256="))) [
        | inr (x, d) ↦ ground arith
        | inl (want, d) ↦
            let (key, loaded, agrees) = check_mac-ok _ body want (rw (e, s, d) at h) in
            let (secrets, got, keyed, given) =
              load_key-ok w trig.meta.namespace (secret_name trig) key loaded in
            record {
              want = want;
              key = key;
              secrets = secrets;
              scheme = s;
              decoded = d;
              loaded = got;
              keyed = keyed;
              given = given;
              agrees = agrees;
            }
      ]
    ]
  ]

  -- The answer is not "accepted", and nothing in the cluster changes.
  abbrev pub IsRefused : World → Response × World → Type 0
  IsRefused w (answer, w') = (answer.code ≢ 202) × (w' ≡ w)

  -- Where a guard holds back what it answers, it refuses; else its condition holds.
  apply_policy-free :
      (trig : AgentTeamTrigger) (body : Bytes) (w : World)
      → IsRefused w (apply_policy listener trig body w)
        ⊎ (trig.spec.concurrency_policy ≡ "Forbid" → trig.status.active_run ≡ "")
  unfolding apply_policy
  apply_policy-free trig body w =
      let policy = trig.spec.concurrency_policy in
      let active = trig.status.active_run in
      elim (Bool-cases (policy == "Forbid")) [
        | inr other ↦ inr (λ h. ground (arith, eq_iff policy "Forbid"))
        | inl forbid ↦ elim (Bool-cases (active == "")) [
          | inl idle ↦ inr (λ h. (eq_iff active "").0 idle)
          | inr busy ↦ inl (rw (forbid, busy) (λ h. ground arith, refl))
        ]
      ]

  authorize-ok :
      (trig : AgentTeamTrigger) (body : Bytes) (r : Result (Unit {0})) (w : World)
      → IsRefused w (authorize listener trig body r w)
        ⊎ ((r ≡ ok tt) × (trig.spec.concurrency_policy ≡ "Forbid" → trig.status.active_run ≡ ""))
  unfolding authorize
  authorize-ok trig body (err e) w = inl (λ h. ground arith, refl)
  authorize-ok trig body (ok u) w = elim (apply_policy-free trig body w) [
    | inl refused ↦ inl refused
    | inr free ↦ inr (refl, free)
  ]

  check_request-IsSigned :
      (w : World) (trig : AgentTeamTrigger) (body : Bytes) (header : String)
      → check_request listener w trig body header ≡ ok tt
      → secret_name trig ≢ ""
      → IsSigned w trig body header
  unfolding check_request
  check_request-IsSigned w trig body header h named = elim (Bool-cases (secret_name trig == "")) [
    | inl none_given ↦ absurd (named ((eq_iff (secret_name trig) "").0 none_given))
    | inr some_given ↦ verify_signature-IsSigned w trig body header (rw some_given at h)
  ]

  dispatch-IsAdmitted :
      (req : Request Bytes) (body : Bytes) (w : World) (r : Result (Option AgentTeamTrigger))
      → req.method ≡ "POST"
      → req.read_body (max_body_bytes + 1) ≡ ok body
      → byte_length body ≤ max_body_bytes
      → find_trigger listener w req.path ≡ r
      → IsRefused w (dispatch listener req body r w) ⊎ IsAdmitted req w
  unfolding dispatch
  dispatch-IsAdmitted req body w (err e) posted read small found = inl (λ h. ground arith, refl)
  dispatch-IsAdmitted req body w (ok none) posted read small found = inl (λ h. ground arith, refl)
  dispatch-IsAdmitted req body w (ok (some trig)) posted read small found =
      elim (authorize-ok trig body _ w) [
        | inl refused ↦ inl refused
        | inr (checked, free) ↦ inr (record {
          body = body;
          trig = trig;
          posted = posted;
          read = read;
          small = small;
          found = found;
          signed = check_request-IsSigned w trig body _ checked;
          free = free;
        })
      ]

  receive-IsAdmitted :
      (req : Request Bytes) (w : World) (r : Result Bytes)
      → req.method ≡ "POST"
      → req.read_body (max_body_bytes + 1) ≡ r
      → IsRefused w (receive listener req r w) ⊎ IsAdmitted req w
  unfolding receive
  receive-IsAdmitted req w (err e) posted read = inl (λ h. ground arith, refl)
  receive-IsAdmitted req w (ok body) posted read =
      elim (Bool-cases (ltb max_body_bytes (byte_length body))) [
        | inl large ↦ inl (rw large (λ h. ground arith, refl))
        | inr small ↦ rw small (dispatch-IsAdmitted req body w _ posted read (ground arith) refl)
      ]

  -- A request is refused, with the cluster as it was, unless it is a POST of at most a MiB to the path
  -- of a trigger, signed with the trigger's secret where it names one, and no run of the trigger is
  -- active where its policy forbids a second.
  pub serve_http-IsAdmitted :
      (req : Request Bytes) (w : World) → IsRefused w (serve_http listener req w) ⊎ IsAdmitted req w
  unfolding serve_http
  serve_http-IsAdmitted req w = elim (Bool-cases (req.path == "/healthz")) [
    | inl health ↦ inl (rw health (λ h. ground arith, refl))
    | inr other ↦ elim (Bool-cases (req.method == "POST")) [
      | inr get ↦ inl (rw (other, get) (λ h. ground arith, refl))
      | inl post ↦
          rw (other, post) (receive-IsAdmitted req w _ ((eq_iff req.method "POST").0 post) refl)
    ]
  ]
