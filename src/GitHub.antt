-- ===== src/GitHub.antt =====
-- internal/github/client.go: the REST client, whose calls each send one request. url.PathEscape, the
-- network and the decoding of a pull request are the parameters of the record `RestApi`.
pub mod Repo
pub mod Shapes
pub mod CloneUrls
pub mod Answers
use kagents.Prelude.{
  ℕ, String, Bool, false, List, [], ◌∷◌, ◌++◌, ◌==◌, ◌<>◌, leb, Dict, show_nat, trim_space,
  trim_suffix, if◌then◌else◌,
}
use kagents.Result.{Result, ok, err, other, wrap}
use kagents.Exec.{Exec, explain, lift, pure, raise, ◌>>=◌, ◌>>◌}
use kagents.Http.{
  Json, str, bool, arr, obj, Items, Fields, end, field, texts, HttpRequest, HttpResponse, Transport,
}

pub record Client : Type 0 where
  pub base_url : String
  pub token : String

abbrev pub default_base_url : String
default_base_url = "https://api.github.com"

abbrev pub ClientOption : Type 0
ClientOption = Client → Client

-- A base URL that ends in a slash loses it.
unfoldable pub with_base_url : String → ClientOption
with_base_url url c = record c { base_url = trim_suffix url "/" }

apply_options : List ClientOption → Client → Client
apply_options [] c = c
apply_options (opt ∷ opts) c = apply_options opts (opt c)

unfoldable pub new_client : String → List ClientOption → Client
unfolding apply_options
new_client token opts = apply_options opts (record { base_url = default_base_url; token = token })

pub record PullRequestRequest : Type 0 where
  pub title : String
  pub body : String
  pub head : String
  pub base : String
  pub draft : Bool

pub record PullRequest : Type 0 where
  pub number : ℕ
  pub html_url : String
  pub state : String

pub record RestApi (W : Type 0) : Type 0 where
  pub transport : Transport W
  -- url.PathEscape
  pub path_escape : String → String
  -- json.Unmarshal into a PullRequest
  pub decode_pull_request : String → Result PullRequest

-- A field that `omitempty` leaves out where it has its zero value.
abbrev pub unless : Bool → (Fields → Fields) → Fields → Fields
unless skip add rest = if skip then rest else add rest

unfoldable pub marshal_request : PullRequestRequest → Json
marshal_request req = obj (
    field "title" (str req.title) (
      unless (req.body == "") (field "body" (str req.body)) (
        field "head" (str req.head) (
          field "base" (str req.base)
            (if req.draft then field "draft" (bool req.draft) end else end)))))

authorization : String → Dict String
authorization token = if token == "" then [] else ("Authorization", "Bearer " <> token) ∷ []

module _ {W : Type 0} (api : RestApi W) where
  open api use {transport, path_escape}

  abbrev pub request_of : Client → String → String → Json → HttpRequest
  unfolding authorization
  request_of c method path body = record {
    method = method;
    url = c.base_url <> path;
    headers =
        ("Accept", "application/vnd.github+json")
        ∷ ("X-GitHub-Api-Version", "2022-11-28")
        ∷ (authorization c.token ++ ("Content-Type", "application/json") ∷ []);
    body = body;
  }

  -- The body of an answer that is not an error.
  check_answer : String → String → Result HttpResponse → Result String
  check_answer method path (err e) = err (wrap (method <> " " <> path) e)
  check_answer method path (ok answer) =
      if leb 400 answer.code
      then err (
          other (
            "GitHub API "
            <> method
            <> " "
            <> path
            <> " returned "
            <> show_nat answer.code
            <> ": "
            <> trim_space answer.body))
      else ok answer.body

  -- `do`, without the decoding of the body.
  unfoldable pub call : Client → String → String → Json → Exec W String
  unfolding check_answer
  call c method path body w = elim (transport.new_request method (c.base_url <> path)) [
    | err e ↦ (err e, w)
    | ok u ↦
        let (r, w') = transport.do_request w (request_of c method path body) in
        (check_answer method path r, w')
  ]

  abbrev zero_pull_request : PullRequest
  zero_pull_request = record { number = 0; html_url = ""; state = "" }

  unfoldable pub decode_answer : String → Result PullRequest
  decode_answer text =
      if text == "" then ok zero_pull_request else elim (api.decode_pull_request text) [
        | ok pr ↦ ok pr
        | err e ↦ err (wrap "decode GitHub response" e)
      ]

  unfoldable pub create_pull_request :
      Client → String → String → PullRequestRequest → Exec W PullRequest
  create_pull_request c owner repo req = do
    text ←
        call c "POST" ("/repos/" <> path_escape owner <> "/" <> path_escape repo <> "/pulls")
          (marshal_request req)
    lift (decode_answer text)

  post_list : Client → String → String → List String → Exec W (Unit {0})
  post_list c path key values = do
    text ← call c "POST" path (obj (field key (arr (texts values)) end))
    pure tt

  -- No request for an empty list.
  unfoldable pub request_reviewers : Client → String → String → ℕ → List String → Exec W (Unit {0})
  unfolding post_list
  request_reviewers c owner repo number [] = pure tt
  request_reviewers c owner repo number (reviewer ∷ reviewers) =
      post_list c
        ("/repos/"
          <> path_escape owner
          <> "/"
          <> path_escape repo
          <> "/pulls/"
          <> show_nat number
          <> "/requested_reviewers")
        "reviewers" (reviewer ∷ reviewers)

  unfoldable pub add_labels : Client → String → String → ℕ → List String → Exec W (Unit {0})
  unfolding post_list
  add_labels c owner repo number [] = pure tt
  add_labels c owner repo number (label ∷ labels) =
      post_list c
        ("/repos/"
          <> path_escape owner
          <> "/"
          <> path_escape repo
          <> "/issues/"
          <> show_nat number
          <> "/labels")
        "labels" (label ∷ labels)
