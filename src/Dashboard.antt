-- ===== src/Dashboard.antt =====
-- internal/dashboard/server.go and handlers_html.go: the read-only web interface. Http.ServeMux answers
-- a path that is not clean with a redirect; here a path is a clean one. The reads of the cluster, the
-- logs and html/template are the parameters of the record `Views`.
pub mod Sse
pub mod Routes
pub mod Funcs
use kagents.Prelude.{
  ℕ, String, Bool, true, false, Option, none, some, List, [], ◌∷◌, ◌++◌, ◌==◌, ◌<>◌, ◌||◌, not,
  Dict, show_nat, split, trim_char, trim_prefix, after_prefix, if◌then◌else◌,
}
use kagents.Result.{Result, Error, ok, err, other, wrap, message, is_not_found}
use kagents.Fmt.{quote}
use kagents.Api.Resources.{AgentTeam}
use kagents.Team.Names.{or_default}

pub record Server : Type 0 where
  -- KubeClient is not nil
  pub has_kube_client : Bool
  pub namespace : String

-- What the handlers read of a request and of its response writer.
pub record Request : Type 0 where
  pub method : String
  pub path : String
  -- the values of the query
  pub namespace : String
  pub follow : String
  -- the writer is an http.Flusher
  pub can_flush : Bool

-- The data of a template.
pub data ViewData : Type 0 where
  teams_data : List AgentTeam → ViewData
  team_data : AgentTeam → ViewData
  error_data : ℕ → String → String → ViewData
  page_data : String → String → ViewData → ViewData

pub data Stream : Type 0 where
  -- the events of a team, and of the list of teams in a namespace
  team_events : String → String → Stream
  list_events : String → Stream

pub data Body : Type 0 where
  text : String → Body
  html : String → Body
  json_fields : Dict String → Body
  json_teams : List AgentTeam → Body
  json_team : AgentTeam → Body
  -- the chunks of a log as they are read
  log_chunks : List String → Body
  events : Stream → Body

pub record Response : Type 0 where
  pub code : ℕ
  pub body : Body

pub record Views : Type 1 where
  -- CRClient.List, where an empty namespace stands for all of them
  pub list : String → Result (List AgentTeam)
  -- CRClient.Get by namespace and name
  pub get : String → String → Result AgentTeam
  -- the log of a pod's container "claude-code", by namespace, name and follow
  pub logs : String → String → Bool → Result (List String)
  pub Template : Type 0
  -- ParseFS, and ExecuteTemplate with what was written before an error
  pub parse_fs : List String → Result Template
  pub execute : Template → String → ViewData → String × Option Error

abbrev write_json : ℕ → Body → Response
write_json code body = record { code = code; body = body }

abbrev pub write_error : ℕ → String → Response
write_error code message = write_json code (json_fields (("error", message) ∷ []))

-- http.Error
abbrev pub plain_error : ℕ → String → Response
plain_error code message = record { code = code; body = text (message <> "\n") }

abbrev pub method_not_allowed : Response
method_not_allowed = plain_error 405 "method not allowed"

-- strings.Split(strings.Trim(strings.TrimPrefix(path, prefix), "/"), "/")
unfoldable pub path_parts : String → String → List String
path_parts prefix path = split b'/' (trim_char b'/' (trim_prefix path prefix))

abbrev pub pod_of : String → String → String
pod_of team agent = team <> "-" <> agent

abbrev partials : String → List String
partials content_name =
    if content_name == "list"
    then "templates/_list_rows.html" ∷ []
    else if content_name == "detail"
    then "templates/_detail_body.html" ∷ []
    else []

module _ (server : Server) (views : Views) where
  open views use {Template}

  executed : String → String → ViewData → Result Template → String × Option Error
  executed problem name input (ok tpl) = views.execute tpl name input
  executed problem name input (err e) = ("", some (wrap problem e))

  unfoldable pub render_page : String → ViewData → String × Option Error
  unfolding executed
  render_page content_name input =
      executed ("parse templates for " <> quote content_name) "layout" input (
        views.parse_fs (
          "templates/layout.html"
          ∷ ("templates/" <> content_name <> ".html")
          ∷ partials content_name))

  unfoldable pub render_fragment : String → ViewData → String × Option Error
  unfolding executed
  render_fragment fragment_name input =
      executed ("parse fragment " <> quote fragment_name) fragment_name input
        (views.parse_fs (("templates/_" <> fragment_name <> ".html") ∷ []))

  -- A page, whose error is only logged.
  abbrev pub page : ℕ → String → ViewData → Response
  page code content_name input = record {
    code = code;
    body = html (render_page content_name input).0;
  }

  abbrev pub fragment : String → ViewData → Response
  fragment name input = record { code = 200; body = html (render_fragment name input).0 }

  unfoldable pub html_error : ℕ → String → String → Response
  html_error code title problem =
      page code "error"
        (page_data title ("error " <> show_nat code) (error_data code title problem))

  abbrev pub not_found_html : Request → Response
  not_found_html req = html_error 404 "Page not found" ("No route matches " <> req.path <> ".")

  -- the namespace of the query, or the server's
  abbrev pub scope : Request → String
  scope req = or_default req.namespace server.namespace

  unfoldable pub list_teams_for_view : Request → Result (List AgentTeam)
  list_teams_for_view req = views.list (scope req)

  unfoldable pub list_teams : Request → Response
  list_teams req =
      if not (req.method == "GET")
      then write_error 405 "method not allowed"
      else elim (views.list (scope req)) [
        | ok teams ↦ write_json 200 (json_teams teams)
        | err e ↦ write_error 500 ("listing teams: " <> message e)
      ]

  unfoldable pub team_detail : String → String → Response
  team_detail ns name = elim (views.get ns name) [
    | ok team ↦ write_json 200 (json_team team)
    | err e ↦
        if is_not_found e
        then write_error 404 ("AgentTeam " <> ns <> "/" <> name <> " not found")
        else write_error 500 ("getting team: " <> message e)
  ]

  unfoldable pub stream_logs : Request → String → String → String → Response
  stream_logs req ns team agent =
      let pod_name = pod_of team agent in
      if not server.has_kube_client
      then write_error 503 "log streaming not configured (KubeClient is nil)"
      else elim (views.logs ns pod_name (req.follow == "true")) [
        | ok chunks ↦ record { code = 200; body = log_chunks chunks }
        | err e ↦
            if is_not_found e
            then write_error 404 ("pod " <> ns <> "/" <> pod_name <> " not found")
            else write_error 500 ("opening log stream: " <> message e)
      ]

  -- beginSSE, and the stream that follows.
  unfoldable pub begin_sse : Request → Stream → Response
  begin_sse req stream =
      if req.can_flush
      then record { code = 200; body = events stream }
      else plain_error 500 "streaming unsupported (no http.Flusher)"

  sse_of_parts : Request → List String → Response
  unfolding begin_sse
  sse_of_parts req (ns ∷ name ∷ last ∷ []) =
      if not (last == "events") || ns == "" || name == ""
      then plain_error 404 "not found"
      else begin_sse req (team_events ns name)
  sse_of_parts req (a ∷ b ∷ c ∷ d ∷ rest) = plain_error 404 "not found"
  sse_of_parts req (a ∷ b ∷ []) = plain_error 404 "not found"
  sse_of_parts req (a ∷ []) = plain_error 404 "not found"
  sse_of_parts req [] = plain_error 404 "not found"

  unfoldable pub sse_detail_handler : Request → Response
  unfolding sse_of_parts
  sse_detail_handler req =
      if not (req.method == "GET")
      then method_not_allowed
      else sse_of_parts req (path_parts "/api/teams/" req.path)

  unfoldable pub sse_list_handler : Request → Response
  unfolding begin_sse
  sse_list_handler req =
      if not (req.method == "GET")
      then method_not_allowed
      else begin_sse req (list_events (scope req))
