-- ===== src/Dashboard/Routes.antt =====
-- Routes of internal/dashboard/server.go, and the HTML handlers of handlers_html.go.
pub mod Paths
pub mod Links
use kagents.Prelude.{
  ℕ, String, Bool, true, false, Option, none, some, List, [], ◌∷◌, ◌==◌, ◌<>◌, ◌||◌, not, Dict,
  after_prefix, is_some, if◌then◌else◌,
}
use kagents.Result.{Result, Error, ok, err, message, is_not_found}
use kagents.Api.Resources.{AgentTeam}
use kagents.Dashboard.{
  Server, Request, Response, Views, ViewData, teams_data, team_data, page_data, html, json_fields,
  write_error, plain_error, method_not_allowed, path_parts, page, fragment, render_fragment,
  html_error, not_found_html, scope, list_teams_for_view, list_teams, team_detail, stream_logs,
  sse_detail_handler, sse_list_handler, Stream, team_events, list_events,
}

unfoldable pub healthz : Response
healthz = record { code = 200; body = json_fields (("status", "ok") ∷ []) }

-- A pattern of the mux: one path, or all paths that start with it.
unfoldable pub exactly : String → Request → Bool
exactly pattern req = req.path == pattern

unfoldable pub below : String → Request → Bool
below pattern req = is_some (after_prefix pattern req.path)

-- html.EscapeString is a parameter.
module _ (server : Server) (views : Views) (escape : String → String) where
  unfoldable pub html_list_view : Request → Response
  html_list_view req = elim (list_teams_for_view server views req) [
    | ok teams ↦
        page server views 200 "list"
          (page_data "Teams" "live operator dashboard" (teams_data teams))
    | err e ↦ html_error server views 500 "Listing teams failed" (message e)
  ]

  unfoldable pub route_root : Request → Response
  route_root req =
      if not (req.path == "/")
      then not_found_html server views req
      else if not (req.method == "GET")
      then method_not_allowed
      else html_list_view req

  unfoldable pub detail_view : String → String → Response
  detail_view ns name = elim (views.get ns name) [
    | ok team ↦
        page server views 200 "detail"
          (page_data team.meta.name (team.meta.namespace <> "/" <> team.meta.name) (team_data team))
    | err e ↦
        if is_not_found e
        then html_error server views 404 "Team not found"
            ("AgentTeam " <> ns <> "/" <> name <> " does not exist or has been deleted.")
        else html_error server views 500 "Loading team failed" (message e)
  ]

  -- The two segments of a path, or what to answer otherwise.
  abbrev pub with_two : List String → (String → String → Response) → Response → Response
  with_two (ns ∷ name ∷ []) found missing =
      if ns == "" || name == "" then missing else found ns name
  with_two (ns ∷ name ∷ more ∷ parts) found missing = missing
  with_two (ns ∷ []) found missing = missing
  with_two [] found missing = missing

  unfoldable pub route_detail_html : Request → Response
  route_detail_html req =
      if not (req.method == "GET")
      then method_not_allowed
      else with_two (path_parts "/teams/" req.path) detail_view (not_found_html server views req)

  unfoldable pub htmx_list_rows : Request → Response
  htmx_list_rows req =
      if not (req.method == "GET")
      then method_not_allowed
      else elim (list_teams_for_view server views req) [
        | ok teams ↦ fragment server views "list_rows" (teams_data teams)
        | err e ↦ record {
          code = 200;
          body = html (
              "<tr><td colspan=\"7\" class=\"px-4 py-2 text-red-600 text-xs\">listing failed: "
              <> escape (message e)
              <> "</td></tr>");
        }
      ]

  unfoldable pub detail_body : String → String → Response
  detail_body ns name = elim (views.get ns name) [
    | ok team ↦ fragment server views "detail_body" (team_data team)
    | err e ↦
        if is_not_found e then plain_error 404 "Team not found" else plain_error 500 (message e)
  ]

  unfoldable pub htmx_detail_body : Request → Response
  htmx_detail_body req =
      if not (req.method == "GET")
      then method_not_allowed
      else with_two (path_parts "/api/htmx/teams/" req.path) detail_body
          (plain_error 404 "not found")

  -- The switch on the number of segments.
  dispatch_parts : Request → List String → Response
  dispatch_parts req (ns ∷ name ∷ []) = team_detail server views ns name
  dispatch_parts req (ns ∷ name ∷ last ∷ []) =
      if not (last == "events")
      then write_error 404 "not found"
      else sse_detail_handler server views req
  dispatch_parts req (ns ∷ name ∷ logs ∷ agent ∷ []) =
      if not (logs == "logs")
      then write_error 404 "not found"
      else stream_logs server views req ns name agent
  dispatch_parts req (a ∷ b ∷ c ∷ d ∷ e ∷ parts) = write_error 404 "not found"
  dispatch_parts req (ns ∷ []) = write_error 404 "not found"
  dispatch_parts req [] = write_error 404 "not found"

  unfoldable pub route_team_detail : Request → Response
  unfolding dispatch_parts
  route_team_detail req =
      if not (req.method == "GET")
      then write_error 405 "method not allowed"
      else dispatch_parts req (path_parts "/api/teams/" req.path)

  -- The patterns of Routes, the longer ones first.
  unfoldable pub routes : Request → Response
  routes req =
      if exactly "/healthz" req
      then healthz
      else if exactly "/api/teams" req
      then list_teams server views req
      else if exactly "/api/htmx/teams/sse" req
      then sse_list_handler server views req
      else if exactly "/api/htmx/teams" req
      then htmx_list_rows req
      else if below "/api/htmx/teams/" req
      then htmx_detail_body req
      else if below "/api/teams/" req
      then route_team_detail req
      else if below "/teams/" req
      then route_detail_html req
      else route_root req

-- What the polls of a stream render, on success or with the error of the read or of the template.
module _ (server : Server) (views : Views) where
  rendered : String × Option Error → Result String
  rendered (body, none) = ok body
  rendered (body, some e) = err e

  unfoldable pub render_detail_frame : String → String → Result String
  unfolding rendered
  render_detail_frame ns name = elim (views.get ns name) [
    | ok team ↦ rendered (render_fragment server views "detail_body" (team_data team))
    | err e ↦ err e
  ]

  unfoldable pub render_list_frame : String → Result String
  unfolding rendered
  render_list_frame ns = elim (views.list ns) [
    | ok teams ↦ rendered (render_fragment server views "list_rows" (teams_data teams))
    | err e ↦ err e
  ]

  unfoldable pub render_frame : Stream → Result String
  render_frame (team_events ns name) = render_detail_frame ns name
  render_frame (list_events ns) = render_list_frame ns
