-- ===== src/Dashboard/Routes/Links.antt =====
-- Where the routes lead the links of the web interface.
use kagents.Prelude.{
  ◌≡◌, refl, sym, ap, ◌∙◌, inl, inr, String, true, false, none, [], ◌∷◌, ◌==◌, ◌<>◌, eq_iff,
  Bool-cases, join, split, trim_prefix, trim_char_left, trim_char_right, differs_past, after_prefix,
  after_prefix-append, after_prefix-clash, clashes, is_some, trim_char,
}
use kagents.Dashboard.{
  Server, Request, Response, Views, path_parts, team_detail, stream_logs, begin_sse,
  sse_detail_handler, sse_of_parts, team_events,
}
use kagents.Dashboard.Routes.{
  exactly, below, with_two, detail_view, detail_body, route_detail_html, htmx_detail_body,
  dispatch_parts, route_team_detail, routes,
}
use kagents.Dashboard.Routes.Paths.{
  Link, team_link, events_link, log_link, page_link, fragment_link, path_of, IsName, IsClean,
  path_parts-path_of,
}

elsewhere :
    (req : Request) (p r other : String)
    → req.path ≡ p <> r
    → after_prefix p other ≡ none
    → exactly other req ≡ false
unfolding exactly
elsewhere req p r other h missing = ap (λ x. x == other) h ∙ differs_past p r other missing

not_below :
    (req : Request) (pattern p r : String)
    → req.path ≡ p <> r
    → clashes pattern p ≡ true
    → below pattern req ≡ false
unfolding below
not_below req pattern p r h clash =
    ap is_some (ap (λ x. after_prefix pattern x) h ∙ after_prefix-clash pattern p r clash)

is_below : (req : Request) (p r : String) → req.path ≡ p <> r → below p req ≡ true
unfolding below
is_below req p r h = ap is_some (ap (λ x. after_prefix p x) h ∙ after_prefix-append p r)

module _ (server : Server) (views : Views) (escape : String → String) where
  api_path-routes :
      (req : Request) (r : String)
      → req.path ≡ "/api/teams/" <> r
      → routes server views escape req ≡ route_team_detail server views escape req
  unfolding routes after_prefix
  api_path-routes req r h =
      rw
        (
          elsewhere req "/api/teams/" r "/healthz" h refl,
          elsewhere req "/api/teams/" r "/api/teams" h refl,
          elsewhere req "/api/teams/" r "/api/htmx/teams/sse" h refl,
          elsewhere req "/api/teams/" r "/api/htmx/teams" h refl,
          not_below req "/api/htmx/teams/" "/api/teams/" r h refl,
          is_below req "/api/teams/" r h,
        )
        refl

  page_path-routes :
      (req : Request) (r : String)
      → req.path ≡ "/teams/" <> r
      → routes server views escape req ≡ route_detail_html server views escape req
  unfolding routes after_prefix
  page_path-routes req r h =
      rw
        (
          elsewhere req "/teams/" r "/healthz" h refl,
          elsewhere req "/teams/" r "/api/teams" h refl,
          elsewhere req "/teams/" r "/api/htmx/teams/sse" h refl,
          elsewhere req "/teams/" r "/api/htmx/teams" h refl,
          not_below req "/api/htmx/teams/" "/teams/" r h refl,
          not_below req "/api/teams/" "/teams/" r h refl,
          is_below req "/teams/" r h,
        )
        refl

  -- Two segments are not "sse".
  fragment_path-differs :
      (ns name : String)
      → IsClean (fragment_link ns name)
      → (path_of (fragment_link ns name) == "/api/htmx/teams/sse") ≡ false
  unfolding path_parts trim_prefix trim_char trim_char_left trim_char_right split
  fragment_path-differs ns name h =
      elim (Bool-cases (path_of (fragment_link ns name) == "/api/htmx/teams/sse")) [
        | inl same ↦
            let e = (eq_iff _ "/api/htmx/teams/sse").0 same in
            let parts : (ns ∷ name ∷ []) ≡ ("sse" ∷ []) =
              sym (path_parts-path_of (fragment_link ns name) h)
              ∙ ap (λ x. path_parts "/api/htmx/teams/" x) e in
            cc
        | inr differs ↦ differs
      ]

  fragment_path-routes :
      (req : Request) (ns name : String)
      → IsClean (fragment_link ns name)
      → req.path ≡ path_of (fragment_link ns name)
      → routes server views escape req ≡ htmx_detail_body server views escape req
  unfolding routes exactly after_prefix
  fragment_path-routes req ns name clean h =
      let r = join (ns ∷ name ∷ []) "/" in
      let not_sse : exactly "/api/htmx/teams/sse" req ≡ false =
        ap (λ x. x == "/api/htmx/teams/sse") h ∙ fragment_path-differs ns name clean in
      rw
        (
          elsewhere req "/api/htmx/teams/" r "/healthz" h refl,
          elsewhere req "/api/htmx/teams/" r "/api/teams" h refl,
          not_sse,
          elsewhere req "/api/htmx/teams/" r "/api/htmx/teams" h refl,
          is_below req "/api/htmx/teams/" r h,
        )
        refl

  -- What answers a link.
  abbrev pub served : Request → Link → Response
  served req (team_link ns name) = team_detail server views ns name
  served req (events_link ns name) = begin_sse server views req (team_events ns name)
  served req (log_link ns name agent) = stream_logs server views req ns name agent
  served req (page_link ns name) = detail_view server views escape ns name
  served req (fragment_link ns name) = detail_body server views escape ns name

  is_filled : (s : String) → IsName s → (s == "") ≡ false
  is_filled s h = elim (Bool-cases (s == "")) [
    | inl blank ↦ absurd (h.0 ((eq_iff s "").0 blank))
    | inr filled ↦ filled
  ]

  events-dispatched :
      (req : Request) (ns name : String)
      → req.method ≡ "GET"
      → path_parts "/api/teams/" req.path ≡ ns ∷ name ∷ "events" ∷ []
      → route_team_detail server views escape req ≡ sse_detail_handler server views req
  unfolding route_team_detail dispatch_parts
  events-dispatched req ns name get parts = rw (get, parts) refl

  sse_of_parts-filled :
      (req : Request) (ns name : String)
      → IsClean (events_link ns name)
      → sse_of_parts server views req (ns ∷ name ∷ "events" ∷ [])
        ≡ begin_sse server views req (team_events ns name)
  unfolding sse_of_parts
  sse_of_parts-filled req ns name clean = rw (is_filled ns clean.0, is_filled name clean.1) refl

  events-streamed :
      (req : Request) (ns name : String)
      → IsClean (events_link ns name)
      → req.method ≡ "GET"
      → path_parts "/api/teams/" req.path ≡ ns ∷ name ∷ "events" ∷ []
      → sse_detail_handler server views req ≡ begin_sse server views req (team_events ns name)
  unfolding sse_detail_handler
  events-streamed req ns name clean get parts =
      let handled : sse_detail_handler server views req
          ≡ sse_of_parts server views req (path_parts "/api/teams/" req.path) =
        rw get refl in
      handled
      ∙ ap (λ x. sse_of_parts server views req x) parts
      ∙ sse_of_parts-filled req ns name clean

  with_two-filled :
      (ns name : String) (found : String → String → Response) (missing : Response)
      → IsName ns
      → IsName name
      → with_two server views escape (ns ∷ name ∷ []) found missing ≡ found ns name
  with_two-filled ns name found missing h k = rw (is_filled ns h, is_filled name k) refl

  -- A GET of a link, whose namespace and names are not empty and have no slash, is answered for just
  -- that namespace, team and agent: the JSON of the team, the stream of its events, the agent's log, the
  -- page, or the fragment of the page. No other route takes such a path.
  pub routes-path_of :
      (req : Request) (link : Link)
      → IsClean link
      → req.method ≡ "GET"
      → req.path ≡ path_of link
      → routes server views escape req ≡ served req link
  unfolding route_team_detail dispatch_parts route_detail_html htmx_detail_body
  routes-path_of req (team_link ns name) clean get path =
      let parts =
        ap (λ x. path_parts "/api/teams/" x) path ∙ path_parts-path_of (team_link ns name) clean in
      api_path-routes req _ path ∙ rw (get, parts) refl
  routes-path_of req (events_link ns name) clean get path =
      let parts =
        ap (λ x. path_parts "/api/teams/" x) path
        ∙ path_parts-path_of (events_link ns name) clean in
      api_path-routes req _ path
      ∙ events-dispatched req ns name get parts
      ∙ events-streamed req ns name clean get parts
  routes-path_of req (log_link ns name agent) clean get path =
      let parts =
        ap (λ x. path_parts "/api/teams/" x) path
        ∙ path_parts-path_of (log_link ns name agent) clean in
      api_path-routes req _ path ∙ rw (get, parts) refl
  routes-path_of req (page_link ns name) clean get path =
      let parts =
        ap (λ x. path_parts "/teams/" x) path ∙ path_parts-path_of (page_link ns name) clean in
      page_path-routes req _ path
      ∙ rw (get, parts)
          (with_two-filled ns name (detail_view server views escape) _ clean.0 clean.1)
  routes-path_of req (fragment_link ns name) clean get path =
      let parts =
        ap (λ x. path_parts "/api/htmx/teams/" x) path
        ∙ path_parts-path_of (fragment_link ns name) clean in
      fragment_path-routes req ns name clean path
      ∙ rw (get, parts)
          (with_two-filled ns name (detail_body server views escape) _ clean.0 clean.1)
