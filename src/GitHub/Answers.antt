-- ===== src/GitHub/Answers.antt =====
-- What a call of the client that succeeds says of the request that it sent.
use kagents.Prelude.{◌≡◌, refl, ◌<>◌, String, false, inl, inr, leb, Bool-cases, arith}
use kagents.Result.{Result, ok, err, ok_inj, Result-cases}
use kagents.Exec.{lift}
use kagents.Exec.Returns.{>>=-ok}
use kagents.Http.{Json, HttpRequest, HttpResponse}
use kagents.GitHub.{
  Client, RestApi, PullRequest, PullRequestRequest, marshal_request, request_of, check_answer, call,
  decode_answer, create_pull_request,
}

module _ {W : Type 0} (api : RestApi W) where
  open api use {transport, path_escape}

  check_answer-ok :
      (method path : String) (r : Result HttpResponse) {text : String}
      → check_answer api method path r ≡ ok text
      → (answer : HttpResponse) × (r ≡ ok answer)
        × (leb 400 answer.code ≡ false)
        × (answer.body ≡ text)
  unfolding check_answer
  check_answer-ok method path (err e) h = ground arith
  check_answer-ok method path (ok answer) h = elim (Bool-cases (leb 400 answer.code)) [
    | inl refused ↦ ground arith
    | inr accepted ↦ (answer, refl, accepted, ok_inj (rw accepted at h))
  ]

  call-ok :
      (c : Client) (method path : String) (body : Json) (w : W) {text : String}
      → (call api c method path body w).0 ≡ ok text
      → (answer : HttpResponse) × ((transport.do_request w (request_of api c method path body)).0
          ≡ ok answer)
        × (leb 400 answer.code ≡ false)
        × (answer.body ≡ text)
  unfolding call
  call-ok c method path body w h =
      elim (Result-cases (transport.new_request method (c.base_url <> path))) [
        | inl (u, formed) ↦ check_answer-ok method path _ (rw (call, formed) at h)
        | inr (e, malformed) ↦ absurd (let h' = rw (call, malformed) at h in ground arith)
      ]

  -- POST /repos/<owner>/<repo>/pulls
  abbrev pub pull_request_post : Client → String → String → PullRequestRequest → HttpRequest
  pull_request_post c owner repo req =
      request_of api c "POST"
        ("/repos/" <> path_escape owner <> "/" <> path_escape repo <> "/pulls")
        (marshal_request req)

  -- The request was sent, and answered with a code below 400 and a body that decodes to the pull request.
  abbrev pub IsAnswered : W → HttpRequest → PullRequest → Type 0
  IsAnswered w req pr =
      (answer : HttpResponse) × ((transport.do_request w req).0 ≡ ok answer)
      × (leb 400 answer.code ≡ false)
      × (decode_answer api answer.body ≡ ok pr)

  pub create_pull_request-ok :
      (c : Client) (owner repo : String) (req : PullRequestRequest) (w : W) {pr : PullRequest}
      → (create_pull_request api c owner repo req w).0 ≡ ok pr
      → IsAnswered w (pull_request_post c owner repo req) pr
  unfolding create_pull_request lift
  create_pull_request-ok c owner repo req w h =
      let (text, called, decoded) = >>=-ok _ _ w h in
      let (answer, sent, accepted, body) = call-ok c "POST" _ (marshal_request req) w called in
      (answer, sent, accepted, rw body decoded)
