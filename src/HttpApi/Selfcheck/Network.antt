-- ===== src/HttpApi/Selfcheck/Network.antt =====
-- internal/transport/httpapi: the handlers of router.go behind a multiplexer and a network, as a client
-- sees them.
use benzhi_project_fe3ad.Prelude.{
  ℕ, suc, true, Bool, false, ◌≡◌, refl, sym, ap, ◌∙◌, subst, inl, inr, Option, none, some, String,
  List, [], ◌∷◌, arith, Option-cases,
}
use benzhi_project_fe3ad.Calibration.Errors.{domain, plain, Result, ok, err}
use benzhi_project_fe3ad.Calibration.Types.{Time, ReleaseCredential}
use benzhi_project_fe3ad.JsonStore.Model.{Store, Faults}
use benzhi_project_fe3ad.Workflow.Queries.{
  get_credential, verify_credential_of, CredentialVerification,
}
use benzhi_project_fe3ad.HttpApi.Codec.{Body, write_error, status_of, respond}
use benzhi_project_fe3ad.HttpApi.Router.{
  HttpRequest, Api, Route, handle, health_handler, list_batches_handler, get_batch_handler,
  get_recalibration_tasks_handler, get_credential_handler, verify_credential_handler,
  get_findings_handler, get_audit_handler,
}
use benzhi_project_fe3ad.HttpApi.Client.{
  Fields, ClientJson, Web, call, expect, continue-ok, judge-ok,
}
use benzhi_project_fe3ad.HttpApi.Selfcheck.{get_all}

-- What may happen to a message between the client and the server.
pub data Delivery : Type 0 where
  delivered lost_request lost_answer : Delivery

pub record Environment : Type 0 where
  pub faults : Faults
  pub now : Time
  pub fresh : String → ℕ → String
  pub delivery : Delivery

-- Whether the pattern of a route has the method GET.
abbrev pub is_get : Route → Bool
is_get Route.get_health = true
is_get Route.get_batches = true
is_get Route.get_one_batch = true
is_get Route.get_tasks = true
is_get Route.get_release = true
is_get Route.get_findings = true
is_get Route.get_audit = true
is_get _ = false

abbrev body_text : Option String → String
body_text none = ""
body_text (some text) = text

-- An answer with status 200 to a query is no error.
respond-ok {ℓ} :
    {V : Type ℓ} (show : V → Body) (r : Result V)
    → (respond 200 show r).status ≡ 200
    → (v : V) × (r ≡ ok v)
unfolding write_error status_of
respond-ok show (ok v) same = (v, refl)
respond-ok show (err (plain m)) same = absurd (omega arith)
respond-ok show (err (domain e)) same = absurd (ground arith)

handle_get :
    (r : Route) (b : Api) (faults : Faults) (now : Time) (s : Store) (req : HttpRequest)
    → is_get r ≡ true
    → (handle b faults now s req r).0 ≡ s
unfolding handle health_handler list_batches_handler get_batch_handler
    get_recalibration_tasks_handler get_credential_handler get_findings_handler get_audit_handler
handle_get Route.get_health b faults now s req get = refl
handle_get Route.get_batches b faults now s req get = refl
handle_get Route.get_one_batch b faults now s req get = refl
handle_get Route.get_tasks b faults now s req get = refl
handle_get Route.get_release b faults now s req get = refl
handle_get Route.get_findings b faults now s req get = refl
handle_get Route.get_audit b faults now s req get = refl
handle_get Route.post_batch b faults now s req get = cc
handle_get Route.post_sensor b faults now s req get = cc
handle_get Route.post_profile b faults now s req get = cc
handle_get Route.post_measurement b faults now s req get = cc
handle_get Route.post_measurements b faults now s req get = cc
handle_get Route.post_recalibration b faults now s req get = cc
handle_get Route.post_review b faults now s req get = cc
handle_get Route.post_resubmission b faults now s req get = cc
handle_get Route.post_release b faults now s req get = cc
handle_get Route.post_verification b faults now s req get = cc

-- The handlers behind a multiplexer and a network. The state counts the requests, of which each has an
-- environment of its own; JSON writes the bodies of the answers.
module _ (a : Api) (route : (method path : String) → Option (Route × HttpRequest))
    (render : Body → String) (environment : ℕ → Environment) where
  -- The service with the ids that it draws for one request.
  abbrev serving : Environment → Api
  serving e = record a {
    host = record a.host { library = record a.host.library { fresh = e.fresh } };
  }

  abbrev answered :
      Environment → Store → Option (Route × HttpRequest) → Option String → Store × (ℕ × String)
  answered e s none body = (s, (404, "404 page not found"))
  answered e s (some (r, req)) body =
      let (s', answer) =
        handle (serving e) e.faults e.now s (record req { body = body_text body }) r in
      (s', (answer.status, render answer.body))

  abbrev carried : Delivery → Store → Store × (ℕ × String) → Store × Result (ℕ × String)
  carried lost_request s (s', answer) = (s, err (plain "Do"))
  carried lost_answer s (s', answer) = (s', err (plain "Do"))
  carried delivered s (s', answer) = (s', ok answer)

  abbrev pub api_web : Web
  api_web = record {
    State = ℕ × Store;
    request = λ (n, s) method path body.
        let e = environment n in
        let (s', r) = carried e.delivery s (answered e s (route method path) body) in
        ((suc n, s'), r);
  }

  -- An answer that has reached the client.
  carried-ok :
      (d : Delivery) (s t : Store) (x : Store × (ℕ × String)) (answer : ℕ × String)
      → carried d s x ≡ (t, ok answer)
      → x ≡ (t, answer)
  carried-ok lost_request s t (s', b) answer same = cc
  carried-ok lost_answer s t (s', b) answer same = cc
  carried-ok delivered s t (s', b) answer same = cc

  request-answered :
      (method path : String) (body : Option String) (n k : ℕ) (s t : Store) (answer : ℕ × String)
      → api_web.request (n, s) method path body ≡ ((k, t), ok answer)
      → answered (environment n) s (route method path) body ≡ (t, answer)
  request-answered method path body n k s t answer same =
      carried-ok (environment n).delivery s t _ answer (ap (λ x. (x.0.1, x.1)) same)

module _ (a : Api) (route : (method path : String) → Option (Route × HttpRequest))
    (render : Body → String) (environment : ℕ → Environment) (j : ClientJson) where
  -- The query of a path changes nothing.
  pub get_keeps :
      (gets : (path : String) (r : Route) (req : HttpRequest)
        → route "GET" path ≡ some (r, req)
        → is_get r ≡ true)
      (path : String) (n k : ℕ) (s t : Store) (answer : ℕ × String)
      → call (api_web a route render environment) j "GET" path none (n, s) ≡ ((k, t), ok answer)
      → s ≡ t
  unfolding call
  get_keeps gets path n k s t answer same =
      let got = request-answered a route render environment "GET" path none n k s t answer same in
      elim (Option-cases (route "GET" path)) [
        | inl missing ↦
            ap (λ x. x.0)
              (subst
                (λ o. answered a route render environment (environment n) s o none ≡ (t, answer))
                missing got)
        | inr ((r, req), found) ↦
            sym (handle_get r _ _ _ s _ (gets path r req found))
            ∙ ap (λ x. x.0)
                (subst
                  (λ o. answered a route render environment (environment n) s o none ≡ (t, answer))
                  found got)
      ]

  -- And so do the queries of several.
  pub get_all_keeps :
      (gets : (path : String) (r : Route) (req : HttpRequest)
        → route "GET" path ≡ some (r, req)
        → is_get r ≡ true)
      (paths : List String) (u v : ℕ × Store)
      → get_all (api_web a route render environment) j paths u ≡ (v, ok tt)
      → u.1 ≡ v.1
  unfolding get_all
  get_all_keeps gets [] u v same = ap (λ x. x.0.1) same
  get_all_keeps gets (path ∷ paths) u v same =
      let (x, received, first, rest) =
        continue-ok (expect (api_web a route render environment) j "GET" path none 200 _ u) _ v tt
          same in
      let (answer, called, matched, read) =
        judge-ok (api_web a route render environment) j 200 _ _ x received first in
      get_keeps gets path u.0 x.0 u.1 x.1 answer called ∙ get_all_keeps gets paths x v rest

  -- The route of the credential, answered with status 200.
  pub credential_got :
      (path : String) (req : HttpRequest) (n k : ℕ) (s t : Store) (answer : ℕ × String)
      → route "GET" path ≡ some (Route.get_release, req)
      → call (api_web a route render environment) j "GET" path none (n, s) ≡ ((k, t), ok answer)
      → answer.0 ≡ 200
      → (credential : ReleaseCredential) × (s ≡ t)
        × (get_credential a.host.codec a.host.library.marshal_frozen a.host.library.sha256 s
              req.batch_id
            ≡ ok credential)
        × (render (Body.credential credential) ≡ answer.1)
  unfolding call handle get_credential_handler
  credential_got path req n k s t answer routed same status =
      let got =
        subst (λ o. answered a route render environment (environment n) s o none ≡ (t, answer))
          routed
          (request-answered a route render environment "GET" path none n k s t answer same) in
      let (credential, found) =
        respond-ok Body.credential
          (get_credential a.host.codec a.host.library.marshal_frozen a.host.library.sha256 s
            req.batch_id)
          (ap (λ x. x.1.0) got ∙ status) in
      (
        credential,
        ap (λ x. x.0) got,
        found,
        subst (λ r. render (respond 200 Body.credential r).body ≡ answer.1) found
            (ap (λ x. x.1.1) got),
      )

  pub verification_got :
      (path : String) (req : HttpRequest) (fields : Fields) (n k : ℕ) (s t : Store)
      (answer : ℕ × String)
      → route "POST" path ≡ some (Route.post_verification, req)
      → call (api_web a route render environment) j "POST" path (some fields) (n, s)
        ≡ ((k, t), ok answer)
      → answer.0 ≡ 200
      → (id digest : String) × (v : CredentialVerification) × (s ≡ t)
        × (verify_credential_of a.host.codec a.host.library.marshal_frozen a.host.library.sha256
              (environment n).now
              s
              req.batch_id
              id
              digest
            ≡ ok v)
  unfolding call handle verify_credential_handler
  verification_got path req fields n k s t answer routed same status =
      let (u, body, written, rest) = continue-ok ((n, s), j.marshal fields) _ (k, t) answer same in
      let sent =
        subst
          (λ x.
            (api_web a route render environment).request x "POST" path (some body)
            ≡ ((k, t), ok answer))
          (sym (ap (λ x. x.0) written)) rest in
      let got =
        subst
          (λ o. answered a route render environment (environment n) s o (some body) ≡ (t, answer))
          routed
          (request-answered a route render environment "POST" path (some body) n k s t answer
            sent) in
      let (v, found) = respond-ok Body.verification _ (ap (λ x. x.1.0) got ∙ status) in
      elim (Option-cases (a.bodies.verify_credential (body_text (some body)))) [
        | inl unread ↦ absurd (ground arith)
        | inr ((id, digest), decoded) ↦ (id, digest, v, ap (λ x. x.0) got, ground arith)
      ]
