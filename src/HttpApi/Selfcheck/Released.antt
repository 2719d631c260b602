-- ===== src/HttpApi/Selfcheck/Released.antt =====
-- internal/transport/httpapi/selfcheck.go against the handlers of router.go: what is in the store when
-- a self-check has passed.
use benzhi_project_fe3ad.Prelude.{
  ℕ, true, ◌≡◌, sym, ap, ◌∙◌, subst, inl, inr, Option, none, some, String, List, arith,
  Option-cases,
}
use benzhi_project_fe3ad.Calibration.Errors.{ok, Result-cases}
use benzhi_project_fe3ad.Calibration.Types.{Snapshot, ReleaseCredential}
use benzhi_project_fe3ad.Calibration.Snapshot.{credential_for_batch, find_batch}
use benzhi_project_fe3ad.Ledger.Event.{Event}
use benzhi_project_fe3ad.Ledger.Chain.{verify_chain}
use benzhi_project_fe3ad.Ledger.Projection.{validate_projections, ProjectionCheck}
use benzhi_project_fe3ad.Ledger.Credential.{verify_credential}
use benzhi_project_fe3ad.JsonStore.Model.{Store, clone_snapshot}
use benzhi_project_fe3ad.JsonStore.Reads.{read_state}
use benzhi_project_fe3ad.Workflow.Queries.{get_credential}
use benzhi_project_fe3ad.Workflow.Queries.Verdicts.{verify_credential_of-IsVerdict}
use benzhi_project_fe3ad.HttpApi.Codec.{Body}
use benzhi_project_fe3ad.HttpApi.Router.{HttpRequest, Api, Route}
use benzhi_project_fe3ad.HttpApi.Client.{◌>>=◌, ClientJson, Web, expect, continue-ok, judge-ok}
use benzhi_project_fe3ad.HttpApi.Selfcheck.{
  Client, set_up, sample, correct, release, check_release, get_all, last_paths, batch_path, run,
  verification_fields,
}
use benzhi_project_fe3ad.HttpApi.Selfcheck.Network.{
  is_get, Environment, api_web, get_all_keeps, credential_got, verification_got,
}

-- What the multiplexer does, as far as a self-check depends on it: GET matches no other pattern, and
-- the two paths of the credential match theirs with the id of the batch.
pub record IsServed (a : Api) (j : ClientJson)
    (route : (method path : String) → Option (Route × HttpRequest)) (c : Client) : Type 0 where
  pub gets :
      (path : String) (r : Route) (req : HttpRequest)
      → route "GET" path ≡ some (r, req)
      → is_get r ≡ true
  pub credential_request : HttpRequest
  pub credential_routed :
      route "GET" (batch_path c "/credential") ≡ some (Route.get_release, credential_request)
  pub credential_id : credential_request.batch_id ≡ c.batch_id
  pub verify_request : HttpRequest
  pub verify_routed :
      route "POST" (batch_path c "/credential:verify")
      ≡ some (Route.post_verification, verify_request)
  pub verify_id : verify_request.batch_id ≡ c.batch_id

module _ (a : Api) (route : (method path : String) → Option (Route × HttpRequest))
    (render : Body → String) (environment : ℕ → Environment) (j : ClientJson) where
  -- What a self-check has seen of a batch in the store: its credential, which verifies against the
  -- projection, and a ledger on the disk with as many events as the one in memory and the same last
  -- digest, whose chain verifies and whose projections validate.
  pub record IsReleased (s : Store) (batch_id : String) : Type 0 where
    pub snapshot : Snapshot
    pub events : List Event
    pub state : read_state a.host.codec s ≡ ok (snapshot, events)
    pub chained : verify_chain a.host.codec.marshal_material a.host.codec.sha256 events ≡ ok tt
    pub checks : List ProjectionCheck
    pub projected : validate_projections a.host.codec.unmarshal_snapshot events ≡ ok checks
    pub credential : ReleaseCredential
    pub issued : credential_for_batch snapshot batch_id ≡ some credential
    pub verified :
        verify_credential a.host.library.marshal_frozen a.host.library.sha256 snapshot credential
        ≡ ok tt

  get_credential-eq-ok :
      (s : Store) (t : Snapshot) (events : List Event) (batch_id : String)
      (credential : ReleaseCredential)
      → read_state a.host.codec s ≡ ok (t, events)
      → get_credential a.host.codec a.host.library.marshal_frozen a.host.library.sha256 s batch_id
        ≡ ok credential
      → (credential_for_batch t batch_id ≡ some credential)
        × (verify_credential a.host.library.marshal_frozen a.host.library.sha256 t credential
            ≡ ok tt)
  unfolding get_credential read_state
  get_credential-eq-ok s t events batch_id credential known got =
      elim (Result-cases (clone_snapshot a.host.codec s.projection)) [
        | inr (e, q) ↦ absurd (ground arith)
        | inl (t', q) ↦ elim (Result-cases (find_batch t' batch_id)) [
          | inr (e, q') ↦ absurd (ground arith)
          | inl (b, q') ↦ elim (Option-cases (credential_for_batch t' batch_id)) [
            | inl missing ↦ absurd (ground arith)
            | inr (cr, q'') ↦
                let same : t' ≡ t = ground arith in
                let verified : verify_credential a.host.library.marshal_frozen a.host.library.sha256
                      t' cr
                    ≡ ok tt =
                  ground (
                    arith,
                    Result-cases (
                        verify_credential a.host.library.marshal_frozen a.host.library.sha256 t'
                          cr),
                  ) in
                let found : credential ≡ cr = ground (
                  arith,
                  Result-cases
                      (verify_credential a.host.library.marshal_frozen a.host.library.sha256 t' cr),
                ) in
                (
                  subst (λ x. credential_for_batch x batch_id ≡ some credential) same
                      (q'' ∙ ap some (sym found)),
                  subst
                      (λ x.
                        verify_credential a.host.library.marshal_frozen a.host.library.sha256 x
                          credential
                        ≡ ok tt)
                      same
                      (subst
                        (λ x.
                          verify_credential a.host.library.marshal_frozen a.host.library.sha256 t' x
                          ≡ ok tt)
                        (sym found) verified),
                )
          ]
        ]
      ]

  -- The last part of the scenario, from the client's batch on.
  check_release-IsReleased :
      (n k : ℕ) (s t : Store) (c d : Client)
      → IsServed a j route c
      → check_release (api_web a route render environment) j c (n, s) ≡ ((k, t), ok d)
      → IsReleased t c.batch_id
  unfolding check_release
  check_release-IsReleased n k s t c d served passed =
      let w = api_web a route render environment in
      let (u₁, received, first, rest₁) =
        continue-ok (expect w j "GET" (batch_path c "/credential") none 200 _ (n, s)) _ (k, t) d
          passed in
      let (answer₁, called₁, status₁, read₁) = judge-ok w j 200 _ _ u₁ received first in
      let (credential, kept₁, got, rendered) =
        credential_got a route render environment j (batch_path c "/credential")
          served.credential_request n u₁.0 s u₁.1 answer₁ served.credential_routed called₁
          status₁ in
      let (u₂, pair, decoded, rest₂) =
        continue-ok (u₁, j.unmarshal_credential received) _ (k, t) d rest₁ in
      let (u₃, verified, second, rest₃) =
        continue-ok
          (expect w j "POST" (batch_path c "/credential:verify") (some (verification_fields pair))
            200 _ u₂)
          _ (k, t) d rest₂ in
      let (answer₂, called₂, status₂, read₂) = judge-ok w j 200 _ _ u₃ verified second in
      let (id, digest, v, kept₂, judged) =
        verification_got a route render environment j (batch_path c "/credential:verify")
          served.verify_request (verification_fields pair) u₂.0 u₃.0 u₂.1 u₃.1 answer₂
          served.verify_routed called₂ status₂ in
      let (u₄, done, third, rest₄) = continue-ok (get_all w j (last_paths c) u₃) _ (k, t) d rest₃ in
      let moved : s ≡ u₂.1 = kept₁ ∙ ap (λ x. x.0.1) decoded in
      let kept : u₂.1 ≡ t =
        kept₂
        ∙ get_all_keeps a route render environment j served.gets (last_paths c) u₃ u₄ third
        ∙ ap (λ x. x.0.1) rest₄ in
      let (snapshot, events, state, chained, (checks, projected), verdict, genuine) =
        verify_credential_of-IsVerdict a.host.codec a.host.library.marshal_frozen
          a.host.library.sha256 _ u₂.1 _ _ _ v judged in
      let (issued, sound) = get_credential-eq-ok u₂.1 snapshot events c.batch_id credential state (
        subst
          (λ x.
            get_credential a.host.codec a.host.library.marshal_frozen a.host.library.sha256 x
              c.batch_id
            ≡ ok credential)
          moved
          (subst
            (λ id.
              get_credential a.host.codec a.host.library.marshal_frozen a.host.library.sha256 s id
              ≡ ok credential)
            served.credential_id got)) in
      subst (λ x. IsReleased x c.batch_id) kept
        (record {
          snapshot = snapshot;
          events = events;
          state = state;
          chained = chained;
          checks = checks;
          projected = projected;
          credential = credential;
          issued = issued;
          verified = sound;
        })

  check_release_same :
      (w : Web) (u v : w.State) (c d : Client) → check_release w j c u ≡ (v, ok d) → c ≡ d
  unfolding check_release
  check_release_same w u v c d passed =
      let (u₁, received, first, rest₁) =
        continue-ok (expect w j "GET" _ none 200 _ u) _ v d passed in
      let (u₂, pair, decoded, rest₂) =
        continue-ok (u₁, j.unmarshal_credential received) _ v d rest₁ in
      let (u₃, verified, second, rest₃) =
        continue-ok (expect w j "POST" _ (some (verification_fields pair)) 200 _ u₂) _ v d rest₂ in
      let (u₄, done, third, rest₄) = continue-ok (get_all w j (last_paths c) u₃) _ v d rest₃ in cc

  -- When a run of the scenario against the handlers has ended without an error, however the store, the
  -- network and the clock behaved, its batch has a credential that verifies against the projection; the
  -- ledger on the disk has as many events as the one in memory and the same last digest, its chain
  -- verifies and its projections validate. The multiplexer matches only queries for GET and finds the
  -- two routes of the credential under the id of the batch.
  pub run-IsReleased :
      (n k : ℕ) (s t : Store) (c : Client)
      → IsServed a j route c
      → run (api_web a route render environment) j (n, s) ≡ ((k, t), ok c)
      → IsReleased t c.batch_id
  unfolding run
  run-IsReleased n k s t c served passed =
      let w = api_web a route render environment in
      let (u, d, before, checked) =
        continue-ok ((set_up w j >>= sample w j >>= correct w j >>= release w j) (n, s))
          (check_release w j) (k, t) c passed in
      let same = check_release_same w u (k, t) d c checked in
      subst (λ x. IsReleased t x.batch_id) same
        (check_release-IsReleased u.0 k u.1 t d c (subst (IsServed a j route) (sym same) served)
          checked)
