-- ===== src/HttpApi/Selfcheck/Exchanges.antt =====
-- internal/transport/httpapi/selfcheck.go: the requests that a self-check makes and the answers that it
-- has, in order.
use benzhi_project_fe3ad.Prelude.{
  ℕ, ◌≡◌, sym, ap, ◌∙◌, subst, Option, none, some, String, List, [], ◌∷◌, ◌++◌,
}
use mathlib.Core.List.{append-nil, append_assoc}
use benzhi_project_fe3ad.Calibration.Errors.{Result, ok, err}
use benzhi_project_fe3ad.HttpApi.Client.{
  Exec, ◌>>=◌, pure, lift, Fields, ClientJson, Web, call, mutate, expect, expected_text,
  MutationResult, continue-ok, judge-ok, expected_text-status,
}

-- A request and its answer.
pub record Exchange : Type 0 where
  pub method : String
  pub path : String
  pub body : Option String
  pub status : ℕ
  pub received : String

abbrev pub exchange : (method path : String) → Option String → ℕ → String → Exchange
exchange method path body status received = record {
  method = method;
  path = path;
  body = body;
  status = status;
  received = received;
}

abbrev pub noted :
    List Exchange → (method path : String) → Option String → Result (ℕ × String) → List Exchange
noted log method path body (err e) = log
noted log method path body (ok (status, received)) =
    log ++ exchange method path body status received ∷ []

-- A network that keeps a record of what it has answered.
abbrev pub recording : Web → Web
recording w = record {
  State = w.State × List Exchange;
  request = λ (s, log) method path body.
      let (s', r) = w.request s method path body in ((s', noted log method path body r), r);
}

-- A step that ends without an error has had exchanges that fit its result.
pub record Logs {ℓ} {S : Type 0} {A : Type ℓ} (P : A → List Exchange → Type 0)
    (m : Exec (S × List Exchange) A) : Type ℓ where
  pub at :
      (s t : S) (log done : List Exchange) (a : A)
      → m (s, log) ≡ ((t, done), ok a)
      → (es : List Exchange) × (done ≡ log ++ es) × P a es

module _ {ℓ} {S : Type 0} {A : Type ℓ} where
  pub Logs-pure : (P : A → List Exchange → Type 0) (a : A) → P a [] → Logs {S = S} P (pure a)
  Logs-pure P a holds = record {
    at = λ s t log done b same.
        let kept : log ≡ done = ap (λ x. x.0.1) same in
        let is_a : ok a ≡ ok b = ap (λ x. x.1) same in
        let same_a : a ≡ b = cc in
        ([], sym kept ∙ sym (append-nil log), subst (λ x. P x []) same_a holds);
  }

module _ (w : Web) (j : ClientJson) where
  request-noted :
      (method path : String) (body : Option String) (s t : w.State) (log done : List Exchange)
      (answer : ℕ × String)
      → (recording w).request (s, log) method path body ≡ ((t, done), ok answer)
      → done ≡ log ++ exchange method path body answer.0 answer.1 ∷ []
  request-noted method path body s t log done answer same =
      let received : (w.request s method path body).1 ≡ ok answer = ap (λ x. x.1) same in
      let kept : noted log method path body ((w.request s method path body).1) ≡ done =
        ap (λ x. x.0.1) same in
      sym kept ∙ ap (noted log method path body) received

  -- A call with a body.
  call-noted :
      (method path : String) (fields : Fields) (s t : w.State) (log done : List Exchange)
      (answer : ℕ × String)
      → call (recording w) j method path (some fields) (s, log) ≡ ((t, done), ok answer)
      → (body : String) × (j.marshal fields ≡ ok body)
        × (done ≡ log ++ exchange method path (some body) answer.0 answer.1 ∷ [])
  unfolding call
  call-noted method path fields s t log done answer same =
      let ((u, between), body, begun, rest) =
        continue-ok ((s, log), j.marshal fields) _ (t, done) answer same in
      let kept : log ≡ between = ap (λ x. x.0.1) begun in
      (
        body,
        ap (λ x. x.1) begun,
        request-noted method path (some body) u t between done answer rest
            ∙ ap (λ l. l ++ exchange method path (some body) answer.0 answer.1 ∷ []) (sym kept),
      )

  query-noted :
      (method path : String) (s t : w.State) (log done : List Exchange) (answer : ℕ × String)
      → call (recording w) j method path none (s, log) ≡ ((t, done), ok answer)
      → done ≡ log ++ exchange method path none answer.0 answer.1 ∷ []
  unfolding call
  query-noted method path s t log done answer same =
      request-noted method path none s t log done answer same

  mutate-noted :
      (method path : String) (fields : Fields) (expected : ℕ) (s t : w.State)
      (log done : List Exchange) (r : MutationResult)
      → mutate (recording w) j method path fields expected (s, log) ≡ ((t, done), ok r)
      → (body received : String) × (j.marshal fields ≡ ok body)
        × (j.unmarshal_result received ≡ ok r)
        × (done ≡ log ++ exchange method path (some body) expected received ∷ [])
  unfolding mutate
  mutate-noted method path fields expected s t log done r same =
      let (u, answer, called, rest) =
        continue-ok (call (recording w) j method path (some fields) (s, log)) _ (t, done) r same in
      let (v, received, tested, decoded) =
        continue-ok (u, expected_text w j expected "%s %s 返回 %d，期望 %d: %s" answer) _ (t, done) r
          rest in
      let matched =
        expected_text-status (recording w) j expected _ answer received (ap (λ x. x.1) tested) in
      let last : u ≡ (t, done) = ap (λ x. x.0) tested ∙ ap (λ x. x.0) decoded in
      let (body, written, noted_so) = call-noted method path fields s t log done answer (
        subst (λ x. call (recording w) j method path (some fields) (s, log) ≡ (x, ok answer)) last
          called) in
      (
        body,
        received,
        written,
        ap (λ x. x.1) decoded,
        noted_so
            ∙ ap (λ n. log ++ exchange method path (some body) n answer.1 ∷ []) matched.0
            ∙ ap (λ t. log ++ exchange method path (some body) expected t ∷ []) matched.1,
      )

  -- One exchange before the others.
  before :
      (log between done es : List Exchange) (e : Exchange)
      → between ≡ log ++ e ∷ []
      → done ≡ between ++ es
      → done ≡ log ++ e ∷ es
  before log between done es e first rest =
      rest ∙ ap (λ l. l ++ es) first ∙ append_assoc log (e ∷ []) es

  -- A step and the rest of a `do` block.
  pub Logs-mutate_then {ℓ} :
      {B : Type ℓ} (P : B → List Exchange → Type 0) (method path : String) (fields : Fields)
      (expected : ℕ) (next : MutationResult → Exec (recording w).State B)
      → ((r : MutationResult) (body received : String)
          → j.marshal fields ≡ ok body
          → j.unmarshal_result received ≡ ok r
          → Logs (λ b es. P b (exchange method path (some body) expected received ∷ es)) (next r))
      → Logs P (mutate (recording w) j method path fields expected >>= next)
  Logs-mutate_then P method path fields expected next others = record {
    at = λ s t log done b same.
        let ((u, between), r, begun, ended) =
          continue-ok (mutate (recording w) j method path fields expected (s, log)) next (t, done) b
            same in
        let (body, received, written, read, first) =
          mutate-noted method path fields expected s u log between r begun in
        let (es, rest, holds) = (others r body received written read).at u t between done b ended in
        (_, before log between done es _ first rest, holds);
  }

  pub Logs-expect_then {ℓ} :
      {B : Type ℓ} (P : B → List Exchange → Type 0) (method path : String) (fields : Fields)
      (expected : ℕ) (message : String) (next : String → Exec (recording w).State B)
      → ((body received : String)
          → j.marshal fields ≡ ok body
          → Logs
              (λ b es. P b (exchange method path (some body) expected received ∷ es))
              (next received))
      → Logs P (expect (recording w) j method path (some fields) expected message >>= next)
  Logs-expect_then P method path fields expected message next others = record {
    at = λ s t log done b same.
        let ((u, between), received, begun, ended) =
          continue-ok (expect (recording w) j method path (some fields) expected message (s, log))
            next (t, done) b same in
        let (answer, called, status, content) =
          judge-ok (recording w) j expected message
            (call (recording w) j method path (some fields) (s, log)) (u, between) received begun in
        let (body, written, first) = call-noted method path fields s u log between answer called in
        let first' =
          first
          ∙ ap (λ n. log ++ exchange method path (some body) n answer.1 ∷ []) status
          ∙ ap (λ x. log ++ exchange method path (some body) expected x ∷ []) content in
        let (es, rest, holds) = (others body received written).at u t between done b ended in
        (_, before log between done es _ first' rest, holds);
  }

  pub Logs-query_then {ℓ} :
      {B : Type ℓ} (P : B → List Exchange → Type 0) (method path : String) (expected : ℕ)
      (message : String) (next : String → Exec (recording w).State B)
      → ((received : String)
          → Logs (λ b es. P b (exchange method path none expected received ∷ es)) (next received))
      → Logs P (expect (recording w) j method path none expected message >>= next)
  Logs-query_then P method path expected message next others = record {
    at = λ s t log done b same.
        let ((u, between), received, begun, ended) =
          continue-ok (expect (recording w) j method path none expected message (s, log)) next
            (t, done) b same in
        let (answer, called, status, content) =
          judge-ok (recording w) j expected message (call (recording w) j method path none (s, log))
            (u, between) received begun in
        let first =
          query-noted method path s u log between answer called
          ∙ ap (λ n. log ++ exchange method path none n answer.1 ∷ []) status
          ∙ ap (λ x. log ++ exchange method path none expected x ∷ []) content in
        let (es, rest, holds) = (others received).at u t between done b ended in
        (_, before log between done es _ first rest, holds);
  }

  pub Logs-lift_then {ℓ κ} :
      {A : Type ℓ} {B : Type κ} (P : B → List Exchange → Type 0) (r : Result A)
      (next : A → Exec (recording w).State B)
      → ((a : A) → r ≡ ok a → Logs P (next a))
      → Logs P (lift r >>= next)
  Logs-lift_then P r next others = record {
    at = λ s t log done b same.
        let ((u, between), a, begun, ended) = continue-ok ((s, log), r) next (t, done) b same in
        let (es, rest, holds) = (others a (ap (λ x. x.1) begun)).at u t between done b ended in
        (es, rest ∙ ap (λ l. l ++ es) (sym (ap (λ x. x.0.1) begun)), holds);
  }

module _ {ℓ κ} {S : Type 0} {A : Type ℓ} {B : Type κ} where
  pub Logs-bind :
      (Q : A → List Exchange → Type 0) (P : B → List Exchange → Type 0)
      (m : Exec (S × List Exchange) A) (next : A → Exec (S × List Exchange) B)
      → Logs Q m
      → ((a : A) (xs : List Exchange) → Q a xs → Logs (λ b ys. P b (xs ++ ys)) (next a))
      → Logs P (m >>= next)
  Logs-bind Q P m next first others = record {
    at = λ s t log done b same.
        let ((u, between), a, begun, ended) = continue-ok (m (s, log)) next (t, done) b same in
        let (xs, had, fits) = first.at s u log between a begun in
        let (ys, rest, holds) = (others a xs fits).at u t between done b ended in
        (xs ++ ys, rest ∙ ap (λ l. l ++ ys) had ∙ append_assoc log xs ys, holds);
  }
