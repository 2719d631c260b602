-- ===== src/HttpApi/Selfcheck/Waiting.antt =====
-- internal/transport/httpapi/selfcheck.go: the exchanges of `RunSelfcheck`, its wait for the server
-- included.
use mathlib.Core.List.{append_assoc}
use benzhi_project_fe3ad.Prelude.{
  ℕ, zero, suc, ◌≤◌, ==_iff, Bool, true, false, ◌≡◌, ◌⊎◌, refl, sym, ap, ◌∙◌, inl, inr, none, some,
  String, List, [], ◌∷◌, ◌++◌, last, length, All, arith,
}
use benzhi_project_fe3ad.Calibration.Errors.{Result, ok, err}
use benzhi_project_fe3ad.HttpApi.Client.{ClientJson, Web, call, continue-ok, Exec}
use benzhi_project_fe3ad.HttpApi.Selfcheck.{Served, run, wait_healthy, run_selfcheck, is_healthy}
use benzhi_project_fe3ad.HttpApi.Selfcheck.Exchanges.{Exchange, exchange, recording, noted}
use benzhi_project_fe3ad.HttpApi.Selfcheck.Trace.{IsScenario, run-IsScenario}

abbrev poll : ℕ → String → Exchange
poll status received = exchange "GET" "/healthz" none status received

-- The polls of a wait: queries of the health, of which the last is answered with 200, and at most so
-- many.
pub record IsWait (n : ℕ) (polls : List Exchange) : Type 0 where
  pub queries : All (λ e. (e.method ≡ "GET") × (e.path ≡ "/healthz")) polls
  pub answer : String
  pub healthy : last polls ≡ some (exchange "GET" "/healthz" none 200 answer)
  pub bounded : length polls ≤ n

IsWait-more :
    (n status : ℕ) (received : String) (polls : List Exchange)
    → IsWait n polls
    → IsWait (suc n) (poll status received ∷ polls)
IsWait-more n status received [] wait = absurd (let none_yet = wait.healthy in cc)
IsWait-more n status received (p ∷ polls) wait = record {
  queries = ((refl, refl), wait.queries);
  answer = wait.answer;
  healthy = wait.healthy;
  bounded = ground (arith, wait.bounded);
}

module _ (w : Web) (j : ClientJson) where
  -- One poll, and what is noted of it.
  abbrev polled : Exec (w.State × List Exchange) (ℕ × String)
  polled = call (recording w) j "GET" "/healthz" none

  polled-noted :
      (s : w.State) (log : List Exchange)
      → (polled (s, log)).0.1 ≡ noted log "GET" "/healthz" none (polled (s, log)).1
  unfolding call
  polled-noted s log = refl

  healthy_answer :
      (r : Result (ℕ × String))
      → is_healthy (recording w) j r ≡ true
      → (received : String) × (r ≡ ok (200, received))
  healthy_answer (err e) healthy = cc
  healthy_answer (ok (status, received)) healthy =
      (received, ap (λ n. ok (n, received)) ((==_iff status 200).0 healthy))

  -- What an unhealthy poll adds to the polls behind it.
  more_polls :
      (n : ℕ) (log polls : List Exchange) (r : Result (ℕ × String))
      → IsWait n polls
      → (more : List Exchange) × (noted log "GET" "/healthz" none r ++ polls ≡ log ++ more)
        × IsWait (suc n) more
  more_polls n log polls (err e) wait = (
    polls,
    refl,
    record {
      queries = wait.queries;
      answer = wait.answer;
      healthy = wait.healthy;
      bounded = ground (arith, wait.bounded);
    },
  )
  more_polls n log polls (ok (status, received)) wait = (
    poll status received ∷ polls,
    append_assoc log (poll status received ∷ []) polls,
    IsWait-more n status received polls wait,
  )

  picked {ℓ} :
      {X : Type ℓ} (b : Bool) (x y z : X)
      → (elim b [ true ↦ x | false ↦ y ]) ≡ z
      → ((b ≡ true) × (x ≡ z)) ⊎ ((b ≡ false) × (y ≡ z))
  picked true x y z same = inl (refl, same)
  picked false x y z same = inr (refl, same)

  healthy_poll :
      (s t : w.State) (log done : List Exchange)
      → is_healthy (recording w) j (polled (s, log)).1 ≡ true
      → (polled (s, log)).0 ≡ (t, done)
      → (received : String) × (done ≡ log ++ poll 200 received ∷ [])
  healthy_poll s t log done healthy same =
      let (received, answered) = healthy_answer (polled (s, log)).1 healthy in
      (
        received,
        sym (ap (λ x. x.1) same)
            ∙ polled-noted s log
            ∙ ap (noted log "GET" "/healthz" none) answered,
      )

  -- A wait that ends without an error.
  wait_healthy-IsWait :
      (ticks : ℕ) (s t : w.State) (log done : List Exchange)
      → wait_healthy (recording w) j ticks (s, log) ≡ ((t, done), ok tt)
      → (polls : List Exchange) × (done ≡ log ++ polls) × IsWait (suc ticks) polls
  unfolding wait_healthy
  wait_healthy-IsWait zero s t log done same =
      elim (picked (is_healthy (recording w) j (polled (s, log)).1) _ _ _ same) [
        | inl (healthy, here) ↦
            let (received, one) = healthy_poll s t log done healthy (ap (λ x. x.0) here) in
            (
              poll 200 received ∷ [],
              one,
              record {
                queries = ((refl, refl), tt);
                answer = received;
                healthy = refl;
                bounded = omega arith;
              },
            )
        | inr (sick, here) ↦ absurd (cc)
      ]
  wait_healthy-IsWait (suc ticks) s t log done same =
      elim (picked (is_healthy (recording w) j (polled (s, log)).1) _ _ _ same) [
        | inl (healthy, here) ↦
            let (received, one) = healthy_poll s t log done healthy (ap (λ x. x.0) here) in
            (
              poll 200 received ∷ [],
              one,
              record {
                queries = ((refl, refl), tt);
                answer = received;
                healthy = refl;
                bounded = omega arith;
              },
            )
        | inr (sick, here) ↦
            let (polls, rest, wait) =
              wait_healthy-IsWait ticks (polled (s, log)).0.0 t (polled (s, log)).0.1 done here in
            let (more, joined, wait') = more_polls (suc ticks) log polls (polled (s, log)).1 wait in
            (more, rest ∙ ap (λ l. l ++ polls) (polled-noted s log) ∙ joined, wait')
      ]

  pub run_selfcheck-IsScenario :
      (ticks : ℕ) (shutdown : Result (Unit {0})) (served : Served) (s t : w.State)
      (log done : List Exchange)
      → run_selfcheck (recording w) j ticks shutdown served (s, log) ≡ ((t, done), ok tt)
      → (polls es : List Exchange) × (done ≡ log ++ (polls ++ es))
        × IsWait (suc ticks) polls
        × IsScenario j es
  unfolding run_selfcheck
  run_selfcheck-IsScenario ticks shutdown served s t log done passed =
      let (u, waited, first, rest₁) =
        continue-ok (wait_healthy (recording w) j ticks (s, log)) _ (t, done) tt passed in
      let (polls, polled, wait) = wait_healthy-IsWait ticks s u.0 log u.1 first in
      let (v, c, second, rest₂) = continue-ok (run (recording w) j u) _ (t, done) tt rest₁ in
      let (es, had, scenario) = run-IsScenario w j u.0 v.0 u.1 v.1 c second in
      let (x, stopped, third, rest₃) = continue-ok (v, shutdown) _ (t, done) tt rest₂ in
      let kept : v ≡ (t, done) = ap (λ y. y.0) third ∙ ap (λ y. y.0) rest₃ in
      (
        polls,
        es,
        sym (ap (λ y. y.1) kept) ∙ had ∙ ap (λ l. l ++ es) polled ∙ append_assoc log polls es,
        wait,
        scenario,
      )
