-- ===== src/Workflow/Retries.antt =====
-- internal/application/workflow/service.go: a call of the service that its client repeats.
use benzhi_project_fe3ad.Prelude.{
  ℕ, Bool, true, false, ◌≡◌, refl, inl, inr, none, String, ap, sym, ◌∙◌, arith, Option-cases,
}
use benzhi_project_fe3ad.Prelude.Maps.{lookup}
use benzhi_project_fe3ad.Calibration.Errors.{ok, Result-cases}
use benzhi_project_fe3ad.Calibration.Types.{Time}
use benzhi_project_fe3ad.JsonStore.Model.{
  IdempotentResult, Codec, CommitRequest, CommitResult, Store, Faults, appended,
}
use benzhi_project_fe3ad.JsonStore.Commit.{
  Prepared, commit, prepare, persist, finish, replay, check_request, idempotency_index,
}
use benzhi_project_fe3ad.JsonStore.Commit.Outcomes.{commit_repeated}
use benzhi_project_fe3ad.Workflow.Commands.{CommandMeta, Command, Response}
use benzhi_project_fe3ad.Workflow.Service.{
  drawing, request_fingerprint, Host, serve, request_of, validate_meta, target, mutate, single,
  decode,
}

ok-injective : {V : Type 0} {v w : V} → ok v ≡ ok w → v ≡ w
ok-injective same = cc

module _ {R : Type 0} (c : Codec R) where
  replay_replayed :
      (s : Store) (req : CommitRequest R) (old : IdempotentResult) (r : CommitResult)
      → replay s req old ≡ ok r
      → r.replayed ≡ true
  unfolding replay
  replay_replayed s req old r done = ground arith

  persist_ok :
      (faults : Faults) (s : Store) (req : CommitRequest R) (p : Prepared) (r : CommitResult)
      → (persist c faults s req p).1 ≡ ok r
      → (faults.append ≡ appended) × (r.response ≡ p.response)
  unfolding persist finish
  persist_ok faults s req p r done = (ground arith, ground arith)

  -- A commit that is not a replay has written its line.
  commit_fresh :
      (faults : Faults) (now : Time) (s : Store) (req : CommitRequest R) (r : CommitResult)
      → (commit c faults now s req).1 ≡ ok r
      → r.replayed ≡ false
      → (p : Prepared) × (check_request c req ≡ ok tt)
        × (lookup (idempotency_index req.aggregate_id req.idempotency_key) s.idempotency ≡ none)
        × (prepare c now s req ≡ ok p)
        × (faults.append ≡ appended)
        × (r.response ≡ p.response)
  unfolding commit
  commit_fresh faults now s req r done fresh =
      elim (Option-cases
        (lookup (idempotency_index req.aggregate_id req.idempotency_key) s.idempotency)) [
          | inr (old, used) ↦
              let replayed = replay_replayed s req old r in
              absurd (ground (arith, Result-cases (check_request c req)))
          | inl unused ↦ elim (Result-cases (prepare c now s req)) [
            | inr (e, q) ↦ absurd (ground (arith, Result-cases (check_request c req)))
            | inl (p, q) ↦
                let written = persist_ok faults s req p r in
                let checked : check_request c req ≡ ok tt =
                  ground (arith, Result-cases (check_request c req)) in
                (p, checked, unused, q, ground arith, ground arith)
          ]
        ]

single_replayed :
    (cmd : Command) (x : Response) (b : Bool)
    → single cmd (record x { replayed = b }) ≡ record (single cmd x) { replayed = b }
single_replayed (Command.create_batch code title) x b = refl
single_replayed (Command.register_sensor i) x b = refl
single_replayed (Command.lock_profile i) x b = refl
single_replayed (Command.submit_measurement e i) x b = refl
single_replayed (Command.submit_measurements e is) x b = refl
single_replayed (Command.recalibrate e note) x b = refl
single_replayed (Command.review i) x b = refl
single_replayed (Command.resubmit_review comment) x b = refl
single_replayed Command.issue x b = refl

module _ (h : Host) where
  -- The request of a repeated call, which draws ids of its own, differs in its mutation only.
  request_of-later :
      (ids new_ids : String → ℕ → String) (now later : Time) (m : CommandMeta) (batch_id : String)
      (cmd : Command) (req : CommitRequest Response)
      → request_of (drawing ids h) now m batch_id cmd ≡ ok req
      → request_of (drawing new_ids h) later m batch_id cmd
        ≡ ok (record req {
          mutate = mutate (drawing new_ids h) m (target h m batch_id cmd) cmd later;
        })
  unfolding request_of request_fingerprint
  request_of-later ids new_ids now later m batch_id cmd req made =
      ground (arith, Result-cases (validate_meta m), Result-cases (h.marshal_command m cmd))

  decode-eq :
      (cmd : Command) (a : CommitResult) (x : Response)
      → h.unmarshal_response a.response ≡ ok x
      → decode h cmd (ok a) ≡ ok (record (single cmd x) { replayed = a.replayed })
  decode-eq cmd a x q = rw q (ap ok (single_replayed cmd x a.replayed))

  -- What a call is answered once its commit is done.
  decode_cases :
      (cmd : Command) (a : CommitResult) (r : Response)
      → decode h cmd (ok a) ≡ ok r
      → (x : Response) × (h.unmarshal_response a.response ≡ ok x)
        × (record (single cmd x) { replayed = a.replayed } ≡ r)
  decode_cases cmd a r made = elim (Result-cases (h.unmarshal_response a.response)) [
    | inr (e, q) ↦ absurd (ground arith)
    | inl (x, q) ↦ (x, q, ok-injective (sym (decode-eq cmd a x q) ∙ made))
  ]

  -- And what it is answered again.
  decode_again :
      (cmd : Command) (a b : CommitResult) (r : Response)
      → a.response ≡ b.response
      → b.replayed ≡ true
      → decode h cmd (ok a) ≡ ok r
      → decode h cmd (ok b) ≡ ok (record r { replayed = true })
  decode_again cmd a b r same replayed made =
      let (x, q, is_r) = decode_cases cmd a r made in
      let q' : h.unmarshal_response b.response ≡ ok x = cc in
      decode-eq cmd b x q' ∙ ap ok (λ i. record (is_r i) { replayed = replayed i })

  decode_replayed :
      (cmd : Command) (a : CommitResult) (r : Response)
      → decode h cmd (ok a) ≡ ok r
      → a.replayed ≡ r.replayed
  decode_replayed cmd a r made =
      let (x, q, is_r) = decode_cases cmd a r made in ap (λ y. y.replayed) is_r

  -- A call that has succeeded, and was not itself a replay, answers the same when it is repeated, with
  -- other ids drawn for it, at any time and whatever may happen to the files, but for the mark that it
  -- is a replay; and the store stays as it is.
  pub serve_again :
      (ids new_ids : String → ℕ → String) (faults again : Faults) (now later : Time) (s : Store)
      (m : CommandMeta) (batch_id : String) (cmd : Command) (r : Response)
      → (serve (drawing ids h) faults now s m batch_id cmd).1 ≡ ok r
      → r.replayed ≡ false
      → let s' = (serve (drawing ids h) faults now s m batch_id cmd).0 in
        serve (drawing new_ids h) again later s' m batch_id cmd
        ≡ (s', ok (record r { replayed = true }))
  unfolding serve
  serve_again ids new_ids faults again now later s m batch_id cmd r done fresh =
      elim (Result-cases (request_of (drawing ids h) now m batch_id cmd)) [
        | inr (e, q) ↦ absurd (ground arith)
        | inl (req, q) ↦ elim (Result-cases ((commit h.codec faults now s req).1)) [
          | inr (e, q') ↦ absurd (ground arith)
          | inl (a, q') ↦
              let made : decode h cmd (ok a) ≡ ok r = cc in
              let same = decode_replayed cmd a r made in
              let (p, checked, unused, prepared, written, response) =
                commit_fresh h.codec faults now s req a q' (ground arith) in
              let repeated =
                commit_repeated h.codec faults again now later s req p
                  (mutate (drawing new_ids h) m (target h m batch_id cmd) cmd later) checked unused
                  prepared written in
              rw (q, request_of-later ids new_ids now later m batch_id cmd req q, repeated)
                (ap (λ d. ((commit h.codec faults now s req).0, d))
                  (decode_again cmd a
                    (record { response = p.response; replayed = true; version = p.version }) r
                    response refl made))
        ]
      ]
