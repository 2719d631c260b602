-- ===== src/JsonStore/Commit/Outcomes.antt =====
-- The ends of a commit: what it has prepared, a repeated key, and an error.
use benzhi_project_fe3ad.Prelude.{
  ◌+◌, ◌≡◌, refl, inl, inr, true, none, some, length, last, eq_refl, Option-cases, arith,
}
use benzhi_project_fe3ad.Prelude.Maps.{lookup}
use benzhi_project_fe3ad.Calibration.Errors.{Result, ok, Result-cases}
use benzhi_project_fe3ad.Calibration.Types.{Snapshot, CalibrationBatch, Time}
use benzhi_project_fe3ad.Calibration.Validation.Records.{validate_snapshot}
use benzhi_project_fe3ad.Calibration.Effects.{lookup-insert_self}
use benzhi_project_fe3ad.Ledger.Chain.{seal, compute_digest}
use benzhi_project_fe3ad.Ledger.Event.{Event}
use benzhi_project_fe3ad.JsonStore.Model.{
  Codec, CommitRequest, Store, Faults, appended, clone_snapshot,
}
use benzhi_project_fe3ad.JsonStore.Commit.{
  Prepared, prepare, replay, persist, finish, commit, check_request, idempotency_index,
  current_version, last_digest, unsealed, entry_of,
}

module _ {R : Type 0} (c : Codec R) where
  -- What is known of a commit that is about to be written.
  pub record IsPrepared (now : Time) (s : Store) (req : CommitRequest R) (p : Prepared)
      : Type 0 where
    pub expected : current_version s.projection req.aggregate_id ≡ req.expected_version
    pub copy : Snapshot
    pub cloned : clone_snapshot c s.projection ≡ ok copy
    pub answer : R
    pub mutated : req.mutate copy ≡ ok (p.next, answer)
    pub valid : validate_snapshot p.next ≡ ok tt
    pub batch : CalibrationBatch
    pub found : lookup req.aggregate_id p.next.batches ≡ some batch
    pub version : p.version ≡ batch.version
    pub responded : c.marshal_response answer ≡ ok p.response
    pub projected : c.marshal_snapshot p.next ≡ ok p.event.projection
    pub sequence : p.event.sequence ≡ length s.events + 1
    pub aggregate : p.event.aggregate_id ≡ req.aggregate_id
    pub aggregate_version : p.event.aggregate_version ≡ batch.version
    pub linked : p.event.previous_digest ≡ last_digest (last s.events)
    pub actor : p.event.actor ≡ req.actor
    pub command : p.event.type ≡ req.command
    pub at : p.event.at ≡ now
    pub key : p.event.idempotency_key ≡ req.idempotency_key
    pub digest : p.event.request_digest ≡ req.request_digest
    pub response : p.event.response ≡ p.response
    pub sealed : compute_digest c.marshal_material c.sha256 p.event ≡ ok p.event.digest

  seal-eq-ok :
      (e d : Event)
      → seal c.marshal_material c.sha256 e ≡ ok d
      → (d.material ≡ e.material) × (compute_digest c.marshal_material c.sha256 d ≡ ok d.digest)
  unfolding seal compute_digest
  seal-eq-ok e d h = ground (arith, Result-cases (c.marshal_material e.material))

  pub prepare-IsPrepared :
      (now : Time) (s : Store) (req : CommitRequest R) (p : Prepared)
      → prepare c now s req ≡ ok p
      → IsPrepared now s req p
  unfolding prepare
  prepare-IsPrepared now s req p h = elim (Result-cases (clone_snapshot c s.projection)) [
    | inr (_, q) ↦ ground arith
    | inl (copy, q₁) ↦ elim (Result-cases (req.mutate copy)) [
      | inr (_, q) ↦ ground arith
      | inl ((next, answer), q₂) ↦ elim (Result-cases (validate_snapshot next)) [
        | inr (_, q) ↦ ground arith
        | inl (u, q₃) ↦ elim (Option-cases (lookup req.aggregate_id next.batches)) [
          | inl q ↦ ground arith
          | inr (b, q₄) ↦ elim (Result-cases (c.marshal_response answer)) [
            | inr (_, q) ↦ ground arith
            | inl (response, q₅) ↦ elim (Result-cases (c.marshal_snapshot next)) [
              | inr (_, q) ↦ ground arith
              | inl (text, q₆) ↦
                  let plain_event = unsealed now s req b.version text response in
                  elim (Result-cases (seal c.marshal_material c.sha256 plain_event)) [
                    | inr (_, q) ↦ ground arith
                    | inl (e, q₇) ↦
                        let (m, d) = seal-eq-ok plain_event e q₇ in
                        let same : p ≡ record {
                          next = next;
                          event = e;
                          response = response;
                          version = b.version;
                        } =
                          ground arith in
                        rw same (record {
                          expected = ground arith;
                          copy = copy;
                          cloned = q₁;
                          answer = answer;
                          mutated = q₂;
                          valid = q₃;
                          batch = b;
                          found = q₄;
                          version = refl;
                          responded = q₅;
                          projected = ground arith;
                          sequence = ground arith;
                          aggregate = ground arith;
                          aggregate_version = ground arith;
                          linked = ground arith;
                          actor = ground arith;
                          command = ground arith;
                          at = ground arith;
                          key = ground arith;
                          digest = ground arith;
                          response = ground arith;
                          sealed = d;
                        })
                  ]
            ]
          ]
        ]
      ]
    ]
  ]

  -- The same with another mutation, which a repeated request does not run.
  pub commit_repeated :
      (faults again : Faults) (now later : Time) (s : Store) (req : CommitRequest R) (p : Prepared)
      (mutate : Snapshot → Result (Snapshot × R))
      → check_request c req ≡ ok tt
      → lookup (idempotency_index req.aggregate_id req.idempotency_key) s.idempotency ≡ none
      → prepare c now s req ≡ ok p
      → faults.append ≡ appended
      → let s' = (commit c faults now s req).0 in
        commit c again later s' (record req { mutate = mutate })
        ≡ (s', ok (record { response = p.response; replayed = true; version = p.version }))
  unfolding commit persist finish replay
  commit_repeated faults again now later s req p mutate checked unused prepared written =
      let facts = prepare-IsPrepared now s req p prepared in
      ground (
        arith,
        facts.found,
        facts.version,
        lookup-insert_self (idempotency_index req.aggregate_id req.idempotency_key)
            (entry_of c req p) s.idempotency,
        eq_refl req.command,
        eq_refl req.request_digest,
      )

  -- Once a commit has written its line, and the Sync and the Close of the file have succeeded, the same
  -- request answers with the same response and the same version, marked as replayed, and writes
  -- nothing, whether or not the snapshot file could be replaced. An unconfirmed line is not covered.
  pub commit_again :
      (faults again : Faults) (now later : Time) (s : Store) (req : CommitRequest R) (p : Prepared)
      → check_request c req ≡ ok tt
      → lookup (idempotency_index req.aggregate_id req.idempotency_key) s.idempotency ≡ none
      → prepare c now s req ≡ ok p
      → faults.append ≡ appended
      → let s' = (commit c faults now s req).0 in
        commit c again later s' req
        ≡ (s', ok (record { response = p.response; replayed = true; version = p.version }))
  commit_again faults again now later s req p =
      commit_repeated faults again now later s req p req.mutate
