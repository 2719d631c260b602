-- ===== src/Workflow/Views.antt =====
-- internal/application/workflow/queries.go on the stores that the service reaches: the view of a batch.
use benzhi_project_fe3ad.Prelude.{
  ◌≡◌, refl, subst, inl, inr, Option, none, some, String, [], last, is_empty, arith, Bool-cases,
  Option-cases,
}
use benzhi_project_fe3ad.Prelude.Maps.{lookup}
use benzhi_project_fe3ad.Calibration.Errors.{Result, ok, err, Result-cases, >>-eq-ok, >>=-eq-ok}
use benzhi_project_fe3ad.Calibration.Types.{Snapshot, CalibrationBatch, Time}
use benzhi_project_fe3ad.Calibration.Snapshot.{find_batch}
use benzhi_project_fe3ad.Calibration.Validation.Records.{validate_snapshot}
use benzhi_project_fe3ad.Ledger.Event.{Event}
use benzhi_project_fe3ad.Ledger.Chain.{verify_chain}
use benzhi_project_fe3ad.Ledger.Projection.{validate_projections}
use benzhi_project_fe3ad.JsonStore.Model.{
  Codec, CommitRequest, Store, Disk, SnapshotFile, SnapshotOutcome, replaced, kept,
  replaced_unconfirmed, Faults, clone_snapshot, IdempotentResult,
}
use benzhi_project_fe3ad.Prelude.Maps.{Map}
use benzhi_project_fe3ad.JsonStore.Commit.{
  commit, prepare, persist, finish, check_request, idempotency_index,
}
use benzhi_project_fe3ad.JsonStore.Commit.Outcomes.{prepare-IsPrepared}
use benzhi_project_fe3ad.JsonStore.Recovery.{
  recover, load, rebuild, without_events, read_snapshot, index_events,
}
use benzhi_project_fe3ad.JsonStore.Files.{FileJson, open_store-eq-ok}
use benzhi_project_fe3ad.Workflow.Commands.{CommandMeta, Command}
use benzhi_project_fe3ad.Workflow.Service.{drawing, Host, serve, request_of}
use benzhi_project_fe3ad.Evaluation.Coverage.{CoverageReport}
use benzhi_project_fe3ad.Workflow.Readiness.Total.{coverage_total, build_readiness_total}
use benzhi_project_fe3ad.Workflow.Queries.{BatchView, get_batch, coverage_of}
use benzhi_project_fe3ad.Workflow.Durability.{Reached, new, call, restart}

abbrev IsValid : Store → Type 0
IsValid s = validate_snapshot s.projection ≡ ok tt

module _ {R : Type 0} (c : Codec R) where
  commit-IsValid :
      (faults : Faults) (now : Time) (s : Store) (req : CommitRequest R)
      → IsValid s
      → IsValid (commit c faults now s req).0
  unfolding commit persist finish
  commit-IsValid faults now s req valid = elim (Result-cases (prepare c now s req)) [
    | inr (e, q) ↦ ground (
      arith,
      Result-cases (check_request c req),
      Option-cases (lookup (idempotency_index req.aggregate_id req.idempotency_key) s.idempotency),
    )
    | inl (p, q) ↦
        let next = (prepare-IsPrepared c now s req p q).valid in
        ground (
          arith,
          Result-cases (check_request c req),
          Option-cases
              (lookup (idempotency_index req.aggregate_id req.idempotency_key) s.idempotency),
        )
  ]

  -- A store that is opened with a projection that has been validated.
  opened-IsValid : (s t : Store) → IsValid s → ok s ≡ ok t → IsValid t
  opened-IsValid s t valid opened =
      let same : s.projection ≡ t.projection = cc in
      subst (λ p. validate_snapshot p ≡ ok tt) same valid

  rebuild-IsValid :
      (outcome : SnapshotOutcome) (d : Disk) (m : Map IdempotentResult) (e : Event) (t : Store)
      → rebuild c outcome d m e ≡ ok t
      → IsValid t
  unfolding rebuild
  rebuild-IsValid replaced d m e t opened =
      let (p, read, rest) = >>=-eq-ok (c.unmarshal_snapshot e.projection) _ opened in
      let (valid, written) = >>-eq-ok (validate_snapshot p) _ rest in
      opened-IsValid _ t valid written
  rebuild-IsValid kept d m e t opened =
      let (p, read, rest) = >>=-eq-ok (c.unmarshal_snapshot e.projection) _ opened in
      let (valid, written) = >>-eq-ok (validate_snapshot p) _ rest in cc
  rebuild-IsValid replaced_unconfirmed d m e t opened =
      let (p, read, rest) = >>=-eq-ok (c.unmarshal_snapshot e.projection) _ opened in
      let (valid, written) = >>-eq-ok (validate_snapshot p) _ rest in cc

  load-IsValid :
      (outcome : SnapshotOutcome) (d : Disk) (m : Map IdempotentResult) (e : Event) (t : Store)
      (r : Result Snapshot)
      → load c outcome d m e r ≡ ok t
      → IsValid t
  unfolding load
  load-IsValid outcome d m e t (err stale) opened = rebuild-IsValid outcome d m e t opened
  load-IsValid outcome d m e t (ok p) opened =
      let (valid, written) = >>-eq-ok (validate_snapshot p) _ opened in
      opened-IsValid _ t valid written

  without_events-IsValid :
      (d : Disk) (m : Map IdempotentResult) (file : Option SnapshotFile) (t : Store)
      → without_events c d m file ≡ ok t
      → IsValid t
  unfolding without_events validate_snapshot
  without_events-IsValid d m (some f) t opened = cc
  without_events-IsValid d m none t opened = opened-IsValid _ t refl opened

  from_last-IsValid :
      (outcome : SnapshotOutcome) (d : Disk) (m : Map IdempotentResult) (t : Store)
      (o : Option Event)
      → (elim o [
        | none ↦ without_events c d m d.snapshot_file
        | some e ↦ load c outcome d m e (read_snapshot c d.snapshot_file e)
      ])
        ≡ ok t
      → IsValid t
  from_last-IsValid outcome d m t none opened = without_events-IsValid d m d.snapshot_file t opened
  from_last-IsValid outcome d m t (some e) opened = load-IsValid outcome d m e t _ opened

  recover-IsValid :
      (outcome : SnapshotOutcome) (d : Disk) (t : Store) → recover c outcome d ≡ ok t → IsValid t
  unfolding recover
  recover-IsValid outcome d t opened =
      let (chained, rest) = >>-eq-ok (verify_chain c.marshal_material c.sha256 d.ledger) _ opened in
      let (checks, projected, left) =
        >>=-eq-ok (validate_projections c.unmarshal_snapshot d.ledger) _ rest in
      from_last-IsValid outcome d (index_events [] d.ledger) t (last d.ledger) left

serve-IsValid :
    (h : Host) (faults : Faults) (now : Time) (s : Store) (m : CommandMeta) (batch_id : String)
    (cmd : Command)
    → IsValid s
    → IsValid (serve h faults now s m batch_id cmd).0
unfolding serve
serve-IsValid h faults now s m batch_id cmd valid =
    elim (Result-cases (request_of h now m batch_id cmd)) [
      | inr (e, q) ↦ rw q valid
      | inl (req, q) ↦ rw q (commit-IsValid h.codec faults now s req valid)
    ]

Reached-IsValid : (h : Host) (j : FileJson) (s : Store) → Reached h j s → IsValid s
unfolding validate_snapshot
Reached-IsValid h j _ new = refl
Reached-IsValid h j _ (call fresh faults now s m batch_id cmd orderly before) =
    serve-IsValid (drawing fresh h) faults now s m batch_id cmd (Reached-IsValid h j s before)
Reached-IsValid h j _ (restart dir files s t holds opens before) =
    recover-IsValid h.codec replaced s.disk t
      (open_store-eq-ok j h.codec replaced dir (ok tt) files s.disk t holds opens)

-- The coverage of a batch of a valid snapshot.
coverage_of_total :
    (s : Snapshot) (batch_id : String) (b : CalibrationBatch)
    → validate_snapshot s ≡ ok tt
    → find_batch s batch_id ≡ ok b
    → (r : CoverageReport) × (coverage_of s batch_id b ≡ ok r)
unfolding coverage_of
coverage_of_total s batch_id b valid found = elim (Bool-cases (is_empty b.profile_id)) [
  | inl without ↦ rw without (_, refl)
  | inr locked ↦ rw locked (coverage_total s batch_id b valid found locked)
]

-- A service has had calls since its directory was new, each with ids of its own, and was restarted in
-- between any number of times. Then its projection satisfies `ValidateSnapshot`, and the view of each of
-- its batches is answered, with the batch as it stands, where the JSON of the projection can be read
-- back. The calls are those whose line was not left unconfirmed, at a time that is not zero, with fewer
-- than 2 ^ 64 - 1 events before and a version below 2 ^ 63 - 1, where the JSON of the snapshots before
-- and after is read back; at a restart the files are decoded to what was written.
pub get_batch-Reached :
    (h : Host) (j : FileJson) (s : Store) (batch_id : String) (b : CalibrationBatch)
    → Reached h j s
    → clone_snapshot h.codec s.projection ≡ ok s.projection
    → find_batch s.projection batch_id ≡ ok b
    → (v : BatchView) × (get_batch h.codec h.library.marshal_frozen h.library.sha256
          h.library.format_6g s batch_id
        ≡ ok v)
      × (v.batch ≡ b)
      × (validate_snapshot s.projection ≡ ok tt)
unfolding get_batch
get_batch-Reached h j s batch_id b reached cloned found =
    let valid = Reached-IsValid h j s reached in
    let (c, covered) = coverage_of_total s.projection batch_id b valid found in
    let (r, ready) =
      build_readiness_total h.library.format_6g s.projection batch_id b valid found in
    rw (cloned, found, covered, ready) (_, refl, refl, valid)
