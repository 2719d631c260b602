-- ===== src/JsonStore/Recovery/Restart.antt =====
-- A store that is opened again: `recover` of recovery.go on the files that `Commit` leaves.
use benzhi_project_fe3ad.Prelude.{
  ◌≤◌, ◌≡◌, refl, sym, ap, subst, ◌∙◌, inl, inr, Option, none, some, String, List, [], length, last,
  Option-cases, Bool-cases, arith,
}
use benzhi_project_fe3ad.Prelude.Int64.{Int64}
use benzhi_project_fe3ad.Prelude.Maps.{lookup}
use benzhi_project_fe3ad.Calibration.Errors.{ok}
use benzhi_project_fe3ad.Calibration.Snapshot.{new_snapshot}
use benzhi_project_fe3ad.Calibration.Validation.Records.{validate_snapshot}
use benzhi_project_fe3ad.Ledger.Event.{Event}
use benzhi_project_fe3ad.Ledger.Projection.{ProjectionCheck, validate_projections}
use benzhi_project_fe3ad.Ledger.Projection.Versions.{end_versions}
use benzhi_project_fe3ad.JsonStore.Model.{Codec, SnapshotFile, Store, replaced}
use benzhi_project_fe3ad.JsonStore.Commit.{current_version}
use benzhi_project_fe3ad.JsonStore.Commit.Chained.{IsChained}
use benzhi_project_fe3ad.JsonStore.Recovery.{
  is_fresh, rebuilt_file, index_events, recover, load, rebuild, read_snapshot, without_events,
}

-- The snapshot file is not ahead of the ledger, and holds the projection of its last event if it is
-- not behind it.
abbrev pub IsNotAhead : Option SnapshotFile → Event → Type 0
IsNotAhead none e = Unit
IsNotAhead (some f) e =
    (f.sequence ≤ e.sequence) × (f.sequence ≡ e.sequence → f.projection ≡ e.projection)

module _ {R : Type 0} (c : Codec R) where
  -- What the last event says of the store.
  abbrev pub IsCurrent : Store → Option Event → Type 0
  IsCurrent s none = (s.projection ≡ new_snapshot) × (s.disk.snapshot_file ≡ none)
  IsCurrent s (some e) =
      (e.sequence ≡ length s.events)
      × (c.unmarshal_snapshot e.projection ≡ ok s.projection)
      × (validate_snapshot s.projection ≡ ok tt)
      × IsNotAhead s.disk.snapshot_file e

  -- The files are those of the store in memory.
  pub record IsDurable (s : Store) : Type 0 where
    pub chained : IsChained c s
    pub checks : List ProjectionCheck
    pub checked : validate_projections c.unmarshal_snapshot s.events ≡ ok checks
    pub indexed : s.idempotency ≡ index_events [] s.events
    pub versions :
        (id : String) (v : Int64)
        → lookup id (end_versions [] s.events) ≡ some v
        → v ≡ current_version s.projection id
    pub current : IsCurrent s (last s.events)

  -- The state in memory is the same.
  abbrev pub SameState : Store → Store → Type 0
  SameState s t =
      (t.projection ≡ s.projection) × (t.events ≡ s.events) × (t.idempotency ≡ s.idempotency)

  -- What `recover` makes of the files, the snapshot file then being `file`.
  abbrev opened_on : Store → Option SnapshotFile → List Event → Store
  opened_on s file es = record {
    projection = s.projection;
    events = es;
    idempotency = index_events [] es;
    disk = record { ledger = es; snapshot_file = file };
  }

  abbrev opened : Store → Option SnapshotFile → Store
  opened s file = opened_on s file s.disk.ledger

  opened-SameState :
      (s : Store) (file : Option SnapshotFile) → IsDurable s → SameState s (opened s file)
  opened-SameState s file d =
      (refl, d.chained.on_disk, ap (index_events []) d.chained.on_disk ∙ sym d.indexed)

  -- The files of the store that is opened again are those of the store, but for the snapshot file.
  opened-IsDurable :
      (s : Store) (file : Option SnapshotFile)
      → IsDurable s
      → IsCurrent (opened_on s file s.events) (last s.events)
      → IsDurable (opened s file)
  opened-IsDurable s file d now =
      subst (λ es. IsDurable (opened_on s file es)) (sym d.chained.on_disk)
        (record {
          chained = record { on_disk = refl; verified = d.chained.verified };
          checks = d.checks;
          checked = d.checked;
          indexed = refl;
          versions = d.versions;
          current = now;
        })

  recover-last :
      (s : Store) (e : Event)
      → IsDurable s
      → last s.events ≡ some e
      → IsCurrent s (some e)
      → (file : Option SnapshotFile) × (recover c replaced s.disk ≡ ok (opened s file))
        × IsNotAhead file e
  unfolding recover load rebuild read_snapshot
  recover-last s e d is_last now = elim (Option-cases s.disk.snapshot_file) [
    | inl missing ↦ (
      some (rebuilt_file c e),
      ground (arith, d.checked, d.chained.verified, d.chained.on_disk, now.1, now.2),
      (omega arith, λ q. refl),
    )
    | inr (f, found) ↦ elim (Bool-cases (is_fresh f e)) [
      | inl fresh ↦
          let number : f.sequence ≡ e.sequence = ground arith in
          let ahead : IsNotAhead (some f) e = rw found at now.3 in
          let text : f.projection ≡ e.projection = ahead.1 number in
          (
            some f,
            ground (arith, d.checked, d.chained.verified, d.chained.on_disk, now.1, now.2),
            ahead,
          )
      | inr stale ↦ (
        some (rebuilt_file c e),
        ground (arith, d.checked, d.chained.verified, d.chained.on_disk, now.1, now.2),
        (omega arith, λ q. refl),
      )
    ]
  ]

  recover-none :
      (s : Store)
      → IsDurable s
      → last s.events ≡ none
      → IsCurrent s none
      → recover c replaced s.disk ≡ ok (opened s none)
  unfolding recover without_events
  recover-none s d is_last now =
      ground (arith, d.checked, d.chained.verified, d.chained.on_disk, now.0, now.1)

  reopened :
      (s : Store)
      → IsDurable s
      → (t : Store) × (recover c replaced s.disk ≡ ok t) × SameState s t × IsDurable t
  reopened s d = elim (Option-cases (last s.events)) [
    | inl q ↦
        let now = subst (IsCurrent s) q d.current in
        (
          opened s none,
          recover-none s d q now,
          opened-SameState s none d,
          opened-IsDurable s none d
              (subst (IsCurrent (opened_on s none s.events)) (sym q) (now.0, refl)),
        )
    | inr (e, q) ↦
        let now = subst (IsCurrent s) q d.current in
        let (file, r, ahead) = recover-last s e d q now in
        (
          opened s file,
          r,
          opened-SameState s file d,
          opened-IsDurable s file d
              (subst (IsCurrent (opened_on s file s.events)) (sym q) (now.0, now.1, now.2, ahead)),
        )
  ]

  -- A store that is opened on the files of a durable one, where the snapshot file can be replaced if
  -- it is missing or stale, holds the same projection, the same events and the same idempotency index.
  pub recover_durable :
      (s : Store) → IsDurable s → (t : Store) × (recover c replaced s.disk ≡ ok t) × SameState s t
  recover_durable s d = let (t, opens, same, _) = reopened s d in (t, opens, same)

  -- And its files are the store's again.
  pub recover-IsDurable :
      (s t : Store) → IsDurable s → recover c replaced s.disk ≡ ok t → IsDurable t
  recover-IsDurable s t d opens =
      let (u, opens_u, same, durable) = reopened s d in
      let agree : u ≡ t = cc in subst IsDurable agree durable
