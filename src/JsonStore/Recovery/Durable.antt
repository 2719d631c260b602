-- ===== src/JsonStore/Recovery/Durable.antt =====
-- The two files behind a commit of store.go, for the next `recover`.
use benzhi_project_fe3ad.Prelude.{
  ℕ, ◌+◌, ◌^◌, ◌<◌, ◌≡◌, ◌≢◌, refl, sym, ap, subst, ◌∙◌, inl, inr, true, false, Option, none, some,
  String, List, [], ◌∷◌, ◌++◌, length, length-append, last, is_empty, Option-cases, Bool-cases,
  ==_iff, eq_iff, str_eq, arith,
}
use benzhi_project_fe3ad.Prelude.Int64.{Int64, slt}
use benzhi_project_fe3ad.Prelude.Maps.{Map, lookup}
use benzhi_project_fe3ad.Calibration.Errors.{ok, Result-cases}
use benzhi_project_fe3ad.Calibration.Types.{Time, is_zero_time}
use benzhi_project_fe3ad.Calibration.Effects.{lookup-insert_self, lookup-insert_ne}
use benzhi_project_fe3ad.Ledger.Event.{Event}
use benzhi_project_fe3ad.Ledger.Projection.{check_projection, validate_from, validate_projections}
use benzhi_project_fe3ad.Ledger.Projection.Versions.{
  end_versions, end_versions-append, validate_from-append,
}
use benzhi_project_fe3ad.JsonStore.Model.{
  Codec, CommitRequest, SnapshotFile, Store, Faults, AppendOutcome, SnapshotOutcome, appended,
  refused, unconfirmed, replaced, kept, replaced_unconfirmed,
}
use benzhi_project_fe3ad.JsonStore.Commit.{
  Prepared, prepare, persist, finish, commit, check_request, current_version, adopt, append_line,
  idempotency_index,
}
use benzhi_project_fe3ad.JsonStore.Commit.Outcomes.{prepare-IsPrepared}
use benzhi_project_fe3ad.JsonStore.Commit.Chained.{prepared-verified}
use benzhi_project_fe3ad.JsonStore.Recovery.{index_event, index_events}
use benzhi_project_fe3ad.JsonStore.Recovery.Restart.{IsNotAhead, IsCurrent, IsDurable}

index_events-append :
    (m : Map _) (es : List Event) (e : Event)
    → index_events m (es ++ e ∷ []) ≡ index_event (index_events m es) e
unfolding index_events
index_events-append m [] e = refl
index_events-append m (x ∷ xs) e = index_events-append (index_event m x) xs e

last-append : (es : List Event) (e : Event) → last (es ++ e ∷ []) ≡ some e
last-append [] e = refl
last-append (x ∷ []) e = refl
last-append (x ∷ y ∷ ys) e = last-append (y ∷ ys) e

not-ahead_later :
    (file : Option SnapshotFile) (e later : Event) (n : ℕ)
    → e.sequence ≡ n
    → later.sequence ≡ n + 1
    → IsNotAhead file e
    → IsNotAhead file later
not-ahead_later none e later n at_e at_later h = tt
not-ahead_later (some f) e later n at_e at_later h =
    (omega (arith, h.0), λ q. absurd (omega (arith, h.0)))

-- The file that `writeSnapshot` writes.
abbrev file_of : Prepared → SnapshotFile
file_of p = record {
  schema_version = 1;
  sequence = p.event.sequence;
  last_digest = p.event.digest;
  projection = p.event.projection;
}

module _ {R : Type 0} (c : Codec R) where
  module _ (now : Time) (s : Store) (req : CommitRequest R) (p : Prepared) where
    prepared-checked :
        IsDurable c s
        → prepare c now s req ≡ ok p
        → check_request c req ≡ ok tt
        → is_zero_time now ≡ false
        → c.unmarshal_snapshot p.event.projection ≡ ok p.next
        → is_empty p.event.projection ≡ false
        → slt
            (current_version s.projection req.aggregate_id)
            (current_version p.next req.aggregate_id)
          ≡ true
        → check_projection c.unmarshal_snapshot (end_versions [] s.events) p.event
          ≡ ok p.event.aggregate_version
    unfolding check_projection
    prepared-checked d prepared asked dated read filled grows =
        let facts = prepare-IsPrepared c now s req p prepared in
        elim (Option-cases (lookup req.aggregate_id (end_versions [] s.events))) [
          | inl q ↦ ground (
            arith,
            facts.valid,
            facts.found,
            facts.aggregate,
            facts.aggregate_version,
            facts.actor,
            facts.command,
            facts.at,
            ==_iff facts.batch.version facts.batch.version,
          )
          | inr (v, q) ↦
              let same : v ≡ current_version s.projection req.aggregate_id =
                d.versions req.aggregate_id v q in
              ground (
                arith,
                facts.valid,
                facts.found,
                facts.aggregate,
                facts.aggregate_version,
                facts.actor,
                facts.command,
                facts.at,
                ==_iff facts.batch.version facts.batch.version,
              )
        ]

    -- The store behind the commit, with that snapshot file.
    abbrev behind : Option SnapshotFile → Store
    behind file = record (adopt c s req p) {
      disk = record (append_line c s.disk p.event) { snapshot_file = file };
    }

    behind-versions :
        IsDurable c s
        → prepare c now s req ≡ ok p
        → ((j : String)
            → j ≢ req.aggregate_id
            → current_version p.next j ≡ current_version s.projection j)
        → (id : String) (v : Int64)
        → lookup id (end_versions [] (s.events ++ p.event ∷ [])) ≡ some v
        → v ≡ current_version p.next id
    behind-versions d prepared others id v h =
        let facts = prepare-IsPrepared c now s req p prepared in
        let h' = rw (end_versions-append [] s.events p.event) at h in
        elim (Bool-cases (str_eq req.aggregate_id id)) [
          | inl same ↦
              let here : req.aggregate_id ≡ id = (eq_iff req.aggregate_id id).0 same in
              cc (
                h',
                lookup-insert_self p.event.aggregate_id p.event.aggregate_version
                    (end_versions [] s.events),
                facts.aggregate,
                facts.aggregate_version,
                here,
                facts.found,
              )
          | inr differ ↦
              let apart : id ≢ req.aggregate_id =
                (λ e. ground (arith, eq_iff req.aggregate_id id)) in
              let old : lookup id (end_versions [] s.events) ≡ some v =
                sym (
                  lookup-insert_ne p.event.aggregate_id id p.event.aggregate_version
                    (end_versions [] s.events) (λ e. apart (e ∙ facts.aggregate)))
                ∙ h' in
              d.versions id v old ∙ sym (others id apart)
        ]

    behind-indexed :
        IsDurable c s
        → prepare c now s req ≡ ok p
        → check_request c req ≡ ok tt
        → (adopt c s req p).idempotency ≡ index_events [] (s.events ++ p.event ∷ [])
    behind-indexed d prepared asked =
        let facts = prepare-IsPrepared c now s req p prepared in
        rw (index_events-append [] s.events p.event) (
          ground (
            arith, d.indexed, facts.aggregate, facts.key, facts.command, facts.digest,
            facts.response,
          ))

    module _ (d : IsDurable c s) (prepared : prepare c now s req ≡ ok p)
        (asked : check_request c req ≡ ok tt) (bound : length s.events + 1 < 2 ^ 64)
        (dated : is_zero_time now ≡ false)
        (read : c.unmarshal_snapshot p.event.projection ≡ ok p.next)
        (filled : is_empty p.event.projection ≡ false)
        (grows : slt
            (current_version s.projection req.aggregate_id)
            (current_version p.next req.aggregate_id)
          ≡ true)
        (others : (j : String)
          → j ≢ req.aggregate_id
          → current_version p.next j ≡ current_version s.projection j) where
      behind-IsDurable :
          (file : Option SnapshotFile) → IsNotAhead file p.event → IsDurable c (behind file)
      unfolding validate_from validate_projections
      behind-IsDurable file ahead =
          let facts = prepare-IsPrepared c now s req p prepared in
          let more =
            validate_from-append c.unmarshal_snapshot [] s.events p.event d.checks d.checked
              (prepared-checked d prepared asked dated read filled grows) in
          record {
            chained = record {
              on_disk = ap (λ l. l ++ p.event ∷ []) d.chained.on_disk;
              verified = prepared-verified c now s req p bound d.chained prepared;
            };
            checks = more.0;
            checked = more.1;
            indexed = behind-indexed d prepared asked;
            versions = behind-versions d prepared others;
            current = subst (IsCurrent c (behind file)) (sym (last-append s.events p.event)) (
              facts.sequence ∙ sym (length-append s.events (p.event ∷ [])),
              read,
              facts.valid,
              ahead,
            );
          }

      -- A file from before is behind the new event.
      old_file : IsNotAhead s.disk.snapshot_file p.event
      old_file = elim (Option-cases (last s.events)) [
        | inl q ↦
            subst (λ file. IsNotAhead file p.event) (sym (subst (IsCurrent c s) q d.current).1) tt
        | inr (e, q) ↦
            let before = subst (IsCurrent c s) q d.current in
            not-ahead_later s.disk.snapshot_file e p.event (length s.events) before.0
              (prepare-IsPrepared c now s req p prepared).sequence before.3
      ]

      persist-IsDurable :
          (a : AppendOutcome) (o : SnapshotOutcome)
          → a ≢ unconfirmed
          → IsDurable c (persist c (record { append = a; snapshot = o }) s req p).0
      unfolding persist finish
      persist-IsDurable refused o confirmed = d
      persist-IsDurable unconfirmed o confirmed = absurd (confirmed refl)
      persist-IsDurable appended kept confirmed = behind-IsDurable s.disk.snapshot_file old_file
      persist-IsDurable appended replaced confirmed =
          behind-IsDurable (some (file_of p)) (omega arith, λ q. refl)
      persist-IsDurable appended replaced_unconfirmed confirmed =
          behind-IsDurable (some (file_of p)) (omega arith, λ q. refl)

  -- A commit keeps a durable store durable, however it ends but for a line whose `Sync` or `Close`
  -- failed: where the JSON of the new projection is read back, the command raises the version of its
  -- batch and of no other, the time is not zero, and there are fewer than 2 ^ 64 - 1 events.
  pub commit-IsDurable :
      (faults : Faults) (now : Time) (s : Store) (req : CommitRequest R)
      → faults.append ≢ unconfirmed
      → length s.events + 1 < 2 ^ 64
      → is_zero_time now ≡ false
      → IsDurable c s
      → ((p : Prepared)
          → prepare c now s req ≡ ok p
          → (c.unmarshal_snapshot p.event.projection ≡ ok p.next)
            × (is_empty p.event.projection ≡ false))
      → ((p : Prepared)
          → prepare c now s req ≡ ok p
          → slt
              (current_version s.projection req.aggregate_id)
              (current_version p.next req.aggregate_id)
            ≡ true)
      → ((p : Prepared)
          → prepare c now s req ≡ ok p
          → (j : String) → j ≢ req.aggregate_id
          → current_version p.next j ≡ current_version s.projection j)
      → IsDurable c (commit c faults now s req).0
  unfolding commit
  commit-IsDurable faults now s req confirmed bound dated d reads grows others =
      elim (Result-cases (check_request c req)) [
        | inr (e, q) ↦
            let same : (commit c faults now s req).0 ≡ s = ground arith in
            subst (IsDurable c) (sym same) d
        | inl (u, asked) ↦
            elim (Option-cases
              (lookup (idempotency_index req.aggregate_id req.idempotency_key) s.idempotency)) [
                | inr (old, q) ↦
                    let same : (commit c faults now s req).0 ≡ s = ground arith in
                    subst (IsDurable c) (sym same) d
                | inl unused ↦ elim (Result-cases (prepare c now s req)) [
                  | inr (e, q) ↦
                      let same : (commit c faults now s req).0 ≡ s = ground arith in
                      subst (IsDurable c) (sym same) d
                  | inl (p, prepared) ↦
                      let same : (commit c faults now s req).0 ≡ (persist c faults s req p).0 =
                        ground arith in
                      subst (IsDurable c) (sym same) (
                        persist-IsDurable now s req p d prepared asked bound dated
                          (reads p prepared).0 (reads p prepared).1 (grows p prepared)
                          (others p prepared) faults.append faults.snapshot confirmed)
                ]
              ]
      ]
