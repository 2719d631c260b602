-- ===== src/Tests/Store.antt =====
-- The theorems on the ledger and on the store, applied.
use benzhi_project_fe3ad.Prelude.{
  ◌⊎◌, ◌≢◌, ◌↔◌, [], ◌∷◌, true, ◌≡◌, some, arith, false, refl, Bool-cases, inl, inr, sym, subst,
  is_empty, eq_iff, str_eq, String,
}
use benzhi_project_fe3ad.Prelude.Maps.{lookup, lookup_by}
use benzhi_project_fe3ad.Prelude.Int64.{slt}
use benzhi_project_fe3ad.Calibration.Errors.{Result, ok}
use benzhi_project_fe3ad.Calibration.Types.{frozen}
use benzhi_project_fe3ad.Calibration.Snapshot.{find_batch}
use benzhi_project_fe3ad.Calibration.Credential.{issue_credential}
use benzhi_project_fe3ad.Calibration.Validation.Records.{validate_snapshot}
use benzhi_project_fe3ad.Ledger.Event.{Event, EventHashMaterial}
use benzhi_project_fe3ad.Ledger.Chain.{verify_chain, seal}
use benzhi_project_fe3ad.Ledger.Chain.Links.{verify_chain_iff, IsLinked}
use benzhi_project_fe3ad.Ledger.Chain.Tampering.{
  verify_chain-tamper, SameTexts, CollideAt, IsDigest,
}
use benzhi_project_fe3ad.Ledger.Credential.{frozen_digest, verify_credential}
use benzhi_project_fe3ad.Ledger.Credential.Issued.{issue-verify, issued}
use benzhi_project_fe3ad.JsonStore.Model.{
  CommitResult, Store, clone_snapshot, Faults, no_faults, appended, unconfirmed, kept, replaced,
}
use benzhi_project_fe3ad.JsonStore.Commit.{
  Prepared, prepare, commit, persist, finish, current_version,
}
use benzhi_project_fe3ad.JsonStore.Commit.Outcomes.{commit_again}
use benzhi_project_fe3ad.JsonStore.Commit.Chained.{IsChained, commit-IsChained, unconfirmed_breaks}
use benzhi_project_fe3ad.Ledger.Projection.{validate_projections, validate_from}
use benzhi_project_fe3ad.JsonStore.Recovery.{index_events, recover}
use benzhi_project_fe3ad.JsonStore.Recovery.Restart.{IsDurable, SameState, recover_durable}
use benzhi_project_fe3ad.JsonStore.Recovery.Durable.{commit-IsDurable}
use benzhi_project_fe3ad.Tests.Samples.{
  credential, released_snapshot, batch_at, snapshot_at, library, codec, empty_store, creation,
  created,
}

-- The event of the creation, with the digest `#`.
abbrev first_event : Event
first_event = record {
  material = record {
    schema_version = 1;
    sequence = 1;
    aggregate_id = "b1";
    aggregate_version = 1;
    type = "batch.created";
    actor = "ann";
    at = 100;
    idempotency_key = "k1";
    request_digest = "d1";
    previous_digest = "";
    projection = "created";
    response = "answer";
  };
  digest = "#";
}

abbrev prepared : Prepared
prepared = record { next = created; event = first_event; response = "answer"; version = 1 }

prepare-creation : prepare codec 100 empty_store creation ≡ ok prepared
unfolding prepare lookup_by clone_snapshot validate_snapshot seal
prepare-creation = refl

linked_events : verify_chain codec.marshal_material codec.sha256 (first_event ∷ []) ≡ ok tt
unfolding verify_chain
linked_events = refl

verify_chain_iff_example :
    (verify_chain codec.marshal_material codec.sha256 (first_event ∷ []) ≡ ok tt)
    ↔ IsLinked codec.marshal_material codec.sha256 0 "" (first_event ∷ [])
verify_chain_iff_example = verify_chain_iff codec.marshal_material codec.sha256 (first_event ∷ [])

texts_determine :
    (a b : EventHashMaterial) (text : String)
    → codec.marshal_material a ≡ ok text
    → codec.marshal_material b ≡ ok text
    → IsDigest codec.marshal_material codec.sha256 a.previous_digest
    → IsDigest codec.marshal_material codec.sha256 b.previous_digest
    → a.previous_digest ≡ b.previous_digest
texts_determine a b text h k p q = cc

-- The ledger against a copy with another actor, which that JSON does not show.
abbrev copied_event : Event
copied_event = record first_event { material = record first_event.material { actor = "eve" } }

verify_chain-tamper_example :
    SameTexts codec.marshal_material codec.sha256 (first_event ∷ []) (copied_event ∷ [])
    ⊎ CollideAt codec.marshal_material codec.sha256 (first_event ∷ []) (copied_event ∷ [])
unfolding verify_chain
verify_chain-tamper_example =
    verify_chain-tamper codec.marshal_material codec.sha256 texts_determine (first_event ∷ [])
      (copied_event ∷ []) refl refl refl refl

issue-verify_example :
    (lookup "c1" released_snapshot.credentials ≡ some (issued (batch_at frozen) 400 credential))
    × (verify_credential library.marshal_frozen library.sha256 released_snapshot
          (issued (batch_at frozen) 400 credential)
        ≡ ok tt)
unfolding find_batch frozen_digest issue_credential
issue-verify_example =
    issue-verify library.marshal_frozen library.sha256 (snapshot_at frozen) released_snapshot
      credential 400 (batch_at frozen) refl refl refl refl

abbrev snapshot_lost : Faults
snapshot_lost = record { append = appended; snapshot = kept }

commit_again_example :
    commit codec no_faults 200 (commit codec snapshot_lost 100 empty_store creation).0 creation ≡ (
      (commit codec snapshot_lost 100 empty_store creation).0,
      ok (record { response = "answer"; replayed = true; version = 1 }),
    )
unfolding lookup_by
commit_again_example =
    commit_again codec snapshot_lost no_faults 100 200 empty_store creation prepared refl refl
      prepare-creation refl

is_confirmed : appended ≢ unconfirmed
is_confirmed e = cc e

empty_store-IsChained : IsChained codec empty_store
unfolding verify_chain
empty_store-IsChained = record { on_disk = refl; verified = refl }

commit-IsChained_example : IsChained codec (commit codec snapshot_lost 100 empty_store creation).0
commit-IsChained_example =
    commit-IsChained codec snapshot_lost 100 empty_store creation is_confirmed (omega arith)
      empty_store-IsChained

abbrev sync_failed : Faults
sync_failed = record { append = unconfirmed; snapshot = kept }

-- The creation with another key, after the creation whose line was not confirmed.
abbrev after_failure : Store × Result CommitResult
after_failure =
    commit codec no_faults 200 (commit codec sync_failed 100 empty_store creation).0
      (record creation { idempotency_key = "k2" })

unconfirmed_breaks_example :
    verify_chain codec.marshal_material codec.sha256 after_failure.0.disk.ledger ≢ ok tt
unfolding commit persist finish prepare lookup_by clone_snapshot validate_snapshot seal
unconfirmed_breaks_example =
    unconfirmed_breaks codec sync_failed 100 200 empty_store after_failure.0 creation
      (record creation { idempotency_key = "k2" }) prepared
      (record { response = "answer"; replayed = false; version = 1 }) refl (omega arith) refl refl
      prepare-creation refl refl

empty_store-IsDurable : IsDurable codec empty_store
unfolding validate_projections validate_from index_events lookup_by
empty_store-IsDurable = record {
  chained = empty_store-IsChained;
  checks = [];
  checked = refl;
  indexed = refl;
  versions = λ id v h. cc h;
  current = (refl, refl);
}

prepared_only : (p : Prepared) → prepare codec 100 empty_store creation ≡ ok p → prepared ≡ p
prepared_only p h = cc (prepare-creation, h)

prepared_reads :
    (p : Prepared)
    → prepare codec 100 empty_store creation ≡ ok p
    → (codec.unmarshal_snapshot p.event.projection ≡ ok p.next)
      × (is_empty p.event.projection ≡ false)
prepared_reads p h =
    subst
      (λ (p : Prepared).
        (codec.unmarshal_snapshot p.event.projection ≡ ok p.next)
        × (is_empty p.event.projection ≡ false))
      (prepared_only p h) (refl, refl)

prepared_grows :
    (p : Prepared)
    → prepare codec 100 empty_store creation ≡ ok p
    → slt (current_version empty_store.projection "b1") (current_version p.next "b1") ≡ true
unfolding lookup_by
prepared_grows p h =
    subst
      (λ (p : Prepared).
        slt (current_version empty_store.projection "b1") (current_version p.next "b1") ≡ true)
      (prepared_only p h) refl

only_batch :
    (j : String) → j ≢ "b1" → current_version created j ≡ current_version empty_store.projection j
unfolding lookup_by
only_batch j h = elim (Bool-cases (str_eq "b1" j)) [
  | inl same ↦ absurd (h (sym ((eq_iff "b1" j).0 same)))
  | inr differ ↦ rw differ refl
]

prepared_others :
    (p : Prepared)
    → prepare codec 100 empty_store creation ≡ ok p
    → (j : String) → j ≢ "b1"
    → current_version p.next j ≡ current_version empty_store.projection j
prepared_others p h =
    subst
      (λ (p : Prepared).
        (j : String)
        → j ≢ "b1"
        → current_version p.next j ≡ current_version empty_store.projection j)
      (prepared_only p h) only_batch

commit-IsDurable_example : IsDurable codec (commit codec snapshot_lost 100 empty_store creation).0
commit-IsDurable_example =
    commit-IsDurable codec snapshot_lost 100 empty_store creation is_confirmed (omega arith) refl
      empty_store-IsDurable prepared_reads prepared_grows prepared_others

written-IsDurable : IsDurable codec (commit codec no_faults 100 empty_store creation).0
written-IsDurable =
    commit-IsDurable codec no_faults 100 empty_store creation is_confirmed (omega arith) refl
      empty_store-IsDurable prepared_reads prepared_grows prepared_others

recover_durable_example :
    (t : Store) × (recover codec replaced (commit codec no_faults 100 empty_store creation).0.disk
      ≡ ok t)
    × SameState codec (commit codec no_faults 100 empty_store creation).0 t
recover_durable_example =
    recover_durable codec (commit codec no_faults 100 empty_store creation).0 written-IsDurable
