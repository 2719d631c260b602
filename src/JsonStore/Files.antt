-- ===== src/JsonStore/Files.antt =====
-- internal/storage/jsonstore/store.go and recovery.go: `Open` on the two files as they are on the disk.
use benzhi_project_fe3ad.Prelude.{
  ◌≡◌, refl, ap, subst, ◌∙◌, false, ◌==◌, ◌&&◌, str_eq, Option, none, some, String, List, [],
  is_empty, last,
}
use benzhi_project_fe3ad.Prelude.Maps.{Map}
use benzhi_project_fe3ad.Prelude.Int64.{Int64}
use benzhi_project_fe3ad.Calibration.Errors.{
  Error, Result, ok, err, ◌>>=◌, ◌>>◌, reject, reject-eq-ok, >>-eq-ok, plain,
}
use benzhi_project_fe3ad.Ledger.Event.{Event}
use benzhi_project_fe3ad.Ledger.Chain.{verify_chain}
use benzhi_project_fe3ad.Ledger.Projection.{validate_projections}
use benzhi_project_fe3ad.JsonStore.Model.{
  Codec, SnapshotFile, Disk, Store, SnapshotOutcome, replaced, kept, replaced_unconfirmed,
  IdempotentResult,
}
use benzhi_project_fe3ad.JsonStore.Lines.{decode_json_lines}
use benzhi_project_fe3ad.JsonStore.Recovery.{
  recover, rebuild, load, read_snapshot, is_fresh, index_events,
}

-- A file when it is opened: there is none, it cannot be opened, or it has this content.
pub data OnDisk {ℓ} (A : Type ℓ) : Type ℓ where
  absent : OnDisk A
  unreadable : Error → OnDisk A
  holding : A → OnDisk A

-- `events.jsonl` by its lines, and `snapshot.json`.
pub record Files : Type 0 where
  pub ledger_file : OnDisk (List String)
  pub snapshot_text : OnDisk String

-- The envelope of a snapshot as it is decoded; a projection that is null is `none`.
pub record Envelope : Type 0 where
  pub schema_version : Int64
  pub sequence : Int64
  pub last_digest : String
  pub projection : Option String

pub record FileJson : Type 0 where
  pub unmarshal_event : String → Result Event
  pub unmarshal_envelope : String → Result Envelope

-- A file that fails the tests of `readSnapshot`, whatever the last event is.
abbrev pub stale_file : SnapshotFile
stale_file = record { schema_version = 0; sequence = 0; last_digest = ""; projection = "" }

abbrev file_of : Envelope → Option String → SnapshotFile
file_of e none = stale_file
file_of e (some projection) = record {
  schema_version = e.schema_version;
  sequence = e.sequence;
  last_digest = e.last_digest;
  projection = projection;
}

abbrev decoded_file : Result Envelope → SnapshotFile
decoded_file (err e) = stale_file
decoded_file (ok e) = file_of e e.projection

module _ (j : FileJson) where
  unfoldable pub read_events : OnDisk (List String) → Result (List Event)
  read_events absent = ok []
  read_events (unreadable e) = err e
  read_events (holding lines) = decode_json_lines j.unmarshal_event lines

  -- The decoding in `readSnapshot`. What cannot be opened or decoded, and an envelope without a
  -- projection, are errors, as a stale file is; and like one they are no missing file for `os.Stat`.
  abbrev pub read_envelope : OnDisk String → Option SnapshotFile
  read_envelope absent = none
  read_envelope (unreadable e) = some stale_file
  read_envelope (holding text) = some (decoded_file (j.unmarshal_envelope text))

  -- What the store makes of the files before it looks at their contents.
  unfoldable pub disk_of : Files → Result Disk
  disk_of files = do
    events ← read_events files.ledger_file
    ok (record { ledger = events; snapshot_file = read_envelope files.snapshot_text })

  -- `made` is what `os.MkdirAll` returns.
  unfoldable pub open_store :
      {R : Type 0}
      → Codec R
      → SnapshotOutcome
      → (dir : String) → (made : Result (Unit {0})) → Files
      → Result Store
  open_store c outcome dir made files = do
    reject (is_empty dir) (plain "存储目录不能为空")
    made
    disk ← disk_of files
    recover c outcome disk

-- A snapshot file that does not serve for this last event: it cannot be opened or decoded, it has no
-- projection, or it is of another event.
pub data IsUseless (j : FileJson) (e : Event) : OnDisk String → Type 0 where
  unopened : (failure : Error) → IsUseless j e (unreadable failure)
  undecoded :
      (text : String) (failure : Error)
      → j.unmarshal_envelope text ≡ err failure
      → IsUseless j e (holding text)
  without_projection :
      (text : String) (envelope : Envelope)
      → j.unmarshal_envelope text ≡ ok envelope
      → envelope.projection ≡ none
      → IsUseless j e (holding text)
  of_another :
      (text : String) (envelope : Envelope)
      → j.unmarshal_envelope text ≡ ok envelope
      → envelope.schema_version == 1
          && envelope.sequence == e.sequence
          && str_eq envelope.last_digest e.digest
        ≡ false
      → IsUseless j e (holding text)

module _ (j : FileJson) {R : Type 0} (c : Codec R) where
  file_of_stale :
      (e : Event) (envelope : Envelope) (p : Option String)
      → envelope.schema_version == 1
          && envelope.sequence == e.sequence
          && str_eq envelope.last_digest e.digest
        ≡ false
      → is_fresh (file_of envelope p) e ≡ false
  file_of_stale e envelope none other = refl
  file_of_stale e envelope (some p) other = other

  useless_stale :
      (e : Event) (file : OnDisk String)
      → IsUseless j e file
      → (f : SnapshotFile) × (read_envelope j file ≡ some f) × (is_fresh f e ≡ false)
  useless_stale e _ (unopened failure) = (stale_file, refl, refl)
  useless_stale e _ (undecoded text failure q) = rw q (stale_file, refl, refl)
  useless_stale e _ (without_projection text envelope q missing) = (
    stale_file,
    ap (λ r. some (decoded_file r)) q ∙ ap (λ p. some (file_of envelope p)) missing,
    refl,
  )
  useless_stale e _ (of_another text envelope q other) = (
    file_of envelope envelope.projection,
    ap (λ r. some (decoded_file r)) q,
    file_of_stale e envelope envelope.projection other,
  )

  rebuild_any :
      (outcome : SnapshotOutcome) (d : Disk) (x y : Option SnapshotFile) (m : Map IdempotentResult)
      (e : Event)
      → rebuild c outcome (record d { snapshot_file = x }) m e
        ≡ rebuild c outcome (record d { snapshot_file = y }) m e
  unfolding rebuild
  rebuild_any replaced d x y m e = refl
  rebuild_any kept d x y m e = refl
  rebuild_any replaced_unconfirmed d x y m e = refl

  recover_stale :
      (outcome : SnapshotOutcome) (d : Disk) (f : SnapshotFile) (e : Event)
      → last d.ledger ≡ some e
      → is_fresh f e ≡ false
      → recover c outcome (record d { snapshot_file = some f })
        ≡ recover c outcome (record d { snapshot_file = none })
  unfolding recover load read_snapshot
  recover_stale outcome d f e is_last stale =
      rw (is_last, stale)
        (ap
          (λ r.
            verify_chain c.marshal_material c.sha256 d.ledger
            >> (validate_projections c.unmarshal_snapshot d.ledger >>= λ checks. r))
          (rebuild_any outcome d (some f) none (index_events [] d.ledger) e))

  pub open_store-useless :
      (outcome : SnapshotOutcome) (dir : String) (made : Result (Unit {0}))
      (ledger : OnDisk (List String)) (file : OnDisk String) (events : List Event) (e : Event)
      → read_events j ledger ≡ ok events
      → last events ≡ some e
      → IsUseless j e file
      → open_store j c outcome dir made (record { ledger_file = ledger; snapshot_text = file })
        ≡ open_store j c outcome dir made (record { ledger_file = ledger; snapshot_text = absent })
  unfolding open_store disk_of
  open_store-useless outcome dir made ledger file events e known is_last useless =
      let (f, is_file, stale) = useless_stale e file useless in
      rw (known, is_file)
        (ap (λ r. reject (is_empty dir) (plain "存储目录不能为空") >> (made >> r))
          (recover_stale outcome (record { ledger = events; snapshot_file = none }) f e is_last
            stale))

  -- A store that is opened is recovered from what the files hold.
  pub open_store-eq-ok :
      (outcome : SnapshotOutcome) (dir : String) (made : Result (Unit {0})) (files : Files)
      (d : Disk) (t : Store)
      → disk_of j files ≡ ok d
      → open_store j c outcome dir made files ≡ ok t
      → recover c outcome d ≡ ok t
  unfolding open_store
  open_store-eq-ok outcome dir made files d t holds opened =
      let (named, rest) = reject-eq-ok (is_empty dir) _ _ opened in
      let (ready, left) = >>-eq-ok made _ rest in
      subst (λ r. (r >>= recover c outcome) ≡ ok t) holds left
