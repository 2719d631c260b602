-- ===== src/Workflow/Durability.antt =====
-- internal/application/workflow/service.go over internal/storage/jsonstore: the files behind the calls.
use benzhi_project_fe3ad.Prelude.{
  ℕ, ◌+◌, ◌^◌, ◌<◌, ◌≡◌, ◌≢◌, refl, sym, ap, subst, ◌∙◌, inl, inr, true, false, String, none, [],
  length, is_empty, arith, Option-cases,
}
use benzhi_project_fe3ad.Prelude.Int64.{slt, slt-inc}
use benzhi_project_fe3ad.Prelude.Maps.{lookup, insert, lookup_by}
use benzhi_project_fe3ad.Calibration.Errors.{ok, Result-cases}
use benzhi_project_fe3ad.Calibration.Types.{Snapshot, Time, is_zero_time}
use benzhi_project_fe3ad.Calibration.Effects.{Advances, lookup-insert_self, lookup-insert_ne}
use benzhi_project_fe3ad.Calibration.Batch
use benzhi_project_fe3ad.JsonStore.Model.{
  Codec, CommitRequest, Store, Faults, unconfirmed, replaced, clone_snapshot,
}
use benzhi_project_fe3ad.JsonStore.Commit.{prepare, Prepared, current_version, version_of}
use benzhi_project_fe3ad.JsonStore.Commit.Outcomes.{prepare-IsPrepared}
use benzhi_project_fe3ad.JsonStore.Recovery.Restart.{
  IsDurable, SameState, recover_durable, recover-IsDurable,
}
use benzhi_project_fe3ad.JsonStore.Recovery.{index_events}
use benzhi_project_fe3ad.JsonStore.Files.{FileJson, Files, disk_of, open_store, open_store-eq-ok}
use benzhi_project_fe3ad.Ledger.Projection.{validate_projections, validate_from}
use benzhi_project_fe3ad.Ledger.Chain.{verify_chain, verify_from}
use benzhi_project_fe3ad.Calibration.Snapshot.{new_snapshot}
use benzhi_project_fe3ad.JsonStore.Recovery.Durable.{commit-IsDurable}
use benzhi_project_fe3ad.Workflow.Commands.{CommandMeta, Command, Response}
use benzhi_project_fe3ad.Workflow.Service.{
  drawing, request_fingerprint, Host, serve, request_of, target, mutate, validate_meta,
}
use benzhi_project_fe3ad.Workflow.BatchCommands
use benzhi_project_fe3ad.Workflow.Effects.{mutate-moves}

-- What a mutation does to the versions of the batches.
pub record Raises (id : String) (s t : Snapshot) : Type 0 where
  pub grows : slt (current_version s id) (current_version t id) ≡ true
  pub others : (j : String) → j ≢ id → current_version t j ≡ current_version s j

Advances-Raises :
    (id : String) (s t : Snapshot)
    → current_version s id + 1 < 2 ^ 63
    → Advances id s t
    → Raises id s t
Advances-Raises id s t bound a = record {
  grows =
      let raised =
        slt-inc a.before.version (subst (λ o. version_of o + 1 < 2 ^ 63) a.found bound) in
      rw (a.found, a.stored, a.version) raised;
  others = λ j h. ap version_of (a.others j h);
}

create_batch-Raises :
    (id code title actor : String) (now : Time) (s t : Snapshot) (r : Response)
    → BatchCommands.create_batch id code title actor now s ≡ ok (t, r)
    → Raises id s t
unfolding BatchCommands.create_batch Batch.create_batch
create_batch-Raises id code title actor now s t r made = elim (Option-cases (lookup id s.batches)) [
  | inr (b, found) ↦ absurd (ground arith)
  | inl none_yet ↦ elim (Result-cases (Batch.create_batch id code title actor now)) [
    | inr (e, q) ↦ absurd (ground arith)
    | inl (b, q) ↦
        let first : b.version ≡ 1 = ground arith in
        let written : t.batches ≡ insert id b s.batches = ground arith in
        record {
          grows =
              rw (none_yet, ap (lookup id) written ∙ lookup-insert_self id b s.batches, first) refl;
          others =
              λ j h. ap version_of (ap (lookup j) written ∙ lookup-insert_ne id j b s.batches h);
        }
  ]
]

mutate-Raises :
    (h : Host) (m : CommandMeta) (id : String) (cmd : Command) (now : Time) (s t : Snapshot)
    (r : Response)
    → current_version s id + 1 < 2 ^ 63
    → mutate h m id cmd now s ≡ ok (t, r)
    → Raises id s t
unfolding mutate
mutate-Raises h m id (Command.create_batch code title) now s t r bound made =
    create_batch-Raises id code title m.actor now s t r made
mutate-Raises h m id cmd now s t r bound made =
    Advances-Raises id s t bound (mutate-moves h m id cmd now s t r tt made)

-- The JSON of the snapshot is not empty, and it is read back.
abbrev pub IsReadable : {R : Type 0} → Codec R → Snapshot → Type 0
IsReadable c t =
    (text : String)
    → c.marshal_snapshot t ≡ ok text
    → (c.unmarshal_snapshot text ≡ ok t) × (is_empty text ≡ false)

clone-eq :
    {R : Type 0} (c : Codec R) (s t : Snapshot) → IsReadable c s → clone_snapshot c s ≡ ok t → t ≡ s
unfolding clone_snapshot
clone-eq c s t readable cloned = elim (Result-cases (c.marshal_snapshot s)) [
  | inr (e, q) ↦ absurd (ground arith)
  | inl (text, q) ↦ let back = (readable text q).0 in cc
]

module _ (h : Host) (faults : Faults) (now : Time) (s : Store) (m : CommandMeta) (batch_id : String)
    (cmd : Command) where
  request_of-eq :
      (req : CommitRequest Response)
      → request_of h now m batch_id cmd ≡ ok req
      → (req.aggregate_id ≡ target h m batch_id cmd)
        × (req.mutate ≡ mutate h m (target h m batch_id cmd) cmd now)
  unfolding request_of
  request_of-eq req made = (
    ground (arith, Result-cases (validate_meta m), Result-cases (request_fingerprint h m cmd)),
    ground (arith, Result-cases (validate_meta m), Result-cases (request_fingerprint h m cmd)),
  )

  -- What a call needs of its environment.
  pub record IsOrderly : Type 0 where
    pub confirmed : faults.append ≢ unconfirmed
    pub bound : length s.events + 1 < 2 ^ 64
    pub dated : is_zero_time now ≡ false
    pub readable : IsReadable h.codec s.projection
    pub version : current_version s.projection (target h m batch_id cmd) + 1 < 2 ^ 63
    pub reads :
        (t : Snapshot) (r : Response)
        → mutate h m (target h m batch_id cmd) cmd now s.projection ≡ ok (t, r)
        → IsReadable h.codec t

  -- What the commit of the request is about to write.
  mutated_by :
      IsOrderly
      → (req : CommitRequest Response) (p : Prepared) → request_of h now m batch_id cmd ≡ ok req
      → prepare h.codec now s req ≡ ok p
      → (r : Response) × (mutate h m (target h m batch_id cmd) cmd now s.projection
          ≡ ok (p.next, r))
  mutated_by o req p made prepared =
      let facts = prepare-IsPrepared h.codec now s req p prepared in
      let same_copy = clone-eq h.codec s.projection facts.copy o.readable facts.cloned in
      let same_mutate = (request_of-eq req made).1 in
      (facts.answer, sym (λ i. same_mutate i (same_copy i)) ∙ facts.mutated)

  raised_by :
      IsOrderly
      → (req : CommitRequest Response) (p : Prepared) → request_of h now m batch_id cmd ≡ ok req
      → prepare h.codec now s req ≡ ok p
      → Raises req.aggregate_id s.projection p.next
  raised_by o req p made prepared =
      let (r, mutated) = mutated_by o req p made prepared in
      subst (λ id. Raises id s.projection p.next) (sym (request_of-eq req made).0)
        (mutate-Raises h m (target h m batch_id cmd) cmd now s.projection p.next r o.version
          mutated)

  read_by :
      IsOrderly
      → (req : CommitRequest Response) (p : Prepared) → request_of h now m batch_id cmd ≡ ok req
      → prepare h.codec now s req ≡ ok p
      → (h.codec.unmarshal_snapshot p.event.projection ≡ ok p.next)
        × (is_empty p.event.projection ≡ false)
  read_by o req p made prepared =
      let (r, mutated) = mutated_by o req p made prepared in
      o.reads p.next r mutated p.event.projection
        (prepare-IsPrepared h.codec now s req p prepared).projected

  pub serve-IsDurable :
      IsOrderly → IsDurable h.codec s → IsDurable h.codec (serve h faults now s m batch_id cmd).0
  unfolding serve
  serve-IsDurable o d = elim (Result-cases (request_of h now m batch_id cmd)) [
    | inr (e, q) ↦ rw q d
    | inl (req, q) ↦ rw q (
        commit-IsDurable h.codec faults now s req o.confirmed o.bound o.dated d
          (λ p prepared. read_by o req p q prepared)
          (λ p prepared. (raised_by o req p q prepared).grows)
          (λ p prepared. (raised_by o req p q prepared).others))
  ]

-- A new directory.
abbrev pub new_store : Store
new_store = record {
  projection = new_snapshot;
  events = [];
  idempotency = [];
  disk = record { ledger = []; snapshot_file = none };
}

pub new_store-IsDurable : {R : Type 0} (c : Codec R) → IsDurable c new_store
unfolding validate_projections validate_from index_events lookup_by verify_chain verify_from
new_store-IsDurable c = record {
  chained = record { on_disk = refl; verified = refl };
  checks = [];
  checked = refl;
  indexed = refl;
  versions = λ id v h. cc;
  current = (refl, refl);
}

-- The stores behind the calls of the service, one after the other, from a new directory on. Each call
-- draws ids of its own. Between two calls the process may end, and the store be opened again on its
-- files, as they are on the disk.
pub data Reached (h : Host) (j : FileJson) : Store → Type 0 where
  new : Reached h j new_store
  call :
      (fresh : String → ℕ → String) (faults : Faults) (now : Time) (s : Store) (m : CommandMeta)
      (batch_id : String) (cmd : Command)
      → IsOrderly (drawing fresh h) faults now s m batch_id cmd
      → Reached h j s
      → Reached h j (serve (drawing fresh h) faults now s m batch_id cmd).0
  restart :
      (dir : String) (files : Files) (s t : Store)
      → disk_of j files ≡ ok s.disk
      → open_store j h.codec replaced dir (ok tt) files ≡ ok t
      → Reached h j s
      → Reached h j t

module _ (h : Host) (j : FileJson) where
  Reached-IsDurable : (s : Store) → Reached h j s → IsDurable h.codec s
  Reached-IsDurable _ new = new_store-IsDurable h.codec
  Reached-IsDurable _ (call fresh faults now s m batch_id cmd o before) =
      serve-IsDurable (drawing fresh h) faults now s m batch_id cmd o (Reached-IsDurable s before)
  Reached-IsDurable _ (restart dir files s t holds opens before) =
      recover-IsDurable h.codec s t (Reached-IsDurable s before)
        (open_store-eq-ok j h.codec replaced dir (ok tt) files s.disk t holds opens)

  -- A service has had calls since its directory was new, each with ids of its own, and was restarted in
  -- between any number of times. Then `Open` succeeds on its files, where their contents are decoded to
  -- what was written, each line below the scanner's 32 MiB, the directory can be made, and a missing or
  -- stale snapshot file can be replaced; it gives the projection, the events and the idempotency index
  -- that are in memory. The calls are those whose line was not left unconfirmed, at a time that is not
  -- zero, with fewer than 2 ^ 64 - 1 events before and a version below 2 ^ 63 - 1, where the JSON of
  -- the snapshots before and after is read back.
  pub open_store-Reached :
      (dir : String) (files : Files) (s : Store)
      → is_empty dir ≡ false
      → disk_of j files ≡ ok s.disk
      → Reached h j s
      → (t : Store) × (open_store j h.codec replaced dir (ok tt) files ≡ ok t)
        × SameState h.codec s t
  unfolding open_store
  open_store-Reached dir files s named holds reached =
      let (t, opens, same) = recover_durable h.codec s (Reached-IsDurable s reached) in
      (t, rw (named, holds) opens, same)
