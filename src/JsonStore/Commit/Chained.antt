-- ===== src/JsonStore/Commit/Chained.antt =====
-- The ledger on the disk across calls of `Commit` of store.go, and its chain of digests.
use benzhi_project_fe3ad.Prelude.{
  ℕ, ◌+◌, ◌^◌, ◌<◌, ◌≡◌, ◌≢◌, refl, ◌∙◌, inl, inr, false, none, String, List, [], ◌∷◌, ◌++◌, length,
  last, arith,
}
use benzhi_project_fe3ad.Prelude.Maps.{lookup}
use benzhi_project_fe3ad.Calibration.Errors.{ok, Result-cases}
use benzhi_project_fe3ad.Calibration.Types.{Time}
use benzhi_project_fe3ad.Ledger.Event.{Event}
use benzhi_project_fe3ad.Ledger.Chain.{verify_chain}
use benzhi_project_fe3ad.Ledger.Chain.Links.{
  IsLinked-append, IsLinked-sequence, verify_chain_iff, end_number-length, end_digest,
  end_number-append, IsLinked-prefix,
}
use benzhi_project_fe3ad.JsonStore.Model.{
  Codec, CommitRequest, CommitResult, Store, no_faults, Faults, unconfirmed,
}
use benzhi_project_fe3ad.JsonStore.Commit.{
  Prepared, prepare, persist, finish, replay, commit, check_request, idempotency_index, last_digest,
  append_line,
}
use benzhi_project_fe3ad.JsonStore.Commit.Outcomes.{prepare-IsPrepared}

pub last_digest-end_digest :
    (previous : String) (e : Event) (es : List Event)
    → last_digest (last (e ∷ es)) ≡ end_digest previous (e ∷ es)
last_digest-end_digest previous e [] = refl
last_digest-end_digest previous e (x ∷ xs) = last_digest-end_digest e.digest x xs

last_digest-end : (es : List Event) → last_digest (last es) ≡ end_digest "" es
last_digest-end [] = refl
last_digest-end (e ∷ es) = last_digest-end_digest "" e es

module _ {R : Type 0} (c : Codec R) where
  -- The file holds the events in memory, and their chain verifies.
  pub record IsChained (s : Store) : Type 0 where
    pub on_disk : s.disk.ledger ≡ s.events
    pub verified : verify_chain c.marshal_material c.sha256 s.events ≡ ok tt

  pub prepared-verified :
      (now : Time) (s : Store) (req : CommitRequest R) (p : Prepared)
      → length s.events + 1 < 2 ^ 64
      → IsChained s
      → prepare c now s req ≡ ok p
      → verify_chain c.marshal_material c.sha256 (s.events ++ p.event ∷ []) ≡ ok tt
  prepared-verified now s req p bound v prepared =
      let facts = prepare-IsPrepared c now s req p prepared in
      (verify_chain_iff c.marshal_material c.sha256 (s.events ++ p.event ∷ [])).1 (
        IsLinked-append c.marshal_material c.sha256 0 "" s.events p.event
          ((verify_chain_iff c.marshal_material c.sha256 s.events).0 v.verified)
          (omega (arith, facts.sequence, end_number-length 0 s.events))
          (facts.linked ∙ last_digest-end s.events) facts.sealed)

  -- A commit, however it ends, keeps the file and the memory alike and the chain verified, unless the
  -- line was written and its `Sync` or `Close` failed. (Fewer than 2 ^ 64 - 1 events.)
  pub commit-IsChained :
      (faults : Faults) (now : Time) (s : Store) (req : CommitRequest R)
      → faults.append ≢ unconfirmed
      → length s.events + 1 < 2 ^ 64
      → IsChained s
      → IsChained (commit c faults now s req).0
  unfolding commit persist finish
  commit-IsChained faults now s req confirmed bound v = elim (Result-cases (prepare c now s req)) [
    | inl (p, q) ↦ ground (
      arith,
      v.on_disk,
      v.verified,
      prepared-verified now s req p bound v q,
      Result-cases (check_request c req),
    )
    | inr (e, q) ↦ ground (arith, v.on_disk, v.verified, Result-cases (check_request c req))
  ]

  -- Two events with the number after that of the memory, one behind the other.
  twice_numbered :
      (ledger : List Event) (d e : Event) (n : ℕ)
      → n + 1 < 2 ^ 64
      → d.sequence ≡ n + 1
      → e.sequence ≡ n + 1
      → verify_chain c.marshal_material c.sha256 ((ledger ++ d ∷ []) ++ e ∷ []) ≢ ok tt
  twice_numbered ledger d e n bound first second v =
      let all = (verify_chain_iff c.marshal_material c.sha256 ((ledger ++ d ∷ []) ++ e ∷ [])).0 v in
      let before =
        IsLinked-prefix c.marshal_material c.sha256 0 "" (ledger ++ d ∷ []) (e ∷ []) all in
      omega (
        arith,
        (IsLinked-sequence c.marshal_material c.sha256 0 "" (ledger ++ d ∷ []) e all).0,
        (IsLinked-sequence c.marshal_material c.sha256 0 "" ledger d before).0,
        end_number-append 0 ledger d,
      )

  -- The exception: after a line that was written and whose `Sync` or `Close` failed, the next commit
  -- that answers, and not from a key used before, leaves a file whose chain does not verify.
  pub unconfirmed_breaks :
      (faults : Faults) (now later : Time) (s t : Store) (first second : CommitRequest R)
      (p : Prepared) (r : CommitResult)
      → faults.append ≡ unconfirmed
      → length s.events + 1 < 2 ^ 64
      → check_request c first ≡ ok tt
      → lookup (idempotency_index first.aggregate_id first.idempotency_key) s.idempotency ≡ none
      → prepare c now s first ≡ ok p
      → commit c no_faults later (commit c faults now s first).0 second ≡ (t, ok r)
      → r.replayed ≡ false
      → verify_chain c.marshal_material c.sha256 t.disk.ledger ≢ ok tt
  unfolding commit persist finish replay
  unconfirmed_breaks faults now later s t first second p r failed bound checked unused prepared h
        fresh =
      let s' : Store = record s { disk = append_line c s.disk p.event } in
      let fp = prepare-IsPrepared c now s first p prepared in
      let left : (commit c faults now s first).0 ≡ s' = ground arith in
      let h' : commit c no_faults later s' second ≡ (t, ok r) = rw left at h in
      elim (Result-cases (prepare c later s' second)) [
        | inl (q, prepared_q) ↦
            let fq = prepare-IsPrepared c later s' second q prepared_q in
            let written : t.disk.ledger ≡ (s.disk.ledger ++ p.event ∷ []) ++ q.event ∷ [] =
              ground (arith, Result-cases (check_request c second)) in
            rw written (
              twice_numbered s.disk.ledger p.event q.event (length s.events) bound fp.sequence
                fq.sequence)
        | inr (e, refusal) ↦ ground (arith, Result-cases (check_request c second))
      ]
