-- ===== src/Ledger/Projection/Versions.antt =====
-- `ValidateProjections` of projection.go on one more event.
use benzhi_project_fe3ad.Prelude.{
  ◌≡◌, refl, inl, inr, true, String, List, [], ◌∷◌, ◌++◌, Option-cases, ==_iff, arith,
}
use benzhi_project_fe3ad.Prelude.Int64.{Int64}
use benzhi_project_fe3ad.Prelude.Maps.{Map, lookup, insert}
use benzhi_project_fe3ad.Calibration.Errors.{Result, ok, Result-cases}
use benzhi_project_fe3ad.Calibration.Types.{Snapshot}
use benzhi_project_fe3ad.Calibration.Validation.Records.{validate_snapshot}
use benzhi_project_fe3ad.Ledger.Event.{Event}
use benzhi_project_fe3ad.Ledger.Projection.{ProjectionCheck, check_projection, validate_from}

-- The versions that the loop of `ValidateProjections` holds behind the events.
abbrev pub end_versions : Map Int64 → List Event → Map Int64
end_versions versions [] = versions
end_versions versions (e ∷ es) =
    end_versions (insert e.aggregate_id e.aggregate_version versions) es

pub end_versions-append :
    (versions : Map Int64) (es : List Event) (e : Event)
    → end_versions versions (es ++ e ∷ [])
      ≡ insert e.aggregate_id e.aggregate_version (end_versions versions es)
end_versions-append versions [] e = refl
end_versions-append versions (x ∷ xs) e =
    end_versions-append (insert x.aggregate_id x.aggregate_version versions) xs e

abbrev passed : Event → ProjectionCheck
passed e = record {
  sequence = e.sequence;
  aggregate_id = e.aggregate_id;
  aggregate_version = e.aggregate_version;
  valid = true;
}

module _ (unmarshal : String → Result Snapshot) where
  check_projection-version :
      (versions : Map Int64) (e : Event) (v : Int64)
      → check_projection unmarshal versions e ≡ ok v
      → v ≡ e.aggregate_version
  unfolding check_projection
  check_projection-version versions e v h = elim (Result-cases (unmarshal e.projection)) [
    | inr (x, q) ↦ ground arith
    | inl (s, q) ↦ elim (Option-cases (lookup e.aggregate_id s.batches)) [
      | inl missing ↦ ground (arith, Result-cases (validate_snapshot s))
      | inr (b, found) ↦
          ground (arith, Result-cases (validate_snapshot s), ==_iff b.version e.aggregate_version)
    ]
  ]

  pub validate_from-append :
      (versions : Map Int64) (es : List Event) (e : Event) (checks : List ProjectionCheck)
      → validate_from unmarshal versions es ≡ ok checks
      → check_projection unmarshal (end_versions versions es) e ≡ ok e.aggregate_version
      → (more : List ProjectionCheck) × (validate_from unmarshal versions (es ++ e ∷ []) ≡ ok more)
  unfolding validate_from
  validate_from-append versions [] e checks h new = (passed e ∷ [], ground arith)
  validate_from-append versions (x ∷ xs) e checks h new =
      elim (Result-cases (check_projection unmarshal versions x)) [
        | inr (_, q) ↦ ground arith
        | inl (v, q) ↦
            elim (Result-cases (validate_from unmarshal (insert x.aggregate_id v versions) xs)) [
              | inr (_, q') ↦ ground arith
              | inl (rest, q') ↦
                  let same = check_projection-version versions x v q in
                  let (more, r) =
                    validate_from-append (insert x.aggregate_id v versions) xs e rest q'
                      (rw same new) in
                  (passed x ∷ more, ground arith)
            ]
      ]
