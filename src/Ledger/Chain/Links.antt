-- ===== src/Ledger/Chain/Links.antt =====
-- `VerifyChain` of chain.go against a description of a chain, and the chain grown by one event.
use benzhi_project_fe3ad.Prelude.{
  ◌+◌, ◌^◌, ◌<◌, ◌≡◌, refl, ◌↔◌, String, List, [], ◌∷◌, ◌++◌, eq_iff, length, inl, inr, arith,
}
use benzhi_project_fe3ad.Prelude.Int64.{Int64, inc}
use benzhi_project_fe3ad.Calibration.Errors.{Result, ok, Result-cases}
use benzhi_project_fe3ad.Ledger.Event.{Event, EventHashMaterial}
use benzhi_project_fe3ad.Ledger.Chain.{compute_digest, verify_from, verify_chain}

-- The number and the digest behind the events, where those before them ended with `i` and `previous`.
abbrev pub end_number : Int64 → List Event → Int64
end_number i [] = i
end_number i (e ∷ es) = end_number (inc i) es

abbrev pub end_digest : String → List Event → String
end_digest previous [] = previous
end_digest previous (e ∷ es) = end_digest e.digest es

module _ (marshal : EventHashMaterial → Result String) (sha256 : String → String) where
  -- Numbered on from `i`, each event with the digest of the one before it and with its own.
  abbrev pub IsLinked : Int64 → String → List Event → Type 0
  IsLinked i previous [] = Unit
  IsLinked i previous (e ∷ es) =
      (e.sequence ≡ inc i)
      × (e.previous_digest ≡ previous)
      × (compute_digest marshal sha256 e ≡ ok e.digest)
      × IsLinked (inc i) e.digest es

  pub verify_from-IsLinked :
      (i : Int64) (previous : String) (events : List Event)
      → verify_from marshal sha256 i previous events ≡ ok tt
      → IsLinked i previous events
  unfolding verify_from
  verify_from-IsLinked i previous [] h = tt
  verify_from-IsLinked i previous (e ∷ es) h =
      elim (Result-cases (compute_digest marshal sha256 e)) [
        | inl (d, q) ↦ ground (
          arith,
          eq_iff e.previous_digest previous,
          eq_iff d e.digest,
          verify_from-IsLinked (inc i) e.digest es,
        )
        | inr (x, q) ↦ ground arith
      ]

  pub IsLinked-verify_from :
      (i : Int64) (previous : String) (events : List Event)
      → IsLinked i previous events
      → verify_from marshal sha256 i previous events ≡ ok tt
  unfolding verify_from
  IsLinked-verify_from i previous [] h = refl
  IsLinked-verify_from i previous (e ∷ es) h = ground (
    arith,
    eq_iff e.previous_digest previous,
    eq_iff e.digest e.digest,
    IsLinked-verify_from (inc i) e.digest es,
  )

  -- `VerifyChain` accepts exactly the lists of events that are numbered from 1 without a gap, each
  -- with the digest of its predecessor and with the digest of its own content.
  pub verify_chain_iff :
      (events : List Event) → (verify_chain marshal sha256 events ≡ ok tt) ↔ IsLinked 0 "" events
  unfolding verify_chain
  verify_chain_iff events = (verify_from-IsLinked 0 "" events, IsLinked-verify_from 0 "" events)

  pub IsLinked-append :
      (i : Int64) (previous : String) (events : List Event) (e : Event)
      → IsLinked i previous events
      → e.sequence ≡ inc (end_number i events)
      → e.previous_digest ≡ end_digest previous events
      → compute_digest marshal sha256 e ≡ ok e.digest
      → IsLinked i previous (events ++ e ∷ [])
  IsLinked-append i previous [] e h n p d = (n, p, d, tt)
  IsLinked-append i previous (x ∷ xs) e h n p d =
      (h.0, h.1, h.2, IsLinked-append (inc i) x.digest xs e h.3 n p d)

  -- The last of linked events has the number and the previous digest that those before it ask for.
  pub IsLinked-sequence :
      (i : Int64) (previous : String) (events : List Event) (e : Event)
      → IsLinked i previous (events ++ e ∷ [])
      → (e.sequence ≡ inc (end_number i events)) × (e.previous_digest ≡ end_digest previous events)
  IsLinked-sequence i previous [] e h = (h.0, h.1)
  IsLinked-sequence i previous (x ∷ xs) e h = IsLinked-sequence (inc i) x.digest xs e h.3

pub end_number-length :
    (i : Int64) (events : List Event)
    → i + length events < 2 ^ 64
    → end_number i events ≡ i + length events
end_number-length i [] h = omega arith
end_number-length i (e ∷ es) h = omega (arith, end_number-length (inc i) es)

pub end_number-append :
    (i : Int64) (events : List Event) (e : Event)
    → end_number i (events ++ e ∷ []) ≡ inc (end_number i events)
end_number-append i [] e = refl
end_number-append i (x ∷ xs) e = end_number-append (inc i) xs e

pub IsLinked-prefix :
    (marshal : EventHashMaterial → Result String) (sha256 : String → String) (i : Int64)
    (previous : String) (events rest : List Event)
    → IsLinked marshal sha256 i previous (events ++ rest)
    → IsLinked marshal sha256 i previous events
IsLinked-prefix marshal sha256 i previous [] rest h = tt
IsLinked-prefix marshal sha256 i previous (e ∷ es) rest h =
    (h.0, h.1, h.2, IsLinked-prefix marshal sha256 (inc i) e.digest es rest h.3)
