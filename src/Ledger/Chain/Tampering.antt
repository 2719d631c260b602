-- ===== src/Ledger/Chain/Tampering.antt =====
-- What the digest at the end of a chain commits to.
use benzhi_project_fe3ad.Prelude.{
  ◌≡◌, ◌≢◌, ◌⊎◌, inl, inr, refl, subst, sym, ap, ◌∙◌, String, List, [], ◌∷◌, str_eq, eq_iff,
  Bool-cases, length, arith,
}
use benzhi_project_fe3ad.Prelude.Int64.{Int64, inc}
use benzhi_project_fe3ad.Calibration.Errors.{Result, ok, Result-cases}
use benzhi_project_fe3ad.Ledger.Event.{Event, EventHashMaterial}
use benzhi_project_fe3ad.Ledger.Chain.{compute_digest, verify_chain}
use benzhi_project_fe3ad.Ledger.Chain.Links.{IsLinked, end_digest, verify_chain_iff}

module _ (marshal : EventHashMaterial → Result String) (sha256 : String → String) where
  -- The JSON of the events can be written and is the same, one by one.
  abbrev pub SameTexts : List Event → List Event → Type 0
  SameTexts [] [] = Unit
  SameTexts (x ∷ xs) (y ∷ ys) =
      ((text : String) × (marshal x.material ≡ ok text) × (marshal y.material ≡ ok text))
      × SameTexts xs ys
  SameTexts _ _ = ⊥

  -- Two events whose JSON differs and has the same SHA-256.
  abbrev pub Collision : Event → Event → Type 0
  Collision x y =
      (a : String) × (b : String) × (marshal x.material ≡ ok a)
      × (marshal y.material ≡ ok b)
      × (a ≢ b)
      × (sha256 a ≡ sha256 b)

  -- Somewhere in two ledgers, two such events stand in the same place.
  pub data CollideAt : List Event → List Event → Type 0 where
    here : (x y : Event) (xs ys : List Event) → Collision x y → CollideAt (x ∷ xs) (y ∷ ys)
    there : (x y : Event) (xs ys : List Event) → CollideAt xs ys → CollideAt (x ∷ xs) (y ∷ ys)

  -- The values of the field for the previous digest in a chain.
  abbrev pub IsDigest : String → Type 0
  IsDigest p = (p ≡ "") ⊎ ((text : String) × (sha256 text ≡ p))

  computed-IsDigest :
      (x : Event) → compute_digest marshal sha256 x ≡ ok x.digest → IsDigest x.digest
  unfolding compute_digest
  computed-IsDigest x p = elim (Result-cases (marshal x.material)) [
    | inr (_, mx) ↦ absurd (ground arith)
    | inl (a, mx) ↦ inr (a, ground arith)
  ]

  same_digest :
      (x y : Event)
      → compute_digest marshal sha256 x ≡ ok x.digest
      → compute_digest marshal sha256 y ≡ ok y.digest
      → x.digest ≡ y.digest
      → ((text : String) × (marshal x.material ≡ ok text) × (marshal y.material ≡ ok text))
        ⊎ Collision x y
  unfolding compute_digest
  same_digest x y p q e = elim (Result-cases (marshal x.material)) [
    | inr (_, mx) ↦ absurd (ground arith)
    | inl (a, mx) ↦ elim (Result-cases (marshal y.material)) [
      | inr (_, my) ↦ absurd (ground arith)
      | inl (b, my) ↦ elim (Bool-cases (str_eq a b)) [
        | inl same ↦ inl (a, mx, my ∙ ap ok (sym ((eq_iff a b).0 same)))
        | inr differ ↦ inr (a, b, mx, my, (λ s. ground (arith, eq_iff a b)), ground arith)
      ]
    ]
  ]

  module _
      (determines : (a b : EventHashMaterial) (text : String)
        → marshal a ≡ ok text
        → marshal b ≡ ok text
        → IsDigest a.previous_digest
        → IsDigest b.previous_digest
        → a.previous_digest ≡ b.previous_digest) where
    IsLinked-same :
        (i j : Int64) (p q : String) (xs ys : List Event)
        → IsDigest p
        → IsDigest q
        → IsLinked marshal sha256 i p xs
        → IsLinked marshal sha256 j q ys
        → length xs ≡ length ys
        → end_digest p xs ≡ end_digest q ys
        → ((p ≡ q) × SameTexts xs ys) ⊎ CollideAt xs ys
    IsLinked-same i j p q [] [] dp dq hx hy n e = inl (e, tt)
    IsLinked-same i j p q [] (y ∷ ys) dp dq hx hy n e = absurd (omega arith)
    IsLinked-same i j p q (x ∷ xs) [] dp dq hx hy n e = absurd (omega arith)
    IsLinked-same i j p q (x ∷ xs) (y ∷ ys) dp dq hx hy n e =
        elim (IsLinked-same (inc i) (inc j) x.digest y.digest xs ys (computed-IsDigest x hx.2)
          (computed-IsDigest y hy.2) hx.3 hy.3 (omega arith) e) [
            | inr c ↦ inr (there x y xs ys c)
            | inl (d, rest) ↦ elim (same_digest x y hx.2 hy.2 d) [
              | inr c ↦ inr (here x y xs ys c)
              | inl (text, mx, my) ↦ inl (
                sym hx.1
                    ∙ determines x.material y.material text mx my (subst IsDigest (sym hx.1) dp)
                        (subst IsDigest (sym hy.1) dq)
                    ∙ hy.1,
                ((text, mx, my), rest),
              )
            ]
          ]

    -- Two ledgers of one length that verify and end with the same digest hold the same events, as far
    -- as their JSON goes, or in some place they hold two events whose JSON differs and has the same
    -- SHA-256. Where the JSON of an event can be written, it has to determine its previous digest,
    -- among the empty text and the values of SHA-256.
    pub verify_chain-tamper :
        (xs ys : List Event)
        → verify_chain marshal sha256 xs ≡ ok tt
        → verify_chain marshal sha256 ys ≡ ok tt
        → length xs ≡ length ys
        → end_digest "" xs ≡ end_digest "" ys
        → SameTexts xs ys ⊎ CollideAt xs ys
    verify_chain-tamper xs ys hx hy n e =
        elim (IsLinked-same 0 0 "" "" xs ys (inl refl) (inl refl)
          ((verify_chain_iff marshal sha256 xs).0 hx) ((verify_chain_iff marshal sha256 ys).0 hy) n
          e) [ inl (_, same) ↦ inl same | inr c ↦ inr c ]
