-- ===== src/Calibration/Errors.antt =====
-- internal/domain/calibration/errors.go: errors with a code, and the results that carry them. A
-- message is the source's format; the arguments that `Sprintf` puts into it are left out.
use benzhi_project_fe3ad.Prelude.{
  ◌≡◌, refl, ◌⊎◌, inl, inr, Bool, true, false, Option, none, some, String,
}
use benzhi_project_fe3ad.Prelude.Int64.{Int64}

pub data ErrorCode : Type 0 where
  code_validation code_conflict code_not_found code_forbidden code_integrity : ErrorCode

pub record DomainError : Type 0 where
  pub code : ErrorCode
  pub message : String
  pub current_version : Option Int64

-- A `*DomainError`, or an error of another type (`fmt.Errorf`, input and output).
pub data Error : Type 0 where
  domain : DomainError → Error
  plain : String → Error

abbrev pub validation : String → Error
validation m = domain (record { code = code_validation; message = m; current_version = none })

abbrev pub conflict : String → Error
conflict m = domain (record { code = code_conflict; message = m; current_version = none })

abbrev pub version_conflict : Int64 → Int64 → Error
version_conflict expected current =
    domain (record {
      code = code_conflict;
      message = "版本冲突：期望 %d，实际 %d";
      current_version = some current;
    })

abbrev pub not_found : String → Error
not_found m = domain (record { code = code_not_found; message = m; current_version = none })

abbrev pub forbidden : String → Error
forbidden m = domain (record { code = code_forbidden; message = m; current_version = none })

abbrev pub integrity : String → Error
integrity m = domain (record { code = code_integrity; message = m; current_version = none })

-- The two results of a Go function, of which the caller reads the value only where the error is nil.
pub data Result {ℓ} (V : Type ℓ) : Type ℓ where
  err : Error → Result V
  ok : V → Result V

infixl 5 ◌>>=◌ ◌>>◌
-- `if err != nil { return err }`, and on with the value.
abbrev pub ◌>>=◌ {ℓ κ} : {V : Type ℓ} {W : Type κ} → Result V → (next : V → Result W) → Result W
err failure >>= next = err failure
ok v >>= next = next v

-- `if b { return e }`
abbrev pub reject : Bool → Error → Result (Unit {0})
reject true e = err e
reject false e = ok tt

-- The same, where there is no value.
abbrev pub ◌>>◌ {ℓ} : {W : Type ℓ} → (checked : Result (Unit {0})) → Result W → Result W
err failure >> next = err failure
ok _ >> next = next

-- `if v == nil { return e }`
abbrev pub required {ℓ} : {A : Type ℓ} → Option A → Error → Result A
required none e = err e
required (some a) e = ok a

pub >>=-eq-ok {ℓ κ} :
    {V : Type ℓ} {W : Type κ} (r : Result V) (next : V → Result W) {w : W}
    → (r >>= next) ≡ ok w
    → (v : V) × (r ≡ ok v) × (next v ≡ ok w)
>>=-eq-ok (err failure) next done = cc
>>=-eq-ok (ok v) next done = (v, refl, done)

pub >>-eq-ok {ℓ} :
    {W : Type ℓ} (checked : Result (Unit {0})) (next : Result W) {w : W}
    → (checked >> next) ≡ ok w
    → (checked ≡ ok tt) × (next ≡ ok w)
>>-eq-ok (err failure) next done = cc
>>-eq-ok (ok tt) next done = (refl, done)

pub reject-eq-ok {ℓ} :
    {B : Type ℓ} (b : Bool) (e : Error) (k : Result B) {r : B}
    → (reject b e >> k) ≡ ok r
    → (b ≡ false) × (k ≡ ok r)
reject-eq-ok true e k h = cc
reject-eq-ok false e k h = (refl, h)

pub required-eq-ok {ℓ κ} :
    {A : Type ℓ} {B : Type κ} (o : Option A) (e : Error) (f : A → Result B) {r : B}
    → (required o e >>= f) ≡ ok r
    → (a : A) × (o ≡ some a) × (f a ≡ ok r)
required-eq-ok none e f h = cc
required-eq-ok (some a) e f h = (a, refl, h)

pub Result-cases {ℓ} :
    {A : Type ℓ} (r : Result A) → ((a : A) × (r ≡ ok a)) ⊎ ((e : Error) × (r ≡ err e))
Result-cases (ok a) = inl (a, refl)
Result-cases (err e) = inr (e, refl)
