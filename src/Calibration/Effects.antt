-- ===== src/Calibration/Effects.antt =====
-- What an operation of internal/domain/calibration does to the batches: the relation between the
-- snapshots before and after it, and how it is put together.
use benzhi_project_fe3ad.Prelude.{
  ◌≡◌, refl, sym, ◌∙◌, ap, subst, ◌≢◌, ◌⊎◌, Bool, true, false, Option, none, some, String, List,
  arith, str_eq, eq_iff, if◌then◌else◌, Option-cases, Bool-cases,
}
use benzhi_project_fe3ad.Prelude.Int64.{inc}
use benzhi_project_fe3ad.Prelude.Maps.{Map, lookup, insert, lookup-insert, lookup_by}
use benzhi_project_fe3ad.Calibration.Errors.{
  Result, ok, err, ◌>>=◌, >>=-eq-ok, required-eq-ok, reject-eq-ok,
}
use benzhi_project_fe3ad.Calibration.Types.{Snapshot, CalibrationBatch, BatchStatus}
use benzhi_project_fe3ad.Calibration.Lifecycle.{allowed_transition, move_to}
use benzhi_project_fe3ad.Calibration.Snapshot.{find_batch, put_batch}
pub mod Operations

-- A status stays, or moves along a legal transition.
abbrev pub MayMove : BatchStatus → BatchStatus → Type 0
MayMove a b = (a ≡ b) ⊎ (allowed_transition a b ≡ true)

-- From `s` to `t` the batch `id` moves by one version.
pub record Advances (id : String) (s t : Snapshot) : Type 0 where
  pub before : CalibrationBatch
  pub after : CalibrationBatch
  pub found : lookup id s.batches ≡ some before
  pub stored : lookup id t.batches ≡ some after
  pub version : after.version ≡ inc before.version
  pub status : MayMove before.status after.status
  pub others : (j : String) → j ≢ id → lookup j t.batches ≡ lookup j s.batches

pub lookup-insert_self {ℓ} :
    {V : Type ℓ} (k : String) (v : V) (m : Map V) → lookup k (insert k v m) ≡ some v
lookup-insert_self k v m = ground (arith, lookup-insert k k v m, eq_iff k k)

pub lookup-insert_ne {ℓ} :
    {V : Type ℓ} (k j : String) (v : V) (m : Map V) → j ≢ k → lookup j (insert k v m) ≡ lookup j m
lookup-insert_ne k j v m h = ground (arith, lookup-insert k j v m, eq_iff k j, h)

pub find_batch-eq-ok :
    (s : Snapshot) (id : String) (b : CalibrationBatch)
    → find_batch s id ≡ ok b
    → lookup id s.batches ≡ some b
unfolding find_batch
find_batch-eq-ok s id b h = ground arith

-- The batches of `t` are those of `s` with one batch written.
pub insert-Advances :
    (id : String) (s t : Snapshot) (b b' : CalibrationBatch)
    → find_batch s id ≡ ok b
    → t.batches ≡ insert id b' s.batches
    → b'.version ≡ inc b.version
    → MayMove b.status b'.status
    → Advances id s t
insert-Advances id s t b b' found written version status = record {
  before = b;
  after = b';
  found = find_batch-eq-ok s id b found;
  stored = ap (lookup id) written ∙ lookup-insert_self id b' s.batches;
  version = version;
  status = status;
  others = λ j h. ap (lookup j) written ∙ lookup-insert_ne id j b' s.batches h;
}

pub move_to-eq-ok :
    (b b' : CalibrationBatch) (next : BatchStatus)
    → move_to b next ≡ ok b'
    → (allowed_transition b.status next ≡ true)
      × (b' ≡ record b { status = next; version = inc b.version })
unfolding move_to
move_to-eq-ok b b' next h = ground arith

-- From `s` to `t` the batch `id` keeps its status and its version.
pub record Keeps (id : String) (s t : Snapshot) : Type 0 where
  pub before : CalibrationBatch
  pub after : CalibrationBatch
  pub found : lookup id s.batches ≡ some before
  pub stored : lookup id t.batches ≡ some after
  pub version : after.version ≡ before.version
  pub status : after.status ≡ before.status
  pub others : (j : String) → j ≢ id → lookup j t.batches ≡ lookup j s.batches

pub insert-Keeps :
    (id : String) (s t : Snapshot) (b b' : CalibrationBatch)
    → find_batch s id ≡ ok b
    → t.batches ≡ insert id b' s.batches
    → b'.version ≡ b.version
    → b'.status ≡ b.status
    → Keeps id s t
insert-Keeps id s t b b' found written version status = record {
  before = b;
  after = b';
  found = find_batch-eq-ok s id b found;
  stored = ap (lookup id) written ∙ lookup-insert_self id b' s.batches;
  version = version;
  status = status;
  others = λ j h. ap (lookup j) written ∙ lookup-insert_ne id j b' s.batches h;
}

-- A change of the other maps before or after an operation is no change of the batches.
pub Advances-after_Keeps :
    (id : String) (s t u : Snapshot) → Keeps id s t → Advances id t u → Advances id s u
Advances-after_Keeps id s t u k a =
    let same : a.before ≡ k.after = cc (a.found, k.stored) in
    record {
      before = k.before;
      after = a.after;
      found = k.found;
      stored = a.stored;
      version = a.version ∙ ap (λ (b : CalibrationBatch). inc b.version) same ∙ ap inc k.version;
      status =
          subst (λ st. MayMove st a.after.status)
            (ap (λ (b : CalibrationBatch). b.status) same ∙ k.status) a.status;
      others = λ j h. a.others j h ∙ k.others j h;
    }

pub Advances-same :
    (id : String) (s t u v : Snapshot)
    → s.batches ≡ t.batches
    → u.batches ≡ v.batches
    → Advances id t u
    → Advances id s v
Advances-same id s t u v p q a = record {
  before = a.before;
  after = a.after;
  found = ap (lookup id) p ∙ a.found;
  stored = ap (lookup id) (sym q) ∙ a.stored;
  version = a.version;
  status = a.status;
  others = λ j h. ap (lookup j) (sym q) ∙ a.others j h ∙ ap (lookup j) (sym p);
}
