-- ===== src/HttpApi/Selfcheck/Trace.antt =====
-- internal/transport/httpapi/selfcheck.go: what a network sees of the scenario.
use Prim.Native.String.{◌++◌ as ◌<>◌}
use benzhi_project_fe3ad.Prelude.{ℕ, ◌≡◌, refl, subst, none, some, String, List, [], ◌∷◌, ◌++◌}
use mathlib.Core.List.{append_assoc}
use benzhi_project_fe3ad.Prelude.Int64.{Int64}
use benzhi_project_fe3ad.Calibration.Errors.{Result, ok}
use benzhi_project_fe3ad.HttpApi.Client.{
  ◌>>=◌, Leaf, leaf, Fields, ClientJson, Web, MutationResult, continue-ok,
}
use benzhi_project_fe3ad.HttpApi.Selfcheck.{
  Client, set_up, sample, correct, release, check_release, get_all, last_paths, run,
}
use benzhi_project_fe3ad.HttpApi.Selfcheck.Exchanges.{
  Exchange, exchange, recording, Logs, Logs-pure, Logs-mutate_then, Logs-expect_then,
  Logs-query_then, Logs-lift_then, Logs-bind,
}

ok-same : (a b : String) (r : Result String) → r ≡ ok a → r ≡ ok b → b ≡ a
ok-same a b r p q = cc

module _ (j : ClientJson) where
  -- The JSON of a command with this actor, version and key.
  abbrev pub IsCommand : (actor : String) → Int64 → (key body : String) → Type 0
  IsCommand actor version key body =
      (rest : Fields) × (j.marshal (
          ("actor", leaf (Leaf.text actor))
          ∷ ("expectedVersion", leaf (Leaf.integer version))
          ∷ ("idempotencyKey", leaf (Leaf.text key))
          ∷ rest)
        ≡ ok body)

  -- An accepted command on a batch.
  abbrev pub posted : (batch_id path body : String) → ℕ → String → Exchange
  posted batch_id path body status received =
      exchange "POST" ("/v1/batches/" <> batch_id <> path) (some body) status received

  abbrev pub queried : (batch_id path received : String) → Exchange
  queried batch_id path received =
      exchange "GET" ("/v1/batches/" <> batch_id <> path) none 200 received

  -- The batch, its sensor and its profile, each at the version of the answer before.
  pub data IsSetUp : Client → List Exchange → Type 0 where
    set_up_in_turn :
        (created sensor locked : MutationResult) (body₁ body₂ body₃ data₁ data₂ data₃ : String)
        → j.unmarshal_result data₁ ≡ ok created
        → j.unmarshal_result data₂ ≡ ok sensor
        → j.unmarshal_result data₃ ≡ ok locked
        → IsCommand "tech-a" 0 "create-1" body₁
        → IsCommand "tech-a" created.version "sensor-1" body₂
        → IsCommand "tech-a" sensor.version "profile-1" body₃
        → IsSetUp
            (record {
              batch_id = created.batch_id;
              version = locked.version;
              sensor_id = sensor.id;
            })
            (exchange "POST" "/v1/batches" (some body₁) 201 data₁
              ∷ posted created.batch_id "/sensors" body₂ 201 data₂
              ∷ posted created.batch_id "/profile:lock" body₃ 200 data₃
              ∷ [])

  -- The bad point and the same request again; the good point at the version that the first of the two
  -- has answered; and a review that expects version 0, a conflict.
  pub data IsSampling (c : Client) : Client → List Exchange → Type 0 where
    sampled_in_turn :
        (bad replayed good : MutationResult)
        (body good_body late_body data₁ data₂ data₃ data₄ : String)
        → j.unmarshal_result data₁ ≡ ok bad
        → j.unmarshal_result data₂ ≡ ok replayed
        → j.unmarshal_result data₃ ≡ ok good
        → IsCommand "tech-a" c.version "measure-bad" body
        → IsCommand "tech-a" bad.version "measure-good" good_body
        → IsCommand "reviewer-b" 0 "conflict" late_body
        → IsSampling c
            (record c { version = good.version })
            (posted c.batch_id "/measurements" body 201 data₁
              ∷ posted c.batch_id "/measurements" body 201 data₂
              ∷ posted c.batch_id "/measurements:batch" good_body 201 data₃
              ∷ posted c.batch_id "/reviews" late_body 409 data₄
              ∷ [])

  -- The recalibration, the tasks of the new revision, and its retest.
  pub data IsCorrection (c : Client) : Client → List Exchange → Type 0 where
    corrected_in_turn :
        (revision retest : MutationResult) (body₁ body₂ data₁ data₂ data₃ : String)
        → j.unmarshal_result data₁ ≡ ok revision
        → j.unmarshal_result data₃ ≡ ok retest
        → IsCommand "tech-a" c.version "recal-1" body₁
        → IsCommand "tech-a" revision.version "retest-1" body₂
        → IsCorrection c
            (record c { sensor_id = revision.id; version = retest.version })
            (posted c.batch_id "/recalibrations" body₁ 201 data₁
              ∷ queried c.batch_id ("/recalibrations/" <> revision.id <> "/tasks") data₂
              ∷ posted c.batch_id "/measurements" body₂ 201 data₃
              ∷ [])

  -- The approval by a reviewer and the issue by a third person.
  pub data IsRelease (c : Client) : Client → List Exchange → Type 0 where
    released_in_turn :
        (approved issued : MutationResult) (body₁ body₂ data₁ data₂ : String)
        → j.unmarshal_result data₁ ≡ ok approved
        → j.unmarshal_result data₂ ≡ ok issued
        → IsCommand "reviewer-b" c.version "review-1" body₁
        → IsCommand "deployer-c" approved.version "release-1" body₂
        → IsRelease c
            (record c { version = issued.version })
            (posted c.batch_id "/reviews" body₁ 200 data₁
              ∷ posted c.batch_id "/release" body₂ 201 data₂
              ∷ [])

  -- The credential, the verification of the id and the digest that were read from it, and four queries.
  pub data IsCheck (c : Client) : Client → List Exchange → Type 0 where
    checked_in_turn :
        (id digest body data₁ data₂ data₃ data₄ data₅ data₆ : String)
        → j.unmarshal_credential data₁ ≡ ok (id, digest)
        → j.marshal (
            ("credentialID", leaf (Leaf.text id)) ∷ ("contentDigest", leaf (Leaf.text digest)) ∷ [])
          ≡ ok body
        → IsCheck c c (
            queried c.batch_id "/credential" data₁
            ∷ posted c.batch_id "/credential:verify" body 200 data₂
            ∷ exchange "GET" "/v1/batches?stationCode=CN-SH-017&limit=10" none 200 data₃
            ∷ queried c.batch_id "" data₄
            ∷ queried c.batch_id "/findings" data₅
            ∷ queried c.batch_id "/audit" data₆
            ∷ [])

  -- The five parts, one after the other, on what the client knows of its batch.
  pub data IsScenario : List Exchange → Type 0 where
    in_order :
        (c₁ c₂ c₃ c₄ c₅ : Client) (xs ys zs us vs : List Exchange)
        → IsSetUp c₁ xs
        → IsSampling c₁ c₂ ys
        → IsCorrection c₂ c₃ zs
        → IsRelease c₃ c₄ us
        → IsCheck c₄ c₅ vs
        → IsScenario ((((xs ++ ys) ++ zs) ++ us) ++ vs)

module _ (w : Web) (j : ClientJson) where
  Logs-set_up : Logs (IsSetUp j) (set_up (recording w) j)
  unfolding set_up
  Logs-set_up = Logs-mutate_then w j _ _ _ _ _ _ λ created b₁ d₁ p₁ q₁.
      Logs-mutate_then w j _ _ _ _ _ _ λ sensor b₂ d₂ p₂ q₂.
        Logs-mutate_then w j _ _ _ _ _ _ λ locked b₃ d₃ p₃ q₃.
          Logs-pure _ _ (
            set_up_in_turn created sensor locked b₁ b₂ b₃ d₁ d₂ d₃ q₁ q₂ q₃ (_, p₁) (_, p₂) (_, p₃))

  Logs-sample : (c : Client) → Logs (IsSampling j c) (sample (recording w) j c)
  unfolding sample
  Logs-sample c = Logs-mutate_then w j _ _ _ _ _ _ λ bad b₁ d₁ p₁ q₁.
      Logs-mutate_then w j _ _ _ _ _ _ λ replayed b₂ d₂ p₂ q₂.
        Logs-mutate_then w j _ _ _ _ _ _ λ good b₃ d₃ p₃ q₃.
          Logs-expect_then w j _ _ _ _ _ _ _ λ b₄ d₄ p₄. Logs-pure _ _ (
            subst
              (λ b.
                IsSampling j c (record c { version = good.version })
                  (posted j c.batch_id "/measurements" b₁ 201 d₁
                    ∷ posted j c.batch_id "/measurements" b 201 d₂
                    ∷ posted j c.batch_id "/measurements:batch" b₃ 201 d₃
                    ∷ posted j c.batch_id "/reviews" b₄ 409 d₄
                    ∷ []))
              (ok-same b₂ b₁ _ p₂ p₁)
              (sampled_in_turn bad replayed good b₁ b₃ b₄ d₁ d₂ d₃ d₄ q₁ q₂ q₃ (_, p₁) (_, p₃)
                (_, p₄)))

  Logs-correct : (c : Client) → Logs (IsCorrection j c) (correct (recording w) j c)
  unfolding correct
  Logs-correct c = Logs-mutate_then w j _ _ _ _ _ _ λ revision b₁ d₁ p₁ q₁.
      Logs-query_then w j _ _ _ _ _ _ λ d₂. Logs-mutate_then w j _ _ _ _ _ _ λ retest b₃ d₃ p₃ q₃.
        Logs-pure _ _ (corrected_in_turn revision retest b₁ b₃ d₁ d₂ d₃ q₁ q₃ (_, p₁) (_, p₃))

  Logs-release : (c : Client) → Logs (IsRelease j c) (release (recording w) j c)
  unfolding release
  Logs-release c = Logs-mutate_then w j _ _ _ _ _ _ λ approved b₁ d₁ p₁ q₁.
      Logs-mutate_then w j _ _ _ _ _ _ λ issued b₂ d₂ p₂ q₂.
        Logs-pure _ _ (released_in_turn approved issued b₁ b₂ d₁ d₂ q₁ q₂ (_, p₁) (_, p₂))

  -- The four queries at the end.
  abbrev last_queries : Client → (data₁ data₂ data₃ data₄ : String) → List Exchange
  last_queries c data₁ data₂ data₃ data₄ =
      exchange "GET" "/v1/batches?stationCode=CN-SH-017&limit=10" none 200 data₁
      ∷ queried j c.batch_id "" data₂
      ∷ queried j c.batch_id "/findings" data₃
      ∷ queried j c.batch_id "/audit" data₄
      ∷ []

  abbrev AreLast : Client → Unit {0} → List Exchange → Type 0
  AreLast c u es =
      (data₁ data₂ data₃ data₄ : String) × (last_queries c data₁ data₂ data₃ data₄ ≡ es)

  Logs-get_all : (c : Client) → Logs (AreLast c) (get_all (recording w) j (last_paths c))
  unfolding get_all
  Logs-get_all c = Logs-query_then w j _ _ _ _ _ _ λ d₁. Logs-query_then w j _ _ _ _ _ _ λ d₂.
      Logs-query_then w j _ _ _ _ _ _
        λ d₃. Logs-query_then w j _ _ _ _ _ _ λ d₄. Logs-pure _ _ (d₁, d₂, d₃, d₄, refl)

  Logs-check_release : (c : Client) → Logs (IsCheck j c) (check_release (recording w) j c)
  unfolding check_release
  Logs-check_release c = Logs-query_then w j _ _ _ _ _ _ λ d₁.
      Logs-lift_then w j _ _ _ λ credential read. Logs-expect_then w j _ _ _ _ _ _ _ λ b d₂ p.
        Logs-bind (AreLast c) _ _ _ (Logs-get_all c) λ u es (d₃, d₄, d₅, d₆, same). Logs-pure _ _ (
          subst
            (λ xs. IsCheck j c c (
              queried j c.batch_id "/credential" d₁
                ∷ posted j c.batch_id "/credential:verify" b 200 d₂
                ∷ xs
              ++ []))
            same (checked_in_turn credential.0 credential.1 b d₁ d₂ d₃ d₄ d₅ d₆ read p))

  joined :
      (log l₁ l₂ l₃ l₄ done xs ys zs us vs : List Exchange)
      → l₁ ≡ log ++ xs
      → l₂ ≡ l₁ ++ ys
      → l₃ ≡ l₂ ++ zs
      → l₄ ≡ l₃ ++ us
      → done ≡ l₄ ++ vs
      → done ≡ log ++ ((((xs ++ ys) ++ zs) ++ us) ++ vs)
  joined log l₁ l₂ l₃ l₄ done xs ys zs us vs e₁ e₂ e₃ e₄ e₅ =
      rw (e₅, e₄, e₃, e₂, e₁) (simp (append_assoc))

  -- A run of the scenario that ends without an error.
  pub run-IsScenario :
      (s t : w.State) (log done : List Exchange) (c : Client)
      → run (recording w) j (s, log) ≡ ((t, done), ok c)
      → (es : List Exchange) × (done ≡ log ++ es) × IsScenario j es
  unfolding run
  run-IsScenario s t log done c passed =
      let r = recording w in
      let ((s₄, l₄), c₄, m₄, n₄) =
        continue-ok ((set_up r j >>= sample r j >>= correct r j >>= release r j) (s, log)) _
          (t, done) c passed in
      let ((s₃, l₃), c₃, m₃, n₃) =
        continue-ok ((set_up r j >>= sample r j >>= correct r j) (s, log)) _ (s₄, l₄) c₄ m₄ in
      let ((s₂, l₂), c₂, m₂, n₂) =
        continue-ok ((set_up r j >>= sample r j) (s, log)) _ (s₃, l₃) c₃ m₃ in
      let ((s₁, l₁), c₁, m₁, n₁) = continue-ok (set_up r j (s, log)) _ (s₂, l₂) c₂ m₂ in
      let (xs, e₁, h₁) = Logs-set_up.at s s₁ log l₁ c₁ m₁ in
      let (ys, e₂, h₂) = (Logs-sample c₁).at s₁ s₂ l₁ l₂ c₂ n₁ in
      let (zs, e₃, h₃) = (Logs-correct c₂).at s₂ s₃ l₂ l₃ c₃ n₂ in
      let (us, e₄, h₄) = (Logs-release c₃).at s₃ s₄ l₃ l₄ c₄ n₃ in
      let (vs, e₅, h₅) = (Logs-check_release c₄).at s₄ t l₄ done c n₄ in
      (
        (((xs ++ ys) ++ zs) ++ us) ++ vs,
        joined log l₁ l₂ l₃ l₄ done xs ys zs us vs e₁ e₂ e₃ e₄ e₅,
        in_order c₁ c₂ c₃ c₄ c xs ys zs us vs h₁ h₂ h₃ h₄ h₅,
      )
