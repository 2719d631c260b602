-- ===== src/Process/Cleanup.antt =====
-- cmd/server/main.go: the directory of a self-check, and its removal.
use benzhi_project_fe3ad.Prelude.{
  ◌≡◌, refl, sym, ap, ◌∙◌, subst, Bool, true, false, String, List, [], ◌∷◌, ◌++◌, All, is_empty,
  inl, inr, Bool-cases, if◌then◌else◌,
}
use mathlib.Core.List.{append-nil, append_assoc}
use benzhi_project_fe3ad.Calibration.Errors.{Result, ok, err}
use benzhi_project_fe3ad.Process.{
  Effect, made_temp, removed, opening, listening, World, run, run_in, run_in_temp, Stop, signalled,
  ended, finish, stopped, note,
}
use benzhi_project_fe3ad.Exec.{Exec, ◌>>=◌, lift, continue}

-- Neither the making of a temporary directory nor a removal.
abbrev pub leaves_alone : Effect → Bool
leaves_alone (made_temp dir) = false
leaves_alone (removed dir) = false
leaves_alone _ = true

-- What a run has done: nothing of either; or it has made a temporary directory, worked there, and
-- removed it at the end.
pub data IsTidy {S : Type 0} (w : World S) (data_dir : String) (selfcheck : Bool)
    : List Effect → Type 0 where
  untouched :
      (es : List Effect) → All (λ e. leaves_alone e ≡ true) es → IsTidy w data_dir selfcheck es
  temporary :
      (tmp : String) (es done : List Effect)
      → is_empty data_dir ≡ true
      → selfcheck ≡ true
      → w.make_temp ≡ ok tmp
      → All (λ e. leaves_alone e ≡ true) es
      → done ≡ made_temp tmp ∷ es ++ removed tmp ∷ []
      → IsTidy w data_dir selfcheck done

All-append {ℓ κ} :
    {A : Type ℓ} (P : A → Type κ) (xs ys : List A) → All P xs → All P ys → All P (xs ++ ys)
All-append P [] ys h k = k
All-append P (x ∷ xs) ys h k = (h.0, All-append P xs ys h.1 k)

-- A step that adds such effects to the log, also where it ends in an error.
record LeavesAlone {ℓ} {A : Type ℓ} (m : Exec (List Effect) A) : Type ℓ where
  adds :
      (log : List Effect)
      → (es : List Effect) × All (λ e. leaves_alone e ≡ true) es × ((m log).0 ≡ log ++ es)

note-LeavesAlone : (e : Effect) → leaves_alone e ≡ true → LeavesAlone (note e)
note-LeavesAlone e alone = record { adds = λ log. (e ∷ [], (alone, tt), refl) }

lift-LeavesAlone {ℓ} : {A : Type ℓ} (r : Result A) → LeavesAlone (lift r)
lift-LeavesAlone r = record { adds = λ log. ([], tt, sym (append-nil log)) }

continue-LeavesAlone {ℓ κ} :
    {A : Type ℓ} {B : Type κ} (log : List Effect) (r : Result A) (next : A → Exec (List Effect) B)
    → ((a : A) → LeavesAlone (next a))
    → (es : List Effect) × All (λ e. leaves_alone e ≡ true) es
      × ((continue (log, r) next).0 ≡ log ++ es)
continue-LeavesAlone log (err e) next others = ([], tt, sym (append-nil log))
continue-LeavesAlone log (ok a) next others = (others a).adds log

bind-LeavesAlone {ℓ κ} :
    {A : Type ℓ} {B : Type κ} (m : Exec (List Effect) A) (next : A → Exec (List Effect) B)
    → LeavesAlone m
    → ((a : A) → LeavesAlone (next a))
    → LeavesAlone (m >>= next)
bind-LeavesAlone m next first others = record {
  adds = λ log.
      let (es, alone, begun) = first.adds log in
      let (fs, alone', rest) = continue-LeavesAlone (m log).0 (m log).1 next others in
      (
        es ++ fs,
        All-append _ es fs alone alone',
        rest ∙ ap (λ l. l ++ fs) begun ∙ append_assoc log es fs,
      );
}

module _ {S : Type 0} (w : World S) (addr : String) where
  stopped-LeavesAlone : (s : Stop) → LeavesAlone (stopped s)
  stopped-LeavesAlone (signalled shutdown) =
      bind-LeavesAlone _ _ (note-LeavesAlone _ refl) λ noted. lift-LeavesAlone shutdown
  stopped-LeavesAlone (ended e true) = lift-LeavesAlone _
  stopped-LeavesAlone (ended e false) = lift-LeavesAlone _

  finish-LeavesAlone : (selfcheck : Bool) (store : S) → LeavesAlone (finish w addr selfcheck store)
  finish-LeavesAlone true store =
      bind-LeavesAlone _ _ (note-LeavesAlone _ refl) λ noted. lift-LeavesAlone (w.selfcheck store)
  finish-LeavesAlone false store =
      bind-LeavesAlone _ _ (note-LeavesAlone _ refl) λ noted. stopped-LeavesAlone (w.stop store)

  run_in-LeavesAlone : (selfcheck : Bool) (dir : String) → LeavesAlone (run_in w addr selfcheck dir)
  unfolding run_in
  run_in-LeavesAlone selfcheck dir = bind-LeavesAlone _ _ (note-LeavesAlone _ refl) λ made.
      bind-LeavesAlone _ _ (note-LeavesAlone (opening dir) refl) λ noted.
        bind-LeavesAlone _ _ (lift-LeavesAlone (w.open_store dir)) λ store.
          bind-LeavesAlone _ _ (note-LeavesAlone (listening addr) refl) λ noted.
            bind-LeavesAlone _ _ (lift-LeavesAlone (w.listen addr))
              λ listener. finish-LeavesAlone selfcheck store

  run_in_temp-IsTidy :
      (data_dir : String) (made : Result String)
      → is_empty data_dir ≡ true
      → w.make_temp ≡ made
      → IsTidy w data_dir true (run_in_temp w addr made []).0
  run_in_temp-IsTidy data_dir (err e) none_given failed = untouched [] tt
  run_in_temp-IsTidy data_dir (ok tmp) none_given found =
      let (es, alone, worked) = (run_in-LeavesAlone true tmp).adds (made_temp tmp ∷ []) in
      temporary tmp es _ none_given refl found alone (ap (λ l. l ++ removed tmp ∷ []) worked)

  run_in-IsTidy :
      (data_dir : String) (selfcheck given : Bool) (dir : String)
      → IsTidy w data_dir selfcheck (run_in w addr given dir []).0
  run_in-IsTidy data_dir selfcheck given dir =
      let (es, alone, worked) = (run_in-LeavesAlone given dir).adds [] in
      subst (IsTidy w data_dir selfcheck) (sym worked) (untouched es alone)

  run_default-IsTidy :
      (data_dir : String) (selfcheck : Bool)
      → is_empty data_dir ≡ true
      → IsTidy w data_dir selfcheck
          (if selfcheck then run_in_temp w addr w.make_temp [] else run_in w addr false "data" []).0
  run_default-IsTidy data_dir true none_given =
      run_in_temp-IsTidy data_dir w.make_temp none_given refl
  run_default-IsTidy data_dir false none_given = run_in-IsTidy data_dir false false "data"

  -- Whatever fails, a run makes no temporary directory and removes none at all; or, for a self-check
  -- that was given no directory, it makes a temporary one as its first effect and removes that one as
  -- its last, and makes and removes no other such directory.
  pub run-IsTidy :
      (data_dir : String) (selfcheck : Bool)
      → IsTidy w data_dir selfcheck (run w addr data_dir selfcheck []).0
  unfolding run
  run-IsTidy data_dir selfcheck = elim (Bool-cases (is_empty addr)) [
    | inl nowhere ↦ rw nowhere (untouched [] tt)
    | inr somewhere ↦ elim (Bool-cases (is_empty data_dir)) [
      | inr given ↦ rw (somewhere, given) (run_in-IsTidy data_dir selfcheck selfcheck data_dir)
      | inl none_given ↦
          rw (somewhere, none_given) (run_default-IsTidy data_dir selfcheck none_given)
    ]
  ]
