-- ===== src/Process.antt =====
-- cmd/server/main.go: the start and the end of the process. What the operating system, the store and
-- the server do is a parameter.
use Prim.Native.String.{◌++◌ as ◌<>◌}
use benzhi_project_fe3ad.Prelude.{
  ◌≡◌, refl, Bool, true, false, not, String, List, [], ◌∷◌, ◌++◌, is_empty, if◌then◌else◌,
}
use benzhi_project_fe3ad.Calibration.Errors.{Error, plain, Result, ok, err}
use benzhi_project_fe3ad.Exec.{Exec, ◌>>=◌, lift}
pub mod Cleanup

-- `defaultAddr`, from the variable PORT.
unfoldable pub default_addr : String → String
default_addr port = if not (is_empty port) then "127.0.0.1:" <> port else "127.0.0.1:19081"

-- What the process does to its surroundings, in order.
pub data Effect : Type 0 where
  made_temp made_dir opening listening removed : String → Effect
  checking serving shutting_down : Effect

-- The end of the `select`: a signal, and what the shutdown returns; or an error of `Serve`, with
-- whether it is `ErrServerClosed`.
pub data Stop : Type 0 where
  signalled : (shutdown : Result (Unit {0})) → Stop
  ended : Error → (closed : Bool) → Stop

pub record World (S : Type 0) : Type 0 where
  pub make_temp : Result String
  pub open_store : String → Result S
  pub listen : String → Result (Unit {0})
  pub selfcheck : S → Result (Unit {0})
  pub stop : S → Stop

abbrev pub note : Effect → Exec (List Effect) (Unit {0})
note e log = (log ++ e ∷ [], ok tt)

abbrev pub stopped : Stop → Exec (List Effect) (Unit {0})
stopped (signalled shutdown) = note shutting_down >>= λ noted. lift shutdown
stopped (ended e true) = lift (ok tt)
stopped (ended e false) = lift (err e)

module _ {S : Type 0} (w : World S) (addr : String) where
  abbrev pub finish : Bool → S → Exec (List Effect) (Unit {0})
  finish true store = note checking >>= λ noted. lift (w.selfcheck store)
  finish false store = note serving >>= λ noted. stopped (w.stop store)

  -- From the store on, in a directory. `jsonstore.Open` begins with `os.MkdirAll`, which makes the
  -- directory where there is none.
  unfoldable pub run_in : (selfcheck : Bool) → (dir : String) → Exec (List Effect) (Unit {0})
  run_in selfcheck dir = do
    noted ← note (made_dir dir)
    noted ← note (opening dir)
    store ← lift (w.open_store dir)
    noted ← note (listening addr)
    listener ← lift (w.listen addr)
    finish selfcheck store

  -- The deferred `cleanup`, which runs whatever is returned.
  abbrev pub cleaned : String → List Effect × Result (Unit {0}) → List Effect × Result (Unit {0})
  cleaned tmp (log, r) = (log ++ removed tmp ∷ [], r)

  abbrev pub run_in_temp : Result String → List Effect → List Effect × Result (Unit {0})
  run_in_temp (err e) log = (log, err e)
  run_in_temp (ok tmp) log = cleaned tmp (run_in true tmp (log ++ made_temp tmp ∷ []))

  -- `filepath.Join(".", "data")` is "data".
  unfoldable pub run : (data_dir : String) → (selfcheck : Bool) → Exec (List Effect) (Unit {0})
  run data_dir selfcheck log =
      if is_empty addr
      then (log, err (plain "监听地址不能为空"))
      else if not (is_empty data_dir)
      then run_in selfcheck data_dir log
      else if selfcheck
      then run_in_temp w.make_temp log
      else run_in false "data" log
