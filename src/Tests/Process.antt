-- ===== src/Tests/Process.antt =====
-- The theorems on the process and on the files that it opens, applied.
use benzhi_project_fe3ad.Prelude.{◌≡◌, refl, true, String, [], ◌∷◌, is_blank}
use benzhi_project_fe3ad.Calibration.Errors.{ok, err, plain}
use benzhi_project_fe3ad.Ledger.Event.{Event}
use benzhi_project_fe3ad.JsonStore.Model.{replaced}
use benzhi_project_fe3ad.JsonStore.Commit.{unsealed}
use benzhi_project_fe3ad.JsonStore.Lines.{decode_json_lines}
use benzhi_project_fe3ad.JsonStore.Files.{
  FileJson, absent, holding, read_events, open_store, undecoded, open_store-useless,
}
use benzhi_project_fe3ad.Process.{World, signalled, run}
use benzhi_project_fe3ad.Process.Cleanup.{IsTidy, run-IsTidy}
use benzhi_project_fe3ad.Tests.Samples.{codec, empty_store, creation}

abbrev event : Event
event = record (unsealed 100 empty_store creation 1 "created" "answer") { digest = "#" }

-- A ledger of one line, beside a snapshot file that cannot be decoded.
abbrev json : FileJson
json = record {
  unmarshal_event = λ line. ok event;
  unmarshal_envelope = λ text. err (plain "invalid character 'b'");
}

open_store-useless_example :
    open_store json codec replaced "data"
      (ok tt)
      (record { ledger_file = holding ("{}" ∷ []); snapshot_text = holding "broken" })
    ≡ open_store json codec replaced "data"
        (ok tt)
        (record { ledger_file = holding ("{}" ∷ []); snapshot_text = absent })
unfolding read_events decode_json_lines is_blank
open_store-useless_example =
    open_store-useless json codec replaced "data" (ok tt) (holding ("{}" ∷ [])) (holding "broken")
      (event ∷ []) event refl refl (undecoded "broken" (plain "invalid character 'b'") refl)

-- A world in which the self-check fails.
abbrev failing : World String
failing = record {
  make_temp = ok "/tmp/selfcheck";
  open_store = λ dir. ok dir;
  listen = λ addr. ok tt;
  selfcheck = λ store. err (plain "timeout");
  stop = λ store. signalled (ok tt);
}

run-IsTidy_example : IsTidy failing "" true (run failing "127.0.0.1:19081" "" true []).0
run-IsTidy_example = run-IsTidy failing "127.0.0.1:19081" "" true
