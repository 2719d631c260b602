-- ===== src/Tests/Lines.antt =====
-- The theorems on the lines of the ledger file, applied.
use Prim.Native.String.{len, ◌++◌ as str_append}
use text.Mathlib.TextPositions.{len-append}
use benzhi_project_fe3ad.Prelude.{
  ℕ, zero, suc, ◌^◌, ◌≡◌, refl, leb, true, String, [], ◌∷◌, is_blank, arith,
}
use benzhi_project_fe3ad.Calibration.Errors.{ok, err, plain}
use benzhi_project_fe3ad.Ledger.Event.{Event}
use benzhi_project_fe3ad.JsonStore.Commit.{unsealed}
use benzhi_project_fe3ad.JsonStore.Lines.{
  max_line, decode_json_lines, decode_json_lines-append, decode_json_lines-too_long,
}
use benzhi_project_fe3ad.Tests.Samples.{empty_store, creation}

abbrev event : Event
event = unsealed 100 empty_store creation 1 "created" "answer"

decode_json_lines-append_example :
    decode_json_lines (λ line. ok event) ("{}" ∷ "" ∷ "{}" ∷ []) ≡ ok (event ∷ event ∷ [])
unfolding decode_json_lines is_blank
decode_json_lines-append_example =
    decode_json_lines-append (λ line. ok event) ("{}" ∷ "" ∷ []) (event ∷ []) "{}" event refl refl
      refl refl

-- A text of 2 ^ n bytes.
long_text : ℕ → String
long_text zero = "x"
long_text (suc n) = str_append (long_text n) (long_text n)

len-long_text : (n : ℕ) → len (long_text n) ≡ 2 ^ n
unfolding long_text
len-long_text zero = refl
len-long_text (suc n) =
    let ih = len-long_text n in
    let twice = len-append (long_text n) (long_text n) in omega (arith, ih, twice)

long_text-max : leb max_line (len (long_text 25)) ≡ true
long_text-max = rw (len-long_text 25) refl

decode_json_lines-too_long_example :
    decode_json_lines (λ line. ok event) ("{}" ∷ long_text 25 ∷ [])
    ≡ err (plain "bufio.Scanner: token too long")
unfolding decode_json_lines is_blank
decode_json_lines-too_long_example =
    decode_json_lines-too_long (λ line. ok event) ("{}" ∷ []) (event ∷ []) (long_text 25) refl
      long_text-max
