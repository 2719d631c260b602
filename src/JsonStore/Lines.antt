-- ===== src/JsonStore/Lines.antt =====
-- internal/storage/jsonstore/store.go: the lines of the ledger file. The scanner that cuts the file into
-- its lines, and the JSON of an event, are parameters.
use Prim.Native.String.{len}
use benzhi_project_fe3ad.Prelude.{
  ℕ, ◌*◌, leb, ltb, true, false, ◌≡◌, refl, ap, inl, inr, String, List, [], ◌∷◌, ◌++◌, is_blank,
  if◌then◌else◌, Bool-cases, arith,
}
use benzhi_project_fe3ad.Calibration.Errors.{
  Result, ok, err, ◌>>=◌, ◌>>◌, reject, plain, Result-cases,
}
use benzhi_project_fe3ad.Ledger.Event.{Event}

-- The scanner's buffer, which has to hold a line and its end.
abbrev pub max_line : ℕ
max_line = 32 * 1024 * 1024

module _ (unmarshal : String → Result Event) where
  unfoldable pub decode_json_lines : List String → Result (List Event)
  decode_json_lines [] = ok []
  decode_json_lines (line ∷ lines) =
      let rest = decode_json_lines lines in
      reject (leb max_line (len line)) (plain "bufio.Scanner: token too long")
      >> (if is_blank line
          then rest
          else (unmarshal line >>= λ event. rest >>= λ events. ok (event ∷ events)))

  -- What a readable first line leaves to the others.
  pub data FirstLine (l : String) (ls : List String) (events : List Event) : Type 0 where
    skipped :
        leb max_line (len l) ≡ false
        → is_blank l ≡ true
        → decode_json_lines ls ≡ ok events
        → FirstLine l ls events
    decoded :
        (e : Event) (es : List Event)
        → leb max_line (len l) ≡ false
        → is_blank l ≡ false
        → unmarshal l ≡ ok e
        → decode_json_lines ls ≡ ok es
        → e ∷ es ≡ events
        → FirstLine l ls events

  first_line :
      (l : String) (ls : List String) (events : List Event)
      → decode_json_lines (l ∷ ls) ≡ ok events
      → FirstLine l ls events
  unfolding decode_json_lines
  first_line l ls events known = elim (Bool-cases (leb max_line (len l))) [
    | inl long ↦ absurd (ground arith)
    | inr short ↦ elim (Bool-cases (is_blank l)) [
      | inl blank ↦ skipped short blank (ground arith)
      | inr filled ↦ elim (Result-cases (unmarshal l)) [
        | inr (failure, q) ↦ absurd (ground arith)
        | inl (e, q) ↦ elim (Result-cases (decode_json_lines ls)) [
          | inr (failure, q') ↦ absurd (ground arith)
          | inl (es, q') ↦ decoded e es short filled q q' (ground arith)
        ]
      ]
    ]
  ]

  -- A line that is not blank and shorter than the scanner's buffer, behind a file that can be read, adds
  -- the event that it decodes to, behind the others.
  pub decode_json_lines-append :
      (lines : List String) (events : List Event) (line : String) (event : Event)
      → decode_json_lines lines ≡ ok events
      → ltb (len line) max_line ≡ true
      → is_blank line ≡ false
      → unmarshal line ≡ ok event
      → decode_json_lines (lines ++ line ∷ []) ≡ ok (events ++ event ∷ [])
  unfolding decode_json_lines
  decode_json_lines-append [] events line event known short filled read = ground arith
  decode_json_lines-append (l ∷ ls) events line event known short filled read =
      elim (first_line l ls events known) [
        | skipped fits blank rest ↦
            rw (fits, blank) (decode_json_lines-append ls events line event rest short filled read)
        | decoded e es fits full q rest same ↦
            rw (fits, full, q, decode_json_lines-append ls es line event rest short filled read)
              (ap (λ xs. ok (xs ++ event ∷ [])) same)
      ]

  -- A line as long as the scanner's buffer or longer, behind a file that can be read, makes the whole
  -- file unreadable.
  pub decode_json_lines-too_long :
      (lines : List String) (events : List Event) (line : String)
      → decode_json_lines lines ≡ ok events
      → leb max_line (len line) ≡ true
      → decode_json_lines (lines ++ line ∷ []) ≡ err (plain "bufio.Scanner: token too long")
  unfolding decode_json_lines
  decode_json_lines-too_long [] events line known long = rw long refl
  decode_json_lines-too_long (l ∷ ls) events line known long = elim (first_line l ls events known) [
    | skipped fits blank rest ↦
        rw (fits, blank) (decode_json_lines-too_long ls events line rest long)
    | decoded e es fits full q rest same ↦
        rw (fits, full, q, decode_json_lines-too_long ls es line rest long) refl
  ]
