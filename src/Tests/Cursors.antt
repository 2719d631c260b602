-- ===== src/Tests/Cursors.antt =====
-- A text of a cursor that can be read again: every part with its end marked.
use Prim.Native.Char.{Char, char, code}
use benzhi_project_fe3ad.Prelude.{
  ℕ, zero, suc, ◌==◌, false, ◌≡◌, refl, ap, ◌∙◌, String, Option, none, some, if◌then◌else◌,
  is_empty,
}
use benzhi_project_fe3ad.Workflow.WorkQueue.{BatchCursor, CursorCodec}

write_number : ℕ → String → String
write_number zero rest = String.◌∷◌ (char 46 tt) rest
write_number (suc n) rest = String.◌∷◌ (char 49 tt) (write_number n rest)

abbrev one_more : Option (ℕ × String) → Option (ℕ × String)
one_more none = none
one_more (some (n, rest)) = some (suc n, rest)

read_number : String → Option (ℕ × String)
read_number String.[] = none
read_number (String.◌∷◌ c s) =
    let more = one_more (read_number s) in if code c == 46 then some (0, s) else more

read-write_number : (n : ℕ) (rest : String) → read_number (write_number n rest) ≡ some (n, rest)
unfolding read_number write_number
read-write_number zero rest = refl
read-write_number (suc n) rest = ap one_more (read-write_number n rest)

write_text : String → String → String
write_text String.[] rest = String.◌∷◌ (char 46 tt) rest
write_text (String.◌∷◌ c s) rest = String.◌∷◌ (char 49 tt) (String.◌∷◌ c (write_text s rest))

abbrev with_char : Char → Option (String × String) → Option (String × String)
with_char c none = none
with_char c (some (s, rest)) = some (String.◌∷◌ c s, rest)

read_text : String → Option (String × String)
read_text String.[] = none
read_text (String.◌∷◌ mark String.[]) = if code mark == 46 then some ("", "") else none
read_text (String.◌∷◌ mark (String.◌∷◌ c s)) =
    let more = with_char c (read_text s) in
    if code mark == 46 then some ("", String.◌∷◌ c s) else more

read-write_text : (s rest : String) → read_text (write_text s rest) ≡ some (s, rest)
unfolding read_text write_text
read-write_text String.[] String.[] = refl
read-write_text String.[] (String.◌∷◌ c rest) = refl
read-write_text (String.◌∷◌ c s) rest = ap (with_char c) (read-write_text s rest)

read_batch_id : ℕ → Option (String × String) → Option BatchCursor
read_batch_id created_at none = none
read_batch_id created_at (some (batch_id, rest)) =
    some (record { created_at = created_at; batch_id = batch_id; filter_digest = rest })

read_parts : Option (ℕ × String) → Option BatchCursor
unfolding read_text read_batch_id
read_parts none = none
read_parts (some (created_at, rest)) = read_batch_id created_at (read_text rest)

unfoldable pub cursors : CursorCodec
unfolding write_number write_text read_number read_parts
cursors = record {
  encode = λ b. write_number b.created_at (write_text b.batch_id b.filter_digest);
  decode = λ text. read_parts (read_number text);
  digest = λ station status from to. station;
}

pub cursors-decode : (b : BatchCursor) → cursors.decode (cursors.encode b) ≡ some b
unfolding cursors read_parts read_batch_id
cursors-decode b =
    ap read_parts (read-write_number b.created_at (write_text b.batch_id b.filter_digest))
    ∙ ap (read_batch_id b.created_at) (read-write_text b.batch_id b.filter_digest)

write_number-is_empty : (n : ℕ) (rest : String) → is_empty (write_number n rest) ≡ false
unfolding write_number
write_number-is_empty zero rest = refl
write_number-is_empty (suc n) rest = refl

pub cursors-is_empty : (b : BatchCursor) → is_empty (cursors.encode b) ≡ false
unfolding cursors
cursors-is_empty b = write_number-is_empty b.created_at (write_text b.batch_id b.filter_digest)
