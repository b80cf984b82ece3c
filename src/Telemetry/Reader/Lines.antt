-- ===== src/Telemetry/Reader/Lines.antt =====
-- The lines of a text that comes in parts, and their events.
use api_template.Base.{
  ℕ, String, true, false, Bool-cases, List, [], ◌∷◌, ◌++◌, Option, none, some, ◌≡◌, ◌≤◌, ◌<◌, refl,
  ap, ◌∙◌, inl, inr, length, drop, leb, ◌==◌, arith,
}
use api_template.Telemetry.Composer.{TelemetryEvent}
use api_template.Telemetry.Reader.{
  Bytes, newline, longer, split, Decoder, parse_line, keep, parse_lines,
}

longer-append :
    (b : ℕ) (lines : List Bytes) (last ys : Bytes)
    → (b == newline) ≡ false
    → longer b (lines ++ (split (last ++ ys)).lines) (split (last ++ ys)).last ≡ record {
      lines = (longer b lines last).lines ++ (split ((longer b lines last).last ++ ys)).lines;
      last = (split ((longer b lines last).last ++ ys)).last;
    }
unfolding split
longer-append b [] last ys e = rw e refl
longer-append b (line ∷ lines) last ys e = refl

-- Splitting what was left over, with what comes after it, goes on where it had stopped.
pub split-append :
    (xs ys : Bytes)
    → split (xs ++ ys) ≡ record {
      lines = (split xs).lines ++ (split ((split xs).last ++ ys)).lines;
      last = (split ((split xs).last ++ ys)).last;
    }
unfolding split
split-append [] ys = refl
split-append (b ∷ bs) ys = elim (Bool-cases (b == newline)) [
  | inl e ↦ rw (e, split-append bs ys) refl
  | inr e ↦ rw (e, split-append bs ys) (longer-append b (split bs).lines (split bs).last ys e)
]

pub drop-length : {A : Type 0} (xs ys : List A) → drop (length xs) (xs ++ ys) ≡ ys
drop-length [] ys = refl
drop-length (x ∷ xs) ys = drop-length xs ys

pub leb_all : (n m : ℕ) → m ≤ n → leb m n ≡ true
leb_all n m h = ground arith

pub leb_less : (n m : ℕ) → n < m → leb m n ≡ false
leb_less n m h = ground arith

keep-append :
    (e : Option TelemetryEvent) (xs ys : List TelemetryEvent) → keep e (xs ++ ys) ≡ keep e xs ++ ys
keep-append none xs ys = refl
keep-append (some e) xs ys = refl

pub parse_lines-append :
    (decoder : Decoder) (service : String) (xs ys : List Bytes)
    → parse_lines decoder service (xs ++ ys)
      ≡ parse_lines decoder service xs ++ parse_lines decoder service ys
unfolding parse_lines
parse_lines-append decoder service [] ys = refl
parse_lines-append decoder service (x ∷ xs) ys =
    ap (keep (parse_line decoder service x)) (parse_lines-append decoder service xs ys)
    ∙ keep-append (parse_line decoder service x) (parse_lines decoder service xs)
        (parse_lines decoder service ys)
