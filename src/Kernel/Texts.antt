-- ===== src/Kernel/Texts.antt =====
-- Python's `str.split`, `str.strip` and `str.lstrip`, as the code calls them, on the code points of
-- the text.
use Prim.Native.Char.{Char, code}
use Prim.Native.String.{String}
use text.Mathlib.TextLemmas.{nil-append, cons-append}
use api_template.Base.{
  ℕ, text_append, Bool, true, false, ◌||◌, ◌&&◌, List, ◌∷◌, ◌==◌, leb, ◌≡◌, refl, starts_with,
  if◌then◌else◌,
}

-- `s.split(sep)[0]`
unfoldable pub before_separator : (sep : String) → String → String
before_separator sep String.[] = String.[]
before_separator sep (String.◌∷◌ c s) =
    let rest = before_separator sep s in
    if starts_with (String.◌∷◌ c s) sep then String.[] else String.◌∷◌ c rest

-- A character before the first part of a split.
abbrev pub onto_first : Char → List String → List String
onto_first c List.[] = String.◌∷◌ c String.[] ∷ List.[]
onto_first c (part ∷ parts) = String.◌∷◌ c part ∷ parts

-- `s.split(",")`
unfoldable pub split_comma : String → List String
split_comma String.[] = String.[] ∷ List.[]
split_comma (String.◌∷◌ c s) =
    let rest = split_comma s in if code c == b',' then String.[] ∷ rest else onto_first c rest

-- `s.split(" ")`
unfoldable pub split_space : String → List String
split_space String.[] = String.[] ∷ List.[]
split_space (String.◌∷◌ c s) =
    let rest = split_space s in if code c == b' ' then String.[] ∷ rest else onto_first c rest

-- What Python takes for white space.
unfoldable pub is_space : ℕ → Bool
is_space n =
    leb 9 n && leb n 13
    || leb 28 n && leb n 32
    || n == 133
    || n == 160
    || n == 5760
    || leb 8192 n && leb n 8202
    || n == 8232
    || n == 8233
    || n == 8239
    || n == 8287
    || n == 12288

unfoldable pub strip_left : String → String
unfolding is_space
strip_left String.[] = String.[]
strip_left (String.◌∷◌ c s) =
    let rest = strip_left s in if is_space (code c) then rest else String.◌∷◌ c s

unfoldable pub is_empty : String → Bool
is_empty String.[] = true
is_empty (String.◌∷◌ c s) = false

unfoldable pub strip_right : String → String
unfolding is_space is_empty
strip_right String.[] = String.[]
strip_right (String.◌∷◌ c s) =
    let rest = strip_right s in
    if is_empty rest && is_space (code c) then String.[] else String.◌∷◌ c rest

unfoldable pub strip : String → String
unfolding strip_left strip_right
strip s = strip_right (strip_left s)

-- `s.lstrip("-")`
unfoldable pub lstrip_dash : String → String
lstrip_dash String.[] = String.[]
lstrip_dash (String.◌∷◌ c s) =
    let rest = lstrip_dash s in if code c == b'-' then rest else String.◌∷◌ c s

-- No comma in a text.
abbrev pub CommaFree : String → Type 0
CommaFree String.[] = Unit
CommaFree (String.◌∷◌ c s) = ((code c == b',') ≡ false) × CommaFree s

pub split_comma-alone : (s : String) → CommaFree s → split_comma s ≡ s ∷ List.[]
unfolding split_comma
split_comma-alone String.[] h = refl
split_comma-alone (String.◌∷◌ c s) h = rw (h.0, split_comma-alone s h.1) refl

pub split_comma-join :
    (s t : String)
    → CommaFree s
    → split_comma (text_append s (text_append "," t)) ≡ s ∷ split_comma t
unfolding split_comma
split_comma-join String.[] t h = rw (nil-append, cons-append, nil-append) refl
split_comma-join (String.◌∷◌ c s) t h = rw (cons-append, h.0, split_comma-join s t h.1) refl
