-- ===== src/Filtering/Meta/Split.antt =====
-- The two ends of a range, written with a comma between them, are read back.
use api_template.Base.{String, text_append, ◌≡◌, refl, false, Option, none, some, List, ◌∷◌}
use api_template.Kernel.Texts.{strip, is_empty, CommaFree, split_comma-alone, split_comma-join}
use api_template.Filtering.Meta.{raw_text, parts, endpoint_text, split_range}

-- The text of a range: what stands for each end, with a comma between them.
abbrev pub end_text : Option String → String
end_text none = ""
end_text (some s) = s

abbrev pub range_text : Option String → Option String → String
range_text low high = text_append (end_text low) (text_append "," (end_text high))

-- A text that can stand for an end: no comma in it, no white space around it, and not empty.
abbrev pub Readable : Option String → Type 0
Readable none = Unit
Readable (some s) = CommaFree s × (strip s ≡ s) × (is_empty s ≡ false)

endpoint_text-lem : (x : Option String) → Readable x → endpoint_text (end_text x) ≡ x
unfolding endpoint_text
endpoint_text-lem none h = refl
endpoint_text-lem (some s) h = rw (h.1, h.2) refl

end_text-CommaFree : (x : Option String) → Readable x → CommaFree (end_text x)
end_text-CommaFree none h = tt
end_text-CommaFree (some s) h = h.0

-- A range written as text, with the texts of its ends trimmed and free of commas and either of them
-- left out, is split into these ends, None for one that is left out.
pub split_range-range_text :
    (low high : Option String)
    → Readable low
    → Readable high
    → split_range (raw_text (range_text low high)) ≡ parts (low ∷ high ∷ List.[])
unfolding split_range
split_range-range_text low high p q =
    rw
      (
        split_comma-join (end_text low) (end_text high) (end_text-CommaFree low p),
        split_comma-alone (end_text high) (end_text-CommaFree high q),
        endpoint_text-lem low p,
        endpoint_text-lem high q,
      )
      refl
