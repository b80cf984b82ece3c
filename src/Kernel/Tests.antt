-- ===== src/Kernel/Tests.antt =====
-- Concrete results that are merged.
use api_template.Base.{ℕ, List, [], ◌∷◌}
use api_template.Kernel.Result.{Result, ok, err, ErrorValue, one, sequence}

abbrev several : List (Result ℕ (ErrorValue ℕ))
several = err (one 4) ∷ ok 1 ∷ err (sequence (5 ∷ 6 ∷ [])) ∷ []
