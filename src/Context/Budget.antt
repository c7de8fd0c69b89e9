-- ===== src/Context/Budget.antt =====
-- budget.py: the token estimate.
use auditable_scientific_age.Prelude.{ℕ, ◌/◌, String, max, length}
use auditable_scientific_age.Prelude.Text.{codes}

-- Empty content counts 1 too, by the same formula as in the source's early return.
abbrev tokens_of_length : ℕ → ℕ
tokens_of_length n = max 1 (n / 4)

unfoldable pub estimate_tokens : String → ℕ
estimate_tokens String.[] = 1
estimate_tokens (String.◌∷◌ c s) = tokens_of_length (length (codes (String.◌∷◌ c s)))
