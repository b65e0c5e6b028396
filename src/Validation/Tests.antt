-- ===== src/Validation/Tests.antt =====
-- The checks of `basekernel/kernel/is_valid.c` on short strings.
use stage_os.Base.{ℕ, List, [], ◌∷◌}

abbrev slash_a : List ℕ
slash_a = b'/' ∷ b'a' ∷ []

abbrev tag_b : List ℕ
tag_b = b'_' ∷ b'B' ∷ []
