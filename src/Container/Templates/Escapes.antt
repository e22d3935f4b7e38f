-- ===== src/Container/Templates/Escapes.antt =====
-- sqlinit.go: when a text stands in a file as it was given.
use zygote.Common.{ℕ, ◌≢◌}

-- A byte that HTML does not give a meaning, and is not the plus sign.
abbrev pub Plain : ℕ → Type 0
Plain c = (c ≢ 0) × (c ≢ b'"') × (c ≢ b'&') × (c ≢ b'\'') × (c ≢ b'+') × (c ≢ b'<') × (c ≢ b'>')
