-- ===== src/Prelude/Words.antt =====
-- Saturating arithmetic on the machine's unsigned integers.
use agent_runtime_sdk.Prelude.{ℕ, ◌+◌, ◌*◌, leb, if◌then◌else◌}

abbrev pub u64_max : ℕ
u64_max = 18446744073709551615

-- `usize` on the supported 64-bit targets.
abbrev pub usize_max : ℕ
usize_max = 18446744073709551615

abbrev pub u32_max : ℕ
u32_max = 4294967295

abbrev pub u8_max : ℕ
u8_max = 255

abbrev pub saturating_add : ℕ → ℕ → ℕ → ℕ
saturating_add limit a b = if leb (a + b) limit then a + b else limit

abbrev pub saturating_mul : ℕ → ℕ → ℕ → ℕ
saturating_mul limit a b = if leb (a * b) limit then a * b else limit
