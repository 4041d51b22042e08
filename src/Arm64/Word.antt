-- ===== src/Arm64/Word.antt =====
-- `int` and `int32_t` as 32-bit patterns: the operations of the back end that see the sign.
use temp_esas.Prelude.{ℕ, ◌+◌, ◌-◌, ◌/◌, ◌%◌, ◌^◌, ltb, if◌then◌else◌}

-- `a - b` on `int32_t`.
abbrev pub sub32 : ℕ → ℕ → ℕ
sub32 a b = (a + 2 ^ 32 - b) % 2 ^ 32

-- `a >> k` on `int32_t`: the sign bit is copied.
abbrev pub asr32 : ℕ → ℕ → ℕ
asr32 a k = if ltb a (2 ^ 31) then a / 2 ^ k else 2 ^ 32 - 1 - (2 ^ 32 - 1 - a) / 2 ^ k

-- `a / d` on `int32_t` for a positive `d`: towards zero.
abbrev pub quot32 : ℕ → ℕ → ℕ
quot32 a d = if ltb a (2 ^ 31) then a / d else (2 ^ 32 - (2 ^ 32 - a) / d) % 2 ^ 32
