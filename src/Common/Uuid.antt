-- ===== src/Common/Uuid.antt =====
-- The text of a UUID, as Python's `str` writes it.
use Prim.Native.Nat.{ℕ, zero, suc, ◌+◌, ◌/◌, ◌%◌}
use mathlib.Core.List.{[], ◌∷◌, ◌++◌}
use pstu_hack_final.Common.Booleans.{ltb, if◌then◌else◌}
use pstu_hack_final.Common.Text.{Text, codes}

-- The 32 hexadecimal digits of an identifier, in groups of 8, 4, 4, 4 and 12.
abbrev hex_digit : ℕ → ℕ
hex_digit n = if ltb n 10 then 48 + n else 87 + n

hex : ℕ → ℕ → Text
hex zero n = []
hex (suc k) n = hex k (n / 16) ++ (hex_digit (n % 16) ∷ [])

unfoldable pub uuid_text : ℕ → Text
unfolding hex
uuid_text n =
    hex 8 (n / 79228162514264337593543950336)
    ++ codes "-"
    ++ hex 4 (n / 1208925819614629174706176)
    ++ codes "-"
    ++ hex 4 (n / 18446744073709551616)
    ++ codes "-"
    ++ hex 4 (n / 281474976710656)
    ++ codes "-"
    ++ hex 12 n
