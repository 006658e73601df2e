-- ===== src/Schemas/Secrets.antt =====
-- The secrets that app/schemas/auth.py accepts, and the bytes that app/core/security.py makes of
-- them.
use pstu_hack_final.Common.{
  ℕ, zero, suc, ◌+◌, ◌*◌, ◌≤◌, ◌<◌, ◌≡◌, refl, true, [], ◌∷◌, arith, ltb, if◌then◌else◌, length,
  All,
}
use pstu_hack_final.Common.Text.{repeated, Text}
use pstu_hack_final.Common.White.{strip-ink, IsInk}
use pstu_hack_final.Schemas.{is_password}

-- The number of bytes of one character in UTF-8.
abbrev pub utf8_bytes : ℕ → ℕ
utf8_bytes c = if ltb c 128 then 1 else if ltb c 2048 then 2 else if ltb c 65536 then 3 else 4

-- `len(raw.encode("utf-8"))`
unfoldable pub utf8_length : Text → ℕ
utf8_length [] = 0
utf8_length (c ∷ s) = utf8_bytes c + utf8_length s

utf8_length-le : (s : Text) → utf8_length s ≤ 4 * length s
unfolding utf8_length
utf8_length-le [] = omega arith
utf8_length-le (c ∷ s) = ground (arith, utf8_length-le s)

length-repeated : (n c : ℕ) → length (repeated n c) ≡ n
length-repeated zero c = refl
length-repeated (suc n) c = omega (arith, length-repeated n c)

repeated-IsInk : (n c : ℕ) → IsInk c → All IsInk (repeated n c)
repeated-IsInk zero c h = tt
repeated-IsInk (suc n) c h = (h, repeated-IsInk n c h)

utf8_length-repeated : (n c : ℕ) → 128 ≤ c → c < 2048 → utf8_length (repeated n c) ≡ 2 * n
unfolding utf8_length
utf8_length-repeated zero c l h = omega arith
utf8_length-repeated (suc n) c l h = ground (arith, utf8_length-repeated n c l h)

-- An accepted password has at most four times 72 bytes.
pub utf8_length-is_password_le : (s : Text) → is_password s ≡ true → utf8_length s ≤ 288
unfolding is_password
utf8_length-is_password_le s h = ground (arith, utf8_length-le s)

-- The limit of 72 is on characters: 37 to 72 copies of any two-byte character other than a space are an accepted password of more than 72 bytes.
pub is_password-long :
    (n c : ℕ)
    → 37 ≤ n
    → n ≤ 72
    → 128 ≤ c
    → c < 2048
    → IsInk c
    → (is_password (repeated n c) ≡ true) × (72 < utf8_length (repeated n c))
unfolding is_password
is_password-long n c a b l h i =
    let long = length-repeated n c in
    let bytes = utf8_length-repeated n c l h in
    rw (strip-ink (repeated n c) (repeated-IsInk n c i))
      (ground (arith, long), omega (arith, bytes))
