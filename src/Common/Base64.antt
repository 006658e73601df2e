-- ===== src/Common/Base64.antt =====
-- Python's `base64.urlsafe_b64encode` and `urlsafe_b64decode`, and `str.rstrip` of one character.
pub mod RoundTrip
use Prim.Native.Nat.{ℕ, zero, suc, ◌+◌, ◌-◌, ◌*◌, ◌/◌, ◌%◌, ◌<◌}
use mathlib.Core.Path.{◌≡◌, refl, ap, ◌∙◌}
use mathlib.Core.Bool.{false, ◌&&◌}
use mathlib.Core.Option.{Option, none, some}
use mathlib.Core.List.{List, [], ◌∷◌, ◌++◌}
use native.Mathlib.Omega.{arith}
use pstu_hack_final.Common.Booleans.{ltb, leb, ◌==◌, if◌then◌else◌}
use pstu_hack_final.Common.Lists.{length, All}
use pstu_hack_final.Common.Text.{Text, repeated}

-- The letter of six bits.
abbrev pub letter_of : ℕ → ℕ
letter_of n =
    if ltb n 26
    then 65 + n
    else if ltb n 52
    then 71 + n
    else if ltb n 62
    then n - 4
    else if n == 62
    then 45
    else 95

-- The six bits of a letter; `+` and `/` stand for `-` and `_` too, and any other character for none.
unfoldable pub bits_of : ℕ → Option ℕ
bits_of c =
    if leb 65 c && leb c 90
    then some (c - 65)
    else if leb 97 c && leb c 122
    then some (c - 71)
    else if leb 48 c && leb c 57
    then some (c + 4)
    else if (c == 45)
    then some 62
    else if (c == 43)
    then some 62
    else if (c == 95)
    then some 63
    else if (c == 47)
    then some 63
    else none

-- Three bytes as four times six bits; the last group of one or two bytes is filled up with zeros.
abbrev pub sextets : Text → List ℕ
sextets [] = []
sextets (a ∷ []) = a / 4 ∷ a % 4 * 16 ∷ []
sextets (a ∷ b ∷ []) = a / 4 ∷ (a % 4 * 16 + b / 16) ∷ b % 16 * 4 ∷ []
sextets (a ∷ b ∷ c ∷ s) = a / 4 ∷ (a % 4 * 16 + b / 16) ∷ (b % 16 * 4 + c / 64) ∷ c % 64 ∷ sextets s

-- `s + "=" * (-len(s) % 4)`
unfoldable pub pad : Text → Text
pad s = s ++ repeated ((4 - length s % 4) % 4) 61

abbrev pub letters : List ℕ → Text
letters [] = []
letters (n ∷ ns) = letter_of n ∷ letters ns

unfoldable pub b64encode : Text → Text
unfolding pad
b64encode s = pad (letters (sextets s))

-- Where the decoder stands in a group of four: the bits left over, and the padding seen.
pub data Quad : Type 0 where
  start : Quad
  one : ℕ → Quad
  two three : ℕ → ℕ → Quad

pub data Advance : Type 0 where
  halt : Advance
  go : Option ℕ → Quad → Advance

-- Padding ends the input where it completes a group; elsewhere it is passed over.
abbrev pub on_padding : Quad → Advance
on_padding (Quad.two l p) = if leb 1 p then Advance.halt else Advance.go none (Quad.two l (p + 1))
on_padding (Quad.three l p) = Advance.halt
on_padding q = Advance.go none q

abbrev pub on_bits : ℕ → Quad → Advance
on_bits v Quad.start = Advance.go none (Quad.one v)
on_bits v (Quad.one l) = Advance.go (some (l * 4 + v / 16)) (Quad.two (v % 16) 0)
on_bits v (Quad.two l p) = Advance.go (some (l * 16 + v / 4)) (Quad.three (v % 4) 0)
on_bits v (Quad.three l p) = Advance.go (some (l * 64 + v)) Quad.start

unfoldable pub advance : Quad → ℕ → Advance
unfolding bits_of
advance q c =
    if c == 61
    then on_padding q
    else elim (bits_of c) [ some v ↦ on_bits v q | none ↦ Advance.go none q ]

abbrev pub put : Option ℕ → Option Text → Option Text
put o none = none
put none (some t) = some t
put (some b) (some t) = some (b ∷ t)

-- An incomplete group at the end is `binascii.Error`.
abbrev pub finish : Quad → Option Text
finish Quad.start = some []
finish q = none

abbrev pub resume : Advance → (Quad → Option Text) → Option Text
resume Advance.halt k = some []
resume (Advance.go o q) k = put o (k q)

unfoldable pub decode_from : Quad → Text → Option Text
decode_from q [] = finish q
decode_from q (c ∷ s) = resume (advance q c) (λ r. decode_from r s)

unfoldable pub b64decode : Text → Option Text
b64decode s = decode_from Quad.start s

-- A character before what is kept of the rest.
abbrev pub put_back : ℕ → ℕ → Text → Text
put_back d c [] = if c == d then [] else c ∷ []
put_back d c (e ∷ t) = c ∷ e ∷ t

-- `s.rstrip(d)`
unfoldable pub rstrip_char : ℕ → Text → Text
rstrip_char d [] = []
rstrip_char d (c ∷ s) = put_back d c (rstrip_char d s)
