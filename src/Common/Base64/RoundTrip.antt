-- ===== src/Common/Base64/RoundTrip.antt =====
-- Python's urlsafe Base64 decodes what it encoded, with the padding stripped and put back.
use Prim.Native.Nat.{ℕ, zero, suc, ◌+◌, ◌-◌, ◌*◌, ◌/◌, ◌%◌, ◌<◌}
use mathlib.Core.Path.{◌≡◌, refl, ap, ◌∙◌}
use mathlib.Core.Bool.{false}
use mathlib.Core.Option.{some}
use mathlib.Core.List.{List, [], ◌∷◌, ◌++◌}
use native.Mathlib.Omega.{arith}
use pstu_hack_final.Common.Booleans.{◌==◌}
use pstu_hack_final.Common.Lists.{length, All}
use pstu_hack_final.Common.Text.{Text, repeated}
use pstu_hack_final.Common.Base64.{
  letter_of, bits_of, sextets, pad, letters, b64encode, Quad, advance, on_bits, resume, decode_from,
  b64decode, put_back, rstrip_char,
}

letter_of-unpadded : (n : ℕ) → (letter_of n == 61) ≡ false
letter_of-unpadded n = ground arith

bits_of-letter_of : (n : ℕ) → n < 64 → bits_of (letter_of n) ≡ some n
unfolding bits_of
bits_of-letter_of n h = ground arith

rstrip-keep : (c : ℕ) (s : Text) → (c == 61) ≡ false → rstrip_char 61 (c ∷ s) ≡ c ∷ rstrip_char 61 s
unfolding rstrip_char
rstrip-keep c s h = go (rstrip_char 61 s)
  where
    go : (t : Text) → put_back 61 c t ≡ c ∷ t
    go [] = rw h refl
    go (e ∷ t) = refl

rstrip-padding : (k : ℕ) → rstrip_char 61 (repeated k 61) ≡ []
unfolding rstrip_char
rstrip-padding zero = refl
rstrip-padding (suc k) = rw (rstrip-padding k) refl

rstrip-letters : (ns : List ℕ) (k : ℕ) → rstrip_char 61 (letters ns ++ repeated k 61) ≡ letters ns
unfolding rstrip_char
rstrip-letters [] k = rstrip-padding k
rstrip-letters (n ∷ ns) k =
    rstrip-keep (letter_of n) (letters ns ++ repeated k 61) (letter_of-unpadded n)
    ∙ ap (λ t. letter_of n ∷ t) (rstrip-letters ns k)

advance-letter : (q : Quad) (n : ℕ) → n < 64 → advance q (letter_of n) ≡ on_bits n q
unfolding advance
advance-letter q n h = rw (letter_of-unpadded n, bits_of-letter_of n h) refl

decode-letter :
    (q : Quad) (n : ℕ) (s : Text)
    → n < 64
    → decode_from q (letter_of n ∷ s) ≡ resume (on_bits n q) (λ r. decode_from r s)
unfolding decode_from
decode-letter q n s h = ap (λ a. resume a (λ r. decode_from r s)) (advance-letter q n h)

decode-group :
    (p q r t : ℕ) (s u : Text)
    → p < 64
    → q < 64
    → r < 64
    → t < 64
    → decode_from Quad.start s ≡ some u
    → decode_from Quad.start (letter_of p ∷ letter_of q ∷ letter_of r ∷ letter_of t ∷ s)
      ≡ some ((p * 4 + q / 16) ∷ (q % 16 * 16 + r / 4) ∷ (r % 4 * 64 + t) ∷ u)
decode-group p q r t s u hp hq hr ht e =
    rw
      (
        decode-letter Quad.start p (letter_of q ∷ letter_of r ∷ letter_of t ∷ s) hp,
        decode-letter (Quad.one p) q (letter_of r ∷ letter_of t ∷ s) hq,
        decode-letter (Quad.two (q % 16) 0) r (letter_of t ∷ s) hr,
        decode-letter (Quad.three (r % 4) 0) t s ht,
        e,
      )
      refl

-- A byte.
abbrev pub IsByte : ℕ → Type 0
IsByte c = c < 256

pad-group : (p q r t : ℕ) (s : Text) → pad (p ∷ q ∷ r ∷ t ∷ s) ≡ p ∷ q ∷ r ∷ t ∷ pad s
unfolding pad
pad-group p q r t s =
    let same : (4 - length (p ∷ q ∷ r ∷ t ∷ s) % 4) % 4 ≡ (4 - length s % 4) % 4 = omega arith in
    ap (λ k. p ∷ q ∷ r ∷ t ∷ (s ++ repeated k 61)) same

-- The last groups of one and of two bytes.
decode-one :
    (p q : ℕ)
    → p < 64
    → q < 64
    → decode_from Quad.start (letter_of p ∷ letter_of q ∷ 61 ∷ 61 ∷ [])
      ≡ some ((p * 4 + q / 16) ∷ [])
unfolding decode_from advance
decode-one p q hp hq =
    decode-letter Quad.start p (letter_of q ∷ 61 ∷ 61 ∷ []) hp
    ∙ rw (decode-letter (Quad.one p) q (61 ∷ 61 ∷ []) hq) refl

decode-two :
    (p q r : ℕ)
    → p < 64
    → q < 64
    → r < 64
    → decode_from Quad.start (letter_of p ∷ letter_of q ∷ letter_of r ∷ 61 ∷ [])
      ≡ some ((p * 4 + q / 16) ∷ (q % 16 * 16 + r / 4) ∷ [])
unfolding decode_from advance
decode-two p q r hp hq hr =
    decode-letter Quad.start p (letter_of q ∷ letter_of r ∷ 61 ∷ []) hp
    ∙ rw
        (
          decode-letter (Quad.one p) q (letter_of r ∷ 61 ∷ []) hq,
          decode-letter (Quad.two (q % 16) 0) r (61 ∷ []) hr,
        )
        refl

decode-pad : (s : Text) → All IsByte s → decode_from Quad.start (pad (letters (sextets s))) ≡ some s
unfolding decode_from pad
decode-pad [] h = refl
decode-pad (a ∷ []) h =
    let same : a / 4 * 4 + a % 4 * 16 / 16 ≡ a = omega arith in
    decode-one (a / 4) (a % 4 * 16) (omega (arith, h.0)) (omega arith)
    ∙ ap (λ x. some (x ∷ [])) same
decode-pad (a ∷ b ∷ []) h =
    decode-two (a / 4) (a % 4 * 16 + b / 16) (b % 16 * 4) (omega (arith, h.0))
      (omega (arith, h.1.0)) (omega arith)
    ∙ bytes (a / 4 * 4 + (a % 4 * 16 + b / 16) / 16)
        ((a % 4 * 16 + b / 16) % 16 * 16 + b % 16 * 4 / 4) a b (omega (arith, h.1.0))
        (omega (arith, h.1.0))
  where
    bytes : (x y u v : ℕ) → x ≡ u → y ≡ v → some (x ∷ y ∷ []) ≡ some (u ∷ v ∷ [])
    bytes x y u v e f = cc
decode-pad (a ∷ b ∷ c ∷ s) h =
    let rest = decode-pad s h.1.1.1 in
    let group =
      decode-group (a / 4) (a % 4 * 16 + b / 16) (b % 16 * 4 + c / 64) (c % 64)
        (pad (letters (sextets s))) s (omega (arith, h.0)) (omega (arith, h.1.0))
        (omega (arith, h.1.1.0)) (omega arith) rest in
    ap (decode_from Quad.start) (pad-group _ _ _ _ (letters (sextets s)))
    ∙ group
    ∙ bytes (a / 4 * 4 + (a % 4 * 16 + b / 16) / 16)
        ((a % 4 * 16 + b / 16) % 16 * 16 + (b % 16 * 4 + c / 64) / 4)
        ((b % 16 * 4 + c / 64) % 4 * 64 + c % 64) a b c (omega (arith, h.1.0))
        (omega (arith, h.1.0, h.1.1.0)) (omega (arith, h.1.1.0))
  where
    bytes : (x y z u v w : ℕ) → x ≡ u → y ≡ v → z ≡ w → some (x ∷ y ∷ z ∷ s) ≡ some (u ∷ v ∷ w ∷ s)
    bytes x y z u v w e f g = cc

-- Bytes survive the encoding, the loss of its padding and the padding that is put back.
pub b64decode-b64encode :
    (s : Text) → All IsByte s → b64decode (pad (rstrip_char 61 (b64encode s))) ≡ some s
unfolding b64decode b64encode
b64decode-b64encode s h =
    ap (λ t. decode_from Quad.start (pad t))
      (rstrip-pad (letters (sextets s)) (rstrip-letters (sextets s)))
    ∙ decode-pad s h
  where
    rstrip-pad :
        (t : Text)
        → ((k : ℕ) → rstrip_char 61 (t ++ repeated k 61) ≡ t)
        → rstrip_char 61 (t ++ repeated ((4 - length t % 4) % 4) 61) ≡ t
    rstrip-pad t k = k _
