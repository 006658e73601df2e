-- ===== src/Common/White.antt =====
-- Python's `str.strip`, `str.split` and `" ".join` on texts.
use Prim.Native.Nat.{ℕ, suc, ◌≤◌}
use mathlib.Core.Path.{◌≡◌, refl, ap, ◌∙◌}
use mathlib.Core.Logic.{◌≢◌, ◌⊎◌, inl, inr}
use mathlib.Core.Bool.{Bool, true, false, ◌&&◌, ◌||◌, not}
use mathlib.Core.List.{List, [], ◌∷◌, ◌++◌}
use native.Mathlib.Omega.{arith}
use pstu_hack_final.Common.Booleans.{leb, ◌==◌, if◌then◌else◌, Bool-cases}
use pstu_hack_final.Common.Lists.{length, All}
use pstu_hack_final.Common.Text.{Text}

-- `str.isspace` of one character.
unfoldable pub is_space : ℕ → Bool
is_space c =
    (leb 9 c && leb c 13)
    || (leb 28 c && leb c 32)
    || (c == 133)
    || (c == 160)
    || (c == 5760)
    || (leb 8192 c && leb c 8202)
    || (c == 8232)
    || (c == 8233)
    || (c == 8239)
    || (c == 8287)
    || (c == 12288)

abbrev pub IsInk : ℕ → Type 0
IsInk c = is_space c ≡ false

abbrev lstrip : Text → Text
lstrip [] = []
lstrip (c ∷ s) = if is_space c then lstrip s else c ∷ s

-- A character before what is kept of the rest: a space is kept only before something.
abbrev keep_before : ℕ → Text → Text
keep_before c [] = if is_space c then [] else c ∷ []
keep_before c (d ∷ s) = c ∷ d ∷ s

abbrev rstrip : Text → Text
rstrip [] = []
rstrip (c ∷ s) = keep_before c (rstrip s)

unfoldable pub strip : Text → Text
strip s = rstrip (lstrip s)

-- A text begins a word.
abbrev starts_word : Text → Bool
starts_word [] = false
starts_word (c ∷ s) = not (is_space c)

-- A character is put before the first word, or is a word of its own.
abbrev add_letter : ℕ → Bool → List Text → List Text
add_letter c true (w ∷ ws) = (c ∷ w) ∷ ws
add_letter c b ws = (c ∷ []) ∷ ws

-- `s.split()`
unfoldable pub words : Text → List Text
words [] = []
words (c ∷ s) = let rest = words s in if is_space c then rest else add_letter c (starts_word s) rest

-- `" ".join(ws)`
abbrev pub join_words : List Text → Text
join_words [] = []
join_words (w ∷ []) = w
join_words (w ∷ v ∷ ws) = w ++ 32 ∷ join_words (v ∷ ws)

lstrip-ink : (s : Text) → All IsInk s → lstrip s ≡ s
lstrip-ink [] a = refl
lstrip-ink (c ∷ s) a = rw (a.0) refl

rstrip-ink : (s : Text) → All IsInk s → rstrip s ≡ s
rstrip-ink [] a = refl
rstrip-ink (c ∷ []) a = rw (a.0) refl
rstrip-ink (c ∷ d ∷ s) a = ground (arith, rstrip-ink (d ∷ s) a.1)

-- A text without spaces is left as it is.
pub strip-ink : (s : Text) → All IsInk s → strip s ≡ s
unfolding strip
strip-ink s a = ap rstrip (lstrip-ink s a) ∙ rstrip-ink s a

-- A word: some ink and no space.
abbrev pub IsWord : Text → Type 0
IsWord w = (w ≢ []) × All IsInk w

add_letter-IsWord :
    (c : ℕ) (b : Bool) (ws : List Text) → IsInk c → All IsWord ws → All IsWord (add_letter c b ws)
add_letter-IsWord c true [] i a = (((λ e. cc), (i, tt)), a)
add_letter-IsWord c true (w ∷ ws) i a = (((λ e. cc), (i, a.0.1)), a.1)
add_letter-IsWord c false ws i a = (((λ e. cc), (i, tt)), a)

pub words-IsWord : (s : Text) → All IsWord (words s)
unfolding words
words-IsWord [] = tt
words-IsWord (c ∷ s) = elim (Bool-cases (is_space c)) [
  | inl e ↦ rw e (words-IsWord s)
  | inr e ↦ rw e (add_letter-IsWord c (starts_word s) (words s) e (words-IsWord s))
]

-- Splitting a word and what follows a space.
words-word : (w : Text) → IsWord w → words w ≡ w ∷ []
unfolding words
words-word [] a = absurd (a.0 refl)
words-word (c ∷ []) a = rw (a.1.0) refl
words-word (c ∷ d ∷ w) a = let rest = words-word (d ∷ w) ((λ e. cc), a.1.1) in ground (arith, rest)

words-append : (w s : Text) → IsWord w → words (w ++ 32 ∷ s) ≡ w ∷ words s
unfolding words is_space
words-append [] s a = absurd (a.0 refl)
words-append (c ∷ []) s a = ground arith
words-append (c ∷ d ∷ w) s a =
    let rest = words-append (d ∷ w) s ((λ e. cc), a.1.1) in ground (arith, rest)

-- Joined words split into the same words.
pub words-join_words : (ws : List Text) → All IsWord ws → words (join_words ws) ≡ ws
unfolding words
words-join_words [] a = refl
words-join_words (w ∷ []) a = words-word w a.0
words-join_words (w ∷ v ∷ ws) a =
    words-append w (join_words (v ∷ ws)) a.0 ∙ ap (λ xs. w ∷ xs) (words-join_words (v ∷ ws) a.1)

-- What holds of a space and of every character holds of the joined words.
pub All-join_words :
    (P : ℕ → Type 0) (ws : List Text) → P 32 → All (All P) ws → All P (join_words ws)
All-join_words P [] p a = tt
All-join_words P (w ∷ []) p a = a.0
All-join_words P (w ∷ v ∷ ws) p a =
    All-append_space w (join_words (v ∷ ws)) a.0 (All-join_words P (v ∷ ws) p a.1)
  where
    All-append_space : (u s : Text) → All P u → All P s → All P (u ++ 32 ∷ s)
    All-append_space [] s b c = (p, c)
    All-append_space (d ∷ u) s b c = (b.0, All-append_space u s b.1 c)

All-add_letter :
    (P : ℕ → Type 0) (c : ℕ) (b : Bool) (ws : List Text)
    → P c
    → All (All P) ws
    → All (All P) (add_letter c b ws)
All-add_letter P c true [] p a = ((p, tt), a)
All-add_letter P c true (w ∷ ws) p a = ((p, a.0), a.1)
All-add_letter P c false ws p a = ((p, tt), a)

pub All-words : (P : ℕ → Type 0) (s : Text) → All P s → All (All P) (words s)
unfolding words
All-words P [] a = tt
All-words P (c ∷ s) a = elim (Bool-cases (is_space c)) [
  | inl e ↦ rw e (All-words P s a.1)
  | inr e ↦ rw e (All-add_letter P c (starts_word s) (words s) a.0 (All-words P s a.1))
]

length-add_letter :
    (c : ℕ) (ws : List Text)
    → length (join_words (add_letter c true ws)) ≤ suc (length (join_words ws))
length-add_letter c [] = omega arith
length-add_letter c (w ∷ []) = omega arith
length-add_letter c (w ∷ v ∷ ws) = omega arith

length-new_word :
    (c : ℕ) (ws : List Text) (n : ℕ)
    → (ws ≡ []) ⊎ (suc (length (join_words ws)) ≤ n)
    → length (join_words (add_letter c false ws)) ≤ suc n
length-new_word c [] n h = omega arith
length-new_word c (w ∷ ws) n (inl e) = cc
length-new_word c (w ∷ ws) n (inr h) = omega arith

length-words :
    (s : Text)
    → (length (join_words (words s)) ≤ length s)
      × (starts_word s ≡ false → (words s ≡ []) ⊎ (suc (length (join_words (words s))) ≤ length s))
unfolding words
length-words [] = (omega arith, λ h. inl refl)
length-words (c ∷ s) =
    let rest = length-words s in
    elim (Bool-cases (is_space c)) [
      | inl e ↦ rw e (omega (arith, rest.0), λ h. inr (omega (arith, rest.0)))
      | inr e ↦ elim (Bool-cases (starts_word s)) [
        | inl w ↦
            rw (e, w)
              (
                omega (arith, rest.0, length-add_letter c (words s)),
                λ h. absurd (ground (arith, e)),
              )
        | inr n ↦
            rw (e, n)
              (length-new_word c (words s) (length s) (rest.1 n), λ h. absurd (ground (arith, e)))
      ]
    ]

-- The joined words of a text are no longer than the text.
pub length-join-words : (s : Text) → length (join_words (words s)) ≤ length s
length-join-words s = (length-words s).0
