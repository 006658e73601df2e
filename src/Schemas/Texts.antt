-- ===== src/Schemas/Texts.antt =====
-- The free text that app/schemas/transfer.py accepts: notes and names.
use pstu_hack_final.Common.{
  ℕ, ◌≤◌, ◌≡◌, refl, ap, subst, ◌≢◌, inl, inr, Bool, false, some, List, [], ◌∷◌, arith, length, any,
  All, Bool-cases,
}
use pstu_hack_final.Common.Text.{Text}
use pstu_hack_final.Common.White.{
  IsInk, IsWord, is_space, length-join-words, words-IsWord, words-join_words, All-words,
  All-join_words, words, join_words,
}
use pstu_hack_final.Schemas.{is_control, clean_free_text, non_empty}

-- As the code tests it.
abbrev pub IsPlain : ℕ → Type 0
IsPlain c = is_control c ≡ false

any-false : (p : ℕ → Bool) (s : Text) → any p s ≡ false → All (λ c. p c ≡ false) s
any-false p [] h = tt
any-false p (c ∷ s) h = elim (Bool-cases (p c)) [
  | inl e ↦ absurd (ground arith)
  | inr e ↦ (e, any-false p s (ground arith))
]

false-any : (p : ℕ → Bool) (s : Text) → All (λ c. p c ≡ false) s → any p s ≡ false
false-any p [] a = refl
false-any p (c ∷ s) a = ground (arith, a.0, false-any p s a.1)

non_empty-cases : (s t : Text) → non_empty s ≡ some t → (t ≢ []) × (s ≡ t)
non_empty-cases [] t h = absurd cc
non_empty-cases (c ∷ s) t h = (λ e. cc, cc)

non_empty-kept : (s : Text) → s ≢ [] → non_empty s ≡ some s
non_empty-kept [] h = absurd (h refl)
non_empty-kept (c ∷ s) h = refl

-- No control character of ASCII.
abbrev pub IsPrintable : ℕ → Type 0
IsPrintable c = (32 ≤ c) × (c ≢ 127)

plain-IsPrintable : (c : ℕ) → IsPlain c → IsInk c → IsPrintable c
unfolding is_space
plain-IsPrintable c p i = (ground arith, λ e. ground arith)

All-IsPrintable : (w : Text) → All IsPlain w → All IsInk w → All IsPrintable w
All-IsPrintable [] p i = tt
All-IsPrintable (c ∷ w) p i = (plain-IsPrintable c p.0 i.0, All-IsPrintable w p.1 i.1)

words-IsPrintable :
    (ws : List Text) → All (All IsPlain) ws → All IsWord ws → All (All IsPrintable) ws
words-IsPrintable [] p i = tt
words-IsPrintable (w ∷ ws) p i = (All-IsPrintable w p.0 i.0.1, words-IsPrintable ws p.1 i.1)

-- What is accepted of a free text has no control character of ASCII left, line breaks and tabs included, is not blank and is no longer than what was sent, and cleaning it again changes nothing.
pub clean_free_text_lem :
    (v t : Text)
    → clean_free_text (some v) ≡ some (some t)
    → All IsPrintable t
      × (t ≢ [])
      × (length t ≤ length v)
      × (clean_free_text (some t) ≡ some (some t))
unfolding clean_free_text
clean_free_text_lem v t h = elim (Bool-cases (any is_control v)) [
  | inl e ↦ absurd (ground arith)
  | inr e ↦
      let parts = non_empty-cases (join_words (words v)) t (ground arith) in
      let plain =
        subst (All IsPlain) (parts.1) (
          All-join_words IsPlain (words v) refl (All-words IsPlain v (any-false is_control v e))) in
      let kept = subst (All IsPrintable) (parts.1) (
        All-join_words IsPrintable (words v) (omega arith, λ h. ground arith)
          (words-IsPrintable (words v) (All-words IsPlain v (any-false is_control v e))
            (words-IsWord v))) in
      let same =
        subst (λ s. join_words (words s) ≡ s) parts.1
          (ap join_words (words-join_words (words v) (words-IsWord v))) in
      let short = subst (λ s. length s ≤ length v) parts.1 (length-join-words v) in
      (kept, parts.0, short, rw (false-any is_control t plain, same, non_empty-kept t parts.0) refl)
]
