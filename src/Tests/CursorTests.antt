-- ===== src/Tests/CursorTests.antt =====
-- Cursors at a concrete input: formats that write a time as its digits.
use pstu_hack_final.Common.{◌≡◌, refl, ap, none, some, [], ◌∷◌, arith}
use pstu_hack_final.Common.Int.{pos}
use pstu_hack_final.Common.Text.{codes}
use pstu_hack_final.Tests.StatementTests.{sample-Apart}
use pstu_hack_final.Tests.Samples.{sample}
use pstu_hack_final.Common.Base64.{
  bits_of, advance, decode_from, rstrip_char, pad, b64decode, b64encode,
}
use pstu_hack_final.Statement.Following.{cursors_cover, follow_cursors, row_ids}
use pstu_hack_final.Common.Decimal.{digits-IsDigit, read_digits, read_digits-digits, digits}
use pstu_hack_final.Statement.Cursor.{
  All-digit_ascii, decode_cursor-encode_cursor, Formats, decode_cursor, FormatLaws, encode_cursor,
}
use pstu_hack_final.Statement.{statement}

abbrev toy_formats : Formats
toy_formats = record {
  isoformat = digits;
  fromisoformat = λ s. some (read_digits 0 s);
  read_int = λ s. some (pos (read_digits 0 s));
  decode_utf8 = λ s. some s;
}

toy-FormatLaws : FormatLaws toy_formats
toy-FormatLaws = record {
  iso = λ t. ap some (read_digits-digits t);
  iso_ascii = λ t. All-digit_ascii (digits t) (digits-IsDigit t);
  int = λ n. ap (λ k. some (pos k)) (read_digits-digits n);
  ascii = λ s a. refl;
}

decode_cursor-encode_cursor_example :
    decode_cursor toy_formats (encode_cursor toy_formats (5, 2)) ≡ some (5, 2)
decode_cursor-encode_cursor_example = decode_cursor-encode_cursor toy_formats (5, 2) toy-FormatLaws

-- `5|2` in Base64, without the padding that a group of three does not have; and a text that is none.
cursor_test :
    (encode_cursor toy_formats (5, 2) ≡ codes "NXwy")
    × (decode_cursor toy_formats (codes "N") ≡ none)
unfolding encode_cursor digits decode_cursor b64encode b64decode pad rstrip_char decode_from advance
    bits_of
cursor_test = (refl, refl)

cursors_cover_example : row_ids (follow_cursors toy_formats sample 11 1 2 none) ≡ 5 ∷ 2 ∷ []
unfolding statement
cursors_cover_example =
    cursors_cover toy_formats sample 11 1 2 toy-FormatLaws sample-Apart (omega arith)
