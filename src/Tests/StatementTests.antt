-- ===== src/Tests/StatementTests.antt =====
-- Alice's statement on the sample, one entry to a page: both entries have the same time.
use pstu_hack_final.Statement.Order.{Apart}
use pstu_hack_final.Common.{◌≡◌, none, [], ◌∷◌, arith}
use pstu_hack_final.Common.Int.{negsuc, pos}
use pstu_hack_final.Statement.Pages.{pages_cover}
use pstu_hack_final.Tests.Samples.{entry_row, sample}
use pstu_hack_final.Statement.{follow, statement}

pub sample-Apart : Apart sample.ledger_entries
sample-Apart = (
  (omega arith, (omega arith, (omega arith, (omega arith, (omega arith, tt))))),
  (
    (omega arith, (omega arith, (omega arith, (omega arith, tt)))),
    (
      (omega arith, (omega arith, (omega arith, tt))),
      ((omega arith, (omega arith, tt)), ((omega arith, tt), (tt, tt))),
    ),
  ),
)

pages_cover_example :
    follow sample 11 1 2 none
    ≡ entry_row 5 33 11 (negsuc 19999) (pos 80000)
      ∷ entry_row 2 31 11 (pos 100000) (pos 100000)
      ∷ []
unfolding statement
pages_cover_example = pages_cover sample 11 1 2 sample-Apart (omega arith)
