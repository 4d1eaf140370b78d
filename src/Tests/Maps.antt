-- ===== src/Tests/Maps.antt =====
-- The theorem on masks at a concrete mask.
use ftb.Prelude.{◌≡◌, ◌↔◌, true}
use ftb.Match.{match_mask}
use ftb.Match.Laws.{Matches, match_mask-Matches_iff}
use ftb.Tests.{boom, fail}

match_mask-Matches_iff_example : (match_mask boom fail ≡ true) ↔ Matches boom fail
match_mask-Matches_iff_example = match_mask-Matches_iff boom fail
