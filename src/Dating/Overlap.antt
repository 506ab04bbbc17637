-- ===== src/Dating/Overlap.antt =====
-- matching_pipeline/metadata_matching/similarity_functions/dating/matching_function.py: two datings
-- are similar if their years overlap. The float 1.0 or 0.0 is the number 1 or 0.
use sm_artmatch.Prelude.{ℕ, ◌≡◌, refl, ◌↔◌, Bool, true, false, Option, none, some, arith}
use sm_artmatch.Prelude.Int.{ℤ, pos, ◌+ℤ◌, ◌-ℤ◌, ◌≤ℤ◌, leb_ℤ, min_ℤ, max_ℤ}
use sm_artmatch.Dating.{Span}

abbrev present_year : ℤ
present_year = pos 2026

abbrev buffer : ℤ
buffer = pos 200

-- `sanitize`; `none` where both bounds are missing, which the caller has excluded.
unfoldable pub sanitize : Option ℤ → Option ℤ → Option Span
sanitize none none = none
sanitize none (some end) = some (record { from = end -ℤ buffer; to = end })
sanitize (some start) none =
    some (record { from = start; to = min_ℤ present_year (start +ℤ buffer) })
sanitize (some start) (some end) = some (record { from = start; to = end })

unfoldable pub overlap : Span → Span → Bool
overlap l a = leb_ℤ (max_ℤ l.from a.from) (min_ℤ l.to a.to)

abbrev score_of : Bool → ℕ
score_of true = 1
score_of false = 0

-- The guard returns None where one side has no bound at all: there `sanitize` has no result.
abbrev compare_spans : Option Span → Option Span → Option ℕ
compare_spans (some l) (some a) = some (score_of (overlap l a))
compare_spans _ _ = none

unfoldable pub dating_similarity : Option ℤ → Option ℤ → Option ℤ → Option ℤ → Option ℕ
unfolding sanitize overlap
dating_similarity lost_start lost_end auc_start auc_end =
    compare_spans (sanitize lost_start lost_end) (sanitize auc_start auc_end)

abbrev pub Contains : Span → ℤ → Type 0
Contains s y = (s.from ≤ℤ y) × (y ≤ℤ s.to)

overlap→common : (l a : Span) → overlap l a ≡ true → (y : ℤ) × Contains l y × Contains a y
unfolding overlap
overlap→common l a h = (max_ℤ l.from a.from, ground arith, ground arith)

common→overlap : (l a : Span) (y : ℤ) → Contains l y → Contains a y → overlap l a ≡ true
unfolding overlap
common→overlap l a y h k = ground arith

score_of-common :
    (l a : Span) (b : Bool)
    → overlap l a ≡ b
    → ((some (score_of b) ≡ some 1) ↔ ((y : ℤ) × Contains l y × Contains a y))
      × ((some (score_of b) ≡ some 0) ↔ ¬ ((y : ℤ) × Contains l y × Contains a y))
score_of-common l a true h = (
  (λ e. overlap→common l a h, λ c. refl),
  (λ e. absurd (ground arith), λ none_common. absurd (none_common (overlap→common l a h))),
)
score_of-common l a false h = (
  (λ e. absurd (ground arith), λ (y, k, k'). cc (common→overlap l a y k k')),
  (λ e (y, k, k'). cc (common→overlap l a y k k'), λ c. refl),
)

-- For two datings that have a bound each, the score is 1 exactly when some year lies in both of
-- the completed intervals, and 0 exactly when none does.
pub dating_similarity-common_year :
    (ls le aus aue : Option ℤ) (l a : Span)
    → sanitize ls le ≡ some l
    → sanitize aus aue ≡ some a
    → ((dating_similarity ls le aus aue ≡ some 1) ↔ ((y : ℤ) × Contains l y × Contains a y))
      × ((dating_similarity ls le aus aue ≡ some 0) ↔ ¬ ((y : ℤ) × Contains l y × Contains a y))
unfolding dating_similarity
dating_similarity-common_year ls le aus aue l a p q =
    rw (p, q) (score_of-common l a (overlap l a) refl)
