-- ===== src/Dating/Tests.antt =====
-- Runs of the dating resolver and of the dating similarity on concrete mentions, and the theorems
-- applied to them.
use mathlib.Core.List.{Memᴰ}
use sm_artmatch.Prelude.{
  inl, ◌≡◌, refl, true, false, some, none, [], ◌∷◌, arith, ok, err, List, ◌<◌, ◌≤◌, ◌+◌, ◌%◌, ◌↔◌,
}
use sm_artmatch.Prelude.Int.{ℤ, pos, ◌+ℤ◌, ◌-ℤ◌, ◌*ℤ◌}
use sm_artmatch.Dating.{
  Kind, Subdivision, year, century, range, late, Mention, Interval, Span, unknown, value_error,
  century_or_decade_bounds, fragment_year, fragment_modulus,
}
use sm_artmatch.Dating.Resolver.{resolve_mention, resolve_or_unknown, resolve_dating}
use sm_artmatch.Dating.Hull.{Covers, Counts, resolve_dating-Covers, resolve_dating-least}
use sm_artmatch.Dating.Order.{IsOrdered, resolve_dating-IsOrdered, resolve_dating_same}
use sm_artmatch.Dating.Tables.{fragment_year-window}
use sm_artmatch.Dating.Overlap.{
  sanitize, Contains, dating_similarity, dating_similarity-common_year,
}

abbrev mention : Kind → ℤ → Mention
mention kind n = record {
  kind = kind;
  n1 = some n;
  n2 = none;
  subdivision = none;
  subdivision2 = none;
  hedge = false;
  truncate_start = false;
  truncate_end = false;
}

abbrev around_1850 : Mention
around_1850 = record (mention year (pos 1850)) { hedge = true }

abbrev late_19th : Mention
late_19th = record (mention century (pos 19)) { subdivision = some late }

-- 1900 - 1880: it does not resolve.
abbrev backwards : Mention
backwards = record (mention range (pos 1900)) { n2 = some (pos 1880) }

abbrev odd_part : Mention
odd_part = record (mention century (pos 19)) { subdivision = some Subdivision.other }

abbrev dating : List Mention
dating = around_1850 ∷ backwards ∷ late_19th ∷ []

abbrev reordered : List Mention
reordered = late_19th ∷ around_1850 ∷ around_1850 ∷ backwards ∷ []

abbrev years : ℤ → ℤ → Interval
years a b = record { start = some a; end = some b }

abbrev span : ℤ → ℤ → Span
span a b = record { from = a; to = b }

resolves_dating : resolve_dating dating none ≡ years (pos 1845) (pos 1900)
unfolding resolve_dating resolve_or_unknown resolve_mention century_or_decade_bounds ◌+ℤ◌ ◌-ℤ◌ ◌*ℤ◌
resolves_dating = refl

raises : resolve_mention odd_part none ≡ err value_error
unfolding resolve_mention century_or_decade_bounds
raises = refl

drops_backwards : resolve_mention backwards none ≡ ok unknown
unfolding resolve_mention
drops_backwards = refl

fragment_42 : fragment_year 42 1930 ≡ 1942
unfolding fragment_year fragment_modulus
fragment_42 = refl

around_1850-Counts : Counts none dating around_1850
unfolding resolve_or_unknown resolve_mention century_or_decade_bounds ◌+ℤ◌ ◌-ℤ◌ ◌*ℤ◌
around_1850-Counts = (Memᴰ.head refl, refl)

resolve_dating-Covers_example :
    Covers (resolve_dating dating none) (resolve_or_unknown none around_1850)
resolve_dating-Covers_example = resolve_dating-Covers none dating around_1850 around_1850-Counts

within_1800_1900 :
    (m : Mention)
    → Counts none dating m
    → Covers (years (pos 1800) (pos 1900)) (resolve_or_unknown none m)
unfolding resolve_or_unknown resolve_mention century_or_decade_bounds ◌+ℤ◌ ◌-ℤ◌ ◌*ℤ◌
within_1800_1900 m (Memᴰ.head e, c) = rw e (omega arith, omega arith)
within_1800_1900 m (Memᴰ.tail (Memᴰ.head e), c) = absurd (cc (rw e at c))
within_1800_1900 m (Memᴰ.tail (Memᴰ.tail (Memᴰ.head e)), c) = rw e (omega arith, omega arith)
within_1800_1900 m (Memᴰ.tail (Memᴰ.tail (Memᴰ.tail k)), c) = elim k [ ]

resolve_dating-least_example : Covers (years (pos 1800) (pos 1900)) (resolve_dating dating none)
resolve_dating-least_example =
    resolve_dating-least none dating (years (pos 1800) (pos 1900)) around_1850 around_1850-Counts
      within_1800_1900

resolve_dating-IsOrdered_example : IsOrdered (resolve_dating dating none)
resolve_dating-IsOrdered_example = resolve_dating-IsOrdered dating none

to_reordered : (m : Mention) → Memᴰ m dating → Memᴰ m reordered
to_reordered m (Memᴰ.head e) = Memᴰ.tail (Memᴰ.head e)
to_reordered m (Memᴰ.tail (Memᴰ.head e)) = Memᴰ.tail (Memᴰ.tail (Memᴰ.tail (Memᴰ.head e)))
to_reordered m (Memᴰ.tail (Memᴰ.tail (Memᴰ.head e))) = Memᴰ.head e
to_reordered m (Memᴰ.tail (Memᴰ.tail (Memᴰ.tail k))) = elim k [ ]

from_reordered : (m : Mention) → Memᴰ m reordered → Memᴰ m dating
from_reordered m (Memᴰ.head e) = Memᴰ.tail (Memᴰ.tail (Memᴰ.head e))
from_reordered m (Memᴰ.tail (Memᴰ.head e)) = Memᴰ.head e
from_reordered m (Memᴰ.tail (Memᴰ.tail (Memᴰ.head e))) = Memᴰ.head e
from_reordered m (Memᴰ.tail (Memᴰ.tail (Memᴰ.tail (Memᴰ.head e)))) = Memᴰ.tail (Memᴰ.head e)
from_reordered m (Memᴰ.tail (Memᴰ.tail (Memᴰ.tail (Memᴰ.tail k)))) = elim k [ ]

resolve_dating_same_example : resolve_dating dating none ≡ resolve_dating reordered none
resolve_dating_same_example = resolve_dating_same none dating reordered to_reordered from_reordered

fragment_year-window_example :
    (1891 ≤ fragment_year 7 1891)
    × (fragment_year 7 1891 < 1891 + 100)
    × (fragment_year 7 1891 % 100 ≡ 7)
fragment_year-window_example = fragment_year-window 2 7 1891 (omega arith) (inl refl)

dating_similarity-common_year_example :
    ((dating_similarity (some (pos 1850)) none (some (pos 1900)) (some (pos 1910)) ≡ some 1) ↔ (
      (y : ℤ) × Contains (span (pos 1850) (pos 2026)) y × Contains (span (pos 1900) (pos 1910)) y))
    × ((dating_similarity (some (pos 1850)) none (some (pos 1900)) (some (pos 1910)) ≡ some 0)
        ↔ ¬ (
            (y : ℤ) × Contains (span (pos 1850) (pos 2026)) y
            × Contains (span (pos 1900) (pos 1910)) y))
unfolding sanitize ◌+ℤ◌
dating_similarity-common_year_example =
    dating_similarity-common_year (some (pos 1850)) none (some (pos 1900)) (some (pos 1910))
      (span (pos 1850) (pos 2026)) (span (pos 1900) (pos 1910)) refl refl
