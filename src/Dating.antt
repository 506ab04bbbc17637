-- ===== src/Dating.antt =====
-- matching_pipeline/metadata_normalization/dating_normalization: the mentions that the language
-- model reports (schema.py) and their resolution into an interval of years (resolver.py).
-- A year is a Python int, so an integer; a birth year is four digits, so a natural number.
pub mod Resolver
pub mod Hull
pub mod Order
pub mod Tables
pub mod Overlap
mod Tests
use Prim.Native.Nat.{max}
use sm_artmatch.Prelude.{
  ℕ, zero, suc, ◌+◌, ◌-◌, ◌*◌, ◌/◌, ◌^◌, ◌≤◌, ◌≡◌, Bool, true, false, not, ◌&&◌, ◌||◌, Option, none,
  some, List, [], ◌∷◌, map, ltb, leb, if◌then◌else◌, Result, ok, err, ◌>>=◌,
}
use sm_artmatch.Prelude.Int.{
  ℤ, pos, negsuc, pos_part, neg_part, ◌+ℤ◌, ◌-ℤ◌, ◌*ℤ◌, ltb_ℤ, leb_ℤ, min_ℤ, max_ℤ,
}

-- `other` stands for any text outside the Literal: the code tests for it and raises ValueError.
pub data Kind : Type 0 where
  year fragment century century_span decade decade_span range open_after open_before nothing : Kind
  other : Kind

pub data Subdivision : Type 0 where
  full early mid late first_half second_half q1 q2 q3 q4 : Subdivision
  other : Subdivision

pub record Mention : Type 0 where
  pub kind : Kind
  pub n1 : Option ℤ
  pub n2 : Option ℤ
  pub subdivision : Option Subdivision
  pub subdivision2 : Option Subdivision
  pub hedge : Bool
  pub truncate_start : Bool
  pub truncate_end : Bool

-- The exceptions that `resolve_dating` catches: TypeError comes from arithmetic on None.
pub data Error : Type 0 where
  value_error type_error : Error

pub record Interval : Type 0 where
  pub start : Option ℤ
  pub end : Option ℤ

-- An interval with both bounds, as the century and decade tables return it.
pub record Span : Type 0 where
  pub from : ℤ
  pub to : ℤ

abbrev pub current_year : ℤ
current_year = pos 2026

abbrev pub unknown : Interval
unknown = record { start = none; end = none }

-- `sub or "full"`
abbrev or_full : Option Subdivision → Subdivision
or_full none = full
or_full (some sub) = sub

-- The end is capped at the current year, the start is not.
abbrev cap : ℤ → ℤ → Result Error Span
cap start end = ok (record { from = start; to = min_ℤ end current_year })

-- The ladder of century_bounds over s = (n - 1) * 100 and e = n * 100.
unfoldable pub century_range : ℤ → ℤ → Subdivision → Result Error Span
century_range s e full = cap s e
century_range s e early = cap s (s +ℤ pos 25)
century_range s e q1 = cap s (s +ℤ pos 25)
century_range s e q2 = cap (s +ℤ pos 25) (s +ℤ pos 50)
century_range s e mid = cap (s +ℤ pos 25) (s +ℤ pos 75)
century_range s e first_half = cap s (s +ℤ pos 50)
century_range s e q3 = cap (s +ℤ pos 50) (s +ℤ pos 75)
century_range s e second_half = cap (s +ℤ pos 50) e
century_range s e late = cap (s +ℤ pos 75) e
century_range s e q4 = cap (s +ℤ pos 75) e
century_range s e other = err value_error

unfoldable pub century_bounds : Option ℤ → Option Subdivision → Result Error Span
unfolding century_range
century_bounds none sub = err type_error
century_bounds (some n) sub = century_range ((n -ℤ pos 1) *ℤ pos 100) (n *ℤ pos 100) (or_full sub)

-- The ladder of decade_bounds.
unfoldable pub decade_range : ℤ → Subdivision → Result Error Span
decade_range y full = cap y (y +ℤ pos 10)
decade_range y early = cap y (y +ℤ pos 5)
decade_range y mid = cap (y +ℤ pos 3) (y +ℤ pos 7)
decade_range y late = cap (y +ℤ pos 5) (y +ℤ pos 10)
decade_range y _ = err value_error

-- With no start year an unknown subdivision is a ValueError and any other a TypeError.
abbrev no_year : Subdivision → Error
no_year full = type_error
no_year early = type_error
no_year mid = type_error
no_year late = type_error
no_year _ = value_error

unfoldable pub decade_bounds : Option ℤ → Option Subdivision → Result Error Span
unfolding decade_range
decade_bounds none sub = err (no_year (or_full sub))
decade_bounds (some y) sub = decade_range y (or_full sub)

unfoldable pub looks_like_decade_number : Option ℤ → Bool
looks_like_decade_number none = false
looks_like_decade_number (some n) = leb_ℤ (pos 100) n

unfoldable pub century_or_decade_bounds : Option ℤ → Option Subdivision → Result Error Span
unfolding looks_like_decade_number century_bounds decade_bounds
century_or_decade_bounds n sub =
    if looks_like_decade_number n then decade_bounds n sub else century_bounds n sub

-- The number of decimal digits of n, `len(str(n))`: `fuel` divisions are enough where n < 10 ^ fuel.
unfoldable pub digit_count : ℕ → ℕ → ℕ
digit_count zero n = 1
digit_count (suc fuel) n = let rest = digit_count fuel (n / 10) in if ltb n 10 then 1 else rest + 1

-- 10 ** max(len(str(digits)), 2)
unfoldable pub fragment_modulus : ℕ → ℕ
unfolding digit_count
fragment_modulus digits = 10 ^ max (digit_count digits digits) 2

unfoldable pub fragment_year : ℕ → ℕ → ℕ
fragment_year digits birth_year =
    let modulus = fragment_modulus digits in
    let candidate = birth_year / modulus * modulus + digits in
    if ltb candidate birth_year then candidate + modulus else candidate

unfoldable pub resolve_fragment : Option ℤ → Option ℕ → Interval
unfolding fragment_year
resolve_fragment digits none = unknown
resolve_fragment none (some birth_year) = unknown
resolve_fragment (some digits) (some birth_year) =
    let year = pos (fragment_year (pos_part digits + neg_part digits) birth_year) in
    record { start = some year; end = some year }
