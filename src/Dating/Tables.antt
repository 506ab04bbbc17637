-- ===== src/Dating/Tables.antt =====
-- The century and decade tables, and the year that a short fragment such as "in '42" stands for.
use Prim.Native.Nat.{max}
use native.Mathlib.Nat.{
  pow-suc, pow-le-pow_right, mul-add-mod_self_right, mod-eq_of_lt, add-mod_right, mod-lt,
  div-add-mod',
}
use native.Mathlib.Numerals.{add-one}
use sm_artmatch.Prelude.{
  ℕ, zero, suc, ◌+◌, ◌*◌, ◌/◌, ◌%◌, ◌^◌, ◌≤◌, ◌<◌, ◌≡◌, ◌∙◌, ap, Option, none, some, arith, ltb,
  Bool-cases, inl, inr, ◌⊎◌, ◌-◌, ok, if◌then◌else◌, ltb→lt,
}
use sm_artmatch.Prelude.Int.{ℤ, pos, ◌≤ℤ◌, ◌+ℤ◌, ◌-ℤ◌, ◌*ℤ◌}
use sm_artmatch.Dating.{
  Subdivision, full, Span, century_range, decade_range, century_bounds, decade_bounds,
  looks_like_decade_number, century_or_decade_bounds, digit_count, fragment_modulus, fragment_year,
}

-- The part lies within the whole.
abbrev pub Within : Span → Span → Type 0
Within part whole = (whole.from ≤ℤ part.from) × (part.to ≤ℤ whole.to)

century_range-Within :
    (s e : ℤ) (sub : Subdivision) (part whole : Span)
    → e ≡ s +ℤ pos 100
    → century_range s e sub ≡ ok part
    → century_range s e full ≡ ok whole
    → Within part whole
unfolding century_range ◌+ℤ◌
century_range-Within s e sub part whole h p w = ground arith

decade_range-Within :
    (y : ℤ) (sub : Subdivision) (part whole : Span)
    → decade_range y sub ≡ ok part
    → decade_range y full ≡ ok whole
    → Within part whole
unfolding decade_range ◌+ℤ◌
decade_range-Within y sub part whole p w = ground arith

ten_times : (n c : ℕ) → n / 10 < 10 ^ c → n < 10 ^ (c + 1)
ten_times n c h = rw add-one (rw pow-suc (omega arith))

digit_count-bound : (fuel n : ℕ) → n ≤ fuel → n < 10 ^ digit_count fuel n
unfolding digit_count
digit_count-bound zero n h = omega arith
digit_count-bound (suc fuel) n h = elim (Bool-cases (ltb n 10)) [
  | inl small ↦ rw small (ltb→lt n 10 small)
  | inr large ↦
      rw large
        (ten_times n (digit_count fuel (n / 10)) (digit_count-bound fuel (n / 10) (ground arith)))
]

century_end : (n : ℤ) → n *ℤ pos 100 ≡ (n -ℤ pos 1) *ℤ pos 100 +ℤ pos 100
unfolding ◌+ℤ◌ ◌-ℤ◌ ◌*ℤ◌
century_end n = ground arith

century_bounds-Within :
    (n : Option ℤ) (sub : Option Subdivision) (part whole : Span)
    → century_bounds n sub ≡ ok part
    → century_bounds n none ≡ ok whole
    → Within part whole
unfolding century_bounds
century_bounds-Within none sub part whole p w = cc
century_bounds-Within (some n) none part whole p w =
    century_range-Within _ _ full part whole (century_end n) p w
century_bounds-Within (some n) (some sub) part whole p w =
    century_range-Within _ _ sub part whole (century_end n) p w

decade_bounds-Within :
    (n : Option ℤ) (sub : Option Subdivision) (part whole : Span)
    → decade_bounds n sub ≡ ok part
    → decade_bounds n none ≡ ok whole
    → Within part whole
unfolding decade_bounds
decade_bounds-Within none sub part whole p w = cc
decade_bounds-Within (some n) none part whole p w = decade_range-Within n full part whole p w
decade_bounds-Within (some n) (some sub) part whole p w = decade_range-Within n sub part whole p w

-- Where a subdivision of a century or decade is known to the tables, its years lie within those of
-- the whole century or decade.
pub century_or_decade_bounds-Within :
    (n : Option ℤ) (sub : Option Subdivision) (part whole : Span)
    → century_or_decade_bounds n sub ≡ ok part
    → century_or_decade_bounds n none ≡ ok whole
    → Within part whole
unfolding century_or_decade_bounds
century_or_decade_bounds-Within n sub part whole p w =
    elim (Bool-cases (looks_like_decade_number n)) [
      | inl decade ↦ decade_bounds-Within n sub part whole (rw decade at p) (rw decade at w)
      | inr century ↦ century_bounds-Within n sub part whole (rw century at p) (rw century at w)
    ]

fragment_modulus-bound : (digits : ℕ) → digits < fragment_modulus digits
unfolding fragment_modulus
fragment_modulus-bound digits = omega (
  arith,
  digit_count-bound digits digits (omega arith),
  pow-le-pow_right {n = 10} (omega arith) {i = digit_count digits digits}
      {j = max (digit_count digits digits) 2} (omega arith),
)

window :
    (d b m q : ℕ)
    → d < m
    → q * m ≤ b
    → b < q * m + m
    → let candidate = q * m + d in
      let r = if ltb candidate b then candidate + m else candidate in
      (b ≤ r) × (r < b + m) × (r % m ≡ d)
window d b m q h lo hi =
    let same = mul-add-mod_self_right q m d ∙ mod-eq_of_lt h in
    let above = add-mod_right (q * m + d) m ∙ same in
    elim (Bool-cases (ltb (q * m + d) b)) [
      | inl early_year ↦ rw early_year (
        omega (arith, ltb→lt (q * m + d) b early_year),
        omega (arith, ltb→lt (q * m + d) b early_year),
        above,
      )
      | inr in_time ↦ rw in_time (ground arith, omega arith, same)
    ]

tenth_below : (n k : ℕ) → n < 10 ^ suc k → n / 10 < 10 ^ k
tenth_below n k h = let e = rw pow-suc at h in omega (arith, e)

tenth_above : (n k : ℕ) → 10 ^ suc k ≤ n → 10 ^ k ≤ n / 10
tenth_above n k h = let e = rw pow-suc at h in omega (arith, e)

digit_count-at_most : (fuel n k : ℕ) → n < 10 ^ suc k → digit_count fuel n ≤ suc k
unfolding digit_count
digit_count-at_most zero n k h = omega arith
digit_count-at_most (suc fuel) n zero h = ground arith
digit_count-at_most (suc fuel) n (suc k) h =
    let rest = digit_count-at_most fuel (n / 10) k (tenth_below n (suc k) h) in ground arith

digit_count-at_least : (fuel n k : ℕ) → n ≤ fuel → 10 ^ k ≤ n → suc k ≤ digit_count fuel n
unfolding digit_count
digit_count-at_least zero n k h lo =
    absurd (omega (arith, pow-le-pow_right {n = 10} (omega arith) {i = 0} {j = k} (omega arith)))
digit_count-at_least (suc fuel) n zero h lo = ground arith
digit_count-at_least (suc fuel) n (suc k) h lo =
    let rest = digit_count-at_least fuel (n / 10) k (omega arith) (tenth_above n k lo) in
    let large : 10 ≤ n =
      omega (arith, pow-le-pow_right {n = 10} (omega arith) {i = 1} {j = suc k} (omega arith)) in
    ground arith

fragment_modulus_exact :
    (length digits : ℕ)
    → digits < 10 ^ length
    → (length ≡ 2) ⊎ ((3 ≤ length) × (10 ^ (length - 1) ≤ digits))
    → fragment_modulus digits ≡ 10 ^ length
unfolding fragment_modulus
fragment_modulus_exact length digits small least =
    ap (λ (n : ℕ). 10 ^ n)
      (elim least [
        | inl two ↦ let most = digit_count-at_most digits digits 1 (rw two at small) in omega arith
        | inr (three, long) ↦
            let e : length ≡ suc (length - 1) = omega arith in
            let most = digit_count-at_most digits digits (length - 1) (rw e at small) in
            let all = digit_count-at_least digits digits (length - 1) (omega arith) long in
            omega arith
      ])

-- A fragment is as many digits as it is long, or two if it is shorter: 42 and 7 are two digits, the
-- latter as 07. Its year is the first one from the birth year on that ends in these digits.
pub fragment_year-window :
    (length digits birth_year : ℕ)
    → digits < 10 ^ length
    → (length ≡ 2) ⊎ ((3 ≤ length) × (10 ^ (length - 1) ≤ digits))
    → (birth_year ≤ fragment_year digits birth_year)
      × (fragment_year digits birth_year < birth_year + 10 ^ length)
      × (fragment_year digits birth_year % 10 ^ length ≡ digits)
unfolding fragment_year
fragment_year-window length digits birth_year small least =
    let m = 10 ^ length in
    rw (fragment_modulus_exact length digits small least) (
      window digits birth_year m (birth_year / m) small (omega (arith, div-add-mod' birth_year m))
        (omega (arith, div-add-mod' birth_year m, mod-lt birth_year {m = m} (omega arith))))
