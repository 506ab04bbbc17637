-- ===== src/Dating/Resolver.antt =====
-- resolver.py, from one mention to the interval of a whole dating.
use sm_artmatch.Prelude.{
  ℕ, Bool, true, false, ◌&&◌, ◌||◌, Option, none, some, List, [], ◌∷◌, map, if◌then◌else◌, Result,
  ok, err, ◌>>=◌,
}
use sm_artmatch.Prelude.Int.{ℤ, pos, ◌+ℤ◌, ◌-ℤ◌, ltb_ℤ, leb_ℤ, min_ℤ, max_ℤ}
use sm_artmatch.Dating.{
  Kind, year, fragment, century, century_span, decade, decade_span, range, open_after, open_before,
  nothing, Mention, Error, value_error, type_error, Interval, Span, current_year, unknown,
  century_or_decade_bounds, decade_bounds, resolve_fragment,
}

abbrev closed : Span → Interval
closed s = record { start = some s.from; end = some s.to }

-- `start, _ = first` and `_, end = second`
abbrev spanning : Result Error Span → Result Error Span → Result Error Interval
spanning first second = do
  a ← first
  b ← second
  ok (record { start = some a.from; end = some b.to })

abbrev hedged_year : Bool → ℤ → Interval
hedged_year true n = record { start = some (n -ℤ pos 5); end = some (n +ℤ pos 5) }
hedged_year false n = record { start = some n; end = some n }

unfoldable pub resolve_year : Option ℤ → Bool → Interval
resolve_year none hedge = unknown
resolve_year (some n) hedge =
    if leb_ℤ (pos 100) n && leb_ℤ n current_year then hedged_year hedge n else unknown

unfoldable pub resolve_range : Bool → Option ℤ → Option ℤ → Result Error Interval
resolve_range true (some a) (some b) =
    ok (record { start = some (a -ℤ pos 5); end = some (b +ℤ pos 5) })
resolve_range true _ _ = err type_error
resolve_range false a b = ok (record { start = a; end = b })

-- The if-elif ladder over `m.kind`, before the checks that follow it.
unfoldable pub bounds_of : Kind → Mention → Option ℕ → Result Error Interval
unfolding resolve_year resolve_range
bounds_of nothing m birth_year = ok unknown
bounds_of year m birth_year = ok (resolve_year m.n1 m.hedge)
bounds_of fragment m birth_year = ok (resolve_fragment m.n1 birth_year)
bounds_of century m birth_year = do s ← century_or_decade_bounds m.n1 m.subdivision; ok (closed s)
bounds_of century_span m birth_year =
    spanning (century_or_decade_bounds m.n1 m.subdivision)
      (century_or_decade_bounds m.n2 m.subdivision2)
bounds_of decade m birth_year = do s ← decade_bounds m.n1 m.subdivision; ok (closed s)
bounds_of decade_span m birth_year =
    spanning (decade_bounds m.n1 m.subdivision) (decade_bounds m.n2 m.subdivision2)
bounds_of range m birth_year = resolve_range m.hedge m.n1 m.n2
bounds_of open_after m birth_year = ok (record { start = m.n1; end = none })
bounds_of open_before m birth_year = ok (record { start = none; end = m.n1 })
bounds_of Kind.other m birth_year = err value_error

abbrev reversed : Interval → Bool
reversed iv = elim iv.start [
  | none ↦ false
  | some s ↦ elim iv.end [ none ↦ false | some e ↦ ltb_ℤ e s ]
]

-- The check of the order and the two truncations. An early return of (None, None) passes them
-- unchanged.
unfoldable pub finish : Mention → Interval → Interval
finish m iv = if reversed iv then unknown else (record {
  start = if m.truncate_start then none else iv.start;
  end = if m.truncate_end then none else iv.end;
})

unfoldable pub resolve_mention : Mention → Option ℕ → Result Error Interval
unfolding bounds_of finish
resolve_mention m birth_year = do iv ← bounds_of m.kind m birth_year; ok (finish m iv)

-- The `try` of `resolve_dating`: a mention that raises is unresolved.
abbrev pub or_unknown : Result Error Interval → Interval
or_unknown (ok iv) = iv
or_unknown (err e) = unknown

unfoldable pub resolve_or_unknown : Option ℕ → Mention → Interval
resolve_or_unknown birth_year m = or_unknown (resolve_mention m birth_year)

abbrev pub is_some : Option ℤ → Bool
is_some none = false
is_some (some x) = true

-- `iv != (None, None)`
abbrev pub informative : Interval → Bool
informative iv = is_some iv.start || is_some iv.end

unfoldable pub drop_unresolved : List Interval → List Interval
drop_unresolved [] = []
drop_unresolved (iv ∷ ivs) =
    let rest = drop_unresolved ivs in if informative iv then iv ∷ rest else rest

-- A bound is None if either side has none.
abbrev pub both : (ℤ → ℤ → ℤ) → Option ℤ → Option ℤ → Option ℤ
both f none b = none
both f (some a) none = none
both f (some a) (some b) = some (f a b)

-- None if any value is None, else `min(starts)` or `max(ends)`.
unfoldable pub overall : (ℤ → ℤ → ℤ) → Option ℤ → List (Option ℤ) → Option ℤ
overall f a [] = a
overall f a (b ∷ bs) = overall f (both f a b) bs

unfoldable pub combine_intervals : List Interval → Interval
unfolding overall
combine_intervals [] = unknown
combine_intervals (iv ∷ ivs) = record {
  start = overall min_ℤ iv.start (map (λ (x : Interval). x.start) ivs);
  end = overall max_ℤ iv.end (map (λ (x : Interval). x.end) ivs);
}

-- The tests for an empty list return what `combine_intervals` returns for it.
unfoldable pub resolve_dating : List Mention → Option ℕ → Interval
unfolding resolve_or_unknown drop_unresolved combine_intervals
resolve_dating mentions birth_year =
    combine_intervals (drop_unresolved (map (resolve_or_unknown birth_year) mentions))
