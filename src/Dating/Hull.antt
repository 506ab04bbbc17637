-- ===== src/Dating/Hull.antt =====
-- About `resolve_dating`: how its interval lies to the intervals of its mentions.
use mathlib.Core.List.{Memᴰ}
use mathlib.Core.List.Memᴰ as Mem
use sm_artmatch.Prelude.{
  ℕ, ◌≡◌, refl, inl, inr, true, Option, none, some, List, [], ◌∷◌, map, arith, Bool-cases,
}
use sm_artmatch.Prelude.Int.{ℤ, ◌≤ℤ◌, min_ℤ, max_ℤ}
use sm_artmatch.Dating.{Mention, Interval}
use sm_artmatch.Dating.Resolver.{
  informative, resolve_or_unknown, drop_unresolved, both, overall, combine_intervals,
  resolve_dating,
}

-- No bound reaches further than any bound.
abbrev pub Reaches : (ℤ → ℤ → Type 0) → Option ℤ → Option ℤ → Type 0
Reaches R none b = Unit
Reaches R (some a) none = ⊥
Reaches R (some a) (some b) = R a b

abbrev pub AtLeast : ℤ → ℤ → Type 0
AtLeast a b = b ≤ℤ a

-- `outer` contains `inner`; a missing bound is unbounded.
abbrev pub Covers : Interval → Interval → Type 0
Covers outer inner = Reaches ◌≤ℤ◌ outer.start inner.start × Reaches AtLeast outer.end inner.end

record IsBest (R : ℤ → ℤ → Type 0) (f : ℤ → ℤ → ℤ) : Type 0 where
  rfl : (a : ℤ) → R a a
  trans : (a b c : ℤ) → R a b → R b c → R a c
  left : (a b : ℤ) → R (f a b) a
  right : (a b : ℤ) → R (f a b) b
  best : (a b c : ℤ) → R c a → R c b → R c (f a b)

min-IsBest : IsBest ◌≤ℤ◌ min_ℤ
min-IsBest = record {
  rfl = λ a. omega arith;
  trans = λ a b c h k. omega arith;
  left = λ a b. ground arith;
  right = λ a b. ground arith;
  best = λ a b c h k. ground arith;
}

max-IsBest : IsBest AtLeast max_ℤ
max-IsBest = record {
  rfl = λ a. omega arith;
  trans = λ a b c h k. omega arith;
  left = λ a b. ground arith;
  right = λ a b. ground arith;
  best = λ a b c h k. ground arith;
}

module _ {R : ℤ → ℤ → Type 0} {f : ℤ → ℤ → ℤ} (law : IsBest R f) where
  Reaches-refl : (a : Option ℤ) → Reaches R a a
  Reaches-refl none = tt
  Reaches-refl (some a) = law.rfl a

  Reaches-trans : (a b c : Option ℤ) → Reaches R a b → Reaches R b c → Reaches R a c
  Reaches-trans none b c h k = tt
  Reaches-trans (some a) (some b) (some c) h k = law.trans a b c h k
  Reaches-trans (some a) none c h k = absurd h
  Reaches-trans (some a) (some b) none h k = absurd k

  both_left : (a b : Option ℤ) → Reaches R (both f a b) a
  both_left none b = tt
  both_left (some a) none = tt
  both_left (some a) (some b) = law.left a b

  both_right : (a b : Option ℤ) → Reaches R (both f a b) b
  both_right none b = tt
  both_right (some a) none = tt
  both_right (some a) (some b) = law.right a b

  both_best : (a b c : Option ℤ) → Reaches R c a → Reaches R c b → Reaches R c (both f a b)
  both_best a b none h k = tt
  both_best (some a) (some b) (some c) h k = law.best a b c h k
  both_best none b (some c) h k = absurd h
  both_best (some a) none (some c) h k = absurd k

  overall-Reaches_first : (a : Option ℤ) (bs : List (Option ℤ)) → Reaches R (overall f a bs) a
  unfolding overall
  overall-Reaches_first a [] = Reaches-refl a
  overall-Reaches_first a (b ∷ bs) =
      Reaches-trans (overall f (both f a b) bs) (both f a b) a
        (overall-Reaches_first (both f a b) bs) (both_left a b)

  overall-Reaches :
      (field : Interval → Option ℤ) (a : Option ℤ) (ivs : List Interval) {iv : Interval}
      → Memᴰ iv ivs
      → Reaches R (overall f a (map field ivs)) (field iv)
  unfolding overall
  overall-Reaches field a [] m = elim m [ ]
  overall-Reaches field a (x ∷ ivs) {iv} (Memᴰ.head e) =
      Reaches-trans (overall f (both f a (field x)) (map field ivs)) (both f a (field x)) (field iv)
        (overall-Reaches_first _ (map field ivs)) (rw e (both_right a (field x)))
  overall-Reaches field a (x ∷ ivs) (Memᴰ.tail m) = overall-Reaches field (both f a (field x)) ivs m

  overall-best :
      (field : Interval → Option ℤ) (a c : Option ℤ) (ivs : List Interval)
      → Reaches R c a
      → ((iv : Interval) → Memᴰ iv ivs → Reaches R c (field iv))
      → Reaches R c (overall f a (map field ivs))
  unfolding overall
  overall-best field a c [] h k = h
  overall-best field a c (x ∷ ivs) h k =
      overall-best field (both f a (field x)) c ivs
        (both_best a (field x) c h (k x (Memᴰ.head refl))) (λ iv m. k iv (Memᴰ.tail m))

pub combine_intervals-Covers :
    (ivs : List Interval) {iv : Interval} → Memᴰ iv ivs → Covers (combine_intervals ivs) iv
unfolding combine_intervals
combine_intervals-Covers [] m = elim m [ ]
combine_intervals-Covers (x ∷ ivs) (Memᴰ.head e) = rw e (
  overall-Reaches_first min-IsBest x.start (map (λ (y : Interval). y.start) ivs),
  overall-Reaches_first max-IsBest x.end (map (λ (y : Interval). y.end) ivs),
)
combine_intervals-Covers (x ∷ ivs) (Memᴰ.tail m) = (
  overall-Reaches min-IsBest (λ y. y.start) x.start ivs m,
  overall-Reaches max-IsBest (λ y. y.end) x.end ivs m,
)

pub combine_intervals-least :
    (ivs : List Interval) (outer : Interval)
    → ((iv : Interval) → Memᴰ iv ivs → Covers outer iv)
    → {some_iv : Interval} → Memᴰ some_iv ivs
    → Covers outer (combine_intervals ivs)
unfolding combine_intervals
combine_intervals-least [] outer all m = elim m [ ]
combine_intervals-least (x ∷ ivs) outer all m = (
  overall-best min-IsBest (λ y. y.start) x.start outer.start ivs (all x (Memᴰ.head refl)).0
      (λ iv k. (all iv (Memᴰ.tail k)).0),
  overall-best max-IsBest (λ y. y.end) x.end outer.end ivs (all x (Memᴰ.head refl)).1
      (λ iv k. (all iv (Memᴰ.tail k)).1),
)

pub drop_unresolved-keeps :
    (ivs : List Interval) {iv : Interval}
    → informative iv ≡ true
    → Memᴰ iv ivs
    → Memᴰ iv (drop_unresolved ivs)
unfolding drop_unresolved
drop_unresolved-keeps [] h m = elim m [ ]
drop_unresolved-keeps (x ∷ ivs) h (Memᴰ.head e) = rw (rw e at h) (Memᴰ.head e)
drop_unresolved-keeps (x ∷ ivs) h (Memᴰ.tail m) = elim (Bool-cases (informative x)) [
  | inl kept ↦ rw kept (Memᴰ.tail (drop_unresolved-keeps ivs h m))
  | inr gone ↦ rw gone (drop_unresolved-keeps ivs h m)
]

pub drop_unresolved-only :
    (ivs : List Interval) {iv : Interval}
    → Memᴰ iv (drop_unresolved ivs)
    → (informative iv ≡ true) × Memᴰ iv ivs
unfolding drop_unresolved
drop_unresolved-only [] m = elim m [ ]
drop_unresolved-only (x ∷ ivs) {iv} m = elim (Bool-cases (informative x)) [
  | inl kept ↦ elim (Mem.cases_cons (rw kept at m)) [
    | inl e ↦ (rw e kept, Memᴰ.head e)
    | inr k ↦ let (i, j) = drop_unresolved-only ivs k in (i, Memᴰ.tail j)
  ]
  | inr gone ↦ let (i, j) = drop_unresolved-only ivs {iv = iv} (rw gone at m) in (i, Memᴰ.tail j)
]

module _ (birth_year : Option ℕ) (mentions : List Mention) where
  abbrev resolved : Mention → Interval
  resolved = resolve_or_unknown birth_year

  -- A mention counts if it resolves, and not to (None, None).
  abbrev pub Counts : Mention → Type 0
  Counts m = Memᴰ m mentions × (informative (resolve_or_unknown birth_year m) ≡ true)

  resolved-mem :
      (m : Mention) → Counts m → Memᴰ (resolved m) (drop_unresolved (map resolved mentions))
  resolved-mem m (listed, counts) = drop_unresolved-keeps _ counts (Mem.map resolved listed)

  -- Each mention that resolves to an interval lies within the interval of the whole dating.
  pub resolve_dating-Covers :
      (m : Mention)
      → Counts m
      → Covers (resolve_dating mentions birth_year) (resolve_or_unknown birth_year m)
  unfolding resolve_dating
  resolve_dating-Covers m counts = combine_intervals-Covers _ (resolved-mem m counts)

  -- Any interval around the mentions that resolve contains the interval of the whole dating, where
  -- at least one mention resolves.
  pub resolve_dating-least :
      (outer : Interval) (m : Mention)
      → Counts m
      → ((m' : Mention) → Counts m' → Covers outer (resolve_or_unknown birth_year m'))
      → Covers outer (resolve_dating mentions birth_year)
  unfolding resolve_dating
  resolve_dating-least outer m counts all =
      combine_intervals-least _ outer around (resolved-mem m counts)
    where
      around : (iv : Interval) → Memᴰ iv (drop_unresolved (map resolved mentions)) → Covers outer iv
      around iv k =
          let (counted, listed) = drop_unresolved-only (map resolved mentions) k in
          let (m', listed', e) = Mem.of_map resolved mentions listed in
          rw (← e) (all m' (listed', rw e counted))
