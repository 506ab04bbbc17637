-- ===== src/Dating/Order.antt =====
-- About `resolve_dating`: the order of the bounds, and the order of the mentions.
use mathlib.Core.List.{Memᴰ}
use mathlib.Core.List.Memᴰ as Mem
use sm_artmatch.Prelude.{
  ◌≡◌, refl, sym, ap, Option, none, some, List, [], ◌∷◌, map, arith, ok, err, Result, ◌>>=◌, ℕ,
}
use sm_artmatch.Prelude.Int.{ℤ, ◌≤ℤ◌, eq_of_parts}
use sm_artmatch.Dating.{Mention, Error, Interval}
use sm_artmatch.Dating.Resolver.{
  or_unknown, bounds_of, finish, resolve_mention, resolve_or_unknown, drop_unresolved,
  combine_intervals, resolve_dating,
}
use sm_artmatch.Dating.Hull.{
  Reaches, Covers, AtLeast, drop_unresolved-keeps, drop_unresolved-only, combine_intervals-Covers,
  combine_intervals-least,
}

abbrev InOrder : Option ℤ → Option ℤ → Type 0
InOrder (some s) (some e) = s ≤ℤ e
InOrder _ _ = Unit

-- Where both bounds are known, the start does not pass the end.
abbrev pub IsOrdered : Interval → Type 0
IsOrdered iv = InOrder iv.start iv.end

finish-IsOrdered : (m : Mention) (iv : Interval) → IsOrdered (finish m iv)
unfolding finish
finish-IsOrdered m iv = ground arith

finished-IsOrdered :
    (m : Mention) (r : Result Error Interval)
    → IsOrdered (or_unknown (r >>= λ iv. ok (finish m iv)))
finished-IsOrdered m (ok iv) = finish-IsOrdered m iv
finished-IsOrdered m (err e) = tt

pub resolve_or_unknown-IsOrdered :
    (birth_year : Option ℕ) (m : Mention) → IsOrdered (resolve_or_unknown birth_year m)
unfolding resolve_or_unknown resolve_mention
resolve_or_unknown-IsOrdered birth_year m = finished-IsOrdered m (bounds_of m.kind m birth_year)

InOrder-Covers :
    (s e s' e' : Option ℤ) → Reaches ◌≤ℤ◌ s s' → Reaches AtLeast e e' → InOrder s' e' → InOrder s e
InOrder-Covers none e s' e' h k o = tt
InOrder-Covers (some s) none s' e' h k o = tt
InOrder-Covers (some s) (some e) (some s') (some e') h k o = omega arith
InOrder-Covers (some s) (some e) none e' h k o = absurd h
InOrder-Covers (some s) (some e) (some s') none h k o = absurd k

combine_intervals-IsOrdered :
    (ivs : List Interval)
    → ((iv : Interval) → Memᴰ iv ivs → IsOrdered iv)
    → IsOrdered (combine_intervals ivs)
combine_intervals-IsOrdered [] all = unfold combine_intervals in tt
combine_intervals-IsOrdered (x ∷ ivs) all =
    let (h, k) = combine_intervals-Covers (x ∷ ivs) (Memᴰ.head refl) in
    InOrder-Covers _ _ x.start x.end h k (all x (Memᴰ.head refl))

-- Whatever the mentions, the interval of a dating never has its start after its end.
pub resolve_dating-IsOrdered :
    (mentions : List Mention) (birth_year : Option ℕ)
    → IsOrdered (resolve_dating mentions birth_year)
unfolding resolve_dating
resolve_dating-IsOrdered mentions birth_year = combine_intervals-IsOrdered _ ordered
  where
    ordered :
        (iv : Interval)
        → Memᴰ iv (drop_unresolved (map (resolve_or_unknown birth_year) mentions))
        → IsOrdered iv
    ordered iv k =
        let (m, _, e) =
          Mem.of_map (resolve_or_unknown birth_year) mentions (drop_unresolved-only _ k).1 in
        rw (← e) (resolve_or_unknown-IsOrdered birth_year m)

antisym_start : (a b : Option ℤ) → Reaches ◌≤ℤ◌ a b → Reaches ◌≤ℤ◌ b a → a ≡ b
antisym_start none none h k = refl
antisym_start none (some b) h k = absurd k
antisym_start (some a) none h k = absurd h
antisym_start (some a) (some b) h k = ap some (eq_of_parts a b (omega arith))

antisym_end : (a b : Option ℤ) → Reaches AtLeast a b → Reaches AtLeast b a → a ≡ b
antisym_end none none h k = refl
antisym_end none (some b) h k = absurd k
antisym_end (some a) none h k = absurd h
antisym_end (some a) (some b) h k = ap some (eq_of_parts a b (omega arith))

Covers-antisym : (a b : Interval) → Covers a b → Covers b a → a ≡ b
Covers-antisym a b h k = λ i. record {
  start = antisym_start a.start b.start h.0 k.0 i;
  end = antisym_end a.end b.end h.1 k.1 i;
}

combine_intervals_same :
    (xs ys : List Interval)
    → ((iv : Interval) → Memᴰ iv xs → Memᴰ iv ys)
    → ((iv : Interval) → Memᴰ iv ys → Memᴰ iv xs)
    → combine_intervals xs ≡ combine_intervals ys
combine_intervals_same [] [] f g = refl
combine_intervals_same [] (y ∷ ys) f g = absurd (Mem.not-nil (g y (Memᴰ.head refl)))
combine_intervals_same (x ∷ xs) [] f g = absurd (Mem.not-nil (f x (Memᴰ.head refl)))
combine_intervals_same (x ∷ xs) (y ∷ ys) f g =
    Covers-antisym _ _
      (combine_intervals-least (y ∷ ys) _ (λ iv m. combine_intervals-Covers (x ∷ xs) (g iv m))
        (Memᴰ.head refl))
      (combine_intervals-least (x ∷ xs) _ (λ iv m. combine_intervals-Covers (y ∷ ys) (f iv m))
        (Memᴰ.head refl))

module _ (birth_year : Option ℕ) (xs ys : List Mention) where
  resolved_mem :
      ((m : Mention) → Memᴰ m xs → Memᴰ m ys)
      → (iv : Interval) → Memᴰ iv (drop_unresolved (map (resolve_or_unknown birth_year) xs))
      → Memᴰ iv (drop_unresolved (map (resolve_or_unknown birth_year) ys))
  resolved_mem f iv k =
      let (counts, listed) = drop_unresolved-only _ k in
      let (m, mem, e) = Mem.of_map (resolve_or_unknown birth_year) xs listed in
      drop_unresolved-keeps _ counts
        (Mem.cast (sym e) (Mem.map (resolve_or_unknown birth_year) (f m mem)))

-- Two lists with the same mentions, in any order and however often, give the same interval.
pub resolve_dating_same :
    (birth_year : Option ℕ) (xs ys : List Mention)
    → ((m : Mention) → Memᴰ m xs → Memᴰ m ys)
    → ((m : Mention) → Memᴰ m ys → Memᴰ m xs)
    → resolve_dating xs birth_year ≡ resolve_dating ys birth_year
unfolding resolve_dating
resolve_dating_same birth_year xs ys f g =
    combine_intervals_same _ _ (resolved_mem birth_year xs ys f) (resolved_mem birth_year ys xs g)
