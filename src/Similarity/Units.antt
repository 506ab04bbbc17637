-- ===== src/Similarity/Units.antt =====
-- Laws of the interface to float arithmetic, and what they say of numbers between 0.0 and 1.0.
use sm_artmatch.Prelude.{
  Bool, true, false, Bool-cases, inl, inr, ◌||◌, Option, ℕ, ◌≤◌, ◌<◌, ◌≡◌, length, List, [], ◌∷◌,
  leb, if◌then◌else◌,
}
use sm_artmatch.Matching.{Floats}
use sm_artmatch.Matching.Laws.{Le, IsMonotone, InUnit, MaybeInUnit}
use sm_artmatch.Similarity.{Arithmetic, one, zero_f, clamp, at_most_one, mean, rarity}

abbrev pub AllInUnit : {F : Type 0} → Floats F → List F → Type 0
AllInUnit fl [] = Unit
AllInUnit fl (x ∷ xs) = InUnit fl x × AllInUnit fl xs

-- What the code relies on of floats without NaN: 1.0 + 1.0 is at most 2.0, numbers of names are exact
-- and in order, and a sum is no larger than its number of summands if none is larger than 1.0.
pub record IsArithmetic {F : Type 0} (fl : Floats F) (ar : Arithmetic F) : Type 0 where
  pub double : Le fl (fl.add (one fl) (one fl)) (fl.hundredths 200)
  pub two_pos : fl.lt (zero_f fl) (fl.hundredths 200) ≡ true
  pub of_nat_mono : (m n : ℕ) → m ≤ n → Le fl (ar.of_nat m) (ar.of_nat n)
  pub of_nat_zero : (n : ℕ) → Le fl (zero_f fl) (ar.of_nat n)
  pub of_nat_pos : (n : ℕ) → 0 < n → fl.lt (zero_f fl) (ar.of_nat n) ≡ true
  pub sum_pos : (xs : List F) → AllInUnit fl xs → Le fl (zero_f fl) (ar.sum xs)
  pub sum_le : (xs : List F) → AllInUnit fl xs → Le fl (ar.sum xs) (ar.of_nat (length xs))

module _ {F : Type 0} (fl : Floats F) (ar : Arithmetic F) (law : IsMonotone fl)
    (laws : IsArithmetic fl ar) where
  pub zero-InUnit : InUnit fl (zero_f fl)
  zero-InUnit = (law.irrefl (zero_f fl), law.literal 100)

  pub one-InUnit : InUnit fl (one fl)
  one-InUnit = (law.literal 100, law.irrefl (one fl))

  pub if-InUnit : (b : Bool) (x y : F) → InUnit fl x → InUnit fl y → InUnit fl (if b then x else y)
  if-InUnit true x y h k = h
  if-InUnit false x y h k = k

  pub clamp-InUnit : (x : F) → InUnit fl (clamp fl x)
  unfolding clamp
  clamp-InUnit x = elim (Bool-cases (fl.lt (zero_f fl) (at_most_one fl x))) [
    | inl positive ↦ rw positive (law.asym _ _ positive, at_most_one_le x)
    | inr other ↦ rw other zero-InUnit
  ]
    where
      at_most_one_le : (y : F) → Le fl (at_most_one fl y) (one fl)
      at_most_one_le y = elim (Bool-cases (fl.lt y (one fl))) [
        | inl small ↦ rw small (law.asym y (one fl) small)
        | inr large ↦ rw large (law.irrefl (one fl))
      ]

  pub mean-InUnit : (a b : F) → InUnit fl a → InUnit fl b → InUnit fl (mean fl a b)
  unfolding mean
  mean-InUnit a b (a_pos, a_le) (b_pos, b_le) = (
    law.div_pos (fl.add a b) (fl.hundredths 200) (law.add_pos a b a_pos b_pos) laws.two_pos,
    law.div_le (fl.add a b) (fl.hundredths 200)
        (law.trans (fl.add a b) (fl.add (one fl) (one fl)) (fl.hundredths 200)
          (law.add_mono a (one fl) b (one fl) a_le b_le) laws.double)
        laws.two_pos,
  )

  pub if-MaybeInUnit :
      (b : Bool) (x y : Option F)
      → MaybeInUnit fl x
      → MaybeInUnit fl y
      → MaybeInUnit fl (if b then x else y)
  if-MaybeInUnit true x y h k = h
  if-MaybeInUnit false x y h k = k

  pub rarity-InUnit : (total count : ℕ) → InUnit fl (rarity fl ar total count)
  unfolding rarity
  rarity-InUnit total count = if-InUnit (leb total 1 || leb count 1) _ _ one-InUnit (clamp-InUnit _)

  pub quotient-InUnit : (m n : ℕ) → m ≤ n → 0 < n → InUnit fl (fl.div (ar.of_nat m) (ar.of_nat n))
  quotient-InUnit m n h positive = (
    law.div_pos (ar.of_nat m) (ar.of_nat n) (laws.of_nat_zero m) (laws.of_nat_pos n positive),
    law.div_le (ar.of_nat m) (ar.of_nat n) (laws.of_nat_mono m n h) (laws.of_nat_pos n positive),
  )

  -- `sum(xs) / len(xs)`
  pub average-InUnit :
      (xs : List F)
      → 0 < length xs
      → AllInUnit fl xs
      → InUnit fl (fl.div (ar.sum xs) (ar.of_nat (length xs)))
  average-InUnit xs positive all = (
    law.div_pos (ar.sum xs) (ar.of_nat (length xs)) (laws.sum_pos xs all)
        (laws.of_nat_pos _ positive),
    law.div_le (ar.sum xs) (ar.of_nat (length xs)) (laws.sum_le xs all)
        (laws.of_nat_pos _ positive),
  )
