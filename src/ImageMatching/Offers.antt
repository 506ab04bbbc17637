-- ===== src/ImageMatching/Offers.antt =====
-- About the dict `grouped` of result_rows.py: a match's entry offered to its pairs, and the sort.
use mathlib.Core.List.{Memᴰ}
use mathlib.Core.Path.{subst}
use mathlib.Core.Option.{some-injective}
use sm_artmatch.Prelude.{
  ◌≡◌, refl, sym, ◌∙◌, Bool, true, false, Bool-cases, Option-cases, inl, inr, Option, none, some,
  List, [], ◌∷◌, arith, if◌then◌else◌,
}
use sm_artmatch.Prelude.Int.{ℤ, ltb_ℤ}
use sm_artmatch.ImageMatching.{
  Entry, Pair, Grouped, same_pair, blocking_better, is_better, entry_at, assign, offer, offer_all,
}
use sm_artmatch.ImageMatching.Writes.{pair_less, insert_by_pair, sort_by_pair}

pub same_pair→eq : (p q : Pair) → same_pair p q ≡ true → p ≡ q
same_pair→eq (a, b) (c, d) h = λ i. (left i, right i)
  where
    left : a ≡ c
    left = ground arith

    right : b ≡ d
    right = ground arith

same_pair_refl : (p : Pair) → same_pair p p ≡ true
same_pair_refl (a, b) = ground arith

blocking_better_refl : (o : Option ℤ) → blocking_better o o ≡ false
unfolding blocking_better
blocking_better_refl o = ground arith

blocking_better_trans :
    (a b c : Option ℤ)
    → blocking_better a b ≡ false
    → blocking_better b c ≡ false
    → blocking_better a c ≡ false
unfolding blocking_better
blocking_better_trans none b none h k = refl
blocking_better_trans none b (some z) h k = refl
blocking_better_trans (some x) none c h k = absurd (cc)
blocking_better_trans (some x) (some y) none h k = k
blocking_better_trans (some x) (some y) (some z) h k = ground arith

-- One level of `is_better`: the scores decide, and equal ones leave it to the rest.
abbrev decide : ℤ → ℤ → Bool → Bool
decide x y rest = if ltb_ℤ y x then true else if ltb_ℤ x y then false else rest

decide_trans :
    (x y z : ℤ) (p q r : Bool)
    → decide x y p ≡ false
    → decide y z q ≡ false
    → (p ≡ false → q ≡ false → r ≡ false)
    → decide x z r ≡ false
decide_trans x y z true q r h k f = ground arith
decide_trans x y z false true r h k f = ground arith
decide_trans x y z false false r h k f = ground (arith, f refl refl)

other_pair :
    (key pair pair' : Pair)
    → same_pair pair pair' ≡ false
    → same_pair key pair ≡ true
    → same_pair key pair' ≡ false
other_pair (a, b) (c, d) (x, y) h k = ground arith

module _ {K : Type 0} where
  is_better_refl : (e : Entry K) → is_better e e ≡ false
  unfolding is_better
  is_better_refl e = ground (arith, blocking_better_refl e.blocking_score)

  is_better_asym : (e f : Entry K) → is_better e f ≡ true → is_better f e ≡ false
  unfolding is_better blocking_better
  is_better_asym e f h = ground arith

  not_better_trans :
      (a b c : Entry K) → is_better a b ≡ false → is_better b c ≡ false → is_better a c ≡ false
  unfolding is_better
  not_better_trans a b c h k =
      decide_trans a.final_score b.final_score c.final_score _ _ _ h k (λ h' k'.
        decide_trans a.confidence b.confidence c.confidence _ _ _ h' k'
          (blocking_better_trans a.blocking_score b.blocking_score c.blocking_score))

  -- The pair has an entry that is not worse than `e`.
  abbrev pub Holds : Pair → Entry K → Grouped K → Type 0
  Holds pair e grouped =
      (e' : Entry K) × (entry_at pair grouped ≡ some e') × (is_better e e' ≡ false)

  entry_at-assign :
      (pair : Pair) (e : Entry K) (g : Grouped K) → entry_at pair (assign pair e g) ≡ some e
  unfolding entry_at assign
  entry_at-assign pair e [] = rw (same_pair_refl pair)
  entry_at-assign pair e ((key, old) ∷ g) = elim (Bool-cases (same_pair key pair)) [
    | inl same ↦ rw (same, same)
    | inr other ↦ rw (other, other) (entry_at-assign pair e g)
  ]

  entry_at-assign_other :
      (pair pair' : Pair) (e : Entry K) (g : Grouped K)
      → same_pair pair pair' ≡ false
      → entry_at pair' (assign pair e g) ≡ entry_at pair' g
  unfolding entry_at assign
  entry_at-assign_other pair pair' e [] h = rw h
  entry_at-assign_other pair pair' e ((key, old) ∷ g) h = elim (Bool-cases (same_pair key pair)) [
    | inl same ↦ rw (same, other_pair key pair pair' h same)
    | inr other ↦
        let rest = entry_at-assign_other pair pair' e g h in
        elim (Bool-cases (same_pair key pair')) [
          | inl here ↦ rw (other, here)
          | inr there ↦ rw (other, there) rest
        ]
  ]

  offer-Holds : (e : Entry K) (pair : Pair) (g : Grouped K) → Holds pair e (offer e pair g)
  unfolding offer
  offer-Holds e pair g = elim (Option-cases (entry_at pair g)) [
    | inl missing ↦ rw missing (e, entry_at-assign pair e g, is_better_refl e)
    | inr (current, there) ↦ elim (Bool-cases (is_better e current)) [
      | inl better ↦ rw (there, better) (e, entry_at-assign pair e g, is_better_refl e)
      | inr not ↦ rw (there, not) (current, there, not)
    ]
  ]

  offer-keeps_same :
      (e new : Entry K) (pair : Pair) (g : Grouped K)
      → Holds pair e g
      → Holds pair e (offer new pair g)
  unfolding offer
  offer-keeps_same e new pair g (current, there, not) = elim (Bool-cases (is_better new current)) [
    | inl better ↦
        rw (there, better)
          (
            new,
            entry_at-assign pair new g,
            not_better_trans e current new not (is_better_asym new current better),
          )
    | inr worse ↦ rw (there, worse) (current, there, not)
  ]

  offer_other :
      (new : Entry K) (pair pair' : Pair) (g : Grouped K)
      → same_pair pair pair' ≡ false
      → entry_at pair' (offer new pair g) ≡ entry_at pair' g
  unfolding offer
  offer_other new pair pair' g other = elim (Option-cases (entry_at pair g)) [
    | inl missing ↦ rw missing (entry_at-assign_other pair pair' new g other)
    | inr (current, there) ↦ elim (Bool-cases (is_better new current)) [
      | inl better ↦ rw (there, better) (entry_at-assign_other pair pair' new g other)
      | inr worse ↦ rw (there, worse)
    ]
  ]

  offer-keeps :
      (e new : Entry K) (pair pair' : Pair) (g : Grouped K)
      → Holds pair' e g
      → Holds pair' e (offer new pair g)
  offer-keeps e new pair pair' g (e', there, not) = elim (Bool-cases (same_pair pair pair')) [
    | inl same ↦
        subst (λ p. Holds pair' e (offer new p g)) (sym (same_pair→eq pair pair' same))
          (offer-keeps_same e new pair' g (e', there, not))
    | inr other ↦ (e', offer_other new pair pair' g other ∙ there, not)
  ]

  pub offer_all-keeps :
      (e new : Entry K) (pairs : List Pair) (pair : Pair) (g : Grouped K)
      → Holds pair e g
      → Holds pair e (offer_all new pairs g)
  unfolding offer_all
  offer_all-keeps e new [] pair g h = h
  offer_all-keeps e new (p ∷ pairs) pair g h =
      offer_all-keeps e new pairs pair (offer new p g) (offer-keeps e new p pair g h)

  pub offer_all-Holds :
      (e : Entry K) (pairs : List Pair) (pair : Pair) (g : Grouped K)
      → Memᴰ pair pairs
      → Holds pair e (offer_all e pairs g)
  unfolding offer_all
  offer_all-Holds e [] pair g m = elim m [ ]
  offer_all-Holds e (p ∷ pairs) pair g (Memᴰ.head same) =
      offer_all-keeps e e pairs pair (offer e p g)
        (subst (λ q. Holds pair e (offer e q g)) same (offer-Holds e pair g))
  offer_all-Holds e (p ∷ pairs) pair g (Memᴰ.tail m) = offer_all-Holds e pairs pair (offer e p g) m

  pub entry_at-mem :
      (pair : Pair) (g : Grouped K) {e : Entry K} → entry_at pair g ≡ some e → Memᴰ (pair, e) g
  unfolding entry_at
  entry_at-mem pair [] found = absurd (cc)
  entry_at-mem pair ((key, old) ∷ g) {e} found = elim (Bool-cases (same_pair key pair)) [
    | inl same ↦
        Memᴰ.head (λ i.
          (sym (same_pair→eq key pair same) i, sym (some-injective old e (rw same at found)) i))
    | inr other ↦ Memᴰ.tail (entry_at-mem pair g (rw other at found))
  ]

  insert_by_pair-new :
      (row : Pair × Entry K) (rows : Grouped K) {x : Pair × Entry K}
      → x ≡ row
      → Memᴰ x (insert_by_pair row rows)
  unfolding insert_by_pair
  insert_by_pair-new row [] e = Memᴰ.head e
  insert_by_pair-new row (first ∷ rows) e = elim (Bool-cases (pair_less first.0 row.0)) [
    | inl later ↦ rw later (Memᴰ.tail (insert_by_pair-new row rows e))
    | inr here ↦ rw here (Memᴰ.head e)
  ]

  insert_by_pair-old :
      (row : Pair × Entry K) (rows : Grouped K) {x : Pair × Entry K}
      → Memᴰ x rows
      → Memᴰ x (insert_by_pair row rows)
  unfolding insert_by_pair
  insert_by_pair-old row [] m = elim m [ ]
  insert_by_pair-old row (first ∷ rows) (Memᴰ.head e) =
      elim (Bool-cases (pair_less first.0 row.0)) [
        | inl later ↦ rw later (Memᴰ.head e)
        | inr here ↦ rw here (Memᴰ.tail (Memᴰ.head e))
      ]
  insert_by_pair-old row (first ∷ rows) (Memᴰ.tail m) =
      elim (Bool-cases (pair_less first.0 row.0)) [
        | inl later ↦ rw later (Memᴰ.tail (insert_by_pair-old row rows m))
        | inr here ↦ rw here (Memᴰ.tail (Memᴰ.tail m))
      ]

  pub sort_by_pair-mem :
      (rows : Grouped K) {x : Pair × Entry K} → Memᴰ x rows → Memᴰ x (sort_by_pair rows)
  unfolding sort_by_pair
  sort_by_pair-mem [] m = elim m [ ]
  sort_by_pair-mem (row ∷ rows) (Memᴰ.head e) = insert_by_pair-new row (sort_by_pair rows) e
  sort_by_pair-mem (row ∷ rows) (Memᴰ.tail m) =
      insert_by_pair-old row (sort_by_pair rows) (sort_by_pair-mem rows m)
