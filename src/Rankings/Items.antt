-- ===== src/Rankings/Items.antt =====
-- About `_build_item`: the item that a run of rows becomes, with its candidates sorted by rank.
use mathlib.Core.Path.{subst}
use sm_artmatch.Prelude.{
  ℕ, ◌≤◌, ◌≡◌, refl, ap, ◌∙◌, Bool-cases, inl, inr, Option, Option-cases, some, String, List, [],
  ◌∷◌, arith, leb, leb→le, ◌==◌, if◌then◌else◌, ok, >>=-eq-ok, ok-injective,
}
use sm_artmatch.Rankings.Stream.{
  Candidate, Match, Item, Group, lookup_path, insert_by_rank, sort_by_rank, make_matches, make_item,
}

lookup_path_sound :
    (paths : String → Option String) (id path : String)
    → lookup_path paths id ≡ ok path
    → paths id ≡ some path
unfolding lookup_path
lookup_path_sound paths id path h = elim (Option-cases (paths id)) [
  | inl none_there ↦ absurd (cc (rw (none_there, lookup_path) at h))
  | inr (found, e) ↦ e ∙ ap some (ok-injective (rw (e, lookup_path) at h))
]

module _ {S : Type 0} where
  -- No rank is below the number.
  abbrev pub Above : ℕ → List (Candidate S) → Type 0
  Above n [] = Unit {0}
  Above n (c ∷ cs) = (n ≤ c.rank) × Above n cs

  abbrev pub IsSorted : List (Candidate S) → Type 0
  IsSorted [] = Unit {0}
  IsSorted (c ∷ cs) = Above c.rank cs × IsSorted cs

  -- The candidates of one rank, in their order.
  abbrev pub of_rank : ℕ → List (Candidate S) → List (Candidate S)
  of_rank r [] = []
  of_rank r (c ∷ cs) = let rest = of_rank r cs in if c.rank == r then c ∷ rest else rest

  -- The second list is the first sorted by rank: for each rank, it has the same candidates in the same
  -- order.
  pub record Sorted (cs ds : List (Candidate S)) : Type 0 where
    pub ascending : IsSorted ds
    pub stable : (r : ℕ) → of_rank r ds ≡ of_rank r cs

  Above-trans : (m n : ℕ) (cs : List (Candidate S)) → m ≤ n → Above n cs → Above m cs
  Above-trans m n [] h a = tt
  Above-trans m n (c ∷ cs) h (first, a) = (omega (arith, first), Above-trans m n cs h a)

  insert_by_rank-Above :
      (n : ℕ) (c : Candidate S) (ds : List (Candidate S))
      → n ≤ c.rank
      → Above n ds
      → Above n (insert_by_rank c ds)
  unfolding insert_by_rank
  insert_by_rank-Above n c [] h a = (h, tt)
  insert_by_rank-Above n c (d ∷ ds) h (first, a) =
      let rest = insert_by_rank-Above n c ds h a in
      elim (Bool-cases (leb c.rank d.rank)) [
        | inl before ↦ rw before (h, (first, a))
        | inr after ↦ rw after (first, rest)
      ]

  insert_by_rank-IsSorted :
      (c : Candidate S) (ds : List (Candidate S)) → IsSorted ds → IsSorted (insert_by_rank c ds)
  unfolding insert_by_rank
  insert_by_rank-IsSorted c [] s = (tt, tt)
  insert_by_rank-IsSorted c (d ∷ ds) (first, s) =
      let rest = insert_by_rank-IsSorted c ds s in
      elim (Bool-cases (leb c.rank d.rank)) [
        | inl before ↦
            let h = leb→le c.rank d.rank before in
            rw before ((h, Above-trans c.rank d.rank ds h first), (first, s))
        | inr after ↦ rw after (insert_by_rank-Above d.rank c ds (ground arith) first, rest)
      ]

  of_rank-insert_by_rank :
      (r : ℕ) (c : Candidate S) (ds : List (Candidate S))
      → of_rank r (insert_by_rank c ds) ≡ of_rank r (c ∷ ds)
  unfolding insert_by_rank
  of_rank-insert_by_rank r c [] = refl
  of_rank-insert_by_rank r c (d ∷ ds) = let rest = of_rank-insert_by_rank r c ds in ground arith

  pub sort_by_rank-Sorted : (cs : List (Candidate S)) → Sorted cs (sort_by_rank cs)
  unfolding sort_by_rank
  sort_by_rank-Sorted [] = record { ascending = tt; stable = λ r. refl }
  sort_by_rank-Sorted (c ∷ cs) =
      let s = sort_by_rank-Sorted cs in
      record {
        ascending = insert_by_rank-IsSorted c (sort_by_rank cs) s.ascending;
        stable = λ r.
            let same = s.stable r in
            of_rank-insert_by_rank r c (sort_by_rank cs)
            ∙ ap (λ (rest : List (Candidate S)). if c.rank == r then c ∷ rest else rest) same;
      }

module _ {S : Type 0} (auction_paths lost_paths : String → Option String) where
  -- The matches are the candidates, in order, with the paths of their files.
  abbrev pub AreMatches : List (Candidate S) → List (Match S) → Type 0
  AreMatches [] [] = Unit {0}
  AreMatches [] (m ∷ ms) = ⊥
  AreMatches (c ∷ cs) [] = ⊥
  AreMatches (c ∷ cs) (m ∷ ms) =
      (m.lost_file_id ≡ c.lost_id)
      × (lost_paths c.lost_id ≡ some m.lost_file_path)
      × (m.blocking_score ≡ c.blocking_score)
      × AreMatches cs ms

  pub record IsItem (g : Group S) (item : Item S) : Type 0 where
    pub file_id : item.auction_file_id ≡ g.auction_id
    pub file_path : auction_paths g.auction_id ≡ some item.auction_file_path
    pub version : item.auction_content_version ≡ g.auction_version
    pub revision : item.lost_content_revision ≡ g.lost_revision
    pub sorted : List (Candidate S)
    pub by_rank : Sorted g.candidates sorted
    pub matches : AreMatches sorted item.match_candidates

  -- An item for each group, in order.
  abbrev pub AreItems : List (Group S) → List (Item S) → Type 0
  AreItems [] [] = Unit {0}
  AreItems [] (item ∷ items) = ⊥
  AreItems (g ∷ gs) [] = ⊥
  AreItems (g ∷ gs) (item ∷ items) = IsItem g item × AreItems gs items

  make_matches-AreMatches :
      (cs : List (Candidate S)) (ms : List (Match S))
      → make_matches auction_paths lost_paths cs ≡ ok ms
      → AreMatches cs ms
  unfolding make_matches
  make_matches-AreMatches [] ms h = subst (AreMatches []) (ok-injective h) tt
  make_matches-AreMatches (c ∷ cs) ms h =
      let (path, found, h₁) = >>=-eq-ok (lookup_path lost_paths c.lost_id) _ h in
      let (rest, made, h₂) = >>=-eq-ok (make_matches auction_paths lost_paths cs) _ h₁ in
      subst (AreMatches (c ∷ cs)) (ok-injective h₂) (
        refl,
        lookup_path_sound lost_paths c.lost_id path found,
        refl,
        make_matches-AreMatches cs rest made,
      )

  pub make_item-IsItem :
      (g : Group S) (item : Item S) → make_item auction_paths lost_paths g ≡ ok item → IsItem g item
  unfolding make_item
  make_item-IsItem g item h =
      let (path, found, h₁) = >>=-eq-ok (lookup_path auction_paths g.auction_id) _ h in
      let (ms, made, h₂) =
        >>=-eq-ok (make_matches auction_paths lost_paths (sort_by_rank g.candidates)) _ h₁ in
      subst (IsItem g) (ok-injective h₂) (record {
        file_id = refl;
        file_path = lookup_path_sound auction_paths g.auction_id path found;
        version = refl;
        revision = refl;
        sorted = sort_by_rank g.candidates;
        by_rank = sort_by_rank-Sorted g.candidates;
        matches = make_matches-AreMatches (sort_by_rank g.candidates) ms made;
      })
