-- ===== src/ImageMatching/Best.antt =====
-- About the rows that `prepare_match_score_image_writes` returns for the pairs of a match.
use mathlib.Core.List.{Memᴰ}
use mathlib.Core.List.Memᴰ as Mem
use mathlib.Core.Path.{subst}
use sm_artmatch.Prelude.{
  ℕ, ◌≡◌, sym, ap, ◌∙◌, false, Option, String, List, [], ◌∷◌, ok, >>=-eq-ok, ok-injective,
}
use sm_artmatch.Prelude.Int.{ℤ}
use sm_artmatch.ImageMatching.{
  AcceptedMatch, Entry, Coerced, Pair, Grouped, is_better, offer_all, coerce_match, linked_pairs,
}
use sm_artmatch.ImageMatching.Offers.{
  Holds, offer_all-keeps, offer_all-Holds, entry_at-mem, sort_by_pair-mem,
}
use sm_artmatch.ImageMatching.Writes.{
  Write, make_write, group_matches, prepare_match_score_image_writes,
}

module _ {K : Type 0} (strip : String → String) (int : String → Option ℤ) (times : ℤ → ℤ → ℤ)
    (auction_links lost_links : ℕ → List ℕ) where
  -- One match of a run of the loop that raises nothing.
  pub group_matches-first :
      (match : AcceptedMatch K) (matches : List (AcceptedMatch K)) (g : Grouped K) {g' : Grouped K}
      → group_matches strip int times auction_links lost_links (match ∷ matches) g ≡ ok g'
      → (c : Coerced K) × (pairs : List Pair) × (coerce_match strip int times match ≡ ok c)
        × (linked_pairs auction_links lost_links c ≡ ok pairs)
        × (group_matches strip int times auction_links lost_links matches
              (offer_all c.entry pairs g)
            ≡ ok g')
  unfolding group_matches
  group_matches-first match matches g {g'} run =
      let (c, coerced, rest) = >>=-eq-ok (coerce_match strip int times match) _ {b = g'} run in
      let (pairs, linked, after) =
        >>=-eq-ok (linked_pairs auction_links lost_links c) _ {b = g'} rest in
      (c, pairs, coerced, linked, after)

  group_matches-keeps :
      (matches : List (AcceptedMatch K)) (e : Entry K) (pair : Pair) (g : Grouped K)
      {g' : Grouped K}
      → group_matches strip int times auction_links lost_links matches g ≡ ok g'
      → Holds pair e g
      → Holds pair e g'
  unfolding group_matches
  group_matches-keeps [] e pair g run h = subst (Holds pair e) (ok-injective run) h
  group_matches-keeps (match ∷ matches) e pair g run h =
      let (c, pairs, _, _, after) = group_matches-first match matches g run in
      group_matches-keeps matches e pair (offer_all c.entry pairs g) after
        (offer_all-keeps e c.entry pairs pair g h)

  group_matches-Holds :
      (matches : List (AcceptedMatch K)) (g : Grouped K) {g' : Grouped K} (match : AcceptedMatch K)
      (c : Coerced K) (pairs : List Pair) (pair : Pair)
      → group_matches strip int times auction_links lost_links matches g ≡ ok g'
      → Memᴰ match matches
      → coerce_match strip int times match ≡ ok c
      → linked_pairs auction_links lost_links c ≡ ok pairs
      → Memᴰ pair pairs
      → Holds pair c.entry g'
  group_matches-Holds [] g match c pairs pair run m coerced linked listed = elim m [ ]
  group_matches-Holds (first ∷ matches) g {g'} match c pairs pair run (Memᴰ.head e) coerced linked
        listed =
      let (c', pairs', coerced', linked', after) = group_matches-first first matches g run in
      let same =
        ok-injective (sym coerced' ∙ ap (coerce_match strip int times) (sym e) ∙ coerced) in
      let same_pairs =
        ok-injective (sym linked' ∙ ap (linked_pairs auction_links lost_links) same ∙ linked) in
      subst (λ (d : Coerced K). Holds pair d.entry g') same
        (group_matches-keeps matches c'.entry pair (offer_all c'.entry pairs' g) after
          (offer_all-Holds c'.entry pairs' pair g (subst (Memᴰ pair) (sym same_pairs) listed)))
  group_matches-Holds (first ∷ matches) g match c pairs pair run (Memᴰ.tail m) coerced linked
        listed =
      let (c', pairs', _, _, after) = group_matches-first first matches g run in
      group_matches-Holds matches (offer_all c'.entry pairs' g) match c pairs pair after m coerced
        linked listed

  -- Where the rows are prepared, each accepted match and each pair of artworks that its images are
  -- linked to have a row of that pair, whose scores the match does not better.
  pub prepare_match_score_image_writes-best :
      (program_id : ℕ) (matches : List (AcceptedMatch K)) (writes : List (Write K))
      (match : AcceptedMatch K) (c : Coerced K) (pairs : List Pair) (pair : Pair)
      → prepare_match_score_image_writes strip int times auction_links lost_links program_id matches
        ≡ ok writes
      → Memᴰ match matches
      → coerce_match strip int times match ≡ ok c
      → linked_pairs auction_links lost_links c ≡ ok pairs
      → Memᴰ pair pairs
      → (e : Entry K) × Memᴰ (make_write program_id (pair, e)) writes
        × (is_better c.entry e ≡ false)
  unfolding prepare_match_score_image_writes
  prepare_match_score_image_writes-best program_id matches writes match c pairs pair run m coerced
        linked listed =
      let (grouped, grouping, rows) =
        >>=-eq-ok (group_matches strip int times auction_links lost_links matches []) _ {b = writes}
          run in
      let (e, found, not) =
        group_matches-Holds matches [] match c pairs pair grouping m coerced linked listed in
      (
        e,
        subst (Memᴰ (make_write program_id (pair, e))) (ok-injective rows) (
            Mem.map (make_write program_id)
              (sort_by_pair-mem grouped (entry_at-mem pair grouped found))),
        not,
      )
