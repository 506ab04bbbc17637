-- ===== src/ImageMatching/Origin.antt =====
-- About the matches that the rows of `prepare_match_score_image_writes` stem from.
use mathlib.Core.List.{Memᴰ}
use mathlib.Core.List.Memᴰ as Mem
use sm_artmatch.Prelude.{ℕ, ◌≡◌, Option, String, List, ok}
use sm_artmatch.Prelude.Int.{ℤ}
use sm_artmatch.ImageMatching.{AcceptedMatch, Entry, Coerced, Pair, coerce_match, linked_pairs}

module _ {K : Type 0} (strip : String → String) (int : String → Option ℤ) (times : ℤ → ℤ → ℤ)
    (auction_links lost_links : ℕ → List ℕ) where
  -- A match of the list that offers the entry for the pair.
  pub record Origin (matches : List (AcceptedMatch K)) (x : Pair × Entry K) : Type 0 where
    pub match : AcceptedMatch K
    pub coerced : Coerced K
    pub pairs : List Pair
    pub accepted : Memᴰ match matches
    pub valid : coerce_match strip int times match ≡ ok coerced
    pub linked : linked_pairs auction_links lost_links coerced ≡ ok pairs
    pub listed : Memᴰ x.0 pairs
    pub offered : x.1 ≡ coerced.entry
