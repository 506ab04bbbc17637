-- ===== src/Rankings/Load.antt =====
-- `load_auction_to_lost_rankings_with_paths`: the rankings of all parts, handed on in batches.
use mathlib.Core.List.{append-nil, append_assoc}
use sm_artmatch.Prelude.{
  ℕ, suc, ◌+◌, ◌*◌, ◌<◌, ◌≡◌, refl, sym, ap, ◌∙◌, false, Bool-cases, inl, inr, Option, none, some,
  String, List, [], ◌∷◌, ◌++◌, arith, if◌then◌else◌, ◌==◌, ==_iff, length, length-append,
}
use sm_artmatch.Prelude.Int.{ℤ, pos}
use sm_artmatch.Rankings.{Error, bad_batch_size, directory_not_found, Part}
use sm_artmatch.Rankings.Stream.{Generator, Item, stop, yield_all, iter_ranking_rows, iter_rankings}

-- The loop that fills `batch` and hands it on when it is full. An exception drops the batch.
unfoldable pub batches : {A : Type 0} → ℕ → List A → List A → Option Error → Generator A
batches size batch [] none = yield_all batch (stop none)
batches size batch [] (some e) = stop (some e)
batches size batch (x ∷ xs) failure =
    let full = yield_all (batch ++ x ∷ []) (batches size [] xs failure) in
    let room = batches size (batch ++ x ∷ []) xs failure in
    if length (batch ++ x ∷ []) == size then full else room

module _ {S : Type 0} (strip : String → String)
    (auction_paths lost_paths : String → Option String) where
  unfoldable pub load_parts : ℕ → List (Part S) → Generator (Item S)
  unfolding batches
  load_parts size [] = stop none
  load_parts size (part ∷ parts) =
      let items = iter_rankings auction_paths lost_paths (iter_ranking_rows strip (part ∷ parts)) in
      batches size [] items.yielded items.raised

  -- `parts` is none where the directory is missing.
  unfoldable pub load_rankings : ℤ → Option (List (Part S)) → Generator (Item S)
  unfolding load_parts
  load_rankings (pos (suc size)) (some parts) = load_parts (suc size) parts
  load_rankings (pos (suc size)) none = stop (some directory_not_found)
  load_rankings _ parts = stop (some bad_batch_size)

module _ {A : Type 0} where
  -- What a consumer has of the items when an exception ends them: whole batches, and less than
  -- one batch is dropped.
  pub record Cut (size : ℕ) (items : List A) (failure : Error) (g : Generator A) : Type 0 where
    pub dropped : List A
    pub count : ℕ
    pub split : items ≡ g.yielded ++ dropped
    pub raised : g.raised ≡ some failure
    pub fewer : length dropped < size
    pub whole : length g.yielded ≡ count * size

  length-snoc : (batch : List A) (x : A) → length (batch ++ x ∷ []) ≡ length batch + 1
  length-snoc batch x = length-append batch (x ∷ [])

  room_left :
      (size : ℕ) (batch : List A) (x : A)
      → length batch < size
      → (length (batch ++ x ∷ []) == size) ≡ false
      → length (batch ++ x ∷ []) < size
  room_left size batch x h room = ground (arith, length-snoc batch x)

  batches-Cut :
      (size : ℕ) (batch items : List A) (failure : Error)
      → length batch < size
      → Cut size (batch ++ items) failure (batches size batch items (some failure))
  unfolding batches
  batches-Cut size batch [] e h = record {
    dropped = batch;
    count = 0;
    split = append-nil batch;
    raised = refl;
    fewer = h;
    whole = omega arith;
  }
  batches-Cut size batch (x ∷ xs) e h = elim (Bool-cases (length (batch ++ x ∷ []) == size)) [
    | inl full ↦
        let rest = batches-Cut size [] xs e (omega arith) in
        rw full (record {
          dropped = rest.dropped;
          count = rest.count + 1;
          split =
              sym (append_assoc batch (x ∷ []) xs)
              ∙ ap (λ (l : List A). (batch ++ x ∷ []) ++ l) rest.split
              ∙ sym (append_assoc (batch ++ x ∷ []) _ rest.dropped);
          raised = rest.raised;
          fewer = rest.fewer;
          whole =
              length-append (batch ++ x ∷ []) _ ∙ omega (arith, rest.whole, (==_iff _ _).0 full);
        })
    | inr room ↦
        let rest = batches-Cut size (batch ++ x ∷ []) xs e (room_left size batch x h room) in
        rw room (record {
          dropped = rest.dropped;
          count = rest.count;
          split = sym (append_assoc batch (x ∷ []) xs) ∙ rest.split;
          raised = rest.raised;
          fewer = rest.fewer;
          whole = rest.whole;
        })
  ]

  batches_all :
      (size : ℕ) (batch items : List A)
      → batches size batch items none ≡ record { yielded = batch ++ items; raised = none }
  unfolding batches
  batches_all size batch [] = refl
  batches_all size batch (x ∷ xs) = elim (Bool-cases (length (batch ++ x ∷ []) == size)) [
    | inl full ↦ rw (full, batches_all size [] xs) (rw (append_assoc batch (x ∷ []) xs))
    | inr room ↦
        rw (room, batches_all size (batch ++ x ∷ []) xs) (rw (append_assoc batch (x ∷ []) xs))
  ]

  handed_all :
      (size : ℕ) (g : Generator A) → g.raised ≡ none → batches size [] g.yielded g.raised ≡ g
  handed_all size g h = rw h (batches_all size [] g.yielded)

module _ {S : Type 0} (strip : String → String) (auction_paths lost_paths : String → Option String)
    (size : ℕ) where
  load_parts_all :
      (parts : List (Part S))
      → (iter_rankings auction_paths lost_paths (iter_ranking_rows strip parts)).raised ≡ none
      → load_parts strip auction_paths lost_paths (suc size) parts
        ≡ iter_rankings auction_paths lost_paths (iter_ranking_rows strip parts)
  unfolding load_parts
  load_parts_all [] h = unfold iter_ranking_rows iter_rankings in refl
  load_parts_all (part ∷ parts) h = handed_all (suc size) _ h

  load_parts-Cut :
      (parts : List (Part S)) (failure : Error)
      → (iter_rankings auction_paths lost_paths (iter_ranking_rows strip parts)).raised
        ≡ some failure
      → Cut
          (suc size)
          (iter_rankings auction_paths lost_paths (iter_ranking_rows strip parts)).yielded
          failure
          (load_parts strip auction_paths lost_paths (suc size) parts)
  unfolding load_parts
  load_parts-Cut [] failure h = absurd (unfold iter_ranking_rows iter_rankings in cc h)
  load_parts-Cut (part ∷ parts) failure h = rw h (batches-Cut (suc size) [] _ failure (omega arith))

module _ {S : Type 0} (strip : String → String) (auction_paths lost_paths : String → Option String)
    (size : ℕ) (parts : List (Part S)) where
  abbrev pub rankings : Generator (Item S)
  rankings = iter_rankings auction_paths lost_paths (iter_ranking_rows strip parts)

  -- With a positive batch size, rankings that raise nothing are handed on whole and in order.
  pub load_rankings_all :
      rankings.raised ≡ none
      → load_rankings strip auction_paths lost_paths (pos (suc size)) (some parts) ≡ rankings
  unfolding load_rankings
  load_rankings_all h = load_parts_all strip auction_paths lost_paths size parts h

  -- With a positive batch size, rankings that end in an exception are handed on up to the last full
  -- batch, and the same exception follows.
  pub load_rankings-Cut :
      (failure : Error)
      → rankings.raised ≡ some failure
      → Cut
          (suc size)
          rankings.yielded
          failure
          (load_rankings strip auction_paths lost_paths (pos (suc size)) (some parts))
  unfolding load_rankings
  load_rankings-Cut failure h = load_parts-Cut strip auction_paths lost_paths size parts failure h
