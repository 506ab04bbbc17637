-- ===== src/Rankings/Agreement.antt =====
-- About the items of a run of `_iter_rankings` that raises nothing, and the rows they stem from.
use mathlib.Core.List.{Memᴰ}
use mathlib.Core.Path.{subst}
use mathlib.Core.Option.{some-injective}
use sm_artmatch.Prelude.{
  ℕ, ◌≡◌, refl, sym, ap, ◌∙◌, true, false, Bool-cases, inl, inr, Option, none, some, String, List,
  [], ◌∷◌, ◌++◌, map, arith, str_eq, eq_iff,
}
use sm_artmatch.Rankings.{Row}
use sm_artmatch.Prelude.Dicts.{contains}
use sm_artmatch.Rankings.Stream.{
  Item, Group, State, initial, same_operation, group_of, append_candidate, iter_rankings,
}
use sm_artmatch.Rankings.Groups.{arrived}
use sm_artmatch.Rankings.Steps.{
  same_number→eq, Shows, Stepped, begun, extended, flushed_current, Run, ended_before, ended,
  stepped, loop-Run,
}

abbrev pub ids : {S : Type 0} → List (Item S) → List String
ids items = map (λ (item : Item _). item.auction_file_id) items

-- No id stands twice.
abbrev pub Distinct : List String → Type 0
Distinct [] = Unit
Distinct (x ∷ xs) = (contains x xs ≡ false) × Distinct xs

same_operation→eq :
    (o : Option (Option ℕ)) (operation revision : Option ℕ)
    → o ≡ some operation
    → same_operation o revision ≡ true
    → revision ≡ operation
same_operation→eq none operation revision e h = absurd (cc)
same_operation→eq (some o) operation revision e h = ground (arith, same_number→eq o revision h)

not_contains-ne :
    (x y : String) (xs : List String)
    → contains x xs ≡ true
    → contains y xs ≡ false
    → str_eq x y ≡ false
not_contains-ne x y xs h k = elim (Bool-cases (str_eq x y)) [
  | inl same ↦ absurd (cc ((eq_iff x y).0 same))
  | inr other ↦ other
]

contains-head : (x : String) (xs : List String) → contains x (x ∷ xs) ≡ true
contains-head x xs = rw ((eq_iff x x).1 refl)

current_eq {ℓ} : {A : Type ℓ} {o : Option A} {a b : A} → o ≡ some a → o ≡ some b → a ≡ b
current_eq {a} {b} c e = some-injective a b (sym c ∙ e)

module _ {S : Type 0} (auction_paths lost_paths : String → Option String) where
  -- The current group is new, and has the revision of the run.
  record IsSound (st : State S) : Type 0 where
    new : (g : Group S) → st.current ≡ some g → contains g.auction_id st.seen ≡ false
    revision : (g : Group S) → st.current ≡ some g → st.operation_revision ≡ some g.lost_revision

  abbrev pub RowOf : Row S → Item S → Type 0
  RowOf row item =
      (item.auction_file_id ≡ row.auction_id)
      × (item.auction_content_version ≡ row.auction_version)
      × (item.lost_content_revision ≡ row.lost_revision)

  record Good (st : State S) (rows : List (Row S)) (items : List (Item S)) : Type 0 where
    distinct : Distinct (ids items)
    avoid : (x : String) → contains x st.seen ≡ true → contains x (ids items) ≡ false
    current : (g : Group S) → st.current ≡ some g → (item : Item S) × Memᴰ item items × Shows item g
    listed : (row : Row S) → Memᴰ row rows → (item : Item S) × Memᴰ item items × RowOf row item
    same :
        (row : Row S) (operation : Option ℕ)
        → Memᴰ row rows
        → st.operation_revision ≡ some operation
        → row.lost_revision ≡ operation
    one : (a b : Row S) → Memᴰ a rows → Memᴰ b rows → a.lost_revision ≡ b.lost_revision

  kept_revision :
      {st : State S} (row : Row S) (g : Group S)
      → same_operation st.operation_revision row.lost_revision ≡ true
      → IsSound st
      → st.current ≡ some g
      → row.lost_revision ≡ g.lost_revision
  kept_revision {st} row g same_run sound c =
      same_operation→eq st.operation_revision g.lost_revision row.lost_revision (sound.revision g c)
        same_run

  module _ {st st' : State S} {row : Row S}
      (operation : st'.operation_revision ≡ some row.lost_revision)
      (same_run : same_operation st.operation_revision row.lost_revision ≡ true)
      (sound : IsSound st) where
    Stepped-IsSound :
        {items : List (Item S)} → Stepped auction_paths lost_paths st row items st' → IsSound st'
    Stepped-IsSound (begun c new _ seen cur) = record {
      new = λ g e.
          subst (λ (x : Group S). contains x.auction_id st'.seen ≡ false) (current_eq cur e)
            (rw seen new);
      revision = λ g e.
          subst (λ (x : Group S). st'.operation_revision ≡ some x.lost_revision) (current_eq cur e)
            operation;
    }
    Stepped-IsSound (extended g₀ c _ _ _ seen cur) = record {
      new = λ g e.
          subst (λ (x : Group S). contains x.auction_id st'.seen ≡ false) (current_eq cur e)
            (rw seen (sound.new g₀ c));
      revision = λ g e.
          subst (λ (x : Group S). st'.operation_revision ≡ some x.lost_revision) (current_eq cur e)
            (operation ∙ ap some (kept_revision row g₀ same_run sound c));
    }
    Stepped-IsSound (flushed_current g₀ item c shows new _ seen cur) = record {
      new = λ g e.
          subst (λ (x : Group S). contains x.auction_id st'.seen ≡ false) (current_eq cur e)
            (rw seen new);
      revision = λ g e.
          subst (λ (x : Group S). st'.operation_revision ≡ some x.lost_revision) (current_eq cur e)
            operation;
    }

    same_revisions :
        {rows : List (Row S)} {items : List (Item S)}
        → Good st' rows items
        → (r : Row S) (o : Option ℕ) → Memᴰ r (row ∷ rows)
        → st.operation_revision ≡ some o
        → r.lost_revision ≡ o
    same_revisions good r o (Memᴰ.head e) h =
        ap (λ (x : Row S). x.lost_revision) e
        ∙ same_operation→eq st.operation_revision o row.lost_revision h same_run
    same_revisions good r o (Memᴰ.tail m) h =
        good.same r row.lost_revision m operation
        ∙ same_operation→eq st.operation_revision o row.lost_revision h same_run

    row_revision :
        {rows : List (Row S)} {items : List (Item S)}
        → Good st' rows items
        → (r : Row S) → Memᴰ r (row ∷ rows)
        → r.lost_revision ≡ row.lost_revision
    row_revision good r (Memᴰ.head e) = ap (λ (x : Row S). x.lost_revision) e
    row_revision good r (Memᴰ.tail m) = good.same r row.lost_revision m operation

    one_revision :
        {rows : List (Row S)} {items : List (Item S)}
        → Good st' rows items
        → (a b : Row S) → Memᴰ a (row ∷ rows)
        → Memᴰ b (row ∷ rows)
        → a.lost_revision ≡ b.lost_revision
    one_revision good a b m k = row_revision good a m ∙ sym (row_revision good b k)

    -- The row's item is that of the group which is current after the row.
    begun-Good :
        {rows : List (Row S)} {items : List (Item S)}
        → st.current ≡ none
        → st'.seen ≡ st.seen
        → st'.current ≡ some (group_of row)
        → Good st' rows items
        → Good st (row ∷ rows) items
    begun-Good {rows} {items} c seen cur good = record {
      distinct = good.distinct;
      avoid = λ x h. good.avoid x (rw seen h);
      current = λ g e. absurd (cc);
      listed = listed;
      same = same_revisions good;
      one = one_revision good;
    }
      where
        listed :
            (r : Row S) → Memᴰ r (row ∷ rows) → (item : Item S) × Memᴰ item items × RowOf r item
        listed r (Memᴰ.head e) =
            let (item, m, shows) = good.current (group_of row) cur in (item, m, rw e shows)
        listed r (Memᴰ.tail m) = good.listed r m

    extended-Good :
        {rows : List (Row S)} {items : List (Item S)} (g : Group S)
        → st.current ≡ some g
        → row.auction_id ≡ g.auction_id
        → row.auction_version ≡ g.auction_version
        → st'.seen ≡ st.seen
        → st'.current ≡ some (append_candidate g row)
        → Good st' rows items
        → Good st (row ∷ rows) items
    extended-Good {rows} {items} g c id version seen cur good = record {
      distinct = good.distinct;
      avoid = λ x h. good.avoid x (rw seen h);
      current = λ g' e.
          let (item, m, shows) = good.current (append_candidate g row) cur in
          (item, m, subst (Shows item) (current_eq c e) shows);
      listed = listed;
      same = same_revisions good;
      one = one_revision good;
    }
      where
        listed :
            (r : Row S) → Memᴰ r (row ∷ rows) → (item : Item S) × Memᴰ item items × RowOf r item
        listed r (Memᴰ.head e) =
            let (item, m, (shown_id, shown_version, shown_revision)) =
              good.current (append_candidate g row) cur in
            (
              item,
              m,
              rw e (
                shown_id ∙ sym id,
                shown_version ∙ sym version,
                shown_revision ∙ sym (kept_revision row g same_run sound c),
              ),
            )
        listed r (Memᴰ.tail m) = good.listed r m

    flushed-Good :
        {rows : List (Row S)} {items : List (Item S)} (g : Group S) (item : Item S)
        → st.current ≡ some g
        → Shows item g
        → st'.seen ≡ g.auction_id ∷ st.seen
        → st'.current ≡ some (group_of row)
        → Good st' rows items
        → Good st (row ∷ rows) (item ∷ items)
    flushed-Good {rows} {items} g item c shows seen cur good = record {
      distinct = (
        rw shows.0 (good.avoid g.auction_id (rw seen (contains-head g.auction_id st.seen))),
        good.distinct,
      );
      avoid = λ x h.
          let other = not_contains-ne x g.auction_id st.seen h (sound.new g c) in
          rw (shows.0, other) (good.avoid x (rw (seen, other) h));
      current = λ g' e. (item, Memᴰ.head refl, subst (Shows item) (current_eq c e) shows);
      listed = listed;
      same = same_revisions good;
      one = one_revision good;
    }
      where
        listed :
            (r : Row S) → Memᴰ r (row ∷ rows) → (i : Item S) × Memᴰ i (item ∷ items) × RowOf r i
        listed r (Memᴰ.head e) =
            let (i, m, shown) = good.current (group_of row) cur in (i, Memᴰ.tail m, rw e shown)
        listed r (Memᴰ.tail m) = let (i, k, of) = good.listed r m in (i, Memᴰ.tail k, of)

    Stepped-Good :
        {rows : List (Row S)} {items later all : List (Item S)}
        → Stepped auction_paths lost_paths st row items st'
        → all ≡ items ++ later
        → Good st' rows later
        → Good st (row ∷ rows) all
    Stepped-Good {rows} (begun c new none_now seen cur) e good =
        subst (Good st (row ∷ rows)) (sym (rw none_now at e)) (begun-Good c seen cur good)
    Stepped-Good {rows} (extended g c id version none_now seen cur) e good =
        subst (Good st (row ∷ rows)) (sym (rw none_now at e))
          (extended-Good g c id version seen cur good)
    Stepped-Good {rows} (flushed_current g item c shows new one_now seen cur) e good =
        subst (Good st (row ∷ rows)) (sym (rw one_now at e))
          (flushed-Good g item c shows seen cur good)

  Run-Good :
      {st : State S} {rows : List (Row S)} {items : List (Item S)}
      → Run auction_paths lost_paths st rows items
      → IsSound st
      → Good st rows items
  Run-Good (ended_before st c) sound = record {
    distinct = tt;
    avoid = λ x h. refl;
    current = λ g e. absurd (cc);
    listed = λ r m. elim m [ ];
    same = λ r o m e. elim m [ ];
    one = λ a b m k. elim m [ ];
  }
  Run-Good (ended st g item c shows) sound = record {
    distinct = (refl, tt);
    avoid = λ x h. rw (shows.0, not_contains-ne x g.auction_id st.seen h (sound.new g c));
    current = λ g' e. (item, Memᴰ.head refl, subst (Shows item) (current_eq c e) shows);
    listed = λ r m. elim m [ ];
    same = λ r o m e. elim m [ ];
    one = λ a b m k. elim m [ ];
  }
  Run-Good (stepped st st' row rows now later all s operation same run e) sound =
      Stepped-Good operation same sound s e (Run-Good run (Stepped-IsSound operation same sound s))

  module _ (rows : List (Row S))
      (complete : (iter_rankings auction_paths lost_paths (arrived rows)).raised ≡ none) where
    abbrev pub items : List (Item S)
    items = (iter_rankings auction_paths lost_paths (arrived rows)).yielded

    run-Good : Good initial rows items
    unfolding iter_rankings
    run-Good =
        Run-Good (loop-Run auction_paths lost_paths initial rows complete)
          (record { new = λ g e. absurd (cc); revision = λ g e. absurd (cc) })

    -- In a run that raises nothing, no auction image has two items, and each row has the item of its
    -- auction image, with the content version and the lost-content revision of the row.
    pub iter_rankings-agree :
        Distinct (ids items)
        × ((row : Row S) → Memᴰ row rows → (item : Item S) × Memᴰ item items × RowOf row item)
    iter_rankings-agree = (run-Good.distinct, run-Good.listed)

    -- In a run that raises nothing, all rows have the same lost-content revision.
    pub iter_rankings-one_revision :
        (a b : Row S) → Memᴰ a rows → Memᴰ b rows → a.lost_revision ≡ b.lost_revision
    iter_rankings-one_revision a b m k = run-Good.one a b m k
