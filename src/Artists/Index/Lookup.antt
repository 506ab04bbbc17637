-- ===== src/Artists/Index/Lookup.antt =====
-- About the lookup of a name's document frequency.
use sm_artmatch.Prelude.{
  ℕ, ◌≡◌, refl, sym, ap, ◌∙◌, true, false, Bool-cases, Option-cases, inl, inr, not, ◌&&◌, ◌⊎◌, ◌≤◌,
  Option, none, some, String, List, [], ◌∷◌, ◌==◌, str_eq, eq_iff, if◌then◌else◌, arith,
}
use sm_artmatch.Prelude.Dicts.{Dict, lookup, put, lookup-put}
use sm_artmatch.Artists.{
  Unicode, Value, is_blank, normalize_name, lookup_key, is_name, is_unknown_artist_name,
}
use sm_artmatch.Artists.Index.{
  Index, no_tally, load_rows, lookup_entries, rebuild_lookup_index, load_artist_index,
  get_artist_count, count_by_key, direct_or, count_of, needs_rebuild,
}
use sm_artmatch.Artists.Index.Frequency.{Counts, Counts-same}
use sm_artmatch.Artists.Index.Rows.{frequency, load_rows-total, frequency_le, load_rows-Counts}

module _ (u : Unicode) (display : Dict String) where
  -- Each name of the counts is shown for its key.
  abbrev IsShown : Dict ℕ → Type 0
  IsShown counts =
      (name : String) (n : ℕ)
      → lookup name counts ≡ some n
      → lookup (lookup_key u name) display ≡ some name

  IsShown-rest :
      (name : String) (n : ℕ) (counts : Dict ℕ) → IsShown ((name, n) ∷ counts) → IsShown counts
  IsShown-rest name n counts shown other m h = elim (Bool-cases (str_eq name other)) [
    | inl same ↦ shown other n (unfold lookup in ground arith)
    | inr different ↦ shown other m (unfold lookup in ground arith)
  ]

  lookup-head :
      (name : String) (n : ℕ) (counts : Dict ℕ) → lookup name ((name, n) ∷ counts) ≡ some n
  unfolding lookup
  lookup-head name n counts = ground (arith, eq_iff name name)

  lookup-later :
      (name d : String) (n : ℕ) (counts : Dict ℕ)
      → str_eq name d ≡ false
      → lookup d ((name, n) ∷ counts) ≡ lookup d counts
  unfolding lookup
  lookup-later name d n counts other = ground arith

  -- The entries after one name of the counts.
  abbrev entered : String → Dict String → Dict String
  entered name entries =
      if not (is_blank name) && not (is_unknown_artist_name u name)
      then put (lookup_key u name) name entries
      else entries

  entered-none :
      (key name : String) (entries : Dict String)
      → lookup key display ≡ none
      → lookup (lookup_key u name) display ≡ some name
      → lookup key entries ≡ none
      → lookup key (entered name entries) ≡ none
  entered-none key name entries absent shown h =
      ground
        (arith, eq_iff (lookup_key u name) key, lookup-put key (lookup_key u name) name entries)

  entered-keeps :
      (key name d : String) (entries : Dict String)
      → lookup key display ≡ some d
      → lookup (lookup_key u name) display ≡ some name
      → lookup key entries ≡ some d
      → lookup key (entered name entries) ≡ some d
  entered-keeps key name d entries known shown h =
      ground
        (arith, eq_iff (lookup_key u name) key, lookup-put key (lookup_key u name) name entries)

  entered-enters :
      (name : String) (entries : Dict String)
      → is_name u name ≡ true
      → lookup (lookup_key u name) (entered name entries) ≡ some name
  unfolding is_name
  entered-enters name entries valid = ground (
    arith,
    eq_iff (lookup_key u name) (lookup_key u name),
    lookup-put (lookup_key u name) (lookup_key u name) name entries,
  )

  lookup_entries-none :
      (key : String) (counts : Dict ℕ) (entries : Dict String)
      → lookup key display ≡ none
      → IsShown counts
      → lookup key entries ≡ none
      → lookup key (lookup_entries u counts entries) ≡ none
  unfolding lookup_entries
  lookup_entries-none key [] entries absent shown h = h
  lookup_entries-none key ((name, n) ∷ counts) entries absent shown h =
      lookup_entries-none key counts (entered name entries) absent
        (IsShown-rest name n counts shown)
        (entered-none key name entries absent (shown name n (lookup-head name n counts)) h)

  lookup_entries-some :
      (d : String) (counts : Dict ℕ) (entries : Dict String)
      → is_name u d ≡ true
      → lookup (lookup_key u d) display ≡ some d
      → IsShown counts
      → (lookup (lookup_key u d) entries ≡ some d) ⊎ ((n : ℕ) × (lookup d counts ≡ some n))
      → lookup (lookup_key u d) (lookup_entries u counts entries) ≡ some d
  unfolding lookup_entries
  lookup_entries-some d [] entries valid known shown (inl h) = h
  lookup_entries-some d [] entries valid known shown (inr (n, h)) = absurd (unfold lookup in cc)
  lookup_entries-some d ((name, n) ∷ counts) entries valid known shown (inl h) =
      lookup_entries-some d counts (entered name entries) valid known
        (IsShown-rest name n counts shown)
        (inl (
          entered-keeps (lookup_key u d) name d entries known
            (shown name n (lookup-head name n counts)) h))
  lookup_entries-some d ((name, n) ∷ counts) entries valid known shown (inr (m, h)) =
      lookup_entries-some d counts (entered name entries) valid known
        (IsShown-rest name n counts shown)
        (elim (Bool-cases (str_eq name d)) [
          | inl same ↦
              let e : name ≡ d = (eq_iff name d).0 same in
              inl (rw e (entered-enters d entries valid))
          | inr other ↦ inr (m, sym (lookup-later name d n counts other) ∙ h)
        ])

abbrev pub unless_zero : ℕ → Option ℕ
unless_zero n = if n == 0 then none else some n

unless_zero-pos : (n : ℕ) → (n == 0) ≡ false → unless_zero n ≡ some n
unless_zero-pos n positive = rw positive refl

kept : (o : Option String) (index : Index) → index.is_current ≡ true → needs_rebuild o index ≡ false
kept none index current = rw current refl
kept (some name) index current = refl

module _ (u : Unicode) where
  no_tally-Counts : Counts u no_tally (λ key. 0)
  unfolding lookup
  no_tally-Counts = record {
    shown = λ key name h. absurd cc;
    positive = λ key name h. absurd cc;
    absent = λ key h. refl;
    listed = λ name n h. absurd cc;
  }

  loaded-Counts :
      (rows : List Value) → Counts u (load_rows u rows no_tally 0).0 (λ key. frequency u key rows)
  loaded-Counts rows =
      Counts-same u _ _ _ (λ key. ground arith)
        (load_rows-Counts u rows no_tally 0 (λ key. 0) no_tally-Counts)

  -- The count that the index gives for the key of a name, if any.
  abbrev expected : String → List Value → Option ℕ
  expected key rows = unless_zero (frequency u key rows)

  load_rows-count_of :
      (key : String) (rows : List Value)
      → count_of
          (lookup key (load_artist_index u rows).artist_lookup_index)
          (load_artist_index u rows)
        ≡ expected key rows
  unfolding load_artist_index rebuild_lookup_index
  load_rows-count_of key rows =
      let t = (load_rows u rows no_tally 0).0 in
      let c = loaded-Counts rows in
      elim (Option-cases (lookup key t.display_name_by_key)) [
        | inl absent ↦
            let zero = c.absent key absent in
            let nothing =
              lookup_entries-none u t.display_name_by_key key t.counts [] absent c.listed
                (unfold lookup in refl) in
            ap (λ o. count_of o (load_artist_index u rows)) nothing ∙ ap unless_zero (sym zero)
        | inr (d, known) ↦
            let (counted, keyed, valid) = c.shown key d known in
            let positive = c.positive key d known in
            let found =
              lookup_entries-some u t.display_name_by_key d t.counts [] valid
                (ap (λ k. lookup k t.display_name_by_key) keyed ∙ known) c.listed
                (inr (_, counted)) in
            let found_key : lookup key (lookup_entries u t.counts []) ≡ some d =
              ap (λ k. lookup k (lookup_entries u t.counts [])) (sym keyed) ∙ found in
            ap (λ o. count_of o (load_artist_index u rows)) found_key
            ∙ counted
            ∙ sym (unless_zero-pos _ positive)
      ]

  count_by_key-loaded :
      (key : String) (rows : List Value)
      → count_by_key u key (load_artist_index u rows)
        ≡ (expected key rows, load_artist_index u rows)
  unfolding load_artist_index rebuild_lookup_index
  count_by_key-loaded key rows =
      let current =
        kept (lookup key (load_artist_index u rows).artist_lookup_index) (load_artist_index u rows)
          refl in
      rw current (ap (λ o. (o, load_artist_index u rows)) (load_rows-count_of key rows))

  load_rows-direct :
      (name : String) (rows : List Value) (n : ℕ)
      → lookup name (load_artist_index u rows).artist_count_index ≡ some n
      → some n ≡ expected (lookup_key u name) rows
  unfolding load_artist_index rebuild_lookup_index
  load_rows-direct name rows n h =
      let c = loaded-Counts rows in
      let known = c.listed name n h in
      let (counted, keyed, valid) = c.shown (lookup_key u name) name known in
      let positive = c.positive (lookup_key u name) name known in
      sym h ∙ counted ∙ sym (unless_zero-pos _ positive)

  abbrev by_key : List Value → String → Option ℕ × Index
  by_key rows name =
      count_by_key u (lookup_key u (normalize_name u name)) (load_artist_index u rows)

  -- The count of a name in the index that is loaded from the rows is the number of rows which name
  -- an artist with the key of the normalised name, each row once, and is missing where there is no
  -- such row; an empty key is no artist's. The lookup leaves the index as it is.
  pub get_artist_count-frequency :
      (rows : List Value) (name : String)
      → get_artist_count u name (load_artist_index u rows)
        ≡ (expected (lookup_key u (normalize_name u name)) rows, load_artist_index u rows)
  unfolding get_artist_count
  get_artist_count-frequency rows name =
      elim (Option-cases
        (lookup (normalize_name u name) (load_artist_index u rows).artist_count_index)) [
          | inl e ↦
              ap (λ o. direct_or o (load_artist_index u rows) (by_key rows name)) e
              ∙ count_by_key-loaded (lookup_key u (normalize_name u name)) rows
          | inr (n, e) ↦
              ap (λ o. direct_or o (load_artist_index u rows) (by_key rows name)) e
              ∙ ap (λ o. (o, load_artist_index u rows))
                  (load_rows-direct (normalize_name u name) rows n e)
        ]

  unless_zero-bounds : (k n total : ℕ) → unless_zero k ≡ some n → k ≤ total → (1 ≤ n) × (n ≤ total)
  unless_zero-bounds k n total h fits = ground arith

  -- The count of a name in the loaded index is at least one, and at most the total of documents by
  -- which it is divided: the quotient in the score of a name is at least one.
  pub get_artist_count-bounds :
      (rows : List Value) (name : String) (n : ℕ)
      → (get_artist_count u name (load_artist_index u rows)).0 ≡ some n
      → (1 ≤ n) × (n ≤ (load_artist_index u rows).artist_index_total_docs)
  unfolding load_artist_index rebuild_lookup_index
  get_artist_count-bounds rows name n h =
      let key = lookup_key u (normalize_name u name) in
      let total = load_rows-total u rows no_tally 0 in
      unless_zero-bounds (frequency u key rows) n _
        (sym (ap (λ p. p.0) (get_artist_count-frequency rows name)) ∙ h)
        (omega (arith, total, frequency_le u key rows))
