-- ===== src/Artists/Index/Rows.antt =====
-- About the index of document frequencies, row by row.
use sm_artmatch.Prelude.{
  ◌≤◌, ℕ, ◌+◌, ◌≡◌, ap, ◌∙◌, Bool, true, Bool-cases, inl, inr, not, ◌&&◌, ◌||◌, Option, none, some,
  String, List, [], ◌∷◌, ◌++◌, map, eq_iff, if◌then◌else◌, arith,
}
use sm_artmatch.Prelude.Dicts.{contains}
use sm_artmatch.Artists.{
  Unicode, Value, is_blank, normalize_name, lookup_key, is_name, extract_names, names_of,
  text_names, item_names, all_names, raw_parts, strip,
}
use sm_artmatch.Artists.Index.{
  Tally, Document, count_name, count_names, count_row, is_none, load_rows,
}
use sm_artmatch.Artists.Index.Frequency.{Counts, Counts-same, indicator, tally_name-Counts}

-- Whether one of the names has the key, which is not empty.
abbrev pub mentions : Unicode → String → List String → Bool
mentions u key names = not (is_blank key) && contains key (map (lookup_key u) names)

-- The number of rows with a name that has the key.
unfoldable pub frequency : Unicode → String → List Value → ℕ
frequency u key [] = 0
frequency u key (row ∷ rows) =
    frequency u key rows + indicator (mentions u key (extract_names u row))

abbrev pub AllNames : Unicode → List String → Type 0
AllNames u [] = Unit
AllNames u (name ∷ names) = (is_name u name ≡ true) × AllNames u names

module _ (u : Unicode) where
  count_name-Counts :
      (name : String) (d : Document) (f : String → ℕ)
      → is_name u name ≡ true
      → Counts u d.tally (λ k. f k + indicator (contains k d.seen_in_document))
      → Counts u
          (count_name u name d).tally
          (λ k. f k + indicator (contains k (count_name u name d).seen_in_document))
  unfolding count_name
  count_name-Counts name d f valid c =
      elim (Bool-cases
        (is_blank (lookup_key u name) || contains (lookup_key u name) d.seen_in_document)) [
          | inl skip ↦ rw skip c
          | inr new ↦ rw new (
              Counts-same u _ _ _ (λ k. ground (arith, eq_iff k (lookup_key u name)))
                (tally_name-Counts u name d.tally
                  (λ k. f k + indicator (contains k d.seen_in_document)) valid c))
        ]

  count_name-contains :
      (name : String) (d : Document) (names : List String) (k : String)
      → (contains k (count_name u name d).seen_in_document || mentions u k names)
        ≡ (contains k d.seen_in_document || mentions u k (name ∷ names))
  unfolding count_name
  count_name-contains name d names k = ground (arith, eq_iff k (lookup_key u name))

  count_names-Counts :
      (names : List String) (d : Document) (f : String → ℕ)
      → AllNames u names
      → Counts u d.tally (λ k. f k + indicator (contains k d.seen_in_document))
      → Counts u
          (count_names u names d).tally
          (λ k. f k + indicator (contains k d.seen_in_document || mentions u k names))
  unfolding count_names
  count_names-Counts [] d f valid c = Counts-same u _ _ _ (λ k. ground arith) c
  count_names-Counts (name ∷ names) d f (valid, all) c =
      Counts-same u _ _ _ (λ k. ap (λ b. f k + indicator b) (count_name-contains name d names k))
        (count_names-Counts names (count_name u name d) f all (count_name-Counts name d f valid c))

  append-AllNames : (xs ys : List String) → AllNames u xs → AllNames u ys → AllNames u (xs ++ ys)
  append-AllNames [] ys a b = b
  append-AllNames (x ∷ xs) ys (valid, a) b = (valid, append-AllNames xs ys a b)

  names_of-AllNames : (parts : List String) → AllNames u (names_of u parts)
  unfolding names_of
  names_of-AllNames [] = tt
  names_of-AllNames (part ∷ parts) = elim (Bool-cases (is_name u (normalize_name u part))) [
    | inl valid ↦ rw valid (valid, names_of-AllNames parts)
    | inr other ↦ rw other (names_of-AllNames parts)
  ]

  text_names-AllNames : (value : String) → AllNames u (text_names u value)
  unfolding text_names
  text_names-AllNames value = elim (Bool-cases (is_blank (strip u value))) [
    | inl blank ↦ rw blank tt
    | inr other ↦ rw other (names_of-AllNames (raw_parts u (strip u value)))
  ]

  item_names-AllNames : (item : Option String) → AllNames u (item_names u item)
  item_names-AllNames none = tt
  item_names-AllNames (some value) = text_names-AllNames value

  all_names-AllNames : (items : List (Option String)) → AllNames u (all_names u items)
  unfolding all_names
  all_names-AllNames [] = tt
  all_names-AllNames (item ∷ items) =
      append-AllNames (item_names u item) (all_names u items) (item_names-AllNames item)
        (all_names-AllNames items)

  extract_names-AllNames : (row : Value) → AllNames u (extract_names u row)
  unfolding extract_names
  extract_names-AllNames Value.no_value = tt
  extract_names-AllNames (Value.text value) = text_names-AllNames value
  extract_names-AllNames (Value.sequence items) = all_names-AllNames items
  extract_names-AllNames (Value.other value) = names_of-AllNames (value ∷ [])

  count_row-Counts :
      (names : List String) (t : Tally) (f : String → ℕ)
      → AllNames u names
      → Counts u t f
      → Counts u
          (if is_none names then t else count_row u names t)
          (λ k. f k + indicator (mentions u k names))
  count_row-Counts [] t f all c = Counts-same u _ _ _ (λ k. ground arith) c
  count_row-Counts (name ∷ names) t f all c =
      count_names-Counts (name ∷ names) (record { tally = t; seen_in_document = [] }) f all
        (Counts-same u _ _ _ (λ k. ground arith) c)

  pub load_rows-Counts :
      (rows : List Value) (t : Tally) (total : ℕ) (f : String → ℕ)
      → Counts u t f
      → Counts u (load_rows u rows t total).0 (λ k. f k + frequency u k rows)
  unfolding load_rows frequency
  load_rows-Counts [] t total f c = Counts-same u _ _ _ (λ k. ground arith) c
  load_rows-Counts (row ∷ rows) t total f c =
      Counts-same u _ _ _ (λ k. ground arith)
        (load_rows-Counts rows _ _ _
          (count_row-Counts (extract_names u row) t f (extract_names-AllNames row) c))

-- The number of rows with a name.
unfoldable pub documents : Unicode → List Value → ℕ
documents u [] = 0
documents u (row ∷ rows) = documents u rows + (if is_none (extract_names u row) then 0 else 1)

module _ (u : Unicode) where
  pub load_rows-total :
      (rows : List Value) (t : Tally) (total : ℕ)
      → (load_rows u rows t total).1 ≡ total + documents u rows
  unfolding load_rows documents
  load_rows-total [] t total = omega arith
  load_rows-total (row ∷ rows) t total =
      let names = extract_names u row in
      load_rows-total rows (if is_none names then t else count_row u names t)
        (if is_none names then total else total + 1)
      ∙ ground arith

  mention_le :
      (key : String) (names : List String)
      → indicator (mentions u key names) ≤ (if is_none names then 0 else 1)
  mention_le key [] = ground arith
  mention_le key (name ∷ names) = ground arith

  pub frequency_le : (key : String) (rows : List Value) → frequency u key rows ≤ documents u rows
  unfolding frequency documents
  frequency_le key [] = omega arith
  frequency_le key (row ∷ rows) =
      omega (arith, frequency_le key rows, mention_le key (extract_names u row))
