-- ===== src/Artists/Index.antt =====
-- count_confidence.py: the index of the artists' document frequencies, as load_artist_index builds it
-- from the rows of the query, and the lookup of a name in it.
pub mod Frequency
pub mod Rows
pub mod Lookup
use sm_artmatch.Prelude.{
  ℕ, ◌+◌, Bool, true, false, not, ◌&&◌, ◌||◌, Option, none, some, String, List, [], ◌∷◌, map, ◌==◌,
  str_eq, if◌then◌else◌,
}
use sm_artmatch.Prelude.Dicts.{Dict, lookup, put, contains}
use sm_artmatch.Artists.{
  Unicode, Value, is_blank, normalize_name, lookup_key, is_unknown_artist_name, extract_names,
}

pub record Tally : Type 0 where
  pub counts : Dict ℕ
  pub display_name_by_key : Dict String

-- The tally within one row, with `seen_in_document`.
pub record Document : Type 0 where
  pub tally : Tally
  pub seen_in_document : List String

-- The global variables; `is_current` says whether the lookup index was built from these counts.
pub record Index : Type 0 where
  pub artist_count_index : Dict ℕ
  pub artist_index_total_docs : ℕ
  pub artist_lookup_index : Dict String
  pub is_current : Bool

abbrev pub or_else : {A : Type 0} → Option A → A → A
or_else none other = other
or_else (some value) other = value

abbrev pub set_default : String → String → Dict String → Dict String
set_default key name d = set (lookup key d)
  where
    set : Option String → Dict String
    set none = put key name d
    set (some old) = d

abbrev pub is_none : List String → Bool
is_none [] = true
is_none (name ∷ names) = false

abbrev pub no_tally : Tally
no_tally = record { counts = []; display_name_by_key = [] }

abbrev pub needs_rebuild : Option String → Index → Bool
needs_rebuild none index = not (index.is_current) && has_counts index.artist_count_index
  where
    has_counts : Dict ℕ → Bool
    has_counts [] = false
    has_counts (entry ∷ entries) = true
needs_rebuild (some name) index = false

abbrev pub count_of : Option String → Index → Option ℕ
count_of none index = none
count_of (some display_name) index = lookup display_name index.artist_count_index

abbrev pub direct_or : Option ℕ → Index → Option ℕ × Index → Option ℕ × Index
direct_or none index by_key = by_key
direct_or (some count) index by_key = (some count, index)

module _ (u : Unicode) where
  unfoldable pub tally_name : String → Tally → Tally
  tally_name name t =
      let key = lookup_key u name in
      let display_name = or_else (lookup key t.display_name_by_key) name in
      record {
        counts = put display_name (or_else (lookup display_name t.counts) 0 + 1) t.counts;
        display_name_by_key = set_default key name t.display_name_by_key;
      }

  unfoldable pub count_name : String → Document → Document
  count_name name d =
      if is_blank (lookup_key u name) || contains (lookup_key u name) d.seen_in_document
      then d
      else (record {
        tally = tally_name name d.tally;
        seen_in_document = lookup_key u name ∷ d.seen_in_document;
      })

  unfoldable pub count_names : List String → Document → Document
  count_names [] d = d
  count_names (name ∷ names) d = count_names names (count_name name d)

  abbrev pub count_row : List String → Tally → Tally
  count_row names t = (count_names names (record { tally = t; seen_in_document = [] })).tally

  -- The loop over the rows, with `counts`, `display_name_by_key` and `total_docs`.
  unfoldable pub load_rows : List Value → Tally → ℕ → Tally × ℕ
  load_rows [] t total_docs = (t, total_docs)
  load_rows (row ∷ rows) t total_docs =
      let names = extract_names u row in
      load_rows rows (if is_none names then t else count_row names t)
        (if is_none names then total_docs else total_docs + 1)

  -- The loop of the comprehension, over the names of the counts.
  unfoldable pub lookup_entries : Dict ℕ → Dict String → Dict String
  lookup_entries [] entries = entries
  lookup_entries ((artist_name, count) ∷ counts) entries = lookup_entries counts (
      if not (is_blank artist_name) && not (is_unknown_artist_name u artist_name)
      then put (lookup_key u artist_name) artist_name entries
      else entries)

  unfoldable pub rebuild_lookup_index : Index → Index
  rebuild_lookup_index index = record index {
    artist_lookup_index = lookup_entries index.artist_count_index [];
    is_current = true;
  }

  unfoldable pub load_artist_index : List Value → Index
  load_artist_index rows = rebuild_lookup_index (record {
    artist_count_index = (load_rows rows no_tally 0).0.counts;
    artist_index_total_docs = (load_rows rows no_tally 0).1;
    artist_lookup_index = [];
    is_current = false;
  })

  -- The lookup by the key, with the index after it.
  abbrev pub count_by_key : String → Index → Option ℕ × Index
  count_by_key key index =
      if needs_rebuild (lookup key index.artist_lookup_index) index
      then (
        count_of (lookup key (rebuild_lookup_index index).artist_lookup_index) index,
        rebuild_lookup_index index,
      )
      else (count_of (lookup key index.artist_lookup_index) index, index)

  unfoldable pub get_artist_count : String → Index → Option ℕ × Index
  get_artist_count artist_name index =
      let normalized_name = normalize_name u artist_name in
      direct_or (lookup normalized_name index.artist_count_index) index
        (count_by_key (lookup_key u normalized_name) index)
