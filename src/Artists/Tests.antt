-- ===== src/Artists/Tests.antt =====
-- Runs of the index of artists' names.
use Prim.Native.Char.{code}
use sm_artmatch.Prelude.{◌≡◌, none, some, List, [], ◌∷◌, ◌==◌}
use sm_artmatch.Artists.{
  Unicode, Value, text, sequence, no_value, lookup_key, normalize_name, split_at, extract_names,
  text_names, names_of, is_name, is_unknown_artist_name, all_names,
}
use sm_artmatch.Artists.Index.{load_artist_index, get_artist_count}
use sm_artmatch.Artists.Index.Rows.{frequency}
use sm_artmatch.Artists.Index.Lookup.{get_artist_count-frequency}

abbrev plain : Unicode
plain = record {
  nfc = λ s. s;
  casefold = λ s. s;
  is_space = λ c. code c == 32;
  csv_row = λ s. none;
}

abbrev lost_rows : List Value
lost_rows =
    text "Jan Matejko; Jan  Matejko"
    ∷ sequence (some "Jan Matejko" ∷ none ∷ some "unbekannt" ∷ [])
    ∷ no_value
    ∷ text "unknown|Klee, Paul"
    ∷ []

get_artist_count-frequency_example :
    get_artist_count plain " Jan Matejko " (load_artist_index plain lost_rows)
    ≡ (some 2, load_artist_index plain lost_rows)
unfolding frequency lookup_key normalize_name split_at extract_names text_names names_of is_name
    is_unknown_artist_name all_names
get_artist_count-frequency_example = get_artist_count-frequency plain lost_rows " Jan Matejko "
