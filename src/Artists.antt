-- ===== src/Artists.antt =====
-- matching_pipeline/metadata_matching/similarity_functions/artist/count_confidence.py: the artists'
-- names of a database field, the index of their document frequencies, and the confidence that it
-- gives. Unicode's tables and the csv reader are an interface; a text is a sequence of characters.
-- `frozenset`s are lists. The lock, the query and the CSV file that is written are left out.
pub mod Index
mod Tests
use Prim.Native.Char.{Char, code}
use Prim.Native.String
use Prim.Native.String.{◌++◌ as str_append}
use sm_artmatch.Prelude.{
  ℕ, ◌+◌, Bool, true, false, not, ◌&&◌, ◌||◌, Option, none, some, String, List, [], ◌∷◌, ◌++◌, map,
  ◌==◌, str_eq, if◌then◌else◌,
}
use sm_artmatch.Prelude.Dicts.{Dict, lookup, put, contains}

pub record Unicode : Type 0 where
  pub nfc : String → String
  pub casefold : String → String
  pub is_space : Char → Bool
  -- `next(csv.reader([inner], ...))`, or none for a csv.Error.
  pub csv_row : String → Option (List String)

-- A value of a field: None, a text, a sequence of texts and of None, or another value's `str`.
pub data Value : Type 0 where
  no_value : Value
  text : String → Value
  sequence : List (Option String) → Value
  other : String → Value

abbrev pub is_blank : String → Bool
is_blank String.[] = true
is_blank (String.◌∷◌ c s) = false

abbrev pub drop_last : String → String
drop_last String.[] = ""
drop_last (String.◌∷◌ c s) = let rest = drop_last s in if is_blank s then "" else String.◌∷◌ c rest

-- `s[1:-1]`
abbrev pub inner : String → String
inner String.[] = ""
inner (String.◌∷◌ c s) = drop_last s

abbrev pub starts_with : ℕ → String → Bool
starts_with n String.[] = false
starts_with n (String.◌∷◌ c s) = code c == n

abbrev pub ends_with : ℕ → String → Bool
ends_with n String.[] = false
ends_with n (String.◌∷◌ c s) = let rest = ends_with n s in if is_blank s then code c == n else rest

abbrev pub has : ℕ → String → Bool
has n String.[] = false
has n (String.◌∷◌ c s) = let rest = has n s in (code c == n) || rest

abbrev pub prepend : Char → List String → List String
prepend c [] = String.◌∷◌ c "" ∷ []
prepend c (part ∷ parts) = String.◌∷◌ c part ∷ parts

-- The parts between the characters of which the test holds.
unfoldable pub split_at : (Char → Bool) → String → List String
split_at test String.[] = "" ∷ []
split_at test (String.◌∷◌ c s) =
    let parts = split_at test s in if test c then "" ∷ parts else prepend c parts

abbrev pub drop_blanks : List String → List String
drop_blanks [] = []
drop_blanks (part ∷ parts) =
    let rest = drop_blanks parts in if is_blank part then rest else part ∷ rest

abbrev join_after : String → List String → String → String
join_after part [] rest = part
join_after part (next ∷ parts) rest = str_append part (str_append " " rest)

-- `" ".join(parts)`
abbrev pub join : List String → String
join [] = ""
join (part ∷ parts) = let rest = join parts in join_after part parts rest

abbrev pub unknown_artist_names : List String
unknown_artist_names =
    "unknown" ∷ "unbekannt" ∷ "unidentified" ∷ "anoniem" ∷ "anonyme" ∷ "anonymus" ∷ "anonym" ∷ []

module _ (u : Unicode) where
  abbrev pub left_strip : String → String
  left_strip String.[] = ""
  left_strip (String.◌∷◌ c s) =
      let rest = left_strip s in if u.is_space c then rest else String.◌∷◌ c s

  abbrev pub right_strip : String → String
  right_strip String.[] = ""
  right_strip (String.◌∷◌ c s) =
      let rest = right_strip s in if u.is_space c && is_blank rest then "" else String.◌∷◌ c rest

  abbrev pub strip : String → String
  strip s = right_strip (left_strip s)

  unfoldable pub normalize_name : String → String
  normalize_name name = join (drop_blanks (split_at u.is_space (strip (u.nfc name))))

  unfoldable pub lookup_key : String → String
  lookup_key name = u.casefold (normalize_name name)

  unfoldable pub is_unknown_artist_name : String → Bool
  is_unknown_artist_name name = contains (lookup_key name) unknown_artist_names

  abbrev pub csv_parts : String → Option (List String) → List String
  csv_parts inner (some parts) = parts
  csv_parts inner none = map strip (split_at (λ c. code c == 44) inner)

  unfoldable pub split_pg_array_literal : String → List String
  split_pg_array_literal value =
      if is_blank (inner (strip value))
      then []
      else csv_parts (inner (strip value)) (u.csv_row (inner (strip value)))

  abbrev pub raw_parts : String → List String
  raw_parts raw_value =
      if starts_with 123 raw_value && ends_with 125 raw_value
      then split_pg_array_literal raw_value
      else if has 59 raw_value
      then split_at (λ c. code c == 59) raw_value
      else if has 124 raw_value
      then split_at (λ c. code c == 124) raw_value
      else raw_value ∷ []

  -- A name that is kept is not empty and is no word for an unknown artist.
  unfoldable pub is_name : String → Bool
  is_name name = not (is_blank name) && not (is_unknown_artist_name name)

  unfoldable pub names_of : List String → List String
  names_of [] = []
  names_of (part ∷ parts) =
      let rest = names_of parts in
      if is_name (normalize_name part) then normalize_name part ∷ rest else rest

  unfoldable pub text_names : String → List String
  text_names value = if is_blank (strip value) then [] else names_of (raw_parts (strip value))

  abbrev pub item_names : Option String → List String
  item_names none = []
  item_names (some value) = text_names value

  unfoldable pub all_names : List (Option String) → List String
  all_names [] = []
  all_names (item ∷ items) = item_names item ++ all_names items

  unfoldable pub extract_names : Value → List String
  extract_names no_value = []
  extract_names (text value) = text_names value
  extract_names (sequence items) = all_names items
  extract_names (other value) = names_of (value ∷ [])
