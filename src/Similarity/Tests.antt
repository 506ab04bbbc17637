-- ===== src/Similarity/Tests.antt =====
-- Runs of the similarity functions, with floats as whole hundredths.
use Prim.Native.Char.{code}
use sm_artmatch.Prelude.{
  ℕ, ◌≡◌, ◌-◌, ◌+◌, ◌*◌, refl, false, none, some, String, List, [], ◌∷◌, ◌==◌, arith, str_eq,
  if◌then◌else◌, sym, eq_iff,
}
use sm_artmatch.Matching.Percent.{percent, percent-IsMonotone}
use sm_artmatch.Matching.Laws.{IsMeasured, MaybeInUnit}
use mathlib.Core.Path.{subst}
use sm_artmatch.Artists.{Unicode}
use sm_artmatch.Artists.Index.{load_artist_index}
use sm_artmatch.Similarity.{Arithmetic, Texts}
use sm_artmatch.Similarity.Titles.{Patterns, TitleRow, title_similarity}
use sm_artmatch.Similarity.Units.{AllInUnit, IsArithmetic}
use sm_artmatch.Similarity.Hierarchies.{Tree}
use sm_artmatch.Prelude.{leb, length, true}
use sm_artmatch.Similarity.Filled.{Others, Loaded, IsSound, measures}
use sm_artmatch.Similarity.Measured.{measures-IsMeasured}
use sm_artmatch.Similarity.Symmetry.{title_similarity_comm}
use mathlib.Core.List.{Memᴰ}

abbrev plain : Unicode
plain = record {
  nfc = λ s. s;
  casefold = λ s. s;
  is_space = λ c. code c == 32;
  csv_row = λ s. none;
}

abbrev sum : List ℕ → ℕ
sum [] = 0
sum (x ∷ xs) = x + sum xs

abbrev arithmetic : Arithmetic ℕ
arithmetic = record {
  distance = λ a b. (a - b) + (b - a);
  log = λ x. x;
  of_nat = λ n. n * 100;
  sum = sum;
}

abbrev same_text : String → String → ℕ
same_text a b = if str_eq a b then 100 else 30

abbrev texts : Texts ℕ
texts = record { jaro_winkler = same_text; levenshtein = same_text; lower = λ s. s }

abbrev patterns : Patterns
patterns = record { search = λ word s. false; substitute = λ word s. s; one_space = λ s. s }

abbrev tree : Tree
tree = record {
  paths_to_root = ("oil", "oil" ∷ "paint" ∷ "unbekannt" ∷ []) ∷ [];
  root_name = "unbekannt";
}

abbrev loaded : Loaded ℕ
loaded = record {
  artist_index = load_artist_index plain [];
  common_titles =
      record { title_name = some "stillleben"; title_score = some "0.4"; score = some 40 } ∷ [];
  title_index = ("stillleben", 12) ∷ [];
  title_total = 50;
  materials = tree;
  techniques = tree;
}

abbrev others : Others ℕ
others = record { dating_conf = λ a b c d. 0; score_dimensions = λ width height. 60 }

loaded-scored : (row : TitleRow ℕ) → Memᴰ row loaded.common_titles → MaybeInUnit percent row.score
loaded-scored row (Memᴰ.head e) =
    subst (λ (r : TitleRow ℕ). MaybeInUnit percent r.score) (sym e) (refl, refl)
loaded-scored row (Memᴰ.tail m) = elim m [ ]

others-IsSound : IsSound percent texts loaded others
others-IsSound = record {
  jaro_winkler = λ a b. ground arith;
  levenshtein = λ a b. ground arith;
  common_titles = loaded-scored;
  dating_conf = λ a b c d. (refl, refl);
  score_dimensions = λ width height. (refl, refl);
}

sum_le : (xs : List ℕ) → AllInUnit percent xs → leb (sum xs) (length xs * 100) ≡ true
sum_le [] all = refl
sum_le (x ∷ xs) (h, all) = ground (arith, sum_le xs all)

arithmetic-IsArithmetic : IsArithmetic percent arithmetic
arithmetic-IsArithmetic = record {
  double = refl;
  two_pos = refl;
  of_nat_mono = λ m n h. ground arith;
  of_nat_zero = λ n. ground arith;
  of_nat_pos = λ n h. ground arith;
  sum_pos = λ xs all. ground arith;
  sum_le = λ xs all. ground (arith, sum_le xs all);
}

measures-IsMeasured_example :
    IsMeasured percent (measures percent arithmetic plain texts patterns loaded others)
measures-IsMeasured_example =
    measures-IsMeasured percent arithmetic plain texts patterns loaded others percent-IsMonotone
      arithmetic-IsArithmetic others-IsSound

same_text_comm : (a b : String) → same_text a b ≡ same_text b a
same_text_comm a b = ground (arith, eq_iff a b, eq_iff b a)

title_similarity_comm_example :
    title_similarity percent arithmetic plain texts patterns [] (some "Horses") (some "Cows")
    ≡ title_similarity percent arithmetic plain texts patterns [] (some "Cows") (some "Horses")
title_similarity_comm_example =
    title_similarity_comm percent arithmetic plain texts patterns same_text_comm [] (some "Horses")
      (some "Cows")
