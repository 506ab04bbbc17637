-- ===== src/Matching/Laws.antt =====
-- The interface to floats and to the similarity functions, as the scores rely on them.
use sm_artmatch.Prelude.{ℕ, ◌≡◌, true, false, Option, none, some, String, List}
use sm_artmatch.Prelude.Int.{ℤ}
use sm_artmatch.Matching.{Floats, Measures}

-- a ≤ b of floats that are not NaN.
abbrev pub Le : {F : Type 0} → Floats F → F → F → Type 0
Le fl a b = fl.lt b a ≡ false

-- What the code relies on of floats without NaN: rounding is monotone, and 0.0 and 1.0 are exact.
pub record IsMonotone {F : Type 0} (fl : Floats F) : Type 0 where
  pub irrefl : (a : F) → fl.lt a a ≡ false
  pub trans : (a b c : F) → Le fl a b → Le fl b c → Le fl a c
  pub asym : (a b : F) → fl.lt a b ≡ true → Le fl a b
  pub literal : (n : ℕ) → Le fl (fl.hundredths 0) (fl.hundredths n)
  pub add_mono : (a b c d : F) → Le fl a b → Le fl c d → Le fl (fl.add a c) (fl.add b d)
  pub add_pos :
      (a b : F)
      → Le fl (fl.hundredths 0) a
      → Le fl (fl.hundredths 0) b
      → Le fl (fl.hundredths 0) (fl.add a b)
  pub mul_pos :
      (a b : F)
      → Le fl (fl.hundredths 0) a
      → Le fl (fl.hundredths 0) b
      → Le fl (fl.hundredths 0) (fl.mul a b)
  pub mul_le :
      (a b : F) → Le fl (fl.hundredths 0) a → Le fl b (fl.hundredths 100) → Le fl (fl.mul a b) a
  pub div_pos :
      (a b : F)
      → Le fl (fl.hundredths 0) a
      → fl.lt (fl.hundredths 0) b ≡ true
      → Le fl (fl.hundredths 0) (fl.div a b)
  pub div_le :
      (a b : F)
      → Le fl a b
      → fl.lt (fl.hundredths 0) b ≡ true
      → Le fl (fl.div a b) (fl.hundredths 100)

module _ {F : Type 0} (fl : Floats F) where
  -- Between 0.0 and 1.0; a missing similarity is.
  abbrev pub InUnit : F → Type 0
  InUnit x = Le fl (fl.hundredths 0) x × Le fl x (fl.hundredths 100)

  abbrev pub MaybeInUnit : Option F → Type 0
  MaybeInUnit none = Unit
  MaybeInUnit (some x) = InUnit x

  -- The similarities and confidences of the interface lie between 0.0 and 1.0.
  pub record IsMeasured (ms : Measures F) : Type 0 where
    pub artist_sim : (a : String) (b : Option String) → MaybeInUnit (ms.artist_sim a b)
    pub artist_conf : (a : List String) (b : Option String) → InUnit (ms.artist_conf a b)
    pub title_sim : (a b : Option String) → MaybeInUnit (ms.title_sim a b)
    pub title_conf : (a b : Option String) → InUnit (ms.title_conf a b)
    pub dict_sim :
        (a b c d : List String)
        → MaybeInUnit (ms.dict_sim a b c d).0 × MaybeInUnit (ms.dict_sim a b c d).1
    pub dict_conf :
        (a b c d : List String) → InUnit (ms.dict_conf a b c d).0 × InUnit (ms.dict_conf a b c d).1
    pub dating_sim : (a b c d : Option ℤ) → MaybeInUnit (ms.dating_sim a b c d)
    pub dating_conf : (a b c d : Option ℤ) → InUnit (ms.dating_conf a b c d)
    pub dimensions_sim : (a b c d : Option F) → MaybeInUnit (ms.dimensions_sim a b c d)
    pub dimensions_conf : (a b : F) → InUnit a → InUnit b → InUnit (ms.dimensions_conf a b)
    pub score_dimensions : (width height : F) → InUnit (ms.score_dimensions width height)
