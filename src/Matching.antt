-- ===== src/Matching.antt =====
-- matching_pipeline/metadata_matching/main_matcher/metadata_matcher.py: the score of a lost and an
-- auction artwork by their metadata. Python's floats are a type `F` with the operations that the
-- code uses; `hundredths n` is the literal n/100. The similarity and confidence functions are an
-- interface. `max_len` is the environment's MAX_SIM_STRING_LEN.
pub mod Laws
pub mod Percent
pub mod Artists
pub mod Range
pub mod Batches
mod Tests
use Prim.Native.String
use sm_artmatch.Prelude.{
  ℕ, zero, suc, Bool, true, false, not, ◌&&◌, ◌||◌, Option, none, some, String, List, [], ◌∷◌, map,
  take, if◌then◌else◌,
}
use sm_artmatch.Prelude.Int.{ℤ}

pub record Floats (F : Type 0) : Type 0 where
  pub add : F → F → F
  pub mul : F → F → F
  pub div : F → F → F
  pub lt : F → F → Bool
  pub hundredths : ℕ → F

pub record Measures (F : Type 0) : Type 0 where
  pub artist_sim : String → Option String → Option F
  pub artist_conf : List String → Option String → F
  pub title_sim : Option String → Option String → Option F
  pub title_conf : Option String → Option String → F
  pub dict_sim : List String → List String → List String → List String → Option F × Option F
  pub dict_conf : List String → List String → List String → List String → F × F
  pub dating_sim : Option ℤ → Option ℤ → Option ℤ → Option ℤ → Option F
  pub dating_conf : Option ℤ → Option ℤ → Option ℤ → Option ℤ → F
  pub dimensions_sim : Option F → Option F → Option F → Option F → Option F
  pub dimensions_conf : F → F → F
  pub score_dimensions : F → F → F

-- What the queries give, with `float()` and `int()` applied to the numbers.
pub record LostRow (F : Type 0) : Type 0 where
  pub lost_id : ℕ
  pub title : Option String
  pub dict_material_name : Option (List String)
  pub dict_technique_name : Option (List String)
  pub width : Option F
  pub height : Option F
  pub dating_start : Option ℤ
  pub dating_end : Option ℤ
  pub artist_complete_names : Option (List String)

pub record AuctionRow (F : Type 0) : Type 0 where
  pub auction_id : ℕ
  pub artist : Option String
  pub title : Option String
  pub dict_material_name : Option (List String)
  pub dict_technique_name : Option (List String)
  pub width : Option F
  pub height : Option F
  pub dating_start : Option ℤ
  pub dating_end : Option ℤ

pub record Lost (F : Type 0) : Type 0 where
  pub lost_id : ℕ
  pub lost_title : Option String
  pub lost_dict_material_name : List String
  pub lost_dict_technique_name : List String
  pub lost_width : Option F
  pub lost_height : Option F
  pub lost_dim_conf : F
  pub lost_dating_start : Option ℤ
  pub lost_dating_end : Option ℤ
  pub lost_artist_complete_names : List String

pub record Auction (F : Type 0) : Type 0 where
  pub auction_id : ℕ
  pub auction_artist : Option String
  pub auction_title : Option String
  pub auction_dict_material_name : List String
  pub auction_dict_technique_name : List String
  pub auction_width : Option F
  pub auction_height : Option F
  pub auc_dim_conf : F
  pub auction_dating_start : Option ℤ
  pub auction_dating_end : Option ℤ

-- One entry of `scores`, and `scores`.
pub record Partial (F : Type 0) : Type 0 where
  pub sim : Option F
  pub conf : F

pub record Scores (F : Type 0) : Type 0 where
  pub title : Partial F
  pub artist : Partial F
  pub dating : Partial F
  pub dimensions : Partial F
  pub material : Partial F
  pub technique : Partial F

-- The variables of the loop over the components.
pub record Totals (F : Type 0) : Type 0 where
  pub final_score : F
  pub confidence_score : F
  pub weights_sum : F

pub record PairScore (F : Type 0) : Type 0 where
  pub scores : Scores F
  pub final_score : F
  pub confidence_score : F
  pub valid_match : Bool

abbrev pub take_text : ℕ → String → String
take_text zero s = ""
take_text (suc n) String.[] = ""
take_text (suc n) (String.◌∷◌ c s) = String.◌∷◌ c (take_text n s)

-- `value[:max_len]` of a text that is no longer is the text.
unfoldable pub safe_text : ℕ → Option String → Option String
safe_text max_len none = none
safe_text max_len (some value) = some (take_text max_len value)

abbrev pub or_empty : Option (List String) → List String
or_empty none = []
or_empty (some names) = names

abbrev is_missing : Option String → Bool
is_missing none = true
is_missing (some text) = false

abbrev is_empty : List String → Bool
is_empty [] = true
is_empty (name ∷ names) = false

module _ {F : Type 0} (fl : Floats F) (ms : Measures F) where
  abbrev pub zero_score : F
  zero_score = fl.hundredths 0

  abbrev pub dim_conf : Option F → Option F → F
  dim_conf (some width) (some height) = ms.score_dimensions width height
  dim_conf _ _ = zero_score

  unfoldable pub prepare_lost_row : LostRow F → Lost F
  prepare_lost_row row = record {
    lost_id = row.lost_id;
    lost_title = row.title;
    lost_dict_material_name = or_empty row.dict_material_name;
    lost_dict_technique_name = or_empty row.dict_technique_name;
    lost_width = row.width;
    lost_height = row.height;
    lost_dim_conf = dim_conf row.width row.height;
    lost_dating_start = row.dating_start;
    lost_dating_end = row.dating_end;
    lost_artist_complete_names = or_empty row.artist_complete_names;
  }

  unfoldable pub prepare_auction_row : AuctionRow F → Auction F
  prepare_auction_row row = record {
    auction_id = row.auction_id;
    auction_artist = row.artist;
    auction_title = row.title;
    auction_dict_material_name = take 10 (or_empty row.dict_material_name);
    auction_dict_technique_name = take 10 (or_empty row.dict_technique_name);
    auction_width = row.width;
    auction_height = row.height;
    auc_dim_conf = dim_conf row.width row.height;
    auction_dating_start = row.dating_start;
    auction_dating_end = row.dating_end;
  }

  abbrev pub better_sim : Option F → Option F → Option F
  better_sim none sim = sim
  better_sim (some score) none = some score
  better_sim (some score) (some sim) = if fl.lt sim score then some score else some sim

  -- The loop over the artist names, each cut by `safe_text`.
  unfoldable pub best_artist_sim : Option String → List String → Option F → Option F
  best_artist_sim auction_artist [] sim = sim
  best_artist_sim auction_artist (name ∷ names) sim =
      best_artist_sim auction_artist names (better_sim (ms.artist_sim name auction_artist) sim)

  unfoldable pub nothing_to_compare :
      Option String → List String → Option String → Option String → Bool
  nothing_to_compare lost_title artists auction_artist auction_title =
      is_missing lost_title && is_empty artists
      || is_missing auction_artist && is_missing auction_title

  abbrev pub no_score : Partial F
  no_score = record { sim = some zero_score; conf = zero_score }

  abbrev pub no_scores : Scores F
  no_scores = record {
    title = no_score;
    artist = no_score;
    dating = no_score;
    dimensions = no_score;
    material = no_score;
    technique = no_score;
  }

  unfoldable pub component_scores :
      Lost F → Auction F → Option String → List String → Option String → Option String → Scores F
  unfolding best_artist_sim
  component_scores lost auc lost_title artists auction_artist auction_title =
      let sims =
        ms.dict_sim lost.lost_dict_material_name lost.lost_dict_technique_name
          auc.auction_dict_material_name auc.auction_dict_technique_name in
      let confs =
        ms.dict_conf lost.lost_dict_material_name auc.auction_dict_material_name
          lost.lost_dict_technique_name auc.auction_dict_technique_name in
      record {
        title = record {
          sim = ms.title_sim lost_title auction_title;
          conf = ms.title_conf lost_title auction_title;
        };
        artist = record {
          sim = best_artist_sim auction_artist artists none;
          conf = ms.artist_conf artists auction_artist;
        };
        dating = record {
          sim =
              ms.dating_sim lost.lost_dating_start lost.lost_dating_end auc.auction_dating_start
                auc.auction_dating_end;
          conf =
              ms.dating_conf lost.lost_dating_start lost.lost_dating_end auc.auction_dating_start
                auc.auction_dating_end;
        };
        dimensions = record {
          sim =
              ms.dimensions_sim lost.lost_width lost.lost_height auc.auction_width
                auc.auction_height;
          conf = ms.dimensions_conf lost.lost_dim_conf auc.auc_dim_conf;
        };
        material = record { sim = sims.0; conf = confs.0 };
        technique = record { sim = sims.1; conf = confs.1 };
      }

  abbrev pub components : Scores F → List (F × Partial F)
  components s =
      (fl.hundredths 35, s.title)
      ∷ (fl.hundredths 25, s.artist)
      ∷ (fl.hundredths 15, s.dating)
      ∷ (fl.hundredths 15, s.dimensions)
      ∷ (fl.hundredths 5, s.material)
      ∷ (fl.hundredths 5, s.technique)
      ∷ []

  abbrev pub add_sim : F → Option F → Totals F → Totals F
  add_sim w none t = t
  add_sim w (some sim) t = record t {
    weights_sum = fl.add t.weights_sum w;
    final_score = fl.add t.final_score (fl.mul w sim);
  }

  abbrev pub add_conf : F → F → Totals F → Totals F
  add_conf w conf t = record t { confidence_score = fl.add t.confidence_score (fl.mul w conf) }

  unfoldable pub totals : List (F × Partial F) → Totals F → Totals F
  totals [] t = t
  totals ((w, p) ∷ rest) t = totals rest (add_sim w p.sim (add_conf w p.conf t))

  abbrev pub no_totals : Totals F
  no_totals = record {
    final_score = zero_score;
    confidence_score = zero_score;
    weights_sum = zero_score;
  }

  unfoldable pub normalized : Totals F → F
  normalized t =
      if fl.lt zero_score t.weights_sum then fl.div t.final_score t.weights_sum else zero_score

  -- THRESHOLD and CONF_THRESHOLD
  unfoldable pub is_valid : F → F → Bool
  is_valid final_score confidence_score =
      not (fl.lt final_score (fl.hundredths 70)) && not (fl.lt confidence_score (fl.hundredths 50))

  -- Past the early return a side is not missing: the same test on the same values is false.
  abbrev pub score_pair : Scores F → PairScore F
  score_pair scores =
      let t = totals (components scores) no_totals in
      record {
        scores = scores;
        final_score = normalized t;
        confidence_score = t.confidence_score;
        valid_match = is_valid (normalized t) t.confidence_score;
      }

  unfoldable pub calculate_pair_score : ℕ → Lost F → Auction F → PairScore F
  unfolding nothing_to_compare component_scores totals normalized is_valid
  calculate_pair_score max_len lost auc =
      let lost_title = safe_text max_len lost.lost_title in
      let artists = map (take_text max_len) lost.lost_artist_complete_names in
      let auction_artist = safe_text max_len auc.auction_artist in
      let auction_title = safe_text max_len auc.auction_title in
      if nothing_to_compare lost_title artists auction_artist auction_title
      then (record {
        scores = no_scores;
        final_score = zero_score;
        confidence_score = zero_score;
        valid_match = false;
      })
      else score_pair (component_scores lost auc lost_title artists auction_artist auction_title)
