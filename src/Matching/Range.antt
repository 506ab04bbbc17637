-- ===== src/Matching/Range.antt =====
-- About the scores of `calculate_pair_score`: their range.
use sm_artmatch.Prelude.{
  ℕ, Bool, true, false, Bool-cases, inl, inr, Option, none, some, String, List, [], ◌∷◌, map,
  if◌then◌else◌,
}
use sm_artmatch.Matching.{
  LostRow, AuctionRow, prepare_lost_row, prepare_auction_row, dim_conf, Floats, Measures, Lost,
  Auction, Partial, Scores, Totals, PairScore, take_text, safe_text, better_sim, best_artist_sim,
  component_scores, components, add_sim, add_conf, totals, no_totals, normalized, score_pair,
  calculate_pair_score,
}
use sm_artmatch.Matching.Laws.{Le, IsMonotone, InUnit, MaybeInUnit, IsMeasured}

module _ {F : Type 0} (fl : Floats F) where
  abbrev Weighted : List (F × Partial F) → Type 0
  Weighted [] = Unit
  Weighted ((w, p) ∷ rest) =
      Le fl (fl.hundredths 0) w × MaybeInUnit fl p.sim × InUnit fl p.conf × Weighted rest

  abbrev sum_from : F → List (F × Partial F) → F
  sum_from t [] = t
  sum_from t ((w, p) ∷ rest) = sum_from (fl.add t w) rest

module _ {F : Type 0} (fl : Floats F) (ms : Measures F) (law : IsMonotone fl) where
  record Sound (t : Totals F) (weight : F) : Type 0 where
    final_pos : Le fl (fl.hundredths 0) t.final_score
    final_le : Le fl t.final_score t.weights_sum
    conf_pos : Le fl (fl.hundredths 0) t.confidence_score
    conf_le : Le fl t.confidence_score weight

  add_conf-Sound :
      (w conf : F) (t : Totals F) (weight : F)
      → Le fl (fl.hundredths 0) w
      → InUnit fl conf
      → Sound t weight
      → Sound (add_conf fl ms w conf t) (fl.add weight w)
  add_conf-Sound w conf t weight pos (c, c') s = record {
    final_pos = s.final_pos;
    final_le = s.final_le;
    conf_pos = law.add_pos t.confidence_score (fl.mul w conf) s.conf_pos (law.mul_pos w conf pos c);
    conf_le =
        law.add_mono t.confidence_score weight (fl.mul w conf) w s.conf_le
          (law.mul_le w conf pos c');
  }

  add_sim-Sound :
      (w : F) (sim : Option F) (t : Totals F) (weight : F)
      → Le fl (fl.hundredths 0) w
      → MaybeInUnit fl sim
      → Sound t weight
      → Sound (add_sim fl ms w sim t) weight
  add_sim-Sound w none t weight pos u s = s
  add_sim-Sound w (some sim) t weight pos (u, u') s = record {
    final_pos = law.add_pos t.final_score (fl.mul w sim) s.final_pos (law.mul_pos w sim pos u);
    final_le =
        law.add_mono t.final_score t.weights_sum (fl.mul w sim) w s.final_le
          (law.mul_le w sim pos u');
    conf_pos = s.conf_pos;
    conf_le = s.conf_le;
  }

  totals-Sound :
      (cs : List (F × Partial F)) (t : Totals F) (weight : F)
      → Weighted fl cs
      → Sound t weight
      → Sound (totals fl ms cs t) (sum_from fl weight cs)
  unfolding totals
  totals-Sound [] t weight u s = s
  totals-Sound ((w, p) ∷ rest) t weight (pos, sim, conf, u) s =
      totals-Sound rest (add_sim fl ms w p.sim (add_conf fl ms w p.conf t)) (fl.add weight w) u (
        add_sim-Sound w p.sim (add_conf fl ms w p.conf t) (fl.add weight w) pos sim
          (add_conf-Sound w p.conf t weight pos conf s))

  normalized-InUnit : (t : Totals F) (weight : F) → Sound t weight → InUnit fl (normalized fl ms t)
  unfolding normalized
  normalized-InUnit t weight s = elim (Bool-cases (fl.lt (fl.hundredths 0) t.weights_sum)) [
    | inl some_weight ↦ simp some_weight (
      law.div_pos t.final_score t.weights_sum s.final_pos some_weight,
      law.div_le t.final_score t.weights_sum s.final_le some_weight,
    )
    | inr no_weight ↦ simp no_weight (law.irrefl (fl.hundredths 0), law.literal 100)
  ]

  better_sim-InUnit :
      (a b : Option F) → MaybeInUnit fl a → MaybeInUnit fl b → MaybeInUnit fl (better_sim fl ms a b)
  better_sim-InUnit none b h k = k
  better_sim-InUnit (some a) none h k = h
  better_sim-InUnit (some a) (some b) h k = elim (Bool-cases (fl.lt b a)) [
    | inl better ↦ rw better h
    | inr worse ↦ rw worse k
  ]

  module _ (measured : IsMeasured fl ms) where
    best_artist_sim-InUnit :
        (artist : Option String) (names : List String) (sim : Option F)
        → MaybeInUnit fl sim
        → MaybeInUnit fl (best_artist_sim fl ms artist names sim)
    unfolding best_artist_sim
    best_artist_sim-InUnit artist [] sim u = u
    best_artist_sim-InUnit artist (name ∷ names) sim u =
        best_artist_sim-InUnit artist names _
          (better_sim-InUnit (ms.artist_sim name artist) sim (measured.artist_sim name artist) u)

    component_scores-Weighted :
        (lost : Lost F) (auc : Auction F) (title : Option String) (artists : List String)
        (artist auction_title : Option String)
        → InUnit fl lost.lost_dim_conf
        → InUnit fl auc.auc_dim_conf
        → Weighted fl
            (components fl ms (component_scores fl ms lost auc title artists artist auction_title))
    unfolding component_scores
    component_scores-Weighted lost auc title artists artist auction_title lost_conf auc_conf =
        let sims =
          measured.dict_sim lost.lost_dict_material_name lost.lost_dict_technique_name
            auc.auction_dict_material_name auc.auction_dict_technique_name in
        let confs =
          measured.dict_conf lost.lost_dict_material_name auc.auction_dict_material_name
            lost.lost_dict_technique_name auc.auction_dict_technique_name in
        (
          law.literal 35,
          measured.title_sim title auction_title,
          measured.title_conf title auction_title,
          (
            law.literal 25,
            best_artist_sim-InUnit artist artists none tt,
            measured.artist_conf artists artist,
            (
              law.literal 15,
              measured.dating_sim _ _ _ _,
              measured.dating_conf _ _ _ _,
              (
                law.literal 15,
                measured.dimensions_sim _ _ _ _,
                measured.dimensions_conf _ _ lost_conf auc_conf,
                (law.literal 5, sims.0, confs.0, (law.literal 5, sims.1, confs.1, tt)),
              ),
            ),
          ),
        )

    no_totals-Sound : Sound (no_totals fl ms) (fl.hundredths 0)
    no_totals-Sound = record {
      final_pos = law.irrefl (fl.hundredths 0);
      final_le = law.irrefl (fl.hundredths 0);
      conf_pos = law.irrefl (fl.hundredths 0);
      conf_le = law.irrefl (fl.hundredths 0);
    }

    -- The sum of all weights, added in the order of the components.
    abbrev pub all_weights : F
    all_weights =
        let weight = λ (t : F) (n : ℕ). fl.add t (fl.hundredths n) in
        weight (weight (weight (weight (weight (weight (fl.hundredths 0) 35) 25) 15) 15) 5) 5

    abbrev pub Ranged : PairScore F → Type 0
    Ranged p =
        InUnit fl p.final_score
        × Le fl (fl.hundredths 0) p.confidence_score
        × Le fl p.confidence_score all_weights

    if-Ranged : (b : Bool) (p q : PairScore F) → Ranged p → Ranged q → Ranged (if b then p else q)
    if-Ranged true p q h k = h
    if-Ranged false p q h k = k

    no_score-Ranged :
        InUnit fl (fl.hundredths 0)
        × Le fl (fl.hundredths 0) (fl.hundredths 0)
        × Le fl (fl.hundredths 0) all_weights
    no_score-Ranged = (
      (law.irrefl (fl.hundredths 0), law.literal 100),
      law.irrefl (fl.hundredths 0),
      add (add (add (add (add (add (law.irrefl (fl.hundredths 0)) 35) 25) 15) 15) 5) 5,
    )
      where
        add :
            {t : F}
            → Le fl (fl.hundredths 0) t
            → (n : ℕ) → Le fl (fl.hundredths 0) (fl.add t (fl.hundredths n))
        add {t} h n = law.add_pos t (fl.hundredths n) h (law.literal n)

    score_pair-range :
        (s : Scores F) → Weighted fl (components fl ms s) → Ranged (score_pair fl ms s)
    score_pair-range s u =
        let sound =
          totals-Sound (components fl ms s) (no_totals fl ms) (fl.hundredths 0) u no_totals-Sound in
        (normalized-InUnit _ _ sound, sound.conf_pos, sound.conf_le)

    dim_conf-InUnit : (width height : Option F) → InUnit fl (dim_conf fl ms width height)
    dim_conf-InUnit none height = (law.irrefl (fl.hundredths 0), law.literal 100)
    dim_conf-InUnit (some width) none = (law.irrefl (fl.hundredths 0), law.literal 100)
    dim_conf-InUnit (some width) (some height) = measured.score_dimensions width height

    -- Where the similarities and confidences lie between 0.0 and 1.0, the final score of any two
    -- rows does, and the confidence score lies between 0.0 and the sum of the weights.
    pub calculate_pair_score-range :
        (max_len : ℕ) (lost_row : LostRow F) (auc_row : AuctionRow F)
        → Ranged (
            calculate_pair_score fl ms max_len
              (prepare_lost_row fl ms lost_row)
              (prepare_auction_row fl ms auc_row))
    unfolding calculate_pair_score prepare_lost_row prepare_auction_row
    calculate_pair_score-range max_len lost_row auc_row =
        if-Ranged _ _
          (score_pair fl ms (component_scores fl ms lost auc title artists artist auction_title))
          no_score-Ranged
          (score_pair-range (component_scores fl ms lost auc title artists artist auction_title) (
            component_scores-Weighted lost auc title artists artist auction_title
              (dim_conf-InUnit lost_row.width lost_row.height)
              (dim_conf-InUnit auc_row.width auc_row.height)))
      where
        lost : Lost F
        lost = prepare_lost_row fl ms lost_row

        auc : Auction F
        auc = prepare_auction_row fl ms auc_row

        title : Option String
        title = safe_text max_len lost.lost_title

        artists : List String
        artists = map (take_text max_len) lost.lost_artist_complete_names

        artist : Option String
        artist = safe_text max_len auc.auction_artist

        auction_title : Option String
        auction_title = safe_text max_len auc.auction_title
