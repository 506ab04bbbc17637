-- ===== src/Matching/Artists.antt =====
-- About the loop of `calculate_pair_score` over the artists' names.
use mathlib.Core.List.{Memᴰ}
use sm_artmatch.Prelude.{Bool-cases, inl, inr, Option, none, some, String, List, [], ◌∷◌}
use sm_artmatch.Matching.{Floats, Measures, better_sim, best_artist_sim}
use sm_artmatch.Matching.Laws.{Le, IsMonotone}

module _ {F : Type 0} (fl : Floats F) (ms : Measures F) (law : IsMonotone fl) where
  -- The similarity of the best artist's name is kept: none of the names has a greater one.
  abbrev pub NotGreater : Option F → Option F → Type 0
  NotGreater none best = Unit
  NotGreater (some a) none = ⊥
  NotGreater (some a) (some best) = Le fl a best

  NotGreater-trans : (a b c : Option F) → NotGreater a b → NotGreater b c → NotGreater a c
  NotGreater-trans none b c h k = tt
  NotGreater-trans (some a) none c h k = absurd h
  NotGreater-trans (some a) (some b) none h k = absurd k
  NotGreater-trans (some a) (some b) (some c) h k = law.trans a b c h k

  NotGreater-refl : (a : Option F) → NotGreater a a
  NotGreater-refl none = tt
  NotGreater-refl (some a) = law.irrefl a

  better_sim-NotGreater :
      (a b : Option F) → NotGreater a (better_sim fl ms a b) × NotGreater b (better_sim fl ms a b)
  better_sim-NotGreater none b = (tt, NotGreater-refl b)
  better_sim-NotGreater (some a) none = (law.irrefl a, tt)
  better_sim-NotGreater (some a) (some b) = elim (Bool-cases (fl.lt b a)) [
    | inl better ↦ rw better (law.irrefl a, law.asym b a better)
    | inr worse ↦ rw worse (worse, law.irrefl b)
  ]

  best_artist_sim-keeps :
      (artist : Option String) (names : List String) (sim : Option F)
      → NotGreater sim (best_artist_sim fl ms artist names sim)
  unfolding best_artist_sim
  best_artist_sim-keeps artist [] sim = NotGreater-refl sim
  best_artist_sim-keeps artist (name ∷ names) sim =
      NotGreater-trans sim (better_sim fl ms (ms.artist_sim name artist) sim) _
        (better_sim-NotGreater (ms.artist_sim name artist) sim).1
        (best_artist_sim-keeps artist names _)

  best_artist_sim-NotGreater_from :
      (artist : Option String) (names : List String) (sim : Option F) (name : String)
      → Memᴰ name names
      → NotGreater (ms.artist_sim name artist) (best_artist_sim fl ms artist names sim)
  unfolding best_artist_sim
  best_artist_sim-NotGreater_from artist [] sim name m = elim m [ ]
  best_artist_sim-NotGreater_from artist (first ∷ names) sim name (Memᴰ.head e) =
      NotGreater-trans (ms.artist_sim name artist)
        (better_sim fl ms (ms.artist_sim first artist) sim) _
        (rw e (better_sim-NotGreater (ms.artist_sim first artist) sim).0)
        (best_artist_sim-keeps artist names _)
  best_artist_sim-NotGreater_from artist (first ∷ names) sim name (Memᴰ.tail m) =
      best_artist_sim-NotGreater_from artist names _ name m

  -- The similarity of the artists is that of the best of the lost artwork's names: no name has a greater one, and it is missing only if that of every name is.
  pub best_artist_sim-NotGreater :
      (artist : Option String) (names : List String) (name : String)
      → Memᴰ name names
      → NotGreater (ms.artist_sim name artist) (best_artist_sim fl ms artist names none)
  best_artist_sim-NotGreater artist names name m =
      best_artist_sim-NotGreater_from artist names none name m
