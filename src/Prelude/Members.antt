-- ===== src/Prelude/Members.antt =====
-- Membership in a list that is put together from lists.
use mathlib.Core.List.{List, [], ◌∷◌, ◌++◌, Memᴰ}
use mathlib.Core.Logic.{◌⊎◌, inl, inr}

module _ {ℓ} {A : Type ℓ} where
  pub append-mem_left : (xs ys : List A) {a : A} → Memᴰ a xs → Memᴰ a (xs ++ ys)
  append-mem_left [] ys m = elim m [ ]
  append-mem_left (x ∷ xs) ys (Memᴰ.head e) = Memᴰ.head e
  append-mem_left (x ∷ xs) ys (Memᴰ.tail m) = Memᴰ.tail (append-mem_left xs ys m)

  pub append-mem_right : (xs ys : List A) {a : A} → Memᴰ a ys → Memᴰ a (xs ++ ys)
  append-mem_right [] ys m = m
  append-mem_right (x ∷ xs) ys m = Memᴰ.tail (append-mem_right xs ys m)

  pub append-mem_cases : (xs ys : List A) {a : A} → Memᴰ a (xs ++ ys) → Memᴰ a xs ⊎ Memᴰ a ys
  append-mem_cases [] ys m = inr m
  append-mem_cases (x ∷ xs) ys (Memᴰ.head e) = inl (Memᴰ.head e)
  append-mem_cases (x ∷ xs) ys (Memᴰ.tail m) = elim (append-mem_cases xs ys m) [
    | inl k ↦ inl (Memᴰ.tail k)
    | inr k ↦ inr k
  ]
