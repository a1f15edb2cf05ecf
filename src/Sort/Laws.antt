-- ===== src/Sort/Laws.antt =====
-- A sort keeps the elements, and the keys of its result ascend.
use mathlib.Core.List.{Perm}
use mathlib.Core.List.Perm
use tarea_integracion_sistem.Prelude.{◌≡◌, false, List, [], ◌∷◌, All, Bool-cases, inl, inr}
use tarea_integracion_sistem.Text.{Text, text_lt}
use tarea_integracion_sistem.Sort.{insert_by, sort_by}

module _ {ℓ} {A : Type ℓ} (key : A → Text) where
  -- No key is greater than its right neighbour's.
  abbrev pub Ascends : List A → Type 0
  Ascends [] = Unit
  Ascends (x ∷ []) = Unit
  Ascends (x ∷ y ∷ ys) = (text_lt (key y) (key x) ≡ false) × Ascends (y ∷ ys)

  pub insert_by-perm : (x : A) (xs : List A) → Perm (insert_by key x xs) (x ∷ xs)
  unfolding insert_by
  insert_by-perm x [] = Perm.refl (x ∷ [])
  insert_by-perm x (y ∷ ys) = elim (Bool-cases (text_lt (key y) (key x))) [
    | inl less ↦ rw less (Perm.trans (Perm.cons y (insert_by-perm x ys)) (Perm.swap x y ys))
    | inr not_less ↦ rw not_less (Perm.refl (x ∷ y ∷ ys))
  ]

  pub sort_by-perm : (xs : List A) → Perm (sort_by key xs) xs
  unfolding sort_by
  sort_by-perm [] = Perm.refl []
  sort_by-perm (x ∷ xs) =
      Perm.trans (insert_by-perm x (sort_by key xs)) (Perm.cons x (sort_by-perm xs))

  insert_by-All :
      (P : A → Type 0) (x : A) (xs : List A) → P x → All P xs → All P (insert_by key x xs)
  unfolding insert_by
  insert_by-All P x [] p ps = (p, tt)
  insert_by-All P x (y ∷ ys) p ps = elim (Bool-cases (text_lt (key y) (key x))) [
    | inl less ↦ rw less (ps.0, insert_by-All P x ys p ps.1)
    | inr not_less ↦ rw not_less (p, ps)
  ]

  pub sort_by-All : (P : A → Type 0) (xs : List A) → All P xs → All P (sort_by key xs)
  unfolding sort_by
  sort_by-All P [] ps = tt
  sort_by-All P (x ∷ xs) ps = insert_by-All P x (sort_by key xs) ps.0 (sort_by-All P xs ps.1)
