-- ===== src/Js/Laws.antt =====
-- How a map made from an array goes with the operations on the array.
use tarea_integracion_sistem.Prelude.{
  ◌≡◌, refl, sym, ◌∙◌, true, false, List, [], ◌∷◌, map, none, some, arith, keep_if, Bool-cases, inl,
  inr, if◌then◌else◌,
}
use tarea_integracion_sistem.Text.{Text, text_eq, text_lt, contains}
use tarea_integracion_sistem.Text.Laws.{text_eq_sound, text_eq_iff, text_lt_irrefl}
use tarea_integracion_sistem.Js.{map_get}
use tarea_integracion_sistem.Sort.{insert_by, sort_by}

module _ {A : Type 0} (key : A → Text) where
  pub map_get-key :
      (k : Text) (rows : List A) (row : A) → map_get key k rows ≡ some row → key row ≡ k
  unfolding map_get
  map_get-key k [] row h = cc
  map_get-key k (r ∷ rows) row h = ground (arith, map_get-key k rows row, text_eq_sound (key r) k)

  -- Two entries with other keys change places.
  swap_entries :
      (k : Text) (x y : A) (rows : List A)
      → text_eq (key x) (key y) ≡ false
      → map_get key k (x ∷ y ∷ rows) ≡ map_get key k (y ∷ x ∷ rows)
  unfolding map_get
  swap_entries k x y rows ne =
      ground (arith, text_eq_iff (key x) k, text_eq_iff (key y) k, text_eq_iff (key x) (key y))

  cons_congr :
      (k : Text) (x : A) (xs ys : List A)
      → map_get key k xs ≡ map_get key k ys
      → map_get key k (x ∷ xs) ≡ map_get key k (x ∷ ys)
  unfolding map_get
  cons_congr k x xs ys h = rw h

  map_get-insert_by :
      (k : Text) (x : A) (ys : List A) → map_get key k (insert_by key x ys) ≡ map_get key k (x ∷ ys)
  unfolding insert_by
  map_get-insert_by k x [] = refl
  map_get-insert_by k x (y ∷ ys) = elim (Bool-cases (text_lt (key y) (key x))) [
    | inl less ↦
        let ne : text_eq (key x) (key y) ≡ false =
          ground (arith, text_eq_iff (key x) (key y), text_lt_irrefl (key x)) in
        rw less (
          cons_congr k y (insert_by key x ys) (x ∷ ys) (map_get-insert_by k x ys)
          ∙ sym (swap_entries k x y ys ne))
    | inr not_less ↦ rw not_less
  ]

  -- Sorting an array by its key does not change the map made from it.
  pub map_get-sort_by : (k : Text) (xs : List A) → map_get key k (sort_by key xs) ≡ map_get key k xs
  unfolding sort_by
  map_get-sort_by k [] = refl
  map_get-sort_by k (x ∷ xs) =
      map_get-insert_by k x (sort_by key xs)
      ∙ cons_congr k x (sort_by key xs) xs (map_get-sort_by k xs)

  pub map_get-keep_if :
      (k : Text) (ids : List Text) (rows : List A)
      → map_get key k (keep_if (λ r. contains (key r) ids) rows)
        ≡ (if contains k ids then map_get key k rows else none)
  unfolding map_get
  map_get-keep_if k ids [] = ground arith
  map_get-keep_if k ids (r ∷ rows) =
      ground (arith, map_get-keep_if k ids rows, text_eq_iff (key r) k)

  pub map_get-absent :
      (k : Text) (rows : List A) → contains k (map key rows) ≡ false → map_get key k rows ≡ none
  unfolding map_get contains
  map_get-absent k [] h = refl
  map_get-absent k (r ∷ rows) h = ground (arith, map_get-absent k rows)

  pub map_get-others :
      (k : Text) (row : A) (rows : List A)
      → text_eq (key row) k ≡ false
      → map_get key k (row ∷ rows) ≡ map_get key k rows
  unfolding map_get
  map_get-others k row rows ne = ground arith

  pub map_get-here :
      (k : Text) (row : A) (rows : List A)
      → text_eq (key row) k ≡ true
      → contains k (map key rows) ≡ false
      → map_get key k (row ∷ rows) ≡ some row
  unfolding map_get
  map_get-here k row rows at new = rw (map_get-absent k rows new, at) refl
