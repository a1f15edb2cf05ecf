-- ===== src/Sort/Unique.antt =====
-- The sort of elements with distinct keys does not depend on their order.
use mathlib.Core.List.{Perm, Permᴰ}
use mathlib.Core.Logic.{∥∥₁_elim}
use tarea_integracion_sistem.Prelude.{
  ℕ, ◌≡◌, refl, sym, ap, ap₂, ◌∙◌, false, ◌||◌, List, [], ◌∷◌, map, arith, subst,
}
use tarea_integracion_sistem.Text.{Text, text_eq, contains, IsDistinct}
use tarea_integracion_sistem.Text.Order.{text_lt_trans, text_lt_total}
use tarea_integracion_sistem.Text.Laws.{text_eq_comm}
use tarea_integracion_sistem.Sort.{insert_by, sort_by}

module _ {A : Type 0} (key : A → Text) where
  insert_by_comm :
      (x y : A) (zs : List A)
      → text_eq (key x) (key y) ≡ false
      → insert_by key x (insert_by key y zs) ≡ insert_by key y (insert_by key x zs)
  unfolding insert_by
  insert_by_comm x y [] ne = ground (arith, text_lt_total (key x) (key y))
  insert_by_comm x y (z ∷ zs) ne = ground (
    arith,
    insert_by_comm x y zs ne,
    text_lt_total (key x) (key y),
    text_lt_trans (key x) (key y) (key z),
    text_lt_trans (key y) (key x) (key z),
    text_lt_trans (key z) (key x) (key y),
    text_lt_trans (key z) (key y) (key x),
  )

  contains-perm :
      {xs ys : List A}
      → Permᴰ xs ys
      → (k : Text) → contains k (map key xs) ≡ contains k (map key ys)
  unfolding contains
  contains-perm Permᴰ.nil k = refl
  contains-perm (Permᴰ.cons e p) k = ap₂ (λ a b. text_eq (key a) k || b) e (contains-perm p k)
  contains-perm (Permᴰ.swap e e') k = ground arith
  contains-perm (Permᴰ.trans p q) k = contains-perm p k ∙ contains-perm q k

  -- Elements with distinct keys, rearranged, sort to the same list, and their keys stay distinct.
  sort_by-rearranged :
      {xs ys : List A}
      → Permᴰ xs ys
      → IsDistinct (map key xs)
      → (sort_by key xs ≡ sort_by key ys) × IsDistinct (map key ys)
  unfolding sort_by contains
  sort_by-rearranged Permᴰ.nil d = (refl, tt)
  sort_by-rearranged (Permᴰ.cons {a = a} {l₁ = xs} {l₂ = ys} e p) d =
      let (same, d') = sort_by-rearranged p d.1 in
      (
        ap₂ (insert_by key) e same,
        (ap (λ b. contains (key b) (map key ys)) (sym e) ∙ sym (contains-perm p (key a)) ∙ d.0, d'),
      )
  sort_by-rearranged (Permᴰ.swap {a = a} {b = b} {a' = a'} {b' = b'} {l = l} e e') d =
      let ne : text_eq (key a) (key b) ≡ false = ground (arith, text_eq_comm (key a) (key b)) in
      (
        insert_by_comm a b (sort_by key l) ne
            ∙ ap₂ (λ x y. insert_by key x (insert_by key y (sort_by key l))) e' e,
        subst (λ x. IsDistinct (key x ∷ key b' ∷ map key l)) e'
            (subst (λ y. IsDistinct (key b ∷ key y ∷ map key l)) e
              (ground (arith, text_eq_comm (key a) (key b)), (ground arith, d.1.1))),
      )
  sort_by-rearranged (Permᴰ.trans p q) d =
      let (same, d') = sort_by-rearranged p d in
      let (same', d'') = sort_by-rearranged q d' in (same ∙ same', d'')

  pub sort_by-Perm :
      (f : List A → List ℕ) {xs ys : List A}
      → Perm xs ys
      → IsDistinct (map key xs)
      → f (sort_by key xs) ≡ f (sort_by key ys)
  sort_by-Perm f p d = ∥∥₁_elim p (hlevel) (λ q. ap f (sort_by-rearranged q d).0)
