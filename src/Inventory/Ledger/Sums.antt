-- ===== src/Inventory/Ledger/Sums.antt =====
-- What the orders hold together, when one of them changes.
use tarea_integracion_sistem.Prelude.{
  ◌+◌, ◌≡◌, refl, ap, ap₂, true, false, List, [], ◌∷◌, Option, none, arith, Bool-cases, inl, inr,
  ◌≤◌,
}
use tarea_integracion_sistem.Text.{Text, text_eq, contains}
use tarea_integracion_sistem.Text.Laws.{text_eq_sound, text_eq_comm, text_eq_refl}
use tarea_integracion_sistem.Inventory.Store.{Operation, IsDistinct}
use tarea_integracion_sistem.Inventory.Ledger.{held_of, held_total}

module _ (find find' : Text → Option Operation) (k : Text)
    (same : (x : Text) → text_eq k x ≡ false → find' x ≡ find x) where
  -- Other orders hold what they held.
  pub held_total-others :
      (orders : List Text) (j : Text)
      → contains k orders ≡ false
      → held_total find' orders j ≡ held_total find orders j
  unfolding contains
  held_total-others [] j h = refl
  held_total-others (x ∷ xs) j h =
      let ne : text_eq k x ≡ false = ground (arith, text_eq_comm x k) in
      ap₂ ◌+◌ (ap (λ o. held_of o j) (same x ne)) (held_total-others xs j (ground arith))

  -- One order among them holds more or less.
  pub held_total-one :
      (orders : List Text) (j : Text)
      → IsDistinct orders
      → contains k orders ≡ true
      → held_total find' orders j + held_of (find k) j
        ≡ held_total find orders j + held_of (find' k) j
  unfolding contains
  held_total-one [] j d h = cc
  held_total-one (x ∷ xs) j d h = elim (Bool-cases (text_eq x k)) [
    | inl e ↦
        let at : x ≡ k = text_eq_sound x k e in
        let others : contains k xs ≡ false = rw (← at) d.0 in
        let rest = held_total-others xs j others in rw at (omega (arith, rest))
    | inr ne ↦
        let off : text_eq k x ≡ false = ground (arith, text_eq_comm x k) in
        let rest = held_total-one xs j d.1 (ground arith) in
        let here : held_of (find' x) j ≡ held_of (find x) j = ap (λ o. held_of o j) (same x off) in
        omega (arith, rest, here)
  ]

  -- With the order put on the list if it was not there, the total changes by what the order holds.
  pub held_total-joins :
      (orders : List Text)
      → IsDistinct orders
      → (contains k orders ≡ false → find k ≡ none)
      → (orders' : List Text) × IsDistinct orders'
        × (contains k orders' ≡ true)
        × ((x : Text) → contains x orders ≡ true → contains x orders' ≡ true)
        × ((j : Text)
            → held_total find' orders' j + held_of (find k) j
              ≡ held_total find orders j + held_of (find' k) j)
  held_total-joins orders d new = elim (Bool-cases (contains k orders)) [
    | inl there ↦ (orders, d, there, λ x h. h, λ j. held_total-one orders j d there)
    | inr absent ↦ (
      k ∷ orders,
      (absent, d),
      unfold contains in rw (text_eq_refl k) refl,
      λ x h. unfold contains in ground arith,
      λ j. rw (new absent) (omega (arith, held_total-others orders j absent)),
    )
  ]

pub held_total-zero :
    (find : Text → Option Operation) (orders : List Text) (j : Text)
    → ((k : Text) → held_of (find k) j ≡ 0)
    → held_total find orders j ≡ 0
held_total-zero find [] j h = refl
held_total-zero find (k ∷ ks) j h = omega (arith, h k, held_total-zero find ks j h)

pub held_of-le_total :
    (find : Text → Option Operation) (orders : List Text) (k j : Text)
    → contains k orders ≡ true
    → held_of (find k) j ≤ held_total find orders j
unfolding contains
held_of-le_total find [] k j h = cc
held_of-le_total find (x ∷ xs) k j h = elim (Bool-cases (text_eq x k)) [
  | inl e ↦ let at : x ≡ k = text_eq_sound x k e in rw at (omega arith)
  | inr ne ↦ omega (arith, held_of-le_total find xs k j (ground arith))
]
