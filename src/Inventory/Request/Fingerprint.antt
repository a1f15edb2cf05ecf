-- ===== src/Inventory/Request/Fingerprint.antt =====
-- The fingerprint of a reservation does not depend on the order of its items, and its text determines
-- them but for their order.
use mathlib.Core.List.{Perm, append_assoc}
use tarea_integracion_sistem.Prelude.{
  ◌≡◌, refl, sym, ◌∙◌, ap, ap₂, List, [], ◌∷◌, ◌++◌, map, drop, All,
}
use tarea_integracion_sistem.Text.{Text, IsDistinct, decimal}
use tarea_integracion_sistem.Text.Splitting.{cut_unique}
use tarea_integracion_sistem.Text.Decimal.{digit, decimal-digits, decimal_injective}
use tarea_integracion_sistem.Json.{json_array, json_string}
use tarea_integracion_sistem.Json.Reading.{
  plain, json_string-plain, after_first, after_first-cons, json_array-cons,
}
use tarea_integracion_sistem.Inventory.Uuid.{is_uuid_text-plain}
use mathlib.Core.List.Perm
use tarea_integracion_sistem.Sort.{sort_by}
use tarea_integracion_sistem.Sort.Laws.{sort_by-All, sort_by-perm}
use tarea_integracion_sistem.Prelude.{subst}
use tarea_integracion_sistem.Sort.Unique.{sort_by-Perm}
use tarea_integracion_sistem.Inventory.Request.{
  ReserveItem, canonical, canonical_item, request_fingerprint,
}
use tarea_integracion_sistem.Inventory.Request.Parsing.{part_ids, IsValidItem}

canonical-Perm :
    {items items' : List ReserveItem}
    → Perm items items'
    → IsDistinct (part_ids items)
    → canonical items ≡ canonical items'
unfolding canonical
canonical-Perm = sort_by-Perm (λ i. i.part_id) (λ sorted. json_array (map canonical_item sorted))

pub request_fingerprint-Perm :
    (sha256_hex : Text → Text) {items items' : List ReserveItem}
    → Perm items items'
    → IsDistinct (part_ids items)
    → request_fingerprint sha256_hex items ≡ request_fingerprint sha256_hex items'
unfolding request_fingerprint
request_fingerprint-Perm sha256_hex p d = ap sha256_hex (canonical-Perm p d)

-- An item, written before another text.
item_then :
    (i : ReserveItem) (rest : Text)
    → IsValidItem i
    → canonical_item i ++ rest
      ≡ 91 ∷ 34 ∷ (i.part_id ++ (34 ∷ 44 ∷ (decimal i.quantity ++ (93 ∷ rest))))
unfolding after_first
item_then i rest (folded, _, _) =
    let id = i.part_id in
    let d = decimal i.quantity in
    let quoted = json_string-plain id (is_uuid_text-plain id folded.0) in
    ap (λ t. t ++ rest)
      (json_array-cons (json_string id) (d ∷ [])
        ∙ ap (λ t. 91 ∷ (t ++ after_first (d ∷ []))) quoted
        ∙ ap (λ t. 91 ∷ (34 ∷ (id ++ (34 ∷ []))) ++ t) (after_first-cons d []))
    ∙ ap (λ t. 91 ∷ 34 ∷ t)
        (append_assoc (id ++ (34 ∷ [])) (44 ∷ (d ++ (93 ∷ []))) rest
          ∙ append_assoc id (34 ∷ []) ((44 ∷ (d ++ (93 ∷ []))) ++ rest)
          ∙ ap (λ t. id ++ (34 ∷ 44 ∷ t)) (append_assoc d (93 ∷ []) rest))

item_unique :
    (i j : ReserveItem) (rest rest' : Text)
    → IsValidItem i
    → IsValidItem j
    → canonical_item i ++ rest ≡ canonical_item j ++ rest'
    → (i ≡ j) × (rest ≡ rest')
item_unique i j rest rest' vi vj e =
    let written = sym (item_then i rest vi) ∙ e ∙ item_then j rest' vj in
    let (part, behind) =
      cut_unique plain 34 refl i.part_id j.part_id _ _ (is_uuid_text-plain i.part_id vi.0.0)
        (is_uuid_text-plain j.part_id vj.0.0) (ap (drop 2) written) in
    let (digits, left) =
      cut_unique digit 93 refl (decimal i.quantity) (decimal j.quantity) rest rest'
        (decimal-digits i.quantity) (decimal-digits j.quantity) (ap (drop 1) behind) in
    (
      ap₂ (λ p q. record { part_id = p; quantity = q }) part
          (decimal_injective i.quantity j.quantity digits),
      left,
    )

after_unique :
    (is js : List ReserveItem)
    → All IsValidItem is
    → All IsValidItem js
    → after_first (map canonical_item is) ≡ after_first (map canonical_item js)
    → is ≡ js
unfolding after_first
after_unique [] [] vi vj e = refl
after_unique [] (j ∷ js) vi vj e = cc
after_unique (i ∷ is) [] vi vj e = cc
after_unique (i ∷ is) (j ∷ js) (vi, vis) (vj, vjs) e =
    let written =
      sym (after_first-cons (canonical_item i) (map canonical_item is))
      ∙ e
      ∙ after_first-cons (canonical_item j) (map canonical_item js) in
    let (same, rest) = item_unique i j _ _ vi vj (ap (drop 1) written) in
    ap₂ (λ x xs. x ∷ xs) same (after_unique is js vis vjs rest)

arrays_unique :
    (is js : List ReserveItem)
    → All IsValidItem is
    → All IsValidItem js
    → json_array (map canonical_item is) ≡ json_array (map canonical_item js)
    → is ≡ js
arrays_unique [] [] vi vj e = refl
arrays_unique [] (j ∷ js) vi vj e =
    let written = e ∙ json_array-cons (canonical_item j) (map canonical_item js) in
    absurd
      (unfold json_array in cc (written, item_then j (after_first (map canonical_item js)) vj.0))
arrays_unique (i ∷ is) [] vi vj e =
    let written = sym e ∙ json_array-cons (canonical_item i) (map canonical_item is) in
    absurd
      (unfold json_array in cc (written, item_then i (after_first (map canonical_item is)) vi.0))
arrays_unique (i ∷ is) (j ∷ js) (vi, vis) (vj, vjs) e =
    let written =
      sym (json_array-cons (canonical_item i) (map canonical_item is))
      ∙ e
      ∙ json_array-cons (canonical_item j) (map canonical_item js) in
    let (same, rest) = item_unique i j _ _ vi vj (ap (drop 1) written) in
    ap₂ (λ x xs. x ∷ xs) same (after_unique is js vis vjs rest)

-- The text that is hashed is that of a rearrangement of the items alone.
pub canonical_injective :
    (is js : List ReserveItem)
    → All IsValidItem is
    → All IsValidItem js
    → canonical is ≡ canonical js
    → Perm is js
unfolding canonical
canonical_injective is js vi vj e =
    let key = λ (i : ReserveItem). i.part_id in
    let sorted =
      arrays_unique (sort_by key is) (sort_by key js) (sort_by-All key IsValidItem is vi)
        (sort_by-All key IsValidItem js vj) e in
    Perm.trans (Perm.symm (sort_by-perm key is))
      (subst (λ s. Perm s js) (sym sorted) (sort_by-perm key js))
