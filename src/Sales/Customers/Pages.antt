-- ===== src/Sales/Customers/Pages.antt =====
-- The pages of the list tile the table.
use mathlib.Core.List.{map-append}
use tarea_integracion_sistem.Prelude.{
  ℕ, zero, suc, ◌+◌, ◌-◌, ◌*◌, ◌≤◌, ◌≡◌, refl, sym, ap, ap₂, ◌∙◌, List, [], ◌++◌, map, some, length,
  take, drop, take_add, take_all, arith,
}
use tarea_integracion_sistem.Text.{Text}
use tarea_integracion_sistem.Js.{Date}
use tarea_integracion_sistem.Sales.Customers.{
  CustomerTable, CustomerTableLaws, CustomerResource, list, to_customer_resource,
}

module _ (lower : Text → Text) (to_iso_string : Date → Text) (table : CustomerTable) where
  -- The items of the first `n` pages, one after the other.
  abbrev pub items_of_pages : ℕ → ℕ → table.Db → List CustomerResource
  items_of_pages zero size db = []
  items_of_pages (suc n) size db =
      items_of_pages n size db
      ++ (list lower to_iso_string table (record { page = some (suc n); page_size = some size })
          db).items

module _ (lower : Text → Text) (to_iso_string : Date → Text) (table : CustomerTable)
    (laws : CustomerTableLaws table) (db : table.Db) where
  items_of_pages-take :
      (n size : ℕ)
      → items_of_pages lower to_iso_string table n size db
        ≡ map (to_customer_resource lower to_iso_string) (take (n * size) (laws.rows db))
  unfolding list
  items_of_pages-take zero size = let e : 0 * size ≡ 0 = omega arith in rw e refl
  items_of_pages-take (suc n) size =
      let to_resource = to_customer_resource lower to_iso_string in
      let skipped : (suc n - 1) * size ≡ n * size = ap (λ k. k * size) (omega arith) in
      let grown : n * size + size ≡ suc n * size = omega arith in
      let page : table.find_many ((suc n - 1) * size) size db
          ≡ take size (drop (n * size) (laws.rows db)) =
        ap (λ k. table.find_many k size db) skipped ∙ laws.find_many_law (n * size) size db in
      ap₂ ◌++◌ (items_of_pages-take n size) (ap (map to_resource) page)
      ∙ sym (
          map-append to_resource (take (n * size) (laws.rows db))
            (take size (drop (n * size) (laws.rows db))))
      ∙ ap (map to_resource)
          (take_add (n * size) size (laws.rows db) ∙ ap (λ k. take k (laws.rows db)) grown)

  -- When there are pages enough for the total that each page reports, their items, one page after the
  -- other, are the table's customers in its order, each once.
  pub pages_tile :
      (n size : ℕ)
      → (list lower to_iso_string table (record { page = some 1; page_size = some size }) db).total
        ≤ n * size
      → items_of_pages lower to_iso_string table n size db
        ≡ map (to_customer_resource lower to_iso_string) (laws.rows db)
  unfolding list
  pages_tile n size enough =
      let few : length (laws.rows db) ≤ n * size = rw (← laws.count_law db) enough in
      items_of_pages-take n size
      ∙ ap (map (to_customer_resource lower to_iso_string)) (take_all (n * size) (laws.rows db) few)
