-- ===== src/Sales/Tests/Customers.antt =====
-- Runs of the customers: a table of two in a list.
use tarea_integracion_sistem.Prelude.{
  ◌≢◌, ◌⊎◌, ◌*◌, ◌≤◌, ◌≡◌, refl, true, false, List, [], ◌∷◌, Option, none, some, map, length, take,
  drop, arith, if◌then◌else◌, Bool,
}
use tarea_integracion_sistem.Prelude.Result.{Result, ok, err}
use tarea_integracion_sistem.Text.{Text, text, text_eq, contains, trim, to_lower_case}
use tarea_integracion_sistem.Sales.Errors.{Exception, api, database}
use tarea_integracion_sistem.Sales.Customers.{
  CustomerTable, CustomerTableLaws, CustomerRecord, CustomerResource, CreateCustomerInput, emails,
  create, find_by_id, list, email_conflict, to_customer_resource,
}
use tarea_integracion_sistem.Sales.Customers.Emails.{email_is_unique}
use tarea_integracion_sistem.Sales.Customers.Pages.{items_of_pages, pages_tile}
use tarea_integracion_sistem.Sales.Tests.{noon, write_date}

record Rows : Type 0 where
  customers : List CustomerRecord

abbrev find_row : Text → List CustomerRecord → Option CustomerRecord
find_row k [] = none
find_row k (c ∷ cs) = if text_eq c.id k then some c else find_row k cs

abbrev new_row : CreateCustomerInput → CustomerRecord
new_row new = record {
  id = new.email;
  name = new.name;
  email = new.email;
  created_at = noon;
  updated_at = noon;
}

abbrev insert_row : Bool → CreateCustomerInput → Rows → Result Exception (CustomerRecord × Rows)
insert_row true new db = err (database (text "P2002"))
insert_row false new db = ok (new_row new, record { customers = new_row new ∷ db.customers })

abbrev table : CustomerTable
table = record {
  Db = Rows;
  insert = λ new db. insert_row (contains new.email (emails db.customers)) new db;
  find_unique = λ k db. find_row k db.customers;
  count = λ db. length db.customers;
  find_many = λ skip count db. take count (drop skip db.customers);
}

table_laws : CustomerTableLaws table
unfolding contains
table_laws = record {
  rows = λ db. db.customers;
  count_law = λ db. refl;
  find_many_law = λ skip count db. refl;
  insert_taken = λ new db taken. rw taken refl;
  insert_free = λ new db free name_fits email_fits. (
    new_row new,
    record { customers = new_row new ∷ db.customers },
    rw free refl,
    refl,
    refl,
    λ j. refl,
    λ e. ground arith,
  );
}

abbrev ana : CreateCustomerInput
ana = record { name = text "Ana"; email = text "ana@x.com" }

abbrev ana_again : CreateCustomerInput
ana_again = record { name = text "Ana B"; email = text " Ana@X.COM " }

abbrev none_yet : Rows
none_yet = record { customers = [] }

none_taken : contains (to_lower_case (trim ana.email)) [] ≡ false
unfolding contains
none_taken = refl

again_none_taken : contains (to_lower_case (trim ana_again.email)) [] ≡ false
unfolding contains
again_none_taken = refl

ana_fits : length (to_lower_case (trim ana.email)) ≤ 254
unfolding trim to_lower_case
ana_fits = omega arith

ana_again_fits : length (to_lower_case (trim ana_again.email)) ≤ 254
unfolding trim to_lower_case
ana_again_fits = omega arith

unique_example :
    let (answer, db') = create to_lower_case write_date table ana none_yet in
    let (answer', db'') = create to_lower_case write_date table ana_again db' in
    (resource : CustomerResource) × (answer ≡ ok resource)
    × (resource.name ≡ ana.name)
    × (resource.email ≡ to_lower_case (trim ana.email))
    × (find_by_id to_lower_case write_date table resource.id db' ≡ ok resource)
    × ((to_lower_case (trim ana_again.email) ≡ to_lower_case (trim ana.email))
          × (answer' ≡ err (api email_conflict))
          × (db'' ≡ db')
        ⊎ (to_lower_case (trim ana_again.email) ≢ to_lower_case (trim ana.email))
          × ((other : CustomerResource) × (answer' ≡ ok other)
              × (other.email ≡ to_lower_case (trim ana_again.email))))
unfolding table_laws
unique_example =
    email_is_unique to_lower_case write_date table table_laws ana ana_again none_yet none_taken
      again_none_taken (omega arith) ana_fits (omega arith) ana_again_fits

abbrev three : Rows
three = record { customers = new_row ana ∷ new_row ana_again ∷ new_row ana ∷ [] }

three_fit :
    (list to_lower_case write_date table (record { page = some 1; page_size = some 2 }) three).total
    ≤ 2 * 2
unfolding list
three_fit = omega arith

tile_example :
    items_of_pages to_lower_case write_date table 2 2 three
    ≡ map (to_customer_resource to_lower_case write_date) three.customers
unfolding table_laws
tile_example = pages_tile to_lower_case write_date table table_laws three 2 2 three_fit
