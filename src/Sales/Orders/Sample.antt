-- ===== src/Sales/Orders/Sample.antt =====
-- Tables of the sales database in lists, for which the laws of `Tables` hold.
use tarea_integracion_sistem.Prelude.{refl, List, [], ◌∷◌, Option, none, some, if◌then◌else◌}
use tarea_integracion_sistem.Prelude.Result.{Result, ok, err}
use tarea_integracion_sistem.Text.{Text, text, text_eq, contains}
use tarea_integracion_sistem.Js.{Date}
use tarea_integracion_sistem.Sales.Errors.{Exception, database}
use tarea_integracion_sistem.Sales.Orders.Views.{OrderRow}
use tarea_integracion_sistem.Sales.Orders.Tables.{
  Tables, TablesLaws, IdempotencyRequest, created_order, cancelled_order,
}

abbrev pub lookup : {A : Type 0} → Text → List (Text × A) → Option A
lookup k [] = none
lookup k ((j, a) ∷ rows) = if text_eq j k then some a else lookup k rows

pub record SampleDb : Type 0 where
  pub requests : List (Text × IdempotencyRequest)
  pub orders : List (Text × OrderRow)
  pub customers : List Text

abbrev put_request : Text → IdempotencyRequest → SampleDb → SampleDb
put_request k new db = record db { requests = (k, new) ∷ db.requests }

abbrev put_order : OrderRow → Text → SampleDb → SampleDb
put_order order id db = record db { orders = (id, order) ∷ db.orders }

abbrev insert_request :
    Option IdempotencyRequest → IdempotencyRequest → SampleDb → Result Exception SampleDb
insert_request none new db = ok (put_request new.key new db)
insert_request (some old) new db = err (database (text "P2002"))

abbrev cancel_found :
    Option OrderRow → Text → Date → Date → SampleDb → Result Exception (OrderRow × SampleDb)
cancel_found none id now updated_at db = err (database (text "P2025"))
cancel_found (some order) id now updated_at db =
    ok
      (cancelled_order now updated_at order, put_order (cancelled_order now updated_at order) id db)

abbrev orders_of : List (Text × OrderRow) → List OrderRow
orders_of [] = []
orders_of ((k, order) ∷ rows) = order ∷ orders_of rows

abbrev pub sample : Tables
sample = record {
  Db = SampleDb;
  find_request = λ k db. lookup k db.requests;
  create_request = λ new db. insert_request (lookup new.key db.requests) new db;
  update_request = λ k new db. ok (put_request k new db);
  find_order = λ k db. lookup k db.orders;
  has_customer = λ c db. contains c db.customers;
  create_order =
      λ now new db. ok (created_order now new, put_order (created_order now new) new.id db);
  cancel_order = λ id now updated_at db. cancel_found (lookup id db.orders) id now updated_at db;
  count_orders = λ filter db. 0;
  list_orders = λ filter skip take db. [];
}

pub sample_laws : TablesLaws sample
sample_laws = record {
  create_request_taken = λ new old db found. rw found refl;
  create_request_law = λ new db unused own key_fits hash_fits.
      (put_request new.key new db, rw unused refl, λ j. refl, λ j. refl, λ c. refl);
  update_request_law =
      λ k old new db found. (put_request k new db, refl, λ j. refl, λ j. refl, λ c. refl);
  cancel_order_law = λ id now updated_at order db found.
      (put_order (cancelled_order now updated_at order) id db, rw found refl, λ j. refl);
  create_order_law = λ now new db absent customer fresh fits.
      (put_order (created_order now new) new.id db, refl, λ j. refl, λ k. refl);
}
