-- ===== src/Sales/Customers.antt =====
-- apps/sales-api/src/customers: customers.service.ts, customer.mapper.ts, customers.controller.ts and the
-- trimming of dto/create-customer.dto.ts. The table is an interface, `CustomerTable`, with the
-- documented effect of each statement, `CustomerTableLaws`; case folding and the text of a date are the
-- platform's and parameters.
pub mod Emails
pub mod Pages
use tarea_integracion_sistem.Prelude.{
  ◌≤◌, ℕ, ◌+◌, ◌-◌, ◌*◌, ◌≡◌, Bool, true, false, List, [], ◌∷◌, ◌++◌, map, Option, none, some,
  length, take, drop, if◌then◌else◌,
}
use tarea_integracion_sistem.Prelude.Result.{Result, ok, err, or_throw, ◌>>=◌}
use tarea_integracion_sistem.Text.{Text, text, text_eq, trim, contains}
use tarea_integracion_sistem.Js.{Date}
use tarea_integracion_sistem.Sales.Errors.{ApiError, api_error, Exception, api, database}

pub record CustomerRecord : Type 0 where
  pub id : Text
  pub name : Text
  pub email : Text
  pub created_at : Date
  pub updated_at : Date

pub record CustomerResource : Type 0 where
  pub id : Text
  pub name : Text
  pub email : Text
  pub created_at : Text
  pub updated_at : Text

pub record PaginationMeta : Type 0 where
  pub page : ℕ
  pub page_size : ℕ
  pub total : ℕ

pub record CustomerListResource : Type 0 where
  pub page : ℕ
  pub page_size : ℕ
  pub total : ℕ
  pub items : List CustomerResource

pub record CreateCustomerInput : Type 0 where
  pub name : Text
  pub email : Text

pub record CustomerListQuery : Type 0 where
  pub page : Option ℕ
  pub page_size : Option ℕ

abbrev pub default_page : ℕ
default_page = 1

abbrev pub default_page_size : ℕ
default_page_size = 20

pub email_conflict : ApiError
email_conflict =
    api_error 409 (text "CUSTOMER_EMAIL_CONFLICT")
      (text "A customer with this email already exists")

pub customer_not_found : ApiError
customer_not_found = api_error 404 (text "CUSTOMER_NOT_FOUND") (text "Customer not found")

pub record CustomerTable : Type 1 where
  pub Db : Type 0
  -- `customer.create`
  pub insert : CreateCustomerInput → Db → Result Exception (CustomerRecord × Db)
  -- `customer.findUnique`
  pub find_unique : Text → Db → Option CustomerRecord
  -- `customer.count`
  pub count : Db → ℕ
  -- `customer.findMany` in the order of `orderBy`
  pub find_many : (skip count : ℕ) → Db → List CustomerRecord

abbrev pub emails : List CustomerRecord → List Text
emails = map (λ c. c.email)

-- The rows of the table in the order of `orderBy`, and what each statement does with them.
pub record CustomerTableLaws (t : CustomerTable) : Type 1 where
  pub rows : t.Db → List CustomerRecord
  pub count_law : (db : t.Db) → t.count db ≡ length (rows db)
  pub find_many_law :
      (skip count : ℕ) (db : t.Db) → t.find_many skip count db ≡ take count (drop skip (rows db))
  -- the unique index of the e-mail
  pub insert_taken :
      (new : CreateCustomerInput) (db : t.Db)
      → contains new.email (emails (rows db)) ≡ true
      → t.insert new db ≡ err (database (text "P2002"))
  -- within VARCHAR(120) and VARCHAR(254)
  pub insert_free :
      (new : CreateCustomerInput) (db : t.Db)
      → contains new.email (emails (rows db)) ≡ false
      → length new.name ≤ 120
      → length new.email ≤ 254
      → (row : CustomerRecord) × (db' : t.Db) × (t.insert new db ≡ ok (row, db'))
        × (row.name ≡ new.name)
        × (row.email ≡ new.email)
        × ((j : Text)
            → t.find_unique j db' ≡ (if text_eq row.id j then some row else t.find_unique j db))
        × ((e : Text)
            → contains e (emails (rows db'))
              ≡ (if text_eq row.email e then true else contains e (emails (rows db))))

-- `isUniqueConstraintViolation`
abbrev pub is_unique_constraint_violation : Exception → Bool
is_unique_constraint_violation (database code) = text_eq code (text "P2002")
is_unique_constraint_violation _ = false

-- The `trim` of the request's fields.
abbrev pub trimmed : CreateCustomerInput → CreateCustomerInput
trimmed body = record { name = trim body.name; email = trim body.email }

-- An answer with the `Location` header.
pub record Created : Type 0 where
  pub location : Text
  pub customer : CustomerResource

abbrev or_number : Option ℕ → ℕ → ℕ
or_number none default_number = default_number
or_number (some n) default_number = n

module _ (lower : Text → Text) (to_iso_string : Date → Text) where
  unfoldable pub normalize_email : Text → Text
  normalize_email email = lower (trim email)

  abbrev pub to_customer_resource : CustomerRecord → CustomerResource
  to_customer_resource customer = record {
    id = customer.id;
    name = customer.name;
    email = customer.email;
    created_at = to_iso_string customer.created_at;
    updated_at = to_iso_string customer.updated_at;
  }

  abbrev pub to_customer_list_resource : List CustomerRecord → PaginationMeta → CustomerListResource
  to_customer_list_resource customers pagination = record {
    page = pagination.page;
    page_size = pagination.page_size;
    total = pagination.total;
    items = map to_customer_resource customers;
  }

  module _ (table : CustomerTable) where
    open table use {Db}

    -- What `create` returns of the statement, and what it throws.
    abbrev inserted :
        Db → Result Exception (CustomerRecord × Db) → Result Exception CustomerResource × Db
    inserted db (ok (customer, db')) = (ok (to_customer_resource customer), db')
    inserted db (err e) =
        (err (if is_unique_constraint_violation e then api email_conflict else e), db)

    unfoldable pub create : CreateCustomerInput → Db → Result Exception CustomerResource × Db
    unfolding normalize_email
    create input db =
        inserted db
          (table.insert (record { name = input.name; email = normalize_email input.email }) db)

    unfoldable pub find_by_id : Text → Db → Result Exception CustomerResource
    find_by_id customer_id db =
        or_throw (api customer_not_found) (table.find_unique customer_id db) >>= λ customer.
        ok (to_customer_resource customer)

    -- The page is at least 1: the query was validated.
    unfoldable pub list : CustomerListQuery → Db → CustomerListResource
    list query db =
        let page = or_number query.page default_page in
        let page_size = or_number query.page_size default_page_size in
        to_customer_list_resource (table.find_many ((page - 1) * page_size) page_size db)
          (record { page = page; page_size = page_size; total = table.count db })

    abbrev with_location : Result Exception CustomerResource × Db → Result Exception Created × Db
    with_location (ok created, db) =
        (ok (record { location = text "/v1/customers/" ++ created.id; customer = created }), db)
    with_location (err e, db) = (err e, db)

    -- `CustomersController.create`, of the request's body
    unfoldable pub post_customer : CreateCustomerInput → Db → Result Exception Created × Db
    unfolding create
    post_customer body db = with_location (create (trimmed body) db)
