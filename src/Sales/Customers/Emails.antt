-- ===== src/Sales/Customers/Emails.antt =====
-- An e-mail belongs to one customer, however it is written.
use tarea_integracion_sistem.Prelude.{
  if◌then◌else◌, length, ◌≤◌, ◌≢◌, ◌⊎◌, inl, inr, Bool-cases, arith, ◌≡◌, refl, sym, ap, ◌∙◌, true,
  false,
}
use tarea_integracion_sistem.Prelude.Result.{ok, err}
use tarea_integracion_sistem.Text.{trim, Text, text_eq, contains}
use tarea_integracion_sistem.Text.Laws.{text_eq_refl, text_eq_sound, text_eq_iff}
use tarea_integracion_sistem.Js.{Date}
use tarea_integracion_sistem.Sales.Errors.{api}
use tarea_integracion_sistem.Sales.Customers.{
  CustomerTable, CustomerTableLaws, CustomerResource, CreateCustomerInput, create, find_by_id,
  normalize_email, email_conflict, emails, to_customer_resource,
}

module _ (lower : Text → Text) (to_iso_string : Date → Text) (table : CustomerTable)
    (laws : CustomerTableLaws table) where
  create_taken :
      (input : CreateCustomerInput) (db : table.Db)
      → contains (normalize_email lower to_iso_string input.email) (emails (laws.rows db)) ≡ true
      → create lower to_iso_string table input db ≡ (err (api email_conflict), db)
  unfolding create text_eq
  create_taken input db taken =
      let email = normalize_email lower to_iso_string input.email in
      rw (laws.insert_taken (record { name = input.name; email = email }) db taken) refl

  -- Two creations of customers, one after the other, with names and e-mails that fit their columns,
  -- and no customer before them has an e-mail that is either's, trimmed and then in lower case: the
  -- first makes a customer of the given name and that form of the e-mail, who is found under the
  -- answered id as the creation answered. The second is refused with 409, and changes nothing, if that
  -- form of its e-mail is the same, and makes a customer of it if it is another.
  pub email_is_unique :
      (input again : CreateCustomerInput) (db : table.Db)
      → contains (lower (trim input.email)) (emails (laws.rows db)) ≡ false
      → contains (lower (trim again.email)) (emails (laws.rows db)) ≡ false
      → length input.name ≤ 120
      → length (lower (trim input.email)) ≤ 254
      → length again.name ≤ 120
      → length (lower (trim again.email)) ≤ 254
      → let (answer, db') = create lower to_iso_string table input db in
        let (answer', db'') = create lower to_iso_string table again db' in
        (resource : CustomerResource) × (answer ≡ ok resource)
        × (resource.name ≡ input.name)
        × (resource.email ≡ lower (trim input.email))
        × (find_by_id lower to_iso_string table resource.id db' ≡ ok resource)
        × ((lower (trim again.email) ≡ lower (trim input.email))
              × (answer' ≡ err (api email_conflict))
              × (db'' ≡ db')
            ⊎ (lower (trim again.email) ≢ lower (trim input.email))
              × ((other : CustomerResource) × (answer' ≡ ok other)
                  × (other.email ≡ lower (trim again.email))))
  unfolding create find_by_id normalize_email
  email_is_unique input again db free unknown name_fits email_fits again_name_fits
        again_email_fits =
      let email = lower (trim input.email) in
      let email' = lower (trim again.email) in
      let (row, db', run, name, mail, found, mails) =
        laws.insert_free (record { name = input.name; email = email }) db free name_fits
          email_fits in
      (
        to_customer_resource lower to_iso_string row,
        rw run refl,
        name,
        mail,
        rw (run, found row.id, text_eq_refl row.id) refl,
        elim (Bool-cases (text_eq email email')) [
          | inl equal ↦
              let same : email' ≡ email = sym (text_eq_sound email email' equal) in
              let taken : contains email' (emails (laws.rows db')) ≡ true =
                ap (λ e. contains e (emails (laws.rows db'))) (same ∙ sym mail)
                ∙ mails row.email
                ∙ rw (text_eq_refl row.email) refl in
              let refused = create_taken again db' taken in
              inl (same, rw run (ap (λ r. r.0) refused), rw run (ap (λ r. r.1) refused))
          | inr differs ↦
              let free' : contains email' (emails (laws.rows db')) ≡ false =
                mails email'
                ∙ ap
                    (λ e.
                      if text_eq e email' then true else contains email' (emails (laws.rows db)))
                    mail
                ∙ rw differs unknown in
              let (row', db'', run', _, mail', _, _) =
                laws.insert_free (record { name = again.name; email = email' }) db' free'
                  again_name_fits again_email_fits in
              inr (
                λ same. absurd (ground (arith, text_eq_iff email email')),
                (to_customer_resource lower to_iso_string row', rw (run, run') refl, mail'),
              )
        ],
      )
