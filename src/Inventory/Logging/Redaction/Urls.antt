-- ===== src/Inventory/Logging/Redaction/Urls.antt =====
-- The length of a text is fuel enough for its redaction, which takes the credentials out of a URL.
use mathlib.Core.List.{append_assoc}
use tarea_integracion_sistem.Prelude.{
  ℕ, zero, suc, ◌≤◌, ◌≡◌, refl, ap, ◌∙◌, Bool, true, false, [], ◌∷◌, ◌++◌, Option, none, some,
  length, arith, Bool-cases, Option-cases, inl, inr,
}
use tarea_integracion_sistem.Text.{Text, text, all_units, is_space}
use tarea_integracion_sistem.Inventory.Logging.Redaction.{
  is_letter, is_scheme_unit, is_credential_unit, passing, rest_after, after_slashes, after_at_sign,
  after_credentials, after_match, replacement, one_turn, redact, redact_secrets,
}

rest_after-shorter : (test : ℕ → Bool) (t : Text) → length (rest_after test t) ≤ length t
rest_after-shorter test [] = omega arith
rest_after-shorter test (c ∷ cs) = ground (arith, rest_after-shorter test cs)

after_slashes-shorter : (t rest : Text) → after_slashes t ≡ some rest → length rest ≤ length t
after_slashes-shorter [] rest h = cc
after_slashes-shorter (a ∷ []) rest h = cc
after_slashes-shorter (a ∷ b ∷ []) rest h = cc
after_slashes-shorter (a ∷ b ∷ c ∷ cs) rest h = ground arith

after_at_sign-shorter : (us t rest : Text) → after_at_sign us t ≡ some rest → length rest ≤ length t
after_at_sign-shorter [] t rest h = cc
after_at_sign-shorter (u ∷ us) [] rest h = cc
after_at_sign-shorter (u ∷ us) (c ∷ cs) rest h = ground arith

after_credentials-shorter :
    (o : Option Text) (rest : Text)
    → after_credentials o ≡ some rest
    → (t : Text) × (o ≡ some t) × (length rest ≤ length t)
after_credentials-shorter none rest h = cc
after_credentials-shorter (some t) rest h =
    let few =
      after_at_sign-shorter (passing is_credential_unit t) (rest_after is_credential_unit t) rest
        h in
    (t, refl, omega (arith, few, rest_after-shorter is_credential_unit t))

after_match-shorter :
    (c : ℕ) (cs rest : Text) → after_match c cs ≡ some rest → length rest ≤ length cs
after_match-shorter c cs rest h = elim (Bool-cases (is_letter c)) [
  | inr other ↦ absurd (ground arith)
  | inl letter ↦
      let found : after_credentials (after_slashes (rest_after is_scheme_unit cs)) ≡ some rest =
        ground arith in
      let (t, slashes, few) = after_credentials-shorter _ rest found in
      let fewer = after_slashes-shorter (rest_after is_scheme_unit cs) t slashes in
      omega (arith, few, fewer, rest_after-shorter is_scheme_unit cs)
]

-- Any fuel that is at least the length of the text gives the same.
redact_enough : (n m : ℕ) (t : Text) → length t ≤ n → length t ≤ m → redact n t ≡ redact m t
unfolding redact
redact_enough zero zero t h k = refl
redact_enough zero (suc m) [] h k = refl
redact_enough (suc n) zero [] h k = refl
redact_enough (suc n) (suc m) [] h k = refl
redact_enough zero (suc m) (c ∷ cs) h k = absurd (omega arith)
redact_enough (suc n) zero (c ∷ cs) h k = absurd (omega arith)
redact_enough (suc n) (suc m) (c ∷ cs) h k = elim (Option-cases (after_match c cs)) [
  | inl none_here ↦
      rw none_here (ap (λ t. c ∷ t) (redact_enough n m cs (omega arith) (omega arith)))
  | inr (rest, found) ↦
      let few = after_match-shorter c cs rest found in
      rw found (
        ap (λ t. replacement c cs ++ t)
          (redact_enough n m rest (omega (arith, few)) (omega (arith, few))))
]

-- The redaction is the replacement of the first match and the redaction of what follows it, or, where
-- none begins, the first unit and the redaction of the rest: the length of the text is fuel enough.
redact_secrets_turn :
    (c : ℕ) (cs : Text) → redact_secrets (c ∷ cs) ≡ one_turn redact_secrets (after_match c cs) c cs
unfolding redact_secrets redact
redact_secrets_turn c cs = elim (Option-cases (after_match c cs)) [
  | inl none_here ↦ rw none_here refl
  | inr (rest, found) ↦
      let few = after_match-shorter c cs rest found in
      rw found (
        ap (λ t. replacement c cs ++ t)
          (redact_enough (length cs) (length rest) rest few (omega arith)))
]

module _ (test : ℕ → Bool) (stop : ℕ) (after : Text) (stops : test stop ≡ false) where
  passing-all : (xs : Text) → all_units test xs ≡ true → passing test (xs ++ (stop ∷ after)) ≡ xs
  passing-all [] h = rw stops refl
  passing-all (x ∷ xs) h = ground (arith, passing-all xs)

  rest_after-all :
      (xs : Text) → all_units test xs ≡ true → rest_after test (xs ++ (stop ∷ after)) ≡ stop ∷ after
  rest_after-all [] h = rw stops refl
  rest_after-all (x ∷ xs) h = ground (arith, rest_after-all xs)

after_at_sign-credentials :
    (us rest : Text) → 1 ≤ length us → after_at_sign us (b'@' ∷ rest) ≡ some rest
after_at_sign-credentials [] rest h = absurd (omega arith)
after_at_sign-credentials (u ∷ us) rest h = refl

-- Where a text begins with a URL (a letter and units of a scheme, "://", one or more units that are
-- neither white space, "/" nor "@", and then "@"), all of the units between "://" and "@" are replaced
-- by "***", and the text after the "@" is redacted in its turn.
pub redact_secrets_url :
    (c : ℕ) (scheme credentials rest : Text)
    → is_letter c ≡ true
    → all_units is_scheme_unit scheme ≡ true
    → all_units is_credential_unit credentials ≡ true
    → 1 ≤ length credentials
    → redact_secrets ((c ∷ scheme) ++ (text "://" ++ (credentials ++ (b'@' ∷ rest))))
      ≡ (c ∷ scheme) ++ (text "://***@" ++ redact_secrets rest)
unfolding is_space
redact_secrets_url c scheme credentials rest letter scheme_ok credentials_ok some_credentials =
    let tail : Text = b'/' ∷ b'/' ∷ (credentials ++ (b'@' ∷ rest)) in
    let scheme_ends = passing-all is_scheme_unit b':' tail refl scheme scheme_ok in
    let slashes = rest_after-all is_scheme_unit b':' tail refl scheme scheme_ok in
    let taken = passing-all is_credential_unit b'@' rest refl credentials credentials_ok in
    let left = rest_after-all is_credential_unit b'@' rest refl credentials credentials_ok in
    let found : after_match c (scheme ++ (text "://" ++ (credentials ++ (b'@' ∷ rest))))
        ≡ some rest =
      rw (letter, slashes, taken, left)
        (after_at_sign-credentials credentials rest some_credentials) in
    redact_secrets_turn c (scheme ++ (text "://" ++ (credentials ++ (b'@' ∷ rest))))
    ∙ rw (found, scheme_ends) (append_assoc (c ∷ scheme) (text "://***@") (redact_secrets rest))
