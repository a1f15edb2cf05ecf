-- ===== src/Inventory/Uuid.antt =====
-- apps/inventory-grpc/src/common/uuid.ts. A value of unknown type is `none` where its `typeof` is
-- not `string`.
use tarea_integracion_sistem.Prelude.{
  ℕ, ◌≡◌, refl, Bool, false, true, ◌&&◌, ◌||◌, List, [], ◌∷◌, ◌++◌, Option, none, some, arith, leb,
  ◌==◌,
}
use tarea_integracion_sistem.Json.Reading.{plain}
use tarea_integracion_sistem.Text.{all_units}
use tarea_integracion_sistem.Text.{Text, lower_unit, to_lower_case}

pub data UnitClass : Type 0 where
  hex dash : UnitClass

-- A hexadecimal digit; the pattern has the flag `i`.
abbrev is_hex : ℕ → Bool
is_hex c = leb b'0' c && leb c b'9' || (leb b'a' c && leb c b'f' || leb b'A' c && leb c b'F')

fits_class : UnitClass → ℕ → Bool
fits_class hex c = is_hex c
fits_class dash c = c == b'-'

abbrev four : List UnitClass
four = hex ∷ hex ∷ hex ∷ hex ∷ []

-- `UUID_PATTERN`: 8-4-4-4-12
abbrev uuid_pattern : List UnitClass
uuid_pattern =
    four
    ++ (four ++ (dash ∷ four ++ (dash ∷ four ++ (dash ∷ four ++ (dash ∷ four ++ (four ++ four))))))

-- The whole text fits the classes, unit by unit: the pattern is anchored at both ends.
fits : List UnitClass → Text → Bool
unfolding fits_class
fits [] [] = true
fits [] (c ∷ cs) = false
fits (k ∷ ks) [] = false
fits (k ∷ ks) (c ∷ cs) = fits_class k c && fits ks cs

-- `isUuid` at a string
unfoldable pub is_uuid_text : Text → Bool
unfolding fits
is_uuid_text = fits uuid_pattern

unfoldable pub is_uuid : Option Text → Bool
unfolding is_uuid_text
is_uuid none = false
is_uuid (some value) = is_uuid_text value

fits_class-lower_unit : (k : UnitClass) (c : ℕ) → fits_class k (lower_unit c) ≡ fits_class k c
unfolding fits_class lower_unit
fits_class-lower_unit hex c = ground arith
fits_class-lower_unit dash c = ground arith

fits-to_lower_case : (ks : List UnitClass) (s : Text) → fits ks (to_lower_case s) ≡ fits ks s
unfolding fits to_lower_case
fits-to_lower_case [] [] = refl
fits-to_lower_case [] (c ∷ cs) = refl
fits-to_lower_case (k ∷ ks) [] = refl
fits-to_lower_case (k ∷ ks) (c ∷ cs) = cc (fits_class-lower_unit k c, fits-to_lower_case ks cs)

-- Folding the case of a text does not change whether it is a UUID.
pub is_uuid_text-to_lower_case : (s : Text) → is_uuid_text (to_lower_case s) ≡ is_uuid_text s
unfolding is_uuid_text
is_uuid_text-to_lower_case s = fits-to_lower_case uuid_pattern s

fits-plain : (ks : List UnitClass) (s : Text) → fits ks s ≡ true → all_units plain s ≡ true
unfolding fits fits_class
fits-plain [] [] h = refl
fits-plain [] (c ∷ cs) h = cc
fits-plain (k ∷ ks) [] h = cc
fits-plain (hex ∷ ks) (c ∷ cs) h = ground (arith, fits-plain ks cs)
fits-plain (dash ∷ ks) (c ∷ cs) h = ground (arith, fits-plain ks cs)

-- A UUID has no unit that JSON escapes.
pub is_uuid_text-plain : (s : Text) → is_uuid_text s ≡ true → all_units plain s ≡ true
unfolding is_uuid_text
is_uuid_text-plain s h = fits-plain uuid_pattern s h
