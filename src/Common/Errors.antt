-- ===== src/Common/Errors.antt =====
-- Exceptions as values: an `Error` for each message that the code throws.
use mathlib.Core.Bool.{Bool, true, false}
use mathlib.Core.Logic.{◌≢◌}
use mathlib.Core.Path.{◌≡◌, refl}
use the_city_crdb.Common.Tests.{if◌then◌else◌}

pub data Error : Type 0 where
  null_has_no_type : Error
  zero_capacity : Error
  cannot_commit_inactive : Error
  cannot_roll_back_inactive : Error
  zero_leaf_capacity : Error
  zero_rows_per_page : Error
  empty_table_name empty_schema empty_database_name : Error
  null_in_non_nullable row_width_mismatch row_type_mismatch updated_type_mismatch : Error
  out_of_range clone_failed : Error
  unknown_predicate_column unknown_selected_column unknown_order_by_column unknown_update_column :
      Error
  no_active_database unknown_table : Error
  unterminated_string unexpected_character : Error
  past_end unexpected_token trailing_token unsupported_command invalid_integer : Error
  expected_create_kind expected_database_name expected_table_name expected_column_name : Error
  expected_column_type unsupported_column_type expected_source_table : Error
  expected_destination_table expected_index_name expected_indexed_table : Error
  expected_indexed_column expected_selected_column expected_joined_table : Error
  expected_left_join_column expected_right_join_column expected_order_by_column : Error
  expected_limit expected_update_column expected_statement_name expected_prepared_sql : Error
  expected_predicate_column expected_operator expected_literal : Error
  wal_read wal_header wal_payload : Error
  file_read file_magic file_version file_value_type file_open duplicate_table : Error
  publish_failed file_create file_write remove_failed : Error
  no_storage_directory no_saved_database : Error
  unknown_prepared too_few_parameters too_many_parameters : Error
  ambiguous_column unknown_join_column prepared_while_locked : Error
  -- No exception of the code: a loop of the model that had too little fuel.
  out_of_fuel : Error
  -- Nor this one: a byte of a file that stands for no enumerator of ColumnType.
  no_column_type : Error

-- The value of a call, or the exception that it throws.
pub data Result {ℓ} (A : Type ℓ) : Type ℓ where
  err : (thrown : Error) → Result A
  ok : (value : A) → Result A

-- A call, and what follows where it throws nothing.
infixl 5 ◌>>=◌
abbrev pub ◌>>=◌ {ℓ κ} : {A : Type ℓ} {B : Type κ} → Result A → (A → Result B) → Result B
err thrown >>= rest = err thrown
ok value >>= rest = rest value

-- The loops of a call had enough fuel, and `P` holds of its value if it throws nothing.
abbrev pub Ensures {ℓ} : {A : Type ℓ} → (A → Type 0) → Result A → Type 0
Ensures P (err thrown) = thrown ≢ out_of_fuel
Ensures P (ok value) = P value

pub Ensures-bind {ℓ κ} :
    {A : Type ℓ} {B : Type κ} (P : A → Type 0) (Q : B → Type 0) (r : Result A) (f : A → Result B)
    → Ensures P r
    → ((a : A) → P a → Ensures Q (f a))
    → Ensures Q (r >>= f)
Ensures-bind P Q (err thrown) f h k = h
Ensures-bind P Q (ok value) f h k = k value h

pub Ensures-if {ℓ} :
    {A : Type ℓ} (P : A → Type 0) (b : Bool) (r s : Result A)
    → (b ≡ true → Ensures P r)
    → (b ≡ false → Ensures P s)
    → Ensures P (if b then r else s)
Ensures-if P true r s h k = h refl
Ensures-if P false r s h k = k refl

-- A chain that throws nothing, taken apart.
pub >>=-eq-ok {ℓ κ} :
    {A : Type ℓ} {B : Type κ} (r : Result A) (f : A → Result B) {b : B}
    → (r >>= f) ≡ ok b
    → (a : A) × (r ≡ ok a) × (f a ≡ ok b)
>>=-eq-ok (err thrown) f h = cc
>>=-eq-ok (ok value) f h = (value, refl, h)
