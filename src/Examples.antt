-- ===== src/Examples.antt =====
-- The program's theorems at concrete inputs, and the packages it calls at concrete functions: foreign
-- errors are texts, floats are integers, and the text of a number or an id is one byte.
mod Answers
mod Fields
mod Links
mod Paths
mod Orders
mod Saves
mod Iterations
mod Queries
mod Filters
use almighty_core.Prelude.{ℕ, ◌≡◌, refl, Bool, true, false, Option, none, some, List, [], ◌∷◌}
use almighty_core.Prelude.Int.{ℤ, pos, negsuc, eqb_ℤ}
use almighty_core.Prelude.Texts.{Text, codes}
use almighty_core.Errors.{GoError, ErrorPackages, ServiceError}
use almighty_core.Field.Value.{Platform}

-- no error is wrapped, and every foreign error is a service error of status 503
abbrev packages : ErrorPackages Text
packages = record {
  new = λ s. s;
  message = λ s. s;
  cause = λ e. e;
  as_service_error = λ s. some (record { response_status = 503; token = s });
  as_error_response = λ s. none;
  message-new = λ s. refl;
  cause-unauthorized = λ s. refl;
  cause-forbidden = λ s. refl;
  cause-version_conflict = λ s. refl;
  cause-data_conflict = λ s. refl;
  cause-conversion = λ s. refl;
  cause-bad_parameter = λ b. refl;
  cause-not_found = λ n. refl;
  cause-internal = λ e. refl;
}

abbrev one_byte : ℕ → Text
one_byte n = n ∷ []

abbrev magnitude : ℤ → ℕ
magnitude (pos n) = n
magnitude (negsuc n) = n

abbrev only_byte : Text → Option ℕ
only_byte [] = none
only_byte (c ∷ cs) = some c

abbrev platform : Platform ℤ
platform = record {
  is_whole = λ f. true;
  to_int = λ f. f;
  float_eq = eqb_ℤ;
  format6 = λ f. one_byte (magnitude f);
  format0 = λ f. one_byte (magnitude f);
  itoa = λ i. one_byte (magnitude i);
  uuid_from_string = only_byte;
  uuid_string = one_byte;
  uuid_bytes = one_byte;
  rfc3339 = λ t. one_byte (magnitude t);
  is_url = λ s. true;
  matches_git_url = λ s. true;
}
