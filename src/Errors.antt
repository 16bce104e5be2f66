-- ===== src/Errors.antt =====
-- errors/errors.go: the error types of the program, and what they say of themselves.
-- An `interface{}` that a message shows by `%v` is its text. `Foreign` are the error values of other
-- packages, and `ErrorPackages` what the program calls of github.com/pkg/errors and of goa on them.
use almighty_core.Prelude.{
  ℕ, ◌≡◌, Bool, true, false, Option, none, some, [], ◌++◌, ◌==◌, if◌then◌else◌,
}
use almighty_core.Prelude.Texts.{Text, codes}

pub record BadParameterError : Type 0 where
  pub parameter : Text
  pub value : Text
  pub expected_value : Text
  pub has_expected_value : Bool
  pub pre_defined_error_message : Option Text

pub record NotFoundError : Type 0 where
  pub entity : Text
  pub id : Text
  pub pre_defined_error_message : Option Text

pub data GoError (Foreign : Type 0) : Type 0 where
  unauthorized forbidden version_conflict data_conflict conversion : Text → GoError Foreign
  bad_parameter : BadParameterError → GoError Foreign
  not_found : NotFoundError → GoError Foreign
  internal : GoError Foreign → GoError Foreign
  foreign : Foreign → GoError Foreign

-- goa.ServiceError: ResponseStatus() and Token()
pub record ServiceError : Type 0 where
  pub response_status : ℕ
  pub token : Text

-- goa.ErrorResponse
pub record ErrorResponse : Type 0 where
  pub id : Text
  pub code : Text
  pub detail : Text

pub record ErrorPackages (Foreign : Type 0) : Type 0 where
  -- errors.New(text) or errs.Errorf with that text, and the text of Error()
  pub new : Text → Foreign
  pub message : Foreign → Text
  -- errs.Cause(err): the innermost error of a chain of wrappers
  pub cause : GoError Foreign → GoError Foreign
  pub as_service_error : Foreign → Option ServiceError
  pub as_error_response : Foreign → Option ErrorResponse
  -- the text of Error() is the one that errors.New was given
  pub message-new : (s : Text) → message (new s) ≡ s
  -- an error that is not a wrapper of pkg/errors is its own cause
  pub cause-unauthorized : (s : Text) → cause (unauthorized s) ≡ unauthorized s
  pub cause-forbidden : (s : Text) → cause (forbidden s) ≡ forbidden s
  pub cause-version_conflict : (s : Text) → cause (version_conflict s) ≡ version_conflict s
  pub cause-data_conflict : (s : Text) → cause (data_conflict s) ≡ data_conflict s
  pub cause-conversion : (s : Text) → cause (conversion s) ≡ conversion s
  pub cause-bad_parameter : (b : BadParameterError) → cause (bad_parameter b) ≡ bad_parameter b
  pub cause-not_found : (n : NotFoundError) → cause (not_found n) ≡ not_found n
  pub cause-internal : (e : GoError Foreign) → cause (internal e) ≡ internal e

unfoldable pub bad_parameter_error : BadParameterError → Text
bad_parameter_error e =
    if e.has_expected_value
    then codes "Bad value for parameter '"
      ++ (e.parameter
          ++ (codes "': '"
              ++ (e.value ++ (codes "' (expected: '" ++ (e.expected_value ++ codes "')")))))
    else elim e.pre_defined_error_message [
      | some m ↦ m
      | none ↦
          codes "Bad value for parameter '"
          ++ (e.parameter ++ (codes "': '" ++ (e.value ++ codes "'")))
    ]

unfoldable pub not_found_error : NotFoundError → Text
not_found_error e = elim e.pre_defined_error_message [
  | some m ↦ m
  | none ↦ e.entity ++ (codes " with id '" ++ (e.id ++ codes "' not found"))
]

-- (err BadParameterError) Expected(expected)
unfoldable pub expected : BadParameterError → Text → BadParameterError
expected e v = record e { expected_value = v; has_expected_value = true }

unfoldable pub new_bad_parameter_error : Text → Text → BadParameterError
new_bad_parameter_error param actual = record {
  parameter = param;
  value = actual;
  expected_value = [];
  has_expected_value = false;
  pre_defined_error_message = none;
}

unfoldable pub new_bad_parameter_error_from_string : Text → BadParameterError
new_bad_parameter_error_from_string m = record {
  parameter = [];
  value = [];
  expected_value = [];
  has_expected_value = false;
  pre_defined_error_message = some m;
}

unfoldable pub new_not_found_error : Text → Text → NotFoundError
new_not_found_error entity id = record {
  entity = entity;
  id = id;
  pre_defined_error_message = none;
}

unfoldable pub new_not_found_error_from_string : Text → NotFoundError
new_not_found_error_from_string m = record {
  entity = [];
  id = [];
  pre_defined_error_message = some m;
}

module _ {F : Type 0} (pkg : ErrorPackages F) where
  -- the method Error() of each type
  unfoldable pub error_text : GoError F → Text
  unfolding bad_parameter_error not_found_error
  error_text (unauthorized s) = s
  error_text (forbidden s) = s
  error_text (version_conflict s) = s
  error_text (data_conflict s) = s
  error_text (conversion s) = s
  error_text (bad_parameter b) = bad_parameter_error b
  error_text (not_found n) = not_found_error n
  error_text (internal e) = error_text e
  error_text (foreign f) = pkg.message f

  unfoldable pub new_internal_error_from_string : Text → GoError F
  new_internal_error_from_string m = internal (foreign (pkg.new m))

  -- `msg` is the formatted text
  unfoldable pub from_status_code : ℕ → Text → GoError F
  unfolding new_not_found_error_from_string new_bad_parameter_error_from_string
      new_internal_error_from_string
  from_status_code status_code msg =
      if status_code == 404
      then not_found (new_not_found_error_from_string msg)
      else if status_code == 400
      then bad_parameter (new_bad_parameter_error_from_string msg)
      else if status_code == 409
      then version_conflict msg
      else if status_code == 401
      then unauthorized msg
      else if status_code == 403
      then forbidden msg
      else new_internal_error_from_string msg

-- The type of a cause: what the type assertions of the package tell apart.
pub data Class : Type 0 where
  internal_class unauthorized_class forbidden_class data_conflict_class : Class
  version_conflict_class bad_parameter_class conversion_class not_found_class : Class
  foreign_class : Class

module _ {F : Type 0} where
  abbrev pub class_of : GoError F → Class
  class_of (unauthorized s) = unauthorized_class
  class_of (forbidden s) = forbidden_class
  class_of (version_conflict s) = version_conflict_class
  class_of (data_conflict s) = data_conflict_class
  class_of (conversion s) = conversion_class
  class_of (bad_parameter b) = bad_parameter_class
  class_of (not_found n) = not_found_class
  class_of (internal e) = internal_class
  class_of (foreign f) = foreign_class

pub Class-discrete : Discrete Class
Class-discrete = hlevel

module _ {F : Type 0} (pkg : ErrorPackages F) where
  -- e, ok := errs.Cause(err).(C)
  unfoldable pub is_of : Class → GoError F → Bool × Option (GoError F)
  is_of c err =
      let e = pkg.cause err in
      elim (Class-discrete (class_of e) c) [ yes h ↦ (true, some e) | no h ↦ (false, none) ]

  pub is_internal_error : GoError F → Bool × Option (GoError F)
  is_internal_error = is_of internal_class

  pub is_unauthorized_error : GoError F → Bool × Option (GoError F)
  is_unauthorized_error = is_of unauthorized_class

  pub is_forbidden_error : GoError F → Bool × Option (GoError F)
  is_forbidden_error = is_of forbidden_class

  pub is_data_conflict_error : GoError F → Bool × Option (GoError F)
  is_data_conflict_error = is_of data_conflict_class

  pub is_version_conflict_error : GoError F → Bool × Option (GoError F)
  is_version_conflict_error = is_of version_conflict_class

  pub is_bad_parameter_error : GoError F → Bool × Option (GoError F)
  is_bad_parameter_error = is_of bad_parameter_class

  pub is_conversion_error : GoError F → Bool × Option (GoError F)
  is_conversion_error = is_of conversion_class

  pub is_not_found_error : GoError F → Bool × Option (GoError F)
  is_not_found_error = is_of not_found_class
