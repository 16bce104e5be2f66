-- ===== src/Jsonapi.antt =====
-- jsonapi/jsonapi_utility.go and jsonapi/error_handler.go: an error becomes a JSON-API document and
-- an HTTP status. `status_text` is http.StatusText and `itoa` strconv.Itoa.
pub mod Status
pub mod MemberName
use almighty_core.Prelude.{
  ℕ, ◌≡◌, Bool, true, false, not, ◌&&◌, Option, none, some, List, [], ◌∷◌, ◌++◌, ltb, leb, ◌==◌,
  if◌then◌else◌,
}
use almighty_core.Prelude.Texts.{Text, codes}
use almighty_core.Errors.{
  GoError, unauthorized, forbidden, version_conflict, data_conflict, conversion, bad_parameter,
  not_found, internal, foreign, ServiceError, ErrorResponse, ErrorPackages, error_text,
}

-- app.JSONAPIError
pub record JsonapiError : Type 0 where
  pub id : Option Text
  pub code : Text
  pub status : Text
  pub title : Text
  pub detail : Text

abbrev with_service : (ℕ → Text) → Option ServiceError → (Option Text × ℕ × Text)
with_service status_text none = (none, 500, codes "Unknown error")
with_service status_text (some e) = (some e.token, e.response_status, status_text e.response_status)

abbrev with_response : Text → Option ErrorResponse → Text × Text
with_response detail none = (codes "unknown_error", detail)
with_response detail (some r) = (r.code, r.detail)

module _ {F : Type 0} (pkg : ErrorPackages F) (status_text itoa : ℕ → Text) where
  abbrev known : Text → Text → ℕ → Text → JsonapiError × ℕ
  known code title status_code detail = (
    record { id = none; code = code; status = itoa status_code; title = title; detail = detail },
    status_code,
  )

  -- the `default` of the switch
  abbrev unknown : Text → F → JsonapiError × ℕ
  unknown text f =
      let (id, status_code, title) = with_service status_text (pkg.as_service_error f) in
      let (code, detail) = with_response text (pkg.as_error_response f) in
      (
        record { id = id; code = code; status = itoa status_code; title = title; detail = detail },
        status_code,
      )

  -- the switch on the type of the cause, whose text is `detail`
  abbrev of_cause : Text → GoError F → JsonapiError × ℕ
  of_cause detail (not_found n) = known (codes "not_found") (codes "Not found error") 404 detail
  of_cause detail (conversion s) =
      known (codes "conversion_error") (codes "Conversion error") 400 detail
  of_cause detail (bad_parameter b) =
      known (codes "bad_parameter") (codes "Bad parameter error") 400 detail
  of_cause detail (version_conflict s) =
      known (codes "version_conflict") (codes "Version conflict error") 409 detail
  of_cause detail (data_conflict s) =
      known (codes "data_conflict_error") (codes "Data conflict error") 409 detail
  of_cause detail (internal e) = known (codes "internal_error") (codes "Internal error") 500 detail
  of_cause detail (unauthorized s) =
      known (codes "unauthorized_error") (codes "Unauthorized error") 401 detail
  of_cause detail (forbidden s) =
      known (codes "forbidden_error") (codes "Forbidden error") 403 detail
  of_cause detail (foreign f) = unknown detail f

  unfoldable pub error_to_jsonapi_error : GoError F → JsonapiError × ℕ
  unfolding error_text
  error_to_jsonapi_error err = let cause = pkg.cause err in of_cause (error_text pkg cause) cause

  unfoldable pub error_to_jsonapi_errors : GoError F → List JsonapiError × ℕ
  unfolding error_to_jsonapi_error
  error_to_jsonapi_errors err =
      let (jerr, http_status_code) = error_to_jsonapi_error err in (jerr ∷ [], http_status_code)

-- The method of the context that writes the answer.
pub data Response : Type 0 where
  bad_request_response unauthorized_response forbidden_response : Response
  not_found_response conflict_response internal_server_error_response : Response

abbrev pub http_status : Response → ℕ
http_status bad_request_response = 400
http_status unauthorized_response = 401
http_status forbidden_response = 403
http_status not_found_response = 404
http_status conflict_response = 409
http_status internal_server_error_response = 500

-- Which of the optional interfaces a context implements: BadRequestContext and the others.
pub record Context : Type 0 where
  pub bad_request : Bool
  pub not_found : Bool
  pub unauthorized : Bool
  pub forbidden : Bool
  pub conflict : Bool

abbrev or_internal : Bool → Response → Response
or_internal implemented r = if implemented then r else internal_server_error_response

module _ {F : Type 0} (pkg : ErrorPackages F) (status_text itoa : ℕ → Text) where
  unfoldable pub json_error_response : Context → GoError F → Response × List JsonapiError
  unfolding error_to_jsonapi_errors
  json_error_response ctx err =
      let (json_err, status) = error_to_jsonapi_errors pkg status_text itoa err in
      (
        if status == 400
            then or_internal ctx.bad_request bad_request_response
            else if status == 404
            then or_internal ctx.not_found not_found_response
            else if status == 401
            then or_internal ctx.unauthorized unauthorized_response
            else if status == 403
            then or_internal ctx.forbidden forbidden_response
            else if status == 409
            then or_internal ctx.conflict conflict_response
            else internal_server_error_response,
        json_err,
      )

-- What respBody, an interface{}, can hold: a *app.JSONAPIErrors or a *goa.ErrorResponse.
pub data ResponseBody : Type 0 where
  jsonapi_errors : List JsonapiError → ResponseBody
  goa_error_response : ErrorResponse → ResponseBody

-- What the middleware of ErrorHandler ends in: it sends a status with a document, or it panics.
pub data Handled : Type 0 where
  passed : Handled
  sent : ℕ → ResponseBody → Handled
  panicked : Handled

-- respBody.(*goa.ErrorResponse)
abbrev as_goa_error_response : ResponseBody → Option ErrorResponse
as_goa_error_response (jsonapi_errors es) = none
as_goa_error_response (goa_error_response r) = some r

-- the body with the id, where the assertion holds
abbrev send_with_id : ℕ → Text → Option ErrorResponse → Handled
send_with_id status id none = panicked
send_with_id status id (some r) = sent status (goa_error_response (record r { id = id }))

abbrev is_empty : Text → Bool
is_empty [] = true
is_empty _ = false

-- goa.ContextResponse(ctx).ErrorCode as the handler left it, unless the cause is a ServiceError
abbrev pub token_or : Option ServiceError → Text → Text
token_or none error_code = error_code
token_or (some e) error_code = e.token

abbrev pub status_or : Option ServiceError → ℕ → ℕ
status_or none status = status
status_or (some e) status = e.response_status

module _ {F : Type 0} (pkg : ErrorPackages F) (status_text itoa : ℕ → Text) where
  abbrev pub service_error : GoError F → Option ServiceError
  service_error (foreign f) = pkg.as_service_error f
  service_error _ = none

  -- `e` is what the inner handler returned, `error_code` the ErrorCode of its response, and `masked`
  -- the text that hides an internal error, with the request's id.
  unfoldable pub error_handler : Bool → Text → Text → Option (GoError F) → Handled
  unfolding error_to_jsonapi_errors
  error_handler verbose error_code masked none = passed
  error_handler verbose error_code masked (some e) =
      let service = service_error (pkg.cause e) in
      let (resp_body, status) = error_to_jsonapi_errors pkg status_text itoa e in
      let status' = status_or service status in
      let hidden =
        error_to_jsonapi_errors pkg status_text itoa (internal (foreign (pkg.new masked))) in
      if leb 500 status' && ltb status' 600 && not verbose
      then (if is_empty (token_or service error_code)
          then sent hidden.1 (jsonapi_errors hidden.0)
          else send_with_id hidden.1 (token_or service error_code)
              (as_goa_error_response (jsonapi_errors hidden.0)))
      else sent status' (jsonapi_errors resp_body)
