-- ===== src/Jsonapi/Status.antt =====
-- The statuses that jsonapi/jsonapi_utility.go and jsonapi/error_handler.go answer errors with.
use almighty_core.Prelude.{
  ℕ, ◌≤◌, ◌<◌, ◌≡◌, Bool, false, inl, inr, Bool-cases, leb, ltb, none, refl, ◌&&◌, ◌||◌, some, [],
  ◌∷◌, arith, ◌==◌, if◌then◌else◌,
}
use almighty_core.Prelude.Texts.{Text, codes}
use almighty_core.Errors.{
  GoError, foreign, internal, ErrorPackages, error_text, from_status_code,
  new_not_found_error_from_string, new_bad_parameter_error_from_string,
}
use almighty_core.Jsonapi.{
  error_to_jsonapi_error, json_error_response, error_to_jsonapi_errors, error_handler, Context,
  http_status, ResponseBody, jsonapi_errors, sent, token_or, service_error, status_or,
}

-- the statuses with an error type of their own
abbrev pub has_type : ℕ → Bool
has_type s = s == 404 || (s == 400 || (s == 409 || (s == 401 || s == 403)))

-- whether the context has the method for the status
abbrev pub implements : Context → ℕ → Bool
implements ctx s =
    (s == 400 && ctx.bad_request)
    || ((s == 404 && ctx.not_found)
        || ((s == 401 && ctx.unauthorized)
            || ((s == 403 && ctx.forbidden) || (s == 409 && ctx.conflict))))

module _ {F : Type 0} (pkg : ErrorPackages F) (status_text itoa : ℕ → Text) where
  cause-from_status_code :
      (status : ℕ) (msg : Text)
      → pkg.cause (from_status_code pkg status msg) ≡ from_status_code pkg status msg
  unfolding from_status_code
  cause-from_status_code status msg = ground (
    arith,
    pkg.cause-not_found (new_not_found_error_from_string msg),
    pkg.cause-bad_parameter (new_bad_parameter_error_from_string msg),
    pkg.cause-version_conflict msg,
    pkg.cause-unauthorized msg,
    pkg.cause-forbidden msg,
    pkg.cause-internal (foreign (pkg.new msg)),
  )

  -- An error that from_status_code makes of a status and a text is answered with that status, if it
  -- is 400, 401, 403, 404 or 409, and with 500 otherwise, and the document shows the text.
  pub status-from_status_code :
      (status : ℕ) (msg : Text)
      → let (jerr, answered) =
          error_to_jsonapi_error pkg status_text itoa (from_status_code pkg status msg) in
        (answered ≡ (if has_type status then status else 500)) × (jerr.detail ≡ msg)
  unfolding error_to_jsonapi_error
  status-from_status_code status msg =
      rw (cause-from_status_code status msg)
        (unfold from_status_code in ground (arith, pkg.message-new msg))

  -- JSONErrorResponse answers with the status of the error if that is one of 400, 401, 403, 404 and
  -- 409 and the context has the method for it, and with 500 otherwise; the document is the error's.
  pub json_error_response_status :
      (ctx : Context) (err : GoError F)
      → let (jerr, status) = error_to_jsonapi_error pkg status_text itoa err in
        let (r, body) = json_error_response pkg status_text itoa ctx err in
        (http_status r ≡ (if implements ctx status then status else 500)) × (body ≡ jerr ∷ [])
  unfolding json_error_response
  json_error_response_status ctx err =
      let x = error_to_jsonapi_error pkg status_text itoa err in (ground arith, ground arith)

  -- the document that shows the masking text and nothing of the error
  abbrev pub masked_document : Text → ResponseBody
  masked_document masked = jsonapi_errors (
      record {
        id = none;
        code = codes "internal_error";
        status = itoa 500;
        title = codes "Internal error";
        detail = masked;
      }
      ∷ [])

  masked_answer :
      (masked : Text)
      → let x =
          error_to_jsonapi_errors pkg status_text itoa (internal (foreign (pkg.new masked))) in
        (x.1 ≡ 500) × (jsonapi_errors x.0 ≡ masked_document masked)
  unfolding error_to_jsonapi_errors error_to_jsonapi_error error_text
  masked_answer masked =
      rw (pkg.cause-internal (foreign (pkg.new masked)), pkg.message-new masked) (refl, refl)

  -- Where details are hidden and no token of a service error is kept, the middleware sends an answer
  -- to every error, and one with a status from 500 to 599 is the status 500 with the document that
  -- shows the masking text and nothing of the error.
  pub error_handler_hides :
      (error_code masked : Text) (e : GoError F)
      → token_or (service_error pkg status_text itoa (pkg.cause e)) error_code ≡ []
      → (status : ℕ) × (body : ResponseBody) × (error_handler pkg status_text itoa false error_code
            masked
            (some e)
          ≡ sent status body)
        × (500 ≤ status → status < 600 → (status ≡ 500) × (body ≡ masked_document masked))
  unfolding error_handler
  error_handler_hides error_code masked e t =
      let status' =
        status_or (service_error pkg status_text itoa (pkg.cause e))
          (error_to_jsonapi_errors pkg status_text itoa e).1 in
      let (a, b) = masked_answer masked in
      elim (Bool-cases (leb 500 status' && ltb status' 600)) [
        | inl h ↦ (_, _, rw (h, t) refl, λ _ _. (a, b))
        | inr h ↦ (
          status',
          jsonapi_errors (error_to_jsonapi_errors pkg status_text itoa e).0,
          rw h refl,
          λ c d. absurd (ground arith),
        )
      ]
