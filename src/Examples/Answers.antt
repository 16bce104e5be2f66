-- ===== src/Examples/Answers.antt =====
-- Paging, errors and JSON-API documents at concrete inputs.
use almighty_core.Prelude.{
  ℕ, ◌≤◌, ◌<◌, ◌≡◌, refl, arith, true, false, none, some, [], ◌∷◌, if◌then◌else◌,
}
use almighty_core.Prelude.Int.{pos, ◌≤ℤ◌}
use almighty_core.Prelude.Texts.{Text, codes}
use almighty_core.Errors.{GoError, foreign, internal, unauthorized}
use almighty_core.Jsonapi.{
  Context, error_to_jsonapi_error, json_error_response, error_handler, http_status, ResponseBody,
  sent,
}
use almighty_core.Jsonapi.Status.{
  implements, json_error_response_status, masked_document, error_handler_hides,
}
use almighty_core.Jsonapi.MemberName.{IsName, format_member_name, format_member_name-IsName}
use almighty_core.Paging.{Link, PagingLinks, compute_paging_limits, page_size_max, set_paging_links}
use almighty_core.Paging.Bounds.{limits_bounded}
use almighty_core.Paging.Starts.{IsPage, IsPrev, stop}
use almighty_core.Paging.Links.{prev_page, last-IsPage, first_page_empty}
use almighty_core.Examples.{packages, one_byte}

limits_bounded_example :
    (pos 0 ≤ℤ (compute_paging_limits (some (codes "7")) (some (pos 1000))).0)
    × (pos 1 ≤ℤ (compute_paging_limits (some (codes "7")) (some (pos 1000))).1)
    × ((compute_paging_limits (some (codes "7")) (some (pos 1000))).1 ≤ℤ page_size_max)
limits_bounded_example = limits_bounded (some (codes "7")) (some (pos 1000))

abbrev no_links : PagingLinks
no_links = record { prev = none; next = none; first = none; last = none }

abbrev items : Text
items = codes "/items"

prev_page_example :
    (k : Link) × ((set_paging_links no_links items (pos 3) (pos 25) (pos 10) (pos 28) []).prev
      ≡ some k)
    × IsPrev k.range 25 10 28
prev_page_example = prev_page no_links items 3 25 10 28 [] (omega arith) (omega arith) (omega arith)

last-IsPage_example :
    (k : Link) × ((set_paging_links no_links items (pos 3) (pos 25) (pos 10) (pos 28) []).last
      ≡ some k)
    × IsPage k.range 10 28
    × (pos 28 ≤ℤ stop k.range)
last-IsPage_example = last-IsPage no_links items 3 25 10 28 [] (omega arith) (omega arith)

first_page_empty_example :
    (k : Link) × ((set_paging_links no_links items (pos 10) (pos 20) (pos 10) (pos 40) []).first
      ≡ some k)
    × (k.range ≡ record { start = pos 0; size = pos 0 })
first_page_empty_example = first_page_empty no_links items 10 20 10 40 [] (omega arith) 1 refl

abbrev secret : GoError Text
secret = internal (foreign (codes "no connection to db-3"))

error_handler_hides_example :
    (status : ℕ) × (body : ResponseBody) × (error_handler packages one_byte one_byte false []
        (codes "internal error")
        (some secret)
      ≡ sent status body)
    × (500 ≤ status
        → status < 600
        → (status ≡ 500)
          × (body ≡ masked_document packages one_byte one_byte (codes "internal error")))
error_handler_hides_example =
    error_handler_hides packages one_byte one_byte [] (codes "internal error") secret refl

format_member_name-IsName_example : IsName (format_member_name (codes "-Story Points!"))
format_member_name-IsName_example = format_member_name-IsName (codes "-Story Points!")

abbrev plain : Context
plain = record {
  bad_request = true;
  not_found = true;
  unauthorized = false;
  forbidden = false;
  conflict = false;
}

json_error_response_status_example :
    let (jerr, status) =
      error_to_jsonapi_error packages one_byte one_byte (unauthorized (codes "no token")) in
    let (r, body) =
      json_error_response packages one_byte one_byte plain (unauthorized (codes "no token")) in
    (http_status r ≡ (if implements plain status then status else 500)) × (body ≡ jerr ∷ [])
json_error_response_status_example =
    json_error_response_status packages one_byte one_byte plain (unauthorized (codes "no token"))
