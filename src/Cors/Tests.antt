-- ===== src/Cors/Tests.antt =====
-- tsukuyomi-cors/src/lib.rs: runs of the model on concrete requests, and witnesses.
use tsukuyomi.Prelude.{
  ℕ, ◌≡◌, ◌↔◌, refl, zero, suc, none, some, true, [], ◌∷◌, Bytes, codes, Result, ok, err,
}
use tsukuyomi.Http.Sample.{Entries, sample, sample-IsHttp, get_entry, remove_entries}
use tsukuyomi.Input.{Request, Input, Response}
use tsukuyomi.Future.{ready, not_ready, TryFuture}
use tsukuyomi.Future.Drive.{drive}
use tsukuyomi.Cors.Builder.{Builder, Inner, new, allow_origin, allow_credentials, build}
use tsukuyomi.Cors.Check.{
  disallowed_origin, disallowed_request_method, exact, validate_origin, process_preflight_request,
  process_request,
}
use tsukuyomi.Cors.OriginLaws.{IsAllowed, validate_origin-IsAllowed}
use tsukuyomi.Cors.ResponseLaws.{AnswersMethod, process_preflight_request-ok}
use tsukuyomi.Cors.RequestLaws.{
  LeavesInput, process_request-Leaves, SaysAllowed, process_request-SaysAllowed,
}
use tsukuyomi.Cors.HandleLaws.{after_check, outer, unchecked, drive-cors_handle}

-- What a run looks through.
runs : Unit {0}
unfolding build allow_origin process_request get_entry remove_entries drive
runs = tt

abbrev site : Bytes
site = codes "http://a"

abbrev strict : Inner Bytes Bytes ℕ Bytes
strict = record {
  origins = some (site ∷ []);
  methods = codes "GET" ∷ codes "POST" ∷ codes "OPTIONS" ∷ [];
  methods_value = codes "GET,POST,OPTIONS";
  headers = none;
  headers_value = none;
  max_age = none;
  allow_credentials = true;
}

abbrev strict_builder : Builder Bytes Bytes ℕ
strict_builder = allow_credentials new true

abbrev parsed_site : Bytes → Result (Unit {0}) Bytes
parsed_site s = ok s

built_strict : build sample (record strict_builder { origins = some (site ∷ []) }) ≡ some strict
unfolding runs allow_credentials
built_strict = refl

abbrev request : Bytes → Bytes → Request Bytes Entries
request method origin = record { method = method; headers = (0, origin) ∷ (1, codes "POST") ∷ [] }

abbrev input : Input Entries ℕ
input = record { response_headers = none; rest = 0 }

other_origin :
    process_request sample strict (request (codes "GET") (codes "http://b")) input
    ≡ (input, err disallowed_origin)
unfolding runs
other_origin = refl

abbrev preflight_response : Response Entries
preflight_response = record {
  status = 204;
  headers = (4, codes "GET,POST,OPTIONS") ∷ (3, site) ∷ [];
}

preflight :
    process_preflight_request sample strict (request (codes "OPTIONS") site) (exact site)
    ≡ ok preflight_response
unfolding runs
preflight = refl

unlisted_method :
    (process_request sample strict (request (codes "PUT") site) input).1
    ≡ err disallowed_request_method
unfolding runs
unlisted_method = refl

validate_origin-IsAllowed_example :
    (validate_origin sample strict (request (codes "GET") site) ≡ ok (some (exact site)))
    ↔ IsAllowed sample strict (request (codes "GET") site) (exact site)
validate_origin-IsAllowed_example =
    validate_origin-IsAllowed sample strict (request (codes "GET") site) (exact site)

process_preflight_request-ok_example :
    (preflight_response.status ≡ 204)
    × (get_entry preflight_response.headers 3 ≡ some site)
    × AnswersMethod sample sample-IsHttp strict
        (request (codes "OPTIONS") site)
        (get_entry preflight_response.headers 4)
    × (get_entry preflight_response.headers 6 ≡ none)
unfolding runs
process_preflight_request-ok_example =
    process_preflight_request-ok sample sample-IsHttp strict (request (codes "OPTIONS") site)
      (exact site) preflight_response refl

process_request-Leaves_example :
    LeavesInput sample strict
      (request (codes "PUT") site)
      input
      (process_request sample strict (request (codes "PUT") site) input)
process_request-Leaves_example =
    process_request-Leaves sample strict (request (codes "PUT") site) input

abbrev passed_input : Input Entries ℕ
passed_input = record { response_headers = some ((3, site) ∷ (6, codes "true") ∷ []); rest = 0 }

process_request-SaysAllowed_example :
    SaysAllowed sample strict (request (codes "GET") site) input sample-IsHttp passed_input
unfolding runs
process_request-SaysAllowed_example =
    process_request-SaysAllowed sample strict (request (codes "GET") site) input sample-IsHttp site
      passed_input refl refl refl refl refl

-- A handle that is ready when it has been polled as often as its state says.
countdown : Request Bytes Entries → TryFuture ℕ (Input Entries ℕ) Bytes ℕ
countdown request zero i = (zero, i, ok (ready 5))
countdown request (suc n) i = (n, i, ok not_ready)

drive-cors_handle_example :
    drive 3
      (outer sample (λ e. site) (λ e. e) strict countdown (request (codes "GET") site))
      (unchecked sample (λ e. site) (λ e. e) strict countdown (request (codes "GET") site) 2)
      input
    ≡ after_check sample
        (λ e. site)
        (λ e. e)
        strict
        countdown
        (request (codes "GET") site)
        3
        2
        (process_request sample strict (request (codes "GET") site) input)
drive-cors_handle_example =
    drive-cors_handle sample (λ e. site) (λ e. e) strict countdown (request (codes "GET") site) 2 2
      input
