-- ===== src/Handler/Tests.antt =====
-- tsukuyomi/src/handler.rs and tsukuyomi/src/modifiers.rs: witnesses.
use tsukuyomi.Prelude.{
  ℕ, ◌+◌, ◌≡◌, refl, true, none, some, [], ◌∷◌, Bytes, codes, eq_bytes, set_contains, ok,
}
use tsukuyomi.Http.Sample.{Entries, get_entry, sample, sample-IsHttp}
use tsukuyomi.Input.{Request, Response}
use tsukuyomi.Future.{ready, TryFuture, Either, left}
use tsukuyomi.Future.Drive.{drive}
use tsukuyomi.Handler.{AllowedMethods, to_header_value, Handler, try_from_str}
use tsukuyomi.Handler.Modifiers.{HandleDefaultOptions, default_options}
use tsukuyomi.Handler.Laws.{drive-default_options}

abbrev poll_number : TryFuture ℕ ℕ ℕ ℕ
poll_number n i = (n, i + 1, ok (ready n))

abbrev request : Bytes → Request Bytes Entries
request method = record { method = method; headers = [] }

abbrev number_handler : Handler Bytes (Request Bytes Entries) ℕ ℕ ℕ ℕ
number_handler = record {
  allowed_methods = some (codes "GET" ∷ []);
  handle = 7;
  poll = λ r. poll_number;
}

abbrev made :
    Handler Bytes
      (Request Bytes Entries)
      (HandleDefaultOptions Bytes ℕ)
      ℕ
      ℕ
      (Either (Response Entries) ℕ)
made = default_options sample number_handler

drive-default_options_example :
    (ns : AllowedMethods Bytes) × (response : Response Entries) × (made.allowed_methods ≡ some ns)
    × (set_contains eq_bytes ns (codes "OPTIONS") ≡ true)
    × (set_contains eq_bytes ns (codes "GET") ≡ true)
    × (response.status ≡ 204)
    × (get_entry response.headers 8 ≡ some (to_header_value sample ns))
    × (drive 2 (made.poll (request (codes "OPTIONS"))) made.handle 0
        ≡ (record { inner = 7; allowed_methods_value = none }, 0, ok (ready (left response))))
drive-default_options_example =
    drive-default_options sample number_handler (request (codes "OPTIONS")) (codes "GET" ∷ [])
      (codes "GET") 1 0 sample-IsHttp refl refl refl

parsed_methods :
    try_from_str sample (codes "GET, POST,GET") ≡ some (codes "GET" ∷ codes "POST" ∷ [])
unfolding try_from_str
parsed_methods = refl
