-- ===== src/Endpoint/Tests.antt =====
-- tsukuyomi/src/endpoint.rs: witnesses on endpoints that give a number.
use tsukuyomi.Prelude.{
  ℕ, ◌+◌, ◌≡◌, refl, sym, ap, ◌∙◌, Bool, true, false, none, some, [], ◌∷◌, Bytes, codes, eq_bytes,
  eq_bytes_refl, eq_bytes→eq, inl, inr, Bool-cases, false-true, Result, ok, err, ◌||◌,
}
use tsukuyomi.Http.Sample.{sample}
use tsukuyomi.Future.{ready, Either, right}
use tsukuyomi.Future.Drive.{drive}
use tsukuyomi.Future.Sample.{poll_twice}
use tsukuyomi.Endpoint.{Endpoint, ChainFuture, right_future, chain}
use tsukuyomi.Future.Ending.{drive_some}
use tsukuyomi.Future.Sequence.{sequence}
use tsukuyomi.Endpoint.Builder.{Builder, first, second, call, poll_call_async}
use tsukuyomi.Endpoint.BuilderLaws.{drive-poll_call_async}
use tsukuyomi.Endpoint.Route.{init, in_flight, poll_route}
use tsukuyomi.Endpoint.RouteCall.{drive-route_call}
use tsukuyomi.Endpoint.Laws.{IsEquivalence, IsExact, is_ok, chain-IsExact}

eq_bytes_swap : (a b : Bytes) → eq_bytes a b ≡ eq_bytes b a
eq_bytes_swap a b = elim (Bool-cases (eq_bytes a b)) [
  | inl same ↦ rw (eq_bytes→eq a b same) refl
  | inr other ↦ elim (Bool-cases (eq_bytes b a)) [
    | inr apart ↦ other ∙ sym apart
    | inl same ↦
        absurd (false-true (sym other ∙ ap (eq_bytes a) (eq_bytes→eq b a same) ∙ eq_bytes_refl a))
  ]
]

eq_bytes-IsEquivalence : IsEquivalence eq_bytes
eq_bytes-IsEquivalence = record {
  same = eq_bytes_refl;
  swap = eq_bytes_swap;
  follow = λ a b c e. ap (λ x. eq_bytes x c) (sym (eq_bytes→eq a b e));
}

abbrev choose : Bool → ℕ → Result ℕ (Bool × ℕ)
choose true args = ok (false, args)
choose false args = err args

abbrev apply_one : Bytes → ℕ → Bytes → Result ℕ (Bool × ℕ)
apply_one allowed args m = choose (eq_bytes allowed m) args

abbrev only : Bytes → Endpoint Bytes ℕ (Bool × ℕ) ℕ ℕ ℕ
only allowed = record {
  apply = apply_one allowed;
  allowed_methods = some (allowed ∷ []);
  poll = poll_twice;
}

ok-choose : (b : Bool) (args : ℕ) → is_ok (choose b args) ≡ (b || false)
ok-choose true args = refl
ok-choose false args = refl

only-IsExact : (allowed : Bytes) → IsExact sample (only allowed)
only-IsExact allowed = record { exact = λ args m. ok-choose (eq_bytes allowed m) args }

abbrev both : Endpoint Bytes ℕ (ChainFuture (Bool × ℕ) (Bool × ℕ)) ℕ ℕ (Either ℕ ℕ)
both = chain sample (λ e. e) (λ e. e) (only (codes "GET")) (only (codes "POST"))

chain-IsExact_example : IsExact sample both
chain-IsExact_example =
    chain-IsExact sample (λ e. e) (λ e. e) (only (codes "GET")) (only (codes "POST"))
      eq_bytes-IsEquivalence (only-IsExact (codes "GET")) (only-IsExact (codes "POST"))

right_result :
    drive 2 both.poll (right_future (false, 5)) 0
    ≡ (right_future (true, 5), 1, ok (ready (right 5)))
unfolding chain drive
right_result = refl

-- `endpoint::get_or_head().extract(..).call(f)`, with one parameter and one extracted value.
abbrev sums : Builder Bytes (Bool × ℕ)
sums = record { extractor = (false, 5); allowed_methods = some (codes "GET" ∷ codes "HEAD" ∷ []) }

abbrev sum : ℕ × ℕ → ℕ
sum (a, b) = a + b

drive-route_call_example :
    drive 2
      (poll_route
        (λ e. 500)
        (λ status. status)
        (call sample (λ s. s) (λ a b. (a, b)) poll_twice sums sum)
        (codes "HEAD")
        (ok 7))
      init
      0
    ≡ (in_flight (record { extract = (true, 5); f = sum; args = none }), 1, ok (ready 12))
unfolding drive
drive-route_call_example =
    drive-route_call sample (λ e. 500) (λ status. status) (λ s. s) (λ a b. (a, b)) poll_twice sums
      sum (codes "HEAD") (ok 7) 1 0

drive-poll_call_async_example :
    drive_some 4
      (poll_call_async (λ e. e) (λ e. e) (λ a b. a + b) poll_twice (λ r. (r, ok (ready (r + 1)))))
      (record { state = first (false, 5); f = λ n. n; args = some 7 })
      0
    ≡ some (record { state = second 12; f = λ n. n; args = none }, 1, ok (ready 13))
unfolding sequence drive
drive-poll_call_async_example =
    drive-poll_call_async (λ e. e) (λ e. e) (λ a b. a + b) poll_twice (λ r. (r, ok (ready (r + 1))))
      (λ n. n) 7 4 (false, 5) 0

-- A method that the builder does not allow.
refused_method :
    drive 2
      (poll_route
        (λ e. 500)
        (λ status. status)
        (call sample (λ s. s) (λ a b. (a, b)) poll_twice sums sum)
        (codes "POST")
        (ok 7))
      init
      0
    ≡ (init, 0, err 405)
unfolding drive poll_route call
refused_method = refl
