-- ===== src/Session/Tests.antt =====
-- tsukuyomi-session/src: sessions that are read, used and written, and witnesses.
use tsukuyomi.Prelude.{
  true, ℕ, ◌+◌, ◌≡◌, refl, sym, ap, false, Option, none, some, some_injective, List, [], ◌∷◌, Bytes,
  codes, ok,
}
use tsukuyomi.Future.{ready, gone}
use tsukuyomi.Future.Drive.{drive}
use tsukuyomi.Future.Ending.{drive_some}
use tsukuyomi.Future.Sample.{poll_twice}
use tsukuyomi.Input.Cookies.{CookieCrate, jar}
use tsukuyomi.Session.{Entries, empty, entries, clear, get, set, remove}
use tsukuyomi.Session.Laws.{Op, write_op, remove_op, run, run_view, view, Shows, run-Shows}
use tsukuyomi.Session.Cookie.{CookieBackend, new, signed, read, write}
use tsukuyomi.Session.CookieLaws.{IsKeeping, IsWritten, write-read}
use tsukuyomi.Session.Typed.{raw_inner, set_field, SetResult, set_field-SetResult, inner-IsKeeper}
use tsukuyomi.Session.Respond.{finish, poll_session_respond, finish-ends}
use tsukuyomi.Session.Redis.{Redis, RedisBackend, RedisSession, init, get_session_id, poll_read}
use tsukuyomi.Session.RedisReading.{IsPolled, starts, poll_read-IsPolled}
use tsukuyomi.Session.Sample.{lists, lists-IsJars}

-- Two writes to one name, and a removal of another.
abbrev ops : List Op
ops =
    write_op (codes "a") (codes "1")
    ∷ write_op (codes "b") (codes "2")
    ∷ remove_op (codes "b")
    ∷ write_op (codes "a") (codes "3")
    ∷ []

run-Shows_example : Shows (run empty ops) (run_view (view empty) ops)
run-Shows_example = run-Shows empty (view empty) ops (record { closed = refl; at = λ name. refl })

last_written : get (run empty ops) (codes "a") ≡ some (codes "3")
unfolding get run set remove
last_written = refl

-- A write after a clearing is lost, though `Session::set` gives `Ok`.
set_cleared :
    set_field raw_inner (λ s. some s) (λ s. some s) clear (codes "a") (codes "1") ≡ (clear, ok tt)
unfolding set_field set
set_cleared = refl

-- Cookies without a header.
abbrev no_header : CookieCrate Entries (Bytes × Bytes)
no_header = record { new_jar = []; add_original = λ j c. c ∷ j; parse_encoded = λ s. none }

abbrev text : Bytes → Option Bytes
text v = some v

abbrev backend : CookieBackend (Bytes × Bytes) ℕ
backend = new (signed 7)

keeps : IsKeeping lists lists-IsJars (λ c. c)
keeps = record { name = λ c. refl; value = λ c. refl }

write-read_example :
    IsWritten lists no_header text [] backend lists-IsJars keeps
      (write lists no_header text [] backend (run empty ops) (some []))
      (run empty ops)
unfolding read jar
write-read_example =
    write-read lists no_header text [] backend lists-IsJars keeps none (some []) empty ops refl

set_field-SetResult_example :
    SetResult raw_inner
      (λ s. some s)
      (λ s. some s)
      empty
      (codes "a")
      (codes "1")
      (set_field raw_inner (λ s. some s) (λ s. some s) empty (codes "a") (codes "1"))
set_field-SetResult_example =
    set_field-SetResult raw_inner (λ s. some s) (λ s. some s) inner-IsKeeper
      (λ t u e. ap some (sym (some_injective e))) empty (codes "a") (codes "1") refl

-- A write that adds one to the input, and an output that is pending once.
finish-ends_example :
    drive_some 3
      (poll_session_respond
        (λ (e : ℕ). e)
        (λ (e : ℕ). e)
        (λ (w : ℕ) (i : ℕ). (w, i + 1, ok (ready tt)))
        poll_twice)
      (finish 0 (false, 5))
      10
    ≡ some (record { write_session = gone; respond = gone }, 12, ok (ready 5))
unfolding drive
finish-ends_example =
    finish-ends (λ e. e) (λ e. e) (λ w i. (w, i + 1, ok (ready tt))) poll_twice (false, 5) 1 2 0 0
      10 11 12 (true, 5) 5 refl refl

-- Redis that answers at once, that it has nothing; the world counts the ids that were made.
abbrev parse_id : Bytes → Option ℕ
parse_id (n ∷ []) = some n
parse_id _ = none

abbrev at_once : Redis ℕ ℕ ℕ ℕ ℕ
at_once = record {
  get_connection = 0;
  poll_connection = λ f w. (f, w, ok (ready 1));
  query = λ command conn. conn;
  poll_query = λ f w. (f, w, ok (ready (f, none)));
  parse_uuid = parse_id;
  uuid_string = λ n. n ∷ [];
  new_v4 = λ w. (w + 1, w);
}

abbrev redis : RedisBackend
redis = record { key_prefix = codes "s"; cookie_name = codes "id"; timeout = none }

abbrev redis_session : RedisSession ℕ ℕ
redis_session = record {
  inner = entries ((codes "a", codes "1") ∷ []);
  backend = redis;
  conn = 1;
  session_id = some 7;
}

abbrev id_jar : Option (List (Bytes × Bytes))
id_jar = some ((codes "id", 7 ∷ []) ∷ [])

poll_read-IsPolled_example :
    IsPolled lists no_header text [] at_once redis
      (get_session_id lists no_header text [] at_once redis id_jar).1
      (poll_read lists no_header text [] at_once
        (record { backend = some redis; state = init })
        (id_jar, 3))
poll_read-IsPolled_example =
    poll_read-IsPolled lists no_header text [] at_once redis
      (get_session_id lists no_header text [] at_once redis id_jar).1
      (record { backend = some redis; state = init }) id_jar 3 starts
