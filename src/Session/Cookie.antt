-- ===== src/Session/Cookie.antt =====
-- tsukuyomi-session/src/backend/cookie.rs: `CookieBackend`. The cookie crate and `serde_json` are
-- parameters. What the backend changes of the input is the jar.
use tsukuyomi.Prelude.{ℕ, Option, none, some, Bytes, codes, Result, ok, err, ◌>>=◌, or_fail, List}
use tsukuyomi.Input.Cookies.{CookieCrate, bad_request_status, jar}
use tsukuyomi.Future.{ready, Poll, PartialFuture}
use tsukuyomi.Session.{Entries, Inner, empty, entries, clear}

-- `Security`
pub data Security (Key : Type 0) : Type 0 where
  plain : Security Key
  signed : Key → Security Key
  private_ : Key → Security Key

-- What the backend uses of the cookie crate and of `serde_json`. The jars are `CookieJar` and what
-- `signed` and `private` make of it.
pub record Jars (Jar Cookie Key : Type 0) : Type 0 where
  pub get_cookie : Jar → Bytes → Option Cookie
  pub add_cookie : Jar → Cookie → Jar
  pub get_signed : Jar → Key → Bytes → Option Cookie
  pub add_signed : Jar → Key → Cookie → Jar
  pub get_private : Jar → Key → Bytes → Option Cookie
  pub add_private : Jar → Key → Cookie → Jar
  pub remove_cookie : Jar → Cookie → Jar
  pub named : Bytes → Cookie
  pub build : Bytes → Bytes → Cookie
  pub value : Cookie → Bytes
  pub from_str : Bytes → Option Entries
  pub to_string : Entries → Bytes

-- `CookieBackendInner`; `builder` with `finish`
pub record CookieBackend (Cookie Key : Type 0) : Type 0 where
  pub security : Security Key
  pub cookie_name : Bytes
  pub builder : Cookie → Cookie

module _ {Cookie Key : Type 0} where
  -- `CookieBackend::new`
  abbrev pub new : Security Key → CookieBackend Cookie Key
  new security = record {
    security = security;
    cookie_name = codes "tsukuyomi-session";
    builder = λ cookie. cookie;
  }

  -- `CookieBackend::plain`, `CookieBackend::signed` and `CookieBackend::private`
  abbrev pub plain_backend : CookieBackend Cookie Key
  plain_backend = new plain

  abbrev pub signed_backend : Key → CookieBackend Cookie Key
  signed_backend key = new (signed key)

  abbrev pub private_backend : Key → CookieBackend Cookie Key
  private_backend key = new (private_ key)

  -- `Backend::read` and `RawSession::write`: the futures
  abbrev pub start_read : CookieBackend Cookie Key → Option (CookieBackend Cookie Key)
  start_read backend = some backend

  abbrev pub start_write :
      Inner × CookieBackend Cookie Key → Option (Inner × CookieBackend Cookie Key)
  start_write session = some session

  -- `CookieBackend::cookie_name` and `CookieBackend::builder`, of a backend that is not shared
  abbrev pub with_cookie_name : CookieBackend Cookie Key → Bytes → CookieBackend Cookie Key
  with_cookie_name backend name = record backend { cookie_name = name }

  abbrev pub with_builder : CookieBackend Cookie Key → (Cookie → Cookie) → CookieBackend Cookie Key
  with_builder backend build = record backend { builder = build }

module _ {Jar Cookie Key : Type 0} (jars : Jars Jar Cookie Key) where
  abbrev pub get_from : Security Key → Jar → Bytes → Option Cookie
  get_from plain j name = jars.get_cookie j name
  get_from (signed key) j name = jars.get_signed j key name
  get_from (private_ key) j name = jars.get_private j key name

  abbrev pub add_to : Security Key → Jar → Cookie → Jar
  add_to plain j cookie = jars.add_cookie j cookie
  add_to (signed key) j cookie = jars.add_signed j key cookie
  add_to (private_ key) j cookie = jars.add_private j key cookie

  module _ {Value : Type 0} (crate : CookieCrate Jar Cookie) (to_str : Value → Option Bytes)
      (values : List Value) where
    -- The jar of the request; the store is `Cookies::jar`'s.
    abbrev pub load : Option Jar → Option Jar × Result ℕ Jar
    load stored = jar crate to_str stored values

    abbrev pub stored_jar :
        Option Jar × Result ℕ Jar → (Jar → Jar) → Option Jar × Result ℕ (Unit {0})
    stored_jar (stored, ok j) change = (some (change j), ok tt)
    stored_jar (stored, err e) change = (stored, err e)

    -- `Security::get`
    abbrev pub security_get :
        Security Key → Bytes → Option Jar → Option Jar × Result ℕ (Option Cookie)
    security_get security name stored =
        let (stored', result) = load stored in
        (stored', (result >>= λ j. ok (get_from security j name)))

    -- `Security::add`
    abbrev pub security_add : Security Key → Cookie → Option Jar → Option Jar × Result ℕ (Unit {0})
    security_add security cookie stored = stored_jar (load stored) (λ j. add_to security j cookie)

    -- `CookieBackendInner::deserialize`
    abbrev pub deserialize : Bytes → Result ℕ Entries
    deserialize s = or_fail bad_request_status (jars.from_str s)

    abbrev pub read_cookie : Option Cookie → Result ℕ Inner
    read_cookie none = ok empty
    read_cookie (some cookie) = deserialize (jars.value cookie) >>= λ map. ok (entries map)

    module _ (backend : CookieBackend Cookie Key) where
      -- `CookieBackendInner::read`
      unfoldable pub read : Option Jar → Option Jar × Result ℕ Inner
      unfolding jar
      read stored =
          let (stored', result) = security_get backend.security backend.cookie_name stored in
          (stored', (result >>= read_cookie))

      -- The cookie that `write` adds.
      abbrev pub session_cookie : Entries → Cookie
      session_cookie map = backend.builder (jars.build backend.cookie_name (jars.to_string map))

      -- `CookieBackendInner::write`
      unfoldable pub write : Inner → Option Jar → Option Jar × Result ℕ (Unit {0})
      unfolding jar
      write empty stored = (stored, ok tt)
      write (entries map) stored = security_add backend.security (session_cookie map) stored
      write clear stored =
          stored_jar (load stored) (λ j. jars.remove_cookie j (jars.named backend.cookie_name))

module _ {S I E A : Type 0} where
  abbrev pub at_once : I × Result E A → Option (Option S × I × Poll E A)
  at_once (i, result) = some (none, i, (result >>= λ a. ok (ready a)))

  -- `self.0.take().expect(..)`, and the answer from what was there
  abbrev pub take_poll : (S → I → I × Result E A) → PartialFuture (Option S) I E A
  take_poll f none i = none
  take_poll f (some s) i = at_once (f s i)

module _ {Jar Cookie Key Value : Type 0} (jars : Jars Jar Cookie Key)
    (crate : CookieCrate Jar Cookie) (to_str : Value → Option Bytes) (values : List Value) where
  -- `ReadSession`: the backend, until it is taken; a `CookieSession` is its `inner` and the backend.
  unfoldable pub poll_read :
      PartialFuture
        (Option (CookieBackend Cookie Key))
        (Option Jar)
        ℕ
        (Inner × CookieBackend Cookie Key)
  unfolding read
  poll_read = take_poll (λ backend stored.
      let (stored', result) = read jars crate to_str values backend stored in
      (stored', (result >>= λ inner. ok (inner, backend))))

  -- `WriteSession`: the session, until it is taken
  unfoldable pub poll_write :
      PartialFuture (Option (Inner × CookieBackend Cookie Key)) (Option Jar) ℕ (Unit {0})
  unfolding write
  poll_write =
      take_poll (λ session stored. write jars crate to_str values session.1 session.0 stored)
