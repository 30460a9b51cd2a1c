-- ===== src/Session/RedisLaws.antt =====
-- tsukuyomi-session/src/backend/redis.rs: the cookie names the key under which Redis holds the
-- session.
use tsukuyomi.Prelude.{◌≡◌, Option, none, some, List, Bytes, ok}
use tsukuyomi.Input.Cookies.{CookieCrate}
use tsukuyomi.Future.{ready}
use tsukuyomi.Session.{Entries, empty, entries, clear}
use tsukuyomi.Session.Cookie.{Jars}
use tsukuyomi.Session.Redis.{
  Redis, RedisBackend, RedisSession, starting, generate_redis_key, get_session_id, Writing,
  del_command, send, save_command,
}

module _ {Jar Cookie Key Value Conn ConnFuture QueryFuture Uuid World : Type 0}
    (jars : Jars Jar Cookie Key) (crate : CookieCrate Jar Cookie) (to_str : Value → Option Bytes)
    (values : List Value) (redis : Redis Conn ConnFuture QueryFuture Uuid World) where
  abbrev key_of : RedisBackend → Uuid → Bytes
  key_of = generate_redis_key jars crate to_str values redis

  -- The cookies after the first poll of a write, and the command that it sends.
  pub data IsKept (session : RedisSession Conn Uuid) (stored : Option Jar) (w : World)
      : Writing jars crate to_str values redis → Type 0 where
    unused :
        session.inner ≡ empty
        → IsKept session stored w (some (starting none, (stored, w), ok (ready tt)))
    unsaved :
        session.inner ≡ clear
        → session.session_id ≡ none
        → IsKept session stored w (some (starting none, (stored, w), ok (ready tt)))
    saved :
        (id : Uuid) (map : Entries) (j : Jar) (v : World)
        → session.inner ≡ entries map
        → ((known : Uuid) → session.session_id ≡ some known → id ≡ known)
        → get_session_id jars crate to_str values redis session.backend (some j)
          ≡ (some j, ok (some id))
        → IsKept session stored w (
            send jars crate to_str values redis
              (save_command jars crate to_str values redis session.backend.timeout
                (key_of session.backend id)
                (jars.to_string map))
              session.conn
              j
              v)
    deleted :
        (id : Uuid) (j : Jar)
        → session.inner ≡ clear
        → session.session_id ≡ some id
        → get_session_id jars crate to_str values redis session.backend (some j) ≡ (some j, ok none)
        → IsKept session stored w (
            send jars crate to_str values redis
              (del_command (key_of session.backend id))
              session.conn
              j
              w)
