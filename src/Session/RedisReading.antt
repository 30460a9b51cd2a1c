-- ===== src/Session/RedisReading.antt =====
-- tsukuyomi-session/src/backend/redis.rs: what the polls of a read come to.
use tsukuyomi.Prelude.{ℕ, ◌≡◌, refl, Option, none, some, List, Bytes, Result, ok, err}
use tsukuyomi.Input.Cookies.{CookieCrate}
use tsukuyomi.Future.{ready, not_ready, Poll}
use tsukuyomi.Session.{Entries, empty, entries}
use tsukuyomi.Extractor.{internal_server_error_status}
use tsukuyomi.Session.Cookie.{Jars}
use tsukuyomi.Session.Redis.{
  Redis, RedisBackend, RedisSession, init, connecting, fetch, ReadSession, generate_redis_key,
  get_session_id, get_command, Reading, parsed, fetched, connection_polled, identified, poll_read,
}

module _ {Jar Cookie Key Value Conn ConnFuture QueryFuture Uuid World : Type 0}
    (jars : Jars Jar Cookie Key) (crate : CookieCrate Jar Cookie) (to_str : Value → Option Bytes)
    (values : List Value) (redis : Redis Conn ConnFuture QueryFuture Uuid World) where
  abbrev key_of : RedisBackend → Uuid → Bytes
  key_of = generate_redis_key jars crate to_str values redis

  -- The future asks Redis for the key of a session: it is the query as it is sent, or what a poll
  -- that was pending made of it.
  pub data IsAsking (b : RedisBackend) (id : Uuid) : QueryFuture → Type 0 where
    sent : (conn : Conn) → IsAsking b id (redis.query (get_command (key_of b id)) conn)
    polled :
        {f g : QueryFuture} (v w : World)
        → IsAsking b id f
        → redis.poll_query f v ≡ (g, w, ok not_ready)
        → IsAsking b id g

  -- The read for the session id that the request names, if it names one, is not over: a connection
  -- is made, with the key of that id, or that key is asked for.
  pub data IsReading (b : RedisBackend)
      : Option Uuid → ReadSession ConnFuture QueryFuture Uuid → Type 0 where
    connects_new :
        (future : ConnFuture)
        → IsReading b none (record { backend = some b; state = connecting future none none })
    connects :
        (future : ConnFuture) (id : Uuid)
        → IsReading b
            (some id)
            (record { backend = some b; state = connecting future (some (key_of b id)) (some id) })
    fetches :
        (future : QueryFuture) (id : Uuid)
        → IsAsking b id future
        → IsReading b (some id) (record { backend = some b; state = fetch future id })

  -- The session that the read gives: a new one where the request names no id, or Redis has no value
  -- for the key of the id; else the entries that the value is parsed to, with the id.
  pub data IsOpened (b : RedisBackend) : Option Uuid → RedisSession Conn Uuid → Type 0 where
    opens_unnamed :
        (conn : Conn)
        → IsOpened b none (record { inner = empty; backend = b; conn = conn; session_id = none })
    opens_missing :
        (conn : Conn) (id : Uuid) (f g : QueryFuture) (v w : World)
        → IsAsking b id f
        → redis.poll_query f v ≡ (g, w, ok (ready (conn, none)))
        → IsOpened b
            (some id)
            (record { inner = empty; backend = b; conn = conn; session_id = none })
    opens :
        (conn : Conn) (id : Uuid) (f g : QueryFuture) (v w : World) (value : Bytes) (map : Entries)
        → IsAsking b id f
        → redis.poll_query f v ≡ (g, w, ok (ready (conn, some value)))
        → jars.from_str value ≡ some map
        → IsOpened b
            (some id)
            (record { inner = entries map; backend = b; conn = conn; session_id = some id })

  pub data IsRead (b : RedisBackend) (named : Option Uuid)
      : Reading jars crate to_str values redis → Type 0 where
    waits :
        (s : ReadSession ConnFuture QueryFuture Uuid) (i : Option Jar × World)
        → IsReading b named s
        → IsRead b named (some (s, i, ok not_ready))
    fails :
        (s : ReadSession ConnFuture QueryFuture Uuid) (i : Option Jar × World)
        → IsRead b named (some (s, i, err internal_server_error_status))
    gives :
        (s : ReadSession ConnFuture QueryFuture Uuid) (i : Option Jar × World)
        (session : RedisSession Conn Uuid)
        → IsOpened b named session
        → IsRead b named (some (s, i, ok (ready session)))

  -- The read is not over, for the id that the cookie of the request names, if it names one, or with
  -- the error of that cookie: nothing is polled yet, or it is under way.
  pub data IsUnfinished (b : RedisBackend) (stored : Option Jar)
      : Result ℕ (Option Uuid) → ReadSession ConnFuture QueryFuture Uuid → Type 0 where
    starts :
        IsUnfinished b stored
          (get_session_id jars crate to_str values redis b stored).1
          (record { backend = some b; state = init })
    reads :
        (named : Option Uuid) (s : ReadSession ConnFuture QueryFuture Uuid)
        → IsReading b named s
        → IsUnfinished b stored (ok named) s

  -- What a poll comes to: the error of the cookie, or a read for the id.
  pub data IsPolled (b : RedisBackend)
      : Result ℕ (Option Uuid) → Reading jars crate to_str values redis → Type 0 where
    refuses :
        (s : ReadSession ConnFuture QueryFuture Uuid) (i : Option Jar × World) (status : ℕ)
        → IsPolled b (err status) (some (s, i, err status))
    reads_on :
        (named : Option Uuid) (r : Reading jars crate to_str values redis)
        → IsRead b named r
        → IsPolled b (ok named) r

  parsed-IsRead :
      (b : RedisBackend) (conn : Conn) (id : Uuid) (i : Option Jar × World) (f g : QueryFuture)
      (v w : World) (value : Bytes) (o : Option Entries)
      → IsAsking b id f
      → redis.poll_query f v ≡ (g, w, ok (ready (conn, some value)))
      → jars.from_str value ≡ o
      → IsRead b (some id) (parsed jars crate to_str values redis (some b) conn id i o)
  parsed-IsRead b conn id i f g v w value none asks at read = fails _ i
  parsed-IsRead b conn id i f g v w value (some map) asks at read =
      gives _ i _ (opens conn id f g v w value map asks at read)

  fetched-IsRead :
      (b : RedisBackend) (id : Uuid) (stored : Option Jar) (f : QueryFuture) (v : World)
      (p : QueryFuture × World × Poll (Unit {0}) (Conn × Option Bytes))
      → IsAsking b id f
      → redis.poll_query f v ≡ p
      → IsRead b (some id) (fetched jars crate to_str values redis (some b) id stored p)
  fetched-IsRead b id stored f v (g, w, ok (ready (conn, some value))) asks at =
      parsed-IsRead b conn id (stored, w) f g v w value (jars.from_str value) asks at refl
  fetched-IsRead b id stored f v (g, w, ok (ready (conn, none))) asks at =
      gives _ (stored, w) _ (opens_missing conn id f g v w asks at)
  fetched-IsRead b id stored f v (g, w, ok not_ready) asks at =
      waits _ (stored, w) (fetches g id (polled v w asks at))
  fetched-IsRead b id stored f v (g, w, err e) asks at = fails _ (stored, w)

  connected-IsRead :
      (b : RedisBackend) (id : Uuid) (stored : Option Jar)
      (p : ConnFuture × World × Poll (Unit {0}) Conn)
      → IsRead b (some id) (
          connection_polled jars crate to_str values redis
            (some b)
            (some (key_of b id))
            (some id)
            stored
            p)
  connected-IsRead b id stored (future, w, ok (ready conn)) =
      fetched-IsRead b id stored (redis.query (get_command (key_of b id)) conn) w _ (sent conn) refl
  connected-IsRead b id stored (future, w, ok not_ready) = waits _ (stored, w) (connects future id)
  connected-IsRead b id stored (future, w, err e) = fails _ (stored, w)

  connected_new-IsRead :
      (b : RedisBackend) (stored : Option Jar) (p : ConnFuture × World × Poll (Unit {0}) Conn)
      → IsRead b none (connection_polled jars crate to_str values redis (some b) none none stored p)
  connected_new-IsRead b stored (future, w, ok (ready conn)) =
      gives _ (stored, w) _ (opens_unnamed conn)
  connected_new-IsRead b stored (future, w, ok not_ready) =
      waits _ (stored, w) (connects_new future)
  connected_new-IsRead b stored (future, w, err e) = fails _ (stored, w)

  identified-IsPolled :
      (b : RedisBackend) (w : World) (r : Option Jar × Result ℕ (Option Uuid))
      → IsPolled b r.1 (identified jars crate to_str values redis b w r)
  identified-IsPolled b w (left, ok none) = reads_on none _ (connected_new-IsRead b left _)
  identified-IsPolled b w (left, ok (some id)) = reads_on (some id) _ (connected-IsRead b id left _)
  identified-IsPolled b w (left, err status) = refuses _ _ status

  reading-IsRead :
      (b : RedisBackend) (named : Option Uuid) (s : ReadSession ConnFuture QueryFuture Uuid)
      (stored : Option Jar) (w : World)
      → IsReading b named s
      → IsRead b named (poll_read jars crate to_str values redis s (stored, w))
  unfolding poll_read
  reading-IsRead b _ _ stored w (connects_new future) = connected_new-IsRead b stored _
  reading-IsRead b _ _ stored w (connects future id) = connected-IsRead b id stored _
  reading-IsRead b _ _ stored w (fetches future id asks) =
      fetched-IsRead b id stored future w _ asks refl

  -- A poll of a read that is not over does not panic, and none of its `unreachable!` is reached.
  -- The first is refused with the error of the cookies, where they do not parse or the value of the
  -- session's is no id; else the read is for the id that the cookie names, if any. Every poll of a read for an id leaves a read for that
  -- id, or fails with status 500, or gives a session: a new one where no id is named or Redis has
  -- no value for the key of the id, and else the id with the entries that the value of its key is
  -- parsed to.
  pub poll_read-IsPolled :
      (b : RedisBackend) (named : Result ℕ (Option Uuid))
      (s : ReadSession ConnFuture QueryFuture Uuid) (stored : Option Jar) (w : World)
      → IsUnfinished b stored named s
      → IsPolled b named (poll_read jars crate to_str values redis s (stored, w))
  unfolding poll_read
  poll_read-IsPolled b _ _ stored w starts =
      identified-IsPolled b w (get_session_id jars crate to_str values redis b stored)
  poll_read-IsPolled b _ _ stored w (reads named s h) =
      reads_on named _ (reading-IsRead b named s stored w h)
