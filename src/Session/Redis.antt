-- ===== src/Session/Redis.antt =====
-- tsukuyomi-session/src/backend/redis.rs: `RedisBackend`. The clients of Redis, UUIDs, the jar and
-- `serde_json` are parameters; what they change outside of the jar is the world.
use tsukuyomi.Prelude.{
  ℕ, Option, none, some, List, Bytes, ◌++◌, codes, Result, ok, err, ◌>>=◌, or_fail,
}
use tsukuyomi.Input.Cookies.{CookieCrate, bad_request_status, jar}
use tsukuyomi.Extractor.{internal_server_error_status}
use tsukuyomi.Future.{ready, not_ready, Poll, PartialFuture}
use tsukuyomi.Cors.Builder.{Duration}
use tsukuyomi.Session.{Entries, Inner, empty, entries, clear}
use tsukuyomi.Session.Cookie.{Jars}

-- The commands that are sent, of which one has the seconds of the timeout.
pub data Command : Type 0 where
  get_command : Bytes → Command
  set_command : Bytes → Bytes → Command
  setex_command : Bytes → ℕ → Bytes → Command
  del_command : Bytes → Command

pub record Redis (Conn ConnFuture QueryFuture Uuid World : Type 0) : Type 0 where
  pub get_connection : ConnFuture
  pub poll_connection : ConnFuture → World → ConnFuture × World × Poll (Unit {0}) Conn
  pub query : Command → Conn → QueryFuture
  pub poll_query : QueryFuture → World → QueryFuture × World × Poll (Unit {0}) (Conn × Option Bytes)
  pub parse_uuid : Bytes → Option Uuid
  pub uuid_string : Uuid → Bytes
  pub new_v4 : World → World × Uuid

-- `RedisBackendInner`, without the client
pub record RedisBackend : Type 0 where
  pub key_prefix : Bytes
  pub cookie_name : Bytes
  pub timeout : Option Duration

-- `RedisBackend::new`
abbrev pub new : RedisBackend
new = record {
  key_prefix = codes "tsukuyomi-session";
  cookie_name = codes "session-id";
  timeout = none;
}

-- `RedisBackend::key_prefix`, `RedisBackend::cookie_name` and `RedisBackend::timeout`, of a backend that
-- is not shared
abbrev pub with_key_prefix : RedisBackend → Bytes → RedisBackend
with_key_prefix backend prefix = record backend { key_prefix = prefix }

abbrev pub with_cookie_name : RedisBackend → Bytes → RedisBackend
with_cookie_name backend name = record backend { cookie_name = name }

abbrev pub with_timeout : RedisBackend → Duration → RedisBackend
with_timeout backend timeout = record backend { timeout = some timeout }

pub record RedisSession (Conn Uuid : Type 0) : Type 0 where
  pub inner : Inner
  pub backend : RedisBackend
  pub conn : Conn
  pub session_id : Option Uuid

pub data ReadSessionState (ConnFuture QueryFuture Uuid : Type 0) : Type 0 where
  init : ReadSessionState ConnFuture QueryFuture Uuid
  connecting :
      ConnFuture → Option Bytes → Option Uuid → ReadSessionState ConnFuture QueryFuture Uuid
  fetch : QueryFuture → Uuid → ReadSessionState ConnFuture QueryFuture Uuid
  done : ReadSessionState ConnFuture QueryFuture Uuid

pub record ReadSession (ConnFuture QueryFuture Uuid : Type 0) : Type 0 where
  pub backend : Option RedisBackend
  pub state : ReadSessionState ConnFuture QueryFuture Uuid

-- `Backend::read`
abbrev pub start_read :
    {ConnFuture QueryFuture Uuid : Type 0} → RedisBackend → ReadSession ConnFuture QueryFuture Uuid
start_read backend = record { backend = some backend; state = init }

pub data WriteSession (Conn QueryFuture Uuid : Type 0) : Type 0 where
  starting : Option (RedisSession Conn Uuid) → WriteSession Conn QueryFuture Uuid
  operating : QueryFuture → WriteSession Conn QueryFuture Uuid

module _ {Jar Cookie Key Value Conn ConnFuture QueryFuture Uuid World : Type 0}
    (jars : Jars Jar Cookie Key) (crate : CookieCrate Jar Cookie) (to_str : Value → Option Bytes)
    (values : List Value) (redis : Redis Conn ConnFuture QueryFuture Uuid World) where
  -- `generate_redis_key`
  abbrev pub generate_redis_key : RedisBackend → Uuid → Bytes
  generate_redis_key backend id = backend.key_prefix ++ codes ":" ++ redis.uuid_string id

  abbrev pub id_of : Option Cookie → Result ℕ (Option Uuid)
  id_of none = ok none
  id_of (some cookie) =
      or_fail bad_request_status (redis.parse_uuid (jars.value cookie)) >>= λ id. ok (some id)

  -- `get_session_id`, with the jar that it leaves
  unfoldable pub get_session_id : RedisBackend → Option Jar → Option Jar × Result ℕ (Option Uuid)
  unfolding jar
  get_session_id backend stored =
      let (stored', result) = jar crate to_str stored values in
      (stored', (result >>= λ j. id_of (jars.get_cookie j backend.cookie_name)))

  abbrev pub Reading : Type 0
  Reading = Option (
      ReadSession ConnFuture QueryFuture Uuid
      × (Option Jar × World)
      × Poll ℕ (RedisSession Conn Uuid))

  -- `self.backend.take().expect(..)` in the session that is returned
  abbrev pub opened :
      Option RedisBackend → Inner → Conn → Option Uuid → Option Jar × World → Reading
  opened none inner conn id i = none
  opened (some backend) inner conn id i = some (
    record { backend = none; state = done },
    i,
    ok (ready (record { inner = inner; backend = backend; conn = conn; session_id = id })),
  )

  abbrev pub parsed :
      Option RedisBackend → Conn → Uuid → Option Jar × World → Option Entries → Reading
  parsed backend conn id i none =
      some (record { backend = backend; state = done }, i, err internal_server_error_status)
  parsed backend conn id i (some map) = opened backend (entries map) conn (some id) i

  abbrev pub fetched :
      Option RedisBackend
      → Uuid
      → Option Jar
      → QueryFuture × World × Poll (Unit {0}) (Conn × Option Bytes)
      → Reading
  fetched backend id stored (future, w, ok (ready (conn, some value))) =
      parsed backend conn id (stored, w) (jars.from_str value)
  fetched backend id stored (future, w, ok (ready (conn, none))) =
      opened backend empty conn none (stored, w)
  fetched backend id stored (future, w, ok not_ready) =
      some (record { backend = backend; state = fetch future id }, (stored, w), ok not_ready)
  fetched backend id stored (future, w, err e) = some (
    record { backend = backend; state = fetch future id },
    (stored, w),
    err internal_server_error_status,
  )

  -- The match on the state that a connection ends
  abbrev pub connected :
      Option RedisBackend → Option Bytes → Option Uuid → Conn → Option Jar × World → Reading
  connected backend (some key) (some id) conn (stored, w) =
      fetched backend id stored (redis.poll_query (redis.query (get_command key) conn) w)
  connected backend none none conn i = opened backend empty conn none i
  connected backend (some key) none conn i = none
  connected backend none (some id) conn i = none

  abbrev pub connection_polled :
      Option RedisBackend
      → Option Bytes
      → Option Uuid
      → Option Jar
      → ConnFuture × World × Poll (Unit {0}) Conn
      → Reading
  connection_polled backend key id stored (future, w, ok (ready conn)) =
      connected backend key id conn (stored, w)
  connection_polled backend key id stored (future, w, ok not_ready) =
      some
        (record { backend = backend; state = connecting future key id }, (stored, w), ok not_ready)
  connection_polled backend key id stored (future, w, err e) = some (
    record { backend = backend; state = connecting future key id },
    (stored, w),
    err internal_server_error_status,
  )

  abbrev pub key_name : RedisBackend → Option Uuid → Option Bytes
  key_name backend none = none
  key_name backend (some id) = some (generate_redis_key backend id)

  abbrev pub identified : RedisBackend → World → Option Jar × Result ℕ (Option Uuid) → Reading
  identified backend w (stored, ok id) =
      connection_polled (some backend) (key_name backend id) id stored
        (redis.poll_connection redis.get_connection w)
  identified backend w (stored, err e) =
      some (record { backend = some backend; state = init }, (stored, w), err e)

  abbrev pub read_state :
      Option RedisBackend
      → ReadSessionState ConnFuture QueryFuture Uuid
      → Option Jar × World
      → Reading
  read_state (some backend) init (stored, w) = identified backend w (get_session_id backend stored)
  read_state none init i = none
  read_state backend (connecting future key id) (stored, w) =
      connection_polled backend key id stored (redis.poll_connection future w)
  read_state backend (fetch future id) (stored, w) =
      fetched backend id stored (redis.poll_query future w)
  read_state backend done i = none

  -- `ReadSession::poll_ready`
  unfoldable pub poll_read :
      PartialFuture
        (ReadSession ConnFuture QueryFuture Uuid)
        (Option Jar × World)
        ℕ
        (RedisSession Conn Uuid)
  unfolding get_session_id
  poll_read s i = read_state s.backend s.state i

  abbrev pub Writing : Type 0
  Writing = Option (WriteSession Conn QueryFuture Uuid × (Option Jar × World) × Poll ℕ (Unit {0}))

  -- The poll of the operation
  abbrev pub operated :
      Option Jar → QueryFuture × World × Poll (Unit {0}) (Conn × Option Bytes) → Writing
  operated stored (future, w, ok (ready a)) = some (operating future, (stored, w), ok (ready tt))
  operated stored (future, w, ok not_ready) = some (operating future, (stored, w), ok not_ready)
  operated stored (future, w, err e) =
      some (operating future, (stored, w), err internal_server_error_status)

  abbrev pub send : Command → Conn → Jar → World → Writing
  send command conn j w = operated (some j) (redis.poll_query (redis.query command conn) w)

  -- The command that saves a session
  abbrev pub save_command : Option Duration → Bytes → Bytes → Command
  save_command none key value = set_command key value
  save_command (some timeout) key value = setex_command key timeout.as_secs value

  -- `session_id.unwrap_or_else(Uuid::new_v4)`
  abbrev pub id_or_new : Option Uuid → World → World × Uuid
  id_or_new none w = redis.new_v4 w
  id_or_new (some id) w = (w, id)

  abbrev pub with_jar : Option Jar × Result ℕ Jar → World → (Jar → Writing) → Writing
  with_jar (stored, ok j) w next = next j
  with_jar (stored, err e) w next = some (starting none, (stored, w), err e)

  abbrev pub save : RedisSession Conn Uuid → Entries → Option Jar → World × Uuid → Writing
  save session map stored (w, id) = with_jar (jar crate to_str stored values) w (λ j.
      send
        (save_command session.backend.timeout (generate_redis_key session.backend id)
          (jars.to_string map))
        session.conn
        (jars.add_cookie j (jars.build session.backend.cookie_name (redis.uuid_string id))) w)

  abbrev pub delete : RedisSession Conn Uuid → Option Uuid → Option Jar → World → Writing
  delete session none stored w = some (starting none, (stored, w), ok (ready tt))
  delete session (some id) stored w = with_jar (jar crate to_str stored values) w (λ j.
      send (del_command (generate_redis_key session.backend id)) session.conn
        (jars.remove_cookie j (jars.named session.backend.cookie_name)) w)

  abbrev pub write_inner : RedisSession Conn Uuid → Inner → Option Jar → World → Writing
  write_inner session empty stored w = some (starting none, (stored, w), ok (ready tt))
  write_inner session (entries map) stored w =
      save session map stored (id_or_new session.session_id w)
  write_inner session clear stored w = delete session session.session_id stored w

  -- `WriteSession::poll_ready`
  unfoldable pub poll_write :
      PartialFuture (WriteSession Conn QueryFuture Uuid) (Option Jar × World) ℕ (Unit {0})
  unfolding jar
  poll_write (starting none) i = none
  poll_write (starting (some session)) (stored, w) = write_inner session session.inner stored w
  poll_write (operating future) (stored, w) = operated stored (redis.poll_query future w)
