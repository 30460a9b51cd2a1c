-- ===== src/WebSocket.antt =====
-- tsukuyomi-tungstenite/src/lib.rs: the handshake of a web socket and its response. The hash, the
-- body of the request and the executor are not in the crate, and are parameters.
use tsukuyomi.Prelude.{
  ℕ, ◌+◌, Bool, true, false, not, ◌&&◌, ◌||◌, ◌==◌, leb, Option, none, some, List, [], ◌∷◌, ◌++◌,
  Bytes, codes, eq_bytes, length, if◌then◌else◌, Result, ok, err, ◌>>=◌, or_fail,
}
use tsukuyomi.Http.{Http}
use tsukuyomi.Input.{Request, Response}
use tsukuyomi.Input.Cookies.{bad_request_status}
use tsukuyomi.Extractor.{internal_server_error_status}
use tsukuyomi.Future.{Async, ready, not_ready, Poll, PartialFuture}
pub mod Laws
pub mod ReplyLaws
mod Tests

-- `HandshakeError`
pub data HandshakeError : Type 0 where
  missing_header : Bytes → HandshakeError
  invalid_header : Bytes → HandshakeError
  invalid_sec_web_socket_key : HandshakeError
  invalid_sec_web_socket_version : HandshakeError

-- The text of an error
abbrev pub error_text : HandshakeError → Bytes
error_text (missing_header name) = codes "The header is missing: `" ++ name ++ codes "'"
error_text (invalid_header name) = codes "The header value is invalid: `" ++ name ++ codes "'"
error_text invalid_sec_web_socket_key = codes "The value of `Sec-WebSocket-Key` is invalid"
error_text invalid_sec_web_socket_version =
    codes "The value of `Sec-WebSocket-Version` must be equal to '13'"

-- `HandshakeError::into_response`: the status and the body
abbrev pub handshake_response : HandshakeError → ℕ × Bytes
handshake_response e = (bad_request_status, error_text e)

-- `eq_ignore_ascii_case`
abbrev pub to_lower : ℕ → ℕ
to_lower c = if leb 65 c && leb c 90 then c + 32 else c

abbrev pub lower : Bytes → Bytes
lower [] = []
lower (c ∷ s) = to_lower c ∷ lower s

abbrev pub eq_ignore_case : Bytes → Bytes → Bool
eq_ignore_case s t = eq_bytes (lower s) (lower t)

-- `is_ascii_alphanumeric`
abbrev pub is_alphanumeric : ℕ → Bool
is_alphanumeric c = (leb 48 c && leb c 57) || ((leb 65 c && leb c 90) || (leb 97 c && leb c 122))

-- A byte that the test of the key lets pass
abbrev pub is_key_byte : ℕ → Bool
is_key_byte c = is_alphanumeric c || ((c == b'+') || ((c == b'/') || (c == b'=')))

abbrev pub all_bytes : (ℕ → Bool) → Bytes → Bool
all_bytes test [] = true
all_bytes test (c ∷ s) = test c && all_bytes test s

abbrev pub is_key : Bytes → Bool
is_key key = (length key == 24) && all_bytes is_key_byte key

abbrev pub is_websocket : Bytes → Bool
is_websocket s = eq_ignore_case s (codes "websocket")

abbrev pub is_upgrade : Bytes → Bool
is_upgrade s = eq_ignore_case s (codes "upgrade")

abbrev pub is_13 : Bytes → Bool
is_13 s = eq_bytes s (codes "13")

abbrev pub guid : Bytes
guid = codes "258EAFA5-E914-47DA-95CA-C5AB0DC85B11"

-- The names of headers that the code uses, the bytes and the static text of a value, and the hash.
pub record WsCrate (Name Value : Type 0) : Type 0 where
  pub upgrade : Name
  pub connection : Name
  pub version : Name
  pub key : Name
  pub accept : Name
  pub as_bytes : Value → Bytes
  pub sha1 : Bytes → Bytes
  pub base64 : Bytes → Bytes

-- `Ws`
pub record Ws (F Config : Type 0) : Type 0 where
  pub on_upgrade : F
  pub config : Option Config

module _ {F Config : Type 0} where
  -- `Ws::new` and `Ws::config`
  abbrev pub new : F → Ws F Config
  new on_upgrade = record { on_upgrade = on_upgrade; config = none }

  abbrev pub with_config : Ws F Config → Config → Ws F Config
  with_config ws config = record ws { config = some config }

module _ {Uri Method Name Value Headers : Type 0} (h : Http Uri Method Name Value Headers)
    (crate : WsCrate Name Value) where
  -- One `match` of the handshake on a header
  abbrev pub require :
      HandshakeError → HandshakeError → (Bytes → Bool) → Option Value → Result HandshakeError Bytes
  require missing invalid test none = err missing
  require missing invalid test (some v) =
      if test (crate.as_bytes v) then ok (crate.as_bytes v) else err invalid

  abbrev pub require_header :
      Name → Bytes → HandshakeError → (Bytes → Bool) → Headers → Result HandshakeError Bytes
  require_header name text invalid test headers =
      require (missing_header text) invalid test (h.get_header headers name)

  abbrev pub accept_hash : Bytes → Bytes
  accept_hash key = crate.base64 (crate.sha1 (key ++ guid))

  abbrev pub check_upgrade : Headers → Result HandshakeError Bytes
  check_upgrade =
      require_header crate.upgrade (codes "Upgrade") (invalid_header (codes "Upgrade")) is_websocket

  abbrev pub check_connection : Headers → Result HandshakeError Bytes
  check_connection =
      require_header crate.connection (codes "Connection") (invalid_header (codes "Connection"))
        is_upgrade

  abbrev pub check_version : Headers → Result HandshakeError Bytes
  check_version =
      require_header crate.version (codes "Sec-WebSocket-Version") invalid_sec_web_socket_version
        is_13

  abbrev pub check_key : Headers → Result HandshakeError Bytes
  check_key = require_header crate.key (codes "Sec-WebSocket-Key") invalid_sec_web_socket_key is_key

  unfoldable pub handshake : Headers → Result HandshakeError Bytes
  handshake headers = check_upgrade headers >>= λ u. check_connection headers >>= λ c.
      check_version headers >>= λ v. check_key headers >>= λ key. ok (accept_hash key)

-- Either a refusal of the handshake or a status
pub data WsError : Type 0 where
  handshake_error : HandshakeError → WsError
  status_error : ℕ → WsError

abbrev pub switching_protocols_status : ℕ
switching_protocols_status = 101

-- `RequestBody::take_from`, the task that upgrades the connection, and `DefaultExecutor::spawn`
pub record Executor (I F Config Body Task : Type 0) : Type 0 where
  pub take_body : I → I × Option Body
  pub upgrade_task : Body → Option Config → F → Task
  pub spawn : Task → I → I × Result (Unit {0}) (Unit {0})

module _ {Uri Method Name Value Headers I F Config Body Task : Type 0}
    (h : Http Uri Method Name Value Headers) (crate : WsCrate Name Value)
    (executor : Executor I F Config Body Task) where
  -- The response that switches protocols
  abbrev pub switching : Bytes → Response Headers
  switching hash = record {
    status = switching_protocols_status;
    headers =
        h.append_header
          (h.append_header
            (h.append_header h.empty crate.upgrade (h.from_shared_unchecked (codes "websocket")))
            crate.connection (h.from_shared_unchecked (codes "upgrade")))
          crate.accept (h.from_shared_unchecked hash);
  }

  abbrev pub spawned :
      Bytes → I × Result (Unit {0}) (Unit {0}) → I × Result WsError (Response Headers)
  spawned hash (i, ok u) = (i, ok (switching hash))
  spawned hash (i, err e) = (i, err (status_error internal_server_error_status))

  abbrev pub with_body :
      Ws F Config → Bytes → I × Option Body → I × Result WsError (Response Headers)
  with_body ws hash (i, none) = (i, err (status_error internal_server_error_status))
  with_body ws hash (i, some body) =
      spawned hash (executor.spawn (executor.upgrade_task body ws.config ws.on_upgrade) i)

  abbrev pub after_handshake :
      Ws F Config → I → Result HandshakeError Bytes → I × Result WsError (Response Headers)
  after_handshake ws i (ok hash) = with_body ws hash (executor.take_body i)
  after_handshake ws i (err e) = (i, err (handshake_error e))

  abbrev pub replied :
      I × Result WsError (Response Headers)
      → Option (Option (Ws F Config) × I × Poll WsError (Response Headers))
  replied (i, result) = some (none, i, (result >>= λ response. ok (ready response)))

  -- `WsRespond::poll_ready`
  unfoldable pub poll_ws :
      Request Method Headers → PartialFuture (Option (Ws F Config)) I WsError (Response Headers)
  unfolding handshake
  poll_ws request none i = none
  poll_ws request (some ws) i = replied (after_handshake ws i (handshake h crate request.headers))
