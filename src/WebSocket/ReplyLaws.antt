-- ===== src/WebSocket/ReplyLaws.antt =====
-- tsukuyomi-tungstenite/src/lib.rs: when the connection is switched.
use tsukuyomi.Prelude.{◌≡◌, refl, Option, none, some, Bytes, Result, ok, err}
use tsukuyomi.Http.{Http}
use tsukuyomi.Input.{Response}
use tsukuyomi.Extractor.{internal_server_error_status}
use tsukuyomi.Future.{ready, Poll}
use tsukuyomi.WebSocket.{
  HandshakeError, WsError, handshake_error, status_error, WsCrate, Ws, Executor, handshake,
  switching, replied, after_handshake, with_body, spawned, poll_ws,
}
use tsukuyomi.WebSocket.Laws.{IsHandshake, handshake-exact}

module _ {Uri Method Name Value Headers I F Config Body Task : Type 0}
    (h : Http Uri Method Name Value Headers) (crate : WsCrate Name Value)
    (executor : Executor I F Config Body Task) (ws : Ws F Config) (headers : Headers) where
  -- What a poll comes to, from an input.
  pub data IsReply (i : I)
      : Option (Option (Ws F Config) × I × Poll WsError (Response Headers)) → Type 0 where
    -- The handshake is refused, and the input is not touched.
    refused :
        (e : HandshakeError)
        → handshake h crate headers ≡ err e
        → IsReply i (some (none, i, err (handshake_error e)))
    -- The body of the request is gone.
    no_body :
        (hash : Bytes) (j : I)
        → IsHandshake h crate headers hash
        → executor.take_body i ≡ (j, none)
        → IsReply i (some (none, j, err (status_error internal_server_error_status)))
    -- The body was taken, and the task was not spawned.
    no_task :
        (hash : Bytes) (j k : I) (body : Body)
        → IsHandshake h crate headers hash
        → executor.take_body i ≡ (j, some body)
        → executor.spawn (executor.upgrade_task body ws.config ws.on_upgrade) j ≡ (k, err tt)
        → IsReply i (some (none, k, err (status_error internal_server_error_status)))
    -- The connection is switched: a body was taken, and the task that upgrades it was spawned.
    switches :
        (hash : Bytes) (j k : I) (body : Body)
        → IsHandshake h crate headers hash
        → executor.take_body i ≡ (j, some body)
        → executor.spawn (executor.upgrade_task body ws.config ws.on_upgrade) j ≡ (k, ok tt)
        → IsReply i (some (none, k, ok (ready (switching h crate executor hash))))

  spawned-IsReply :
      (i j : I) (hash : Bytes) (body : Body) (r : I × Result (Unit {0}) (Unit {0}))
      → IsHandshake h crate headers hash
      → executor.take_body i ≡ (j, some body)
      → executor.spawn (executor.upgrade_task body ws.config ws.on_upgrade) j ≡ r
      → IsReply i (replied h crate executor (spawned h crate executor hash r))
  spawned-IsReply i j hash body (k, ok u) valid takes spawns =
      switches hash j k body valid takes spawns
  spawned-IsReply i j hash body (k, err tt) valid takes spawns =
      no_task hash j k body valid takes spawns

  body-IsReply :
      (i : I) (hash : Bytes) (r : I × Option Body)
      → IsHandshake h crate headers hash
      → executor.take_body i ≡ r
      → IsReply i (replied h crate executor (with_body h crate executor ws hash r))
  body-IsReply i hash (j, none) valid takes = no_body hash j valid takes
  body-IsReply i hash (j, some body) valid takes = spawned-IsReply i j hash body _ valid takes refl

  after_handshake-IsReply :
      (i : I) (r : Result HandshakeError Bytes)
      → handshake h crate headers ≡ r
      → IsReply i (replied h crate executor (after_handshake h crate executor ws i r))
  after_handshake-IsReply i (ok hash) e =
      body-IsReply i hash (executor.take_body i) ((handshake-exact h crate headers hash).0 e) refl
  after_handshake-IsReply i (err x) e = refused x e

  -- The first poll of a web socket does not panic and is not pending. It answers 101 only where the
  -- request asks for a web socket, the body of the request was taken and the task that upgrades the
  -- connection was spawned; a refused handshake leaves the input as it is.
  pub poll_ws-IsReply :
      (method : Method) (i : I)
      → IsReply i
          (poll_ws h crate executor (record { method = method; headers = headers }) (some ws) i)
  unfolding poll_ws
  poll_ws-IsReply method i = after_handshake-IsReply i (handshake h crate headers) refl
