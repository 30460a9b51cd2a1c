-- ===== src/WebSocket/Laws.antt =====
-- tsukuyomi-tungstenite/src/lib.rs: what the handshake accepts.
use tsukuyomi.Prelude.{
  ◌≡◌, refl, ap, ◌∙◌, Bool, true, false, ◌&&◌, ◌==◌, ==_iff, Option, none, some, Bytes, codes,
  eq_bytes→eq, length, ◌↔◌, if◌then◌else◌, Result, ok, err, ◌>>=◌,
}
use tsukuyomi.Http.{Http}
use tsukuyomi.WebSocket.{
  HandshakeError, missing_header, invalid_header, invalid_sec_web_socket_key,
  invalid_sec_web_socket_version, lower, is_key_byte, all_bytes, is_key, is_websocket, is_upgrade,
  is_13, WsCrate, require, check_upgrade, check_connection, check_version, check_key, accept_hash,
  handshake,
}

and-true : (a b : Bool) → (a && b) ≡ true → (a ≡ true) × (b ≡ true)
and-true true b e = (refl, e)
and-true false b e = cc

true-and : (a b : Bool) → a ≡ true → b ≡ true → (a && b) ≡ true
true-and a b p q = rw (p, q) refl

if_ok :
    {E A : Type 0}
    → (b : Bool) (x y : A) (e : E) → (if b then ok x else err e) ≡ ok y
    → (b ≡ true) × (x ≡ y)
if_ok true x y e same = (refl, cc)
if_ok false x y e same = cc

passed_four :
    {E A : Type 0}
    → (a b c d : Result E A) (f : A → A) (out : A)
    → (a >>= λ u. b >>= λ v. c >>= λ w. d >>= λ x. ok (f x)) ≡ ok out
    → ((u : A) × (a ≡ ok u))
      × ((v : A) × (b ≡ ok v))
      × ((w : A) × (c ≡ ok w))
      × ((x : A) × (d ≡ ok x) × (f x ≡ out))
passed_four (ok u) (ok v) (ok w) (ok x) f out e = ((u, refl), (v, refl), (w, refl), (x, refl, cc))
passed_four (ok u) (ok v) (ok w) (err x) f out e = cc
passed_four (ok u) (ok v) (err w) d f out e = cc
passed_four (ok u) (err v) c d f out e = cc
passed_four (err u) b c d f out e = cc

module _ {Uri Method Name Value Headers : Type 0} (h : Http Uri Method Name Value Headers)
    (crate : WsCrate Name Value) where
  require-ok :
      (missing invalid : HandshakeError) (test : Bytes → Bool) (o : Option Value) (s : Bytes)
      → require h crate missing invalid test o ≡ ok s
      → (v : Value) × (o ≡ some v) × (crate.as_bytes v ≡ s) × (test (crate.as_bytes v) ≡ true)
  require-ok missing invalid test none s e = cc
  require-ok missing invalid test (some v) s e =
      let (passes, same) = if_ok (test (crate.as_bytes v)) (crate.as_bytes v) s invalid e in
      (v, refl, same, passes)

  -- A request that asks for a web socket: four headers, with the first value of each.
  pub record IsHandshake (headers : Headers) (hash : Bytes) : Type 0 where
    pub upgrade : Value
    pub has_upgrade : h.get_header headers crate.upgrade ≡ some upgrade
    pub is_websocket : lower (crate.as_bytes upgrade) ≡ codes "websocket"
    pub connection : Value
    pub has_connection : h.get_header headers crate.connection ≡ some connection
    pub is_upgrade : lower (crate.as_bytes connection) ≡ codes "upgrade"
    pub version : Value
    pub has_version : h.get_header headers crate.version ≡ some version
    pub is_13 : crate.as_bytes version ≡ codes "13"
    pub key : Value
    pub has_key : h.get_header headers crate.key ≡ some key
    pub length_key : length (crate.as_bytes key) ≡ 24
    pub bytes_key : all_bytes is_key_byte (crate.as_bytes key) ≡ true
    pub hashed : accept_hash h crate (crate.as_bytes key) ≡ hash

  handshake-IsHandshake :
      (headers : Headers) (hash : Bytes)
      → handshake h crate headers ≡ ok hash
      → IsHandshake headers hash
  unfolding handshake
  handshake-IsHandshake headers hash e =
      let ((u, e1), (c, e2), (v, e3), (k, e4, same)) =
        passed_four (check_upgrade h crate headers) (check_connection h crate headers)
          (check_version h crate headers) (check_key h crate headers) (accept_hash h crate) hash
          e in
      let (upgrade, has_upgrade, same_upgrade, test_upgrade) =
        require-ok (missing_header (codes "Upgrade")) (invalid_header (codes "Upgrade"))
          is_websocket (h.get_header headers crate.upgrade) _ e1 in
      let (connection, has_connection, same_connection, test_connection) =
        require-ok (missing_header (codes "Connection")) (invalid_header (codes "Connection"))
          is_upgrade (h.get_header headers crate.connection) _ e2 in
      let (version, has_version, same_version, test_version) =
        require-ok (missing_header (codes "Sec-WebSocket-Version")) invalid_sec_web_socket_version
          is_13 (h.get_header headers crate.version) _ e3 in
      let (key, has_key, same_key, test_key) =
        require-ok (missing_header (codes "Sec-WebSocket-Key")) invalid_sec_web_socket_key is_key
          (h.get_header headers crate.key) _ e4 in
      let (long, bytes) = and-true (length (crate.as_bytes key) == 24) _ test_key in
      record {
        upgrade = upgrade;
        has_upgrade = has_upgrade;
        is_websocket = eq_bytes→eq _ _ test_upgrade;
        connection = connection;
        has_connection = has_connection;
        is_upgrade = eq_bytes→eq _ _ test_connection;
        version = version;
        has_version = has_version;
        is_13 = eq_bytes→eq _ _ test_version;
        key = key;
        has_key = has_key;
        length_key = (==_iff (length (crate.as_bytes key)) 24).0 long;
        bytes_key = bytes;
        hashed = ap (accept_hash h crate) same_key ∙ same;
      }

  IsHandshake-handshake :
      (headers : Headers) (hash : Bytes)
      → IsHandshake headers hash
      → handshake h crate headers ≡ ok hash
  unfolding handshake
  IsHandshake-handshake headers hash s =
      rw
        (
          s.has_upgrade,
          s.is_websocket,
          s.has_connection,
          s.is_upgrade,
          s.has_version,
          s.is_13,
          s.has_key,
          (==_iff (length (crate.as_bytes s.key)) 24).1 s.length_key,
          s.bytes_key,
        )
        (ap ok s.hashed)

  -- The handshake succeeds, with a hash, if and only if the first values of the four headers are
  -- "websocket" and "upgrade", without regard to ASCII case, "13", and a key of 24 bytes that are
  -- letters, digits, "+", "/" or "=", and the hash is that of the key with the fixed identifier.
  pub handshake-exact :
      (headers : Headers) (hash : Bytes)
      → (handshake h crate headers ≡ ok hash) ↔ IsHandshake headers hash
  handshake-exact headers hash =
      (handshake-IsHandshake headers hash, IsHandshake-handshake headers hash)
