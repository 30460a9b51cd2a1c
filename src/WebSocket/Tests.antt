-- ===== src/WebSocket/Tests.antt =====
-- tsukuyomi-tungstenite/src/lib.rs: handshakes, and witnesses.
use tsukuyomi.Prelude.{ℕ, ◌≡◌, refl, ◌↔◌, some, [], ◌∷◌, Bytes, codes, ok, err}
use tsukuyomi.Http.Sample.{Entries, get_entry, sample}
use tsukuyomi.WebSocket.{WsCrate, Executor, invalid_header, handshake, poll_ws, new}
use tsukuyomi.WebSocket.Laws.{IsHandshake, handshake-exact}
use tsukuyomi.WebSocket.ReplyLaws.{IsReply, poll_ws-IsReply}

-- A hash that is the text itself.
abbrev texts : WsCrate ℕ Bytes
texts = record {
  upgrade = 20;
  connection = 21;
  version = 22;
  key = 23;
  accept = 24;
  as_bytes = λ v. v;
  sha1 = λ s. s;
  base64 = λ s. s;
}

abbrev key : Bytes
key = codes "dGhlIHNhbXBsZSBub25jZQ=="

abbrev asks : Bytes → Entries
asks connection = (20, codes "WebSocket") ∷ (21, connection) ∷ (22, codes "13") ∷ (23, key) ∷ []

handshake-exact_example :
    (handshake sample texts (asks (codes "Upgrade")) ≡ ok (codes "accepted"))
    ↔ IsHandshake sample texts (asks (codes "Upgrade")) (codes "accepted")
handshake-exact_example = handshake-exact sample texts (asks (codes "Upgrade")) (codes "accepted")

-- The input is the body, and a task is its body.
abbrev bodies : Executor ℕ Bytes ℕ ℕ ℕ
bodies = record {
  take_body = λ i. (0, some i);
  upgrade_task = λ body config f. body;
  spawn = λ task i. (task, ok tt);
}

poll_ws-IsReply_example : IsReply sample texts bodies (new (codes "f")) (asks (codes "Upgrade")) 5 (
    poll_ws sample texts bodies
      (record { method = codes "GET"; headers = asks (codes "Upgrade") })
      (some (new (codes "f")))
      5)
poll_ws-IsReply_example =
    poll_ws-IsReply sample texts bodies (new (codes "f")) (asks (codes "Upgrade")) (codes "GET") 5

-- A list of connection options is refused, though "Upgrade" is one of them.
refuses_list :
    handshake sample texts (asks (codes "keep-alive, Upgrade"))
    ≡ err (invalid_header (codes "Connection"))
unfolding handshake get_entry
refuses_list = refl
