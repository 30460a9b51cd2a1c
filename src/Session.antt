-- ===== src/Session.antt =====
-- tsukuyomi-session/src/backend/cookie.rs and tsukuyomi-session/src/backend/redis.rs: the data of a
-- session, `Inner`, and the operations of `RawSession`, which are the same in both. A
-- `HashMap<String, String>` is the list of its entries.
use tsukuyomi.Prelude.{
  Bool, true, false, Option, none, some, List, [], ◌∷◌, Bytes, eq_bytes, if◌then◌else◌,
}
pub mod Laws
pub mod Cookie
pub mod CookieLaws
pub mod Typed
pub mod Respond
pub mod Redis
pub mod RedisReading
pub mod RedisLaws
pub mod Sample
mod Tests

abbrev pub Entries : Type 0
Entries = List (Bytes × Bytes)

-- `HashMap::get`
unfoldable pub lookup : Entries → Bytes → Option Bytes
lookup [] name = none
lookup ((k, v) ∷ es) name = if eq_bytes k name then some v else lookup es name

-- `HashMap::insert`
unfoldable pub insert : Entries → Bytes → Bytes → Entries
insert [] name value = (name, value) ∷ []
insert ((k, v) ∷ es) name value =
    let rest = insert es name value in if eq_bytes k name then (k, value) ∷ es else (k, v) ∷ rest

-- `HashMap::remove`
unfoldable pub remove_entry : Entries → Bytes → Entries
remove_entry [] name = []
remove_entry ((k, v) ∷ es) name =
    let rest = remove_entry es name in if eq_bytes k name then rest else (k, v) ∷ rest

-- `Inner`, of a `CookieSession` and of a `RedisSession`
pub data Inner : Type 0 where
  empty : Inner
  entries : Entries → Inner
  clear : Inner

-- `RawSession::get`
unfoldable pub get : Inner → Bytes → Option Bytes
unfolding lookup
get (entries map) name = lookup map name
get _ name = none

-- `RawSession::set`: a session that is cleared stays so.
unfoldable pub set : Inner → Bytes → Bytes → Inner
unfolding insert
set empty name value = entries (insert [] name value)
set (entries map) name value = entries (insert map name value)
set clear name value = clear

-- `RawSession::remove`
unfoldable pub remove : Inner → Bytes → Inner
unfolding remove_entry
remove (entries map) name = entries (remove_entry map name)
remove empty name = empty
remove clear name = clear

-- `RawSession::clear`
abbrev pub cleared : Inner → Inner
cleared inner = clear
