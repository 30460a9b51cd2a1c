-- ===== src/Session/Typed.antt =====
-- tsukuyomi-session/src/lib.rs: `Session`, over any `RawSession`. The two functions of `serde_json`
-- for the type of a value are parameters.
use tsukuyomi.Prelude.{
  ℕ, ◌≡◌, refl, ap, ◌∙◌, Bool, true, false, Option, none, some, Bytes, eq_bytes, eq_bytes_refl,
  Result, ok, err, ◌>>=◌, or_fail, inl, inr, Option-cases,
}
use tsukuyomi.Future.{TryFuture, map_poll}
use tsukuyomi.Extractor.{internal_server_error_status}
use tsukuyomi.Session.{Inner, get, set, remove, cleared}
use tsukuyomi.Session.Laws.{written, is_clear, view, write-Shows}

-- `RawSession`, without the write
pub record RawSession (S : Type 0) : Type 0 where
  pub get_raw : S → Bytes → Option Bytes
  pub set_raw : S → Bytes → Bytes → S
  pub remove_raw : S → Bytes → S
  pub clear_raw : S → S

-- `RawSession for CookieSession`, and for `RedisSession`
abbrev pub raw_inner : RawSession Inner
raw_inner = record { get_raw = get; set_raw = set; remove_raw = remove; clear_raw = cleared }

-- `Session`, which the operations below take as its `raw`
pub record Session (S : Type 0) : Type 0 where
  pub raw : S

module _ {S I E Raw : Type 0} where
  -- `SessionExtract::poll_ready`
  unfoldable pub poll_session_extract : TryFuture S I E Raw → TryFuture S I E (Session Raw)
  poll_session_extract poll s i =
      let (s', i', polled) = poll s i in (s', i', map_poll (λ raw. record { raw = raw }) polled)

module _ {S : Type 0} (raw : RawSession S) where
  -- The session keeps what is written to it, in the states that `IsOpen` holds of.
  pub record IsKeeper (IsOpen : S → Type 0) : Type 0 where
    pub get-set :
        (s : S) (name value other : Bytes)
        → IsOpen s
        → raw.get_raw (raw.set_raw s name value) other
          ≡ written name value (raw.get_raw s other) other

  -- `Session::contains`
  abbrev pub contains_of : Option Bytes → Bool
  contains_of none = false
  contains_of (some value) = true

  abbrev pub contains : S → Bytes → Bool
  contains s name = contains_of (raw.get_raw s name)

  -- `Session::remove` and `Session::clear`
  abbrev pub remove_field : S → Bytes → S
  remove_field = raw.remove_raw

  abbrev pub clear_session : S → S
  clear_session = raw.clear_raw

  module _ {T : Type 0} (from_json : Bytes → Option T) (to_json : T → Option Bytes) where
    abbrev pub parsed : Option Bytes → Result ℕ (Option T)
    parsed none = ok none
    parsed (some value) =
        or_fail internal_server_error_status (from_json value) >>= λ t. ok (some t)

    -- `Session::get`
    unfoldable pub get_field : S → Bytes → Result ℕ (Option T)
    get_field s name = parsed (raw.get_raw s name)

    abbrev pub set_json : S → Bytes → Option Bytes → S × Result ℕ (Unit {0})
    set_json s name none = (s, err internal_server_error_status)
    set_json s name (some value) = (raw.set_raw s name value, ok tt)

    -- `Session::set`
    unfoldable pub set_field : S → Bytes → T → S × Result ℕ (Unit {0})
    set_field s name t = set_json s name (to_json t)

    -- The field is set: it is found as the value that was given, and the others as they were.
    pub record IsStored (s s' : S) (name : Bytes) (t : T) : Type 0 where
      pub there : contains s' name ≡ true
      pub field : get_field s' name ≡ ok (some t)
      pub others :
          (other : Bytes) → eq_bytes name other ≡ false → get_field s' other ≡ get_field s other

    -- What `set` may come to: a value that is not serialized changes nothing and is an error 500.
    pub data SetResult (s : S) (name : Bytes) (t : T) : S × Result ℕ (Unit {0}) → Type 0 where
      refused : to_json t ≡ none → SetResult s name t (s, err internal_server_error_status)
      stored : (s' : S) → IsStored s s' name t → SetResult s name t (s', ok tt)

    -- In a session that keeps what is written to it, `set` either stores the value, which `get` then
    -- gives back, where it parses from its own text, and no other field changes; or it is an error
    -- 500 and changes nothing.
    pub set_field-SetResult :
        {IsOpen : S → Type 0}
        → IsKeeper IsOpen
        → ((t : T) (text : Bytes) → to_json t ≡ some text → from_json text ≡ some t)
        → (s : S) (name : Bytes) (t : T) → IsOpen s
        → SetResult s name t (set_field s name t)
    unfolding get_field set_field
    set_field-SetResult keeper law s name t is_open = elim (Option-cases (to_json t)) [
      | inl fails ↦ rw fails (refused fails)
      | inr (text, works) ↦
          let at : raw.get_raw (raw.set_raw s name text) name ≡ some text =
            keeper.get-set s name text name is_open ∙ rw (eq_bytes_refl name) refl in
          rw works (
            stored (raw.set_raw s name text) (record {
              there = ap contains_of at;
              field =
                  ap parsed at
                  ∙ ap (λ o. or_fail internal_server_error_status o >>= λ u. ok (some u))
                      (law t text works);
              others = λ other apart.
                  ap parsed (keeper.get-set s name text other is_open ∙ rw apart refl);
            }))
    ]

-- The sessions of both backends keep what is written to them, unless they are cleared.
pub inner-IsKeeper : IsKeeper raw_inner (λ inner. is_clear inner ≡ false)
unfolding get set remove
inner-IsKeeper = record {
  get-set = λ s name value other is_open.
      (write-Shows s (view s) name value false is_open
          (record { closed = refl; at = λ n. refl })).at
        other;
}
