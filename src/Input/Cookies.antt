-- ===== src/Input/Cookies.antt =====
-- tsukuyomi/src/input.rs: `Cookies::jar`. The cookie crate is a parameter: the empty jar, adding an
-- original cookie, and parsing one.
use tsukuyomi.Prelude.{
  ℕ, ◌≡◌, refl, ap, Option, none, some, List, [], ◌∷◌, Bytes, ◌⊎◌, ◌==◌, if◌then◌else◌, trim,
  push_first, Result, ok, err, inl, inr, Option-cases,
}

pub record CookieCrate (Jar Cookie : Type 0) : Type 0 where
  pub new_jar : Jar
  pub add_original : Jar → Cookie → Jar
  pub parse_encoded : Bytes → Option Cookie

-- `crate::error::bad_request`
abbrev pub bad_request_status : ℕ
bad_request_status = 400

-- `raw_s.split(';')`
unfoldable pub split_semicolon : Bytes → List Bytes
split_semicolon [] = [] ∷ []
split_semicolon (c ∷ s) =
    let rest = split_semicolon s in if c == b';' then [] ∷ rest else push_first c rest

module _ {Jar Cookie Value : Type 0} (crate : CookieCrate Jar Cookie)
    (to_str : Value → Option Bytes) where
  -- The loops: the jar as it is left, on an error too.
  unfoldable pub add_cookies : Jar → List Bytes → Jar × Result ℕ (Unit {0})
  add_cookies jar [] = (jar, ok tt)
  add_cookies jar (s ∷ ss) = elim (crate.parse_encoded (trim s)) [
    | none ↦ (jar, err bad_request_status)
    | some cookie ↦ add_cookies (crate.add_original jar cookie) ss
  ]

  -- The next step after a header, unless that was an error.
  abbrev pub then_header :
      Jar × Result ℕ (Unit {0}) → (Jar → Jar × Result ℕ (Unit {0})) → Jar × Result ℕ (Unit {0})
  then_header (jar, ok u) next = next jar
  then_header (jar, err e) next = (jar, err e)

  unfoldable pub add_headers : Jar → List Value → Jar × Result ℕ (Unit {0})
  unfolding add_cookies split_semicolon
  add_headers jar [] = (jar, ok tt)
  add_headers jar (v ∷ vs) = elim (to_str v) [
    | none ↦ (jar, err bad_request_status)
    | some s ↦ then_header (add_cookies jar (split_semicolon s)) (λ jar'. add_headers jar' vs)
  ]

  abbrev pub loaded : Jar × Result ℕ (Unit {0}) → Option Jar × Result ℕ Jar
  loaded (jar, ok u) = (some jar, ok jar)
  loaded (jar, err e) = (some jar, err e)

  -- `Cookies::jar`, with the values of the `Cookie` headers
  unfoldable pub jar : Option Jar → List Value → Option Jar × Result ℕ Jar
  unfolding add_headers
  jar (some j) values = (some j, ok j)
  jar none values = loaded (add_headers crate.new_jar values)

  -- A jar is left, and the call gave it or was refused as a bad request.
  pub record IsLoaded (r : Option Jar × Result ℕ Jar) : Type 0 where
    pub kept : Jar
    pub stored : r.0 ≡ some kept
    pub given : (r.1 ≡ ok kept) ⊎ (r.1 ≡ err bad_request_status)
    pub again : (values : List Value) → jar r.0 values ≡ (some kept, ok kept)

  abbrev IsRefusal : Result ℕ (Unit {0}) → Type 0
  IsRefusal (ok u) = Unit
  IsRefusal (err e) = e ≡ bad_request_status

  add_cookies-IsRefusal : (j : Jar) (ss : List Bytes) → IsRefusal (add_cookies j ss).1
  unfolding add_cookies
  add_cookies-IsRefusal j [] = tt
  add_cookies-IsRefusal j (s ∷ ss) = elim (Option-cases (crate.parse_encoded (trim s))) [
    | inl bad ↦ rw (bad, add_cookies, IsRefusal) refl
    | inr (cookie, good) ↦
        rw (good, add_cookies) (add_cookies-IsRefusal (crate.add_original j cookie) ss)
  ]

  then_header-IsRefusal :
      (r : Jar × Result ℕ (Unit {0})) (next : Jar → Jar × Result ℕ (Unit {0}))
      → IsRefusal r.1
      → ((j : Jar) → IsRefusal (next j).1)
      → IsRefusal (then_header r next).1
  then_header-IsRefusal (j, ok u) next h f = f j
  then_header-IsRefusal (j, err e) next h f = h

  add_headers-IsRefusal : (j : Jar) (vs : List Value) → IsRefusal (add_headers j vs).1
  unfolding add_headers
  add_headers-IsRefusal j [] = tt
  add_headers-IsRefusal j (v ∷ vs) = elim (Option-cases (to_str v)) [
    | inl bad ↦ rw (bad, add_headers, IsRefusal) refl
    | inr (s, good) ↦
        rw (good, add_headers)
          (then_header-IsRefusal (add_cookies j (split_semicolon s)) (λ j'. add_headers j' vs)
            (add_cookies-IsRefusal j (split_semicolon s)) (λ j'. add_headers-IsRefusal j' vs))
  ]

  loaded-IsLoaded : (r : Jar × Result ℕ (Unit {0})) → IsRefusal r.1 → IsLoaded (loaded r)
  unfolding jar
  loaded-IsLoaded (j, ok u) h = record {
    kept = j;
    stored = refl;
    given = inl refl;
    again = λ vs. refl;
  }
  loaded-IsLoaded (j, err e) h = record {
    kept = j;
    stored = refl;
    given = inr (ap err h);
    again = λ vs. refl;
  }

  -- A call of `jar` leaves a jar behind, on a bad request too: it gives that jar or the status 400,
  -- and each later call gives that jar, whatever the headers are.
  pub jar-IsLoaded : (stored : Option Jar) (values : List Value) → IsLoaded (jar stored values)
  unfolding jar
  jar-IsLoaded (some j) values = record {
    kept = j;
    stored = refl;
    given = inl refl;
    again = λ vs. refl;
  }
  jar-IsLoaded none values =
      loaded-IsLoaded (add_headers crate.new_jar values)
        (add_headers-IsRefusal crate.new_jar values)
