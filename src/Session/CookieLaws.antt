-- ===== src/Session/CookieLaws.antt =====
-- tsukuyomi-session/src/backend/cookie.rs: a session that is written is read back.
use tsukuyomi.Prelude.{
  ℕ, ◌≡◌, refl, sym, ap, ◌∙◌, Option, none, some, List, [], ◌∷◌, Bytes, Result, ok, err, ◌>>=◌,
  or_fail, inl, inr,
}
use tsukuyomi.Input.Cookies.{CookieCrate, bad_request_status, jar, IsLoaded, jar-IsLoaded}
use tsukuyomi.Session.{Entries, lookup, Inner, empty, entries, clear, get, set, remove}
use tsukuyomi.Session.Laws.{Op, write_op, remove_op, clear_op, step, run}
use tsukuyomi.Session.Cookie.{
  Security, Jars, CookieBackend, get_from, add_to, read_cookie, session_cookie, read, write,
}

module _ {Jar Cookie Key : Type 0} (jars : Jars Jar Cookie Key) where
  -- The documented behaviour of the jars, whichever the format, and of `serde_json` on maps.
  pub record IsJars : Type 0 where
    pub name_of : Cookie → Bytes
    pub name-build : (name value : Bytes) → name_of (jars.build name value) ≡ name
    pub value-build : (name value : Bytes) → jars.value (jars.build name value) ≡ value
    pub get-add :
        (security : Security Key) (j : Jar) (c : Cookie)
        → (c' : Cookie) × (get_from jars security (add_to jars security j c) (name_of c) ≡ some c')
          × (jars.value c' ≡ jars.value c)
    pub get-remove :
        (security : Security Key) (j : Jar) (name : Bytes)
        → get_from jars security (jars.remove_cookie j (jars.named name)) name ≡ none
    pub from-to :
        (es : Entries)
        → (es' : Entries) × (jars.from_str (jars.to_string es) ≡ some es')
          × ((name : Bytes) → lookup es' name ≡ lookup es name)

  -- A builder that changes neither the name nor the value of a cookie.
  pub record IsKeeping (laws : IsJars) (build : Cookie → Cookie) : Type 0 where
    pub name : (c : Cookie) → laws.name_of (build c) ≡ laws.name_of c
    pub value : (c : Cookie) → jars.value (build c) ≡ jars.value c

step-empty : (inner : Inner) (op : Op) → step inner op ≡ empty → inner ≡ empty
unfolding set remove
step-empty empty op e = refl
step-empty (entries es) (write_op name value) e = cc
step-empty (entries es) (remove_op name) e = cc
step-empty (entries es) clear_op e = cc
step-empty clear (write_op name value) e = e
step-empty clear (remove_op name) e = e
step-empty clear clear_op e = e

run-empty : (inner : Inner) (ops : List Op) → run inner ops ≡ empty → inner ≡ empty
unfolding run
run-empty inner [] e = e
run-empty inner (op ∷ ops) e = step-empty inner op (run-empty (step inner op) ops e)

module _ {Jar Cookie Key Value : Type 0} (jars : Jars Jar Cookie Key)
    (crate : CookieCrate Jar Cookie) (to_str : Value → Option Bytes) (values : List Value)
    (backend : CookieBackend Cookie Key) where
  -- The next request finds in the jar what the session gave.
  pub record IsSaved (stored : Option Jar) (inner : Inner) : Type 0 where
    pub found : Inner
    pub reads : read jars crate to_str values backend stored ≡ (stored, ok found)
    pub same : (name : Bytes) → get found name ≡ get inner name

  module _ (laws : IsJars jars) (keeps : IsKeeping jars laws backend.builder) where
    add_to-IsSaved :
        (j : Jar) (es : Entries)
        → IsSaved
            (some
              (add_to jars backend.security j (session_cookie jars crate to_str values backend es)))
            (entries es)
    unfolding read get
    add_to-IsSaved j es =
        let c : Cookie = session_cookie jars crate to_str values backend es in
        let name : laws.name_of c ≡ backend.cookie_name =
          keeps.name _ ∙ laws.name-build backend.cookie_name (jars.to_string es) in
        let value : jars.value c ≡ jars.to_string es =
          keeps.value _ ∙ laws.value-build backend.cookie_name (jars.to_string es) in
        let (c', there, kept) = laws.get-add backend.security j c in
        let at : get_from jars backend.security (add_to jars backend.security j c)
              backend.cookie_name
            ≡ some c' =
          ap (get_from jars backend.security (add_to jars backend.security j c)) (sym name)
          ∙ there in
        let (es', parses, agree) = laws.from-to es in
        record {
          found = entries es';
          reads =
              ap (λ r. (some (add_to jars backend.security j c), r))
                (ap (read_cookie jars crate to_str values) at
                  ∙ ap
                      (λ v.
                        or_fail bad_request_status (jars.from_str v) >>= λ map. ok (entries map))
                      (kept ∙ value)
                  ∙ ap (λ o. or_fail bad_request_status o >>= λ map. ok (entries map)) parses);
          same = agree;
        }

    remove_cookie-IsSaved :
        (j : Jar) → IsSaved (some (jars.remove_cookie j (jars.named backend.cookie_name))) clear
    unfolding read get
    remove_cookie-IsSaved j = record {
      found = empty;
      reads = rw (laws.get-remove backend.security j backend.cookie_name) refl;
      same = λ name. refl;
    }

    -- The write succeeds, and what it leaves is read back.
    pub record IsWritten (r : Option Jar × Result ℕ (Unit {0})) (inner : Inner) : Type 0 where
      pub succeeds : r.1 ≡ ok tt
      pub saved : IsSaved r.0 inner

    write-IsWritten :
        (inner inner0 : Inner) (j : Jar)
        → (inner ≡ empty → inner0 ≡ empty)
        → read_cookie jars crate to_str values
            (get_from jars backend.security j backend.cookie_name)
          ≡ ok inner0
        → IsWritten (write jars crate to_str values backend inner (some j)) inner
    unfolding write read get
    write-IsWritten empty inner0 j from e = record {
      succeeds = refl;
      saved = record {
        found = empty;
        reads = ap (λ r. (some j, r)) (e ∙ ap ok (from refl));
        same = λ name. refl;
      };
    }
    write-IsWritten (entries es) inner0 j from e = record {
      succeeds = refl;
      saved = add_to-IsSaved j es;
    }
    write-IsWritten clear inner0 j from e = record {
      succeeds = refl;
      saved = remove_cookie-IsSaved j;
    }

    abbrev after_load : Result ℕ Jar → Result ℕ Inner
    after_load result =
        (result >>= λ j. ok (get_from jars backend.security j backend.cookie_name))
        >>= read_cookie jars crate to_str values

    loaded-read :
        (r : Option Jar × Result ℕ Jar) (stored : Option Jar) (inner0 : Inner)
        → IsLoaded crate to_str r
        → ◌≡◌ {A = Option Jar × Result ℕ Inner} (r.0, after_load r.1) (stored, ok inner0)
        → (j : Jar) × (stored ≡ some j)
          × (read_cookie jars crate to_str values
                (get_from jars backend.security j backend.cookie_name)
              ≡ ok inner0)
    loaded-read r stored inner0 l e = elim l.given [
      | inl gives ↦
          (l.kept, sym (ap (λ x. x.0) e) ∙ l.stored, sym (ap after_load gives) ∙ ap (λ x. x.1) e)
      | inr fails ↦
          let no : err bad_request_status ≡ ok inner0 =
            sym (ap after_load fails) ∙ ap (λ x. x.1) e in
          cc
    ]

    -- Where a session is read, then used in whatever way, and written, with a builder that keeps
    -- the name and the value of the cookie: the write succeeds, and a later read of the cookies that
    -- it leaves succeeds and finds under each name what the session gave at the end, whichever of
    -- the three formats the backend has.
    pub write-read :
        (stored stored' : Option Jar) (inner : Inner) (ops : List Op)
        → read jars crate to_str values backend stored ≡ (stored', ok inner)
        → IsWritten (write jars crate to_str values backend (run inner ops) stored') (run inner ops)
    unfolding read
    write-read stored stored' inner ops e =
        let (j, there, found) =
          loaded-read (jar crate to_str stored values) stored' inner
            (jar-IsLoaded crate to_str stored values) e in
        rw there (write-IsWritten (run inner ops) inner j (run-empty inner ops) found)
