-- ===== src/App/AnswerLaws.antt =====
-- tsukuyomi/src/app.rs and tsukuyomi/src/app/service.rs: every path has an answer, and a declared
-- route is answered by its handler.
use tsukuyomi.Prelude.{
  ℕ, zero, suc, ◌≡◌, refl, sym, ap, ◌∙◌, subst, Option, none, some, some_injective, List, [], ◌∷◌,
  map, Bytes, All, get_elem?, Result, ok, err,
}
use tsukuyomi.Uri.Parse.{Uri, as_str}
use tsukuyomi.Recognizer.Tree.{Candidates}
use tsukuyomi.Recognizer.Routes.{IsPlain}
use tsukuyomi.Recognizer.Recognize.{Captures, RecognizeError}
use tsukuyomi.Recognizer.Table.{entry_at, get, recognize}
use tsukuyomi.Recognizer.Routing.{recognize-static}
use tsukuyomi.Recognizer.Total.{IsReply, found_value, found_nothing, found_part, recognize-IsReply}
use tsukuyomi.App.Scope.{ScopeId, Scope, scope_at}
use tsukuyomi.App.Handler.{ScopeData, find_default_handler}
use tsukuyomi.App.HandlerLaws.{find_default_handler_ends}
use tsukuyomi.App.Infer.{Endpoint}
use tsukuyomi.App.Config.{AppInner, Config, create}
use tsukuyomi.App.RouteLaws.{IsApp}
use tsukuyomi.App.Declared.{Routes, kept_route, kept_routes, boxed, declared}
use tsukuyomi.App.ConfigLaws.{ok_injective, create-IsCreated}
use tsukuyomi.App.FindLaws.{Grounded, entry-Grounded, infer_scope-IsInferred}
use tsukuyomi.App.Find.{
  and_then, endpoints_of, push_value, answer_of, find_endpoint, Recognized, fallback, handler_of,
  process_recognize,
}

get_elem?-map :
    {A B : Type 0} (f : A → B) (xs : List A) (i : ℕ) {y : B}
    → get_elem? (map f xs) i ≡ some y
    → (x : A) × (get_elem? xs i ≡ some x) × (f x ≡ y)
get_elem?-map f [] i e = cc
get_elem?-map f (x ∷ xs) zero e = (x, refl, some_injective e)
get_elem?-map f (x ∷ xs) (suc i) e = get_elem?-map f xs i e

map-get_elem? :
    {A B : Type 0} (f : A → B) (xs : List A) (i : ℕ) {x : A}
    → get_elem? xs i ≡ some x
    → get_elem? (map f xs) i ≡ some (f x)
map-get_elem? f [] i e = cc
map-get_elem? f (x ∷ xs) zero e = ap (λ y. some (f y)) (some_injective e)
map-get_elem? f (x ∷ xs) (suc i) e = map-get_elem? f xs i e

module _ {H : Type 0} where
  get_elem?-entry_at :
      (m : List (Bytes × Endpoint H)) (i : ℕ) {e : Endpoint H}
      → entry_at m i ≡ some e
      → (key : Bytes) × (get_elem? m i ≡ some (key, e))
  get_elem?-entry_at [] i d = cc
  get_elem?-entry_at ((k, v) ∷ m) zero d = (k, ap (λ x. some (k, x)) (some_injective d))
  get_elem?-entry_at ((k, v) ∷ m) (suc i) d = get_elem?-entry_at m i d

  push_value-Grounded :
      (app : AppInner H) (v : Option (Endpoint H)) (es : List (Endpoint H))
      → ((e : Endpoint H) → v ≡ some e → Grounded app.scopes e)
      → All (Grounded app.scopes) es
      → All (Grounded app.scopes) (push_value v es)
  push_value-Grounded app none es g h = h
  push_value-Grounded app (some e) es g h = (g e refl, h)

  endpoints_of-Grounded :
      (app : AppInner H) (cs : Candidates)
      → IsApp app
      → All (Grounded app.scopes) (endpoints_of app.recognizer cs)
  unfolding endpoints_of get
  endpoints_of-Grounded app [] h = tt
  endpoints_of-Grounded app (i ∷ is) h =
      push_value-Grounded app (get app.recognizer i) (endpoints_of app.recognizer is)
        (λ e at.
          let (key, there) = get_elem?-entry_at app.recognizer.inner i at in
          entry-Grounded app key e h (h.entries i key e there))
        (endpoints_of-Grounded app is h)

  -- What a path can be answered with: an endpoint that was registered, or a scope.
  pub data IsFound (app : AppInner H)
      : Option (Result (Scope (ScopeData H)) (Endpoint H)) → Type 0 where
    an_endpoint :
        (i : ℕ) (key : Bytes) (e : Endpoint H)
        → get_elem? app.recognizer.inner i ≡ some (key, e)
        → IsFound app (some (ok e))
    a_scope :
        (s : Scope (ScopeData H)) → scope_at app.scopes s.id ≡ some s → IsFound app (some (err s))

  answer_of-IsFound :
      (app : AppInner H) (path : Bytes) (result : Result RecognizeError (Endpoint H))
      → IsApp app
      → IsReply app.recognizer.inner result
      → IsFound app (answer_of app path result)
  unfolding answer_of scope_at
  answer_of-IsFound app path result h (found_value {v = v} i key at) = an_endpoint i key v at
  answer_of-IsFound app path result h found_nothing = a_scope app.scopes.root (
      subst (λ i. scope_at app.scopes i ≡ some app.scopes.root)
        (sym (h.scopes.each ScopeId.root app.scopes.root refl).same_id) refl)
  answer_of-IsFound app path result h (found_part {cs = cs}) =
      let (s, e, inferred) =
        infer_scope-IsInferred app path (endpoints_of app.recognizer cs) h.scopes
          (endpoints_of-Grounded app cs h) in
      rw e (a_scope s inferred.there)

  -- In an application that satisfies the invariant, the search for a path ends with a registered
  -- endpoint or with a scope of the application: no index and no `expect` fails.
  find_endpoint-IsFound :
      (app : AppInner H) (path : Bytes) (captures : Option Captures)
      → IsApp app
      → IsFound app (find_endpoint app path captures).0
  unfolding find_endpoint
  find_endpoint-IsFound app path captures h =
      answer_of-IsFound app path (recognize app.recognizer path captures).0 h
        (recognize-IsReply app.recognizer path captures h.recognizer)

  -- What `process_recognize` ends with, from what the search of the path found: the endpoint that was
  -- found, which is registered, and its handler; or the default handler of the scope that was found,
  -- which is one of the application, or 404 where that has none.
  pub data IsRecognized (app : AppInner H) (captures : Option Captures)
      (found : Option (Result (Scope (ScopeData H)) (Endpoint H)))
      : Option (Recognized H × Result ℕ H) → Type 0 where
    by_endpoint :
        (i : ℕ) (key : Bytes) (e : Endpoint H)
        → found ≡ some (ok e)
        → get_elem? app.recognizer.inner i ≡ some (key, e)
        → IsRecognized app captures found
            (some (record { endpoint = some e; captures = captures }, ok e.handler))
    by_default :
        (s : Scope (ScopeData H)) (f : H)
        → found ≡ some (err s)
        → scope_at app.scopes s.id ≡ some s
        → find_default_handler app.scopes s.id ≡ some (some f)
        → IsRecognized app captures found
            (some (record { endpoint = none; captures = captures }, ok f))
    by_status :
        (s : Scope (ScopeData H))
        → found ≡ some (err s)
        → scope_at app.scopes s.id ≡ some s
        → find_default_handler app.scopes s.id ≡ some none
        → IsRecognized app captures found
            (some (record { endpoint = none; captures = captures }, err 404))

  scope-IsRecognized :
      (app : AppInner H) (captures : Option Captures) (s : Scope (ScopeData H)) (f : Option H)
      → scope_at app.scopes s.id ≡ some s
      → find_default_handler app.scopes s.id ≡ some f
      → IsRecognized app captures
          (some (err s))
          (some (record { endpoint = none; captures = captures }, fallback f))
  scope-IsRecognized app captures s none at e = by_status s refl at e
  scope-IsRecognized app captures s (some f) at e = by_default s f refl at e

  handler_of-IsRecognized :
      (app : AppInner H) (captures : Option Captures)
      (found : Option (Result (Scope (ScopeData H)) (Endpoint H)))
      → IsApp app
      → IsFound app found
      → IsRecognized app captures found (and_then found (λ result. handler_of app result captures))
  unfolding handler_of
  handler_of-IsRecognized app captures found h (an_endpoint i key e at) =
      by_endpoint i key e refl at
  handler_of-IsRecognized app captures found h (a_scope s at) =
      let (f, e) = find_default_handler_ends app.scopes s.id s h.scopes at in
      rw e (scope-IsRecognized app captures s f at e)

  -- Every path is given a handler or 404: that of the endpoint that was found, which is registered;
  -- or the default handler of the scope that was found, which is one of the application, or 404 where
  -- the search from that scope finds none.
  pub process_recognize-IsRecognized :
      (app : AppInner H) (path : Bytes)
      → IsApp app
      → IsRecognized app
          (find_endpoint app path none).1
          (find_endpoint app path none).0
          (process_recognize app path)
  unfolding process_recognize
  process_recognize-IsRecognized app path h =
      handler_of-IsRecognized app (find_endpoint app path none).1 (find_endpoint app path none).0 h
        (find_endpoint-IsFound app path none h)

  -- The endpoint that is found has this URI and this handler.
  pub record IsAnswered (app : AppInner H) (path : Bytes) (uri : Uri) (f : H) : Type 0 where
    pub endpoint : Endpoint H
    pub uri_of : endpoint.uri ≡ uri
    pub handler_of_uri : endpoint.handler ≡ f
    pub found :
        (captures : Option Captures)
        → find_endpoint app path captures ≡ (some (ok endpoint), captures)
    pub recognized :
        process_recognize app path
        ≡ some (record { endpoint = some endpoint; captures = none }, ok f)

  entry-IsAnswered :
      (app : AppInner H) (i : ℕ) (key : Bytes) (e : Endpoint H)
      → IsApp app
      → get_elem? app.recognizer.inner i ≡ some (key, e)
      → All IsPlain key
      → IsAnswered app key e.uri e.handler
  unfolding find_endpoint answer_of process_recognize handler_of
  entry-IsAnswered app i key e h at plain =
      let answers : (captures : Option Captures)
          → recognize app.recognizer key captures ≡ (ok e, captures) =
        λ captures. recognize-static app.recognizer i key e captures h.recognizer at plain in
      record {
        endpoint = e;
        uri_of = refl;
        handler_of_uri = refl;
        found = λ captures.
            ap
              (λ (p : Result RecognizeError (Endpoint H) × Option Captures).
                (answer_of app key p.0, p.1))
              (answers captures);
        recognized =
            ap
              (λ (p : Result RecognizeError (Endpoint H) × Option Captures).
                and_then (answer_of app key p.0) (λ result. handler_of app result p.1))
              (answers none);
      }

module _ {K H : Type 0} (into : K → H) where
  -- A route without wildcards that the configuration declares is answered, in the application that
  -- `create` makes, by the handler it declares, with the modifiers around it, and without captures.
  pub create-IsAnswered :
      (config : Config K) (app : AppInner H) (rs : Routes K) (i : ℕ) (uri : Uri) (f : K)
      → create into config ≡ ok app
      → declared Uri.root (λ g. g) config ≡ ok rs
      → get_elem? rs i ≡ some (uri, f)
      → All IsPlain (as_str uri)
      → IsAnswered app (as_str uri) uri (into f)
  create-IsAnswered config app rs i uri f made declares at plain =
      let c = create-IsCreated into config app made in
      let same = ok_injective (sym declares ∙ c.declares) in
      let kept : get_elem? (kept_routes app.recognizer) i ≡ some (uri, into f) =
        ap (λ l. get_elem? l i) (c.keeps ∙ ap (boxed into) (sym same))
        ∙ map-get_elem? (λ (r : Uri × K). (r.0, into r.1)) rs i at in
      let ((key, e), there, alike) = get_elem?-map kept_route app.recognizer.inner i kept in
      let key_uri : key ≡ as_str uri =
        (c.is_app.entries i key e there).key_uri ∙ ap (λ (r : Uri × H). as_str r.0) alike in
      let answered =
        entry-IsAnswered app i key e c.is_app there (subst (All IsPlain) (sym key_uri) plain) in
      subst (λ (r : Uri × H). IsAnswered app (as_str uri) r.0 r.1) alike
        (subst (λ k. IsAnswered app k e.uri e.handler) key_uri answered)
