-- ===== src/App/RouteLaws.antt =====
-- tsukuyomi/src/app/config.rs: what a success of `route` and of `mount` leaves.
use tsukuyomi.Prelude.{
  ℕ, ◌≡◌, refl, sym, ap, ◌∙◌, subst, Option, none, some, List, [], ◌∷◌, ◌++◌, map, append-nil,
  append_assoc, Bytes, get_elem?, inl, inr, Option-cases, Result, ok, err, Result-cases, ◌>>=◌,
}
use tsukuyomi.Uri.Parse.{Uri, as_str, parse}
use tsukuyomi.Uri.Names.{UriError}
use tsukuyomi.Uri.Join.{join}
use tsukuyomi.Recognizer.Tree.{InsertError}
use tsukuyomi.Recognizer.Table.{Recognizer, insert}
use tsukuyomi.Recognizer.Built.{IsBuilt, insert-IsBuilt, inner-insert, get_elem?-snoc}
use tsukuyomi.App.Scope.{ScopeId, Scope, Scopes, scope_at, add_node}
use tsukuyomi.App.Handler.{ScopeData}
use tsukuyomi.App.Infer.{Endpoint}
use tsukuyomi.App.ScopeLaws.{AreScopes, add_node-AreScopes, scope_at-add_node, add_node-child}
use tsukuyomi.App.SetLaws.{
  IsSame-refl, Extends, Extends-refl, Extends-trans, set_default-Extends, set_default-AreScopes,
}
use tsukuyomi.App.Config.{
  AppInner, ConfigError, Configured, route_uri, set_default, endpoint_at, with_recognizer,
  add_route, route, scope_data, enter, mount,
}
use tsukuyomi.App.Declared.{Routes, declared_at, kept_route, kept_routes}

pub map-append {ℓ κ} :
    {A : Type ℓ} {B : Type κ} (f : A → B) (xs ys : List A) → map f (xs ++ ys) ≡ map f xs ++ map f ys
map-append f [] ys = refl
map-append f (x ∷ xs) ys = ap (λ l. f x ∷ l) (map-append f xs ys)

module _ {H : Type 0} where
  -- An endpoint is kept under its URI, which is under the prefix of its scope, and its ancestors
  -- are those of the scope and the scope.
  pub record IsEntry (scopes : Scopes (ScopeData H)) (key : Bytes) (e : Endpoint H) : Type 0 where
    pub key_uri : key ≡ as_str e.uri
    pub home :
        (s : Scope (ScopeData H)) × (scope_at scopes e.scope ≡ some s)
        × (e.ancestors ≡ s.ancestors ++ s.id ∷ [])
        × ((u : Uri) × (join s.data'.prefix u ≡ ok e.uri))

  pub record IsApp (app : AppInner H) : Type 0 where
    pub recognizer : IsBuilt app.recognizer
    pub scopes : AreScopes app.scopes
    pub entries :
        (i : ℕ) (key : Bytes) (e : Endpoint H)
        → get_elem? app.recognizer.inner i ≡ some (key, e)
        → IsEntry app.scopes key e

  -- What a step leaves: an application, with the scopes that there were and these routes added.
  pub record Adds (app app' : AppInner H) (routes : Routes H) : Type 0 where
    pub is_app : IsApp app'
    pub extends : Extends app.scopes app'.scopes
    pub routes_kept : kept_routes app'.recognizer ≡ kept_routes app.recognizer ++ routes

  pub Adds-nothing : (app : AppInner H) → IsApp app → Adds app app []
  Adds-nothing app h = record {
    is_app = h;
    extends = Extends-refl app.scopes;
    routes_kept = sym (append-nil _);
  }

  pub Adds-trans :
      {x y z : AppInner H} {rs qs : Routes H} → Adds x y rs → Adds y z qs → Adds x z (rs ++ qs)
  Adds-trans {x = x} {y} {z} {rs} {qs} a b = record {
    is_app = b.is_app;
    extends = Extends-trans a.extends b.extends;
    routes_kept =
        b.routes_kept
        ∙ ap (λ l. l ++ qs) a.routes_kept
        ∙ append_assoc (kept_routes x.recognizer) rs qs;
  }

  IsEntry-Extends :
      {x y : Scopes (ScopeData H)} (key : Bytes) (e : Endpoint H)
      → Extends x y
      → IsEntry x key e
      → IsEntry y key e
  IsEntry-Extends key e ext h =
      let (s, at, line, (u, joined)) = h.home in
      let (t, at', same) = ext.each e.scope s at in
      record {
        key_uri = h.key_uri;
        home = (
          t,
          at',
          line ∙ ap (λ l. l ++ s.id ∷ []) same.ancestors ∙ ap (λ i. t.ancestors ++ i ∷ []) same.id,
          (u, subst (λ p. join p u ≡ ok e.uri) same.prefix joined),
        );
      }

  -- Other scopes, of which the old ones are still there, keep the invariant of the application.
  pub scopes-Adds :
      (app : AppInner H) (scopes : Scopes (ScopeData H))
      → IsApp app
      → AreScopes scopes
      → Extends app.scopes scopes
      → Adds app (record app { scopes = scopes }) []
  scopes-Adds app scopes h are ext = record {
    is_app = record {
      recognizer = h.recognizer;
      scopes = are;
      entries = λ i key e at. IsEntry-Extends key e ext (h.entries i key e at);
    };
    extends = ext;
    routes_kept = sym (append-nil _);
  }

  pub default-Adds :
      (app : AppInner H) (id : ScopeId) (s : Scope (ScopeData H)) (f : H)
      → IsApp app
      → scope_at app.scopes id ≡ some s
      → Adds app (record app { scopes = set_default app.scopes id s f }) []
  default-Adds app id s f h at =
      scopes-Adds app (set_default app.scopes id s f) h
        (set_default-AreScopes app.scopes id s f h.scopes at)
        (set_default-Extends app.scopes id s f at)

  -- A success of `insert` with the endpoint of a scope.
  pub insert-Adds :
      (app : AppInner H) (id : ScopeId) (s : Scope (ScopeData H)) (u uri : Uri) (f : H)
      → IsApp app
      → scope_at app.scopes id ≡ some s
      → join s.data'.prefix u ≡ ok uri
      → (insert app.recognizer (as_str uri) (endpoint_at s uri f)).1 ≡ ok tt
      → Adds app
          (record app { recognizer = (insert app.recognizer (as_str uri) (endpoint_at s uri f)).0 })
          ((uri, f) ∷ [])
  insert-Adds app id s u uri f h at joined fine =
      let e = endpoint_at s uri f in
      let inner = inner-insert app.recognizer (as_str uri) e h.recognizer fine in
      let here : scope_at app.scopes s.id ≡ some s =
        subst (λ i. scope_at app.scopes i ≡ some s) (sym (h.scopes.each id s at).same_id) at in
      record {
        is_app = record {
          recognizer = insert-IsBuilt app.recognizer (as_str uri) e h.recognizer fine;
          scopes = h.scopes;
          entries = λ i key e' there.
              elim (get_elem?-snoc app.recognizer.inner (as_str uri, e) i (rw inner at there)) [
                | inl old ↦ h.entries i key e' old
                | inr (last, same) ↦
                    subst (λ (p : Bytes × Endpoint H). IsEntry app.scopes p.0 p.1) same
                      (record { key_uri = refl; home = (s, here, refl, (u, joined)) })
              ];
        };
        extends = Extends-refl app.scopes;
        routes_kept =
            ap (map kept_route) inner
            ∙ map-append kept_route app.recognizer.inner ((as_str uri, e) ∷ []);
      }

  -- The route that a step declares for a scope with this prefix, from the path that was read.
  abbrev pub Declares : Uri → H → Result ConfigError (Option Uri) → AppInner H → AppInner H → Type 0
  Declares prefix f read app app' =
      (routes : Routes H) × ((read >>= declared_at prefix f) ≡ ok routes) × Adds app app' routes

  with_recognizer-ok :
      (app app' : AppInner H) (x : Recognizer (Endpoint H) × Result InsertError (Unit {0}))
      → with_recognizer app x ≡ (app', ok tt)
      → (x.1 ≡ ok tt) × (record app { recognizer = x.0 } ≡ app')
  with_recognizer-ok app app' (r, ok t) e = (refl, ap (λ (p : Configured H). p.0) e)
  with_recognizer-ok app app' (r, err x) e = cc

  inserted-Declares :
      (app app' : AppInner H) (id : ScopeId) (s : Scope (ScopeData H)) (u uri : Uri) (f : H)
      → IsApp app
      → scope_at app.scopes id ≡ some s
      → join s.data'.prefix u ≡ ok uri
      → with_recognizer app (insert app.recognizer (as_str uri) (endpoint_at s uri f))
        ≡ (app', ok tt)
      → Declares s.data'.prefix f (ok (some u)) app app'
  inserted-Declares app app' id s u uri f h at joined e =
      let (fine, same) =
        with_recognizer-ok app app' (insert app.recognizer (as_str uri) (endpoint_at s uri f)) e in
      (
        (uri, f) ∷ [],
        rw joined refl,
        subst (λ a. Adds app a ((uri, f) ∷ [])) same
            (insert-Adds app id s u uri f h at joined fine),
      )

  add_route-Declares :
      (app app' : AppInner H) (id : ScopeId) (s : Scope (ScopeData H)) (f : H)
      (read : Result ConfigError (Option Uri))
      → IsApp app
      → scope_at app.scopes id ≡ some s
      → add_route app id s read f ≡ (app', ok tt)
      → Declares s.data'.prefix f read app app'
  unfolding add_route
  add_route-Declares app app' id s f (err x) h at e = cc
  add_route-Declares app app' id s f (ok none) h at e = (
    [],
    refl,
    subst (λ a. Adds app a []) (ap (λ (p : Configured H). p.0) e) (default-Adds app id s f h at),
  )
  add_route-Declares app app' id s f (ok (some u)) h at e =
      elim (Result-cases (join s.data'.prefix u)) [
        | inl (x, bad) ↦ absurd (cc (rw (bad, add_route) at e))
        | inr (uri, joined) ↦
            inserted-Declares app app' id s u uri f h at joined (rw (joined, add_route) at e)
      ]

  route-read :
      (app : AppInner H) (id : ScopeId) (s : Scope (ScopeData H)) (path : Bytes) (f : H)
      → scope_at app.scopes id ≡ some s
      → route app id path f ≡ add_route app id s (route_uri path) f
  unfolding route add_route
  route-read app id s path f at = elim (Result-cases (route_uri path)) [
    | inl (x, bad) ↦ rw (bad, route, add_route) refl
    | inr (uri, good) ↦ rw (good, at, route) refl
  ]

  pub route-Declares :
      (app app' : AppInner H) (id : ScopeId) (s : Scope (ScopeData H)) (path : Bytes) (f : H)
      → IsApp app
      → scope_at app.scopes id ≡ some s
      → route app id path f ≡ (app', ok tt)
      → Declares s.data'.prefix f (route_uri path) app app'
  unfolding route
  route-Declares app app' id s path f h at e =
      add_route-Declares app app' id s f (route_uri path) h at
        (sym (route-read app id s path f at) ∙ e)

  -- The prefix of the scope that `mount` adds.
  abbrev pub mount_prefix : Scope (ScopeData H) → Bytes → Result UriError Uri
  mount_prefix parent path = parse path >>= λ uri. join parent.data'.prefix uri

  -- A success of `mount`: the scope that is added, in which the configuration succeeds.
  pub record Mounted (app app' : AppInner H) (s : Scope (ScopeData H)) (path : Bytes)
      (config : ScopeId → AppInner H → Configured H) : Type 0 where
    pub prefix : Uri
    pub joined : mount_prefix s path ≡ ok prefix
    pub scopes : Scopes (ScopeData H)
    pub child : ScopeId
    pub adds : Adds app (record app { scopes = scopes }) []
    pub scope : Scope (ScopeData H)
    pub there : scope_at scopes child ≡ some scope
    pub prefixed : scope.data'.prefix ≡ prefix
    pub configured : config child (record app { scopes = scopes }) ≡ (app', ok tt)

  add_node-Adds :
      (app : AppInner H) (scopes : Scopes (ScopeData H)) (id child : ScopeId) (x : ScopeData H)
      → IsApp app
      → add_node app.scopes id x ≡ some (scopes, child)
      → Adds app (record app { scopes = scopes }) []
  add_node-Adds app scopes id child x h e =
      scopes-Adds app scopes h (add_node-AreScopes app.scopes scopes id child x h.scopes e)
        (record {
          each =
              λ j t at. (t, scope_at-add_node app.scopes scopes id child j x t e at, IsSame-refl t);
        })

  entered-Mounted :
      (app app' : AppInner H) (id : ScopeId) (s : Scope (ScopeData H)) (path : Bytes) (prefix : Uri)
      (config : ScopeId → AppInner H → Configured H)
      → IsApp app
      → mount_prefix s path ≡ ok prefix
      → enter config app (add_node app.scopes id (scope_data prefix)) ≡ (app', ok tt)
      → Mounted app app' s path config
  entered-Mounted app app' id s path prefix config h joined e =
      elim (Option-cases (add_node app.scopes id (scope_data prefix))) [
        | inl missing ↦ absurd (cc (rw missing at e))
        | inr ((scopes, child), added) ↦
            let (p, parent, known, here) =
              add_node-child app.scopes scopes id child (scope_data prefix) h.scopes added in
            record {
              prefix = prefix;
              joined = joined;
              scopes = scopes;
              child = child;
              adds = add_node-Adds app scopes id child (scope_data prefix) h added;
              scope = record {
                id = child;
                ancestors = p.ancestors ++ p.id ∷ [];
                data' = scope_data prefix;
              };
              there = here;
              prefixed = refl;
              configured = rw added at e;
            }
      ]

  pub mount-Mounted :
      (app app' : AppInner H) (id : ScopeId) (s : Scope (ScopeData H)) (path : Bytes)
      (config : ScopeId → AppInner H → Configured H)
      → IsApp app
      → scope_at app.scopes id ≡ some s
      → mount app id path config ≡ (app', ok tt)
      → Mounted app app' s path config
  unfolding mount
  mount-Mounted app app' id s path config h at e = elim (Result-cases (parse path)) [
    | inl (x, bad) ↦ absurd (cc (rw (bad, mount) at e))
    | inr (u, parsed) ↦ elim (Result-cases (join s.data'.prefix u)) [
      | inl (x, bad) ↦ absurd (cc (rw (parsed, at, bad, mount) at e))
      | inr (prefix, joined) ↦
          entered-Mounted app app' id s path prefix config h (rw (parsed, joined) refl)
            (rw (parsed, at, joined, mount) at e)
    ]
  ]
