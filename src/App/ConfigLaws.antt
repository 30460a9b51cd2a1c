-- ===== src/App/ConfigLaws.antt =====
-- tsukuyomi/src/app/config.rs: `configure` and `AppBase::create` keep the application's invariant and
-- add exactly the routes that the configuration declares.
use tsukuyomi.Prelude.{
  ◌≡◌, refl, sym, ap, ◌∙◌, subst, Option, none, some, none-some, [], ◌∷◌, ◌++◌, inl, inr, Result,
  ok, err, Result-cases, ◌>>=◌,
}
use tsukuyomi.Uri.Parse.{Uri}
use tsukuyomi.Uri.Join.{join}
use tsukuyomi.Recognizer.Built.{default-IsBuilt}
use tsukuyomi.Future.{map_err}
use tsukuyomi.Handler.{ModifyHandler, modify_none, modify_chain}
use tsukuyomi.App.Scope.{ScopeId, Scope, scope_at, new}
use tsukuyomi.App.Handler.{ScopeData}
use tsukuyomi.App.ScopeLaws.{new-AreScopes}
use tsukuyomi.App.Config.{
  AppInner, ConfigError, uri_error, Configured, then_step, route_uri, scope_data, Config, nothing,
  chain, failing, route_step, mount_step, modify_step, configure, initial, created, create,
}
use tsukuyomi.App.Declared.{Routes, declared_at, declared, kept_routes, boxed}
use tsukuyomi.App.RouteLaws.{
  IsApp, Adds, Adds-nothing, Adds-trans, Declares, route-Declares, map-append, mount-Mounted,
}

pub ok_injective {ℓ κ} :
    {E : Type κ} {A : Type ℓ} {x y : A} → ◌≡◌ {A = Result E A} (ok x) (ok y) → x ≡ y
ok_injective e = cc

module _ {H : Type 0} where
  then_step-ok :
      (r : Configured H) (next : AppInner H → Configured H) (app' : AppInner H)
      → then_step r next ≡ (app', ok tt)
      → (app : AppInner H) × (r ≡ (app, ok tt)) × (next app ≡ (app', ok tt))
  then_step-ok (app, ok u) next app' e = (app, refl, e)
  then_step-ok (app, err x) next app' e = cc

module _ {K H : Type 0} (into : K → H) where
  -- What a configuration declares is what the step adds.
  abbrev pub Implements : Result ConfigError (Routes K) → AppInner H → AppInner H → Type 0
  Implements routes app app' = (rs : Routes K) × (routes ≡ ok rs) × Adds app app' (boxed into rs)

  Implements-chain :
      {x y z : AppInner H} (ls rs : Result ConfigError (Routes K))
      → Implements ls x y
      → Implements rs y z
      → Implements (ls >>= λ l. rs >>= λ r. ok (l ++ r)) x z
  Implements-chain {x = x} {y} {z} ls rs (l, le, a) (r, re, b) =
      (l ++ r, rw (le, re) refl, subst (Adds x z) (sym (map-append _ l r)) (Adds-trans a b))

  Implements-route :
      {x y : AppInner H} (prefix : Uri) (f : K) (read : Result ConfigError (Option Uri))
      → Declares prefix (into f) read x y
      → Implements (read >>= declared_at prefix f) x y
  Implements-route {x = x} {y} prefix f (err e) (rs, declares, a) = cc
  Implements-route {x = x} {y} prefix f (ok none) (rs, declares, a) =
      ([], refl, subst (Adds x y) (sym (ok_injective declares)) a)
  Implements-route {x = x} {y} prefix f (ok (some uri)) (rs, declares, a) =
      elim (Result-cases (join prefix uri)) [
        | inl (e, bad) ↦ absurd (cc (rw bad at declares))
        | inr (uri', joined) ↦
            let same = ok_injective (rw joined at declares) in
            ((uri', f) ∷ [], rw joined refl, subst (Adds x y) (sym same) a)
      ]

  -- A configuration that succeeds on an application keeps the invariant, leaves every scope there,
  -- and adds exactly the routes that it declares under the prefix of the scope, in order.
  pub configure-Implements :
      (config : Config K) (modifier : ModifyHandler K K) (id : ScopeId) (app app' : AppInner H)
      (s : Scope (ScopeData H))
      → IsApp app
      → scope_at app.scopes id ≡ some s
      → configure into config modifier id app ≡ (app', ok tt)
      → Implements (declared s.data'.prefix modifier config) app app'
  unfolding configure declared modify_chain
  configure-Implements nothing modifier id app app' s h at e =
      ([], refl, subst (λ a. Adds app a []) (ap (λ (p : Configured H). p.0) e) (Adds-nothing app h))
  configure-Implements (failing x) modifier id app app' s h at e = cc
  configure-Implements (chain l r) modifier id app app' s h at e =
      let (mid, el, er) =
        then_step-ok (configure into l modifier id app) (configure into r modifier id) app' e in
      let first = configure-Implements l modifier id app mid s h at el in
      let (t, at', same) = first.2.extends.each id s at in
      Implements-chain (declared s.data'.prefix modifier l) (declared s.data'.prefix modifier r)
        first
        (subst (λ p. Implements (declared p modifier r) mid app') (sym same.prefix)
          (configure-Implements r modifier id mid app' t first.2.is_app at' er))
  configure-Implements (route_step path f) modifier id app app' s h at e =
      Implements-route s.data'.prefix (modifier f) (route_uri path)
        (route-Declares app app' id s path (into (modifier f)) h at e)
  configure-Implements (modify_step modifier' config) modifier id app app' s h at e =
      configure-Implements config (λ f. modifier' (modifier f)) id app app' s h at e
  configure-Implements (mount_step path config) modifier id app app' s h at e =
      let m = mount-Mounted app app' id s path (configure into config modifier) h at e in
      let (rs, declares, a) =
        configure-Implements config modifier m.child (record app { scopes = m.scopes }) app' m.scope
          m.adds.is_app m.there m.configured in
      (
        rs,
        ap (λ r. map_err uri_error r >>= λ p. declared p modifier config) m.joined
            ∙ ap (λ p. declared p modifier config) (sym m.prefixed)
            ∙ declares,
        Adds-trans m.adds a,
      )

  initial-IsApp : IsApp (initial into)
  initial-IsApp = record {
    recognizer = default-IsBuilt;
    scopes = new-AreScopes (scope_data Uri.root);
    entries = λ i key e at. absurd (none-some at);
  }

  created-ok : (r : Configured H) (app : AppInner H) → created into r ≡ ok app → r ≡ (app, ok tt)
  created-ok (a, ok u) app e = ap (λ x. (x, ok tt)) (ok_injective e)
  created-ok (a, err x) app e = cc

  -- What `create` makes of a configuration.
  pub record IsCreated (config : Config K) (app : AppInner H) : Type 0 where
    pub is_app : IsApp app
    pub routes : Routes K
    pub declares : declared Uri.root (λ f. f) config ≡ ok routes
    pub keeps : kept_routes app.recognizer ≡ boxed into routes

  -- An application that `create` makes satisfies the invariant, and its endpoints are exactly the
  -- routes that the configuration declares, in order.
  pub create-IsCreated :
      (config : Config K) (app : AppInner H) → create into config ≡ ok app → IsCreated config app
  unfolding create new
  create-IsCreated config app e =
      let (rs, declares, a) =
        configure-Implements config modify_none ScopeId.root (initial into) app
          (initial into).scopes.root initial-IsApp refl
          (created-ok (configure into config modify_none ScopeId.root (initial into)) app e) in
      record { is_app = a.is_app; routes = rs; declares = declares; keeps = a.routes_kept }
