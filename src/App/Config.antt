-- ===== src/App/Config.antt =====
-- tsukuyomi/src/app/config.rs: `Scope::{route, mount, modify}`, the configurations, and
-- `AppBase::create`. A step gives the application as it leaves it, on an error too. Handlers are of
-- one type `K`, in which a modifier stays, and `into` boxes them.
use tsukuyomi.Prelude.{
  ℕ, zero, suc, Option, none, some, List, [], ◌∷◌, ◌++◌, Bytes, eq_bytes, if◌then◌else◌, Result, ok,
  err, ◌>>=◌,
}
use tsukuyomi.Uri.Names.{UriError}
use tsukuyomi.Uri.Parse.{Uri, as_str, parse}
use tsukuyomi.Uri.Join.{join}
use tsukuyomi.Recognizer.Tree.{InsertError}
use tsukuyomi.Recognizer.Table.{Recognizer, asterisk_path, default, insert}
use tsukuyomi.Handler.{ModifyHandler, modify_none, modify_chain}
use tsukuyomi.Future.{map_err}
use tsukuyomi.App.Scope.{ScopeId, index, Scope, Scopes, new, scope_at, add_node}
use tsukuyomi.App.Handler.{ScopeData}
use tsukuyomi.App.Infer.{Endpoint}

pub record AppInner (H : Type 0) : Type 0 where
  pub recognizer : Recognizer (Endpoint H)
  pub scopes : Scopes (ScopeData H)

-- What `Error::custom` wraps; `missing_scope` stands for an index out of bounds.
pub data ConfigError : Type 0 where
  uri_error : UriError → ConfigError
  insert_error : InsertError → ConfigError
  custom : Bytes → ConfigError
  missing_scope : ConfigError

abbrev pub Configured : Type 0 → Type 0
Configured H = AppInner H × Result ConfigError (Unit {0})

-- The `?` between two steps.
abbrev pub then_step {ℓ} :
    {H : Type ℓ}
    → H × Result ConfigError (Unit {0})
    → (H → H × Result ConfigError (Unit {0}))
    → H × Result ConfigError (Unit {0})
then_step (app, ok u) next = next app
then_step (app, err e) next = (app, err e)

-- `IndexMut`: the node at an index, replaced.
unfoldable pub set_at {ℓ} : {A : Type ℓ} → ℕ → A → List A → List A
set_at i x [] = []
set_at zero x (y ∷ ys) = x ∷ ys
set_at (suc i) x (y ∷ ys) = y ∷ set_at i x ys

-- "*" is for the default handler of the scope.
abbrev pub route_uri : Bytes → Result ConfigError (Option Uri)
route_uri path =
    if eq_bytes path asterisk_path
    then ok none
    else map_err uri_error (parse path >>= λ uri. ok (some uri))

module _ {H : Type 0} where
  abbrev pub with_default : H → Scope (ScopeData H) → Scope (ScopeData H)
  with_default f s = record s { data' = record s.data' { default_handler = some f } }

  -- `self.scopes[self.scope_id].data.default_handler = Some(..)`, at a scope that is there
  unfoldable pub set_default :
      Scopes (ScopeData H) → ScopeId → Scope (ScopeData H) → H → Scopes (ScopeData H)
  unfolding set_at
  set_default scopes ScopeId.root s f = record scopes { root = with_default f s }
  set_default scopes (index i) s f = record scopes {
    nodes = set_at i (with_default f s) scopes.nodes;
  }

  -- The endpoint of a route in a scope.
  abbrev pub endpoint_at : Scope (ScopeData H) → Uri → H → Endpoint H
  endpoint_at scope uri f = record {
    scope = scope.id;
    ancestors = scope.ancestors ++ scope.id ∷ [];
    uri = uri;
    handler = f;
  }

  abbrev pub with_recognizer :
      AppInner H → Recognizer (Endpoint H) × Result InsertError (Unit {0}) → Configured H
  with_recognizer app (r, outcome) = (record app { recognizer = r }, map_err insert_error outcome)

  -- The two branches of `Scope::route`, once the path has been read.
  unfoldable pub add_route :
      AppInner H
      → ScopeId
      → Scope (ScopeData H)
      → Result ConfigError (Option Uri)
      → H
      → Configured H
  unfolding insert set_default join as_str
  add_route app id scope (err e) f = (app, err e)
  add_route app id scope (ok none) f =
      (record app { scopes = set_default app.scopes id scope f }, ok tt)
  add_route app id scope (ok (some uri)) f = elim (join scope.data'.prefix uri) [
    | err e ↦ (app, err (uri_error e))
    | ok uri' ↦ with_recognizer app (insert app.recognizer (as_str uri') (endpoint_at scope uri' f))
  ]

  unfoldable pub route : AppInner H → ScopeId → Bytes → H → Configured H
  unfolding add_route scope_at parse
  route app id path f = elim (route_uri path) [
    | err e ↦ (app, err e)
    | ok uri ↦ elim (scope_at app.scopes id) [
      | none ↦ (app, err missing_scope)
      | some scope ↦ add_route app id scope (ok uri) f
    ]
  ]

  abbrev pub scope_data : Uri → ScopeData H
  scope_data prefix = record { prefix = prefix; default_handler = none }

  abbrev pub enter :
      (ScopeId → AppInner H → Configured H)
      → AppInner H
      → Option (Scopes (ScopeData H) × ScopeId)
      → Configured H
  enter config app none = (app, err missing_scope)
  enter config app (some (scopes, id)) = config id (record app { scopes = scopes })

  -- `Scope::mount`
  unfoldable pub mount :
      AppInner H → ScopeId → Bytes → (ScopeId → AppInner H → Configured H) → Configured H
  unfolding add_node parse join scope_at
  mount app id path config = elim (parse path) [
    | err e ↦ (app, err (uri_error e))
    | ok uri ↦ elim (scope_at app.scopes id) [
      | none ↦ (app, err missing_scope)
      | some parent ↦ elim (join parent.data'.prefix uri) [
        | err e ↦ (app, err (uri_error e))
        | ok prefix ↦ enter config app (add_node app.scopes id (scope_data prefix))
      ]
    ]
  ]

-- The implementors of `Config`; a closure is the sequence of the steps that it makes, each with
-- `?`. `failing` is what `Result` gives for an `Err`.
pub data Config (K : Type 0) : Type 0 where
  nothing : Config K
  chain : Config K → Config K → Config K
  failing : ConfigError → Config K
  route_step : Bytes → K → Config K
  mount_step : Bytes → Config K → Config K
  modify_step : (K → K) → Config K → Config K

-- `Config for Option<S>` and `Config for Result<S, E>`
abbrev pub of_option : {K : Type 0} → Option (Config K) → Config K
of_option none = nothing
of_option (some config) = config

abbrev pub of_result : {K : Type 0} → Result ConfigError (Config K) → Config K
of_result (err e) = failing e
of_result (ok config) = config

module _ {K H : Type 0} (into : K → H) where
  unfoldable pub configure : Config K → ModifyHandler K K → ScopeId → AppInner H → Configured H
  unfolding route mount modify_chain
  configure nothing modifier id app = (app, ok tt)
  configure (chain left right) modifier id app =
      then_step (configure left modifier id app) (configure right modifier id)
  configure (failing e) modifier id app = (app, err e)
  configure (route_step path handler) modifier id app = route app id path (into (modifier handler))
  configure (mount_step prefix config) modifier id app =
      mount app id prefix (configure config modifier)
  configure (modify_step modifier' config) modifier id app =
      configure config (modify_chain modifier modifier') id app

  abbrev pub initial : AppInner H
  initial = record { recognizer = default; scopes = new (scope_data Uri.root) }

  abbrev pub created : Configured H → Result ConfigError (AppInner H)
  created (app, ok u) = ok app
  created (app, err e) = err e

  -- `AppBase::create`
  unfoldable pub create : Config K → Result ConfigError (AppInner H)
  unfolding new configure
  create config = created (configure config modify_none ScopeId.root initial)
