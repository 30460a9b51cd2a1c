-- ===== src/App/Tests.antt =====
-- tsukuyomi/src/app/scope.rs and tsukuyomi/src/app.rs: runs of the model on concrete scopes, and
-- witnesses.
use tsukuyomi.Prelude.{ℕ, ◌≡◌, refl, none, some, [], ◌∷◌, codes}
use tsukuyomi.Uri.Parse.{Uri}
use tsukuyomi.App.Scope.{ScopeId, index, Scope, Scopes, new, add_node}
use tsukuyomi.App.Handler.{ScopeData, find_default_handler}
use tsukuyomi.App.ScopeLaws.{AreScopes, new-AreScopes, add_node-AreScopes}
use tsukuyomi.App.Infer.{Endpoint}

-- What a run looks through.
steps : Unit {0}
unfolding new add_node find_default_handler
steps = tt

abbrev with_handler : ScopeData ℕ
with_handler = record { prefix = Uri.root; default_handler = some 7 }

abbrev bare : ScopeData ℕ
bare = record { prefix = Uri.segments (codes "/api") none; default_handler = none }

abbrev api_scope : Scope (ScopeData ℕ)
api_scope = record { id = index 0; ancestors = ScopeId.root ∷ []; data' = bare }

abbrev user_scope : Scope (ScopeData ℕ)
user_scope = record { id = index 1; ancestors = ScopeId.root ∷ index 0 ∷ []; data' = bare }

abbrev root_scope : Scope (ScopeData ℕ)
root_scope = record { id = ScopeId.root; ancestors = []; data' = with_handler }

abbrev with_api : Scopes (ScopeData ℕ)
with_api = record { nodes = api_scope ∷ []; root = root_scope }

abbrev with_user : Scopes (ScopeData ℕ)
with_user = record { nodes = api_scope ∷ user_scope ∷ []; root = root_scope }

nested_scopes : add_node with_api (index 0) bare ≡ some (with_user, index 1)
unfolding steps
nested_scopes = refl

inherited_handler : find_default_handler with_user (index 1) ≡ some (some 7)
unfolding steps
inherited_handler = refl

with_api-AreScopes : AreScopes with_api
unfolding steps
with_api-AreScopes =
    add_node-AreScopes (new with_handler) with_api ScopeId.root (index 0) bare
      (new-AreScopes with_handler) refl

abbrev endpoint : ScopeId → Endpoint ℕ
endpoint last = record {
  scope = last;
  ancestors = ScopeId.root ∷ index 0 ∷ last ∷ [];
  uri = Uri.root;
  handler = 7;
}
