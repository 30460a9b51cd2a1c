-- ===== src/App/Scope.antt =====
-- tsukuyomi/src/app/scope.rs: the scopes of an application. An index out of bounds is `none`.
use tsukuyomi.Prelude.{ℕ, Option, none, some, List, [], ◌∷◌, ◌++◌, length, get_elem?}

pub data ScopeId : Type 0 where
  root : ScopeId
  index : ℕ → ScopeId

pub record Scope {ℓ} (T : Type ℓ) : Type ℓ where
  pub id : ScopeId
  pub ancestors : List ScopeId
  pub data' : T

pub record Scopes {ℓ} (T : Type ℓ) : Type ℓ where
  pub nodes : List (Scope T)
  pub root : Scope T

module _ {ℓ} {T : Type ℓ} where
  unfoldable pub new : T → Scopes T
  new x = record { nodes = []; root = record { id = ScopeId.root; ancestors = []; data' = x } }

  -- `self[id]`
  unfoldable pub scope_at : Scopes T → ScopeId → Option (Scope T)
  scope_at scopes ScopeId.root = some scopes.root
  scope_at scopes (index i) = get_elem? scopes.nodes i

  unfoldable pub add_node : Scopes T → ScopeId → T → Option (Scopes T × ScopeId)
  unfolding scope_at
  add_node scopes parent x = elim (scope_at scopes parent) [
    | none ↦ none
    | some p ↦
        let id = index (length scopes.nodes) in
        some (
          record scopes {
            nodes =
                scopes.nodes
                ++ record { id = id; ancestors = p.ancestors ++ p.id ∷ []; data' = x } ∷ [];
          },
          id,
        )
  ]
