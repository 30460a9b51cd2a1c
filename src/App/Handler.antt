-- ===== src/App/Handler.antt =====
-- tsukuyomi/src/app.rs: `ScopeData` and `AppInner::find_default_handler`. A scope that is missing
-- is `none`.
use tsukuyomi.Prelude.{Option, none, some, List, [], ◌∷◌, ◌++◌}
use tsukuyomi.Uri.Parse.{Uri}
use tsukuyomi.App.Scope.{ScopeId, Scopes, scope_at}

pub record ScopeData {ℓ} (H : Type ℓ) : Type ℓ where
  pub prefix : Uri
  pub default_handler : Option H

-- `.into_iter().rev()`
unfoldable pub reverse {ℓ} : {A : Type ℓ} → List A → List A
reverse [] = []
reverse (x ∷ xs) = reverse xs ++ x ∷ []

module _ {ℓ} {H : Type ℓ} where
  -- `.filter_map(..).next()`
  unfoldable pub first_handler : Scopes (ScopeData H) → List ScopeId → Option (Option H)
  first_handler scopes [] = some none
  first_handler scopes (id ∷ ids) =
      let rest = first_handler scopes ids in
      elim (scope_at scopes id) [
        | none ↦ none
        | some s ↦ elim s.data'.default_handler [ some f ↦ some (some f) | none ↦ rest ]
      ]

  unfoldable pub find_default_handler : Scopes (ScopeData H) → ScopeId → Option (Option H)
  unfolding first_handler reverse
  find_default_handler scopes start = elim (scope_at scopes start) [
    | none ↦ none
    | some s ↦ elim s.data'.default_handler [
      | some f ↦ some (some f)
      | none ↦ first_handler scopes (reverse s.ancestors)
    ]
  ]
