-- ===== src/App/HandlerLaws.antt =====
-- tsukuyomi/src/app.rs: which default handler a scope has.
use tsukuyomi.Prelude.{
  ◌≡◌, refl, sym, ap, ◌∙◌, subst, Option, none, some, List, [], ◌∷◌, ◌++◌, All, inl, inr,
  Option-cases,
}
use tsukuyomi.App.Scope.{ScopeId, Scope, Scopes, scope_at, add_node}
use tsukuyomi.App.Handler.{ScopeData, reverse, first_handler, find_default_handler}
use tsukuyomi.App.ScopeLaws.{All-append_one, Has, AreScopes, add_node-child}

reverse-snoc {ℓ} : {A : Type ℓ} (xs : List A) (x : A) → reverse (xs ++ x ∷ []) ≡ x ∷ reverse xs
unfolding reverse
reverse-snoc [] x = refl
reverse-snoc (y ∷ xs) x = ap (λ l. l ++ y ∷ []) (reverse-snoc xs x)

module _ {ℓ} {H : Type ℓ} where
  own_handler :
      (scopes : Scopes (ScopeData H)) (id : ScopeId) (s : Scope (ScopeData H)) (f : H)
      → scope_at scopes id ≡ some s
      → s.data'.default_handler ≡ some f
      → find_default_handler scopes id ≡ some (some f)
  unfolding find_default_handler
  own_handler scopes id s f at own = rw (at, own, find_default_handler) refl

  no_handler :
      (scopes : Scopes (ScopeData H)) (id : ScopeId) (s : Scope (ScopeData H))
      → scope_at scopes id ≡ some s
      → s.data'.default_handler ≡ none
      → find_default_handler scopes id ≡ first_handler scopes (reverse s.ancestors)
  unfolding find_default_handler
  no_handler scopes id s at bare = rw (at, bare, find_default_handler) refl

  first_cons :
      (scopes : Scopes (ScopeData H)) (p : Scope (ScopeData H))
      → scope_at scopes p.id ≡ some p
      → first_handler scopes (p.id ∷ reverse p.ancestors) ≡ find_default_handler scopes p.id
  unfolding find_default_handler first_handler
  first_cons scopes p at = rw (at, first_handler, find_default_handler) refl

  -- A scope without a default handler of its own has that of its parent.
  pub find_default_handler-parent :
      (scopes : Scopes (ScopeData H)) (id : ScopeId) (s p : Scope (ScopeData H))
      → scope_at scopes id ≡ some s
      → s.data'.default_handler ≡ none
      → s.ancestors ≡ p.ancestors ++ p.id ∷ []
      → scope_at scopes p.id ≡ some p
      → find_default_handler scopes id ≡ find_default_handler scopes p.id
  find_default_handler-parent scopes id s p at bare line there =
      no_handler scopes id s at bare
      ∙ ap (λ l. first_handler scopes (reverse l)) line
      ∙ ap (first_handler scopes) (reverse-snoc p.ancestors p.id)
      ∙ first_cons scopes p there

  -- A scope that is added without a default handler has the default handler of its parent.
  find_default_handler-add_node :
      (scopes scopes' : Scopes (ScopeData H)) (parent id : ScopeId) (x : ScopeData H)
      → AreScopes scopes
      → add_node scopes parent x ≡ some (scopes', id)
      → x.default_handler ≡ none
      → find_default_handler scopes' id ≡ find_default_handler scopes' parent
  find_default_handler-add_node scopes scopes' parent id x h e bare =
      let (p, there, known, here) = add_node-child scopes scopes' parent id x h e in
      find_default_handler-parent scopes' id _ p here bare refl
        (subst (λ i. scope_at scopes' i ≡ some p) (sym known) there)
      ∙ ap (find_default_handler scopes') known

  All-reverse :
      (scopes : Scopes (ScopeData H)) (ids : List ScopeId)
      → All (Has scopes) ids
      → All (Has scopes) (reverse ids)
  unfolding reverse
  All-reverse scopes [] h = tt
  All-reverse scopes (id ∷ ids) (p, h) =
      All-append_one (Has scopes) (reverse ids) id (All-reverse scopes ids h) p

  first_handler_ends :
      (scopes : Scopes (ScopeData H)) (ids : List ScopeId)
      → All (Has scopes) ids
      → (f : Option H) × (first_handler scopes ids ≡ some f)
  unfolding first_handler
  first_handler_ends scopes [] h = (none, refl)
  first_handler_ends scopes (id ∷ ids) ((s, at), h) = elim (Option-cases s.data'.default_handler) [
    | inl bare ↦
        let (f, found) = first_handler_ends scopes ids h in (f, rw (at, bare, first_handler) found)
    | inr (f, own) ↦ (some f, rw (at, own, first_handler) refl)
  ]

  -- The search for a default handler from a scope of the application ends: it looks at no scope
  -- that is missing.
  pub find_default_handler_ends :
      (scopes : Scopes (ScopeData H)) (id : ScopeId) (s : Scope (ScopeData H))
      → AreScopes scopes
      → scope_at scopes id ≡ some s
      → (f : Option H) × (find_default_handler scopes id ≡ some f)
  find_default_handler_ends scopes id s h at = elim (Option-cases s.data'.default_handler) [
    | inr (f, own) ↦ (some f, own_handler scopes id s f at own)
    | inl bare ↦
        let (f, found) =
          first_handler_ends scopes (reverse s.ancestors)
            (All-reverse scopes s.ancestors (h.each id s at).present) in
        (f, no_handler scopes id s at bare ∙ found)
  ]
