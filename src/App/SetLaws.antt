-- ===== src/App/SetLaws.antt =====
-- tsukuyomi/src/app/config.rs: setting a default handler changes nothing else of the scopes.
use tsukuyomi.Prelude.{
  ℕ, zero, suc, ◌≡◌, refl, sym, ap, ◌∙◌, subst, some, some_injective, List, [], ◌∷◌, ◌++◌,
  get_elem?, All, ◌⊎◌, inl, inr,
}
use tsukuyomi.App.Scope.{ScopeId, index, Scope, Scopes, scope_at}
use tsukuyomi.App.Handler.{ScopeData}
use tsukuyomi.App.Config.{set_at, with_default, set_default}
use tsukuyomi.App.ScopeLaws.{Has, IsScope, AreScopes}

module _ {A : Type 0} where
  get_elem?-set_at :
      (i j : ℕ) (x : A) (xs : List A) {y t : A}
      → get_elem? xs i ≡ some y
      → get_elem? xs j ≡ some t
      → (get_elem? (set_at i x xs) j ≡ some t) ⊎ ((y ≡ t) × (get_elem? (set_at i x xs) j ≡ some x))
  unfolding set_at
  get_elem?-set_at i j x [] e d = cc
  get_elem?-set_at zero zero x (z ∷ xs) e d = inr (some_injective (sym e ∙ d), refl)
  get_elem?-set_at zero (suc j) x (z ∷ xs) e d = inl d
  get_elem?-set_at (suc i) zero x (z ∷ xs) e d = inl d
  get_elem?-set_at (suc i) (suc j) x (z ∷ xs) e d = get_elem?-set_at i j x xs e d

  set_at-get_elem? :
      (i j : ℕ) (x : A) (xs : List A) {y t : A}
      → get_elem? xs i ≡ some y
      → get_elem? (set_at i x xs) j ≡ some t
      → (get_elem? xs j ≡ some t) ⊎ ((x ≡ t) × (get_elem? xs j ≡ some y))
  unfolding set_at
  set_at-get_elem? i j x [] e d = cc
  set_at-get_elem? zero zero x (z ∷ xs) e d = inr (some_injective d, e)
  set_at-get_elem? zero (suc j) x (z ∷ xs) e d = inl d
  set_at-get_elem? (suc i) zero x (z ∷ xs) e d = inl d
  set_at-get_elem? (suc i) (suc j) x (z ∷ xs) e d = set_at-get_elem? i j x xs e d

module _ {H : Type 0} where
  -- Two scopes that differ at most in the default handler.
  pub record IsSame (s t : Scope (ScopeData H)) : Type 0 where
    pub id : s.id ≡ t.id
    pub ancestors : s.ancestors ≡ t.ancestors
    pub prefix : s.data'.prefix ≡ t.data'.prefix

  pub IsSame-refl : (s : Scope (ScopeData H)) → IsSame s s
  IsSame-refl s = record { id = refl; ancestors = refl; prefix = refl }

  pub IsSame-trans : {r s t : Scope (ScopeData H)} → IsSame r s → IsSame s t → IsSame r t
  IsSame-trans a b = record {
    id = a.id ∙ b.id;
    ancestors = a.ancestors ∙ b.ancestors;
    prefix = a.prefix ∙ b.prefix;
  }

  -- Every scope of the first is in the second, with at most another default handler.
  pub record Extends (scopes scopes' : Scopes (ScopeData H)) : Type 0 where
    pub each :
        (id : ScopeId) (s : Scope (ScopeData H))
        → scope_at scopes id ≡ some s
        → (t : Scope (ScopeData H)) × (scope_at scopes' id ≡ some t) × IsSame s t

  pub Extends-refl : (scopes : Scopes (ScopeData H)) → Extends scopes scopes
  Extends-refl scopes = record { each = λ id s at. (s, at, IsSame-refl s) }

  pub Extends-trans : {x y z : Scopes (ScopeData H)} → Extends x y → Extends y z → Extends x z
  Extends-trans a b = record {
    each = λ id s at.
        let (t, at', same) = a.each id s at in
        let (u, at'', same') = b.each id t at' in (u, at'', IsSame-trans same same');
  }

  IsSame-default : (s : Scope (ScopeData H)) (f : H) → IsSame s (with_default f s)
  IsSame-default s f = record { id = refl; ancestors = refl; prefix = refl }

  keeps_IsSame :
      (scopes : Scopes (ScopeData H)) (id j : ScopeId) (s t : Scope (ScopeData H)) (f : H)
      → scope_at scopes id ≡ some s
      → scope_at scopes j ≡ some t
      → (u : Scope (ScopeData H)) × (scope_at (set_default scopes id s f) j ≡ some u) × IsSame t u
  unfolding scope_at set_default
  keeps_IsSame scopes ScopeId.root ScopeId.root s t f at there =
      (with_default f s, refl, rw (← some_injective (sym at ∙ there)) (IsSame-default s f))
  keeps_IsSame scopes ScopeId.root (index j) s t f at there = (t, there, IsSame-refl t)
  keeps_IsSame scopes (index i) ScopeId.root s t f at there = (t, there, IsSame-refl t)
  keeps_IsSame scopes (index i) (index j) s t f at there =
      elim (get_elem?-set_at i j (with_default f s) scopes.nodes at there) [
        | inl old ↦ (t, old, IsSame-refl t)
        | inr (same, new) ↦ (with_default f s, new, rw (← same) (IsSame-default s f))
      ]

  had-IsSame :
      (scopes : Scopes (ScopeData H)) (id j : ScopeId) (s u : Scope (ScopeData H)) (f : H)
      → scope_at scopes id ≡ some s
      → scope_at (set_default scopes id s f) j ≡ some u
      → (t : Scope (ScopeData H)) × (scope_at scopes j ≡ some t) × IsSame t u
  unfolding scope_at set_default
  had-IsSame scopes ScopeId.root ScopeId.root s u f at there =
      (s, at, rw (← some_injective there) (IsSame-default s f))
  had-IsSame scopes ScopeId.root (index j) s u f at there = (u, there, IsSame-refl u)
  had-IsSame scopes (index i) ScopeId.root s u f at there = (u, there, IsSame-refl u)
  had-IsSame scopes (index i) (index j) s u f at there =
      elim (set_at-get_elem? i j (with_default f s) scopes.nodes at there) [
        | inl old ↦ (u, old, IsSame-refl u)
        | inr (same, new) ↦ (s, new, rw (← same) (IsSame-default s f))
      ]

  pub set_default-Extends :
      (scopes : Scopes (ScopeData H)) (id : ScopeId) (s : Scope (ScopeData H)) (f : H)
      → scope_at scopes id ≡ some s
      → Extends scopes (set_default scopes id s f)
  set_default-Extends scopes id s f at = record {
    each = λ j t there. keeps_IsSame scopes id j s t f at there;
  }

  All-Has :
      {x y : Scopes (ScopeData H)}
      → Extends x y
      → (ids : List ScopeId) → All (Has x) ids
      → All (Has y) ids
  All-Has e [] h = tt
  All-Has e (id ∷ ids) ((s, at), h) =
      let (t, at', same) = e.each id s at in ((t, at'), All-Has e ids h)

  same-IsScope :
      {x y : Scopes (ScopeData H)} {id : ScopeId} {s t : Scope (ScopeData H)}
      → Extends x y
      → IsSame s t
      → IsScope x id s
      → IsScope y id t
  same-IsScope {x = x} {y} {id} {s} {t} e same h = record {
    same_id = sym same.id ∙ h.same_id;
    parent = elim h.parent [
      | inl (top, none_above) ↦ inl (top, sym same.ancestors ∙ none_above)
      | inr (p, at, line) ↦
          let (q, at', same') = e.each p.id p at in
          inr (
            q,
            subst (λ i. scope_at y i ≡ some q) same'.id at',
            sym same.ancestors
                ∙ line
                ∙ ap (λ l. l ++ p.id ∷ []) same'.ancestors
                ∙ ap (λ i. q.ancestors ++ i ∷ []) same'.id,
          )
    ];
    present = subst (All (Has y)) same.ancestors (All-Has e s.ancestors h.present);
  }

  -- Setting a default handler keeps the invariant of the scopes.
  pub set_default-AreScopes :
      (scopes : Scopes (ScopeData H)) (id : ScopeId) (s : Scope (ScopeData H)) (f : H)
      → AreScopes scopes
      → scope_at scopes id ≡ some s
      → AreScopes (set_default scopes id s f)
  set_default-AreScopes scopes id s f h at = record {
    each = λ j u there.
        let (t, old, same) = had-IsSame scopes id j s u f at there in
        same-IsScope (set_default-Extends scopes id s f at) same (h.each j t old);
  }
