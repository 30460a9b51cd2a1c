-- ===== src/App/ScopeLaws.antt =====
-- tsukuyomi/src/app/scope.rs: the ancestors of a scope are the way from the root to its parent.
use tsukuyomi.Prelude.{
  ◌≡◌, refl, sym, ap, ◌∙◌, subst, none, some, List, [], ◌∷◌, ◌++◌, length, All, ◌⊎◌, inl, inr,
  Option-cases,
}
use tsukuyomi.Prelude.{some_injective, none-some}
use tsukuyomi.Recognizer.Built.{get_elem?-append_left, get_elem?-end, get_elem?-snoc}
use tsukuyomi.App.Scope.{ScopeId, index, Scope, Scopes, new, scope_at, add_node}

pub All-append_one {ℓ} :
    (P : ScopeId → Type ℓ) (ids : List ScopeId) (id : ScopeId)
    → All P ids
    → P id
    → All P (ids ++ id ∷ [])
All-append_one P [] id a p = (p, tt)
All-append_one P (i ∷ ids) id (q, a) p = (q, All-append_one P ids id a p)

module _ {ℓ} {T : Type ℓ} where
  abbrev pub Has : Scopes T → ScopeId → Type ℓ
  Has scopes id = (s : Scope T) × (scope_at scopes id ≡ some s)

  -- A scope stands where its identifier says, and its ancestors are those of its parent and the
  -- parent, all of them scopes.
  pub record IsScope (scopes : Scopes T) (id : ScopeId) (s : Scope T) : Type ℓ where
    pub same_id : s.id ≡ id
    pub parent :
        ((id ≡ ScopeId.root) × (s.ancestors ≡ []))
        ⊎ ((p : Scope T) × (scope_at scopes p.id ≡ some p)
            × (s.ancestors ≡ p.ancestors ++ p.id ∷ []))
    pub present : All (Has scopes) s.ancestors

  pub record AreScopes (scopes : Scopes T) : Type ℓ where
    pub each : (id : ScopeId) (s : Scope T) → scope_at scopes id ≡ some s → IsScope scopes id s

  new-scope :
      (x : T) (id : ScopeId) (s : Scope T) → scope_at (new x) id ≡ some s → IsScope (new x) id s
  unfolding new scope_at
  new-scope x ScopeId.root s e =
      let same : record { id = ScopeId.root; ancestors = []; data' = x } ≡ s = some_injective e in
      subst (IsScope (new x) ScopeId.root) same
        (record { same_id = refl; parent = inl (refl, refl); present = tt })
  new-scope x (index i) s e = absurd (none-some e)

  -- An application starts with a root scope that has no ancestors.
  pub new-AreScopes : (x : T) → AreScopes (new x)
  new-AreScopes x = record { each = λ id s e. new-scope x id s e }

  abbrev with_node : Scopes T → Scope T → Scopes T
  with_node scopes s = record scopes { nodes = scopes.nodes ++ s ∷ [] }

  keeps_scope :
      (scopes : Scopes T) (n : Scope T) (id : ScopeId) {s : Scope T}
      → scope_at scopes id ≡ some s
      → scope_at (with_node scopes n) id ≡ some s
  unfolding scope_at
  keeps_scope scopes n ScopeId.root e = e
  keeps_scope scopes n (index i) e = get_elem?-append_left scopes.nodes (n ∷ []) i e

  splits_scope :
      (scopes : Scopes T) (n : Scope T) (id : ScopeId) {s : Scope T}
      → scope_at (with_node scopes n) id ≡ some s
      → (scope_at scopes id ≡ some s) ⊎ ((id ≡ index (length scopes.nodes)) × (n ≡ s))
  unfolding scope_at
  splits_scope scopes n ScopeId.root e = inl e
  splits_scope scopes n (index i) e = elim (get_elem?-snoc scopes.nodes n i e) [
    | inl before ↦ inl before
    | inr (last, same) ↦ inr (ap index last, same)
  ]

  keeps_All :
      (scopes : Scopes T) (n : Scope T) (ids : List ScopeId)
      → All (Has scopes) ids
      → All (Has (with_node scopes n)) ids
  keeps_All scopes n [] h = tt
  keeps_All scopes n (id ∷ ids) ((s, e), h) =
      ((s, keeps_scope scopes n id e), keeps_All scopes n ids h)

  keeps-IsScope :
      (scopes : Scopes T) (n : Scope T) (id : ScopeId) (s : Scope T)
      → IsScope scopes id s
      → IsScope (with_node scopes n) id s
  keeps-IsScope scopes n id s h = record {
    same_id = h.same_id;
    parent = elim h.parent [
      | inl top ↦ inl top
      | inr (p, at, same) ↦ inr (p, keeps_scope scopes n p.id at, same)
    ];
    present = keeps_All scopes n s.ancestors h.present;
  }

  abbrev child_of : Scopes T → Scope T → T → Scope T
  child_of scopes p x = record {
    id = index (length scopes.nodes);
    ancestors = p.ancestors ++ p.id ∷ [];
    data' = x;
  }

  child-IsScope :
      (scopes : Scopes T) (parent : ScopeId) (p : Scope T) (x : T)
      → scope_at scopes parent ≡ some p
      → IsScope scopes parent p
      → IsScope
          (with_node scopes (child_of scopes p x))
          (index (length scopes.nodes))
          (child_of scopes p x)
  child-IsScope scopes parent p x at h =
      let n = child_of scopes p x in
      let here : scope_at (with_node scopes n) p.id ≡ some p =
        keeps_scope scopes n p.id (subst (λ i. scope_at scopes i ≡ some p) (sym h.same_id) at) in
      record {
        same_id = refl;
        parent = inr (p, here, refl);
        present =
            All-append_one (Has (with_node scopes n)) p.ancestors p.id
              (keeps_All scopes n p.ancestors h.present) (p, here);
      }

  with_child-AreScopes :
      (scopes : Scopes T) (parent : ScopeId) (p : Scope T) (x : T)
      → AreScopes scopes
      → scope_at scopes parent ≡ some p
      → AreScopes (with_node scopes (child_of scopes p x))
  with_child-AreScopes scopes parent p x h at = record {
    each = λ id s e. elim (splits_scope scopes (child_of scopes p x) id e) [
      | inl before ↦ keeps-IsScope scopes (child_of scopes p x) id s (h.each id s before)
      | inr (last, same) ↦
          rw (last, ← same) (child-IsScope scopes parent p x at (h.each parent p at))
    ];
  }

  add_node-parts :
      (scopes : Scopes T) (parent : ScopeId) (x : T) (p : Scope T)
      → scope_at scopes parent ≡ some p
      → add_node scopes parent x
        ≡ some (with_node scopes (child_of scopes p x), index (length scopes.nodes))
  unfolding add_node
  add_node-parts scopes parent x p at = rw (at, add_node) refl

  add_node-missing :
      (scopes : Scopes T) (parent : ScopeId) (x : T)
      → scope_at scopes parent ≡ none
      → add_node scopes parent x ≡ none
  unfolding add_node
  add_node-missing scopes parent x e = rw (e, add_node) refl

  -- What a success of `add_node` is.
  add_node-cases :
      (scopes scopes' : Scopes T) (parent id : ScopeId) (x : T)
      → add_node scopes parent x ≡ some (scopes', id)
      → (p : Scope T) × (scope_at scopes parent ≡ some p)
        × (with_node scopes (child_of scopes p x) ≡ scopes')
        × (index (length scopes.nodes) ≡ id)
  add_node-cases scopes scopes' parent id x e = elim (Option-cases (scope_at scopes parent)) [
    | inl missing ↦ absurd (none-some (sym (add_node-missing scopes parent x missing) ∙ e))
    | inr (p, at) ↦
        let pair = some_injective (sym (add_node-parts scopes parent x p at) ∙ e) in
        (
          p,
          at,
          ap (λ (r : Scopes T × ScopeId). r.0) pair,
          ap (λ (r : Scopes T × ScopeId). r.1) pair,
        )
  ]

  -- Adding a scope keeps the invariant: every scope stands at its identifier, and its ancestors are
  -- those of its parent and the parent itself.
  pub add_node-AreScopes :
      (scopes scopes' : Scopes T) (parent id : ScopeId) (x : T)
      → AreScopes scopes
      → add_node scopes parent x ≡ some (scopes', id)
      → AreScopes scopes'
  add_node-AreScopes scopes scopes' parent id x h e =
      let (p, at, same, last) = add_node-cases scopes scopes' parent id x e in
      subst AreScopes same (with_child-AreScopes scopes parent p x h at)

  -- Adding a scope leaves every scope that was there in its place.
  pub scope_at-add_node :
      (scopes scopes' : Scopes T) (parent id old : ScopeId) (x : T) (s : Scope T)
      → add_node scopes parent x ≡ some (scopes', id)
      → scope_at scopes old ≡ some s
      → scope_at scopes' old ≡ some s
  scope_at-add_node scopes scopes' parent id old x s e at =
      let (p, found, same, last) = add_node-cases scopes scopes' parent id x e in
      subst (λ z. scope_at z old ≡ some s) same (keeps_scope scopes (child_of scopes p x) old at)

  scope_at-end :
      (scopes : Scopes T) (n : Scope T)
      → scope_at (with_node scopes n) (index (length scopes.nodes)) ≡ some n
  unfolding scope_at
  scope_at-end scopes n = get_elem?-end scopes.nodes n

  -- The scope that `add_node` adds stands at the identifier that is returned, with its data, below
  -- its parent.
  pub add_node-child :
      (scopes scopes' : Scopes T) (parent id : ScopeId) (x : T)
      → AreScopes scopes
      → add_node scopes parent x ≡ some (scopes', id)
      → (p : Scope T) × (scope_at scopes' parent ≡ some p)
        × (p.id ≡ parent)
        × (scope_at scopes' id
            ≡ some (record { id = id; ancestors = p.ancestors ++ p.id ∷ []; data' = x }))
  add_node-child scopes scopes' parent id x h e =
      let (p, at, same, last) = add_node-cases scopes scopes' parent id x e in
      let known = (h.each parent p at).same_id in
      (
        p,
        scope_at-add_node scopes scopes' parent id parent x p e at,
        known,
        subst
            (λ (r : Scopes T × ScopeId).
              scope_at r.0 r.1
              ≡ some (record { id = r.1; ancestors = p.ancestors ++ p.id ∷ []; data' = x }))
            (some_injective (sym (add_node-parts scopes parent x p at) ∙ e))
            (scope_at-end scopes (child_of scopes p x)),
      )
