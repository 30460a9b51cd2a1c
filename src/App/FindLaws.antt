-- ===== src/App/FindLaws.antt =====
-- tsukuyomi/src/app.rs and tsukuyomi/src/app/service.rs: what an application that satisfies the
-- invariant answers to a path.
use tsukuyomi.Prelude.{
  ◌≡◌, refl, sym, ap, subst, Bool, true, false, Option, none, some, some_injective, List, [], ◌∷◌,
  ◌++◌, Bytes, All, ◌⊎◌, inl, inr, Option-cases,
}
use mathlib.Core.List.{Memᴰ}
use tsukuyomi.App.Scope.{ScopeId, Scope, Scopes, scope_at}
use tsukuyomi.App.Handler.{ScopeData}
use tsukuyomi.App.Infer.{Endpoint, IsPrefix, common_ancestors, common_ancestors-IsPrefix}
use tsukuyomi.App.ScopeLaws.{Has, AreScopes, All-append_one}
use tsukuyomi.App.Config.{AppInner}
use tsukuyomi.App.RouteLaws.{IsEntry, IsApp}
use tsukuyomi.App.Find.{last, or_root, pick, or_last, has_prefix, find_prefix, node_id, infer_scope}

abbrev pub IsIn : ScopeId → List ScopeId → Type 0
IsIn id ids = Memᴰ id ids

last_cases : (ids : List ScopeId) (id : ScopeId) → last ids ≡ some id → IsIn id ids
last_cases [] id e = cc
last_cases (x ∷ []) id e = Memᴰ.head (sym (some_injective e))
last_cases (x ∷ y ∷ xs) id e = Memᴰ.tail (last_cases (y ∷ xs) id e)

-- A search among these scopes that ends, with one of them or with none.
abbrev EndsIn : List ScopeId → Option (Option ScopeId) → Type 0
EndsIn ids found =
    (r : Option ScopeId) × (found ≡ some r) × ((j : ScopeId) → r ≡ some j → IsIn j ids)

picked :
    (b : Bool) (id : ScopeId) (ids : List ScopeId) (rest : Option (Option ScopeId))
    → EndsIn ids rest
    → EndsIn (id ∷ ids) (pick b id rest)
picked true id ids rest h = (some id, refl, λ j e. Memᴰ.head (sym (some_injective e)))
picked false id ids rest (r, e, f) = (r, e, λ j d. Memᴰ.tail (f j d))

or_last_cases :
    (ids : List ScopeId) (found : Option ScopeId)
    → ((j : ScopeId) → found ≡ some j → IsIn j ids)
    → (or_root (or_last ids found) ≡ ScopeId.root) ⊎ IsIn (or_root (or_last ids found)) ids
or_last_cases ids (some id) h = inr (h id refl)
or_last_cases ids none h = elim (Option-cases (last ids)) [
  | inl nothing ↦ inl (ap or_root nothing)
  | inr (id, e) ↦ inr (subst (λ r. IsIn (or_root r) ids) (sym e) (last_cases ids id e))
]

All-mem {ℓ} :
    (P : ScopeId → Type ℓ) (ids : List ScopeId) (id : ScopeId) → All P ids → IsIn id ids → P id
All-mem P [] id h m = elim m [ ]
All-mem P (x ∷ ids) id (p, h) (Memᴰ.head e) = subst P (sym e) p
All-mem P (x ∷ ids) id (p, h) (Memᴰ.tail m) = All-mem P ids id h m

mem-append : (id : ScopeId) (ids rest : List ScopeId) → IsIn id ids → IsIn id (ids ++ rest)
mem-append id [] rest m = elim m [ ]
mem-append id (x ∷ ids) rest (Memᴰ.head e) = Memᴰ.head e
mem-append id (x ∷ ids) rest (Memᴰ.tail m) = Memᴰ.tail (mem-append id ids rest m)

All-append_left {ℓ} :
    (P : ScopeId → Type ℓ) (ids rest : List ScopeId) → All P (ids ++ rest) → All P ids
All-append_left P [] rest h = tt
All-append_left P (x ∷ ids) rest (p, h) = (p, All-append_left P ids rest h)

module _ {H : Type 0} (scopes : Scopes (ScopeData H)) (path : Bytes) where
  find_prefix_ends :
      (ids : List ScopeId) → All (Has scopes) ids → EndsIn ids (find_prefix scopes path ids)
  unfolding find_prefix
  find_prefix_ends [] h = (none, refl, λ j e. cc)
  find_prefix_ends (id ∷ ids) ((s, at), h) =
      rw (at, find_prefix)
        (picked (has_prefix path s) id ids (find_prefix scopes path ids) (find_prefix_ends ids h))

  -- The scope that is chosen is the root or one of the common ancestors.
  node_id_ends :
      (ids : List ScopeId)
      → All (Has scopes) ids
      → (id : ScopeId) × (node_id scopes path (some ids) ≡ some id)
        × ((id ≡ ScopeId.root) ⊎ IsIn id ids)
  unfolding node_id
  node_id_ends ids h =
      let (found, e, from) = find_prefix_ends ids h in
      (or_root (or_last ids found), rw (e, node_id) refl, or_last_cases ids found from)

module _ {H : Type 0} where
  -- The ancestors of the endpoint are scopes of the application.
  abbrev pub Grounded : Scopes (ScopeData H) → Endpoint H → Type 0
  Grounded scopes e = All (Has scopes) e.ancestors

  pub entry-Grounded :
      (app : AppInner H) (key : Bytes) (e : Endpoint H)
      → IsApp app
      → IsEntry app.scopes key e
      → Grounded app.scopes e
  entry-Grounded app key e h entry =
      let (s, at, line, joined) = entry.home in
      let is = h.scopes.each e.scope s at in
      subst (All (Has app.scopes)) (sym line) (
        All-append_one (Has app.scopes) s.ancestors s.id is.present
          (s, subst (λ i. scope_at app.scopes i ≡ some s) (sym is.same_id) at))

  common-Grounded :
      (scopes : Scopes (ScopeData H)) (es : List (Endpoint H)) (ids : List ScopeId)
      → All (Grounded scopes) es
      → common_ancestors es ≡ some ids
      → All (Has scopes) ids
  unfolding common_ancestors
  common-Grounded scopes [] ids h e = cc
  common-Grounded scopes (x ∷ xs) ids (g, h) e =
      let (rest, line) = (common_ancestors-IsPrefix (x ∷ xs) ids e).0 in
      All-append_left (Has scopes) ids rest (subst (All (Has scopes)) line g)

  All-map {ℓ κ} :
      (P : Endpoint H → Type ℓ) (Q : Endpoint H → Type κ) (es : List (Endpoint H))
      → ((e : Endpoint H) → P e → Q e)
      → All P es
      → All Q es
  All-map P Q [] f h = tt
  All-map P Q (e ∷ es) f (p, h) = (f e p, All-map P Q es f h)

  -- The scope is there, and it is the root or an ancestor of each of the endpoints.
  pub record IsInferred (scopes : Scopes (ScopeData H)) (es : List (Endpoint H))
      (s : Scope (ScopeData H)) : Type 0 where
    pub there : scope_at scopes s.id ≡ some s
    pub above : (s.id ≡ ScopeId.root) ⊎ All (λ e. IsIn s.id e.ancestors) es

  scope-IsInferred :
      (scopes : Scopes (ScopeData H)) (es : List (Endpoint H)) (id : ScopeId)
      (s : Scope (ScopeData H))
      → AreScopes scopes
      → scope_at scopes id ≡ some s
      → (id ≡ ScopeId.root) ⊎ All (λ e. IsIn id e.ancestors) es
      → IsInferred scopes es s
  scope-IsInferred scopes es id s h at above =
      let same = sym (h.each id s at).same_id in
      record {
        there = subst (λ i. scope_at scopes i ≡ some s) same at;
        above =
            subst (λ i. (i ≡ ScopeId.root) ⊎ All (λ (e : Endpoint H). IsIn i e.ancestors) es) same
              above;
      }

  pub root-Has : (scopes : Scopes (ScopeData H)) → Has scopes ScopeId.root
  unfolding scope_at
  root-Has scopes = (scopes.root, refl)

  -- The scope for a path that no route matches, from the candidates: it is a scope of the
  -- application, and it is the root or an ancestor of each candidate.
  pub infer_scope-IsInferred :
      (app : AppInner H) (path : Bytes) (es : List (Endpoint H))
      → AreScopes app.scopes
      → All (Grounded app.scopes) es
      → (s : Scope (ScopeData H)) × (infer_scope app path es ≡ some s) × IsInferred app.scopes es s
  unfolding infer_scope node_id
  infer_scope-IsInferred app path es h grounded = elim (Option-cases (common_ancestors es)) [
    | inl nothing ↦
        let (s, at) = root-Has app.scopes in
        (
          s,
          rw (nothing, infer_scope) at,
          scope-IsInferred app.scopes es ScopeId.root s h at (inl refl),
        )
    | inr (ids, common) ↦
        let has = common-Grounded app.scopes es ids grounded common in
        let (id, e, from) = node_id_ends app.scopes path ids has in
        elim from [
          | inl top ↦
              let (s, at) = root-Has app.scopes in
              let at' = subst (λ i. scope_at app.scopes i ≡ some s) (sym top) at in
              (
                s,
                rw (common, e, infer_scope) at',
                scope-IsInferred app.scopes es id s h at' (inl top),
              )
          | inr m ↦
              let (s, at) = All-mem (Has app.scopes) ids id has m in
              (
                s,
                rw (common, e, infer_scope) at,
                scope-IsInferred app.scopes es id s h at (
                    inr (
                      All-map (λ x. IsPrefix ids x.ancestors) (λ x. IsIn id x.ancestors) es
                        (λ x p. subst (IsIn id) (sym p.1) (mem-append id ids p.0 m))
                        (common_ancestors-IsPrefix es ids common))),
              )
        ]
  ]
