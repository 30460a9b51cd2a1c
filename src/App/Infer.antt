-- ===== src/App/Infer.antt =====
-- tsukuyomi/src/app.rs: `Endpoint`, and the first part of `AppInner::infer_scope`: the common
-- ancestors of the candidates.
use tsukuyomi.Prelude.{
  ℕ, suc, ◌≡◌, refl, sym, ap, ◌∙◌, subst, Bool, true, false, Option, none, some, List, [], ◌∷◌,
  ◌++◌, append-nil, append_assoc, ◌==◌, ==_iff, take, drop, take-append-drop, if◌then◌else◌, All,
  inl, inr, Bool-cases,
}
use tsukuyomi.Prelude.{some_injective}
use tsukuyomi.Uri.Parse.{Uri}
use tsukuyomi.App.Scope.{ScopeId, index}

pub record Endpoint {ℓ} (H : Type ℓ) : Type ℓ where
  pub scope : ScopeId
  pub ancestors : List ScopeId
  pub uri : Uri
  pub handler : H

abbrev pub eq_scope_id : ScopeId → ScopeId → Bool
eq_scope_id ScopeId.root ScopeId.root = true
eq_scope_id (index i) (index j) = i == j
eq_scope_id _ _ = false

-- `.zip(..).position(|(a, b)| a != b).unwrap_or_else(|| min(..))`
unfoldable pub common_length : List ScopeId → List ScopeId → ℕ
common_length [] ys = 0
common_length (a ∷ xs) [] = 0
common_length (a ∷ xs) (b ∷ ys) = if eq_scope_id a b then suc (common_length xs ys) else 0

module _ {ℓ} {H : Type ℓ} where
  -- The loop over the endpoints, once there are ancestors.
  unfoldable pub shorten : List ScopeId → List (Endpoint H) → List ScopeId
  shorten ids [] = ids
  shorten ids (e ∷ es) = shorten (take (common_length ids e.ancestors) ids) es

  unfoldable pub common_ancestors : List (Endpoint H) → Option (List ScopeId)
  unfolding shorten common_length
  common_ancestors [] = none
  common_ancestors (e ∷ es) = some (shorten e.ancestors (e ∷ es))

eq_scope_id→eq : (a b : ScopeId) → eq_scope_id a b ≡ true → a ≡ b
eq_scope_id→eq ScopeId.root ScopeId.root e = refl
eq_scope_id→eq ScopeId.root (index j) e = cc
eq_scope_id→eq (index i) ScopeId.root e = cc
eq_scope_id→eq (index i) (index j) e = ap index ((==_iff i j).0 e)

abbrev pub IsPrefix : List ScopeId → List ScopeId → Type 0
IsPrefix ids others = (rest : List ScopeId) × (others ≡ ids ++ rest)

prefix_trans : (a b c : List ScopeId) → IsPrefix a b → IsPrefix b c → IsPrefix a c
prefix_trans a b c (r, e) (q, d) = (r ++ q, d ∙ ap (λ l. l ++ q) e ∙ append_assoc a r q)

take-IsPrefix : (n : ℕ) (ids : List ScopeId) → IsPrefix (take n ids) ids
take-IsPrefix n ids = (drop n ids, sym (take-append-drop n ids))

common_length-IsPrefix : (xs ys : List ScopeId) → IsPrefix (take (common_length xs ys) xs) ys
unfolding common_length
common_length-IsPrefix [] ys = (ys, refl)
common_length-IsPrefix (a ∷ xs) [] = ([], refl)
common_length-IsPrefix (a ∷ xs) (b ∷ ys) = elim (Bool-cases (eq_scope_id a b)) [
  | inl same ↦
      let (rest, e) = common_length-IsPrefix xs ys in
      rw (same, take)
        (
          rest,
          ap (λ l. b ∷ l) e
              ∙ ap (λ x. x ∷ (take (common_length xs ys) xs ++ rest))
                  (sym (eq_scope_id→eq a b same)),
        )
  | inr differ ↦ rw differ (b ∷ ys, refl)
]

module _ {ℓ} {H : Type ℓ} where
  shorten-IsPrefix :
      (ids : List ScopeId) (es : List (Endpoint H))
      → IsPrefix (shorten ids es) ids × All (λ e. IsPrefix (shorten ids es) e.ancestors) es
  unfolding shorten
  shorten-IsPrefix ids [] = (([], sym (append-nil ids)), tt)
  shorten-IsPrefix ids (e ∷ es) =
      let cut : List ScopeId = take (common_length ids e.ancestors) ids in
      let (under, all_under) = shorten-IsPrefix cut es in
      (
        prefix_trans (shorten cut es) cut ids under
            (take-IsPrefix (common_length ids e.ancestors) ids),
        (
          prefix_trans (shorten cut es) cut e.ancestors under
              (common_length-IsPrefix ids e.ancestors),
          all_under,
        ),
      )

  -- The common ancestors of endpoints are a prefix of the ancestors of each of them.
  pub common_ancestors-IsPrefix :
      (es : List (Endpoint H)) (ids : List ScopeId)
      → common_ancestors es ≡ some ids
      → All (λ e. IsPrefix ids e.ancestors) es
  unfolding common_ancestors
  common_ancestors-IsPrefix [] ids e = tt
  common_ancestors-IsPrefix (x ∷ xs) ids e =
      subst (λ l. All (λ (y : Endpoint H). IsPrefix l y.ancestors) (x ∷ xs)) (some_injective e)
        (shorten-IsPrefix x.ancestors (x ∷ xs)).1
