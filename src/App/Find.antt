-- ===== src/App/Find.antt =====
-- tsukuyomi/src/app.rs: `AppInner::infer_scope` and `AppInner::find_endpoint`; a scope that is
-- missing, and a failed `expect`, is `none`. And tsukuyomi/src/app/service.rs:
-- `AppFuture::process_recognize`.
use tsukuyomi.Prelude.{
  ℕ, Bool, true, false, Option, none, some, List, [], ◌∷◌, Bytes, starts_with, Result, ok, err,
}
use tsukuyomi.Uri.Parse.{as_str}
use tsukuyomi.Recognizer.Tree.{Candidates}
use tsukuyomi.Recognizer.Recognize.{Captures, RecognizeError, not_matched, partially_matched, panic}
use tsukuyomi.Recognizer.Table.{Recognizer, get, recognize}
use tsukuyomi.App.Scope.{ScopeId, Scope, Scopes, scope_at}
use tsukuyomi.App.Handler.{ScopeData, find_default_handler}
use tsukuyomi.App.Infer.{Endpoint, common_ancestors}
use tsukuyomi.App.Config.{AppInner}

abbrev pub and_then {ℓ κ} : {A : Type ℓ} {B : Type κ} → Option A → (A → Option B) → Option B
and_then none f = none
and_then (some a) f = f a

-- `.last()`
abbrev pub last {ℓ} : {A : Type ℓ} → List A → Option A
last [] = none
last (x ∷ []) = some x
last (x ∷ y ∷ xs) = last (y ∷ xs)

-- `.unwrap_or_else(ScopeId::root)`
abbrev pub or_root : Option ScopeId → ScopeId
or_root none = ScopeId.root
or_root (some id) = id

abbrev pub pick : Bool → ScopeId → Option (Option ScopeId) → Option (Option ScopeId)
pick true id rest = some (some id)
pick false id rest = rest

-- `.or_else(|| ancestors.last())`
abbrev pub or_last : List ScopeId → Option ScopeId → Option ScopeId
or_last ids none = last ids
or_last ids (some id) = some id

module _ {H : Type 0} where
  abbrev pub has_prefix : Bytes → Scope (ScopeData H) → Bool
  has_prefix path s = starts_with (as_str s.data'.prefix) path

  -- `ancestors.into_iter().find(..)`
  unfoldable pub find_prefix : Scopes (ScopeData H) → Bytes → List ScopeId → Option (Option ScopeId)
  unfolding scope_at as_str
  find_prefix scopes path [] = some none
  find_prefix scopes path (id ∷ ids) =
      let rest = find_prefix scopes path ids in
      and_then (scope_at scopes id) (λ s. pick (has_prefix path s) id rest)

  -- The identifier of the scope, from the common ancestors.
  unfoldable pub node_id : Scopes (ScopeData H) → Bytes → Option (List ScopeId) → Option ScopeId
  unfolding find_prefix
  node_id scopes path none = some ScopeId.root
  node_id scopes path (some ids) =
      and_then (find_prefix scopes path ids) (λ found. some (or_root (or_last ids found)))

  unfoldable pub infer_scope : AppInner H → Bytes → List (Endpoint H) → Option (Scope (ScopeData H))
  unfolding node_id common_ancestors scope_at
  infer_scope app path endpoints =
      and_then (node_id app.scopes path (common_ancestors endpoints)) (scope_at app.scopes)

  -- `.filter_map(|i| self.recognizer.get(i))`
  abbrev pub push_value : Option (Endpoint H) → List (Endpoint H) → List (Endpoint H)
  push_value none es = es
  push_value (some e) es = e ∷ es

  unfoldable pub endpoints_of : Recognizer (Endpoint H) → Candidates → List (Endpoint H)
  unfolding get
  endpoints_of r [] = []
  endpoints_of r (i ∷ is) = push_value (get r i) (endpoints_of r is)

  abbrev pub not_found :
      Option (Scope (ScopeData H)) → Option (Result (Scope (ScopeData H)) (Endpoint H))
  not_found s = and_then s (λ scope. some (err scope))

  unfoldable pub answer_of :
      AppInner H
      → Bytes
      → Result RecognizeError (Endpoint H)
      → Option (Result (Scope (ScopeData H)) (Endpoint H))
  unfolding infer_scope endpoints_of scope_at
  answer_of app path (ok e) = some (ok e)
  answer_of app path (err not_matched) = not_found (scope_at app.scopes ScopeId.root)
  answer_of app path (err (partially_matched cs)) =
      not_found (infer_scope app path (endpoints_of app.recognizer cs))
  answer_of app path (err panic) = none

  unfoldable pub find_endpoint :
      AppInner H
      → Bytes
      → Option Captures
      → Option (Result (Scope (ScopeData H)) (Endpoint H)) × Option Captures
  unfolding answer_of recognize
  find_endpoint app path captures =
      let (result, captures') = recognize app.recognizer path captures in
      (answer_of app path result, captures')

-- What `process_recognize` sets: `self.endpoint` and `self.captures`.
pub record Recognized (H : Type 0) : Type 0 where
  pub endpoint : Option (Endpoint H)
  pub captures : Option Captures

abbrev pub not_found_status : ℕ
not_found_status = 404

module _ {H : Type 0} where
  -- The handler to run, or the status of the error.
  abbrev pub fallback : Option H → Result ℕ H
  fallback none = err not_found_status
  fallback (some f) = ok f

  unfoldable pub handler_of :
      AppInner H
      → Result (Scope (ScopeData H)) (Endpoint H)
      → Option Captures
      → Option (Recognized H × Result ℕ H)
  unfolding find_default_handler
  handler_of app (ok e) captures =
      some (record { endpoint = some e; captures = captures }, ok e.handler)
  handler_of app (err s) captures =
      and_then (find_default_handler app.scopes s.id)
        (λ f. some (record { endpoint = none; captures = captures }, fallback f))

  unfoldable pub process_recognize : AppInner H → Bytes → Option (Recognized H × Result ℕ H)
  unfolding find_endpoint handler_of
  process_recognize app path =
      let (found, captures) = find_endpoint app path none in
      and_then found (λ result. handler_of app result captures)
