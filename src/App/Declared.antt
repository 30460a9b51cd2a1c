-- ===== src/App/Declared.antt =====
-- tsukuyomi/src/app/config.rs: the routes that a configuration declares, read off its text without
-- an application: a URI for each, with the prefixes of the scopes around it, and the modified handler.
use tsukuyomi.Prelude.{Option, none, some, List, [], ◌∷◌, ◌++◌, Bytes, map, Result, ok, err, ◌>>=◌}
use tsukuyomi.Uri.Parse.{Uri, parse}
use tsukuyomi.Uri.Join.{join}
use tsukuyomi.Future.{map_err}
use tsukuyomi.Recognizer.Table.{Recognizer}
use tsukuyomi.App.Infer.{Endpoint}
use tsukuyomi.App.Config.{
  ConfigError, uri_error, route_uri, Config, nothing, chain, failing, route_step, mount_step,
  modify_step,
}

abbrev pub Routes : Type 0 → Type 0
Routes K = List (Uri × K)

module _ {K : Type 0} where
  -- A default handler is not a route.
  abbrev pub declared_at : Uri → K → Option Uri → Result ConfigError (Routes K)
  declared_at prefix f none = ok []
  declared_at prefix f (some uri) =
      map_err uri_error (join prefix uri >>= λ uri'. ok ((uri', f) ∷ []))

  unfoldable pub declared : Uri → (K → K) → Config K → Result ConfigError (Routes K)
  declared prefix modifier nothing = ok []
  declared prefix modifier (failing e) = err e
  declared prefix modifier (chain left right) =
      declared prefix modifier left >>= λ ls. declared prefix modifier right >>= λ rs. ok (ls ++ rs)
  declared prefix modifier (route_step path f) = route_uri path >>= declared_at prefix (modifier f)
  declared prefix modifier (modify_step modifier' config) =
      declared prefix (λ f. modifier' (modifier f)) config
  declared prefix modifier (mount_step path config) =
      map_err uri_error (parse path >>= λ uri. join prefix uri) >>= λ prefix'.
      declared prefix' modifier config

module _ {H : Type 0} where
  -- What the recognizer keeps: the URI and the handler of each endpoint, in order of insertion.
  abbrev pub kept_route : Bytes × Endpoint H → Uri × H
  kept_route (key, e) = (e.uri, e.handler)

  abbrev pub kept_routes : Recognizer (Endpoint H) → Routes H
  kept_routes r = map kept_route r.inner

module _ {K H : Type 0} (into : K → H) where
  abbrev pub boxed : Routes K → Routes H
  boxed routes = map (λ (r : Uri × K). (r.0, into r.1)) routes
