-- ===== src/Lib.antt =====
-- Tsukuyomi is a web framework. An application is a tree of scopes with routes; each route has a
-- URI, and the URIs go into a route recognizer, which finds the route of a request and where its
-- captures lie in the request's path. This library models these parts:
--
-- - Prelude: byte strings, lists over native numbers, Boolean tests, and Rust's `Result`. A `&str`
--   is the list of its bytes.
-- - Recognizer: tsukuyomi/src/app/recognizer.rs. Recognizer/Tree is the data of the radix tree
--   (`NodeKind`, `Node`, `Candidates`, `Tree`); Recognizer/Wildcard the searches for wildcards
--   (`longest_common_prefix`, `find_wildcard_begin`, `find_wildcard_end`); Recognizer/Insert is
--   `InsertContext` (`add_path`, `insert_child`, `set_leaf`, `visit_tree`); Recognizer/Recognize is
--   `RecognizeContext`; Recognizer/Table is `Recognizer<T>` (`insert`, `recognize`, `get`). The
--   specification is in Recognizer/Routes, the table of routes that a tree stands for with the
--   well-formedness of a tree, and in Recognizer/Matching, when a path matches a route and what it
--   then captures. The other children hold proofs.
-- - Uri: tsukuyomi/src/uri.rs. Uri/Names is `CaptureNames`, Uri/Parse is `Uri` and `Uri::parse`,
--   Uri/Join is `Uri::join`; the other children hold proofs.
-- - Http: an interface to the http crate, which is not in the repository, with the documented laws of
--   its header map; Http/Sample is a small instance. Input: the parts of tsukuyomi/src/input.rs and
--   of a request that the modelled code touches; Input/Params is tsukuyomi/src/input/param.rs
--   (`Params`), Input/Cookies is `Cookies::jar`.
-- - Future: tsukuyomi/src/future.rs (`TryFuture`, `Either`, `oneshot`, `MaybeDone`). A future is its
--   state with a poll function, which gives the state and the input as it leaves them; Future/Drive
--   polls one so many times, as an executor does. Future/Convert, Future/Ending and Future/Sequence
--   are the three ways in which the futures of the framework are made from others: one that converts
--   a result, one that makes its end from that of another, and one that goes on with a second future,
--   with Future/Ends for when they end. Future/Sample is a small future for runs.
-- - Handler: tsukuyomi/src/handler.rs (`AllowedMethods`, `Handler`, `ModifyHandler`), and
--   Handler/Modifiers tsukuyomi/src/modifiers.rs (`DefaultOptions`, `MapOutput`). Endpoint:
--   tsukuyomi/src/endpoint.rs (`Endpoint`, `ChainFuture`); Endpoint/Builder is
--   tsukuyomi/src/config/endpoint.rs (`Builder`, `CallFuture`, `CallAsyncFuture`) and Endpoint/Route
--   tsukuyomi/src/config/path.rs (`Path::to`, `RouteHandle`).
-- - Extractor: tsukuyomi/src/extractor.rs (the primitives); Extractor/Ext is
--   tsukuyomi/src/extractor/ext.rs (`optional`, `fallible`, `and`, `or`, `map`, `map_err`).
-- - Session: `Inner` with the operations of `RawSession`, which the two backends share. Session/Cookie
--   is tsukuyomi-session/src/backend/cookie.rs, Session/Redis tsukuyomi-session/src/backend/redis.rs;
--   Session/Typed (`Session`) and Session/Respond (`finish`) are tsukuyomi-session/src/lib.rs;
--   Session/Sample is an instance of the jars. The other children hold proofs.
-- - WebSocket: tsukuyomi-tungstenite/src/lib.rs (`handshake`, `WsRespond`).
-- - Files: tsukuyomi/src/fs.rs (`ETag`, `NamedFileResponse`, `ServeFile`), with `ReadStream` in
--   Files/Stream.
-- - Cors: tsukuyomi-cors/src/lib.rs. Cors/Builder is `Builder` and `Inner`, Cors/Check the checks
--   (`validate_origin` to `process_request`), Cors/Handle the endpoint and the modifier.
-- - App: the application. App/Scope is tsukuyomi/src/app/scope.rs; App/Handler
--   (`find_default_handler`), App/Infer and App/Find (`infer_scope`, `find_endpoint`) are
--   tsukuyomi/src/app.rs; App/Config (`route`, `mount`, `modify`, the implementors of `Config`,
--   `AppBase::create`) and App/Boxed (`BoxedHandler`) are tsukuyomi/src/app/config.rs; App/Service
--   (`AppFuture`) is tsukuyomi/src/app/service.rs, with `process_recognize` in App/Find. The
--   specification of a configuration is in App/Declared: the routes it declares, read off without an
--   application. The other children hold proofs.
--
-- The application ties the parts together: `create` joins URIs and inserts them into the recognizer,
-- `AppFuture` asks the recognizer for the endpoint of a path and then polls the handle of its
-- handler, which a modifier, as that of Cors, may have wrapped. A handler is most often the handle of
-- a route: it extracts the parameters, applies an endpoint, drives the extractor and calls the
-- function; an extractor may read a session, and the function's output may finish it.
--
-- Mutable state is passed on: a walk through `&mut Node` returns the node as it is left, on an
-- error too. `IndexMap` and `IndexSet` are sequences without repetition in order of insertion. In
-- the recognizer, an `unwrap`, an `expect`, an index or a slice of the path out of bounds, and the
-- debug assertion of `find_wildcard_end` are an error of their own, `panic`; elsewhere a panic is
-- the result `none` or another constructor of its own.
--
-- Two loops of `InsertContext` run on fuel: `insert_child` with one more than the bytes that are
-- left, each round of which passes a wildcard, and `add_path` with two more than the bytes of the
-- path: a round either passes a byte or is entered by one that has. The loop of `RecognizeContext`
-- goes down the tree and is a recursion on it.
--
-- A configuration that is a closure is the sequence of its steps, each with `?`; a closure that goes
-- on after an error is not modelled. Handlers are of one type, in which modifiers stay.
--
-- Not modelled: responders, outputs and the extractors of bodies, headers and local data, the macro
-- for paths, the walk through a directory of static files, delegation by smart pointers, procedural
-- macros, the server's transport and the glue to third-party libraries. What is not in the repository
-- (cookies, JSON, Redis, hashes, files, dates) is a parameter, whose documented laws are hypotheses.
pub mod App
pub mod Cors
pub mod Endpoint
pub mod Extractor
pub mod Files
pub mod Future
pub mod Handler
pub mod Http
pub mod Input
pub mod Prelude
pub mod Recognizer
pub mod Session
pub mod Uri
pub mod WebSocket
