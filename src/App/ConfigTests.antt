-- ===== src/App/ConfigTests.antt =====
-- tsukuyomi/src/app/config.rs and tsukuyomi/src/app/service.rs: an application with two routes, and
-- witnesses.
use tsukuyomi.Prelude.{
  ℕ, suc, ◌+◌, ◌≡◌, refl, Bool, true, false, none, some, List, [], ◌∷◌, Bytes, codes, Result, ok,
}
use tsukuyomi.Http.Sample.{Entries, sample, sample-IsHttp, get_entry, remove_entries}
use tsukuyomi.Input.{Input}
use tsukuyomi.Future.{ready, not_ready, TryFuture}
use tsukuyomi.Future.Drive.{drive}
use tsukuyomi.Uri.Parse.{Uri, as_str, parse}
use tsukuyomi.Uri.Join.{join}
use tsukuyomi.Recognizer.Wildcard.{find_wildcard_begin}
use tsukuyomi.App.Scope.{ScopeId, index, Scope, scope_at}
use tsukuyomi.App.Handler.{ScopeData}
use tsukuyomi.App.Infer.{Endpoint}
use tsukuyomi.App.Config.{AppInner, Config, chain, route_step, mount_step, modify_step, create}
use tsukuyomi.App.Declared.{Routes, declared}
use tsukuyomi.App.RouteLaws.{IsApp}
use tsukuyomi.App.ConfigLaws.{IsCreated, create-IsCreated}
use tsukuyomi.App.Find.{infer_scope, find_endpoint, Recognized, process_recognize}
use tsukuyomi.App.FindLaws.{IsInferred, infer_scope-IsInferred}
use tsukuyomi.App.Service.{Output, in_flight, AppFuture, call, Replies, process_before_reply}
use tsukuyomi.App.ServiceLaws.{drive_app, advanced}
use tsukuyomi.App.ReplyLaws.{IsAnnounced, process_before_reply-IsAnnounced, drive-declared}
use tsukuyomi.App.Boxed.{first, poll_boxed, finished}
use tsukuyomi.App.BoxedLaws.{drive-boxed}
use tsukuyomi.App.AnswerLaws.{
  IsRecognized, process_recognize-IsRecognized, IsAnswered, create-IsAnswered,
}

abbrev number : ℕ → ℕ
number n = n

-- A route below a mount, with a modifier around it, and the default handler of the root.
abbrev site : Config ℕ
site =
    chain (mount_step (codes "/api") (modify_step (λ n. n + 1) (route_step (codes "/u") 4)))
      (route_step (codes "*") 9)

abbrev site_routes : Routes ℕ
site_routes = (Uri.segments (codes "/api/u") none, 5) ∷ []

declared-site : declared Uri.root (λ n. n) site ≡ ok site_routes
unfolding declared parse join
declared-site = refl

unfoldable created_site : (app : AppInner ℕ) × (create number site ≡ ok app)
unfolding create find_wildcard_begin
created_site = (_, refl)

create-IsCreated_example : IsCreated number site created_site.0
create-IsCreated_example = create-IsCreated number site created_site.0 created_site.1

created_site-IsApp : IsApp created_site.0
created_site-IsApp = (create-IsCreated number site created_site.0 created_site.1).is_app

create-IsAnswered_example :
    IsAnswered created_site.0 (codes "/api/u") (Uri.segments (codes "/api/u") none) 5
unfolding as_str
create-IsAnswered_example =
    create-IsAnswered number site created_site.0 site_routes 0 (Uri.segments (codes "/api/u") none)
      5 created_site.1 declared-site refl (refl, (refl, (refl, (refl, (refl, (refl, tt))))))

process_recognize-IsRecognized_example :
    IsRecognized created_site.0
      (find_endpoint created_site.0 (codes "/api/v") none).1
      (find_endpoint created_site.0 (codes "/api/v") none).0
      (process_recognize created_site.0 (codes "/api/v"))
process_recognize-IsRecognized_example =
    process_recognize-IsRecognized created_site.0 (codes "/api/v") created_site-IsApp

abbrev api_endpoint : Endpoint ℕ
api_endpoint = record {
  scope = index 0;
  ancestors = ScopeId.root ∷ index 0 ∷ [];
  uri = Uri.segments (codes "/api/u") none;
  handler = 5;
}

abbrev api_endpoints : List (Endpoint ℕ)
api_endpoints = api_endpoint ∷ []

infer_scope-IsInferred_example :
    (s : Scope (ScopeData ℕ)) × (infer_scope created_site.0 (codes "/ap") api_endpoints ≡ some s)
    × IsInferred created_site.0.scopes api_endpoints s
unfolding scope_at created_site
infer_scope-IsInferred_example =
    infer_scope-IsInferred created_site.0 (codes "/ap") api_endpoints created_site-IsApp.scopes
      (((_, refl), ((_, refl), tt)), tt)

abbrev replies : Replies ℕ Bytes Entries ℕ Bytes
replies = record {
  set_cookie = 20;
  content_length = 21;
  to_string = λ n. codes "5";
  cookies = λ rest. codes "a=b" ∷ [];
  extend_headers = λ headers more. headers;
  body_length = λ body. some 5;
}

abbrev hello : Output Entries Bytes
hello = record { status = 200; headers = []; body = codes "hello" }

abbrev empty_input : Input Entries ℕ
empty_input = record { response_headers = none; rest = 0 }

process_before_reply-IsAnnounced_example : IsAnnounced sample replies empty_input hello 5
process_before_reply-IsAnnounced_example =
    process_before_reply-IsAnnounced sample replies empty_input hello 5 sample-IsHttp refl

replied :
    (process_before_reply sample replies empty_input hello).1.headers
    ≡ (21, codes "5") ∷ (20, codes "a=b") ∷ []
unfolding process_before_reply get_entry remove_entries
replied = refl

-- A handle that gives a greeting at once.
abbrev greet : Recognized ℕ → TryFuture ℕ (Input Entries ℕ) ℕ (Output Entries Bytes)
greet recognized s i = (s, i, ok (ready hello))

abbrev respond_error : ℕ → Output Entries Bytes
respond_error e = record { status = e; headers = []; body = [] }

abbrev asked : AppFuture ℕ ℕ Entries ℕ
asked = call created_site.0 (codes "/api/u") 0

drive-declared_example :
    (e : Endpoint ℕ) × (e.uri ≡ Uri.segments (codes "/api/u") none)
    × (e.handler ≡ 5)
    × (let recognized : Recognized ℕ = record { endpoint = some e; captures = none } in
        drive_app sample replies number number respond_error greet 1 asked
        ≡ some (
            advanced sample replies number number respond_error greet
              (record asked { recognized = recognized; state = in_flight 5 })
              (drive 1 (greet recognized) 5 empty_input)))
unfolding as_str
drive-declared_example =
    drive-declared sample replies number number respond_error greet number site asked site_routes 0
      0 (Uri.segments (codes "/api/u") none) 5 created_site.1 declared-site refl
      (refl, (refl, (refl, (refl, (refl, (refl, tt)))))) refl refl

-- A handle that is pending once, and a responder that is ready at once.
abbrev wait_once : TryFuture Bool ℕ ℕ ℕ
wait_once false i = (true, i + 1, ok not_ready)
wait_once true i = (true, i + 1, ok (ready 7))

abbrev answer_now : TryFuture ℕ ℕ ℕ ℕ
answer_now b i = (b, i, ok (ready (b + 1)))

abbrev accept : ℕ → Result ℕ ℕ
accept y = ok y

drive-boxed_example :
    drive
      (1 + suc 0)
      (poll_boxed number number number wait_once number answer_now accept)
      (first false)
      0
    ≡ finished number number number wait_once number answer_now accept (drive 1 answer_now 7 2)
unfolding drive
drive-boxed_example =
    drive-boxed number number number wait_once number answer_now accept 1 0 false true true 0 1 2 7
      refl refl
