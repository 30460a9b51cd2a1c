-- ===== src/App/ReplyLaws.antt =====
-- tsukuyomi/src/app/service.rs: the headers of a reply, and a request for a declared route.
use tsukuyomi.Prelude.{ℕ, suc, ◌≡◌, refl, ◌∙◌, Option, none, some, All, get_elem?, false, ok}
use tsukuyomi.Http.{Http, IsHttp}
use tsukuyomi.Input.{Input}
use tsukuyomi.Future.{TryFuture}
use tsukuyomi.Future.Drive.{drive}
use tsukuyomi.Uri.Parse.{Uri, as_str}
use tsukuyomi.Recognizer.Routes.{IsPlain}
use tsukuyomi.App.Infer.{Endpoint}
use tsukuyomi.App.Config.{Config, create}
use tsukuyomi.App.Declared.{Routes, declared}
use tsukuyomi.App.AnswerLaws.{create-IsAnswered}
use tsukuyomi.App.Find.{Recognized}
use tsukuyomi.App.Service.{
  Output, init, in_flight, AppFuture, Replies, append_cookies, extend_supplement, or_insert_length,
  process_before_reply,
}
use tsukuyomi.App.ServiceLaws.{drive_app, advanced, drive-init}

module _ {ServiceUri Method Name Value Headers Rest Body : Type 0}
    (h : Http ServiceUri Method Name Value Headers)
    (replies : Replies Name Value Headers Rest Body) where
  -- The headers of the reply before the length is looked at.
  abbrev pub supplied : Input Headers Rest → Output Headers Body → Headers
  supplied input output =
      extend_supplement h replies
        (append_cookies h replies output.headers (replies.cookies input.rest))
        input.response_headers

  -- A body of a known length is announced: by the `Content-Length` that is there after the cookies
  -- and the supplemental headers, and otherwise by the length of the body.
  pub record IsAnnounced (input : Input Headers Rest) (output : Output Headers Body) (size : ℕ)
      : Type 0 where
    pub stays :
        (v : Value)
        → h.get_header (supplied input output) replies.content_length ≡ some v
        → h.get_header
            (process_before_reply h replies input output).1.headers
            replies.content_length
          ≡ some v
    pub added :
        h.get_header (supplied input output) replies.content_length ≡ none
        → h.get_header
            (process_before_reply h replies input output).1.headers
            replies.content_length
          ≡ some (h.from_shared_unchecked (replies.to_string size))
    pub others :
        (k : Name)
        → h.eq_name replies.content_length k ≡ false
        → h.get_header (process_before_reply h replies input output).1.headers k
          ≡ h.get_header (supplied input output) k
    pub body_stays : (process_before_reply h replies input output).1.body ≡ output.body
    pub taken : (process_before_reply h replies input output).0.response_headers ≡ none

  get-or_insert_length :
      IsHttp h
      → (headers : Headers) (size : ℕ) (found : Option Value) (k : Name)
      → h.eq_name replies.content_length k ≡ false
      → h.get_header (or_insert_length h replies headers size found) k ≡ h.get_header headers k
  get-or_insert_length laws headers size (some v) k other = refl
  get-or_insert_length laws headers size none k other =
      laws.get-insert headers replies.content_length k
        (h.from_shared_unchecked (replies.to_string size))
      ∙ (rw other refl)

  pub process_before_reply-IsAnnounced :
      (input : Input Headers Rest) (output : Output Headers Body) (size : ℕ)
      → IsHttp h
      → replies.body_length output.body ≡ some size
      → IsAnnounced input output size
  unfolding process_before_reply
  process_before_reply-IsAnnounced input output size laws known = record {
    stays = λ v there. rw (known, there) there;
    added = λ absent.
        rw (known, absent)
          (laws.get-insert (supplied input output) replies.content_length replies.content_length
              (h.from_shared_unchecked (replies.to_string size))
            ∙ (rw (laws.eq_self replies.content_length) refl));
    others = λ k other. rw known (
        get-or_insert_length laws (supplied input output) size
          (h.get_header (supplied input output) replies.content_length) k other);
    body_stays = refl;
    taken = refl;
  }

module _ {ServiceUri Method Name Value Headers Rest Body K H S E : Type 0}
    (h : Http ServiceUri Method Name Value Headers) (replies : Replies Name Value Headers Rest Body)
    (start : H → S) (status_error : ℕ → E) (into_response : E → Output Headers Body)
    (poll_handle : Recognized H → TryFuture S (Input Headers Rest) E (Output Headers Body))
    (into : K → H) where
  -- A request for a route without wildcards that the configuration declares is served, by the
  -- application that `create` makes, as the handle of the declared handler is driven.
  pub drive-declared :
      (config : Config K) (future : AppFuture H S Headers Rest) (rs : Routes K) (i n : ℕ)
      (uri : Uri) (f : K)
      → create into config ≡ ok future.inner
      → declared Uri.root (λ g. g) config ≡ ok rs
      → get_elem? rs i ≡ some (uri, f)
      → All IsPlain (as_str uri)
      → future.path ≡ as_str uri
      → future.state ≡ init
      → (e : Endpoint H) × (e.uri ≡ uri)
        × (e.handler ≡ into f)
        × (let recognized : Recognized H = record { endpoint = some e; captures = none } in
            drive_app h replies start status_error into_response poll_handle (suc n) future
            ≡ some (
                advanced h replies start status_error into_response poll_handle
                  (record future { recognized = recognized; state = in_flight (start (into f)) })
                  (drive (suc n) (poll_handle recognized) (start (into f)) future.input)))
  drive-declared config future rs i n uri f made declares at plain asked first =
      let a = create-IsAnswered into config future.inner rs i uri f made declares at plain in
      (
        a.endpoint,
        a.uri_of,
        a.handler_of_uri,
        drive-init h replies start status_error into_response poll_handle n future
            (record { endpoint = some a.endpoint; captures = none }) (into f) first
            (rw asked a.recognized),
      )
