-- ===== src/Files/Stream.antt =====
-- tsukuyomi/src/fs.rs: `ReadStream`. A read is `blocking_io` of the read into a buffer of that size;
-- the state `Gone` only stands while a poll is at work.
use tsukuyomi.Prelude.{
  ℕ, zero, suc, ◌≡◌, refl, sym, ap, ◌∙◌, Option, none, some, [], ◌∷◌, ◌++◌, append_assoc, Bytes, ok,
  err,
}
use tsukuyomi.Future.{ready, not_ready, Poll}
use tsukuyomi.Files.{State, reading, eof}

module _ {File E : Type 0} (read : File → ℕ → File × Poll E Bytes) where
  -- A poll of the file: an empty buffer is the end, and the next round of the loop.
  abbrev pub read_polled : ℕ → File × Poll E Bytes → State File × Poll E (Option Bytes)
  read_polled size (file, ok (ready [])) = (eof, ok (ready none))
  read_polled size (file, ok (ready (c ∷ s))) = (reading file size, ok (ready (some (c ∷ s))))
  read_polled size (file, ok not_ready) = (reading file size, ok not_ready)
  read_polled size (file, err e) = (reading file size, err e)

  -- `Stream for ReadStream`
  unfoldable pub poll_stream : State File → State File × Poll E (Option Bytes)
  poll_stream (reading file size) = read_polled size (read file size)
  poll_stream eof = (eof, ok (ready none))

  -- What a reader of the stream has after a poll.
  abbrev pub append_polled : Bytes → State File × Poll E (Option Bytes) → Bytes × State File
  append_polled got (s, ok (ready (some chunk))) = (got ++ chunk, s)
  append_polled got (s, _) = (got, s)

  -- The reader polls so many times, after errors too.
  unfoldable pub collect_chunks : ℕ → Bytes → State File → Bytes × State File
  unfolding poll_stream
  collect_chunks zero got s = (got, s)
  collect_chunks (suc n) got s =
      let (got', s') = append_polled got (poll_stream s) in collect_chunks n got' s'

  -- What is documented of a read, where `rest` is what is left of a file: a read takes a part from
  -- the front, and an empty part only at the end; without an answer it takes nothing.
  abbrev pub IsTaken : Bytes → Bytes → Poll E Bytes → Type 0
  IsTaken before after (ok (ready chunk)) = (chunk ++ after ≡ before) × (chunk ≡ [] → before ≡ [])
  IsTaken before after (ok not_ready) = after ≡ before
  IsTaken before after (err e) = after ≡ before

  module _ (rest : File → Bytes) (size : ℕ)
      (takes : (file : File)
        → IsTaken (rest file) (rest (read file size).0) (read file size).1) where
    abbrev pub left_of : State File → Bytes
    left_of (reading file n) = rest file
    left_of eof = []

    -- The stream reads with this buffer.
    abbrev pub HasSize : State File → Type 0
    HasSize (reading file n) = n ≡ size
    HasSize eof = Unit

    step-whole :
        (got whole before : Bytes) (p : File × Poll E Bytes)
        → IsTaken before (rest p.0) p.1
        → got ++ before ≡ whole
        → let (got', s') = append_polled got (read_polled size p) in
          (got' ++ left_of s' ≡ whole) × HasSize s'
    step-whole got whole before (file, ok (ready [])) (same, ends) e =
        (ap (λ b. got ++ b) (sym (ends refl)) ∙ e, tt)
    step-whole got whole before (file, ok (ready (c ∷ s))) (same, ends) e =
        (append_assoc got (c ∷ s) (rest file) ∙ ap (λ b. got ++ b) same ∙ e, refl)
    step-whole got whole before (file, ok not_ready) same e = (ap (λ b. got ++ b) same ∙ e, refl)
    step-whole got whole before (file, err x) same e = (ap (λ b. got ++ b) same ∙ e, refl)

    poll-whole :
        (got whole : Bytes) (s : State File)
        → HasSize s
        → got ++ left_of s ≡ whole
        → let (got', s') = append_polled got (poll_stream s) in
          (got' ++ left_of s' ≡ whole) × HasSize s'
    unfolding poll_stream
    poll-whole got whole (reading file n) h e =
        rw h (step-whole got whole (rest file) (read file size) (takes file) e)
    poll-whole got whole eof h e = (e, tt)

    -- However often a stream is polled, and whatever polls are pending or fail, the chunks that it
    -- gave, in order, and what is left of the file are the file: nothing is lost, doubled or moved.
    pub collect_chunks-whole :
        (n : ℕ) (got whole : Bytes) (s : State File)
        → HasSize s
        → got ++ left_of s ≡ whole
        → let (got', s') = collect_chunks n got s in got' ++ left_of s' ≡ whole
    unfolding collect_chunks
    collect_chunks-whole zero got whole s h e = e
    collect_chunks-whole (suc n) got whole s h e =
        let (e', h') = poll-whole got whole s h e in collect_chunks-whole n _ whole _ h' e'
