-- ===== src/Extractor/Tests.antt =====
-- tsukuyomi/src/extractor/ext.rs: runs of the combinators, and witnesses.
use tsukuyomi.Prelude.{ℕ, Bool, ◌+◌, ◌≡◌, refl, true, false, some, none, ok}
use tsukuyomi.Future.{ready, gone}
use tsukuyomi.Future.Ending.{drive_some}
use tsukuyomi.Future.Sequence.{sequence}
use tsukuyomi.Future.Drive.{drive}
use tsukuyomi.Future.Sample.{poll_twice, poll_failing}
use tsukuyomi.Extractor.Ext.{OrFuture, poll_chain, start_chain, poll_or}
use tsukuyomi.Extractor.Laws.{drive-chain}
use tsukuyomi.Extractor.Race.{IsRaced, both, poll_or-IsRaced}

-- Two extractors that are each pending once.
drive-chain_example :
    drive_some 3
      (poll_chain (λ e. e) (λ e. e) (λ a b. a + b) poll_twice poll_twice)
      (start_chain (false, 5) (false, 7))
      0
    ≡ some (record { left = gone; right = gone }, 2, ok (ready 12))
unfolding sequence drive
drive-chain_example =
    drive-chain (λ e. e) (λ e. e) (λ a b. a + b) poll_twice poll_twice 3 (false, 5) (false, 7) 0

abbrev raced : OrFuture ℕ (Bool × ℕ)
raced = record { left = some 3; right = some (true, 7) }

poll_or-IsRaced_example :
    IsRaced
      (λ e. e)
      (λ e. e)
      poll_failing
      poll_twice
      raced
      0
      (poll_or (λ e. e) (λ e. e) poll_failing poll_twice raced 0)
poll_or-IsRaced_example =
    poll_or-IsRaced (λ e. e) (λ e. e) poll_failing poll_twice raced 0 (both 3 (true, 7))

-- The left fails, and the right answers in the same poll.
left_fails :
    poll_or
      (λ e. e)
      (λ e. e)
      poll_failing
      poll_twice
      (record { left = some 3; right = some (true, 7) })
      0
    ≡ some (record { left = none; right = some (true, 7) }, 1, ok (ready 7))
unfolding poll_or
left_fails = refl
