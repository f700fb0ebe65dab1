-- ===== src/Scsync/Handler/Retry.antt =====
-- v2/scsync/src/handler.rs: `request_retry`, which sends a request until it is answered.
use das_protokoll.Base.{
  ℕ, zero, suc, ◌+◌, ◌≡◌, sym, ◌∙◌, ap, List, [], ◌∷◌, ◌++◌, replicate, arith, append-nil,
}

-- What the future waits for after a request: the delay is over, the channel of the answer has a value, or
-- its sender was dropped.
pub data Woken : Type 0 where
  elapsed answered canceled : Woken

-- With the number of requests that were sent; an error of the channel is `unreachable!`, a panic.
pub data Retry : Type 0 where
  waiting finished panicked : ℕ → Retry

unfoldable pub request_retry : ℕ → List Woken → Retry
request_retry sent [] = waiting (suc sent)
request_retry sent (elapsed ∷ rest) = request_retry (suc sent) rest
request_retry sent (answered ∷ rest) = finished (suc sent)
request_retry sent (canceled ∷ rest) = panicked (suc sent)

retried :
    (sent seconds : ℕ) (rest : List Woken)
    → request_retry sent (replicate seconds elapsed ++ rest) ≡ request_retry (sent + seconds) rest
unfolding request_retry
retried sent zero rest = ap (λ n. request_retry n rest) (omega arith)
retried sent (suc seconds) rest =
    retried (suc sent) seconds rest ∙ ap (λ n. request_retry n rest) (omega arith)

-- A request is sent at once and once more for each second that passes, and the task goes on until the
-- request is answered or its channel is dropped: with the answer it ends, and without the channel it
-- panics, whatever comes then.
pub request_retry_lem :
    (seconds : ℕ) (rest : List Woken)
    → (request_retry 0 (replicate seconds elapsed) ≡ waiting (suc seconds))
      × (request_retry 0 (replicate seconds elapsed ++ answered ∷ rest) ≡ finished (suc seconds))
      × (request_retry 0 (replicate seconds elapsed ++ canceled ∷ rest) ≡ panicked (suc seconds))
unfolding request_retry
request_retry_lem seconds rest =
    let total : 0 + seconds ≡ seconds = omega arith in
    (
      ap (request_retry 0) (sym (append-nil (replicate seconds elapsed)))
          ∙ retried 0 seconds []
          ∙ ap (λ n. waiting (suc n)) total,
      retried 0 seconds (answered ∷ rest) ∙ ap (λ n. finished (suc n)) total,
      retried 0 seconds (canceled ∷ rest) ∙ ap (λ n. panicked (suc n)) total,
    )
