-- ===== src/Transaction/Client/Wait/Retransmission.antt =====
-- How often a client transaction retransmits, and that its wait ends.
use rssip.Prelude.{ℕ, zero, suc, ◌+◌, ◌*◌, ◌≤◌, ◌<◌, ◌≢◌, Bool, Text, List, [], ◌∷◌, Option, length}
use rssip.Message.Messages.{Request, IncomingResponse}
use rssip.Transaction.Client.Wait.{
  ClientTransaction, interval_elapses, waiting, retransmit_loop, next_interval,
}
use rssip.Transaction.Wakes.{Schedule, wakes_of}

-- The intervals that the loop arms, from the first on, are not reported before their end, and not
-- after the deadline.
abbrev pub Punctual : ℕ → ℕ → ℕ → Schedule → Type 0
Punctual now interval deadline [] = Unit
Punctual now interval deadline ((at, interval_elapses) ∷ es) =
    (now + interval ≤ at) × (at ≤ deadline) × Punctual at (next_interval interval) deadline es
Punctual now interval deadline ((at, w) ∷ es) = now ≤ at

-- The length of `k + 1` intervals that double.
abbrev pub intervals : ℕ → ℕ → ℕ
intervals zero i = i
intervals (suc k) i = i + intervals k (i * 2)

module _ (pred : IncomingResponse → Bool) (encode : Request → Option Text) where
  abbrev Bounded : ℕ → ℕ → ClientTransaction → List Text → Schedule → Type 0
  Bounded k interval c sent es =
      let r = retransmit_loop pred encode interval c sent (wakes_of es) in
      (length r.sent ≤ length sent + k) × (k < length es → r.result ≢ waiting)
