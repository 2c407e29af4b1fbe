-- ===== src/Tests/Endpoint.antt =====
-- The delivery of a concrete response.
use rssip.Prelude.{ℕ, arith, if◌then◌else◌, ◌≢◌, Bool, ◌==◌, Text, [], ◌∷◌, List}
use rssip.Message.Messages.{Transport, OutgoingResponse}
use rssip.Error.{transport, Result, ok, err}
use rssip.Tests.Fixtures.{udp, tcp}

-- Address 2 has no transport, and only the reliable transport takes messages.
abbrev select_transport : ℕ → Result Transport
select_transport addr = if addr == 2 then err transport else if addr == 1 then ok udp else ok tcp

abbrev send_msg : Transport → Text → Bool
send_msg t bytes = t.is_reliable

abbrev resolve : OutgoingResponse → Result (List ℕ)
resolve q = ok (2 ∷ 1 ∷ 3 ∷ [])

never_panics : (addr : ℕ) → select_transport addr ≢ Result.panic
never_panics addr = λ e. ground arith
