-- ===== src/Transaction/Client/Create.antt =====
-- rssip/src/transaction/client.rs: `ClientTransaction::send`. `create` is what
-- `Endpoint::create_outgoing_request` makes of the request: it resolves and selects a transport.
-- `fresh` is the branch that `generate_branch` draws, `via_of` is `Via::new_with_transport` for a
-- transport, and `channel` names the channel that is made.
use rssip.Prelude.{
  ℕ, ◌+◌, ◌*◌, Bool, true, false, Text, List, [], ◌∷◌, Option, none, some, if◌then◌else◌,
}
use rssip.Message.Method.{SipMethod, ack}
use rssip.Message.Headers.{Via, Header, via}
use rssip.Message.Messages.{Request, Transport, OutgoingRequest}
use rssip.Transaction.Fsm.{calling, trying, new}
use rssip.Transaction.Timers.{t1}
use rssip.Transaction.Key.{uac, new_key_3261}
use rssip.Transaction.Registry.{Table, add_transaction}
use rssip.Transaction.Client.Wait.{ClientTransaction, is_invite}
use rssip.Endpoint.Sending.{send_outgoing_request}
use rssip.Error.{Result, ok, panic, ◌>>=◌}

-- `find_map_mut_header!(headers, Via)`: the first Via, and how to write it back.
abbrev pub find_via : List Header → Option Via
find_via [] = none
find_via (via v ∷ hs) = some v
find_via (h ∷ hs) = find_via hs

abbrev pub write_via : Via → List Header → List Header
write_via v [] = []
write_via v (via w ∷ hs) = via v ∷ hs
write_via v (h ∷ hs) = h ∷ write_via v hs

abbrev pub branch_or_fresh : Text → Option Text → Text
branch_or_fresh fresh (some branch) = branch
branch_or_fresh fresh none = fresh

-- The headers that leave, and the branch of their first Via.
abbrev pub with_branch : Text → Via → Option Via → List Header → List Header × Text
with_branch fresh made none hs =
    let branch = branch_or_fresh fresh made.branch in
    (via (record made { branch = some branch }) ∷ hs, branch)
with_branch fresh made (some v) hs =
    let branch = branch_or_fresh fresh v.branch in
    (write_via (record v { branch = some branch }) hs, branch)

unfoldable pub ensure_branch : Text → Via → List Header → List Header × Text
ensure_branch fresh made hs = with_branch fresh made (find_via hs) hs

-- `matches!(method, SipMethod::Ack)`, the assertion's test.
abbrev pub is_ack : SipMethod → Bool
is_ack ack = true
is_ack _ = false

pub record Started : Type 0 where
  pub client : ClientTransaction
  pub table : Table
  pub sent : List Text

module _ (encode : Request → Option Text) (via_of : Transport → Text → Via) where
  -- Behind `create_outgoing_request`: `now` is the instant after the request was sent.
  unfoldable pub start :
      Text → ℕ → ℕ → Table → List Text → SipMethod → OutgoingRequest → Result Started
  unfolding ensure_branch
  start fresh channel now table sent method outgoing = do
    let (headers, branch) =
        ensure_branch fresh (via_of outgoing.target fresh) outgoing.request.headers
    let key = new_key_3261 uac method branch
    let request = record (outgoing.request) { headers = headers }
    (q, sent') ← send_outgoing_request encode (record outgoing { request = request }) sent
    let first = if is_invite method then calling else trying
    let client : ClientTransaction = record {
      key = key;
      state_machine = new first;
      request = q;
      peeked = none;
      timeout = now + t1 * 64;
    }
    ok (record { client = client; table = add_transaction table key channel; sent = sent' })

  unfoldable pub send :
      (Request → Result OutgoingRequest)
      → Text
      → ℕ
      → ℕ
      → Table
      → List Text
      → Request
      → Result Started
  unfolding start
  send create fresh channel now table sent request =
      if is_ack request.method
      then panic
      else (create request >>= start fresh channel now table sent request.method)
