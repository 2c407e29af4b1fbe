-- ===== src/Transaction/Client/Routes.antt =====
-- A response that echoes the topmost Via of a request finds the client transaction.
use mathlib.Core.Logic.{if_pos}
use rssip.Prelude.{
  ℕ, ◌≡◌, refl, ◌∙◌, true, Text, List, [], ◌∷◌, Option, none, some, starts_with, arith,
}
use rssip.Message.Method.{SipMethod}
use rssip.Message.Headers.{Via, Header, via}
use rssip.Message.Messages.{
  Request, Transport, OutgoingRequest, IncomingResponse, incoming_response,
}
use rssip.Transaction.Key.{
  uac, TransactionKey-discrete, rfc3261_branch_id, new_key_3261, from_response,
}
use rssip.Transaction.Registry.{Table, add_transaction, sent_to, route_response}
use rssip.Transaction.Registry.Routing.{
  SameMethod, SameMethod-key_method, get_entry-add_transaction,
}
use rssip.Transaction.Client.Create.{
  find_via, write_via, with_branch, ensure_branch, Started, start,
}
use rssip.Endpoint.Sending.{send_outgoing_request}
use rssip.Endpoint.Sending.Encoded.{send_outgoing_request-keeps}
use rssip.Error.{ok, >>=-eq-ok}

find_via-write_via :
    (v u : Via) (hs : List Header) → find_via hs ≡ some u → find_via (write_via v hs) ≡ some v
find_via-write_via v u [] e = cc
find_via-write_via v u (via w ∷ hs) e = refl
find_via-write_via v u (h ∷ hs) e = find_via-write_via v u hs e

with_branch-find_via :
    (fresh : Text) (made : Via) (o : Option Via) (hs : List Header)
    → find_via hs ≡ o
    → let (headers, branch) = with_branch fresh made o hs in
      (v : Via) × (find_via headers ≡ some v) × (v.branch ≡ some branch)
with_branch-find_via fresh made none hs e = (_, refl, refl)
with_branch-find_via fresh made (some u) hs e = (_, find_via-write_via _ u hs e, refl)

-- The headers that leave have the branch of the key in their first Via.
ensure_branch-find_via :
    (fresh : Text) (made : Via) (hs : List Header)
    → let (headers, branch) = ensure_branch fresh made hs in
      (v : Via) × (find_via headers ≡ some v) × (v.branch ≡ some branch)
unfolding ensure_branch
ensure_branch-find_via fresh made hs = with_branch-find_via fresh made (find_via hs) hs refl

route_response-add_transaction :
    (table : Table) (m : SipMethod) (b : Text) (entry : ℕ) (r : IncomingResponse)
    → r.incoming_info.mandatory_headers.via.branch ≡ some b
    → starts_with b rfc3261_branch_id ≡ true
    → SameMethod m r.incoming_info.mandatory_headers.cseq.method
    → route_response (add_transaction table (new_key_3261 uac m b) entry) r
      ≡ ok (sent_to entry (incoming_response r))
unfolding route_response from_response
route_response-add_transaction table m b entry r e c same =
    let n = r.incoming_info.mandatory_headers.cseq.method in
    let key = new_key_3261 uac m b in
    let key' = new_key_3261 uac n b in
    let eq : key ≡ key' = unfold new_key_3261 in cc (SameMethod-key_method m n same) in
    rw
      (
        e,
        c,
        get_entry-add_transaction table key key' entry,
        if_pos (TransactionKey-discrete key key') eq,
      )
      refl

module _ (encode : Request → Option Text) (via_of : Transport → Text → Via) where
  -- What a transaction that starts leaves in the table and in its request.
  start-inversion :
      (fresh : Text) (channel now : ℕ) (table : Table) (sent : List Text) (method : SipMethod)
      (outgoing : OutgoingRequest) (r : Started)
      → start encode via_of fresh channel now table sent method outgoing ≡ ok r
      → let (headers, branch) =
          ensure_branch fresh (via_of outgoing.target fresh) outgoing.request.headers in
        (r.table ≡ add_transaction table (new_key_3261 uac method branch) channel)
        × (r.client.request.request.headers ≡ headers)
  unfolding start
  start-inversion fresh channel now table sent method outgoing r e =
      let headers =
        (ensure_branch fresh (via_of outgoing.target fresh) outgoing.request.headers).0 in
      let o : OutgoingRequest = record outgoing {
        request = record (outgoing.request) { headers = headers };
      } in
      let ((q, sent'), h, same) = >>=-eq-ok (send_outgoing_request encode o sent) _ e in
      let (kept, _) = send_outgoing_request-keeps encode o sent h in
      (ground arith, ground (arith, kept))

  -- Let v be the first Via of the request that a client transaction has sent when it starts. Every
  -- response whose topmost Via has v's branch, one with the magic cookie, and whose CSeq method is
  -- that of the request (INVITE and ACK counting as one) reaches the transaction's channel, whatever
  -- else is in the table.
  pub start-route_response :
      (fresh : Text) (channel now : ℕ) (table : Table) (sent : List Text) (method : SipMethod)
      (outgoing : OutgoingRequest) (r : Started) (v : Via) (b : Text) (res : IncomingResponse)
      → start encode via_of fresh channel now table sent method outgoing ≡ ok r
      → find_via r.client.request.request.headers ≡ some v
      → res.incoming_info.mandatory_headers.via.branch ≡ v.branch
      → v.branch ≡ some b
      → starts_with b rfc3261_branch_id ≡ true
      → SameMethod method res.incoming_info.mandatory_headers.cseq.method
      → route_response r.table res ≡ ok (sent_to channel (incoming_response res))
  start-route_response fresh channel now table sent method outgoing r v b res e found echo is cookie
        same =
      let (tables, headers) = start-inversion fresh channel now table sent method outgoing r e in
      let made = via_of outgoing.target fresh in
      let (u, top, branch) = ensure_branch-find_via fresh made outgoing.request.headers in
      let same_via : u ≡ v = ground (arith, top, found, headers) in
      let same_branch : (ensure_branch fresh made outgoing.request.headers).1 ≡ b =
        ground (arith, branch, same_via, is) in
      rw (tables, same_branch)
        (route_response-add_transaction table method b channel res (echo ∙ is) cookie same)
