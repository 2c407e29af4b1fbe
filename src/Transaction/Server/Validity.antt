-- ===== src/Transaction/Server/Validity.antt =====
-- The receiver of a server transaction is always held by somebody, so no `expect` fails.
use rssip.Prelude.{
  ◌≡◌, ◌≢◌, ◌⊎◌, ◌∙◌, inl, inr, refl, Bool, true, false, ◌&&◌, ◌||◌, Text, List, [], ◌∷◌, ◌++◌,
  Option, none, some, arith, if◌then◌else◌, Bool-cases, ℕ, ◌*◌, within_below,
}
use rssip.Message.StatusCode.{as_u16, is_final, is_provisional}
use rssip.Message.Messages.{Response, Transport, IncomingRequest, OutgoingResponse}
use rssip.Transaction.Fsm.{proceeding, completed, terminated, set_state, trying, new}
use rssip.Transaction.Timers.{t1, t4}
use rssip.Transaction.Registry.{Table}
use rssip.Transaction.Client.Wait.{is_invite}
use rssip.Transaction.Server.Respond.{
  ServerTransaction, RetransTask, Served, server_state, create, send_provisional_response,
  hand_over, spawn_task, set_server_state, keep_target,
}
use rssip.Transaction.Server.Final.{
  none_left, await_ack, answer_again, Finished, send_final_response, final_sent, take_channel,
  finished,
}
use rssip.Endpoint.Sending.{send_outgoing_response}
use rssip.Endpoint.Sending.Responses.{
  Delivers, send_outgoing_response-ne-panic, send_outgoing_response-keeps,
}
use rssip.Error.{Error, custom, Result, ok, err, panic, Result-cases}

abbrev is_absent : Option RetransTask → Bool
is_absent none = true
is_absent (some t) = false

-- The transaction holds its receiver exactly while no task does.
abbrev pub IsValid : ServerTransaction → Type 0
IsValid s = s.receiver ≡ is_absent s.task

-- What a provisional response leaves behind.
abbrev pub StaysValid : Served → Type 0
StaysValid v = IsValid v.server × (v.result ≢ panic)

-- A new transaction holds its receiver and has no task; it is in Proceeding for an INVITE and in Trying for another method.
pub create-IsValid :
    (r : IncomingRequest) (channel : ℕ) (table : Table) (s : ServerTransaction) (table' : Table)
    → create r channel table ≡ ok (s, table')
    → IsValid s × (server_state s ≡ (if is_invite r.request.method then proceeding else trying))
unfolding create new
create-IsValid r channel table s table' e = (ground arith, ground arith)

-- How sending a provisional response ends: with one message more and the receiver with a task, or
-- with an error and everything as it was. What is not provisional gets a custom error.
abbrev pub Ended : Bool → ServerTransaction → List Text → Served → Type 0
Ended true s sent v =
    ((v.result ≡ ok tt)
      × (v.server.receiver ≡ false)
      × (bytes : Text) × (v.sent ≡ sent ++ bytes ∷ []))
    ⊎ ((x : Error) × (v.result ≡ err x) × (v.server ≡ s) × (v.sent ≡ sent))
Ended false s sent v = (v.result ≡ err custom) × (v.server ≡ s) × (v.sent ≡ sent)

-- A response is on the wire: the transaction stays valid, and a task has the receiver.
abbrev ServedByTask : List Text → Served → Type 0
ServedByTask sent v =
    StaysValid v × (v.result ≡ ok tt) × (v.server.receiver ≡ false) × (v.sent ≡ sent)

spawn_task-IsValid :
    (h : Bool) (s : ServerTransaction) (r : OutgoingResponse) (sent : List Text)
    → h ≡ true
    → ServedByTask sent (spawn_task h s r sent)
spawn_task-IsValid true s r sent v = ((refl, λ e. cc), refl, refl, refl)
spawn_task-IsValid false s r sent v = cc

hand_over-IsValid :
    (t : Option RetransTask) (s : ServerTransaction) (r : OutgoingResponse) (sent : List Text)
    → s.receiver ≡ is_absent t
    → ServedByTask sent (hand_over t s r sent)
hand_over-IsValid none s r sent v = spawn_task-IsValid s.receiver s r sent v
hand_over-IsValid (some t) s r sent v = ((v, λ e. cc), refl, v, refl)

module _ (encode : Response → Option Text) (deliver : OutgoingResponse → Result Transport)
    (delivers : Delivers deliver) where
  -- If resolving and sending never panic, then sending a response as a provisional one to a valid
  -- transaction keeps it valid (it holds its receiver exactly while no task does), and does not
  -- panic. A 1xx response either is sent, as one message more, with a task that holds the receiver
  -- afterwards, or there is an error, and neither the transaction nor what was sent has changed. Any
  -- other response gives the custom error and changes nothing, where the method's documentation
  -- promises a panic.
  pub send_provisional_response-IsValid :
      (s : ServerTransaction) (r : OutgoingResponse) (sent : List Text)
      → IsValid s
      → let v = send_provisional_response encode deliver s r sent in
        StaysValid v × Ended (is_provisional r.response.code) s sent v
  unfolding send_provisional_response
  send_provisional_response-IsValid s r sent v =
      elim (Bool-cases (is_provisional r.response.code)) [
        | inr other ↦ rw other ((v, λ e. cc), (refl, refl, refl))
        | inl fits ↦ rw fits (elim (Result-cases (send_outgoing_response encode deliver r sent)) [
          | inl ((q, sent'), e) ↦
              let (same, longer) = send_outgoing_response-keeps encode deliver r sent q sent' e in
              let (valid, done, held, all) = hand_over-IsValid s.task (keep_target s q) q sent' v in
              rw e (valid, inl (done, held, q.encoded, all ∙ longer))
          | inr (inl (x, e)) ↦ rw e ((v, λ e'. cc), inr (x, refl, refl, refl))
          | inr (inr e) ↦ absurd (send_outgoing_response-ne-panic encode deliver r sent delivers e)
        ])
      ]
  -- Without a task the receiver is at hand; with one it comes back from the task.

take_channel-ok :
    (t : Option RetransTask) (h : Bool) (s : ServerTransaction) (r : OutgoingResponse)
    (sent : List Text)
    → h ≡ is_absent t
    → let f = take_channel t h s r sent in
      (f.result ≡ ok tt)
      × (f.absorber
          ≡ (if is_invite s.request.request.method then await_ack t4 else answer_again (64 * t1)))
      × (server_state f.server ≡ server_state s)
      × (f.sent ≡ sent)
take_channel-ok (some t) h s r sent v = (refl, refl, refl, refl)
take_channel-ok none true s r sent v = (refl, refl, refl, refl)
take_channel-ok none false s r sent v = cc

-- The transaction is over at once: on a reliable transport, or with a 2xx to an INVITE.
abbrev pub over_at_once : ServerTransaction → OutgoingResponse → Bool
over_at_once s r =
    (is_invite s.request.request.method && within_below 200 299 (as_u16 r.response.code))
    || s.request.incoming_info.transport.is_reliable

-- What a final response leaves behind, once it is sent.
abbrev pub Answered : Bool → ServerTransaction → List Text → Finished → Type 0
Answered over s sent f =
    (f.result ≡ ok tt)
    × (f.absorber ≡ (
        if over
        then none_left
        else if is_invite s.request.request.method
        then await_ack t4
        else answer_again (64 * t1)))
    × (server_state f.server ≡ (if over then terminated else completed))
    × (f.sent ≡ sent)

over-cases :
    (a b : Bool) (x y z : Finished) (P : Bool → Finished → Type 0)
    → P true x
    → P true y
    → P false z
    → P (a || b) (if a then x else if b then y else z)
over-cases true b x y z P p q r = p
over-cases false true x y z P p q r = q
over-cases false false x y z P p q r = r

final_sent-cases :
    (s : ServerTransaction) (r : OutgoingResponse) (sent : List Text)
    → IsValid s
    → Answered (over_at_once s r) s sent (final_sent s r sent)
unfolding set_state
final_sent-cases s r sent v =
    over-cases (is_invite s.request.request.method && within_below 200 299 (as_u16 r.response.code))
      s.request.incoming_info.transport.is_reliable _ _ _ (λ over f. Answered over s sent f)
      (refl, refl, refl, refl) (refl, refl, refl, refl)
      (take_channel-ok s.task s.receiver (set_server_state completed s) r sent v)

module _ (encode : Response → Option Text) (deliver : OutgoingResponse → Result Transport) where
  -- In a valid transaction, a final response whose sending succeeds is on the wire once more, and
  -- the call returns Ok. An INVITE answered with 2xx, and every transaction on a reliable transport,
  -- is Terminated and leaves no task; any other is Completed and leaves a task, which waits T4 for
  -- the ACK of an INVITE, or answers the retransmissions of another request for 64*T1. This holds
  -- with or without a provisional response sent before.
  pub send_final_response-cases :
      (s : ServerTransaction) (r q : OutgoingResponse) (sent sent' : List Text)
      → IsValid s
      → is_final r.response.code ≡ true
      → send_outgoing_response encode deliver r sent ≡ ok (q, sent')
      → (sent' ≡ sent ++ q.encoded ∷ [])
        × Answered (over_at_once s r) s sent' (send_final_response encode deliver s r sent)
  unfolding send_final_response
  send_final_response-cases s r q sent sent' v final e =
      let (same, longer) = send_outgoing_response-keeps encode deliver r sent q sent' e in
      (longer, rw (final, e) (rw⁻¹ same (final_sent-cases (keep_target s q) q sent' v)))

  -- A final response whose sending fails makes the call return that error. The transaction, which
  -- the call consumes, keeps its state and leaves no task behind.
  pub send_final_response-err :
      (s : ServerTransaction) (r : OutgoingResponse) (sent : List Text) (x : Error)
      → is_final r.response.code ≡ true
      → send_outgoing_response encode deliver r sent ≡ err x
      → send_final_response encode deliver s r sent ≡ finished s r sent none_left (err x)
  unfolding send_final_response
  send_final_response-err s r sent x e h = rw (e, h)
