-- ===== src/Transaction/Server/Final.antt =====
-- rssip/src/transaction/server.rs: `send_final_response` and the tasks that it leaves behind.
use rssip.Prelude.{
  ℕ, ◌*◌, min, Bool, true, false, ◌&&◌, Text, List, [], ◌∷◌, Option, none, some, if◌then◌else◌,
  within_below,
}
use rssip.Message.StatusCode.{as_u16, is_final}
use rssip.Message.Messages.{
  Response, Transport, incoming_request, incoming_response, OutgoingResponse,
}
use rssip.Transaction.Fsm.{completed, confirmed, terminated}
use rssip.Transaction.Timers.{t1, t2, t4}
use rssip.Transaction.Wakes.{Wake, arrives, closes, interval_elapses, deadline_elapses}
use rssip.Transaction.Client.Wait.{is_invite}
use rssip.Transaction.Client.Create.{is_ack}
use rssip.Transaction.Server.Respond.{ServerTransaction, RetransTask, set_server_state, keep_target}
use rssip.Endpoint.Sending.{send_outgoing_response}
use rssip.Error.{custom, Result, ok, err, panic}

-- The loop that is spawned, with the time until its deadline: none, the one that waits for the
-- ACK of an INVITE, or the one that answers retransmitted requests.
pub data Absorber : Type 0 where
  none_left : Absorber
  await_ack answer_again : ℕ → Absorber

pub record Finished : Type 0 where
  pub server : ServerTransaction
  pub response : OutgoingResponse
  pub sent : List Text
  pub absorber : Absorber
  pub result : Result (Unit {0})

abbrev pub is_invite_tsx : ServerTransaction → Bool
is_invite_tsx s = is_invite s.request.request.method

abbrev pub is_reliable : ServerTransaction → Bool
is_reliable s = s.request.incoming_info.transport.is_reliable

abbrev pub finished :
    ServerTransaction → OutgoingResponse → List Text → Absorber → Result (Unit {0}) → Finished
finished s r sent a result = record {
  server = s;
  response = r;
  sent = sent;
  absorber = a;
  result = result;
}

abbrev pub absorber_of : Bool → Absorber
absorber_of invite_tsx = if invite_tsx then await_ack t4 else answer_again (t1 * 64)

-- The channel: from the task, which ends at the change of state, or the receiver itself.
abbrev pub take_channel :
    Option RetransTask → Bool → ServerTransaction → OutgoingResponse → List Text → Finished
take_channel (some t) receiver s r sent =
    finished (record s { task = none }) r sent (absorber_of (is_invite_tsx s)) (ok tt)
take_channel none true s r sent =
    finished (record s { receiver = false }) r sent (absorber_of (is_invite_tsx s)) (ok tt)
take_channel none false s r sent = finished s r sent none_left panic

-- Behind `self.send_response(&mut response).await?`.
abbrev pub final_sent : ServerTransaction → OutgoingResponse → List Text → Finished
final_sent s r sent =
    if is_invite_tsx s && within_below 200 299 (as_u16 r.response.code)
    then finished (set_server_state terminated s) r sent none_left (ok tt)
    else if is_reliable s
    then finished (set_server_state terminated (set_server_state completed s)) r sent none_left
        (ok tt)
    else take_channel s.task s.receiver (set_server_state completed s) r sent

abbrev pub final_turn :
    ServerTransaction
    → OutgoingResponse
    → List Text
    → Result (OutgoingResponse × List Text)
    → Finished
final_turn s r sent (ok (q, sent')) = final_sent (keep_target s q) q sent'
final_turn s r sent (err e) = finished s r sent none_left (err e)
final_turn s r sent panic = finished s r sent none_left panic

pub data Phase : Type 0 where
  runs ended : Phase

module _ (encode : Response → Option Text) (deliver : OutgoingResponse → Result Transport) where
  unfoldable pub send_final_response : ServerTransaction → OutgoingResponse → List Text → Finished
  send_final_response s r sent =
      if is_final r.response.code
      then final_turn s r sent (send_outgoing_response encode deliver r sent)
      else finished s r sent none_left (err custom)

  abbrev pub resent :
      ServerTransaction
      → OutgoingResponse
      → List Text
      → Result (OutgoingResponse × List Text)
      → ServerTransaction × OutgoingResponse × List Text
  resent s r sent (ok (q, sent')) = (keep_target s q, q, sent')
  resent s r sent (err e) = (s, r, sent)
  resent s r sent panic = (s, r, sent)

  -- `_ = self.send_response(&mut response).await`: an error is dropped.
  abbrev pub resend :
      ServerTransaction
      → OutgoingResponse
      → List Text
      → ServerTransaction × OutgoingResponse × List Text
  resend s r sent = resent s r sent (send_outgoing_response encode deliver r sent)

  abbrev pub confirm : ServerTransaction → ServerTransaction
  confirm s = set_server_state terminated (set_server_state confirmed s)

  -- The loop of an INVITE. An ACK leads to Confirmed and, T4 later, to Terminated.
  unfoldable pub await_ack_loop :
      ℕ
      → ServerTransaction
      → OutgoingResponse
      → List Text
      → List Wake
      → ServerTransaction × List Text × Phase
  await_ack_loop interval s r sent [] = (s, sent, runs)
  await_ack_loop interval s r sent (closes ∷ wakes) = (s, sent, ended)
  await_ack_loop interval s r sent (deadline_elapses ∷ wakes) =
      (set_server_state terminated s, sent, ended)
  await_ack_loop interval s r sent (interval_elapses ∷ wakes) =
      let (s', r', sent') = resend s r sent in
      await_ack_loop (min (interval * 2) t2) s' r' sent' wakes
  await_ack_loop interval s r sent (arrives (incoming_response m) ∷ wakes) =
      let (s', r', sent') = resend s r sent in await_ack_loop interval s' r' sent' wakes
  await_ack_loop interval s r sent (arrives (incoming_request m) ∷ wakes) =
      let (s', r', sent') = resend s r sent in
      let again = await_ack_loop interval s' r' sent' wakes in
      if is_ack m.request.method then (confirm s, sent, ended) else again

  -- The loop of the other methods: every message is answered again until the deadline.
  unfoldable pub answer_loop :
      ServerTransaction
      → OutgoingResponse
      → List Text
      → List Wake
      → ServerTransaction × List Text × Phase
  answer_loop s r sent [] = (s, sent, runs)
  answer_loop s r sent (closes ∷ wakes) = (set_server_state terminated s, sent, ended)
  answer_loop s r sent (deadline_elapses ∷ wakes) = (set_server_state terminated s, sent, ended)
  answer_loop s r sent (interval_elapses ∷ wakes) = answer_loop s r sent wakes
  answer_loop s r sent (arrives m ∷ wakes) =
      let (s', r', sent') = resend s r sent in answer_loop s' r' sent' wakes
