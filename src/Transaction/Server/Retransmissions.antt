-- ===== src/Transaction/Server/Retransmissions.antt =====
-- What the tasks of a server transaction send again, and how the wait for the ACK ends.
use mathlib.Core.List.{append-nil, append_assoc}
use rssip.Prelude.{
  ℕ, suc, ◌*◌, min, ◌≡◌, inl, inr, refl, sym, ◌∙◌, Bool, true, false, Text, List, [], ◌∷◌, ◌++◌,
  Option, some, replicate, if◌then◌else◌, Bool-cases,
}
use rssip.Message.Messages.{
  Response, Transport, IncomingMessage, incoming_request, incoming_response, OutgoingResponse,
}
use rssip.Transaction.Fsm.{terminated, set_state}
use rssip.Transaction.Timers.{t2}
use rssip.Transaction.Wakes.{Wake, arrives, closes, interval_elapses, deadline_elapses}
use rssip.Transaction.Client.Create.{is_ack}
use rssip.Transaction.Server.Respond.{
  ServerTransaction, RetransTask, TaskEvent, state_changes, message_arrives, server_state,
  task_loop, latest, keep_target,
}
use rssip.Transaction.Server.Final.{Phase, ended, await_ack_loop}
use rssip.Endpoint.Sending.{encode_response_if_empty, send_outgoing_response}
use rssip.Error.{Result, ok}

-- Every response is delivered.
abbrev pub Accepts : (OutgoingResponse → Result Transport) → Type 0
Accepts deliver = (q : OutgoingResponse) → (t : Transport) × (deliver q ≡ ok t)

-- The messages that the task of a provisional response reads before the state changes.
abbrev pub messages : List TaskEvent → ℕ
messages [] = 0
messages (state_changes ∷ events) = 0
messages (message_arrives ∷ events) = suc (messages events)

abbrev is_ack_message : IncomingMessage → Bool
is_ack_message (incoming_request m) = is_ack m.request.method
is_ack_message (incoming_response m) = false

-- The events that make the loop of an INVITE send the response again, up to what ends it.
abbrev pub resends : List Wake → ℕ
resends [] = 0
resends (closes ∷ wakes) = 0
resends (deadline_elapses ∷ wakes) = 0
resends (interval_elapses ∷ wakes) = suc (resends wakes)
resends (arrives m ∷ wakes) = let rest = resends wakes in if is_ack_message m then 0 else suc rest

-- Whether an ACK or the deadline comes before the end of the channel.
abbrev pub finishes : List Wake → Bool
finishes [] = false
finishes (closes ∷ wakes) = false
finishes (deadline_elapses ∷ wakes) = true
finishes (interval_elapses ∷ wakes) = finishes wakes
finishes (arrives m ∷ wakes) = let rest = finishes wakes in if is_ack_message m then true else rest

module _ (encode : Response → Option Text) (deliver : OutgoingResponse → Result Transport)
    (accepts : Accepts deliver) where
  kept_encoding :
      (r : OutgoingResponse) (l : Text) (b : ℕ) (bytes : Text)
      → l ≡ b ∷ bytes
      → encode_response_if_empty encode deliver r l ≡ ok r
  kept_encoding r [] b bytes e = cc
  kept_encoding r (c ∷ cs) b bytes e = refl

  send_outgoing_response-encoded :
      (r : OutgoingResponse) (sent : List Text) (b : ℕ) (bytes : Text)
      → r.encoded ≡ b ∷ bytes
      → (t : Transport) × (send_outgoing_response encode deliver r sent
          ≡ ok (record r { target = some t }, sent ++ r.encoded ∷ []))
  unfolding send_outgoing_response
  send_outgoing_response-encoded r sent b bytes e =
      let (t, d) = accepts r in (t, rw (kept_encoding r r.encoded b bytes e, d))

  task_loop-encoded :
      (r : OutgoingResponse) (b : ℕ) (bytes : Text) (sent : List Text) (events : List TaskEvent)
      → r.encoded ≡ b ∷ bytes
      → (task_loop encode deliver (record { response = r; queue = [] }) sent events).1
        ≡ sent ++ replicate (messages events) r.encoded
  unfolding task_loop
  task_loop-encoded r b bytes sent [] e = sym (append-nil sent)
  task_loop-encoded r b bytes sent (state_changes ∷ events) e = sym (append-nil sent)
  task_loop-encoded r b bytes sent (message_arrives ∷ events) e =
      let (t, s) = send_outgoing_response-encoded r sent b bytes e in
      rw (s, task_loop)
        (task_loop-encoded (record r { target = some t }) b bytes (sent ++ r.encoded ∷ []) events e
          ∙ append_assoc sent (r.encoded ∷ []) (replicate (messages events) r.encoded))

  -- Behind a response that is encoded, the loop of an INVITE sends it once for each event that asks
  -- for it, and ends in Terminated if an ACK or the deadline comes.
  abbrev AwaitsAck :
      ServerTransaction × List Text × Phase → OutgoingResponse → List Text → List Wake → Type 0
  AwaitsAck (s, sent', phase) r sent wakes =
      (sent' ≡ sent ++ replicate (resends wakes) r.encoded)
      × (finishes wakes ≡ true → (server_state s ≡ terminated) × (phase ≡ ended))

  await_ack_loop-AwaitsAck :
      (interval : ℕ) (s : ServerTransaction) (r : OutgoingResponse) (b : ℕ) (bytes : Text)
      (sent : List Text) (wakes : List Wake)
      → r.encoded ≡ b ∷ bytes
      → AwaitsAck (await_ack_loop encode deliver interval s r sent wakes) r sent wakes
  unfolding await_ack_loop set_state
  await_ack_loop-AwaitsAck i s r b bytes sent [] e = (sym (append-nil sent), λ h. cc)
  await_ack_loop-AwaitsAck i s r b bytes sent (closes ∷ wakes) e = (sym (append-nil sent), λ h. cc)
  await_ack_loop-AwaitsAck i s r b bytes sent (deadline_elapses ∷ wakes) e =
      (sym (append-nil sent), λ h. (refl, refl))
  await_ack_loop-AwaitsAck i s r b bytes sent (interval_elapses ∷ wakes) e =
      let (t, sent_again) = send_outgoing_response-encoded r sent b bytes e in
      let q = record r { target = some t } in
      let (more, over) =
        await_ack_loop-AwaitsAck (min (i * 2) t2) (keep_target s q) q b bytes
          (sent ++ r.encoded ∷ []) wakes e in
      rw (sent_again, await_ack_loop)
        (more ∙ append_assoc sent (r.encoded ∷ []) (replicate (resends wakes) r.encoded), over)
  await_ack_loop-AwaitsAck i s r b bytes sent (arrives (incoming_response m) ∷ wakes) e =
      let (t, sent_again) = send_outgoing_response-encoded r sent b bytes e in
      let q = record r { target = some t } in
      let (more, over) =
        await_ack_loop-AwaitsAck i (keep_target s q) q b bytes (sent ++ r.encoded ∷ []) wakes e in
      rw (sent_again, await_ack_loop)
        (more ∙ append_assoc sent (r.encoded ∷ []) (replicate (resends wakes) r.encoded), over)
  await_ack_loop-AwaitsAck i s r b bytes sent (arrives (incoming_request m) ∷ wakes) e =
      elim (Bool-cases (is_ack m.request.method)) [
        | inl acked ↦ rw acked (sym (append-nil sent), λ h. (refl, refl))
        | inr other ↦
            let (t, sent_again) = send_outgoing_response-encoded r sent b bytes e in
            let q = record r { target = some t } in
            let (more, over) =
              await_ack_loop-AwaitsAck i (keep_target s q) q b bytes (sent ++ r.encoded ∷ []) wakes
                e in
            rw (other, sent_again, await_ack_loop)
              (
                more ∙ append_assoc sent (r.encoded ∷ []) (replicate (resends wakes) r.encoded),
                over,
              )
      ]

  module _ (s : ServerTransaction) (r : OutgoingResponse) (b : ℕ) (bytes : Text) (sent : List Text)
      (wakes : List Wake) (encoded : r.encoded ≡ b ∷ bytes) where
    -- While the task of an INVITE waits for the ACK, and every response is delivered, the final
    -- response goes out again, byte for byte, once for each interval that elapses and for each
    -- message other than an ACK, and not once more after an ACK, the deadline or the end of the
    -- channel. The interval it starts with does not matter.
    pub await_ack_loop-resends :
        (interval : ℕ)
        → (await_ack_loop encode deliver interval s r sent wakes).1
          ≡ sent ++ replicate (resends wakes) r.encoded
    await_ack_loop-resends interval =
        (await_ack_loop-AwaitsAck interval s r b bytes sent wakes encoded).0

    -- The task of an INVITE ends, with the transaction in Terminated, if an ACK arrives or the
    -- deadline passes before the channel ends.
    pub await_ack_loop_ends :
        (interval : ℕ)
        → finishes wakes ≡ true
        → (server_state (await_ack_loop encode deliver interval s r sent wakes).0 ≡ terminated)
          × ((await_ack_loop encode deliver interval s r sent wakes).2 ≡ ended)
    await_ack_loop_ends interval h =
        (await_ack_loop-AwaitsAck interval s r b bytes sent wakes encoded).1 h

  -- While the task of the provisional responses runs, and every response is delivered, each message
  -- that it reads before the state changes is answered with the latest provisional response, byte
  -- for byte, and nothing else is sent.
  pub task_loop_resends :
      (t : RetransTask) (b : ℕ) (bytes : Text) (sent : List Text) (events : List TaskEvent)
      → (latest t.response t.queue).encoded ≡ b ∷ bytes
      → (task_loop encode deliver t sent events).1
        ≡ sent ++ replicate (messages events) (latest t.response t.queue).encoded
  unfolding task_loop
  task_loop_resends t b bytes sent [] e = sym (append-nil sent)
  task_loop_resends t b bytes sent (state_changes ∷ events) e = sym (append-nil sent)
  task_loop_resends t b bytes sent (message_arrives ∷ events) e =
      let r = latest t.response t.queue in
      let (u, s) = send_outgoing_response-encoded r sent b bytes e in
      rw (s, task_loop)
        (task_loop-encoded (record r { target = some u }) b bytes (sent ++ r.encoded ∷ []) events e
          ∙ append_assoc sent (r.encoded ∷ []) (replicate (messages events) r.encoded))
