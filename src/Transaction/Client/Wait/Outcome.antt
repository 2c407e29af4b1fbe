-- ===== src/Transaction/Client/Wait/Outcome.antt =====
-- What a wait for a response leaves as it was, and what its result says.
use rssip.Prelude.{
  ℕ, ◌*◌, ◌≡◌, ◌≢◌, ◌⊎◌, inl, inr, refl, ◌∙◌, Bool, true, false, Text, List, [], ◌∷◌, Option, none,
  some, arith, Bool-cases,
}
use rssip.Message.Messages.{
  Request, IncomingResponse, IncomingMessage, incoming_request, incoming_response, OutgoingRequest,
  is_unreliable,
}
use rssip.Transaction.Fsm.{
  State, calling, trying, proceeding, completed, confirmed, terminated, set_state, up_to_proceeding,
}
use rssip.Transaction.Timers.{t1}
use rssip.Transaction.Client.Wait.{
  ClientTransaction, Wake, arrives, closes, interval_elapses, deadline_elapses, Receipt, Poll,
  ready, client_state, retransmit_loop, until_deadline, without_deadline, receive_response_if,
  front_first, receive_in, receive_first, is_invite, received, ended,
}
use rssip.Endpoint.Sending.{send_outgoing_request}
use rssip.Endpoint.Sending.Encoded.{send_outgoing_request-keeps, send_outgoing_request-err}
use rssip.Error.{transaction, timeout, Result, ok, err, panic, Result-cases}

abbrev pub gave_up : Poll (Result (Option IncomingResponse))
gave_up = ready (err (transaction timeout))

-- After a wait of `c`: a response that is returned matches; the request is the same but for its
-- encoding; the state is the same, unless the deadline has passed and the transaction is over.
pub record IsOutcome (pred : IncomingResponse → Bool) (c : ClientTransaction)
    (r : Receipt (Option IncomingResponse)) : Type 0 where
  pub matches : (res : IncomingResponse) → r.result ≡ ready (ok (some res)) → pred res ≡ true
  pub same_request : r.client.request.request ≡ c.request.request
  pub same_target : r.client.request.target ≡ c.request.target
  pub state_after :
      ((r.result ≢ gave_up) × (client_state r.client ≡ client_state c))
      ⊎ ((r.result ≡ gave_up) × (client_state r.client ≡ terminated))

module _ (pred : IncomingResponse → Bool) where
  -- A message in front ends the wait; only a response that matches is returned.
  received-IsOutcome :
      (c : ClientTransaction) (sent : List Text) (wakes : List Wake) (m : IncomingMessage)
      → IsOutcome pred c (received pred c sent wakes m)
  received-IsOutcome c sent wakes (incoming_request m) = ground arith
  received-IsOutcome c sent wakes (incoming_response m) = elim (Bool-cases (pred m)) [
    | inl fits ↦ record {
      matches = λ res e. ground arith;
      same_request = ground arith;
      same_target = ground arith;
      state_after = ground arith;
    }
    | inr other ↦ record {
      matches = λ res e. ground arith;
      same_request = ground arith;
      same_target = ground arith;
      state_after = ground arith;
    }
  ]

  until_deadline-IsOutcome :
      (c : ClientTransaction) (sent : List Text) (wakes : List Wake)
      → IsOutcome pred c (until_deadline pred c sent wakes)
  unfolding until_deadline set_state
  until_deadline-IsOutcome c sent [] = ground arith
  until_deadline-IsOutcome c sent (arrives m ∷ wakes) = received-IsOutcome c sent wakes m
  until_deadline-IsOutcome c sent (closes ∷ wakes) = ground arith
  until_deadline-IsOutcome c sent (deadline_elapses ∷ wakes) = ground arith
  until_deadline-IsOutcome c sent (interval_elapses ∷ wakes) = until_deadline-IsOutcome c sent wakes

  without_deadline-IsOutcome :
      (c : ClientTransaction) (sent : List Text) (wakes : List Wake)
      → IsOutcome pred c (without_deadline pred c sent wakes)
  unfolding without_deadline
  without_deadline-IsOutcome c sent [] = ground arith
  without_deadline-IsOutcome c sent (arrives m ∷ wakes) = received-IsOutcome c sent wakes m
  without_deadline-IsOutcome c sent (closes ∷ wakes) = ground arith
  without_deadline-IsOutcome c sent (deadline_elapses ∷ wakes) =
      without_deadline-IsOutcome c sent wakes
  without_deadline-IsOutcome c sent (interval_elapses ∷ wakes) =
      without_deadline-IsOutcome c sent wakes

  -- What is true after a wait of a transaction with the request `q` is true after one of `c`.
  IsOutcome-request :
      (c : ClientTransaction) (q : OutgoingRequest) {r : Receipt (Option IncomingResponse)}
      → (q.request ≡ c.request.request) × (q.target ≡ c.request.target)
      → IsOutcome pred (record c { request = q }) r
      → IsOutcome pred c r
  IsOutcome-request c q same o = record {
    matches = o.matches;
    same_request = o.same_request ∙ same.0;
    same_target = o.same_target ∙ same.1;
    state_after = o.state_after;
  }

  module _ (encode : Request → Option Text) where
    retransmit_loop-IsOutcome :
        (interval : ℕ) (c : ClientTransaction) (sent : List Text) (wakes : List Wake)
        → IsOutcome pred c (retransmit_loop pred encode interval c sent wakes)
    unfolding retransmit_loop set_state
    retransmit_loop-IsOutcome i c sent [] = ground arith
    retransmit_loop-IsOutcome i c sent (arrives m ∷ wakes) = received-IsOutcome c sent wakes m
    retransmit_loop-IsOutcome i c sent (closes ∷ wakes) = ground arith
    retransmit_loop-IsOutcome i c sent (deadline_elapses ∷ wakes) = ground arith
    retransmit_loop-IsOutcome i c sent (interval_elapses ∷ wakes) =
        elim (Result-cases (send_outgoing_request encode c.request sent)) [
          | inl ((q, sent'), e) ↦
              rw (e, retransmit_loop)
                (IsOutcome-request c q (send_outgoing_request-keeps encode c.request sent e)
                  (retransmit_loop-IsOutcome (i * 2) (record c { request = q }) sent' wakes))
          | inr (inl (x, e)) ↦
              let is_io = (send_outgoing_request-err encode c.request sent).0 x e in
              rw (e, retransmit_loop) (ground arith)
          | inr (inr e) ↦ absurd ((send_outgoing_request-err encode c.request sent).1 e)
        ]

    receive_first-IsOutcome :
        (c : ClientTransaction) (sent : List Text) (wakes : List Wake)
        → IsOutcome pred c (receive_first pred encode c sent wakes)
    receive_first-IsOutcome c sent wakes = elim (Bool-cases (is_unreliable c.request.target)) [
      | inl e ↦ rw e (retransmit_loop-IsOutcome t1 c sent wakes)
      | inr e ↦ rw e (until_deadline-IsOutcome c sent wakes)
    ]

    receive_in-IsOutcome :
        (s : State) (c : ClientTransaction) (sent : List Text) (wakes : List Wake)
        → IsOutcome pred c (receive_in pred encode s c sent wakes)
    receive_in-IsOutcome calling c sent wakes = receive_first-IsOutcome c sent wakes
    receive_in-IsOutcome trying c sent wakes = receive_first-IsOutcome c sent wakes
    receive_in-IsOutcome proceeding c sent wakes =
        elim (Bool-cases (is_invite c.request.request.method)) [
          | inl e ↦ rw e (without_deadline-IsOutcome c sent wakes)
          | inr e ↦ rw e (until_deadline-IsOutcome c sent wakes)
        ]
    receive_in-IsOutcome completed c sent wakes = ground arith
    receive_in-IsOutcome confirmed c sent wakes = ground arith
    receive_in-IsOutcome terminated c sent wakes = ground arith

    pub receive_response_if-IsOutcome :
        (c : ClientTransaction) (sent : List Text) (wakes : List Wake)
        → IsOutcome pred c (receive_response_if pred encode c sent wakes)
    unfolding receive_response_if
    receive_response_if-IsOutcome c sent wakes =
        let o =
          receive_in-IsOutcome (client_state c) (record c { peeked = none }) sent
            (front_first c.peeked wakes) in
        record {
          matches = o.matches;
          same_request = o.same_request;
          same_target = o.same_target;
          state_after = o.state_after;
        }

    receive_in-late :
        (s : State) (c : ClientTransaction) (sent : List Text) (wakes : List Wake)
        → up_to_proceeding s ≡ false
        → receive_in pred encode s c sent wakes ≡ ended pred c sent wakes panic
    unfolding up_to_proceeding
    receive_in-late calling c sent wakes h = cc
    receive_in-late trying c sent wakes h = cc
    receive_in-late proceeding c sent wakes h = cc
    receive_in-late _ c sent wakes h = refl

    -- A wait in a state after Proceeding is the `unreachable!()` of the match.
    pub receive_response_if-late :
        (c : ClientTransaction) (sent : List Text) (wakes : List Wake)
        → up_to_proceeding (client_state c) ≡ false
        → receive_response_if pred encode c sent wakes
          ≡ ended pred (record c { peeked = none }) sent (front_first c.peeked wakes) panic
    unfolding receive_response_if
    receive_response_if-late c sent wakes h =
        receive_in-late (client_state c) (record c { peeked = none }) sent
          (front_first c.peeked wakes) h
