-- ===== src/Transaction/Client/Misuse.antt =====
-- Two orders of calls that do not end in a response.
use rssip.Prelude.{◌≡◌, refl, true, false, Text, List, ◌∷◌, Option, none, arith}
use rssip.Message.StatusCode.{is_final}
use rssip.Message.Messages.{Request, IncomingResponse, incoming_response}
use rssip.Transaction.Fsm.{State, calling, trying, proceeding, terminated, up_to_proceeding}
use rssip.Transaction.Client.Wait.{
  ClientTransaction, Wake, arrives, ready, client_state, receive_response_if, receive_in,
  retransmit_loop, until_deadline, without_deadline, received,
}
use rssip.Transaction.Client.Wait.Outcome.{gave_up, receive_response_if-late}
use rssip.Transaction.Client.Receive.{provisional, final, receive_provisional_response}
use rssip.Transaction.Client.Final.{receive_final_response}
use rssip.Transaction.Client.Transitions.{receive_provisional_response-promise}
use rssip.Error.{channel_closed, err, panic}

-- `Terminated` comes after `Proceeding`.
terminated_late : (s : State) → s ≡ terminated → up_to_proceeding s ≡ false
unfolding up_to_proceeding
terminated_late s e = rw e

not_final : (m : IncomingResponse) → provisional m ≡ true → final m ≡ false
unfolding is_final
not_final m h = rw h

module _ (encode : Request → Option Text) where
  -- Once a wait for a provisional response has timed out, waiting for the final response panics,
  -- whatever the runtime reports.
  pub receive_final_response_after_timeout :
      (c : ClientTransaction) (sent : List Text) (wakes later : List Wake)
      → let r = receive_provisional_response encode c sent wakes in
        r.result ≡ gave_up
        → (receive_final_response encode r.client r.sent later).result ≡ ready panic
  unfolding receive_final_response
  receive_final_response_after_timeout c sent wakes later gone =
      let r = receive_provisional_response encode c sent wakes in
      let over = (receive_provisional_response-promise encode c sent wakes).2 gone in
      rw
        (receive_response_if-late final encode r.client r.sent later
          (terminated_late (client_state r.client) over))
        refl

  receive_in_provisional :
      (s : State) (c : ClientTransaction) (sent : List Text) (rest : List Wake)
      (m : IncomingResponse)
      → up_to_proceeding s ≡ true
      → receive_in final encode s c sent (arrives (incoming_response m) ∷ rest)
        ≡ received final c sent rest (incoming_response m)
  unfolding up_to_proceeding retransmit_loop until_deadline without_deadline
  receive_in_provisional calling c sent rest m u = ground arith
  receive_in_provisional trying c sent rest m u = ground arith
  receive_in_provisional proceeding c sent rest m u = ground arith
  receive_in_provisional _ c sent rest m u = cc

  -- In Calling, Trying or Proceeding, with nothing peeked, a provisional response that is read first
  -- makes `receive_final_response` fail with `ChannelClosed`, though the channel is open.
  pub receive_final_response-provisional :
      (c : ClientTransaction) (sent : List Text) (rest : List Wake) (m : IncomingResponse)
      → up_to_proceeding (client_state c) ≡ true
      → c.peeked ≡ none
      → provisional m ≡ true
      → (receive_final_response encode c sent (arrives (incoming_response m) ∷ rest)).result
        ≡ ready (err channel_closed)
  unfolding receive_final_response receive_response_if
  receive_final_response-provisional c sent rest m u p h =
      rw
        (
          p,
          receive_in_provisional (client_state c) (record c { peeked = none }) sent rest m u,
          not_final m h,
        )
        refl
