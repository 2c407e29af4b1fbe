-- ===== src/Transaction/Client/Returned.antt =====
-- What the two waits of a client transaction return, and where they leave it.
use rssip.Prelude.{◌≡◌, ◌⊎◌, true, Text, List, Option, some}
use rssip.Message.Messages.{Request, IncomingResponse}
use rssip.Transaction.Fsm.{proceeding, completed, terminated}
use rssip.Transaction.Client.Wait.{ClientTransaction, Wake, ready, client_state}
use rssip.Transaction.Client.Receive.{provisional, final, receive_provisional_response}
use rssip.Transaction.Client.Final.{receive_final_response}
use rssip.Transaction.Client.Transitions.{
  Follows, receive_provisional_response-promise, receive_final_response-promise,
}
use rssip.Error.{ok}

module _ (encode : Request → Option Text) (c : ClientTransaction) (sent : List Text)
    (wakes : List Wake) where
  -- Whatever the runtime reports, a wait for a provisional response and a wait for the final one
  -- each leave the state as it is or follow one edge of the state diagram.
  pub receive-Follows :
      Follows
        (client_state c)
        (client_state (receive_provisional_response encode c sent wakes).client)
      × Follows (client_state c) (client_state (receive_final_response encode c sent wakes).client)
  receive-Follows = (
    (receive_provisional_response-promise encode c sent wakes).0,
    (receive_final_response-promise encode c sent wakes).0,
  )

  -- A response that a wait for the final one returns is final, and the transaction is then in
  -- Completed or in Terminated.
  pub receive_final_response-ok :
      (res : IncomingResponse)
      → (receive_final_response encode c sent wakes).result ≡ ready (ok res)
      → (final res ≡ true)
        × ((client_state (receive_final_response encode c sent wakes).client ≡ completed)
            ⊎ (client_state (receive_final_response encode c sent wakes).client ≡ terminated))
  receive_final_response-ok res e = (receive_final_response-promise encode c sent wakes).1 res e

  -- A response that a wait for a provisional one returns is provisional, and the transaction is
  -- then in Proceeding.
  pub receive_provisional_response-ok :
      (res : IncomingResponse)
      → (receive_provisional_response encode c sent wakes).result ≡ ready (ok (some res))
      → (provisional res ≡ true)
        × (client_state (receive_provisional_response encode c sent wakes).client ≡ proceeding)
  receive_provisional_response-ok res e =
      (receive_provisional_response-promise encode c sent wakes).1 res e
