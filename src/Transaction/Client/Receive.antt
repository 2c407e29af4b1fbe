-- ===== src/Transaction/Client/Receive.antt =====
-- rssip/src/transaction/client.rs: `receive_provisional_response`.
use rssip.Prelude.{Bool, Text, List, Option, none, if◌then◌else◌}
use rssip.Message.StatusCode.{is_provisional, is_final}
use rssip.Message.Messages.{Request, IncomingResponse}
use rssip.Transaction.Fsm.{State, proceeding, up_to_proceeding, is_proceeding}
use rssip.Error.{Result, ok}
use rssip.Transaction.Client.Wait.{
  ClientTransaction, Wake, Poll, ready, Receipt, client_state, set_client_state, ended,
  receive_response_if,
}

abbrev pub provisional : IncomingResponse → Bool
provisional r = is_provisional r.response.code

abbrev pub final : IncomingResponse → Bool
final r = is_final r.response.code

-- After `receive_provisional().await?`: `state` is the one before the wait.
abbrev pub enter_proceeding :
    State
    → Receipt (Option IncomingResponse)
    → Poll (Result (Option IncomingResponse))
    → Receipt (Option IncomingResponse)
enter_proceeding state r (ready (ok got)) =
    if is_proceeding state then r else record r { client = set_client_state proceeding r.client }
enter_proceeding state r _ = r

abbrev pub provisional_turn :
    State → Receipt (Option IncomingResponse) → Receipt (Option IncomingResponse)
provisional_turn state r = enter_proceeding state r r.result

module _ (encode : Request → Option Text) where
  unfoldable pub receive_provisional_response :
      ClientTransaction → List Text → List Wake → Receipt (Option IncomingResponse)
  receive_provisional_response c sent wakes =
      if up_to_proceeding (client_state c)
      then provisional_turn (client_state c) (receive_response_if provisional encode c sent wakes)
      else ended provisional c sent wakes (ok none)
