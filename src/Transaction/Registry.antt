-- ===== src/Transaction/Registry.antt =====
-- rssip/src/transaction/mod.rs, `TsxPlugin`: the table of the live transactions, and the way of an
-- incoming message to its transaction. A channel is a number; sending is an entry of the result.
pub mod Routing
use rssip.Prelude.{ℕ, List, [], ◌∷◌, Option, none, some}
use mathlib.Core.Logic.{ite}
use rssip.Message.Messages.{
  IncomingRequest, IncomingResponse, IncomingMessage, incoming_request, incoming_response,
}
use rssip.Transaction.Key.{TransactionKey, TransactionKey-discrete, from_request, from_response}
use rssip.Error.{Result, ok, ◌>>=◌}

-- `FxHashMap<TransactionKey, TransactionEntry>`, each key at most once.
abbrev pub Table : Type 0
Table = List (TransactionKey × ℕ)

unfoldable pub get_entry : Table → TransactionKey → Option ℕ
get_entry [] key = none
get_entry ((k, entry) ∷ rest) key =
    ite (TransactionKey-discrete k key) (some entry) (get_entry rest key)

unfoldable pub remove_transaction : Table → TransactionKey → Table
remove_transaction [] key = []
remove_transaction ((k, entry) ∷ rest) key =
    let others = remove_transaction rest key in
    ite (TransactionKey-discrete k key) others ((k, entry) ∷ others)

-- `HashMap::insert` replaces what the key had.
unfoldable pub add_transaction : Table → TransactionKey → ℕ → Table
unfolding remove_transaction
add_transaction table key entry = (key, entry) ∷ remove_transaction table key

-- What a plugin does with a message: leave it to the next one, or send it to a channel.
pub data Routed : Type 0 where
  left : Routed
  sent_to : ℕ → IncomingMessage → Routed

abbrev send_to : Option ℕ → IncomingMessage → Routed
send_to none m = left
send_to (some channel) m = sent_to channel m

unfoldable pub route_request : Table → IncomingRequest → Result Routed
unfolding get_entry
route_request table r = do
  key ← from_request r
  ok (send_to (get_entry table key) (incoming_request r))

unfoldable pub route_response : Table → IncomingResponse → Result Routed
unfolding get_entry
route_response table r = do
  key ← from_response r
  ok (send_to (get_entry table key) (incoming_response r))
