-- ===== src/Ua/Dialog/Responses.antt =====
-- rssip/src/ua/dialog.rs, `Dialog::create_response`, `provisional_response` and `final_response`,
-- and the response of a server transaction that they start from.
pub mod Tags
use rssip.Prelude.{
  ℕ, ◌==◌, within, Bool, true, false, not, ◌&&◌, ◌||◌, Text, List, [], ◌∷◌, ◌++◌, Option, none,
  some, any, if◌then◌else◌,
}
use rssip.Message.StatusCode.{StatusCode, as_u16}
use rssip.Message.Headers.{To, Contact, Header, to, contact, allow, supported}
use rssip.Message.Messages.{Response, Transport, IncomingRequest, OutgoingResponse}
use rssip.Transaction.Server.Respond.{ServerTransaction, Served, send_provisional_response}
use rssip.Transaction.Server.Final.{Finished, send_final_response}
use rssip.Endpoint.Creation.{create_response, create_outgoing_response}
use rssip.Ua.Dialog.{Dialog, DialogState, early}
use rssip.Error.{Result, ok, err, panic, ◌>>=◌}

abbrev with_target :
    Option Transport → IncomingRequest → StatusCode → Option Text → OutgoingResponse
unfolding create_response create_outgoing_response
with_target (some t) r code reason = record {
  response = create_response r code reason;
  target = some t;
  encoded = [];
}
with_target none r code reason = create_outgoing_response r code reason

-- `ServerTransaction::create_response`.
unfoldable pub tsx_create_response : ServerTransaction → StatusCode → Option Text → OutgoingResponse
unfolding with_target
tsx_create_response s code reason = with_target s.target_info s.request code reason

abbrev pub is_contact : Header → Bool
is_contact (contact c) = true
is_contact _ = false

abbrev pub is_allow : Header → Bool
is_allow (allow a) = true
is_allow _ = false

abbrev pub is_supported : Header → Bool
is_supported (supported s) = true
is_supported _ = false

abbrev pub is_empty : Text → Bool
is_empty [] = true
is_empty (c ∷ t) = false

-- `headers.push(h)` under a condition.
abbrev pub push_if : Bool → Header → List Header → List Header
push_if c h hs = if c then hs ++ h ∷ [] else hs

-- `find_map_mut_header!(headers, To)`, and the assignment to its tag.
abbrev pub found_later : Header → Option (List Header) → Option (List Header)
found_later h none = none
found_later h (some hs) = some (h ∷ hs)

unfoldable pub set_to_tag : Text → List Header → Option (List Header)
set_to_tag tag [] = none
set_to_tag tag (to t ∷ hs) = some (to (record t { tag = some tag }) ∷ hs)
set_to_tag tag (h ∷ hs) = found_later h (set_to_tag tag hs)

-- What the endpoint has in its Allow and Supported headers.
pub record Settings : Type 0 where
  pub allow : Text
  pub supported : Text

-- The conditions of the three headers that a response may get.
abbrev pub wants_contact : ℕ → List Header → Bool
wants_contact code hs = (within 101 399 code || code == 485) && not (any is_contact hs)

abbrev pub wants_allow : Settings → ℕ → List Header → Bool
wants_allow e code hs =
    (within 180 189 code || within 200 299 code || code == 405)
    && not (is_empty e.allow)
    && not (any is_allow hs)

abbrev pub wants_supported : Settings → ℕ → List Header → Bool
wants_supported e code hs =
    within 200 299 code && not (is_empty e.supported) && not (any is_supported hs)

unfoldable pub push_headers : Settings → Contact → ℕ → List Header → List Header
push_headers e c code hs =
    let first = push_if (wants_contact code hs) (contact c) hs in
    let second = push_if (wants_allow e code first) (allow e.allow) first in
    push_if (wants_supported e code second) (supported e.supported) second

abbrev tagged : OutgoingResponse → Option (List Header) → Result OutgoingResponse
tagged r none = panic
tagged r (some hs) = ok (record r { response = record r.response { headers = hs } })

-- `Dialog::create_response`.
unfoldable pub dialog_create_response :
    Settings → Dialog → ServerTransaction → StatusCode → Option Text → Result OutgoingResponse
unfolding tsx_create_response push_headers set_to_tag
dialog_create_response e d s code reason =
    let r = tsx_create_response s code reason in
    let hs = push_headers e d.contact (as_u16 code) r.response.headers in
    if as_u16 code == 100
    then ok (record r { response = record r.response { headers = hs } })
    else tagged r (set_to_tag d.dialog_id.local_tag hs)

module _ (encode : Response → Option Text) (deliver : OutgoingResponse → Result Transport) where
  abbrev progressed : Dialog → StatusCode → Result (Unit {0}) → Dialog
  progressed d code (ok done) = if as_u16 code == 100 then d else record d { state = early }
  progressed d code (err e) = d
  progressed d code panic = d

  -- `Dialog::provisional_response`: the dialog, and what the transaction has done.
  unfoldable pub provisional_response :
      Settings
      → Dialog
      → ServerTransaction
      → StatusCode
      → Option Text
      → List Text
      → Result (Dialog × Served)
  unfolding dialog_create_response send_provisional_response
  provisional_response e d s code reason sent = do
    r ← dialog_create_response e d s code reason
    let served = send_provisional_response encode deliver s r sent
    ok (progressed d code served.result, served)

  -- `Dialog::final_response`.
  unfoldable pub final_response :
      Settings → Dialog → ServerTransaction → StatusCode → List Text → Result Finished
  unfolding dialog_create_response send_final_response
  final_response e d s code sent = do
    r ← dialog_create_response e d s code none
    ok (send_final_response encode deliver s r sent)
