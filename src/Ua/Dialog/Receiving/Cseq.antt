-- ===== src/Ua/Dialog/Receiving/Cseq.antt =====
-- rssip/src/ua/dialog.rs, `process_incoming_request`: the highest sequence number of the peer.
use rssip.Prelude.{
  ℕ, ◌≡◌, refl, inl, inr, false, leb, if◌then◌else◌, Bool-cases, Text, List, [], ◌∷◌, Option, All,
}
use rssip.Message.Messages.{Response, Transport, IncomingRequest, OutgoingResponse}
use rssip.Ua.Dialog.{Dialog, get_or_insert}
use rssip.Ua.Dialog.Receiving.{keeps_cseq, process_incoming_request, answered}
use rssip.Error.{Result, ok, err, panic}

abbrev pub number_of : IncomingRequest → ℕ
number_of r = r.incoming_info.mandatory_headers.cseq.cseq

abbrev pub remote_number : Dialog → ℕ
remote_number d = get_or_insert d.remote_cseq 0

-- The greatest of a number and those of the requests.
abbrev pub highest : ℕ → List IncomingRequest → ℕ
highest n [] = n
highest n (r ∷ rs) = highest (if leb (number_of r) n then n else number_of r) rs

module _ (encode : Response → Option Text) (deliver : OutgoingResponse → Result Transport) where
  -- The dialog behind several requests, whatever became of the answers.
  unfoldable pub process_all : Dialog → List IncomingRequest → List Text → Dialog
  unfolding process_incoming_request
  process_all d [] sent = d
  process_all d (r ∷ rs) sent =
      let p = process_incoming_request encode deliver d r sent in process_all p.dialog rs p.sent

  answered-dialog :
      (d : Dialog) (sent : List Text) (m : Result (OutgoingResponse × List Text))
      → (answered encode deliver d sent m).dialog ≡ d
  answered-dialog d sent (ok (r, more)) = refl
  answered-dialog d sent (err e) = refl
  answered-dialog d sent panic = refl

  process-number :
      (d : Dialog) (r : IncomingRequest) (sent : List Text)
      → keeps_cseq r.request.method ≡ false
      → remote_number (process_incoming_request encode deliver d r sent).dialog
        ≡ (if leb (number_of r) (remote_number d) then remote_number d else number_of r)
  unfolding process_incoming_request
  process-number d r sent counts = elim (Bool-cases (leb (number_of r) (remote_number d))) [
    | inl stale ↦ rw (process_incoming_request, counts, stale) (rw (answered-dialog d sent _) refl)
    | inr fresh ↦ rw (process_incoming_request, counts, fresh) refl
  ]

  -- Over requests that are neither ACK nor CANCEL the dialog's remote sequence number is the
  -- greatest that has been seen, so it never falls; whether the answer 500 to a request that is
  -- not above it can be sent makes no difference.
  pub process_all-highest :
      (d : Dialog) (requests : List IncomingRequest) (sent : List Text)
      → All (λ r. keeps_cseq r.request.method ≡ false) requests
      → remote_number (process_all d requests sent) ≡ highest (remote_number d) requests
  unfolding process_all
  process_all-highest d [] sent count = refl
  process_all-highest d (r ∷ rs) sent count =
      let p = process_incoming_request encode deliver d r sent in
      rw (← process-number d r sent count.0) (process_all-highest p.dialog rs p.sent count.1)
