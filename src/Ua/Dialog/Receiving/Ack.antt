-- ===== src/Ua/Dialog/Receiving/Ack.antt =====
-- rssip/src/ua/dialog.rs, `wait_for_ack`: how the wait ends.
use rssip.Prelude.{
  ◌≡◌, ◌⊎◌, refl, inl, inr, Bool, true, false, not, ◌&&◌, leb, Bool-cases, All, codes, ◌++◌, Text,
  List, [], ◌∷◌, Option, some,
}
use rssip.Message.Messages.{
  Response, Transport, IncomingRequest, incoming_request, incoming_response, OutgoingResponse,
}
use rssip.Transaction.Client.Create.{is_ack}
use rssip.Message.StatusCode.{server_internal_error}
use rssip.Endpoint.Creation.{create_outgoing_response}
use rssip.Endpoint.Sending.{send_outgoing_response}
use rssip.Ua.Dialog.{Dialog, DialogState, established, get_or_insert}
use rssip.Ua.Dialog.Receiving.{
  keeps_cseq, Processed, process_incoming_request, answered, WaitEvent, arrives, elapses, Received,
  awaited, wait_for_ack,
}
use rssip.Error.{Result, ok, err, panic}

abbrev pub is_ok {ℓ} : {A : Type ℓ} → Result A → Bool
is_ok (ok a) = true
is_ok (err e) = false
is_ok panic = false

-- How a wait may end: with an ACK, and the dialog is established; or without one, and the
-- dialog's state is the one it had.
abbrev pub Ends : DialogState → Received → Type 0
Ends state w =
    ((r : IncomingRequest) × (w.result ≡ ok r)
      × (is_ack r.request.method ≡ true)
      × (w.dialog.state ≡ established))
    ⊎ ((is_ok w.result ≡ false) × (w.dialog.state ≡ state))

module _ (encode : Response → Option Text) (deliver : OutgoingResponse → Result Transport) where
  answered-state :
      (d : Dialog) (sent : List Text) (m : Result (OutgoingResponse × List Text))
      → (answered encode deliver d sent m).dialog.state ≡ d.state
  answered-state d sent (ok (r, more)) = refl
  answered-state d sent (err e) = refl
  answered-state d sent panic = refl

  process-state :
      (d : Dialog) (r : IncomingRequest) (sent : List Text)
      → (process_incoming_request encode deliver d r sent).dialog.state ≡ d.state
  unfolding process_incoming_request
  process-state d r sent =
      elim (Bool-cases (
        not (keeps_cseq r.request.method)
        && leb r.incoming_info.mandatory_headers.cseq.cseq (get_or_insert d.remote_cseq 0))) [
          | inl stale ↦ rw (process_incoming_request, stale) (answered-state d sent _)
          | inr fresh ↦ rw (process_incoming_request, fresh) refl
        ]

  awaited-Ends :
      (d : Dialog) (m : Result (Unit {0})) (p : Processed) (r : IncomingRequest) (rest : Received)
      → p.result ≡ m
      → p.dialog.state ≡ d.state
      → Ends d.state rest
      → Ends d.state (awaited m p r rest)
  awaited-Ends d (ok done) p r rest e same ends = elim (Bool-cases (is_ack r.request.method)) [
    | inl is ↦ rw is (inl (r, refl, is, refl))
    | inr other ↦ rw other ends
  ]
  awaited-Ends d (err x) p r rest e same ends = rw e (inr (refl, same))
  awaited-Ends d panic p r rest e same ends = rw e (inr (refl, same))

  -- `wait_for_ack` returns a request only if it is an ACK, and the dialog is Confirmed then. In
  -- every other case, a closed channel, the end of the timer or a failure to answer, it returns no
  -- request, and the state of the dialog is the one it had.
  pub wait_for_ack-Ends :
      (d : Dialog) (events : List WaitEvent) (sent : List Text)
      → Ends d.state (wait_for_ack encode deliver d events sent)
  unfolding wait_for_ack
  wait_for_ack-Ends d [] sent = inr (refl, refl)
  wait_for_ack-Ends d (elapses ∷ more) sent = inr (refl, refl)
  wait_for_ack-Ends d (arrives (incoming_response r) ∷ more) sent = wait_for_ack-Ends d more sent
  wait_for_ack-Ends d (arrives (incoming_request r) ∷ more) sent =
      let p = process_incoming_request encode deliver d r sent in
      let same = process-state d r sent in
      let rest = wait_for_ack-Ends p.dialog more p.sent in
      awaited-Ends d p.result p r (wait_for_ack encode deliver p.dialog more p.sent) refl same
        (rw same at rest)

  -- The answer 500 can be sent whenever it has to be.
  abbrev pub Answers : Type 0
  Answers =
      ((r : Response) → (t : Text) × (encode r ≡ some t))
      × ((q : OutgoingResponse) → (t : Transport) × (deliver q ≡ ok t))

  process-ok :
      (d : Dialog) (r : IncomingRequest) (sent : List Text)
      → Answers
      → (process_incoming_request encode deliver d r sent).result ≡ ok tt
  unfolding process_incoming_request create_outgoing_response send_outgoing_response
  process-ok d r sent (total, delivers) =
      elim (Bool-cases (
        not (keeps_cseq r.request.method)
        && leb r.incoming_info.mandatory_headers.cseq.cseq (get_or_insert d.remote_cseq 0))) [
          | inl stale ↦
              let q =
                create_outgoing_response r server_internal_error (some (codes "Invalid Cseq")) in
              let (bytes, encoded) = total q.response in
              let (t, delivered) = delivers (record q { encoded = bytes }) in
              rw (process_incoming_request, stale) (rw (encoded, delivered) refl)
          | inr fresh ↦ rw (process_incoming_request, fresh) refl
        ]

  awaited-ok :
      (m : Result (Unit {0})) (p : Processed) (r : IncomingRequest) (rest : Received)
      → m ≡ ok tt
      → is_ok rest.result ≡ true
      → is_ok (awaited m p r rest).result ≡ true
  awaited-ok (ok done) p r rest e ih = elim (Bool-cases (is_ack r.request.method)) [
    | inl this ↦ rw this refl
    | inr other ↦ rw other ih
  ]
  awaited-ok (err x) p r rest e ih = cc
  awaited-ok panic p r rest e ih = cc

  abbrev pub is_message : WaitEvent → Bool
  is_message elapses = false
  is_message (arrives m) = true

  -- When the answers to other requests can be sent, an ACK that arrives before the timer ends is
  -- waited for: behind any messages that come first, a request is returned.
  pub wait_for_ack-returns :
      (d : Dialog) (before more : List WaitEvent) (a : IncomingRequest) (sent : List Text)
      → Answers
      → All (λ e. is_message e ≡ true) before
      → is_ack a.request.method ≡ true
      → is_ok
          (wait_for_ack encode deliver d
            (before ++ arrives (incoming_request a) ∷ more)
            sent).result
        ≡ true
  unfolding wait_for_ack
  wait_for_ack-returns d [] more a sent answers all is =
      let done = process-ok d a sent answers in rw (done, is) refl
  wait_for_ack-returns d (elapses ∷ es) more a sent answers all is = cc
  wait_for_ack-returns d (arrives (incoming_response r) ∷ es) more a sent answers all is =
      wait_for_ack-returns d es more a sent answers all.1 is
  wait_for_ack-returns d (arrives (incoming_request r) ∷ es) more a sent answers all is =
      let p = process_incoming_request encode deliver d r sent in
      let done = process-ok d r sent answers in
      let ih = wait_for_ack-returns p.dialog es more a p.sent answers all.1 is in
      awaited-ok p.result p r
        (wait_for_ack encode deliver p.dialog (es ++ arrives (incoming_request a) ∷ more) p.sent)
        done ih
