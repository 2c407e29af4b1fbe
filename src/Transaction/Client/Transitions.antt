-- ===== src/Transaction/Client/Transitions.antt =====
-- The client transaction follows the state diagram.
use rssip.Prelude.{
  ◌≡◌, ◌⊎◌, inl, inr, refl, Bool, true, Text, List, Option, none, some, arith, Bool-cases,
}
use mathlib.Core.Path.{subst}
use rssip.Message.Messages.{Request, IncomingResponse, OutgoingRequest}
use rssip.Transaction.Fsm.{
  State, calling, trying, proceeding, completed, terminated, set_state, up_to_proceeding,
  is_proceeding,
}
use rssip.Transaction.Client.Wait.{
  ClientTransaction, Wake, Receipt, Poll, ready, waiting, client_state, set_client_state, is_invite,
  receive_response_if,
}
use rssip.Transaction.Client.Wait.Outcome.{
  IsOutcome, gave_up, receive_response_if-IsOutcome, receive_response_if-late,
}
use rssip.Transaction.Client.Receive.{
  provisional, final, enter_proceeding, receive_provisional_response,
}
use rssip.Transaction.Client.Final.{
  Finish, complete, acknowledge, acknowledged, is_over, complete_unless_over, create_ack_request,
  finish_turn, final_result, receive_final_response,
}
use rssip.Endpoint.Sending.{send_outgoing_request}
use rssip.Error.{Result, ok, err, panic}

-- The edges of the diagrams of INVITE and other client transactions (RFC 3261, 17.1).
infix 40 ◌⟶◌
pub data ◌⟶◌ : State → State → Type 0 where
  provisional_in_calling : calling ⟶ proceeding
  provisional_in_trying : trying ⟶ proceeding
  final_in_calling : calling ⟶ completed
  final_in_trying : trying ⟶ completed
  final_in_proceeding : proceeding ⟶ completed
  end_in_calling : calling ⟶ terminated
  end_in_trying : trying ⟶ terminated
  end_in_proceeding : proceeding ⟶ terminated
  timer : completed ⟶ terminated

abbrev pub Follows : State → State → Type 0
Follows s t = (t ≡ s) ⊎ (s ⟶ t)

⟶-terminated : (s : State) → up_to_proceeding s ≡ true → s ⟶ terminated
unfolding up_to_proceeding
⟶-terminated calling h = end_in_calling
⟶-terminated trying h = end_in_trying
⟶-terminated proceeding h = end_in_proceeding
⟶-terminated _ h = cc

⟶-completed : (s : State) → up_to_proceeding s ≡ true → s ⟶ completed
unfolding up_to_proceeding
⟶-completed calling h = final_in_calling
⟶-completed trying h = final_in_trying
⟶-completed proceeding h = final_in_proceeding
⟶-completed _ h = cc

Follows-proceeding : (s : State) → up_to_proceeding s ≡ true → Follows s proceeding
unfolding up_to_proceeding
Follows-proceeding calling h = inr provisional_in_calling
Follows-proceeding trying h = inr provisional_in_trying
Follows-proceeding proceeding h = inl refl
Follows-proceeding _ h = cc

-- What a call of `receive_provisional_response` on `c` promises of its receipt.
abbrev ProvisionalPromise : ClientTransaction → Receipt (Option IncomingResponse) → Type 0
ProvisionalPromise c r =
    Follows (client_state c) (client_state r.client)
    × ((res : IncomingResponse)
        → r.result ≡ ready (ok (some res))
        → (provisional res ≡ true) × (client_state r.client ≡ proceeding))
    × (r.result ≡ gave_up → client_state r.client ≡ terminated)

-- A wait alone makes at most the transition of its timeout.
wait-Follows :
    {pred : IncomingResponse → Bool} (c : ClientTransaction) (r : Receipt (Option IncomingResponse))
    → up_to_proceeding (client_state c) ≡ true
    → IsOutcome pred c r
    → Follows (client_state c) (client_state r.client)
wait-Follows c r u o = elim o.state_after [
  | inl (_, same) ↦ inl same
  | inr (_, over) ↦ inr (rw over (⟶-terminated (client_state c) u))
]

is_proceeding-eq : (s : State) → is_proceeding s ≡ true → s ≡ proceeding
unfolding is_proceeding
is_proceeding-eq proceeding h = refl
is_proceeding-eq calling h = cc
is_proceeding-eq _ h = cc

enter_proceeding-promise :
    (c : ClientTransaction) (r : Receipt (Option IncomingResponse))
    (p : Poll (Result (Option IncomingResponse)))
    → r.result ≡ p
    → up_to_proceeding (client_state c) ≡ true
    → IsOutcome provisional c r
    → ProvisionalPromise c (enter_proceeding (client_state c) r p)
enter_proceeding-promise c r waiting e u o = (wait-Follows c r u o, (λ res h. cc), (λ h. cc))
enter_proceeding-promise c r (ready panic) e u o = (wait-Follows c r u o, (λ res h. cc), (λ h. cc))
enter_proceeding-promise c r (ready (err x)) e u o =
    (wait-Follows c r u o, (λ res h. cc), (λ h. ground arith))
enter_proceeding-promise c r (ready (ok got)) e u o =
    elim (Bool-cases (is_proceeding (client_state c))) [
      | inl stays ↦
          let here = is_proceeding-eq (client_state c) stays in
          rw stays (
            wait-Follows c r u o,
            (λ res h. (o.matches res h, ground (arith, e, here, o.state_after))),
            (λ h. cc),
          )
      | inr enters ↦ rw enters (
          unfold set_state in
          (Follows-proceeding (client_state c) u, (λ res h. (o.matches res h, refl)), (λ h. cc)))
    ]

-- A wait for a provisional response makes at most one transition, and one of the diagram. A
-- response that it returns is provisional and leaves the transaction in Proceeding; a timeout
-- leaves it in Terminated.
pub receive_provisional_response-promise :
    (encode : Request → Option Text) (c : ClientTransaction) (sent : List Text) (wakes : List Wake)
    → ProvisionalPromise c (receive_provisional_response encode c sent wakes)
unfolding receive_provisional_response
receive_provisional_response-promise encode c sent wakes =
    elim (Bool-cases (up_to_proceeding (client_state c))) [
      | inl early ↦ rw early (
          enter_proceeding-promise c (receive_response_if provisional encode c sent wakes) _ refl
            early (receive_response_if-IsOutcome provisional encode c sent wakes))
      | inr late ↦ rw late (inl refl, (λ res e. cc), (λ e. cc))
    ]

-- What a call of `receive_final_response` on `c` promises of its end.
abbrev FinalPromise : ClientTransaction → Finish → Type 0
FinalPromise c f =
    Follows (client_state c) (client_state f.client)
    × ((res : IncomingResponse)
        → f.result ≡ ready (ok res)
        → (final res ≡ true)
          × ((client_state f.client ≡ completed) ⊎ (client_state f.client ≡ terminated)))

acknowledged-promise :
    (c : ClientTransaction) (sent : List Text) (rest : List Wake) (response : IncomingResponse)
    (q : Result (OutgoingRequest × List Text))
    → final response ≡ true
    → client_state c ≡ completed
    → let f = acknowledged c sent rest response q in
      (client_state f.client ≡ completed)
      × ((res : IncomingResponse) → f.result ≡ ready (ok res) → final res ≡ true)
acknowledged-promise c sent rest response (ok q) h s = (s, (λ res e. ground arith))
acknowledged-promise c sent rest response (err x) h s = (s, (λ res e. cc))
acknowledged-promise c sent rest response panic h s = (s, (λ res e. cc))

module _ (encode : Request → Option Text) where
  acknowledge-promise :
      (c : ClientTransaction) (sent : List Text) (rest : List Wake) (response : IncomingResponse)
      (a : Result OutgoingRequest)
      → final response ≡ true
      → client_state c ≡ completed
      → let f = acknowledge encode c sent rest response a in
        (client_state f.client ≡ completed)
        × ((res : IncomingResponse) → f.result ≡ ready (ok res) → final res ≡ true)
  acknowledge-promise c sent rest response panic h s = (s, (λ res e. cc))
  acknowledge-promise c sent rest response (err x) h s = (s, (λ res e. cc))
  acknowledge-promise c sent rest response (ok a) h s =
      acknowledged-promise c sent rest response (send_outgoing_request encode a sent) h s

  complete_unless_over-promise :
      (c : ClientTransaction) (sent : List Text) (rest : List Wake) (response : IncomingResponse)
      → final response ≡ true
      → client_state c ≡ completed
      → let f = complete_unless_over encode c sent rest response in
        (client_state f.client ≡ completed)
        × ((res : IncomingResponse) → f.result ≡ ready (ok res) → final res ≡ true)
  complete_unless_over-promise c sent rest response h s =
      elim (Bool-cases (is_invite c.request.request.method)) [
        | inl e ↦
            rw e
              (acknowledge-promise c sent rest response (create_ack_request c.request response) h s)
        | inr e ↦ rw e (s, (λ res e'. ground arith))
      ]

  complete-promise :
      (c : ClientTransaction) (sent : List Text) (rest : List Wake) (response : IncomingResponse)
      → up_to_proceeding (client_state c) ≡ true
      → final response ≡ true
      → FinalPromise c (complete encode c sent rest response)
  unfolding complete set_state
  complete-promise c sent rest response u h = elim (Bool-cases (is_over c response)) [
    | inl over ↦
        rw over (inr (⟶-terminated (client_state c) u), (λ res e. (ground arith, inr refl)))
    | inr more ↦
        let (s, m) =
          complete_unless_over-promise (set_client_state completed c) sent rest response h refl in
        rw more (inr (rw s (⟶-completed (client_state c) u)), (λ res e. (m res e, inl s)))
  ]

  finish_turn-promise :
      (c : ClientTransaction) (r : Receipt (Option IncomingResponse))
      (p : Poll (Result (Option IncomingResponse)))
      → r.result ≡ p
      → up_to_proceeding (client_state c) ≡ true
      → IsOutcome final c r
      → FinalPromise c (finish_turn encode r (final_result p))
  finish_turn-promise c r waiting e u o = (wait-Follows c r u o, (λ res h. cc))
  finish_turn-promise c r (ready panic) e u o = (wait-Follows c r u o, (λ res h. cc))
  finish_turn-promise c r (ready (err x)) e u o = (wait-Follows c r u o, (λ res h. cc))
  finish_turn-promise c r (ready (ok none)) e u o = (wait-Follows c r u o, (λ res h. cc))
  finish_turn-promise c r (ready (ok (some response))) e u o =
      let same : client_state r.client ≡ client_state c = ground (arith, e, o.state_after) in
      let done =
        complete-promise r.client r.sent r.rest response (rw same u) (o.matches response e) in
      (
        subst
            (λ s. Follows s (client_state (complete encode r.client r.sent r.rest response).client))
            same done.0,
        done.1,
      )

  -- A wait for the final response makes at most one transition, and one of the diagram. A response
  -- that it returns is final and leaves the transaction in Completed or Terminated.
  pub receive_final_response-promise :
      (c : ClientTransaction) (sent : List Text) (wakes : List Wake)
      → FinalPromise c (receive_final_response encode c sent wakes)
  unfolding receive_final_response
  receive_final_response-promise c sent wakes =
      elim (Bool-cases (up_to_proceeding (client_state c))) [
        | inl early ↦
            finish_turn-promise c (receive_response_if final encode c sent wakes) _ refl early
              (receive_response_if-IsOutcome final encode c sent wakes)
        | inr late ↦
            rw (receive_response_if-late final encode c sent wakes late) (inl refl, (λ res e. cc))
      ]
