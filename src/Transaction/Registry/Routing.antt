-- ===== src/Transaction/Registry/Routing.antt =====
-- Which transaction an incoming message reaches.
use mathlib.Core.Logic.{ite, if_pos, if_neg}
use rssip.Prelude.{
  ℕ, ◌≡◌, ◌↔◌, ◌⊎◌, inl, inr, refl, sym, ap, ◌∙◌, true, Text, [], ◌∷◌, Option, none, some, arith,
  starts_with, Bool-cases, Option-cases,
}
use rssip.Message.Method.{SipMethod, invite, ack}
use rssip.Message.Messages.{IncomingRequest, IncomingResponse, incoming_request}
use rssip.Transaction.Key.{
  Role, uac, uas, TransactionKey, rfc3261, TransactionKey-discrete, key_method, key_of_branch,
  rfc3261_branch_id, new_key_3261, from_request, from_response,
}
use rssip.Transaction.Registry.{
  Table, get_entry, add_transaction, remove_transaction, left, sent_to, route_request,
  route_response,
}
use rssip.Error.{ok, panic}

-- After a removal the key removed has no channel, and any other key has what it had before.
pub get_entry-remove_transaction :
    (table : Table) (key k : TransactionKey)
    → get_entry (remove_transaction table key) k
      ≡ ite (TransactionKey-discrete key k) none (get_entry table k)
unfolding get_entry remove_transaction
get_entry-remove_transaction [] key k = ground arith
get_entry-remove_transaction ((j, entry) ∷ rest) key k =
    ground (arith, get_entry-remove_transaction rest key k)

-- The table is a map: after an insertion a key has the new channel if it is the key inserted, and
-- what it had before otherwise.
pub get_entry-add_transaction :
    (table : Table) (key k : TransactionKey) (entry : ℕ)
    → get_entry (add_transaction table key entry) k
      ≡ ite (TransactionKey-discrete key k) (some entry) (get_entry table k)
unfolding get_entry add_transaction
get_entry-add_transaction table key k entry =
    ground (arith, get_entry-remove_transaction table key k)

abbrev pub branch_of : IncomingRequest → Option Text
branch_of r = r.incoming_info.mandatory_headers.via.branch

abbrev pub method_of : IncomingRequest → SipMethod
method_of r = r.incoming_info.mandatory_headers.cseq.method

-- A branch that RFC 3261 implementations make.
abbrev pub HasCookie : IncomingRequest → Type 0
HasCookie r = (b : Text) × (branch_of r ≡ some b) × (starts_with b rfc3261_branch_id ≡ true)

-- INVITE and its ACK count as one method.
abbrev pub SameMethod : SipMethod → SipMethod → Type 0
SameMethod m n = (m ≡ n) ⊎ (((m ≡ invite) ⊎ (m ≡ ack)) × ((n ≡ invite) ⊎ (n ≡ ack)))

key_method-none : (m : SipMethod) → key_method m ≡ none → (m ≡ invite) ⊎ (m ≡ ack)
key_method-none invite e = inl refl
key_method-none ack e = inr refl
key_method-none _ e = cc

key_method-some : (m n : SipMethod) → key_method m ≡ some n → m ≡ n
key_method-some invite n e = cc
key_method-some SipMethod.bye n e = ground arith
key_method-some _ n e = ground arith

key_method-SameMethod : (m n : SipMethod) → key_method m ≡ key_method n → SameMethod m n
key_method-SameMethod m n e = elim (Option-cases (key_method m)) [
  | inl h ↦ inr (key_method-none m h, key_method-none n (sym e ∙ h))
  | inr (x, h) ↦ inl (key_method-some m x h ∙ sym (key_method-some n x (sym e ∙ h)))
]

pub SameMethod-key_method : (m n : SipMethod) → SameMethod m n → key_method m ≡ key_method n
SameMethod-key_method m n h = ground arith

from_request-cookie :
    (r : IncomingRequest) (h : HasCookie r)
    → from_request r ≡ ok (new_key_3261 uas (method_of r) h.0)
unfolding from_request
from_request-cookie r h = ground (arith, h.1, h.2)

-- Keys of server transactions are equal exactly when the branches and the methods agree.
new_key_3261-eq_iff :
    (m n : SipMethod) (b c : Text)
    → (new_key_3261 uas m b ≡ new_key_3261 uas n c) ↔ ((b ≡ c) × SameMethod m n)
unfolding new_key_3261
new_key_3261-eq_iff m n b c = (
  (λ e. (cc, key_method-SameMethod m n cc)),
  (λ h. let same = SameMethod-key_method m n h.1 in cc (h.0, same)),
)

-- A new entry takes the requests with its branch and method, and leaves the others.
route_request-add_transaction-cases :
    (table : Table) (m : SipMethod) (b : Text) (entry : ℕ) (r : IncomingRequest)
    → HasCookie r
    → let routed = route_request (add_transaction table (new_key_3261 uas m b) entry) r in
      ((branch_of r ≡ some b) × SameMethod m (method_of r)
        → routed ≡ ok (sent_to entry (incoming_request r)))
      × (¬ ((branch_of r ≡ some b) × SameMethod m (method_of r)) → routed ≡ route_request table r)
unfolding route_request
route_request-add_transaction-cases table m b entry r h =
    let new = new_key_3261 uas m b in
    let key = new_key_3261 uas (method_of r) h.0 in
    let same = new_key_3261-eq_iff m (method_of r) b h.0 in
    rw (from_request-cookie r h, get_entry-add_transaction table new key entry)
      (
        (λ (e, ms).
            rw (if_pos (TransactionKey-discrete new key) (same.1 (ground (arith, e, h.1), ms)))),
        (λ differ. rw (
            if_neg (TransactionKey-discrete new key)
              (λ e. differ (h.1 ∙ ap some (sym (same.0 e).0), (same.0 e).1)))),
      )

module _ (table : Table) (m : SipMethod) (b : Text) (entry : ℕ) (r : IncomingRequest)
    (cookie : HasCookie r) where
  -- A request whose branch is that of RFC 3261 reaches a new server transaction with its branch
  -- and, INVITE and ACK counting as one, its method.
  pub route_request-add_transaction :
      branch_of r ≡ some b
      → SameMethod m (method_of r)
      → route_request (add_transaction table (new_key_3261 uas m b) entry) r
        ≡ ok (sent_to entry (incoming_request r))
  route_request-add_transaction e same =
      (route_request-add_transaction-cases table m b entry r cookie).0 (e, same)

  -- A new server transaction with another branch or another method takes no request away from the
  -- transactions that are there already.
  pub route_request-add_other :
      ¬ ((branch_of r ≡ some b) × SameMethod m (method_of r))
      → route_request (add_transaction table (new_key_3261 uas m b) entry) r ≡ route_request table r
  route_request-add_other differ =
      (route_request-add_transaction-cases table m b entry r cookie).1 differ

key_of_branch_panic :
    (o : Option Text) (m : SipMethod) (role : Role)
    → ((b : Text) → o ≡ some b → starts_with b rfc3261_branch_id ≡ true → ⊥)
    → key_of_branch o m role ≡ panic
key_of_branch_panic none m role never = refl
key_of_branch_panic (some b) m role never = elim (Bool-cases (starts_with b rfc3261_branch_id)) [
  | inl c ↦ absurd (never b refl c)
  | inr c ↦ rw c
]

key_of_branch-cases :
    (o : Option Text) (m : SipMethod) (role : Role)
    → (key_of_branch o m role ≡ panic)
      ⊎ ((b : Text) × (key_of_branch o m role ≡ ok (new_key_3261 role m b)))
key_of_branch-cases none m role = inl refl
key_of_branch-cases (some b) m role = elim (Bool-cases (starts_with b rfc3261_branch_id)) [
  | inl c ↦ inr (b, rw c)
  | inr c ↦ inl (rw c)
]

-- A request panics in the router exactly when its topmost Via has no RFC 3261 branch.
pub route_request-panic_iff :
    (table : Table) (r : IncomingRequest) → (route_request table r ≡ panic) ↔ (¬ HasCookie r)
unfolding route_request
route_request-panic_iff table r = (
  (λ p h. let q = rw (from_request-cookie r h) at p in cc),
  (λ never.
      let q = key_of_branch_panic (branch_of r) (method_of r) uas (λ b e c. never (b, e, c)) in
      unfold from_request in rw q),
)

abbrev role_of : TransactionKey → Role
role_of (rfc3261 k) = k.role

-- Every transaction of the table is a server transaction.
abbrev pub AllServer : Table → Type 0
AllServer [] = Unit
AllServer ((rfc3261 k, entry) ∷ rest) = (k.role ≡ uas) × AllServer rest

get_entry-AllServer :
    (table : Table) (m : SipMethod) (b : Text)
    → AllServer table
    → get_entry table (new_key_3261 uac m b) ≡ none
unfolding get_entry new_key_3261
get_entry-AllServer [] m b h = refl
get_entry-AllServer ((rfc3261 k, entry) ∷ rest) m b h =
    rw
      (if_neg (TransactionKey-discrete (rfc3261 k) (new_key_3261 uac m b))
        (λ e. let client : k.role ≡ uac = ap role_of e in cc))
      (get_entry-AllServer rest m b h.1)

-- While the table holds server transactions only, a response is left to the other plugins or
-- panics: it never reaches a server transaction, whatever its branch.
pub route_response-AllServer :
    (table : Table) (r : IncomingResponse)
    → AllServer table
    → (route_response table r ≡ ok left) ⊎ (route_response table r ≡ panic)
unfolding route_response from_response
route_response-AllServer table r h =
    let m = r.incoming_info.mandatory_headers.cseq.method in
    elim (key_of_branch-cases r.incoming_info.mandatory_headers.via.branch m uac) [
      | inl e ↦ inr (rw e)
      | inr (b, e) ↦ inl (rw (e, get_entry-AllServer table m b h))
    ]
