-- ===== src/Message/Method/RoundTrip.antt =====
-- A method's text reads back as the method, and only that text does.
use rssip.Prelude.{
  ◌≡◌, ◌≢◌, ◌↔◌, refl, sym, Text, text_eq, text_eq_iff, if◌then◌else◌, Bool-cases, inl, inr,
}
use rssip.Message.Method.{SipMethod, unknown, as_str, from_bytes}

pub from_bytes-as_str : (m : SipMethod) → m ≢ unknown → from_bytes (as_str m) ≡ m
unfolding from_bytes as_str
from_bytes-as_str unknown h = absurd (h refl)
from_bytes-as_str SipMethod.ack h = refl
from_bytes-as_str _ h = refl

-- What a chain of arms makes of `v` is a method with the text `v`, unless it is unknown.
abbrev Reads : Text → SipMethod → Type 0
Reads v m = m ≢ unknown → as_str m ≡ v

Reads-arm :
    (v : Text) (m r : SipMethod) → Reads v r → Reads v (if text_eq v (as_str m) then m else r)
Reads-arm v m r h = elim (Bool-cases (text_eq v (as_str m))) [
  | inl fits ↦ rw fits (λ _. sym ((text_eq_iff v (as_str m)).0 fits))
  | inr other ↦ rw other h
]

from_bytes-Reads : (v : Text) → Reads v (from_bytes v)
unfolding from_bytes as_str
from_bytes-Reads v = Reads-arm v SipMethod.invite _ (
    Reads-arm v SipMethod.cancel _ (
      Reads-arm v SipMethod.ack _ (
        Reads-arm v SipMethod.bye _ (
          Reads-arm v SipMethod.register _ (
            Reads-arm v SipMethod.options _ (
              Reads-arm v SipMethod.info _ (
                Reads-arm v SipMethod.notify _ (
                  Reads-arm v SipMethod.subscribe _ (
                    Reads-arm v SipMethod.update _ (
                      Reads-arm v SipMethod.refer _ (
                        Reads-arm v SipMethod.prack _ (
                          Reads-arm v SipMethod.message _
                            (Reads-arm v SipMethod.publish _ (λ h. absurd (h refl)))))))))))))))

-- A text parses to a known method exactly when it is that method's text.
pub from_bytes-eq_iff :
    (v : Text) (m : SipMethod) → m ≢ unknown → (from_bytes v ≡ m) ↔ (v ≡ as_str m)
from_bytes-eq_iff v m known =
    (λ e. sym (rw e at (from_bytes-Reads v) known), λ e. rw e (from_bytes-as_str m known))
