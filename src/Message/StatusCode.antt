-- ===== src/Message/StatusCode.antt =====
-- rssip/src/message/status_code.rs: the status codes, their classes and their conversions.
mod Tables
pub mod Conversions
pub mod Reasons
unfoldable pub use Tables.*
use rssip.Prelude.{
  ℕ, Bool, not, List, [], ◌∷◌, Option, none, some, Text, String, codes, text_eq, ◌==◌, within,
  if◌then◌else◌,
}

-- The first arm of a match on a number that fits.
pub find_code : ℕ → List (ℕ × StatusCode) → Option StatusCode
find_code input [] = none
find_code input ((v, c) ∷ arms) = if input == v then some c else find_code input arms

unfoldable pub from_u16 : ℕ → Option StatusCode
unfolding find_code
from_u16 input = find_code input from_u16_arms

-- The first arm of a match on a byte string that fits.
pub find_text : Text → List (String × StatusCode) → Option StatusCode
find_text code [] = none
find_text code ((s, c) ∷ arms) = if text_eq code (codes s) then some c else find_text code arms

-- `TryFrom<&[u8]>`; `none` is `Error::InvalidStatusCode`.
unfoldable pub try_from : Text → Option StatusCode
unfolding find_text
try_from code = find_text code try_from_arms

unfoldable pub is_provisional : StatusCode → Bool
is_provisional c = within 100 199 (as_u16 c)

unfoldable pub is_final : StatusCode → Bool
unfolding is_provisional
is_final c = not (is_provisional c)
