-- ===== src/Tests/Framing.antt =====
-- Frames of a concrete stream.
use rssip.Prelude.{◌≡◌, refl, Bool, true, Text, codes, ◌++◌, [], some}
use rssip.Transport.Framing.{complete, decode}
use rssip.Transport.Framing.Lossless.{taken, decode-lossless}
use rssip.Transport.Framing.Stable.{decode-longer}
use rssip.Error.{ok}

abbrev all_utf8 : Text → Bool
all_utf8 t = true

-- The texts here have no space.
abbrev no_trim : Text → Text
no_trim t = t

abbrev bye_message : Text
bye_message = codes "BYE\r\nl:2\r\n\r\nhi"

abbrev next_message : Text
next_message = codes "ACK"

decode-lossless_example :
    let (m, rest) = decode all_utf8 no_trim (bye_message ++ next_message) in
    taken m ++ rest ≡ bye_message ++ next_message
decode-lossless_example = decode-lossless all_utf8 no_trim (bye_message ++ next_message)

decode-longer_example :
    decode all_utf8 no_trim (bye_message ++ next_message)
    ≡ (ok (some (complete bye_message)), next_message)
unfolding decode
decode-longer_example = decode-longer all_utf8 no_trim bye_message next_message bye_message [] refl
