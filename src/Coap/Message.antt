-- ===== src/Coap/Message.antt =====
-- The message format of crates/kipuka-coap/src/server.rs (RFC 7252, section 3): codes, options,
-- `CoapMessage::parse` and `CoapMessage::encode`. Bytes are numbers below 256; `|` of operands with
-- no common bit is a sum, shifts are products and quotients by powers of two, and a mask of low
-- bits is a remainder.
pub mod Codes
pub mod Options
pub mod Sorting
pub mod Wire
pub mod RoundTrip
pub mod Accepted
pub mod Fuel
mod Examples
use kipuka.Common.{
  ℕ, zero, suc, ◌+◌, ◌-◌, ◌*◌, ◌/◌, ◌%◌, ◌^◌, min, Bool, not, Option, none, some, List, [], ◌∷◌,
  ◌++◌, ltb, leb, ◌==◌, if◌then◌else◌, length, take, drop,
}
use kipuka.Coap.Error.{
  MessageFault, CoapError, CoapResult, ok, err, invalid_message, too_short, truncated_token,
  truncated_delta, truncated_length, truncated_value, unsupported_version, invalid_type,
  token_too_long, reserved_delta, reserved_length, value_overflow, number_overflow, fuel_exhausted,
  ◌>>=◌,
}
use kipuka.Coap.Block
use kipuka.Coap.Block.{BlockOption}

abbrev pub coap_version : ℕ
coap_version = 1

abbrev pub payload_marker : ℕ
payload_marker = 0xff

abbrev pub option_uri_path : ℕ
option_uri_path = 11

abbrev pub option_content_format : ℕ
option_content_format = 12

abbrev pub option_block2 : ℕ
option_block2 = 23

abbrev pub option_block1 : ℕ
option_block1 = 27

abbrev pub u16_mod : ℕ
u16_mod = 2 ^ 16

pub record CoapCode : Type 0 where
  pub class : ℕ
  pub detail : ℕ

unfoldable pub to_byte : CoapCode → ℕ
to_byte c = c.class % 8 * 2 ^ 5 + c.detail % 32

unfoldable pub from_byte : ℕ → CoapCode
from_byte byte = record { class = byte / 2 ^ 5 % 8; detail = byte % 32 }

pub data CoapMethod : Type 0 where
  get post put delete fetch patch ipatch : CoapMethod

unfoldable pub from_code : CoapCode → Option CoapMethod
from_code code =
    if not (code.class == 0)
    then none
    else if code.detail == 1
    then some get
    else if code.detail == 2
    then some post
    else if code.detail == 3
    then some put
    else if code.detail == 4
    then some delete
    else if code.detail == 5
    then some fetch
    else if code.detail == 6
    then some patch
    else if code.detail == 7
    then some ipatch
    else none

unfoldable pub to_code : CoapMethod → CoapCode
to_code get = record { class = 0; detail = 1 }
to_code post = record { class = 0; detail = 2 }
to_code put = record { class = 0; detail = 3 }
to_code delete = record { class = 0; detail = 4 }
to_code fetch = record { class = 0; detail = 5 }
to_code patch = record { class = 0; detail = 6 }
to_code ipatch = record { class = 0; detail = 7 }

pub data CoapMessageType : Type 0 where
  confirmable non_confirmable acknowledgement reset : CoapMessageType

unfoldable pub from_bits : ℕ → CoapResult CoapMessageType
from_bits bits =
    if bits == 0
    then ok confirmable
    else if bits == 1
    then ok non_confirmable
    else if bits == 2
    then ok acknowledgement
    else if bits == 3
    then ok reset
    else err (invalid_message invalid_type)

unfoldable pub to_bits : CoapMessageType → ℕ
to_bits confirmable = 0
to_bits non_confirmable = 1
to_bits acknowledgement = 2
to_bits reset = 3

pub record CoapOption : Type 0 where
  pub number : ℕ
  pub value : List ℕ

-- The loop of `value_as_uint`, from the result so far.
uint_from : ℕ → List ℕ → ℕ
uint_from result [] = result
uint_from result (byte ∷ bytes) = uint_from (result * 2 ^ 8 % 2 ^ 32 + byte) bytes

unfoldable pub value_as_uint : CoapOption → ℕ
unfolding uint_from
value_as_uint o = uint_from 0 o.value

unfoldable pub uint_bytes : ℕ → List ℕ
uint_bytes value =
    if value == 0
    then []
    else if leb value 0xff
    then value ∷ []
    else if leb value 0xffff
    then value / 2 ^ 8 % 256 ∷ value % 256 ∷ []
    else if leb value 0xffffff
    then value / 2 ^ 16 % 256 ∷ value / 2 ^ 8 % 256 ∷ value % 256 ∷ []
    else value / 2 ^ 24 % 256 ∷ value / 2 ^ 16 % 256 ∷ value / 2 ^ 8 % 256 ∷ value % 256 ∷ []

unfoldable pub from_uint : ℕ → ℕ → CoapOption
unfolding uint_bytes
from_uint number value = record { number = number; value = uint_bytes value }

pub record CoapMessage : Type 0 where
  pub version : ℕ
  pub msg_type : CoapMessageType
  pub code : CoapCode
  pub message_id : ℕ
  pub token : List ℕ
  pub options : List CoapOption
  pub payload : List ℕ

-- The extended form of an option delta or length, with the bytes after it.
unfoldable pub extended : MessageFault → MessageFault → ℕ → List ℕ → CoapResult (ℕ × List ℕ)
extended truncated reserved nibble bytes =
    if nibble == 13
    then (elim bytes [ [] ↦ err (invalid_message truncated) | b ∷ rest ↦ ok (b + 13, rest) ])
    else if nibble == 14
    then (elim bytes [
      | [] ↦ err (invalid_message truncated)
      | high ∷ [] ↦ err (invalid_message truncated)
      | high ∷ low ∷ rest ↦
          if ltb (high * 256 + low + 269) u16_mod
          then ok (high * 256 + low + 269, rest)
          else err (invalid_message value_overflow)
    ])
    else if nibble == 15
    then err (invalid_message reserved)
    else ok (nibble, bytes)

-- One round of the option loop: the option whose first byte is given, and the bytes after it.
unfoldable pub parse_option : ℕ → ℕ → List ℕ → CoapResult (CoapOption × List ℕ)
parse_option current option_byte bytes = do
  (delta, rest) ← extended truncated_delta reserved_delta (option_byte / 2 ^ 4 % 16) bytes
  (size, rest') ← extended truncated_length reserved_length (option_byte % 16) rest
  if leb u16_mod (current + delta)
      then err (invalid_message number_overflow)
      else if ltb (length rest') size
      then err (invalid_message truncated_value)
      else ok (record { number = current + delta; value = take size rest' }, drop size rest')

-- The loop, with the options so far and the last option number. Each round takes a byte, so the
-- number of bytes is fuel enough.
unfoldable pub parse_options :
    ℕ → List CoapOption → ℕ → List ℕ → CoapResult (List CoapOption × List ℕ)
parse_options fuel options current [] = ok (options, [])
parse_options zero options current (b ∷ bytes) = err (invalid_message fuel_exhausted)
parse_options (suc fuel) options current (b ∷ bytes) =
    if b == payload_marker then ok (options, bytes) else do
      (option, rest) ← parse_option current b bytes
      parse_options fuel (options ++ option ∷ []) option.number rest

unfoldable pub parse : List ℕ → CoapResult CoapMessage
parse (b0 ∷ b1 ∷ b2 ∷ b3 ∷ body) =
    let version = b0 / 2 ^ 6 % 4 in
    let tkl = b0 % 16 in
    if not (version == coap_version) then err (invalid_message unsupported_version) else do
      msg_type ← from_bits (b0 / 2 ^ 4 % 4)
      if ltb 8 tkl
          then err (invalid_message token_too_long)
          else if ltb (length body) tkl
          then err (invalid_message truncated_token)
          else do
            (options, payload) ← parse_options (length body) [] 0 (drop tkl body)
            ok (record {
              version = version;
              msg_type = msg_type;
              code = from_byte b1;
              message_id = b2 * 256 + b3;
              token = take tkl body;
              options = options;
              payload = payload;
            })
parse _ = err (invalid_message too_short)

unfoldable pub encode_option_header_value : ℕ → ℕ × List ℕ
encode_option_header_value value =
    if ltb value 13
    then (value, [])
    else if ltb value 269
    then (13, (value - 13) ∷ [])
    else (14, (value - 269) / 256 % 256 ∷ (value - 269) % 256 ∷ [])

-- `sort_by_key(|o| o.number)`, which is stable: an option stays before a later one of its number.
unfoldable pub insert_sorted : CoapOption → List CoapOption → List CoapOption
insert_sorted o [] = o ∷ []
insert_sorted o (p ∷ ps) = if leb o.number p.number then o ∷ p ∷ ps else p ∷ insert_sorted o ps

unfoldable pub sort_options : List CoapOption → List CoapOption
sort_options [] = []
sort_options (o ∷ os) = insert_sorted o (sort_options os)

unfoldable pub encode_options : ℕ → List CoapOption → List ℕ
encode_options prev_number [] = []
encode_options prev_number (o ∷ os) =
    let (delta_nibble, delta_ext) = encode_option_header_value (o.number - prev_number) in
    let (length_nibble, length_ext) = encode_option_header_value (length o.value % u16_mod) in
    (delta_nibble * 2 ^ 4 + length_nibble)
    ∷ (delta_ext ++ (length_ext ++ (o.value ++ encode_options o.number os)))

unfoldable pub encode_payload : List ℕ → List ℕ
encode_payload [] = []
encode_payload (b ∷ bytes) = payload_marker ∷ b ∷ bytes

unfoldable pub encode : CoapMessage → List ℕ
encode m =
    let tkl = min (length m.token) 8 in
    (coap_version * 2 ^ 6 + to_bits m.msg_type * 2 ^ 4 + tkl)
    ∷ to_byte m.code
    ∷ m.message_id / 256 % 256
    ∷ m.message_id % 256
    ∷ (take tkl m.token ++ (encode_options 0 (sort_options m.options) ++ encode_payload m.payload))

-- The first option of a number.
unfoldable pub find_option : ℕ → List CoapOption → Option CoapOption
find_option n [] = none
find_option n (o ∷ os) = if o.number == n then some o else find_option n os

unfoldable pub content_format : CoapMessage → Option ℕ
content_format m = elim (find_option option_content_format m.options) [
  | none ↦ none
  | some o ↦ some (value_as_uint o % u16_mod)
]

unfoldable pub block1 : CoapMessage → Option BlockOption
block1 m = elim (find_option option_block1 m.options) [
  | none ↦ none
  | some o ↦ some (Block.decode (value_as_uint o))
]

unfoldable pub block2 : CoapMessage → Option BlockOption
block2 m = elim (find_option option_block2 m.options) [
  | none ↦ none
  | some o ↦ some (Block.decode (value_as_uint o))
]
