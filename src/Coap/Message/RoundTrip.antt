-- ===== src/Coap/Message/RoundTrip.antt =====
-- `CoapMessage::parse` after `CoapMessage::encode`, and back (crates/kipuka-coap/src/server.rs).
use kipuka.Common.{
  ℕ, ◌+◌, ◌*◌, ◌/◌, ◌≤◌, ◌<◌, ◌^◌, ◌%◌, ◌≡◌, ap, ◌∙◌, arith, List, [], ◌∷◌, ◌++◌, length,
  length-append, min, take-append, drop-append, take-all,
}
use kipuka.Coap.Error.{ok}
use kipuka.Coap.Message.{
  CoapMessage, CoapOption, CoapCode, from_bits, to_bits, to_byte, CoapMessageType, confirmable,
  parse, encode, parse_options, encode_options, encode_payload, sort_options, u16_mod, coap_version,
}
use kipuka.Coap.Message.Codes.{from_bits_iff, from_byte-to_byte}
use kipuka.Coap.Message.Sorting.{All, sort_options-SortedFrom, sort_options-All}
use kipuka.Coap.Message.Wire.{Fits, parse_options-encode_options}

-- Each field is within its place on the wire.
pub record IsEncodable (m : CoapMessage) : Type 0 where
  pub class_fits : m.code.class < 8
  pub detail_fits : m.code.detail < 32
  pub id_fits : m.message_id < u16_mod
  pub token_fits : length m.token ≤ 8
  pub options_fit : All Fits m.options

type_bits : (t : CoapMessageType) → to_bits t < 4
unfolding to_bits
type_bits confirmable = omega arith
type_bits t = omega arith

first_byte : CoapMessageType → List ℕ → ℕ
first_byte t token = coap_version * 2 ^ 6 + to_bits t * 2 ^ 4 + length token

first_byte_fields :
    (t : CoapMessageType) (token : List ℕ)
    → length token ≤ 8
    → (first_byte t token / 2 ^ 6 % 4 ≡ coap_version)
      × (from_bits (first_byte t token / 2 ^ 4 % 4) ≡ ok t)
      × (first_byte t token % 16 ≡ length token)
unfolding first_byte
first_byte_fields t token h = (
  omega (arith, type_bits t),
  (from_bits_iff _ t).1 (omega (arith, type_bits t)),
  omega (arith, type_bits t),
)

-- The fixed header and the token, before whatever the option loop reads.
parse-header :
    (t : CoapMessageType) (code : CoapCode) (id : ℕ) (token rest : List ℕ)
    (options : List CoapOption) (payload : List ℕ)
    → code.class < 8
    → code.detail < 32
    → id < u16_mod
    → length token ≤ 8
    → parse_options (length (token ++ rest)) [] 0 rest ≡ ok (options, payload)
    → parse (first_byte t token ∷ to_byte code ∷ id / 256 % 256 ∷ id % 256 ∷ (token ++ rest))
      ≡ ok (record {
        version = coap_version;
        msg_type = t;
        code = code;
        message_id = id;
        token = token;
        options = options;
        payload = payload;
      })
unfolding parse
parse-header t code id token rest options payload hc hd hi ht e =
    let (v, b, k) = first_byte_fields t token ht in
    rw (v, b, k, drop-append token rest, take-append token rest, e)
      (ground (arith, from_byte-to_byte code 0 hc hd (omega arith), length-append token rest))

encode_token :
    (m : CoapMessage)
    → IsEncodable m
    → encode m
      ≡ first_byte m.msg_type m.token
        ∷ to_byte m.code
        ∷ m.message_id / 256 % 256
        ∷ m.message_id % 256
        ∷ (m.token ++ (encode_options 0 (sort_options m.options) ++ encode_payload m.payload))
unfolding encode first_byte
encode_token m f =
    let e : min (length m.token) 8 ≡ length m.token = omega arith in
    rw (e, take-all (length m.token) m.token (omega arith))

-- A message whose fields fit is read back from its encoding, with the options in the order of
-- their numbers (equal numbers as they stood) and the version that `encode` writes.
pub parse-encode :
    (m : CoapMessage)
    → IsEncodable m
    → parse (encode m) ≡ ok (record m { version = coap_version; options = sort_options m.options })
parse-encode m f =
    let rest = encode_options 0 (sort_options m.options) ++ encode_payload m.payload in
    ap parse (encode_token m f)
    ∙ parse-header m.msg_type m.code m.message_id m.token rest (sort_options m.options) m.payload
        f.class_fits f.detail_fits f.id_fits f.token_fits
        (parse_options-encode_options _ [] 0 (sort_options m.options) m.payload
          (sort_options-SortedFrom m.options) (sort_options-All Fits m.options f.options_fit)
          (omega (arith, length-append m.token rest)))
