-- ===== src/Coap/Message/Examples.antt =====
-- Runs of the message format (crates/kipuka-coap/src/server.rs), and its theorems at concrete
-- inputs.
use kipuka.Common.{ℕ, ◌≡◌, ◌≢◌, refl, arith, some, List, [], ◌∷◌}
use kipuka.Coap.Error.{ok, err, invalid_message, fuel_exhausted}
use kipuka.Coap.Message.{
  CoapMessage, confirmable, to_byte, from_byte, from_bits, to_bits, value_as_uint, extended,
  parse_option, parse_options, parse, encode, encode_options, encode_option_header_value,
  encode_payload, sort_options, insert_sorted, coap_version, content_format, find_option,
}
use kipuka.Coap.Message.RoundTrip.{IsEncodable, parse-encode}
use kipuka.Coap.Message.Fuel.{parse-fuel}
use kipuka.Coap.Message.Accepted.{parse-encode-parse}

-- A POST to two path segments, with options out of order.
abbrev request : CoapMessage
request = record {
  version = 1;
  msg_type = confirmable;
  code = record { class = 0; detail = 2 };
  message_id = 0x1234;
  token = 7 ∷ 8 ∷ [];
  options =
      record { number = 12; value = 1 ∷ 30 ∷ [] }
      ∷ record { number = 11; value = 115 ∷ 101 ∷ 110 ∷ [] }
      ∷ record { number = 300; value = [] }
      ∷ [];
  payload = 1 ∷ 2 ∷ 3 ∷ [];
}

abbrev datagram : List ℕ
datagram =
    0x42 ∷ 2 ∷ 0x12 ∷ 0x34 ∷ 7 ∷ 8 ∷ 0xb3 ∷ 115 ∷ 101 ∷ 110 ∷ 0x12 ∷ 1 ∷ 30 ∷ 0xe0 ∷ 0 ∷ 19 ∷ 0xff
    ∷ 1 ∷ 2 ∷ 3 ∷ []

abbrev sorted : CoapMessage
sorted = record request {
  options =
      record { number = 11; value = 115 ∷ 101 ∷ 110 ∷ [] }
      ∷ record { number = 12; value = 1 ∷ 30 ∷ [] }
      ∷ record { number = 300; value = [] }
      ∷ [];
}

encode-request : encode request ≡ datagram
unfolding encode to_bits to_byte encode_options encode_option_header_value sort_options
    insert_sorted encode_payload
encode-request = refl

parse-datagram : parse datagram ≡ ok sorted
unfolding parse from_bits from_byte parse_options parse_option extended
parse-datagram = refl

content_format_sample : content_format request ≡ some 286
unfolding content_format find_option value_as_uint
content_format_sample = refl

request-IsEncodable : IsEncodable request
request-IsEncodable = record {
  class_fits = omega arith;
  detail_fits = omega arith;
  id_fits = omega arith;
  token_fits = omega arith;
  options_fit = omega arith;
}

parse-encode_example :
    parse (encode request)
    ≡ ok (record request { version = coap_version; options = sort_options request.options })
parse-encode_example = parse-encode request request-IsEncodable

parse-encode-parse_example : parse (encode sorted) ≡ ok sorted
parse-encode-parse_example = parse-encode-parse datagram sorted (omega arith) parse-datagram

parse-fuel_example : parse (0x41 ∷ []) ≢ err (invalid_message fuel_exhausted)
parse-fuel_example = parse-fuel (0x41 ∷ [])
