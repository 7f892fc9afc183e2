-- ===== src/Coap/Message/Accepted.antt =====
-- What `CoapMessage::parse` accepts (crates/kipuka-coap/src/server.rs): every field of an accepted
-- message is in range, its options are in the order of their numbers, and the loop ends.
use kipuka.Common.{
  ℕ, zero, suc, ◌+◌, ◌*◌, ◌/◌, ◌≤◌, ◌<◌, ◌^◌, ◌%◌, ◌≡◌, ◌∙◌, arith, List, [], ◌∷◌, ◌++◌, length,
  drop, length-take, length-drop, Bool-cases, ◌==◌, inl, inr,
}
use mathlib.Core.List.{append_assoc, append-nil}
use kipuka.Coap.Error.{
  MessageFault, ok, bind_ok, truncated_delta, truncated_length, reserved_delta, reserved_length,
}
use kipuka.Coap.Message.{
  CoapMessage, CoapOption, extended, parse_option, parse_options, parse, from_byte, encode, u16_mod,
  coap_version, payload_marker,
}
use kipuka.Coap.Message.Sorting.{SortedFrom, All, sort_options_sorted}
use kipuka.Coap.Message.Wire.{Fits}
use kipuka.Coap.Message.RoundTrip.{IsEncodable, parse-encode}

-- Every element is a byte.
abbrev pub AreBytes : List ℕ → Type 0
AreBytes [] = Unit {0}
AreBytes (b ∷ bytes) = (b < 256) × AreBytes bytes

AreBytes-drop : (n : ℕ) (bytes : List ℕ) → AreBytes bytes → AreBytes (drop n bytes)
AreBytes-drop zero bytes h = h
AreBytes-drop (suc n) [] h = tt
AreBytes-drop (suc n) (b ∷ bytes) h = AreBytes-drop n bytes h.1

module _ (truncated reserved : MessageFault) where
  extended-range :
      (nibble : ℕ) (bytes : List ℕ) {v : ℕ} {rest : List ℕ}
      → nibble < 16
      → AreBytes bytes
      → extended truncated reserved nibble bytes ≡ ok (v, rest)
      → (v < u16_mod) × AreBytes rest × (length rest ≤ length bytes)
  unfolding extended
  extended-range nibble [] hn hb e = ground arith
  extended-range nibble (b ∷ []) hn hb e = ground arith
  extended-range nibble (b ∷ c ∷ bytes) hn hb e = ground arith

-- An accepted option fits, its number is not below the last, and the loop moves on.
parse_option-range :
    (current b : ℕ) (bytes : List ℕ) {o : CoapOption} {rest : List ℕ}
    → AreBytes bytes
    → parse_option current b bytes ≡ ok (o, rest)
    → (current ≤ o.number) × Fits o × AreBytes rest × (length rest ≤ length bytes)
unfolding parse_option
parse_option-range current b bytes hb e =
    let (p, e1, k1) =
      bind_ok (extended truncated_delta reserved_delta (b / 2 ^ 4 % 16) bytes) _ e in
    let (q, e2, k2) = bind_ok (extended truncated_length reserved_length (b % 16) p.1) _ k1 in
    let r1 = extended-range truncated_delta reserved_delta _ bytes (omega arith) hb e1 in
    let r2 = extended-range truncated_length reserved_length _ p.1 (omega arith) r1.1 e2 in
    ground (arith, r1, r2, length-take q.0 q.1, length-drop q.0 q.1, AreBytes-drop q.0 q.1 r2.1)

-- Read options follow those read before, in rising order, and the loop reads nothing else.
record Reads (current : ℕ) (before options : List CoapOption) : Type 0 where
  new : List CoapOption
  appended : options ≡ before ++ new
  rising : SortedFrom current new
  fit : All Fits new

parse_options-Reads :
    (fuel : ℕ) (before : List CoapOption) (current : ℕ) (bytes : List ℕ) {options : List CoapOption}
    {payload : List ℕ}
    → AreBytes bytes
    → parse_options fuel before current bytes ≡ ok (options, payload)
    → Reads current before options
unfolding parse_options
parse_options-Reads fuel before current [] hb e = record {
  new = [];
  appended = ground (arith, append-nil before);
  rising = tt;
  fit = tt;
}
parse_options-Reads zero before current (b ∷ bytes) hb e = cc
parse_options-Reads (suc fuel) before current (b ∷ bytes) {options} {payload} hb e =
    elim (Bool-cases (b == payload_marker)) [
      | inl h ↦ record {
        new = [];
        appended = ground (arith, append-nil before);
        rising = tt;
        fit = tt;
      }
      | inr h ↦
          let (p, e1, k) =
            bind_ok (parse_option current b bytes)
              (λ p. parse_options fuel (before ++ p.0 ∷ []) p.0.number p.1) (rw h at e) in
          let r = parse_option-range current b bytes hb.1 e1 in
          let later = parse_options-Reads fuel (before ++ p.0 ∷ []) p.0.number p.1 r.2 k in
          record {
            new = p.0 ∷ later.new;
            appended = later.appended ∙ append_assoc before (p.0 ∷ []) later.new;
            rising = (r.0, later.rising);
            fit = (r.1, later.fit);
          }
    ]

-- What an accepted header and token leave for the loop.
abbrev Parsed : List ℕ → CoapMessage → Type 0
Parsed [] m = ⊥
Parsed (b0 ∷ []) m = ⊥
Parsed (b0 ∷ b1 ∷ []) m = ⊥
Parsed (b0 ∷ b1 ∷ b2 ∷ []) m = ⊥
Parsed (b0 ∷ b1 ∷ b2 ∷ b3 ∷ body) m =
    (m.version ≡ coap_version)
    × (m.code ≡ from_byte b1)
    × (m.message_id ≡ b2 * 256 + b3)
    × (length m.token ≤ 8)
    × (parse_options (length body) [] 0 (drop (b0 % 16) body) ≡ ok (m.options, m.payload))

parse-Parsed : (bytes : List ℕ) {m : CoapMessage} → parse bytes ≡ ok m → Parsed bytes m
unfolding parse
parse-Parsed [] e = cc
parse-Parsed (b0 ∷ []) e = cc
parse-Parsed (b0 ∷ b1 ∷ []) e = cc
parse-Parsed (b0 ∷ b1 ∷ b2 ∷ []) e = cc
parse-Parsed (b0 ∷ b1 ∷ b2 ∷ b3 ∷ body) e = ground (arith, length-take (b0 % 16) body)

-- An accepted datagram gives a message whose fields fit the wire format, of version 1, with its
-- options in rising order.
pub parse-IsEncodable :
    (bytes : List ℕ) (m : CoapMessage)
    → AreBytes bytes
    → parse bytes ≡ ok m
    → IsEncodable m × (m.version ≡ coap_version) × SortedFrom 0 m.options
unfolding from_byte
parse-IsEncodable (b0 ∷ b1 ∷ b2 ∷ b3 ∷ body) m (h0, (h1, (h2, (h3, hb)))) e =
    let (v, c, i, t, l) = parse-Parsed (b0 ∷ b1 ∷ b2 ∷ b3 ∷ body) e in
    let r =
      parse_options-Reads (length body) [] 0 (drop (b0 % 16) body) (AreBytes-drop (b0 % 16) body hb)
        l in
    (
      record {
        class_fits = ground arith;
        detail_fits = ground arith;
        id_fits = ground arith;
        token_fits = t;
        options_fit = rw r.appended r.fit;
      },
      v,
      rw r.appended r.rising,
    )
parse-IsEncodable [] m hb e = absurd (parse-Parsed [] e)
parse-IsEncodable (b0 ∷ []) m hb e = absurd (parse-Parsed (b0 ∷ []) e)
parse-IsEncodable (b0 ∷ b1 ∷ []) m hb e = absurd (parse-Parsed (b0 ∷ b1 ∷ []) e)
parse-IsEncodable (b0 ∷ b1 ∷ b2 ∷ []) m hb e = absurd (parse-Parsed (b0 ∷ b1 ∷ b2 ∷ []) e)

-- An accepted datagram and the encoding of the message that it gives are read alike, so nothing of
-- the message is lost when it is sent on.
pub parse-encode-parse :
    (bytes : List ℕ) (m : CoapMessage)
    → AreBytes bytes
    → parse bytes ≡ ok m
    → parse (encode m) ≡ ok m
parse-encode-parse bytes m hb e =
    let (f, v, s) = parse-IsEncodable bytes m hb e in
    parse-encode m f ∙ ground (arith, sort_options_sorted 0 m.options s)
