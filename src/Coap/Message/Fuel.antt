-- ===== src/Coap/Message/Fuel.antt =====
-- The option loop of `CoapMessage::parse` (crates/kipuka-coap/src/server.rs) ends by itself: with a
-- round for each byte the fuel of the model never runs out.
use kipuka.Common.{
  ℕ, zero, suc, ◌/◌, ◌≤◌, ◌^◌, ◌%◌, ◌≡◌, ◌≢◌, arith, List, [], ◌∷◌, ◌++◌, length, drop, length-drop,
  Bool-cases, ◌==◌, inl, inr,
}
use kipuka.Coap.Error.{
  MessageFault, ok, err, invalid_message, fuel_exhausted, bind_ok, bind_err, truncated_delta,
  truncated_length, reserved_delta, reserved_length,
}
use kipuka.Coap.Message.{
  CoapOption, extended, parse_option, parse_options, parse, from_bits, payload_marker,
}

extended-fuel :
    (truncated reserved : MessageFault) (nibble : ℕ) (bytes : List ℕ)
    → truncated ≢ fuel_exhausted
    → reserved ≢ fuel_exhausted
    → extended truncated reserved nibble bytes ≢ err (invalid_message fuel_exhausted)
unfolding extended
extended-fuel truncated reserved nibble [] ht hr e = ground arith
extended-fuel truncated reserved nibble (b ∷ []) ht hr e = ground arith
extended-fuel truncated reserved nibble (b ∷ c ∷ bytes) ht hr e = ground arith

extended-shorter :
    (truncated reserved : MessageFault) (nibble : ℕ) (bytes : List ℕ) {v : ℕ} {rest : List ℕ}
    → extended truncated reserved nibble bytes ≡ ok (v, rest)
    → length rest ≤ length bytes
unfolding extended
extended-shorter truncated reserved nibble [] e = ground arith
extended-shorter truncated reserved nibble (b ∷ []) e = ground arith
extended-shorter truncated reserved nibble (b ∷ c ∷ bytes) e = ground arith

parse_option-shorter :
    (current b : ℕ) (bytes : List ℕ) {o : CoapOption} {rest : List ℕ}
    → parse_option current b bytes ≡ ok (o, rest)
    → length rest ≤ length bytes
unfolding parse_option
parse_option-shorter current b bytes e =
    let (p, e1, k1) =
      bind_ok (extended truncated_delta reserved_delta (b / 2 ^ 4 % 16) bytes) _ e in
    let (q, e2, k2) = bind_ok (extended truncated_length reserved_length (b % 16) p.1) _ k1 in
    ground (
      arith,
      extended-shorter truncated_delta reserved_delta _ bytes e1,
      extended-shorter truncated_length reserved_length _ p.1 e2,
      length-drop q.0 q.1,
    )

parse_option-fuel :
    (current b : ℕ) (bytes : List ℕ)
    → parse_option current b bytes ≢ err (invalid_message fuel_exhausted)
unfolding parse_option
parse_option-fuel current b bytes e =
    elim (bind_err (extended truncated_delta reserved_delta (b / 2 ^ 4 % 16) bytes) _ e) [
      | inl f ↦ extended-fuel truncated_delta reserved_delta _ bytes (ground arith) (ground arith) f
      | inr (p, e1, k1) ↦
          elim (bind_err (extended truncated_length reserved_length (b % 16) p.1) _ k1) [
            | inl f ↦
                extended-fuel truncated_length reserved_length _ p.1 (ground arith) (ground arith) f
            | inr (q, e2, k2) ↦ ground arith
          ]
    ]

parse_options-fuel :
    (fuel : ℕ) (before : List CoapOption) (current : ℕ) (bytes : List ℕ)
    → length bytes ≤ fuel
    → parse_options fuel before current bytes ≢ err (invalid_message fuel_exhausted)
unfolding parse_options
parse_options-fuel fuel before current [] h e = cc
parse_options-fuel zero before current (b ∷ bytes) h e = absurd (omega arith)
parse_options-fuel (suc fuel) before current (b ∷ bytes) h e =
    elim (Bool-cases (b == payload_marker)) [
      | inl m ↦ ground arith
      | inr m ↦
          elim (bind_err (parse_option current b bytes)
            (λ p. parse_options fuel (before ++ p.0 ∷ []) p.0.number p.1) (rw m at e)) [
              | inl f ↦ parse_option-fuel current b bytes f
              | inr (p, e1, k) ↦
                  parse_options-fuel fuel (before ++ p.0 ∷ []) p.0.number p.1
                    (omega (arith, parse_option-shorter current b bytes e1)) k
            ]
    ]

-- Of no datagram does the model's fuel run out, so the option loop ends on every input.
pub parse-fuel : (bytes : List ℕ) → parse bytes ≢ err (invalid_message fuel_exhausted)
unfolding parse from_bits
parse-fuel [] e = cc
parse-fuel (b0 ∷ []) e = cc
parse-fuel (b0 ∷ b1 ∷ []) e = cc
parse-fuel (b0 ∷ b1 ∷ b2 ∷ []) e = cc
parse-fuel (b0 ∷ b1 ∷ b2 ∷ b3 ∷ body) e =
    ground (
      arith,
      length-drop (b0 % 16) body,
      parse_options-fuel (length body) [] 0 (drop (b0 % 16) body),
    )
