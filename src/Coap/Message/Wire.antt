-- ===== src/Coap/Message/Wire.antt =====
-- Options on the wire (crates/kipuka-coap/src/server.rs): one option and the option loop read back
-- what `encode` writes.
use kipuka.Common.{
  ℕ, zero, suc, ◌+◌, ◌-◌, ◌*◌, ◌/◌, ◌≤◌, ◌<◌, ◌^◌, ◌%◌, ◌≡◌, refl, sym, ap, ◌∙◌, arith, List, [],
  ◌∷◌, ◌++◌, length, length-append, take-append, drop-append, false, ◌==◌,
}
use mathlib.Core.List.{append_assoc, append-nil}
use kipuka.Coap.Error.{
  MessageFault, ok, truncated_delta, reserved_delta, truncated_length, reserved_length,
}
use kipuka.Coap.Message.{
  CoapOption, extended, parse_option, parse_options, encode_option_header_value, encode_options,
  encode_payload, u16_mod, payload_marker,
}
use kipuka.Coap.Message.Sorting.{SortedFrom, All}

-- Number and length of the option fit 16 bits.
abbrev pub Fits : CoapOption → Type 0
Fits o = (o.number < u16_mod) × (length o.value < u16_mod)

header_nibble : (v : ℕ) → (encode_option_header_value v).0 ≤ 14
unfolding encode_option_header_value
header_nibble v = ground arith

extended-header :
    (truncated reserved : MessageFault) (v : ℕ) (rest : List ℕ)
    → v < u16_mod
    → extended truncated reserved
        (encode_option_header_value v).0
        ((encode_option_header_value v).1 ++ rest)
      ≡ ok (v, rest)
unfolding extended encode_option_header_value
extended-header truncated reserved v rest h = ground arith

high_nibble : (a b : ℕ) → a ≤ 14 → b ≤ 14 → (a * 2 ^ 4 + b) / 2 ^ 4 % 16 ≡ a
high_nibble a b h k = omega arith

low_nibble : (a b : ℕ) → a ≤ 14 → b ≤ 14 → (a * 2 ^ 4 + b) % 16 ≡ b
low_nibble a b h k = omega arith

-- What `encode_options` writes of one option after its first byte.
abbrev option_tail : ℕ → CoapOption → List ℕ → List ℕ
option_tail prev o rest =
    (encode_option_header_value (o.number - prev)).1
    ++ ((encode_option_header_value (length o.value % u16_mod)).1 ++ (o.value ++ rest))

abbrev option_head : ℕ → CoapOption → ℕ
option_head prev o =
    (encode_option_header_value (o.number - prev)).0 * 2 ^ 4
    + (encode_option_header_value (length o.value % u16_mod)).0

parse_option-tail :
    (prev : ℕ) (o : CoapOption) (rest : List ℕ)
    → prev ≤ o.number
    → Fits o
    → parse_option prev (option_head prev o) (option_tail prev o rest) ≡ ok (o, rest)
unfolding parse_option
parse_option-tail prev o rest h f =
    let d = o.number - prev in
    let l = length o.value % u16_mod in
    let e : l ≡ length o.value = omega arith in
    rw
      (
        high_nibble _ _ (header_nibble d) (header_nibble l),
        low_nibble _ _ (header_nibble d) (header_nibble l),
        extended-header truncated_delta reserved_delta d _ (omega arith),
        extended-header truncated_length reserved_length l _ (omega arith),
      )
      (ground
        (arith, e, length-append o.value rest, take-append o.value rest, drop-append o.value rest))

-- The loop at the end of the options.
parse_options-payload :
    (fuel : ℕ) (options : List CoapOption) (current : ℕ) (payload : List ℕ)
    → length (encode_payload payload) ≤ fuel
    → parse_options fuel options current (encode_payload payload) ≡ ok (options, payload)
unfolding parse_options encode_payload
parse_options-payload fuel options current [] h = refl
parse_options-payload zero options current (b ∷ bytes) h = absurd (omega arith)
parse_options-payload (suc fuel) options current (b ∷ bytes) h = refl

not_marker : (a b : ℕ) → a ≤ 14 → b ≤ 14 → (a * 2 ^ 4 + b == payload_marker) ≡ false
not_marker a b h k = ground arith

parse_options_step :
    (fuel : ℕ) (options : List CoapOption) (current b : ℕ) (bytes : List ℕ) {o : CoapOption}
    {rest : List ℕ}
    → (b == payload_marker) ≡ false
    → parse_option current b bytes ≡ ok (o, rest)
    → parse_options (suc fuel) options current (b ∷ bytes)
      ≡ parse_options fuel (options ++ o ∷ []) o.number rest
unfolding parse_options
parse_options_step fuel options current b bytes e p = ground arith

option_tail-append :
    (prev : ℕ) (o : CoapOption) (rest payload : List ℕ)
    → option_tail prev o rest ++ payload ≡ option_tail prev o (rest ++ payload)
option_tail-append prev o rest payload = simp append_assoc

length-option_tail :
    (prev : ℕ) (o : CoapOption) (rest : List ℕ) → length rest ≤ length (option_tail prev o rest)
length-option_tail prev o rest =
    let v = o.value ++ rest in
    let l = (encode_option_header_value (length o.value % u16_mod)).1 in
    omega (
      arith,
      length-append (encode_option_header_value (o.number - prev)).1 (l ++ v),
      length-append l v,
      length-append o.value rest,
    )

-- The loop reads back rising options, then the payload.
pub parse_options-encode_options :
    (fuel : ℕ) (options : List CoapOption) (prev : ℕ) (os : List CoapOption) (payload : List ℕ)
    → SortedFrom prev os
    → All Fits os
    → length (encode_options prev os ++ encode_payload payload) ≤ fuel
    → parse_options fuel options prev (encode_options prev os ++ encode_payload payload)
      ≡ ok (options ++ os, payload)
unfolding parse_options encode_options
parse_options-encode_options fuel options prev [] payload s f h =
    parse_options-payload fuel options prev payload h
    ∙ ap (λ l. ok (l, payload)) (sym (append-nil options))
parse_options-encode_options zero options prev (o ∷ os) payload s f h = absurd (omega arith)
parse_options-encode_options (suc fuel) options prev (o ∷ os) payload s f h =
    let rest = encode_options o.number os ++ encode_payload payload in
    let split = option_tail-append prev o (encode_options o.number os) (encode_payload payload) in
    ap (λ t. parse_options (suc fuel) options prev (option_head prev o ∷ t)) split
    ∙ parse_options_step fuel options prev (option_head prev o) (option_tail prev o rest)
        (not_marker _ _ (header_nibble _) (header_nibble _)) (parse_option-tail prev o rest s.0 f.0)
    ∙ parse_options-encode_options fuel (options ++ o ∷ []) o.number os payload s.1 f.1
        (omega (arith, ap length split, length-option_tail prev o rest))
    ∙ ap (λ l. ok (l, payload)) (append_assoc options (o ∷ []) os)
