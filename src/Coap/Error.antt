-- ===== src/Coap/Error.antt =====
-- `CoapError` of crates/kipuka-coap/src/lib.rs, The text of a message or block
-- error is a constructor with the numbers that the text prints, that of the others a list of bytes.
use kipuka.Common.{ℕ, List, ◌≡◌, refl, ◌⊎◌, inl, inr, arith}

pub data BlockFault : Type 0 where
  already_complete : BlockFault
  unexpected_block : (expected received : ℕ) → BlockFault
  incomplete : (received : ℕ) → BlockFault

pub data MessageFault : Type 0 where
  too_short truncated_token truncated_delta truncated_length truncated_value : MessageFault
  unsupported_version invalid_type token_too_long : MessageFault
  reserved_delta reserved_length value_overflow number_overflow : MessageFault
  message_id_reused unknown_block2_exchange : MessageFault
  -- Of the model alone: the fuel of a loop has run out. `parse` never returns it.
  fuel_exhausted : MessageFault

pub data CoapError : Type 0 where
  block_transfer_error : BlockFault → CoapError
  payload_too_large : (size max : ℕ) → CoapError
  invalid_message : MessageFault → CoapError
  unsupported_method resource_not_found unauthorized forbidden internal : List ℕ → CoapError
  dtls_error : List ℕ → CoapError
  unsupported_content_format : ℕ → CoapError

pub data CoapResult {ℓ} (A : Type ℓ) : Type ℓ where
  ok : A → CoapResult A
  err : CoapError → CoapResult A

infixl 5 ◌>>=◌
abbrev pub ◌>>=◌ {ℓ κ} :
    {A : Type ℓ} {B : Type κ} → CoapResult A → (A → CoapResult B) → CoapResult B
ok a >>= f = f a
err e >>= f = err e

-- A chain that succeeds has succeeded at its first step.
pub bind_ok {ℓ κ} :
    {A : Type ℓ} {B : Type κ} (r : CoapResult A) (f : A → CoapResult B) {b : B}
    → (r >>= f) ≡ ok b
    → (a : A) × (r ≡ ok a) × (f a ≡ ok b)
bind_ok (ok a) f h = (a, refl, h)
bind_ok (err e) f h = cc

-- A chain fails at its first step or later.
pub bind_err {ℓ κ} :
    {A : Type ℓ} {B : Type κ} (r : CoapResult A) (f : A → CoapResult B) {e : CoapError}
    → (r >>= f) ≡ err e
    → (r ≡ err e) ⊎ ((a : A) × (r ≡ ok a) × (f a ≡ err e))
bind_err (ok a) f h = inr (a, refl, h)
bind_err (err e) f h = inl (ground arith)
