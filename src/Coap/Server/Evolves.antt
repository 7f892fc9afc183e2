-- ===== src/Coap/Server/Evolves.antt =====
-- What the work on an admitted request changes of the server's tables, and what it does to others
-- (crates/kipuka-coap/src/server.rs).
use kipuka.Common.{
  ℕ, ◌≤◌, Bool, true, false, ◌≡◌, inl, inr, refl, ◌∙◌, Option, none, some, List, [], ◌∷◌, length,
  ltb, if◌then◌else◌, arith, Bool-cases, Option-cases, beq_refl,
}
use kipuka.Common.Dict
use kipuka.Common.Dict.{
  Dict, IsDistinct, get-insert, insert-IsDistinct, size-insert, size-remove-le, is_some,
}
use kipuka.Coap.Error.{CoapError, invalid_message, unknown_block2_exchange, CoapResult, ok, err}
use kipuka.Coap.Block.{BlockOption, BlockDisassembler, get_block}
use kipuka.Coap.Message.{CoapCode, CoapOption, CoapMessage, acknowledgement, encode}
use kipuka.Coap.Server.State.{
  TransferKey, transfer_eq, Assembly, ResponseCacheEntry, ExchangeKey, exchange_eq, ExchangeEntry,
  CoapDtlsServer, World, Effect, sent, called, Step, send_encoded, keep_response, send_response,
  error_code, build_error_response,
}
use kipuka.Coap.Server.Handle.{
  reply, transfer_key, refuse, block_reply, continue_entry, continue_from, continue_block2,
  cache_response,
}
use kipuka.Coap.Server.Receive.{exchange_key}

-- Of an exchange, what its reply does not change.
abbrev pub opened : Option ExchangeEntry → Option (List ℕ × ℕ)
opened none = none
opened (some e) = some (e.request, e.since)

pub record Evolves (key : ExchangeKey) (s s' : CoapDtlsServer) : Type 0 where
  pub same_max : s'.max_block_assemblers ≡ s.max_block_assemblers
  pub same_payload : s'.max_payload ≡ s.max_payload
  pub same_size : length s'.exchanges ≡ length s.exchanges
  pub same_others :
      (k : ExchangeKey)
      → exchange_eq.beq key k ≡ false
      → Dict.get s'.exchanges k ≡ Dict.get s.exchanges k
  pub same_opened : opened (Dict.get s'.exchanges key) ≡ opened (Dict.get s.exchanges key)
  pub distinct : IsDistinct s.exchanges → IsDistinct s'.exchanges
  pub assemblers :
      length s.block_assemblers ≤ s.max_block_assemblers
      → length s'.block_assemblers ≤ s.max_block_assemblers
  pub cache :
      length s.response_cache ≤ s.max_block_assemblers
      → length s'.response_cache ≤ s.max_block_assemblers

pub unchanged : (key : ExchangeKey) (s : CoapDtlsServer) → Evolves key s s
unchanged key s = record {
  same_max = refl;
  same_payload = refl;
  same_size = refl;
  same_others = λ k d. refl;
  same_opened = refl;
  distinct = λ d. d;
  assemblers = λ b. b;
  cache = λ b. b;
}

Evolves-trans :
    (key : ExchangeKey) (s s' s'' : CoapDtlsServer)
    → Evolves key s s'
    → Evolves key s' s''
    → Evolves key s s''
Evolves-trans key s s' s'' e f = record {
  same_max = f.same_max ∙ e.same_max;
  same_payload = f.same_payload ∙ e.same_payload;
  same_size = f.same_size ∙ e.same_size;
  same_others = λ k d. f.same_others k d ∙ e.same_others k d;
  same_opened = f.same_opened ∙ e.same_opened;
  distinct = λ d. f.distinct (e.distinct d);
  assemblers = λ b. rw (← e.same_max) (f.assemblers (rw e.same_max (e.assemblers b)));
  cache = λ b. rw (← e.same_max) (f.cache (rw e.same_max (e.cache b)));
}

keep_response-Evolves :
    (s : CoapDtlsServer) (key : ExchangeKey) (encoded : List ℕ)
    → Evolves key s (keep_response s key encoded)
unfolding keep_response
keep_response-Evolves s key encoded = elim (Option-cases (Dict.get s.exchanges key)) [
  | inl absent ↦ rw (absent, keep_response) (unchanged key s)
  | inr (entry, here) ↦
      let entry' = record entry { response = some encoded } in
      let put = get-insert s.exchanges key in
      rw (here, keep_response)
        (record {
          same_max = refl;
          same_payload = refl;
          same_size = rw (size-insert s.exchanges key entry', here) refl;
          same_others = λ k d. put k entry' ∙ rw d refl;
          same_opened = rw (put key entry', beq_refl key, here) refl;
          distinct = insert-IsDistinct s.exchanges key entry';
          assemblers = λ b. b;
          cache = λ b. b;
        })
]

with_cache :
    (key : ExchangeKey) (s : CoapDtlsServer) (table : Dict TransferKey ResponseCacheEntry)
    → (length s.response_cache ≤ s.max_block_assemblers → length table ≤ s.max_block_assemblers)
    → Evolves key s (record s { response_cache = table })
with_cache key s table b = record {
  same_max = refl;
  same_payload = refl;
  same_size = refl;
  same_others = λ k d. refl;
  same_opened = refl;
  distinct = λ d. d;
  assemblers = λ a. a;
  cache = b;
}

pub with_assemblers :
    (key : ExchangeKey) (s : CoapDtlsServer) (table : Dict TransferKey Assembly)
    → (length s.block_assemblers ≤ s.max_block_assemblers → length table ≤ s.max_block_assemblers)
    → Evolves key s (record s { block_assemblers = table })
with_assemblers key s table b = record {
  same_max = refl;
  same_payload = refl;
  same_size = refl;
  same_others = λ k d. refl;
  same_opened = refl;
  distinct = λ d. d;
  assemblers = b;
  cache = λ c. c;
}

-- A packet for a peer is an acknowledgement with the message ID and the token of a message.
pub record IsReply (peer_addr : ℕ) (m : CoapMessage) (p : ℕ) (bytes : List ℕ) : Type 0 where
  pub to_peer : p ≡ peer_addr
  pub response : CoapMessage
  pub encoded : bytes ≡ encode response
  pub is_ack : response.msg_type ≡ acknowledgement
  pub same_id : response.message_id ≡ m.message_id
  pub same_token : response.token ≡ m.token

abbrev pub AllReply : ℕ → CoapMessage → List Effect → Type 0
AllReply peer_addr m [] = Unit {0}
AllReply peer_addr m (sent p bytes ∷ effects) =
    IsReply peer_addr m p bytes × AllReply peer_addr m effects
AllReply peer_addr m (called operation label body ∷ effects) = AllReply peer_addr m effects

pub record Serves (peer_addr : ℕ) (m : CoapMessage) (s : CoapDtlsServer) (x : Step) : Type 0 where
  pub evolves : Evolves (exchange_key peer_addr m) s x.1
  pub replies : AllReply peer_addr m x.2

module _ (w : World) (peer_addr : ℕ) (m : CoapMessage) where
  abbrev pub key : ExchangeKey
  key = exchange_key peer_addr m

  pub Serves-after :
      (s s' : CoapDtlsServer) (x : Step)
      → Evolves key s s'
      → Serves peer_addr m s' x
      → Serves peer_addr m s x
  Serves-after s s' x e f = record {
    evolves = Evolves-trans key s s' x.1 e f.evolves;
    replies = f.replies;
  }

  pub silent :
      (s : CoapDtlsServer) (done : CoapResult (Unit {0})) → Serves peer_addr m s (done, s, [])
  silent s done = record { evolves = unchanged key s; replies = tt }

  pub if-Serves :
      (s : CoapDtlsServer) (b : Bool) (x y : Step)
      → Serves peer_addr m s x
      → Serves peer_addr m s y
      → Serves peer_addr m s (if b then x else y)
  if-Serves s true x y p q = p
  if-Serves s false x y p q = q

  pub send_reply-Serves :
      (s : CoapDtlsServer) (code : CoapCode) (options : List CoapOption) (payload : List ℕ)
      → Serves peer_addr m s (send_response w s peer_addr (reply m code options payload))
  unfolding send_response send_encoded
  send_reply-Serves s code options payload =
      let r = reply m code options payload in
      let kept = keep_response-Evolves s key (encode r) in
      let is_reply : IsReply peer_addr m peer_addr (encode r) = record {
        to_peer = refl;
        response = r;
        encoded = refl;
        is_ack = refl;
        same_id = refl;
        same_token = refl;
      } in
      elim (Option-cases w.send_fault) [
        | inl works ↦ rw (works, send_encoded) (record { evolves = kept; replies = (is_reply, tt) })
        | inr (e, fails) ↦ rw (fails, send_encoded) (record { evolves = kept; replies = tt })
      ]

  pub refuse-Serves :
      (s : CoapDtlsServer) (e : CoapError) → Serves peer_addr m s (refuse w s peer_addr m e)
  unfolding refuse build_error_response
  refuse-Serves s e = send_reply-Serves s (error_code e) [] (w.text e)

  continue_entry-Serves :
      (s : CoapDtlsServer) (entry : ResponseCacheEntry) (block : Option (List ℕ × BlockOption))
      → Dict.get s.response_cache (transfer_key peer_addr m) ≡ some entry
      → Serves peer_addr m s (continue_entry w s peer_addr m entry block)
  unfolding continue_entry block_reply
  continue_entry-Serves s entry none here =
      let k = transfer_key peer_addr m in
      let table = Dict.remove s.response_cache k in
      Serves-after s (record s { response_cache = table }) _
        (with_cache key s table (λ b. omega (arith, size-remove-le s.response_cache k)))
        (refuse-Serves (record s { response_cache = table })
          (invalid_message unknown_block2_exchange))
  continue_entry-Serves s entry (some (bytes, block)) here =
      let k = transfer_key peer_addr m in
      let entry' = record entry { touched = w.begun } in
      let table =
        if block.more
        then Dict.insert s.response_cache k entry'
        else Dict.remove s.response_cache k in
      let size : length (Dict.insert s.response_cache k entry') ≡ length s.response_cache =
        size-insert s.response_cache k entry' ∙ rw here refl in
      Serves-after s (record s { response_cache = table }) _
        (with_cache key s table (λ b. ground (arith, size, size-remove-le s.response_cache k, b)))
        (send_reply-Serves (record s { response_cache = table }) entry.code _ bytes)

  continue_from-Serves :
      (s : CoapDtlsServer) (block : BlockOption) (entry : Option ResponseCacheEntry)
      → Dict.get s.response_cache (transfer_key peer_addr m) ≡ entry
      → Serves peer_addr m s (continue_from w s peer_addr m block entry)
  unfolding continue_from
  continue_from-Serves s block none here = refuse-Serves s (invalid_message unknown_block2_exchange)
  continue_from-Serves s block (some entry) here =
      continue_entry-Serves s entry (get_block entry.disasm block.num) here

  pub continue_block2-Serves :
      (s : CoapDtlsServer) (block : BlockOption)
      → Serves peer_addr m s (continue_block2 w s peer_addr m block)
  unfolding continue_block2
  continue_block2-Serves s block =
      continue_from-Serves s block (Dict.get s.response_cache (transfer_key peer_addr m)) refl

  pub cache_response-Serves :
      (s : CoapDtlsServer) (k : TransferKey) (disasm : BlockDisassembler) (cf : ℕ) (code : CoapCode)
      (x : Step)
      → Serves peer_addr m s x
      → Serves peer_addr m s (cache_response w k disasm cf code x)
  unfolding cache_response
  cache_response-Serves s k disasm cf code (err e, s', effects) p = p
  cache_response-Serves s k disasm cf code (ok done, s', effects) p =
      let entry : ResponseCacheEntry = record {
        disasm = disasm;
        content_format = cf;
        code = code;
        touched = w.answered;
      } in
      let table = Dict.insert s'.response_cache k entry in
      elim (Bool-cases (ltb (length s'.response_cache) s'.max_block_assemblers)) [
        | inl room ↦ rw room (record {
          evolves =
              Evolves-trans key s s' (record s' { response_cache = table }) p.evolves
                (with_cache key s' table
                  (λ b. ground (arith, room, size-insert s'.response_cache k entry)));
          replies = p.replies;
        })
        | inr full ↦ rw full p
      ]
