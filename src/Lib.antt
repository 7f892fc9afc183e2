-- ===== src/Lib.antt =====
-- kipuka: an EST and EST-coaps certificate enrolment server.
--
-- The parts modelled here, and where:
--
-- - Coap is crates/kipuka-coap. Coap/Block is src/block.rs of that crate: Block1 and Block2 options
--   and the assembler and disassembler of large bodies (`BlockOption::decode` is `decode`,
--   `BlockAssembler::process_block` is `process_block`, `BlockDisassembler::new` is `disassembler`).
--   Coap/Message is the message codec of src/server.rs (`CoapMessage::parse` is `parse`, the loop in
--   it `parse_options` and one round of that `parse_option`; `CoapMessage::encode` is `encode`).
--   Coap/Error is `CoapError` of src/lib.rs. The getters `block1` and `block2` of a message give the
--   options that the block module works on.
--   Coap/Router is `CoapMessage::uri_path` and `CoapEstRouter`, and Coap/Server is `CoapDtlsServer`:
--   State has the tables, the replies and what lies outside of the server, Receive is
--   `process_datagram` from the start to the point where the exchange is admitted, and the part of
--   `run` that changes these tables, and Handle the rest of `process_datagram`. The server parses and
--   encodes by Message, takes bodies apart and together by Block, and asks the router.
--   Coap/Sessions is `DtlsSessionCache` of src/dtls.rs.
-- - Auth/FailureTracker is src/auth/failure_tracker.rs: lockout after repeated authentication
--   failures (`check`, `record_failure`, `record_success` under their own names).
-- - Auth/NameMatch is src/auth/name_match.rs, and Auth/EnrollAuthz the decision of
--   src/auth/enroll_authz.rs over the names of a CSR (`authorize_csr`, `check_names`), which asks the
--   former whether a name is covered. Reading a CSR or a certificate is not modelled.
-- - Otp is crates/kipuka-otp: Store is the in-memory store of src/store.rs, Validate is `validate` of
--   src/validate.rs, whose part before the use is taken is `admit` and whose rest is `consume`, since
--   other calls of the store may come between. `hash_token` is an argument.
-- - Star is src/star/mod.rs: Order has its types, with `StarConfig` of src/config/star.rs, and Manager
--   is `StarManager`, under the same names.
-- - Ha is src/ha: Strategy is strategy.rs (the choice among candidates), Pool and Queue are pool.rs
--   (routing, the circuit breaker, the retry queue), Health is health.rs (probes). The pool asks the
--   strategy for a candidate; the health checker moves the states that the pool routes by. Status has
--   the types they share.
-- - Audit is src/audit/mod.rs: Event has the events and the bytes that are hashed of a row, Trail the
--   hash chain and `verify_chain`, Record the writing (`record_checked`, `record_inner`,
--   `write_event`, the two halves of an issuance) with the options of src/config/audit.rs that it
--   reads, History the sequences of writes that the theorems speak of.
-- - Ca/Backend is `route_enrollment` of src/ca/pool.rs, which asks the HA pool for a CA at each
--   attempt. Ca/KeyLabel is `parse_pkcs11_object_label` of src/ca/issue.rs.
-- - Dogtag/Pool is `DogtagPool` of crates/kipuka-dogtag/src/pool.rs: the choice of a client and a pass
--   of health checks. A client is a number; creating and probing one are arguments. A pass holds the
--   lock for each entry only; passes are taken one at a time.
-- - Config is src/config/mod.rs: the checks of `Config::validate` on the CAs and on the labels that
--   name them, and `default_ca`. The checks of the other sections, which stand between these, are
--   not modelled.
-- - Util/Header is `parse_authorization` of crates/kipuka-util/src/auth.rs. It takes texts apart with
--   the functions of Auth/NameMatch, on code points. The decoding of Base64 is an argument.
-- - Common has the Boolean tests, the lemmas on lists, and Dict, an association list that stands for
--   a hash map.
--
-- How the code is modelled:
--
-- - Bytes and integers are natural numbers. Shifts and masks of bits are products, quotients and
--   remainders. A counter of 32 bits wraps (`% 2 ^ 32`), where a debug build would stop. A sum of
--   `usize` does not wrap: it stays far below 2^64 for data that fit in memory. A cast is a remainder.
-- - A method that changes its object takes the object and gives it back beside its result. Each of
--   these methods, where nothing else is said, holds a lock for its length, so it is one step, and a
--   history of calls, from whatever threads, is a list of them in the order of the locks. The calls
--   of `StarManager` are kept apart by its `operation_guard`, which its callers hold.
-- - A time is a number of nanoseconds, and `Instant::now` an argument, one reading for a call.
--   Subtraction stops at 0, as `duration_since` does. The lemmas do not ask that times rise, unless
--   a hypothesis says so.
-- - The option loop of `parse` takes the number of bytes left as its fuel; each round takes at least
--   one, and `parse-fuel` shows that the fuel never runs out.
-- - `f64` is the interface `Float`, of which only the operations that the code uses are named; its
--   comparison may have no answer, as that of NaN. Star has an interface of its own for its sums.
-- - Strings that are taken apart are lists of bytes; `from_utf8` is the test of RFC 3629, and reading
--   an address from text an argument.
-- - The loop of `route_enrollment` takes the number of attempts that are left, which is the number of
--   retries and one; the exchange with a CA (`send_to_ca`) is an argument.
-- - A decrypted message is one step of the CoAP server: the receive loop awaits the end of one
--   before the next. A new DTLS connection with a peer is another, which clears what the tables
--   hold of that peer (`forget_peer`); which peers get one and when is not computed: a history is
--   any list of such steps (`Arrival`). What the server meets meanwhile is a record, `World`: the
--   times, whether the DTLS connection takes a message, the answer of the EST handler. What it does
--   to others is a list of effects. A peer is a number, and a text in an error message of the
--   handler a list of bytes.
-- - The table of audit events is the list of its rows in the order of their ids. A transaction leaves
--   the table as it was where the database refuses a statement or the commit; whether it does is an
--   argument (`Moment`), as are SHA-256, HMAC and the hexadecimal form (`Hashes`), and the text of a
--   JSON object. The lock of the writer makes each write one step.
-- - Errors have constructors in place of texts. Log lines are left out.
--
-- Not modelled: the sockets of the CoAP server and its table of DTLS connections with their
-- handshakes, the exchange with a CA over HTTP, HTTP routes, the network exchange of a probe (an
-- argument), certificates, signing and PKCS#11, SQL, the generation of tokens, the task that
-- renews STAR orders, the reading of configuration files and the command line. They are calls of
-- libraries and devices, or not covered yet.
pub mod Common
pub mod Coap
pub mod Auth
pub mod Otp
pub mod Star
pub mod Audit
pub mod Ha
pub mod Ca
pub mod Dogtag
pub mod Config
pub mod Util
