-- ===== src/Lib.antt =====
-- Verification library of clipy-si-core: the shared core of a clipboard manager, which masks
-- secrets, seals clips into a vault and decides how devices synchronise through a folder.
--
-- Parts and files. Paths below are from the root of the repository.
-- * Sync (crates/clipy-si-core/src/sync/mod.rs): hlc_compare, hlc_next, hlc_receive, merge_decide,
--   device_is_stale, gc_eligible and rejoin_action under their own names. Sync.Order, Next and
--   Receive are about the clock, Sync.History about the stamps of a device that issues and
--   receives in any sequence, Sync.Causality about what a stamp can have led to, Sync.Network
--   about a folder with any number of devices, Sync.Merge about one record under any deliveries,
--   Sync.Gc about tombstones. Sync.Lifecycle is the life of one record in a folder as steps of any
--   number of devices: publishing, sessions, deletion, collection of the tombstone, and rejoining.
--   Sync.Library is what one device holds of all records, with the lookups by content, and
--   Sync.Library.Arrival what the order of arrival does to it.
-- * Record (record/mod.rs and version.rs): the types; Record.Canonical (record/canonical.rs) is
--   the layout of a plaintext with its reader, Record.Canonical.Grammar the documents of that
--   layout, Record.Envelope the wire form of a record with the documents of that form in
--   Record.Envelope.Grammar, Record.Vault sealing and the manifest. Record.Vault.Authentic and
--   Errors are about what opens, and why not, under an authenticated cipher; Record.Vault.Devices
--   puts the parts together, from one device to another with the same passphrase.
-- * Hex (hexutil.rs; Hex.Accepts is about the texts that it reads), Error (error.rs), Crypto
--   (crypto/mod.rs; Crypto.Authentic is about a cipher that opens only what it sealed), Kdf
--   (kdf/mod.rs).
-- * Redaction (redaction): Patterns, Entropy, Detector and Mask, a module for each source file,
--   with the types of rules.rs in Redaction itself. Redaction.Entropy.Runs is about maximal runs
--   of token bytes, Redaction.Detector.Unordered and Rules are about the order of matches and of
--   the user's rules, Redaction.Detector.Matched is about the text that a report cuts out,
--   Redaction.Patterns.Gate is the test on a captured value.
-- * Ffi (crates/clipy-si-core-ffi/src/lib.rs): the binding's own types, the conversions between
--   them and the core's, and every exported call: Ffi.Redaction, Ffi.Vault and Ffi.Sync, with the
--   mirrors of plaintexts and key derivations in Ffi.Records. Ffi.Wire takes a record through the
--   calls, Ffi.Unlock a passphrase.
-- * Common holds what the modules share (Common.Permutations is about lists in another order),
--   Text is Rust's String with its UTF-8, Extern the interfaces of the crates that the core calls,
--   Examples (and the modules of that name in Sync, Text and Redaction.Patterns.Gate, Sync.Folder
--   and Deliveries, and Sync.Lifecycle.Runs and Library.Runs) the runs. The modules called Tests
--   are the unit tests of a source file as functions into Bool.
--
-- How the code is modelled. Numbers are natural numbers, `i64` is an integer of Common.Int whose
-- operations saturate or wrap as the code's do, a `String` the list of its scalars and a `Vec<u8>`
-- a list of numbers. Fallible code returns a Result; a panic on input from outside is a value of
-- the error type. `usize` is 64 bits wide, and unchecked arithmetic wraps, as in a release build.
-- The reader of a plaintext and the walk over a text are records that each step returns. The loops
-- are structural recursion, except the scan for high entropy, which runs on fuel: the number of
-- bytes, since each turn takes one or more.
--
-- Parameters. AES-GCM, HMAC, HKDF, PBKDF2 and NFC (CryptoOps), serde_json with the derived code
-- (JsonOps), uuid (UuidOps), regex (RegexOps) and `f64` (FloatOps) are records of operations with
-- the laws that are used: opening inverts sealing, lengths, reading inverts writing, matches lie
-- inside the text. IsAuthentic is a further hypothesis on CryptoOps where a theorem names it: what
-- the cipher opens under a key and a nonce, it sealed under them. IsAligned is one on RegexOps:
-- matches begin and end between scalars. Examples.Models shows that the laws of the first two can
-- hold together, Examples the others.
--
-- The shell. What runs around the core is in another repository, and Sync.Lifecycle takes from the
-- comments in sync/mod.rs what it does: it reads tombstones before records, marks what it was told
-- to mark, deletes by putting a tombstone in place of the file, and rejoins where both are gone.
-- Its clocks are within a given skew of the time, the folder is the same for all devices at each
-- moment, and the provider may lose record files but not tombstones. Sync.Merge and Sync.Library
-- take the shell that carries a decision out as a parameter, with what the comments on MergeAction
-- say of each action as its laws; a suppressed record is marked applied, as they ask.
--
-- Not modelled: overwriting of key copies in memory, the scaffolding that uniffi generates, the
-- generated binding, the integration tests with their vectors, and the unit tests that rest on the
-- ciphers or on Unicode's tables. The match arms for constructors that the core's non-exhaustive
-- types do not have yet cannot be reached.
pub mod Common
pub mod Extern
pub mod Text
pub mod Error
pub mod Hex
pub mod Crypto
pub mod Kdf
pub mod Record
pub mod Sync
pub mod Redaction
pub mod Ffi
pub mod Examples
