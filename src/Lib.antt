-- ===== src/Lib.antt =====
-- A Merkle tree certificate log: an issuance log keeps entries and the hashes of a tree over them in a
-- database, cosigners sign the tree's subtrees, and a certificate carries an inclusion proof in place
-- of a signature. This library models the parts that the trust in such a certificate rests on.
--
-- Files and the code that they model:
--   Merkle/Hash, Merkle/Inclusion, Merkle/Consistency, Merkle/Nodes, Merkle/Tiles:
--     internal/merkle/merkle.go. Each function is named after its Go function, in snake case; a
--     recursive helper ends in `_rec`. Merkle/Shape and Merkle/Nodes/Perfect are the specification:
--     the tree that every recursion of the file follows, and its RFC 9162 hash.
--   Tlog: the tile's index in a path, `encodeTileIndex` of internal/merkle/merkle.go and
--     `decodeTileIndex` of internal/tlogtiles/handler.go, on the bytes of the text.
--   Format/Entry, Format/Signatures, Format/Proof: internal/mtcformat/encoding.go.
--   Log/Tables: the statements of internal/store/store.go that the log runs.
--   Log: internal/issuancelog/issuancelog.go. Log/Ragged is the specification of a tree of any size,
--     Log/WellFormed holds the invariant `IsLog` of a log's two tables.
--   Batch: internal/batch/batch.go, and the subtree signatures of internal/cosigner/cosigner.go. It
--     works on the log's tables, through the proofs of Merkle/Nodes.
--   Log/Checkpoint: `BuildMTCEntry` and `CreateCheckpoint`, with the signature as a parameter.
--   Acme: internal/acme, with the ACME tables of internal/store/store.go. Acme/Tables and
--     Acme/Statements are the tables and the statements on them, Acme/Nonce is nonce.go, Acme/Jws is
--     jws.go. Acme/Handlers is handlers.go and finalize.go, each handler and goroutine cut at its
--     accesses to what it shares with others (Acme/Thread): a statement, the nonces, or the log.
--     `verifyJWS` is one access, and so is an append to the log, a checkpoint, or the reading of a
--     proof's nodes where no other call of the log overlaps with it. Acme/System puts them together: a server is the shared state and the threads that
--     have not ended, and a step serves a request or lets any thread make its next access. In the
--     steps `overlaps` and `collides`, calls of the log that overlap may see, and leave, any rows in
--     the log's tables, or meet each other's row; `is_serial` is a run without these steps. What a
--     thread takes from outside (Acme/Outside) may differ from access to access, but for SHA-256.
--     Acme/System/Sound and Acme/System/Placed say what holds between accesses, the other modules of
--     Acme/System carry it through every step, and Acme/Run is a run of a concrete server.
--   Revocation: internal/revocation/revocation.go and its statements.
--   Cert/Verify: internal/mtccert/verify.go, on a parsed certificate.
--   Prelude and Bytes: shared tests, lists, powers of two, digits of a byte, results of calls,
--     encoding/binary.
--
-- Conventions. SHA-256 is a parameter `sha256`, any function on byte strings; soundness is stated up to
-- a collision of it. Signing and verifying with a key are fields of a cosigner. A call returns a
-- `Result`: a value, an error, a panic, or `stuck` where a recursion on fuel has run out. The fuel of
-- the tree's recursions is 64 calls, which is enough for every size up to 2 ^ 63, and the theorems
-- prove it by giving the value returned. An `int64` position is a natural number where the code has
-- tested that it is not negative, a ℤ where it has not or where it can wrap (`BitCeil`), and a 64-bit
-- pattern in Cert/Verify. The loops of the log and of a batch double or halve a table's size without
-- wrap-around: only a table of more than 2 ^ 62 rows would have it wrap.
--
-- Outside of the ACME server stand encoding/json and encoding/base64, the verification of a signature,
-- the name service and web servers, parsing of certificate requests, and the code that builds and signs
-- certificates and log entries (internal/localca, `BuildLogEntryFromCSR`) or asks another CA. A JSON
-- column of a table holds the value that was written.
--
-- Not modelled: database failures (a statement fails only by its table's contents), logging, HTTP and
-- HTML, the text of JSON answers, ASN.1 through encoding/asn1, keys and their files; of the ACME
-- server, the rows of assertion bundles, which the issuer of assertions writes, and a certificate that
-- is read from the log. Where several rows have one serial number, `FindEntryBySerial` takes the first.
pub mod Prelude
pub mod Bytes
pub mod Merkle
pub mod Format
pub mod Log
pub mod Cert
pub mod Batch
pub mod Acme
pub mod Revocation
pub mod Tlog
