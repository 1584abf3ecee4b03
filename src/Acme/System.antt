-- ===== src/Acme/System.antt =====
-- internal/acme: the server as a whole. Requests come in and goroutines go on, one access at a time, in
-- any order, each with whatever it then finds outside.
pub mod Sound
pub mod Updates
pub mod Created
pub mod Keeps
pub mod Good
pub mod Authorised
pub mod Drain
pub mod Placed
pub mod Quiet
pub mod Kept
pub mod Logged
use ca_extension_mtc_playgro.Prelude.{
  ◌≡◌, ℕ, List, ◌∷◌, ◌++◌, Bool, true, false, ◌&&◌, Option, none, some,
}
use ca_extension_mtc_playgro.Prelude.Result.{ok, err, panic, stuck}
use ca_extension_mtc_playgro.Bytes.{Bytes}
use ca_extension_mtc_playgro.Log.Tables.{LogEntry, Store}
use ca_extension_mtc_playgro.Acme.Tables.{Account, Identifier}
use ca_extension_mtc_playgro.Acme.Jws.{JwsHeader, verify_jws}
use ca_extension_mtc_playgro.Acme.Nonce.{new_nonce, cleanup_nonces}
use ca_extension_mtc_playgro.Acme.Outside.{Config, Outside, Csr}
use ca_extension_mtc_playgro.Acme.Thread.{
  Thread, Kind, Route, Request, Shared, Stepped, ends, answers, goes_on, acme_error, unauthorized,
  new_account, new_order, order, authz, challenge, finalize, certificate, received, find_account,
  add_account, add_order, read_order, list_urls, read_authz, list_challenges, read_challenge,
  validate, challenge_valid, challenge_invalid, find_authz, mark_authz, list_authzs, ready_order,
  read_final, begin_final, process_finalize, append, checkpoint, prove, store_cert, proxied, poll,
  read_bundle, finish, read_certificate, load_certificate,
}
use ca_extension_mtc_playgro.Acme.Handlers.Register.{
  new_account_request, look_for_account, insert_account, new_order_request, insert_whole_order,
  show_order, show_urls, show_authz, show_challenges,
}
use ca_extension_mtc_playgro.Acme.Handlers.Validate.{
  challenge_request, validate_challenge, fail_challenge, pass_challenge, find_challenge_authz,
  mark_authz_valid, look_at_authzs, make_order_ready,
}
use ca_extension_mtc_playgro.Acme.Handlers.Finalize.{
  finalize_request, start_processing, choose_issuer, finish_proxied, append_to_log, make_checkpoint,
  certify, keep_certificate, finish_order, certificate_request, hand_out, fails,
}
use ca_extension_mtc_playgro.Acme.Handlers.Poll.{poll_assertion, look_at_bundle}

-- `requireKID`, as each handler passes it.
unfoldable pub requires_kid : Route → Bool
requires_kid new_account = false
requires_kid _ = true

-- What each handler does next with a request that `verifyJWS` has accepted; the handlers that come to
-- need the account are those that require a key id, and have one.
unfoldable pub handle :
    Config → Outside → Route → JwsHeader → Bytes → Option Account → Shared → Stepped
handle cfg o new_account header payload account s = new_account_request o header payload s
handle cfg o new_order header payload (some a) s = new_order_request cfg o a payload s
handle cfg o (order id) header payload (some a) s = goes_on s (read_order id)
handle cfg o (authz id) header payload (some a) s = goes_on s (read_authz id)
handle cfg o (challenge id) header payload (some a) s = goes_on s (read_challenge id a)
handle cfg o (finalize id) header payload (some a) s = goes_on s (read_final id payload a)
handle cfg o (certificate id) header payload (some a) s = goes_on s (read_certificate id a)
handle cfg o _ header payload none s = ends s

-- The handlers' start, `verifyJWS`.
unfoldable pub receive : Config → Outside → Request → Shared → Stepped
receive cfg o r s =
    let checked =
      verify_jws o.sha256 o.codec (o.clock 0) (cfg.external_url ++ r.path) r.body
        (requires_kid r.route) s.nonces s.db in
    let s' : Shared = record s { nonces = checked.1 } in
    elim checked.0 [
      | ok accepted ↦ handle cfg o r.route accepted.0 accepted.1 accepted.2 s'
      | err e ↦ answers s' (acme_error 401 unauthorized)
      | panic ↦ ends s'
      | stuck ↦ ends s'
    ]

-- One access of a thread to the shared state.
unfoldable pub resume : Config → Outside → Thread → Shared → Stepped
resume cfg o (received r) s = receive cfg o r s
resume cfg o (find_account header request thumbprint) s =
    look_for_account o header request thumbprint s
resume cfg o (add_account a) s = insert_account a s
resume cfg o (add_order x authzs challenges) s = insert_whole_order cfg x authzs challenges s
resume cfg o (read_order id) s = show_order id s
resume cfg o (list_urls x) s = show_urls cfg x s
resume cfg o (read_authz id) s = show_authz id s
resume cfg o (list_challenges a) s = show_challenges a s
resume cfg o (read_challenge id account) s = challenge_request id account s
resume cfg o (validate ch account) s = validate_challenge cfg o ch account s
resume cfg o (challenge_valid ch now) s = pass_challenge ch now s
resume cfg o (challenge_invalid ch) s = fail_challenge o ch s
resume cfg o (find_authz ch) s = find_challenge_authz ch s
resume cfg o (mark_authz a) s = mark_authz_valid a s
resume cfg o (list_authzs a) s = look_at_authzs a s
resume cfg o (ready_order id) s = make_order_ready id s
resume cfg o (read_final id payload account) s = finalize_request o id payload account s
resume cfg o (begin_final x csr pem) s = start_processing x csr pem s
resume cfg o (process_finalize id csr pem identifiers) s =
    choose_issuer cfg o id csr pem identifiers s
resume cfg o (append id csr identifiers kind entry) s =
    append_to_log o id csr identifiers kind entry s
resume cfg o (checkpoint id csr identifiers kind entry index) s =
    make_checkpoint o id csr identifiers kind entry index s
resume cfg o (prove id csr identifiers kind entry index cp) s =
    certify cfg o id csr identifiers kind index cp s
resume cfg o (store_cert id identifiers serial der) s = keep_certificate cfg o id serial der s
resume cfg o (proxied id identifiers serial) s = finish_proxied id identifiers serial s
resume cfg o (poll id identifiers serial) s = poll_assertion cfg o id identifiers serial s
resume cfg o (read_bundle id identifiers serial index) s =
    look_at_bundle cfg o id identifiers serial index s
resume cfg o (finish id status columns) s = finish_order id status columns s
resume cfg o (read_certificate id account) s = certificate_request id account s
resume cfg o (load_certificate x) s = hand_out x s

-- The server: the shared state, and every request and goroutine that has not ended.
pub record Server : Type 0 where
  pub shared : Shared
  pub threads : List Thread

-- The calls of the log: each of them runs several statements on the log's tables, and nothing keeps
-- another's statements from coming between them.
unfoldable pub calls_log : Thread → Bool
calls_log (append id csr identifiers kind entry) = true
calls_log (checkpoint id csr identifiers kind entry index) = true
calls_log (prove id csr identifiers kind entry index cp) = true
calls_log _ = false

-- `ServeHTTP` takes a request in and hands out a nonce; any thread makes its next access; a goroutine
-- clears the nonces. SHA-256 is the same function in every access. A call of the log that no other
-- comes between is one access. One that overlaps with others may have seen any rows of the log's tables,
-- whose rows may be any when it ends, or its insert meets another's row; it does not touch the tables of
-- accounts, orders, authorizations and challenges.
pub data Step (sha256 : Bytes → Bytes) (cfg : Config) : Server → Server → Type 0 where
  serve :
      (s : Shared) (ts : List Thread) (r : Request) (nonce : Bytes) (now : ℕ)
      → Step sha256 cfg
          (record { shared = s; threads = ts })
          (record {
            shared = record s { nonces = new_nonce nonce now s.nonces };
            threads = received r ∷ ts;
          })
  goes :
      (o : Outside) (same : o.sha256 ≡ sha256) (s : Shared) (before : List Thread) (t : Thread)
      (after : List Thread)
      → Step sha256 cfg
          (record { shared = s; threads = before ++ (t ∷ after) })
          (record {
            shared = (resume cfg o t s).shared;
            threads = before ++ ((resume cfg o t s).threads ++ after);
          })
  overlaps :
      (o : Outside) (same : o.sha256 ≡ sha256) (s : Shared) (before : List Thread) (t : Thread)
      (after : List Thread) (seen left : Store)
      → calls_log t ≡ true
      → Step sha256 cfg
          (record { shared = s; threads = before ++ (t ∷ after) })
          (record {
            shared = record (resume cfg o t (record s { log = seen })).shared { log = left };
            threads = before ++ ((resume cfg o t (record s { log = seen })).threads ++ after);
          })
  collides :
      (o : Outside) (s : Shared) (before after : List Thread) (id : Bytes) (csr : Csr)
      (identifiers : List Identifier) (kind : Kind) (entry : LogEntry)
      → Step sha256 cfg
          (record {
            shared = s;
            threads = before ++ (append id csr identifiers kind entry ∷ after);
          })
          (record { shared = s; threads = before ++ ((fails o id s).threads ++ after) })
  clean :
      (s : Shared) (ts : List Thread) (now : ℕ)
      → Step sha256 cfg
          (record { shared = s; threads = ts })
          (record { shared = record s { nonces = cleanup_nonces now s.nonces }; threads = ts })

-- The servers that steps lead to.
pub data Reach (sha256 : Bytes → Bytes) (cfg : Config) : Server → Server → Type 0 where
  start : (w : Server) → Reach sha256 cfg w w
  then : {a b c : Server} → Reach sha256 cfg a b → Step sha256 cfg b c → Reach sha256 cfg a c

-- A step in which no two calls of the log overlap, and servers that only such steps lead to.
unfoldable pub is_alone :
    {sha256 : Bytes → Bytes} {cfg : Config} {a b : Server} → Step sha256 cfg a b → Bool
is_alone (overlaps o same s before t after seen left calls) = false
is_alone (collides o s before after id csr identifiers kind entry) = false
is_alone _ = true

unfoldable pub is_serial :
    {sha256 : Bytes → Bytes} {cfg : Config} {a b : Server} → Reach sha256 cfg a b → Bool
is_serial (start w) = true
is_serial (then before step) = is_serial before && is_alone step
