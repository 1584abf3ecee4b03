-- ===== src/Acme/Thread.antt =====
-- internal/acme: what the requests and the goroutines of the server share, and where each of them has
-- come to. A thread stands before its next access to the shared state; the statements that touch only
-- its own variables belong to the access before.
use ca_extension_mtc_playgro.Prelude.{ℕ, List, [], ◌∷◌, Option, none, some}
use ca_extension_mtc_playgro.Bytes.{Bytes}
use ca_extension_mtc_playgro.Log.Tables.{LogEntry, Store}
use ca_extension_mtc_playgro.Log.Checkpoint.{Checkpoint}
use ca_extension_mtc_playgro.Acme.Tables.{
  Status, Identifier, Account, Order, Authorization, Challenge, Db,
}
use ca_extension_mtc_playgro.Acme.Statements.{Column}
use ca_extension_mtc_playgro.Acme.Nonce.{Nonces}
use ca_extension_mtc_playgro.Acme.Jws.{JwsHeader}
use ca_extension_mtc_playgro.Acme.Outside.{AccountRequest, Csr, Precert}

-- The types of the problems that `acmeError` writes.
pub data Problem : Type 0 where
  unauthorized malformed account_does_not_exist server_internal unsupported_identifier : Problem
  order_not_found authorization_not_found challenge_not_found order_not_ready bad_csr : Problem

-- The answers, with the rows that they show and the HTTP status of a problem.
pub data Reply : Type 0 where
  acme_error : ℕ → Problem → Reply
  account_known : Account → Reply
  account_created : Account → Reply
  order_created : Order → List Bytes → Reply
  order_shown : Order → List Bytes → Reply
  authz_shown : Authorization → List Challenge → Reply
  challenge_shown : Challenge → Reply
  certificate_shown : Bytes → Bytes → Reply
  logged_certificate : Order → Reply

-- The routes of a signed request, with the id in the path.
pub data Route : Type 0 where
  new_account new_order : Route
  order authz challenge finalize certificate : Bytes → Route

pub record Request : Type 0 where
  pub route : Route
  pub path : Bytes
  pub body : Bytes

-- What a local CA signs: a certificate over its proof, or a precertificate's final certificate.
pub data Kind : Type 0 where
  mtc : Kind
  embedded : Precert → Kind

-- Where a request or a goroutine has come to.
pub data Thread : Type 0 where
  received : Request → Thread
  find_account : JwsHeader → AccountRequest → Bytes → Thread
  add_account : Account → Thread
  add_order : Order → List Authorization → List Challenge → Thread
  read_order : Bytes → Thread
  list_urls : Order → Thread
  read_authz : Bytes → Thread
  list_challenges : Authorization → Thread
  read_challenge : Bytes → Account → Thread
  validate : Challenge → Account → Thread
  challenge_valid : Challenge → ℕ → Thread
  challenge_invalid : Challenge → Thread
  find_authz : Challenge → Thread
  mark_authz : Authorization → Thread
  list_authzs : Authorization → Thread
  ready_order : Bytes → Thread
  read_final : Bytes → Bytes → Account → Thread
  begin_final : Order → Csr → Bytes → Thread
  process_finalize : Bytes → Csr → Bytes → List Identifier → Thread
  append : Bytes → Csr → List Identifier → Kind → LogEntry → Thread
  checkpoint : Bytes → Csr → List Identifier → Kind → LogEntry → ℕ → Thread
  prove : Bytes → Csr → List Identifier → Kind → LogEntry → ℕ → Checkpoint → Thread
  store_cert : Bytes → List Identifier → Bytes → Bytes → Thread
  proxied : Bytes → List Identifier → Bytes → Thread
  poll : Bytes → List Identifier → Bytes → Thread
  read_bundle : Bytes → List Identifier → Bytes → ℕ → Thread
  finish : Bytes → Status → List (Column × Bytes) → Thread
  read_certificate : Bytes → Account → Thread
  load_certificate : Order → Thread

-- The state that the threads share.
pub record Shared : Type 0 where
  pub db : Db
  pub nonces : Nonces
  pub log : Store
  pub checkpoints : List Checkpoint

-- What a thread's access leaves: the state, the threads that go on from here, and an answer.
pub record Stepped : Type 0 where
  pub shared : Shared
  pub threads : List Thread
  pub reply : Option Reply

-- A thread that ends, that ends with an answer, and that goes on.
abbrev pub ends : Shared → Stepped
ends s = record { shared = s; threads = []; reply = none }

abbrev pub answers : Shared → Reply → Stepped
answers s r = record { shared = s; threads = []; reply = some r }

abbrev pub goes_on : Shared → Thread → Stepped
goes_on s t = record { shared = s; threads = t ∷ []; reply = none }

abbrev pub with_db : Shared → Db → Shared
with_db s db = record s { db = db }
