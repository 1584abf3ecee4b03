-- ===== src/Acme/Run.antt =====
-- A small run of the server: an account, an order, its challenge, and its certificate. The functions
-- from outside are as plain as they can be: text is its own encoding, and a hash its own input.
pub mod Outcome
use ca_extension_mtc_playgro.Bytes.{be}
use ca_extension_mtc_playgro.Prelude.{
  ℕ, ◌+◌, ◌≡◌, refl, List, [], ◌∷◌, true, false, none, some, length,
}
use ca_extension_mtc_playgro.Prelude.Result.{ok}
use ca_extension_mtc_playgro.Bytes.{Bytes}
use ca_extension_mtc_playgro.Log.Tables.{Store, LogEntry}
use ca_extension_mtc_playgro.Log.Root.{first_log}
use ca_extension_mtc_playgro.Acme.Tables.{
  Status, ready, pending, valid, Identifier, Account, Order, Challenge,
}
use ca_extension_mtc_playgro.Acme.Jws.{Jws, JwsHeader, Codec, rs_256_text, rsa_text}
use ca_extension_mtc_playgro.Acme.Outside.{Config, Outside, Csr}
use ca_extension_mtc_playgro.Acme.Thread.{
  Route, Request, received, new_account, new_order, challenge, finalize,
}
use ca_extension_mtc_playgro.Acme.Nonce.{new_nonce}
use ca_extension_mtc_playgro.Acme.System.{Server, serve, Reach, start, then, is_serial, is_alone}
use ca_extension_mtc_playgro.Acme.System.Authorised.{new_server}
use ca_extension_mtc_playgro.Acme.System.Drain.{drain, drain-Reach, drain-is_serial}
use ca_extension_mtc_playgro.Bytes.{bytes_eq, un_be, le}
use ca_extension_mtc_playgro.Acme.Rows.{find, select, update, exists}
use ca_extension_mtc_playgro.Acme.Tables.{status_number, status_eq}
use ca_extension_mtc_playgro.Acme.Statements.{
  create_account, get_account, get_account_by_thumbprint, insert_order, insert_authzs,
  insert_challenges, create_order, get_order, set_column, set_columns, update_order_status,
  set_order_final_cert_der, get_authz, list_authzs_by_order, update_authz_status, get_challenge,
  update_challenge_status,
}
use ca_extension_mtc_playgro.Acme.Nonce.{delete, consume_nonce}
use ca_extension_mtc_playgro.Acme.Jws.{
  decoded, has_slash, after_last_slash, signing_input, parse_rsa_jwk, parse_jwk, verify_signature,
  parse_jws, key_of_account, key_of_header, check_jws, verify_jws,
}
use ca_extension_mtc_playgro.Acme.Outside.{new_id, canonical_jwk, jwk_thumbprint}
use ca_extension_mtc_playgro.Acme.Handlers.Register.{
  authz_url, cert_url, is_wildcard, new_account_request, look_for_account, insert_account, all_dns,
  make_authzs, make_challenges, make_order, new_order_request, urls_of, insert_whole_order,
  show_urls,
}
use ca_extension_mtc_playgro.Acme.Handlers.Validate.{
  disallowed, all_allowed, is_allowed_http_01_target, answers_http_01, perform_http_01,
  key_authorization, challenge_request, validate_challenge, pass_challenge, find_challenge_authz,
  mark_authz_valid, all_valid, look_at_authzs, make_order_ready,
}
use ca_extension_mtc_playgro.Acme.Handlers.Finalize.{
  has_name, csr_names, covers, check_csr, finalize_request, start_processing, start_mtc,
  choose_issuer, append_to_log, make_checkpoint, serial_of, keep_certificate, finish_order,
}
use ca_extension_mtc_playgro.Acme.System.{requires_kid, handle, receive, resume}
use ca_extension_mtc_playgro.Log.{
  at_index, max_level, require, double_below, level_nodes, recompute_levels, recompute_interior,
  append_direct_entry, compute_root_hash,
}
use ca_extension_mtc_playgro.Log.Tables.{
  tree_size, has_index, append_entry, get_tree_node, set_tree_node, set_tree_nodes,
}
use ca_extension_mtc_playgro.Log.Checkpoint.{build_mtc_entry, create_checkpoint}
use ca_extension_mtc_playgro.Format.Entry.{marshal_entry}
use ca_extension_mtc_playgro.Merkle.Hash.{split_point, leaf_hash, interior_hash}
use ca_extension_mtc_playgro.Acme.Tables.{processing}
use ca_extension_mtc_playgro.Acme.Thread.{prove, mtc, list_urls}
use ca_extension_mtc_playgro.Log.Checkpoint.{Checkpoint}
use ca_extension_mtc_playgro.Merkle.Nodes.{inclusion_proof_from_nodes}
use ca_extension_mtc_playgro.Acme.System.Sound.{has_been_ready}
use ca_extension_mtc_playgro.Acme.System.Authorised.{certifies}
use ca_extension_mtc_playgro.Prelude.{◌++◌}
use ca_extension_mtc_playgro.Acme.Outside.{e_open, n_open, jwk_close}
use ca_extension_mtc_playgro.Acme.Handlers.Register.{http_01_text}
use ca_extension_mtc_playgro.Acme.Thread.{challenge_valid, begin_final}
use ca_extension_mtc_playgro.Prelude.{map}
use ca_extension_mtc_playgro.Acme.Handlers.Finalize.{certify, signed_certificate}
use ca_extension_mtc_playgro.Merkle.Nodes.{inclusion_from_nodes_rec, subtree_hash_from_nodes}
use ca_extension_mtc_playgro.Prelude.Pow.{bit_len}

abbrev pub itself : Bytes → Bytes
itself b = b

abbrev pub codec : Codec
codec = record {
  unmarshal_jws = λ b. some (record { protected = b; payload = b; signature = b });
  unmarshal_header =
      λ b. some (record { alg = rs_256_text; nonce = b; url = b; kid = 100 ∷ []; jwk = 1 ∷ [] });
  base64_url = λ b. some b;
  kty = λ b. some rsa_text;
  ec_key = λ b. none;
  rsa_key = λ b. some (b, b);
  ecdsa_verify = λ c x y digest r s. false;
  rsa_verify = λ n e digest sig. true;
}

abbrev pub name : Identifier
name = record { type = 100 ∷ 110 ∷ 115 ∷ []; value = 120 ∷ [] }

abbrev pub csr : Csr
csr = record { common_name = []; dns_names = (120 ∷ []) ∷ []; raw = [] }

-- What a step finds from a time on.
abbrev pub at : ℕ → Outside
at time = record {
  clock = λ n. time + n;
  sha256 = itself;
  codec = codec;
  encode_base64_url = itself;
  decimal = λ n. n ∷ [];
  to_lower = itself;
  trim_space = itself;
  account_request = λ b. some (record { contact = []; only_return_existing = false });
  order_request = λ b. some (name ∷ []);
  finalize_request = λ b. some b;
  parse_certificate_request = λ b. some csr;
  encode_to_memory = itself;
  split_host_port = λ b. none;
  lookup_host = λ b. some ((1 ∷ []) ∷ []);
  parse_ip = λ b. none;
  http_get = λ b. some (7 ∷ []);
  error_text = [];
  contents_octets = λ b. some b;
  build_log_entry_from_csr = λ origin now request names. some (48 ∷ []);
  sign_checkpoint = λ size top now. some ([], []);
  issue_mtc_cert = λ request names index proof origin. some (50 ∷ []);
  issue_precert = λ request names. none;
  issue_with_proof = λ request precert ext. none;
  ca_cert_der = [];
  proxy_to_ca = λ request pem names. none;
  deadline_passed = true;
  get_assertion_bundle = λ index. none;
}

abbrev pub cfg : Config
cfg = record {
  external_url = [];
  mtc_bridge_url = [];
  order_expiry = 86400;
  auto_approve_challenge = true;
  local_ca = true;
  mtc_mode = true;
}

-- A request whose address, body and nonce are one number.
abbrev pub request : Route → ℕ → Request
request route n = record { route = route; path = n ∷ []; body = n ∷ [] }

-- A request is served, and its threads run, for a number of accesses.
abbrev pub asked : Route → ℕ → ℕ → ℕ → Server → Server
asked route n time accesses w =
    drain cfg (λ k. at time) accesses
      (record {
        shared = record w.shared { nonces = new_nonce (n ∷ []) time w.shared.nonces };
        threads = received (request route n) ∷ w.threads;
      })

abbrev pub log : Store
log = first_log itself (λ l i. none)

abbrev pub empty : Server
empty = new_server log []

abbrev pub registered : Server
registered = asked new_account 1 100 3 empty

abbrev pub ordered : Server
ordered = asked new_order 2 200 2 registered

abbrev pub proved : Server
proved = asked (challenge (203 ∷ [])) 3 300 8 ordered

abbrev pub finalized : Server
finalized = asked (finalize (200 ∷ [])) 4 400 6 proved

asked-Reach :
    (route : Route) (n time accesses : ℕ) (w : Server)
    → Reach itself cfg empty w
    → Reach itself cfg empty (asked route n time accesses w)
asked-Reach route n time accesses w reached =
    drain-Reach itself cfg (λ k. at time) (λ k. refl) empty accesses
      (record w.shared { nonces = new_nonce (n ∷ []) time w.shared.nonces })
      (received (request route n) ∷ w.threads)
      (then reached (serve w.shared w.threads (request route n) (n ∷ []) time))

pub proved-Reach : Reach itself cfg empty proved
proved-Reach =
    asked-Reach (challenge (203 ∷ [])) 3 300 8 ordered (
      asked-Reach new_order 2 200 2 registered
        (asked-Reach new_account 1 100 3 empty (start empty)))

pub finalized-Reach : Reach itself cfg empty finalized
finalized-Reach = asked-Reach (finalize (200 ∷ [])) 4 400 6 proved proved-Reach

asked-is_serial :
    (route : Route) (n time accesses : ℕ) (w : Server) (reached : Reach itself cfg empty w)
    → is_serial reached ≡ true
    → is_serial (asked-Reach route n time accesses w reached) ≡ true
unfolding asked-Reach is_serial is_alone
asked-is_serial route n time accesses w reached serial =
    drain-is_serial itself cfg (λ k. at time) (λ k. refl) empty accesses
      (record w.shared { nonces = new_nonce (n ∷ []) time w.shared.nonces })
      (received (request route n) ∷ w.threads)
      (then reached (serve w.shared w.threads (request route n) (n ∷ []) time))
      (rw (is_serial, serial, is_alone) refl)

pub finalized-is_serial : is_serial finalized-Reach ≡ true
unfolding finalized-Reach proved-Reach is_serial
finalized-is_serial = asked-is_serial (finalize (200 ∷ [])) 4 400 6 proved _ (
    asked-is_serial (challenge (203 ∷ [])) 3 300 8 ordered _ (
      asked-is_serial new_order 2 200 2 registered _
        (asked-is_serial new_account 1 100 3 empty _ refl)))

abbrev pub ready_order_row : Order
ready_order_row = record {
  id = 200 ∷ [];
  account_id = 100 ∷ [];
  status = ready;
  identifiers = name ∷ [];
  expires = 86601;
  csr = [];
  certificate_url = [];
  cert_serial = [];
  assertion_url = [];
  error_type = [];
  error_detail = [];
  final_cert_der = [];
  ca_cert_der = [];
}

abbrev pub logged : LogEntry
logged = record {
  index = 0;
  entry_type = 3;
  entry_data = 0 ∷ 1 ∷ 0 ∷ 0 ∷ 1 ∷ 48 ∷ [];
  cert_sha256 = 48 ∷ [];
  serial_hex = 77 ∷ 84 ∷ 67 ∷ 45 ∷ 200 ∷ [];
  ca_cert_id = 108 ∷ 111 ∷ 99 ∷ 97 ∷ 108 ∷ 45 ∷ 99 ∷ 97 ∷ [];
}

abbrev pub saved : Checkpoint
saved = record {
  tree_size = 2;
  root_hash = 1 ∷ 0 ∷ 0 ∷ 0 ∷ 0 ∷ 0 ∷ 1 ∷ 0 ∷ 0 ∷ 1 ∷ 48 ∷ [];
  timestamp = 400;
  signature = [];
  body = [];
}

abbrev pub header_of : ℕ → JwsHeader
header_of n = record {
  alg = rs_256_text;
  nonce = n ∷ [];
  url = n ∷ [];
  kid = 100 ∷ [];
  jwk = 1 ∷ [];
}

abbrev pub jws_row : Jws
jws_row = record { protected = 1 ∷ []; payload = 1 ∷ []; signature = 1 ∷ [] }

abbrev pub account_row : Account
account_row = record {
  id = 100 ∷ [];
  status = valid;
  key_thumbprint = e_open ++ (1 ∷ n_open ++ (1 ∷ jwk_close));
  jwk = 1 ∷ [];
  contact = [];
}

abbrev pub challenge_row : Challenge
challenge_row = record {
  id = 203 ∷ [];
  authz_id = 202 ∷ [];
  type = http_01_text;
  status = pending;
  token = 204 ∷ 205 ∷ [];
  validated = none;
  error_type = [];
  error_detail = [];
}

-- The same server, but that it asks the web server of the name, which knows the answer.
abbrev pub asking : Config
asking = record cfg { auto_approve_challenge = false }

abbrev pub answering : Outside
answering = record (at 300) { http_get = λ b. some (204 ∷ 205 ∷ 46 ∷ account_row.key_thumbprint) }

abbrev pub statuses : Server → List Status
statuses w = map (λ o. o.status) w.shared.db.orders

-- A challenge that two requests answer while it is open: the second goroutine comes to its end when the
-- order's certificate is there.
abbrev pub answered_twice : Server
answered_twice = asked (challenge (203 ∷ [])) 5 310 8 (asked (challenge (203 ∷ [])) 3 300 3 ordered)

abbrev pub issued : Server
issued = asked (finalize (200 ∷ [])) 4 400 10 answered_twice

abbrev pub ready_again : Server
ready_again =
    drain cfg (λ k. at 500) 8 (record { shared = issued.shared; threads = issued.threads })
