-- ===== src/Acme/Handlers/Finalize.antt =====
-- internal/acme/finalize.go: an order is finalized, its certificate made over the log, and handed out.
use ca_extension_mtc_playgro.Prelude.{
  ℕ, List, [], ◌∷◌, ◌++◌, map, Bool, true, false, not, ◌&&◌, ◌||◌, Option, none, some, length, ◌==◌,
  if◌then◌else◌,
}
use ca_extension_mtc_playgro.Prelude.Int.{pos}
use ca_extension_mtc_playgro.Prelude.Result.{ok, err, panic, stuck}
use ca_extension_mtc_playgro.Bytes.{Bytes, bytes_eq}
use ca_extension_mtc_playgro.Merkle.Nodes.{inclusion_proof_from_nodes}
use ca_extension_mtc_playgro.Log.{build_precert_entry, append_direct_entry}
use ca_extension_mtc_playgro.Log.Tables.{LogEntry}
use ca_extension_mtc_playgro.Log.Root.{node_at}
use ca_extension_mtc_playgro.Log.Checkpoint.{Checkpoint, build_mtc_entry, create_checkpoint}
use ca_extension_mtc_playgro.Acme.Tables.{
  Status, ready, processing, valid, invalid, status_eq, Identifier, Account, Order,
}
use ca_extension_mtc_playgro.Acme.Statements.{
  Column, csr, certificate_url, cert_serial, error_type, error_detail, get_order,
  update_order_status, set_order_final_cert_der, get_order_final_cert_der,
}
use ca_extension_mtc_playgro.Acme.Outside.{Config, Outside, Csr}
use ca_extension_mtc_playgro.Acme.Thread.{
  Kind, mtc, embedded, Shared, Stepped, ends, answers, goes_on, with_db, acme_error, unauthorized,
  malformed, order_not_found, order_not_ready, bad_csr, certificate_shown, logged_certificate,
  list_urls, begin_final, process_finalize, append, checkpoint, prove, store_cert, proxied, poll,
  finish, load_certificate,
}
use ca_extension_mtc_playgro.Acme.Handlers.Register.{cert_url}

-- `csrNames[name]`, of the map that `handleFinalize` makes.
unfoldable pub has_name : Outside → List Bytes → Bytes → Bool
has_name o [] name = false
has_name o (n ∷ rest) name = bytes_eq (o.to_lower n) name || has_name o rest name

unfoldable pub csr_names : Csr → List Bytes
csr_names request =
    if length request.common_name == 0
    then request.dns_names
    else request.common_name ∷ request.dns_names

-- Its loop over the order's identifiers.
unfoldable pub covers : Outside → Csr → List Identifier → Bool
covers o request [] = true
covers o request (i ∷ rest) =
    has_name o (csr_names request) (o.to_lower i.value) && covers o request rest

-- `handleFinalize`, from the order's status on.
unfoldable pub check_csr : Outside → Order → Bytes → Shared → Stepped
check_csr o order payload s = elim (o.finalize_request payload) [
  | none ↦ answers s (acme_error 400 malformed)
  | some text ↦ elim (o.codec.base64_url text) [
    | none ↦ answers s (acme_error 400 bad_csr)
    | some der ↦ elim (o.parse_certificate_request der) [
      | none ↦ answers s (acme_error 400 bad_csr)
      | some request ↦
          if covers o request order.identifiers
          then goes_on s (begin_final order request (o.encode_to_memory der))
          else answers s (acme_error 400 bad_csr)
    ]
  ]
]

-- `handleFinalize` behind `verifyJWS`.
unfoldable pub finalize_request : Outside → Bytes → Bytes → Account → Shared → Stepped
finalize_request o id payload account s = elim (get_order id s.db) [
  | none ↦ answers s (acme_error 404 order_not_found)
  | some order ↦
      if not (bytes_eq order.account_id account.id)
      then answers s (acme_error 403 unauthorized)
      else if not (status_eq order.status ready)
      then answers s (acme_error 403 order_not_ready)
      else check_csr o order payload s
]

-- Its update, where the goroutine starts.
unfoldable pub start_processing : Order → Csr → Bytes → Shared → Stepped
start_processing order request pem s = record {
  shared = with_db s (update_order_status order.id processing ((csr, pem) ∷ []) s.db);
  threads =
      process_finalize order.id request pem order.identifiers
      ∷ list_urls (record order { status = processing })
      ∷ [];
  reply = none;
}

-- "serverInternal" and "MTC-"
abbrev pub server_internal_text : Bytes
server_internal_text =
    115 ∷ 101 ∷ 114 ∷ 118 ∷ 101 ∷ 114 ∷ 73 ∷ 110 ∷ 116 ∷ 101 ∷ 114 ∷ 110 ∷ 97 ∷ 108 ∷ []

abbrev pub mtc_prefix : Bytes
mtc_prefix = 77 ∷ 84 ∷ 67 ∷ 45 ∷ []

-- The update that ends each failed attempt.
abbrev pub fails : Outside → Bytes → Shared → Stepped
fails o id s =
    goes_on s
      (finish id invalid ((error_type, server_internal_text) ∷ (error_detail, o.error_text) ∷ []))

-- `dnsNames`
abbrev pub names_of : List Identifier → List Bytes
names_of identifiers = map (λ i. i.value) identifiers

-- `processFinalizeMTC`, up to its append.
unfoldable pub start_mtc : Config → Outside → Bytes → Csr → List Identifier → Shared → Stepped
start_mtc cfg o id request identifiers s =
    elim (o.build_log_entry_from_csr cfg.mtc_bridge_url (o.clock 0) request
      (names_of identifiers)) [
        | none ↦ fails o id s
        | some der ↦ elim (build_mtc_entry o.sha256 o.contents_octets der (mtc_prefix ++ id)) [
          | ok entry ↦ goes_on s (append id request identifiers mtc entry)
          | err e ↦ fails o id s
          | panic ↦ ends s
          | stuck ↦ ends s
        ]
      ]

-- `processFinalizeLocalCA`, up to its append.
unfoldable pub start_embedded : Outside → Bytes → Csr → List Identifier → Shared → Stepped
start_embedded o id request identifiers s = elim (o.issue_precert request (names_of identifiers)) [
  | none ↦ fails o id s
  | some precert ↦ goes_on s (
      append id request identifiers (embedded precert)
        (build_precert_entry o.sha256 precert.canonical_tbs precert.serial_hex))
]

-- `processFinalize`
unfoldable pub choose_issuer :
    Config → Outside → Bytes → Csr → Bytes → List Identifier → Shared → Stepped
choose_issuer cfg o id request pem identifiers s =
    if cfg.local_ca
    then (if cfg.mtc_mode
        then start_mtc cfg o id request identifiers s
        else start_embedded o id request identifiers s)
    else (elim (o.proxy_to_ca request pem identifiers) [
      | none ↦ fails o id s
      | some serial ↦ goes_on s (proxied id identifiers serial)
    ])

-- The serial number goes to the order, and `waitForAssertion` begins.
unfoldable pub finish_proxied : Bytes → List Identifier → Bytes → Shared → Stepped
finish_proxied id identifiers serial s =
    goes_on (with_db s (update_order_status id processing ((cert_serial, serial) ∷ []) s.db))
      (poll id identifiers serial)

-- The append of `processFinalizeMTC` and of `processFinalizeLocalCA`. This call, their checkpoint and
-- their proof run several statements each; here no other call of the log comes between these, and the
-- steps `overlaps` and `collides` of Acme/System are for the rest.
unfoldable pub append_to_log :
    Outside → Bytes → Csr → List Identifier → Kind → LogEntry → Shared → Stepped
append_to_log o id request identifiers kind entry s =
    elim (append_direct_entry o.sha256 entry s.log) [
      | ok out ↦
          goes_on (record s { log = out.1 }) (checkpoint id request identifiers kind entry out.0)
      | err e ↦ fails o id s
      | panic ↦ ends s
      | stuck ↦ ends s
    ]

-- Their checkpoint.
unfoldable pub make_checkpoint :
    Outside → Bytes → Csr → List Identifier → Kind → LogEntry → ℕ → Shared → Stepped
make_checkpoint o id request identifiers kind entry index s =
    elim (create_checkpoint o.sha256 o.sign_checkpoint (o.clock 0) s.log) [
      | ok cp ↦
          goes_on (record s { checkpoints = s.checkpoints ++ (cp ∷ []) })
            (prove id request identifiers kind entry index cp)
      | err e ↦ fails o id s
      | panic ↦ ends s
      | stuck ↦ ends s
    ]

-- The certificate that goes with a proof.
unfoldable pub signed_certificate :
    Config → Outside → Csr → List Identifier → Kind → ℕ → Checkpoint → List Bytes → Option Bytes
signed_certificate cfg o request identifiers mtc index cp proof =
    o.issue_mtc_cert request (names_of identifiers) index
      (record { start = 0; end = cp.tree_size; inclusion_proof = proof; signatures = [] })
      cfg.mtc_bridge_url
signed_certificate cfg o request identifiers (embedded precert) index cp proof =
    o.issue_with_proof request precert (record {
      log_origin = cfg.mtc_bridge_url;
      leaf_index = index;
      tree_size = cp.tree_size;
      root_hash = cp.root_hash;
      proof_hashes = proof;
      checkpoint = cp.body;
    })

unfoldable pub serial_of : Bytes → Kind → Bytes
serial_of id mtc = mtc_prefix ++ id
serial_of id (embedded precert) = precert.serial_hex

-- Their proof and their certificate.
unfoldable pub certify :
    Config → Outside → Bytes → Csr → List Identifier → Kind → ℕ → Checkpoint → Shared → Stepped
certify cfg o id request identifiers kind index cp s =
    elim (inclusion_proof_from_nodes o.sha256 (node_at s.log.nodes) (pos index)
      (pos cp.tree_size)) [
        | err e ↦ fails o id s
        | panic ↦ ends s
        | stuck ↦ ends s
        | ok proof ↦ elim (signed_certificate cfg o request identifiers kind index cp proof) [
          | none ↦ fails o id s
          | some der ↦ goes_on s (store_cert id identifiers (serial_of id kind) der)
        ]
      ]

-- Their last two updates.
unfoldable pub keep_certificate : Config → Outside → Bytes → Bytes → Bytes → Shared → Stepped
keep_certificate cfg o id serial der s =
    goes_on (with_db s (set_order_final_cert_der id der o.ca_cert_der s.db))
      (finish id valid ((certificate_url, cert_url cfg id) ∷ (cert_serial, serial) ∷ []))

unfoldable pub finish_order : Bytes → Status → List (Column × Bytes) → Shared → Stepped
finish_order id status columns s = ends (with_db s (update_order_status id status columns s.db))

-- `handleCertificate` behind `verifyJWS`.
unfoldable pub certificate_request : Bytes → Account → Shared → Stepped
certificate_request id account s = elim (get_order id s.db) [
  | none ↦ answers s (acme_error 404 order_not_found)
  | some order ↦
      if not (bytes_eq order.account_id account.id)
      then answers s (acme_error 403 unauthorized)
      else if not (status_eq order.status valid)
      then answers s (acme_error 403 order_not_ready)
      else if length order.cert_serial == 0
      then answers s (acme_error 404 order_not_found)
      else goes_on s (load_certificate order)
]

-- From the order's certificate on; where the order has none, the log's is handed out.
unfoldable pub hand_out : Order → Shared → Stepped
hand_out order s = elim (get_order_final_cert_der order.id s.db) [
  | none ↦ answers s (logged_certificate order)
  | some ders ↦
      if length ders.0 == 0
      then answers s (logged_certificate order)
      else answers s (certificate_shown ders.0 ders.1)
]
