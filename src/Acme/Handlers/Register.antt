-- ===== src/Acme/Handlers/Register.antt =====
-- internal/acme/handlers.go: accounts and orders are made and shown.
use ca_extension_mtc_playgro.Prelude.{
  ℕ, ◌+◌, List, [], ◌∷◌, ◌++◌, map, Bool, true, false, not, ◌&&◌, none, some, length, ◌==◌,
  if◌then◌else◌,
}
use ca_extension_mtc_playgro.Prelude.Result.{ok, err, panic, stuck}
use ca_extension_mtc_playgro.Bytes.{Bytes, bytes_eq}
use ca_extension_mtc_playgro.Acme.Tables.{
  Identifier, Account, Order, Authorization, Challenge, pending, valid,
}
use ca_extension_mtc_playgro.Acme.Statements.{
  get_account_by_thumbprint, create_account, create_order, get_order, get_authz,
  list_authzs_by_order, list_challenges_by_authz,
}
use ca_extension_mtc_playgro.Acme.Jws.{JwsHeader}
use ca_extension_mtc_playgro.Acme.Outside.{Config, Outside, AccountRequest, new_id, jwk_thumbprint}
use ca_extension_mtc_playgro.Acme.Thread.{
  Shared, Stepped, ends, answers, goes_on, with_db, malformed, account_does_not_exist,
  server_internal, unsupported_identifier, order_not_found, authorization_not_found, acme_error,
  account_known, account_created, order_created, order_shown, authz_shown, find_account,
  add_account, add_order, list_urls, list_challenges,
}

-- `orderURL`, `authzURL`, `certURL`: behind the external address `/acme/authz/` and `/acme/certificate/`.
abbrev pub authz_path : Bytes
authz_path = 47 ∷ 97 ∷ 99 ∷ 109 ∷ 101 ∷ 47 ∷ 97 ∷ 117 ∷ 116 ∷ 104 ∷ 122 ∷ 47 ∷ []

abbrev pub certificate_path : Bytes
certificate_path =
    47 ∷ 97 ∷ 99 ∷ 109 ∷ 101 ∷ 47 ∷ 99 ∷ 101 ∷ 114 ∷ 116 ∷ 105 ∷ 102 ∷ 105 ∷ 99 ∷ 97 ∷ 116 ∷ 101
    ∷ 47 ∷ []

unfoldable pub authz_url : Config → Bytes → Bytes
authz_url cfg id = cfg.external_url ++ (authz_path ++ id)

unfoldable pub cert_url : Config → Bytes → Bytes
cert_url cfg id = cfg.external_url ++ (certificate_path ++ id)

-- "dns", "*." and "http-01"
abbrev pub dns_text : Bytes
dns_text = 100 ∷ 110 ∷ 115 ∷ []

abbrev pub http_01_text : Bytes
http_01_text = 104 ∷ 116 ∷ 116 ∷ 112 ∷ 45 ∷ 48 ∷ 49 ∷ []

-- `strings.HasPrefix(ident.Value, "*.")`
unfoldable pub is_wildcard : Bytes → Bool
is_wildcard (a ∷ b ∷ rest) = a == 42 && b == 46
is_wildcard _ = false

-- `handleNewAccount` behind `verifyJWS`.
unfoldable pub new_account_request : Outside → JwsHeader → Bytes → Shared → Stepped
new_account_request o header payload s =
    elim (if length payload == 0
      then some (record { contact = []; only_return_existing = false })
      else o.account_request payload) [
        | none ↦ answers s (acme_error 400 malformed)
        | some request ↦ elim (jwk_thumbprint o header.jwk) [
          | ok thumbprint ↦ goes_on s (find_account header request thumbprint)
          | err e ↦ answers s (acme_error 400 malformed)
          | panic ↦ ends s
          | stuck ↦ ends s
        ]
      ]

-- From its look for the key's account on.
unfoldable pub look_for_account : Outside → JwsHeader → AccountRequest → Bytes → Shared → Stepped
look_for_account o header request thumbprint s = elim (get_account_by_thumbprint thumbprint s.db) [
  | some existing ↦ answers s (account_known existing)
  | none ↦
      if request.only_return_existing
      then answers s (acme_error 400 account_does_not_exist)
      else goes_on s (
          add_account (record {
            id = new_id o 0;
            status = valid;
            key_thumbprint = thumbprint;
            jwk = header.jwk;
            contact = request.contact;
          }))
]

-- Its insert.
unfoldable pub insert_account : Account → Shared → Stepped
insert_account account s = elim (create_account account s.db) [
  | ok db ↦ answers (with_db s db) (account_created account)
  | err e ↦ answers s (acme_error 500 server_internal)
  | panic ↦ ends s
  | stuck ↦ ends s
]

-- The first loop of `handleNewOrder`.
unfoldable pub all_dns : List Identifier → Bool
all_dns [] = true
all_dns (i ∷ rest) = bytes_eq i.type dns_text && all_dns rest

-- Its second loop, from the nth reading of the clock on: four ids for each identifier.
unfoldable pub make_authzs : Outside → Bytes → ℕ → ℕ → List Identifier → List Authorization
make_authzs o order_id expires n [] = []
make_authzs o order_id expires n (i ∷ rest) =
    record {
      id = new_id o n;
      order_id = order_id;
      identifier = i;
      status = pending;
      expires = expires;
      wildcard = is_wildcard i.value;
    }
    ∷ make_authzs o order_id expires (n + 4) rest

unfoldable pub make_challenges : Outside → ℕ → List Identifier → List Challenge
make_challenges o n [] = []
make_challenges o n (i ∷ rest) =
    record {
      id = new_id o (n + 1);
      authz_id = new_id o n;
      type = http_01_text;
      status = pending;
      token = new_id o (n + 2) ++ new_id o (n + 3);
      validated = none;
      error_type = [];
      error_detail = [];
    }
    ∷ make_challenges o (n + 4) rest

-- Its order.
unfoldable pub make_order : Config → Outside → Account → List Identifier → Order
make_order cfg o account identifiers = record {
  id = new_id o 0;
  account_id = account.id;
  status = pending;
  identifiers = identifiers;
  expires = o.clock 1 + cfg.order_expiry;
  csr = [];
  certificate_url = [];
  cert_serial = [];
  assertion_url = [];
  error_type = [];
  error_detail = [];
  final_cert_der = [];
  ca_cert_der = [];
}

-- `handleNewOrder` behind `verifyJWS`.
unfoldable pub new_order_request : Config → Outside → Account → Bytes → Shared → Stepped
new_order_request cfg o account payload s = elim (o.order_request payload) [
  | none ↦ answers s (acme_error 400 malformed)
  | some identifiers ↦
      if length identifiers == 0
      then answers s (acme_error 400 malformed)
      else if not (all_dns identifiers)
      then answers s (acme_error 400 unsupported_identifier)
      else (let order = make_order cfg o account identifiers in
          goes_on s (
            add_order order (make_authzs o order.id order.expires 2 identifiers)
              (make_challenges o 2 identifiers)))
]

-- The addresses that an answer lists.
unfoldable pub urls_of : Config → List Authorization → List Bytes
urls_of cfg authzs = map (λ a. authz_url cfg a.id) authzs

-- Its transaction.
unfoldable pub insert_whole_order :
    Config → Order → List Authorization → List Challenge → Shared → Stepped
insert_whole_order cfg order authzs challenges s =
    elim (create_order order authzs challenges s.db) [
      | ok db ↦ answers (with_db s db) (order_created order (urls_of cfg authzs))
      | err e ↦ answers s (acme_error 500 server_internal)
      | panic ↦ ends s
      | stuck ↦ ends s
    ]

-- `handleOrder` behind `verifyJWS`, and from `getAuthzURLs` on.
unfoldable pub show_order : Bytes → Shared → Stepped
show_order id s = elim (get_order id s.db) [
  | none ↦ answers s (acme_error 404 order_not_found)
  | some order ↦ goes_on s (list_urls order)
]

unfoldable pub show_urls : Config → Order → Shared → Stepped
show_urls cfg order s =
    answers s (order_shown order (urls_of cfg (list_authzs_by_order order.id s.db)))

-- `handleAuthorization` behind `verifyJWS`, and from its list of challenges on.
unfoldable pub show_authz : Bytes → Shared → Stepped
show_authz id s = elim (get_authz id s.db) [
  | none ↦ answers s (acme_error 404 authorization_not_found)
  | some authz ↦ goes_on s (list_challenges authz)
]

unfoldable pub show_challenges : Authorization → Shared → Stepped
show_challenges authz s = answers s (authz_shown authz (list_challenges_by_authz authz.id s.db))
