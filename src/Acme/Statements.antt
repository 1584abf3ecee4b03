-- ===== src/Acme/Statements.antt =====
-- internal/store/store.go: the statements that the ACME server runs. Each of them is one transaction.
-- The database is taken to be up: a statement fails only where its tables' contents make it fail.
use ca_extension_mtc_playgro.Prelude.{ℕ, List, [], ◌∷◌, ◌++◌, Bool, ◌||◌, not, Option, none, some}
use ca_extension_mtc_playgro.Prelude.Result.{Result, ok, ◌>>=◌, ◌>>◌, reject}
use ca_extension_mtc_playgro.Bytes.{Bytes, bytes_eq}
use ca_extension_mtc_playgro.Acme.Rows.{find, select, update, exists}
use ca_extension_mtc_playgro.Acme.Tables.{Status, Account, Order, Authorization, Challenge, Db}

-- A broken constraint of the tables: a key that is there, or a reference to a row that is not.
pub data DbError : Type 0 where
  duplicate_key no_reference : DbError

abbrev pub account_is : Bytes → Account → Bool
account_is id a = bytes_eq a.id id

abbrev pub order_is : Bytes → Order → Bool
order_is id o = bytes_eq o.id id

abbrev pub authz_is : Bytes → Authorization → Bool
authz_is id a = bytes_eq a.id id

abbrev pub challenge_is : Bytes → Challenge → Bool
challenge_is id c = bytes_eq c.id id

abbrev pub authz_of : Bytes → Authorization → Bool
authz_of order_id a = bytes_eq a.order_id order_id

-- `CreateACMEAccount`: the id and the thumbprint are unique.
unfoldable pub create_account : Account → Db → Result DbError Db
create_account a db = do
  reject
      (exists (account_is a.id) db.accounts
        || exists (λ b. bytes_eq b.key_thumbprint a.key_thumbprint) db.accounts)
      duplicate_key
  ok (record db { accounts = db.accounts ++ (a ∷ []) })

-- `GetACMEAccount`
unfoldable pub get_account : Bytes → Db → Option Account
get_account id db = find (account_is id) db.accounts

-- `GetACMEAccountByThumbprint`
unfoldable pub get_account_by_thumbprint : Bytes → Db → Option Account
get_account_by_thumbprint thumbprint db =
    find (λ a. bytes_eq a.key_thumbprint thumbprint) db.accounts

-- The first insert of `CreateACMEOrder`.
unfoldable pub insert_order : Order → Db → Result DbError Db
insert_order o db = do
  reject (exists (order_is o.id) db.orders) duplicate_key
  reject (not (exists (account_is o.account_id) db.accounts)) no_reference
  ok (record db { orders = db.orders ++ (o ∷ []) })

-- Its loop over the authorizations.
unfoldable pub insert_authzs : List Authorization → Db → Result DbError Db
insert_authzs [] db = ok db
insert_authzs (a ∷ rest) db = do
  reject (exists (authz_is a.id) db.authzs) duplicate_key
  reject (not (exists (order_is a.order_id) db.orders)) no_reference
  insert_authzs rest (record db { authzs = db.authzs ++ (a ∷ []) })

-- Its loop over the challenges.
unfoldable pub insert_challenges : List Challenge → Db → Result DbError Db
insert_challenges [] db = ok db
insert_challenges (c ∷ rest) db = do
  reject (exists (challenge_is c.id) db.challenges) duplicate_key
  reject (not (exists (authz_is c.authz_id) db.authzs)) no_reference
  insert_challenges rest (record db { challenges = db.challenges ++ (c ∷ []) })

-- `CreateACMEOrder`: an insert that fails undoes those before it.
unfoldable pub create_order : Order → List Authorization → List Challenge → Db → Result DbError Db
create_order o authzs challenges db = do
  db ← insert_order o db
  db ← insert_authzs authzs db
  insert_challenges challenges db

-- `GetACMEOrder`
unfoldable pub get_order : Bytes → Db → Option Order
get_order id db = find (order_is id) db.orders

-- The columns that `UpdateACMEOrderStatus` can set beside the status.
pub data Column : Type 0 where
  csr certificate_url cert_serial assertion_url error_type error_detail : Column

unfoldable pub set_column : Column → Bytes → Order → Order
set_column csr v o = record o { csr = v }
set_column certificate_url v o = record o { certificate_url = v }
set_column cert_serial v o = record o { cert_serial = v }
set_column assertion_url v o = record o { assertion_url = v }
set_column error_type v o = record o { error_type = v }
set_column error_detail v o = record o { error_detail = v }

unfoldable pub set_columns : List (Column × Bytes) → Order → Order
set_columns [] o = o
set_columns ((c, v) ∷ rest) o = set_columns rest (set_column c v o)

-- `UpdateACMEOrderStatus`
unfoldable pub update_order_status : Bytes → Status → List (Column × Bytes) → Db → Db
update_order_status id status updates db = record db {
  orders = update (order_is id) (λ o. set_columns updates (record o { status = status })) db.orders;
}

-- `SetOrderFinalCertDER`
unfoldable pub set_order_final_cert_der : Bytes → Bytes → Bytes → Db → Db
set_order_final_cert_der id final_der ca_der db = record db {
  orders =
      update (order_is id) (λ o. record o { final_cert_der = final_der; ca_cert_der = ca_der })
        db.orders;
}

-- `GetOrderFinalCertDER`
unfoldable pub get_order_final_cert_der : Bytes → Db → Option (Bytes × Bytes)
get_order_final_cert_der id db = elim (get_order id db) [
  | none ↦ none
  | some o ↦ some (o.final_cert_der, o.ca_cert_der)
]

-- `GetACMEAuthorization`
unfoldable pub get_authz : Bytes → Db → Option Authorization
get_authz id db = find (authz_is id) db.authzs

-- `ListACMEAuthorizationsByOrder`
unfoldable pub list_authzs_by_order : Bytes → Db → List Authorization
list_authzs_by_order order_id db = select (authz_of order_id) db.authzs

-- `UpdateACMEAuthorizationStatus`
unfoldable pub update_authz_status : Bytes → Status → Db → Db
update_authz_status id status db = record db {
  authzs = update (authz_is id) (λ a. record a { status = status }) db.authzs;
}

-- `GetACMEChallenge`
unfoldable pub get_challenge : Bytes → Db → Option Challenge
get_challenge id db = find (challenge_is id) db.challenges

-- `ListACMEChallengesByAuthz`
unfoldable pub list_challenges_by_authz : Bytes → Db → List Challenge
list_challenges_by_authz authz_id db = select (λ c. bytes_eq c.authz_id authz_id) db.challenges

-- `UpdateACMEChallengeStatus`
unfoldable pub update_challenge_status : Bytes → Status → Option ℕ → Bytes → Bytes → Db → Db
update_challenge_status id status validated type detail db = record db {
  challenges =
      update (challenge_is id)
        (λ c. record c {
          status = status;
          validated = validated;
          error_type = type;
          error_detail = detail;
        })
        db.challenges;
}
