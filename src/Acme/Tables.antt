-- ===== src/Acme/Tables.antt =====
-- internal/store/store.go: the rows of the ACME tables. Text is a byte string. A JSON column holds
-- here the value that encoding/json writes to it and reads from it. The times that the database sets
-- by itself are left out.
use ca_extension_mtc_playgro.Prelude.{
  ℕ, zero, suc, ◌≡◌, refl, sym, ap, ◌∙◌, List, Bool, true, Option, ◌==◌, ==_iff,
}
use ca_extension_mtc_playgro.Bytes.{Bytes}

-- The texts that a status column holds.
pub data Status : Type 0 where
  pending ready processing valid invalid : Status

unfoldable pub status_number : Status → ℕ
status_number pending = 0
status_number ready = 1
status_number processing = 2
status_number valid = 3
status_number invalid = 4

-- `==` on two statuses
unfoldable pub status_eq : Status → Status → Bool
status_eq a b = status_number a == status_number b

status_of : ℕ → Status
status_of zero = pending
status_of (suc zero) = ready
status_of (suc (suc zero)) = processing
status_of (suc (suc (suc zero))) = valid
status_of _ = invalid

status_of-status_number : (a : Status) → status_of (status_number a) ≡ a
unfolding status_of status_number
status_of-status_number pending = refl
status_of-status_number ready = refl
status_of-status_number processing = refl
status_of-status_number valid = refl
status_of-status_number invalid = refl

pub status_eq→eq : (a b : Status) → status_eq a b ≡ true → a ≡ b
unfolding status_eq
status_eq→eq a b h =
    sym (status_of-status_number a)
    ∙ ap status_of ((==_iff (status_number a) (status_number b)).0 h)
    ∙ status_of-status_number b

-- An element of the `identifiers` of an order.
pub record Identifier : Type 0 where
  pub type : Bytes
  pub value : Bytes

-- `ACMEAccount`
pub record Account : Type 0 where
  pub id : Bytes
  pub status : Status
  pub key_thumbprint : Bytes
  pub jwk : Bytes
  pub contact : List Bytes

-- `ACMEOrder`, with the two certificates that the table keeps beside it.
pub record Order : Type 0 where
  pub id : Bytes
  pub account_id : Bytes
  pub status : Status
  pub identifiers : List Identifier
  pub expires : ℕ
  pub csr : Bytes
  pub certificate_url : Bytes
  pub cert_serial : Bytes
  pub assertion_url : Bytes
  pub error_type : Bytes
  pub error_detail : Bytes
  pub final_cert_der : Bytes
  pub ca_cert_der : Bytes

-- `ACMEAuthorization`
pub record Authorization : Type 0 where
  pub id : Bytes
  pub order_id : Bytes
  pub identifier : Identifier
  pub status : Status
  pub expires : ℕ
  pub wildcard : Bool

-- `ACMEChallenge`
pub record Challenge : Type 0 where
  pub id : Bytes
  pub authz_id : Bytes
  pub type : Bytes
  pub status : Status
  pub token : Bytes
  pub validated : Option ℕ
  pub error_type : Bytes
  pub error_detail : Bytes

-- The ACME tables.
pub record Db : Type 0 where
  pub accounts : List Account
  pub orders : List Order
  pub authzs : List Authorization
  pub challenges : List Challenge
