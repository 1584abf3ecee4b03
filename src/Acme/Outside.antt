-- ===== src/Acme/Outside.antt =====
-- internal/acme: the configuration, and what a step of the server takes from outside of this model: the
-- clock, encoders, parsers, the name service, the web servers that it asks, and the building and signing
-- of certificates. `newID` and `jwkThumbprint`.
use ca_extension_mtc_playgro.Prelude.{ℕ, List, [], ◌∷◌, ◌++◌, Bool, Option, take, if◌then◌else◌}
use ca_extension_mtc_playgro.Prelude.Result.{Result, ok, err, ◌>>=◌}
use ca_extension_mtc_playgro.Bytes.{Bytes, bytes_eq}
use ca_extension_mtc_playgro.Format.Proof.{MtcProof}
use ca_extension_mtc_playgro.Acme.Tables.{Identifier}
use ca_extension_mtc_playgro.Acme.Jws.{JwsError, Codec, decoded, ec_text, rsa_text}

-- `Config`, of which the handlers of this model read these fields, and whether there is a local CA.
pub record Config : Type 0 where
  pub external_url : Bytes
  pub mtc_bridge_url : Bytes
  pub order_expiry : ℕ
  pub auto_approve_challenge : Bool
  pub local_ca : Bool
  pub mtc_mode : Bool

-- The body of a new-account request.
pub record AccountRequest : Type 0 where
  pub contact : List Bytes
  pub only_return_existing : Bool

-- `x509.CertificateRequest`, of which the names are read here; the rest is in `raw`.
pub record Csr : Type 0 where
  pub common_name : Bytes
  pub dns_names : List Bytes
  pub raw : Bytes

-- What package net says of an address.
pub record Ip : Type 0 where
  pub is_loopback : Bool
  pub is_private : Bool
  pub is_link_local_unicast : Bool
  pub is_link_local_multicast : Bool
  pub is_unspecified : Bool

-- `localca.Precert`, with its serial number in upper-case hexadecimal, and `localca.InclusionProofExt`.
pub record Precert : Type 0 where
  pub canonical_tbs : Bytes
  pub serial_hex : Bytes

pub record InclusionProofExt : Type 0 where
  pub log_origin : Bytes
  pub leaf_index : ℕ
  pub tree_size : ℕ
  pub root_hash : Bytes
  pub proof_hashes : List Bytes
  pub checkpoint : Bytes

-- What a step finds outside, and what it takes from the repository's code that builds and signs
-- certificates or that asks another CA. `none` is an error. `clock` is the time of the step's nth reading.
-- `get_assertion_bundle` is whether the row is stale that the assertion issuer has written for an entry.
pub record Outside : Type 0 where
  pub clock : ℕ → ℕ
  pub sha256 : Bytes → Bytes
  pub codec : Codec
  pub encode_base64_url : Bytes → Bytes
  pub decimal : ℕ → Bytes
  pub to_lower : Bytes → Bytes
  pub trim_space : Bytes → Bytes
  pub account_request : Bytes → Option AccountRequest
  pub order_request : Bytes → Option (List Identifier)
  pub finalize_request : Bytes → Option Bytes
  pub parse_certificate_request : Bytes → Option Csr
  pub encode_to_memory : Bytes → Bytes
  pub split_host_port : Bytes → Option Bytes
  pub lookup_host : Bytes → Option (List Bytes)
  pub parse_ip : Bytes → Option Ip
  pub http_get : Bytes → Option Bytes
  pub error_text : Bytes
  pub contents_octets : Bytes → Option Bytes
  pub build_log_entry_from_csr : Bytes → ℕ → Csr → List Bytes → Option Bytes
  pub sign_checkpoint : ℕ → Bytes → ℕ → Option (Bytes × Bytes)
  pub issue_mtc_cert : Csr → List Bytes → ℕ → MtcProof → Bytes → Option Bytes
  pub issue_precert : Csr → List Bytes → Option Precert
  pub issue_with_proof : Csr → Precert → InclusionProofExt → Option Bytes
  pub ca_cert_der : Bytes
  pub proxy_to_ca : Csr → Bytes → List Identifier → Option Bytes
  pub deadline_passed : Bool
  pub get_assertion_bundle : ℕ → Option Bool

-- `newID`, at the step's nth reading of the clock.
unfoldable pub new_id : Outside → ℕ → Bytes
new_id o n = o.encode_base64_url (take 12 (o.sha256 (o.decimal (o.clock n))))

-- The texts around the members of a canonical JWK: `{"crv":"`, `","kty":"EC","x":"`, `","y":"`, `"}`,
-- `{"e":"` and `","kty":"RSA","n":"`.
abbrev pub crv_open : Bytes
crv_open = 123 ∷ 34 ∷ 99 ∷ 114 ∷ 118 ∷ 34 ∷ 58 ∷ 34 ∷ []

abbrev pub x_open : Bytes
x_open =
    34 ∷ 44 ∷ 34 ∷ 107 ∷ 116 ∷ 121 ∷ 34 ∷ 58 ∷ 34 ∷ 69 ∷ 67 ∷ 34 ∷ 44 ∷ 34 ∷ 120 ∷ 34 ∷ 58 ∷ 34 ∷ []

abbrev pub y_open : Bytes
y_open = 34 ∷ 44 ∷ 34 ∷ 121 ∷ 34 ∷ 58 ∷ 34 ∷ []

abbrev pub jwk_close : Bytes
jwk_close = 34 ∷ 125 ∷ []

abbrev pub e_open : Bytes
e_open = 123 ∷ 34 ∷ 101 ∷ 34 ∷ 58 ∷ 34 ∷ []

abbrev pub n_open : Bytes
n_open =
    34 ∷ 44 ∷ 34 ∷ 107 ∷ 116 ∷ 121 ∷ 34 ∷ 58 ∷ 34 ∷ 82 ∷ 83 ∷ 65 ∷ 34 ∷ 44 ∷ 34 ∷ 110 ∷ 34 ∷ 58 ∷ 34
    ∷ []

-- The canonical text of `jwkThumbprint`.
unfoldable pub canonical_jwk : Codec → Bytes → Result JwsError Bytes
canonical_jwk codec raw = do
  kty ← decoded JwsError.bad_jwk (codec.kty raw)
  if bytes_eq kty ec_text
      then (do
        (crv, x, y) ← decoded JwsError.bad_jwk (codec.ec_key raw)
        ok (crv_open ++ (crv ++ (x_open ++ (x ++ (y_open ++ (y ++ jwk_close)))))))
      else (if bytes_eq kty rsa_text
          then (do
            (n, e) ← decoded JwsError.bad_jwk (codec.rsa_key raw)
            ok (e_open ++ (e ++ (n_open ++ (n ++ jwk_close)))))
          else err JwsError.bad_jwk)

-- `jwkThumbprint`
unfoldable pub jwk_thumbprint : Outside → Bytes → Result JwsError Bytes
jwk_thumbprint o raw = do
  canonical ← canonical_jwk o.codec raw
  ok (o.encode_base64_url (o.sha256 canonical))
