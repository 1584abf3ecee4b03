-- ===== src/Acme/Jws.antt =====
-- internal/acme/jws.go: a signed request is taken apart and checked. Decoding by encoding/json and
-- encoding/base64, and the verification of a signature under a key, are parameters.
pub mod Checked
use ca_extension_mtc_playgro.Prelude.{
  ℕ, ◌^◌, ◌%◌, List, [], ◌∷◌, ◌++◌, Bool, true, false, not, Option, none, some, length, take, drop,
  ◌==◌, if◌then◌else◌,
}
use ca_extension_mtc_playgro.Prelude.Result.{Result, ok, err, panic, stuck, ◌>>=◌, ◌>>◌, reject}
use ca_extension_mtc_playgro.Bytes.{Bytes, bytes_eq, un_be}
use ca_extension_mtc_playgro.Acme.Tables.{Account, Db}
use ca_extension_mtc_playgro.Acme.Statements.{get_account}
use ca_extension_mtc_playgro.Acme.Nonce.{Nonces, consume_nonce}

-- `jws`
pub record Jws : Type 0 where
  pub protected : Bytes
  pub payload : Bytes
  pub signature : Bytes

-- `jwsHeader`
pub record JwsHeader : Type 0 where
  pub alg : Bytes
  pub nonce : Bytes
  pub url : Bytes
  pub kid : Bytes
  pub jwk : Bytes

pub data Curve : Type 0 where
  p_256 p_384 : Curve

-- `crypto.PublicKey`, of the two types that a JWK is parsed to.
pub data PublicKey : Type 0 where
  ec : Curve → ℕ → ℕ → PublicKey
  rsa : ℕ → ℕ → PublicKey

pub data JwsError : Type 0 where
  bad_body bad_protected bad_header bad_nonce url_mismatch bad_payload bad_signature : JwsError
  no_kid no_account no_jwk bad_jwk unsupported_alg wrong_key bad_length not_verified : JwsError

-- A decoder's answer as a result.
unfoldable pub decoded : {A : Type 0} → JwsError → Option A → Result JwsError A
decoded e none = err e
decoded e (some a) = ok a

-- `acctID[strings.LastIndex(acctID, "/")+1:]`, or the whole where there is no slash.
unfoldable pub has_slash : Bytes → Bool
has_slash [] = false
has_slash (x ∷ xs) = let rest = has_slash xs in if x == 47 then true else rest

unfoldable pub after_last_slash : Bytes → Bytes
after_last_slash [] = []
after_last_slash (x ∷ xs) =
    let rest = after_last_slash xs in
    if has_slash xs then rest else (if x == 47 then xs else x ∷ xs)

-- "EC", "RSA", "P-256", "P-384", "ES256" and "RS256"
abbrev pub ec_text : Bytes
ec_text = 69 ∷ 67 ∷ []

abbrev pub rsa_text : Bytes
rsa_text = 82 ∷ 83 ∷ 65 ∷ []

abbrev pub p_256_text : Bytes
p_256_text = 80 ∷ 45 ∷ 50 ∷ 53 ∷ 54 ∷ []

abbrev pub p_384_text : Bytes
p_384_text = 80 ∷ 45 ∷ 51 ∷ 56 ∷ 52 ∷ []

abbrev pub es_256_text : Bytes
es_256_text = 69 ∷ 83 ∷ 50 ∷ 53 ∷ 54 ∷ []

abbrev pub rs_256_text : Bytes
rs_256_text = 82 ∷ 83 ∷ 50 ∷ 53 ∷ 54 ∷ []

-- What encoding/json reads of a body, a header and a JWK, encoding/base64 of its URL alphabet, and the
-- two verifications of the crypto packages. `none` is an error.
pub record Codec : Type 0 where
  pub unmarshal_jws : Bytes → Option Jws
  pub unmarshal_header : Bytes → Option JwsHeader
  pub base64_url : Bytes → Option Bytes
  pub kty : Bytes → Option Bytes
  pub ec_key : Bytes → Option (Bytes × Bytes × Bytes)
  pub rsa_key : Bytes → Option (Bytes × Bytes)
  pub ecdsa_verify : Curve → ℕ → ℕ → Bytes → ℕ → ℕ → Bool
  pub rsa_verify : ℕ → ℕ → Bytes → Bytes → Bool

-- `j.Protected + "." + j.Payload`
unfoldable pub signing_input : Jws → Bytes
signing_input j = j.protected ++ (46 ∷ j.payload)

module _ (sha256 : Bytes → Bytes) (codec : Codec) where
  -- `parseECJWK`
  unfoldable pub parse_ec_jwk : Bytes → Result JwsError PublicKey
  parse_ec_jwk raw = do
    (crv, x, y) ← decoded JwsError.bad_jwk (codec.ec_key raw)
    curve ←
        (if bytes_eq crv p_256_text
          then ok Curve.p_256
          else if bytes_eq crv p_384_text
          then ok Curve.p_384
          else err JwsError.bad_jwk)
    x ← decoded JwsError.bad_jwk (codec.base64_url x)
    y ← decoded JwsError.bad_jwk (codec.base64_url y)
    ok (ec curve (un_be 0 x) (un_be 0 y))

  -- `parseRSAJWK`; the exponent is cut to an `int64`.
  unfoldable pub parse_rsa_jwk : Bytes → Result JwsError PublicKey
  parse_rsa_jwk raw = do
    (n, e) ← decoded JwsError.bad_jwk (codec.rsa_key raw)
    n ← decoded JwsError.bad_jwk (codec.base64_url n)
    e ← decoded JwsError.bad_jwk (codec.base64_url e)
    ok (rsa (un_be 0 n) (un_be 0 e % 2 ^ 64))

  -- `parseJWK`
  unfoldable pub parse_jwk : Bytes → Result JwsError PublicKey
  parse_jwk raw = do
    kty ← decoded JwsError.bad_jwk (codec.kty raw)
    if bytes_eq kty ec_text
        then parse_ec_jwk raw
        else if bytes_eq kty rsa_text
        then parse_rsa_jwk raw
        else err JwsError.bad_jwk

  -- `verifySignature`
  unfoldable pub verify_signature : PublicKey → Bytes → Bytes → Bytes → Result JwsError (Unit {0})
  verify_signature (ec curve x y) alg input sig =
      if bytes_eq alg es_256_text
      then (do
        reject (not (length sig == 64)) JwsError.bad_length
        reject
            (not (
              codec.ecdsa_verify curve x y (sha256 input) (un_be 0 (take 32 sig))
                (un_be 0 (drop 32 sig))))
            JwsError.not_verified)
      else (if bytes_eq alg rs_256_text
          then err JwsError.wrong_key
          else err JwsError.unsupported_alg)
  verify_signature (rsa n e) alg input sig =
      if bytes_eq alg es_256_text
      then err JwsError.wrong_key
      else (if bytes_eq alg rs_256_text
          then reject (not (codec.rsa_verify n e (sha256 input) sig)) JwsError.not_verified
          else err JwsError.unsupported_alg)

  -- The start of `verifyJWS`: the body, of which 2^20 bytes are read, and the header.
  unfoldable pub parse_jws : Bytes → Result JwsError (Jws × JwsHeader)
  parse_jws body = do
    j ← decoded JwsError.bad_body (codec.unmarshal_jws (take (2 ^ 20) body))
    header_bytes ← decoded JwsError.bad_protected (codec.base64_url j.protected)
    header ← decoded JwsError.bad_header (codec.unmarshal_header header_bytes)
    ok (j, header)

  -- The account that the header names, and its key.
  unfoldable pub key_of_account : JwsHeader → Db → Result JwsError (PublicKey × Option Account)
  key_of_account header db = do
    reject (length header.kid == 0) JwsError.no_kid
    account ← decoded JwsError.no_account (get_account (after_last_slash header.kid) db)
    key ← parse_jwk account.jwk
    ok (key, some account)

  -- The key that the header brings.
  unfoldable pub key_of_header : JwsHeader → Result JwsError (PublicKey × Option Account)
  key_of_header header = do
    reject (length header.jwk == 0) JwsError.no_jwk
    key ← parse_jwk header.jwk
    ok (key, none)

  -- `verifyJWS` behind the nonce.
  unfoldable pub check_jws :
      Bytes → Bool → Db → Jws → JwsHeader → Result JwsError (JwsHeader × Bytes × Option Account)
  check_jws expected_url require_kid db j header = do
    reject (not (bytes_eq header.url expected_url)) JwsError.url_mismatch
    payload ←
        (if length j.payload == 0
          then ok []
          else decoded JwsError.bad_payload (codec.base64_url j.payload))
    sig ← decoded JwsError.bad_signature (codec.base64_url j.signature)
    (key, account) ← (if require_kid then key_of_account header db else key_of_header header)
    verify_signature key header.alg (signing_input j) sig
    ok (header, payload, account)

  -- `verifyJWS`: the nonce is used up even where a later check fails.
  unfoldable pub verify_jws :
      ℕ
      → Bytes
      → Bytes
      → Bool
      → Nonces
      → Db
      → Result JwsError (JwsHeader × Bytes × Option Account) × Nonces
  verify_jws now expected_url body require_kid nonces db = elim (parse_jws body) [
    | err e ↦ (err e, nonces)
    | panic ↦ (panic, nonces)
    | stuck ↦ (stuck, nonces)
    | ok p ↦
        let consumed = consume_nonce p.1.nonce now nonces in
        (
          if consumed.0 then check_jws expected_url require_kid db p.0 p.1 else err bad_nonce,
          consumed.1,
        )
  ]
