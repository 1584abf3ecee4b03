-- ===== src/Acme/Jws/Checked.antt =====
-- What a request has shown that `verifyJWS` accepts.
use mathlib.Core.Path.{subst}
use ca_extension_mtc_playgro.Prelude.{
  ℕ, ◌≡◌, refl, sym, ap, ◌∙◌, [], Bool, true, false, List, Bool-cases, inl, inr, Option, none, some,
  length, ◌==◌, if◌then◌else◌,
}
use ca_extension_mtc_playgro.Prelude.Result.{
  Result, ok, err, panic, stuck, ok_inj, ◌>>=◌, ◌>>◌, reject, >>=-eq-ok,
}
use ca_extension_mtc_playgro.Bytes.{Bytes, bytes_eq, bytes_eq→eq}
use ca_extension_mtc_playgro.Acme.Tables.{Account, Db}
use ca_extension_mtc_playgro.Acme.Statements.{get_account}
use ca_extension_mtc_playgro.Acme.Nonce.{Nonces, consume_nonce}
use ca_extension_mtc_playgro.Acme.Nonce.History.{
  Event, since, makes_again, since-none, consume_nonce_gone, consume_nonce-none,
}
use ca_extension_mtc_playgro.Acme.Jws.{
  Jws, JwsHeader, PublicKey, JwsError, Codec, decoded, after_last_slash, signing_input, parse_jwk,
  verify_signature, parse_jws, key_of_account, check_jws, verify_jws,
}

-- The request's signature, decoded, is one by an account's key, found by the header's key id, over the
-- request's own signing input, for this address.
pub record Signed (sha256 : Bytes → Bytes) (codec : Codec) (url : Bytes) (db : Db) (j : Jws)
    (header : JwsHeader) (account : Account) : Type 0 where
  pub key : PublicKey
  pub sig : Bytes
  pub decoded_sig : codec.base64_url j.signature ≡ some sig
  pub addressed : header.url ≡ url
  pub registered : get_account (after_last_slash header.kid) db ≡ some account
  pub account_key : parse_jwk sha256 codec account.jwk ≡ ok key
  pub verified : verify_signature sha256 codec key header.alg (signing_input j) sig ≡ ok tt

decoded-eq-ok : {A : Type 0} (e : JwsError) (o : Option A) (a : A) → decoded e o ≡ ok a → o ≡ some a
unfolding decoded
decoded-eq-ok e none a h = cc
decoded-eq-ok e (some b) a h = ap some (ok_inj _ _ h)

module _ (sha256 : Bytes → Bytes) (codec : Codec) where
  -- `verifyJWS` from the account's key on.
  after_key :
      Jws
      → JwsHeader
      → Bytes
      → Bytes
      → PublicKey × Option Account
      → Result JwsError (JwsHeader × Bytes × Option Account)
  after_key j header payload sig k = do
    verify_signature sha256 codec k.0 header.alg (signing_input j) sig
    ok (header, payload, k.1)

  key_of_account_lem :
      (header : JwsHeader) (db : Db) (k : PublicKey × Option Account)
      → key_of_account sha256 codec header db ≡ ok k
      → (account : Account) × (k.1 ≡ some account)
        × (get_account (after_last_slash header.kid) db ≡ some account)
        × (parse_jwk sha256 codec account.jwk ≡ ok k.0)
  unfolding key_of_account
  key_of_account_lem header db k h =
      let (_, _, h1) = >>=-eq-ok (reject (length header.kid == 0) JwsError.no_kid) _ h in
      let (account, found, h2) =
        >>=-eq-ok (decoded JwsError.no_account (get_account (after_last_slash header.kid) db))
          (λ account. parse_jwk sha256 codec account.jwk >>= λ key. ok (key, some account)) h1 in
      let (key, parsed, made) =
        >>=-eq-ok (parse_jwk sha256 codec account.jwk) (λ key. ok (key, some account)) h2 in
      (
        account,
        ap (λ (p : PublicKey × Option Account). p.1) (sym (ok_inj _ _ made)),
        decoded-eq-ok JwsError.no_account (get_account (after_last_slash header.kid) db) account
            found,
        parsed ∙ ap (λ (p : PublicKey × Option Account). ok p.0) (ok_inj _ _ made),
      )

  check_jws_lem :
      (url : Bytes) (db : Db) (j : Jws) (header h : JwsHeader) (payload : Bytes)
      (who : Option Account)
      → check_jws sha256 codec url true db j header ≡ ok (h, payload, who)
      → (h ≡ header)
        × ((account : Account) × (who ≡ some account) × Signed sha256 codec url db j header account)
  unfolding check_jws after_key
  check_jws_lem url db j header h payload who e = elim (Bool-cases (bytes_eq header.url url)) [
    | inr elsewhere ↦ cc (rw (check_jws, elsewhere, ◌>>=◌) at e)
    | inl here ↦
        let (body, _, e1) =
          >>=-eq-ok
            (if length j.payload == 0
              then ok []
              else decoded JwsError.bad_payload (codec.base64_url j.payload))
            (λ body. decoded JwsError.bad_signature (codec.base64_url j.signature) >>= λ sig.
              key_of_account sha256 codec header db >>= after_key j header body sig)
            (rw (check_jws, here, ◌>>=◌) at e) in
        let (sig, signature, e2) =
          >>=-eq-ok (decoded JwsError.bad_signature (codec.base64_url j.signature))
            (λ sig. key_of_account sha256 codec header db >>= after_key j header body sig) e1 in
        let (k, keyed, e3) =
          >>=-eq-ok (key_of_account sha256 codec header db) (after_key j header body sig) e2 in
        let (_, verified, e4) =
          >>=-eq-ok (verify_signature sha256 codec k.0 header.alg (signing_input j) sig)
            (λ done. ok (header, body, k.1)) e3 in
        let same = ok_inj _ _ e4 in
        let (account, is, found, parsed) = key_of_account_lem header db k keyed in
        (
          ap (λ (p : JwsHeader × Bytes × Option Account). p.0) (sym same),
          (
            account,
            ap (λ (p : JwsHeader × Bytes × Option Account). p.2) (sym same) ∙ is,
            record {
              key = k.0;
              sig = sig;
              decoded_sig =
                  decoded-eq-ok JwsError.bad_signature (codec.base64_url j.signature) sig signature;
              addressed = bytes_eq→eq header.url url here;
              registered = found;
              account_key = parsed;
              verified = verified;
            },
          ),
        )
  ]

  -- When `verifyJWS` has read a request, accepted or not, the same body is rejected for its nonce from
  -- then on: at any time, for any address, whatever the tables hold by then, and however many nonces have
  -- been made, brought and cleaned up in between, as long as `newNonce` has not made the same text again.
  pub verify_jws_once :
      (now later : ℕ) (url url' body : Bytes) (kid kid' : Bool) (nonces : Nonces) (db db' : Db)
      (j : Jws) (header : JwsHeader) (between : List Event)
      → parse_jws sha256 codec body ≡ ok (j, header)
      → makes_again header.nonce between ≡ false
      → (verify_jws sha256 codec later url' body kid'
          (since between (verify_jws sha256 codec now url body kid nonces db).1)
          db').0
        ≡ err JwsError.bad_nonce
  unfolding verify_jws
  verify_jws_once now later url url' body kid kid' nonces db db' j header between parsed unmade =
      let gone =
        since-none header.nonce between (consume_nonce header.nonce now nonces).1
          (consume_nonce_gone header.nonce now nonces) unmade in
      rw (verify_jws, parsed, verify_jws, parsed, consume_nonce-none header.nonce later _ gone) refl

  -- Where `verifyJWS` accepts a request that has to name its account, the header's nonce was still to be
  -- used and is used up, and the header has the expected address and names an account of the table whose
  -- key verifies the request's own decoded signature over its protected header and payload.
  pub verify_jws-Signed :
      (now : ℕ) (url body : Bytes) (nonces : Nonces) (db : Db) (header : JwsHeader)
      (payload : Bytes) (who : Option Account)
      → (verify_jws sha256 codec now url body true nonces db).0 ≡ ok (header, payload, who)
      → ((consume_nonce header.nonce now nonces).0 ≡ true)
        × ((verify_jws sha256 codec now url body true nonces db).1
            ≡ (consume_nonce header.nonce now nonces).1)
        × ((j : Jws) × (account : Account) × (parse_jws sha256 codec body ≡ ok (j, header))
            × (who ≡ some account)
            × Signed sha256 codec url db j header account)
  unfolding verify_jws
  verify_jws-Signed now url body nonces db header payload who accepted =
      go (parse_jws sha256 codec body) refl
    where
      go :
          (parsed : Result JwsError (Jws × JwsHeader))
          → parse_jws sha256 codec body ≡ parsed
          → ((consume_nonce header.nonce now nonces).0 ≡ true)
            × ((verify_jws sha256 codec now url body true nonces db).1
                ≡ (consume_nonce header.nonce now nonces).1)
            × ((j : Jws) × (account : Account) × (parse_jws sha256 codec body ≡ ok (j, header))
                × (who ≡ some account)
                × Signed sha256 codec url db j header account)
      go (err x) e = cc (rw (verify_jws, e) at accepted)
      go panic e = cc (rw (verify_jws, e) at accepted)
      go stuck e = cc (rw (verify_jws, e) at accepted)
      go (ok p) e = elim (Bool-cases (consume_nonce p.1.nonce now nonces).0) [
        | inr used ↦ cc (rw (verify_jws, e, used) at accepted)
        | inl fresh ↦
            let (same, rest) =
              check_jws_lem url db p.0 p.1 header payload who
                (rw (verify_jws, e, fresh) at accepted) in
            let (account, is, signed) = rest in
            (
              subst (λ h. (consume_nonce h.nonce now nonces).0 ≡ true) (sym same) fresh,
              rw (verify_jws, e, same) refl,
              (
                p.0,
                account,
                e ∙ ap (λ h. ok (p.0, h)) (sym same),
                is,
                subst (λ h. Signed sha256 codec url db p.0 h account) (sym same) signed,
              ),
            )
      ]
