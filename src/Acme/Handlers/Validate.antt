-- ===== src/Acme/Handlers/Validate.antt =====
-- internal/acme/handlers.go: a challenge is answered, and its order made ready.
use ca_extension_mtc_playgro.Prelude.{
  ℕ, List, [], ◌∷◌, ◌++◌, Bool, true, false, not, ◌&&◌, ◌||◌, Option, none, some, take,
  if◌then◌else◌,
}
use ca_extension_mtc_playgro.Prelude.Result.{ok}
use ca_extension_mtc_playgro.Bytes.{Bytes, bytes_eq}
use ca_extension_mtc_playgro.Acme.Tables.{
  status_eq, Account, Authorization, Challenge, ready, processing, valid, invalid,
}
use ca_extension_mtc_playgro.Acme.Statements.{
  get_challenge, get_authz, list_authzs_by_order, update_authz_status, update_challenge_status,
  update_order_status,
}
use ca_extension_mtc_playgro.Acme.Outside.{Config, Outside, Ip, jwk_thumbprint}
use ca_extension_mtc_playgro.Acme.Thread.{
  Shared, Stepped, ends, answers, goes_on, with_db, challenge_not_found, acme_error,
  challenge_shown, validate, challenge_valid, challenge_invalid, find_authz, mark_authz,
  list_authzs, ready_order,
}

-- The addresses that `isAllowedHTTP01Target` refuses.
unfoldable pub disallowed : Ip → Bool
disallowed ip =
    ip.is_loopback
    || (ip.is_private
        || (ip.is_link_local_unicast || (ip.is_link_local_multicast || ip.is_unspecified)))

-- Its loop over the addresses; a text that is no address is passed over.
unfoldable pub all_allowed : Outside → List Bytes → Bool
all_allowed o [] = true
all_allowed o (addr ∷ rest) = elim (o.parse_ip addr) [
  | none ↦ all_allowed o rest
  | some ip ↦ not (disallowed ip) && all_allowed o rest
]

-- `isAllowedHTTP01Target`
unfoldable pub is_allowed_http_01_target : Outside → Bytes → Bool
is_allowed_http_01_target o host =
    elim (o.lookup_host (elim (o.split_host_port host) [ none ↦ host | some h ↦ h ])) [
      | none ↦ false
      | some addrs ↦ all_allowed o addrs
    ]

-- "http://" and "/.well-known/acme-challenge/"
abbrev pub http_text : Bytes
http_text = 104 ∷ 116 ∷ 116 ∷ 112 ∷ 58 ∷ 47 ∷ 47 ∷ []

abbrev pub well_known_text : Bytes
well_known_text =
    47 ∷ 46 ∷ 119 ∷ 101 ∷ 108 ∷ 108 ∷ 45 ∷ 107 ∷ 110 ∷ 111 ∷ 119 ∷ 110 ∷ 47 ∷ 97 ∷ 99 ∷ 109 ∷ 101
    ∷ 45 ∷ 99 ∷ 104 ∷ 97 ∷ 108 ∷ 108 ∷ 101 ∷ 110 ∷ 103 ∷ 101 ∷ 47 ∷ []

-- `performHTTP01` behind its look for the authorization: whether the web server of the name answers
-- with the key authorization.
unfoldable pub answers_http_01 : Outside → Authorization → Bytes → Bytes → Bool
answers_http_01 o authz token key_authz =
    is_allowed_http_01_target o authz.identifier.value
    && (elim (o.http_get (http_text ++ (authz.identifier.value ++ (well_known_text ++ token)))) [
      | none ↦ false
      | some body ↦ bytes_eq (o.trim_space (take 1024 body)) key_authz
    ])

-- `performHTTP01`
unfoldable pub perform_http_01 : Outside → Option Authorization → Bytes → Bytes → Bool
perform_http_01 o none token key_authz = false
perform_http_01 o (some authz) token key_authz = answers_http_01 o authz token key_authz

-- The key authorization that `validateChallenge` expects: the thumbprint is empty where it is an error.
unfoldable pub key_authorization : Outside → Bytes → Account → Bytes
key_authorization o token account =
    token ++ (46 ∷ elim (jwk_thumbprint o account.jwk) [ ok t ↦ t | _ ↦ [] ])

-- `handleChallenge` behind `verifyJWS`: the goroutine starts where the challenge is still open.
unfoldable pub challenge_request : Bytes → Account → Shared → Stepped
challenge_request id account s = elim (get_challenge id s.db) [
  | none ↦ answers s (acme_error 404 challenge_not_found)
  | some ch ↦
      if status_eq ch.status valid || status_eq ch.status invalid
      then answers s (challenge_shown ch)
      else record {
        shared = s;
        threads = validate ch account ∷ [];
        reply = some (challenge_shown (record ch { status = processing }));
      }
]

-- `validateChallenge`, up to the status that it comes to.
unfoldable pub validate_challenge : Config → Outside → Challenge → Account → Shared → Stepped
validate_challenge cfg o ch account s =
    if cfg.auto_approve_challenge
    then goes_on s (challenge_valid ch (o.clock 0))
    else if perform_http_01 o (get_authz ch.authz_id s.db) ch.token
        (key_authorization o ch.token account)
    then goes_on s (challenge_valid ch (o.clock 0))
    else goes_on s (challenge_invalid ch)

-- "unauthorized"
abbrev pub unauthorized_text : Bytes
unauthorized_text = 117 ∷ 110 ∷ 97 ∷ 117 ∷ 116 ∷ 104 ∷ 111 ∷ 114 ∷ 105 ∷ 122 ∷ 101 ∷ 100 ∷ []

unfoldable pub fail_challenge : Outside → Challenge → Shared → Stepped
fail_challenge o ch s =
    ends
      (with_db s (update_challenge_status ch.id invalid none unauthorized_text o.error_text s.db))

unfoldable pub pass_challenge : Challenge → ℕ → Shared → Stepped
pass_challenge ch now s =
    goes_on (with_db s (update_challenge_status ch.id valid (some now) [] [] s.db)) (find_authz ch)

-- The challenge's authorization is read, and marked.
unfoldable pub find_challenge_authz : Challenge → Shared → Stepped
find_challenge_authz ch s = elim (get_authz ch.authz_id s.db) [
  | none ↦ ends s
  | some authz ↦ goes_on s (mark_authz authz)
]

unfoldable pub mark_authz_valid : Authorization → Shared → Stepped
mark_authz_valid authz s =
    goes_on (with_db s (update_authz_status authz.id valid s.db)) (list_authzs authz)

-- The loop over the order's authorizations.
unfoldable pub all_valid : Bytes → List Authorization → Bool
all_valid id [] = true
all_valid id (a ∷ rest) = (bytes_eq a.id id || status_eq a.status valid) && all_valid id rest

unfoldable pub look_at_authzs : Authorization → Shared → Stepped
look_at_authzs authz s =
    if all_valid authz.id (list_authzs_by_order authz.order_id s.db)
    then goes_on s (ready_order authz.order_id)
    else ends s

unfoldable pub make_order_ready : Bytes → Shared → Stepped
make_order_ready order_id s = ends (with_db s (update_order_status order_id ready [] s.db))
