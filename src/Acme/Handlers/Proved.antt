-- ===== src/Acme/Handlers/Proved.antt =====
-- What has to hold before a challenge becomes valid, and before an order is finalized.
use ca_extension_mtc_playgro.Prelude.{both}
use mathlib.Core.List.{Memᴰ}
use mathlib.Core.List.Memᴰ
use mathlib.Core.Path.{subst}
use ca_extension_mtc_playgro.Prelude.{
  ℕ, ◌≡◌, refl, sym, ap, ◌∙◌, List, [], ◌∷◌, ◌++◌, Bool, true, false, not, Bool-cases, none, some,
  Option-cases, inl, inr, take,
}
use ca_extension_mtc_playgro.Bytes.{Bytes, bytes_eq, bytes_eq→eq}
use ca_extension_mtc_playgro.Acme.Tables.{
  ready, status_eq, status_eq→eq, Identifier, Account, Order, Authorization, Challenge,
}
use ca_extension_mtc_playgro.Acme.Statements.{get_order, get_authz}
use ca_extension_mtc_playgro.Acme.Outside.{Config, Outside, Ip, Csr}
use ca_extension_mtc_playgro.Acme.Thread.{Thread, Shared, challenge_valid, begin_final}
use ca_extension_mtc_playgro.Acme.Handlers.Validate.{
  disallowed, all_allowed, is_allowed_http_01_target, http_text, well_known_text, answers_http_01,
  perform_http_01, key_authorization, validate_challenge,
}
use ca_extension_mtc_playgro.Acme.Handlers.Finalize.{
  has_name, csr_names, covers, check_csr, finalize_request,
}

-- No address that the name service gives is one that may not be asked.
all_allowed-Mem :
    (o : Outside) (addrs : List Bytes) (addr : Bytes) (ip : Ip)
    → all_allowed o addrs ≡ true
    → Memᴰ addr addrs
    → o.parse_ip addr ≡ some ip
    → disallowed ip ≡ false
unfolding all_allowed
all_allowed-Mem o [] addr ip h m parsed = absurd (Memᴰ.not-nil m)
all_allowed-Mem o (x ∷ rest) addr ip h (Memᴰ.head e) parsed =
    let (first, later) =
      both (not (disallowed ip)) (all_allowed o rest)
        (rw (all_allowed, ap o.parse_ip (sym e) ∙ parsed) at h) in
    not_true (disallowed ip) first
  where
    not_true : (b : Bool) → not b ≡ true → b ≡ false
    not_true true h = cc
    not_true false h = refl
all_allowed-Mem o (x ∷ rest) addr ip h (Memᴰ.tail m) parsed = elim (Option-cases (o.parse_ip x)) [
  | inl e ↦ all_allowed-Mem o rest addr ip (rw (all_allowed, e) at h) m parsed
  | inr (y, e) ↦
      all_allowed-Mem o rest addr ip
        (both (not (disallowed y)) (all_allowed o rest) (rw (all_allowed, e) at h)).1 m parsed
]

-- What the web server of an authorization's name has answered.
pub record Answered (o : Outside) (authz : Authorization) (token key_authz : Bytes) : Type 0 where
  pub addrs : List Bytes
  pub looked_up :
      o.lookup_host (elim (o.split_host_port authz.identifier.value) [
        | none ↦ authz.identifier.value
        | some h ↦ h
      ])
      ≡ some addrs
  pub public :
      (addr : Bytes) (ip : Ip) → Memᴰ addr addrs → o.parse_ip addr ≡ some ip → disallowed ip ≡ false
  pub body : Bytes
  pub fetched :
      o.http_get (http_text ++ (authz.identifier.value ++ (well_known_text ++ token))) ≡ some body
  pub right : o.trim_space (take 1024 body) ≡ key_authz

answers_http_01-Answered :
    (o : Outside) (authz : Authorization) (token key_authz : Bytes)
    → answers_http_01 o authz token key_authz ≡ true
    → Answered o authz token key_authz
unfolding answers_http_01 is_allowed_http_01_target
answers_http_01-Answered o authz token key_authz h =
    let (allowed, answered) = both (is_allowed_http_01_target o authz.identifier.value) _ h in
    elim (Option-cases (
      o.lookup_host (elim (o.split_host_port authz.identifier.value) [
        | none ↦ authz.identifier.value
        | some h ↦ h
      ]))) [
        | inl e ↦ cc (rw (is_allowed_http_01_target, e) at allowed)
        | inr (addrs, e) ↦
            elim (Option-cases
              (o.http_get (http_text ++ (authz.identifier.value ++ (well_known_text ++ token))))) [
                | inl f ↦ cc (rw f at answered)
                | inr (body, f) ↦ record {
                  addrs = addrs;
                  looked_up = e;
                  public = λ addr ip m p.
                      all_allowed-Mem o addrs addr ip (rw (is_allowed_http_01_target, e) at allowed)
                        m p;
                  body = body;
                  fetched = f;
                  right = bytes_eq→eq (o.trim_space (take 1024 body)) key_authz (rw f at answered);
                }
              ]
      ]

-- Unless challenges are approved by configuration, `validateChallenge` goes on to a valid challenge only
-- if the challenge's authorization is there, none of the parsed addresses that the look-up of its name
-- has given is a disallowed one, and the answer to its HTTP request for the token, from whatever address
-- that request has gone to, is, cut to 1024 bytes and trimmed, the token, a dot and the thumbprint of the
-- account's key.
pub validate_challenge-Answered :
    (cfg : Config) (o : Outside) (ch : Challenge) (account : Account) (s : Shared) (now : ℕ)
    → cfg.auto_approve_challenge ≡ false
    → (validate_challenge cfg o ch account s).threads ≡ challenge_valid ch now ∷ []
    → (authz : Authorization) × (get_authz ch.authz_id s.db ≡ some authz)
      × Answered o authz ch.token (key_authorization o ch.token account)
unfolding validate_challenge perform_http_01
validate_challenge-Answered cfg o ch account s now asked h =
    elim (Option-cases (get_authz ch.authz_id s.db)) [
      | inl e ↦ cc (rw (validate_challenge, asked, e, perform_http_01) at h)
      | inr (authz, e) ↦
          elim (Bool-cases
            (answers_http_01 o authz ch.token (key_authorization o ch.token account))) [
              | inl right ↦ (
                authz,
                e,
                answers_http_01-Answered o authz ch.token (key_authorization o ch.token account)
                    right,
              )
              | inr wrong ↦ cc (rw (validate_challenge, asked, e, perform_http_01, wrong) at h)
            ]
    ]

has_name-Mem :
    (o : Outside) (names : List Bytes) (name : Bytes)
    → has_name o names name ≡ true
    → (n : Bytes) × Memᴰ n names × (o.to_lower n ≡ name)
unfolding has_name
has_name-Mem o [] name h = cc
has_name-Mem o (x ∷ rest) name h = elim (Bool-cases (bytes_eq (o.to_lower x) name)) [
  | inl this ↦ (x, Memᴰ.head refl, bytes_eq→eq (o.to_lower x) name this)
  | inr other ↦
      let (n, at, is) = has_name-Mem o rest name (rw (has_name, other) at h) in
      (n, Memᴰ.tail at, is)
]

covers-Mem :
    (o : Outside) (request : Csr) (is : List Identifier) (i : Identifier)
    → covers o request is ≡ true
    → Memᴰ i is
    → (n : Bytes) × Memᴰ n (csr_names request) × (o.to_lower n ≡ o.to_lower i.value)
unfolding covers
covers-Mem o request [] i h m = absurd (Memᴰ.not-nil m)
covers-Mem o request (x ∷ rest) i h (Memᴰ.head e) =
    let (n, at, is) = has_name-Mem o (csr_names request) (o.to_lower x.value) (both _ _ h).0 in
    (n, at, is ∙ ap (λ (y : Identifier). o.to_lower y.value) (sym e))
covers-Mem o request (x ∷ rest) i h (Memᴰ.tail m) = covers-Mem o request rest i (both _ _ h).1 m

check_csr_lem :
    (o : Outside) (y x : Order) (payload : Bytes) (s : Shared) (csr : Csr) (pem : Bytes)
    → (check_csr o y payload s).threads ≡ begin_final x csr pem ∷ []
    → (y ≡ x) × (covers o csr y.identifiers ≡ true)
unfolding check_csr
check_csr_lem o y x payload s csr pem h = elim (Option-cases (o.finalize_request payload)) [
  | inl e ↦ cc (rw (check_csr, e) at h)
  | inr (text, e) ↦ elim (Option-cases (o.codec.base64_url text)) [
    | inl e1 ↦ cc (rw (check_csr, e, e1) at h)
    | inr (der, e1) ↦ elim (Option-cases (o.parse_certificate_request der)) [
      | inl e2 ↦ cc (rw (check_csr, e, e1, e2) at h)
      | inr (request, e2) ↦ elim (Bool-cases (covers o request y.identifiers)) [
        | inr missing ↦ cc (rw (check_csr, e, e1, e2, missing) at h)
        | inl named ↦
            let made : ◌≡◌ {A = List Thread} (begin_final y request (o.encode_to_memory der) ∷ [])
                (begin_final x csr pem ∷ []) =
              rw (check_csr, e, e1, e2, named) at h in
            let csr_is : request ≡ csr = cc in
            (cc, subst (λ c. covers o c y.identifiers ≡ true) csr_is named)
      ]
    ]
  ]
]

-- `handleFinalize` goes on to an order's update only if the order is the one of the path, belongs to the
-- account that has signed the request, and is ready, and each of its identifiers is, up to letter case,
-- a name of the certificate request.
pub finalize_request-begins :
    (o : Outside) (id payload : Bytes) (account : Account) (s : Shared) (x : Order) (csr : Csr)
    (pem : Bytes)
    → (finalize_request o id payload account s).threads ≡ begin_final x csr pem ∷ []
    → (get_order id s.db ≡ some x)
      × (x.account_id ≡ account.id)
      × (x.status ≡ ready)
      × ((i : Identifier)
          → Memᴰ i x.identifiers
          → (n : Bytes) × Memᴰ n (csr_names csr) × (o.to_lower n ≡ o.to_lower i.value))
unfolding finalize_request check_csr
finalize_request-begins o id payload account s x csr pem h =
    elim (Option-cases (get_order id s.db)) [
      | inl e ↦ cc (rw (finalize_request, e) at h)
      | inr (y, e) ↦ elim (Bool-cases (bytes_eq y.account_id account.id)) [
        | inr other ↦ cc (rw (finalize_request, e, other) at h)
        | inl own ↦ elim (Bool-cases (status_eq y.status ready)) [
          | inr early ↦ cc (rw (finalize_request, e, own, early) at h)
          | inl is ↦
              let (same, named) =
                check_csr_lem o y x payload s csr pem (rw (finalize_request, e, own, is) at h) in
              (
                e ∙ ap some same,
                ap (λ (z : Order). z.account_id) (sym same)
                    ∙ bytes_eq→eq y.account_id account.id own,
                ap (λ (z : Order). z.status) (sym same) ∙ status_eq→eq y.status ready is,
                λ i m.
                    covers-Mem o csr x.identifiers i
                      (subst (λ (z : Order). covers o csr z.identifiers ≡ true) same named) m,
              )
        ]
      ]
    ]
