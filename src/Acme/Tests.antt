-- ===== src/Acme/Tests.antt =====
-- The run of Acme/Run: the theorems at concrete inputs.
use mathlib.Core.List.{Memᴰ}
use ca_extension_mtc_playgro.Prelude.{
  ◌≡◌, refl, List, [], ◌∷◌, true, false, Option, none, some, arith,
}
use ca_extension_mtc_playgro.Prelude.Result.{ok, err}
use ca_extension_mtc_playgro.Bytes.{Bytes, bytes_eq}
use ca_extension_mtc_playgro.Acme.Tables.{ready, Identifier, Account, Authorization}
use ca_extension_mtc_playgro.Acme.Jws.{Jws}
use ca_extension_mtc_playgro.Acme.Nonce.{new_nonce}
use ca_extension_mtc_playgro.Acme.Statements.{get_order, get_authz}
use ca_extension_mtc_playgro.Acme.Nonce.{consume_nonce}
use ca_extension_mtc_playgro.Acme.Jws.{parse_jws, verify_jws}
use ca_extension_mtc_playgro.Acme.Handlers.Validate.{key_authorization}
use ca_extension_mtc_playgro.Acme.Handlers.Finalize.{csr_names}
use mathlib.Core.Path.{subst}
use ca_extension_mtc_playgro.Prelude.{sym}
use ca_extension_mtc_playgro.Acme.System.Sound.{Authorised}
use ca_extension_mtc_playgro.Acme.System.Authorised.{Reach-Authorised}
use ca_extension_mtc_playgro.Acme.Nonce.History.{
  run, made, brought, fresh, since, makes_again, unused_since, consume_nonce-run,
}
use ca_extension_mtc_playgro.Acme.Jws.{bad_nonce}
use ca_extension_mtc_playgro.Acme.Jws.Checked.{Signed, verify_jws_once, verify_jws-Signed}
use ca_extension_mtc_playgro.Acme.Handlers.Proved.{
  Answered, validate_challenge-Answered, finalize_request-begins,
}
use ca_extension_mtc_playgro.Acme.Run.{
  itself, codec, name, csr, at, cfg, log, empty, registered, ordered, proved, proved-Reach,
  ready_order_row, header_of, jws_row, account_row, challenge_row, asking, answering,
}
use ca_extension_mtc_playgro.Acme.Run.Outcome.{run_lem, was_ready}

Reach-Authorised_example : Authorised (200 ∷ []) (name ∷ []) proved.shared.db
Reach-Authorised_example =
    Reach-Authorised itself cfg log [] proved proved-Reach ready_order_row
      (subst (λ l. Memᴰ ready_order_row l) (sym run_lem.0) (Memᴰ.head refl)) was_ready

consume_nonce-run_example :
    (consume_nonce (1 ∷ []) 10 (run (brought (2 ∷ []) 5 ∷ made (1 ∷ []) 3 ∷ []))).0
    ≡ fresh 10 (unused_since (1 ∷ []) (brought (2 ∷ []) 5 ∷ made (1 ∷ []) 3 ∷ []))
consume_nonce-run_example =
    consume_nonce-run (1 ∷ []) 10 (brought (2 ∷ []) 5 ∷ made (1 ∷ []) 3 ∷ [])
      (omega arith, (omega arith, tt))

verify_jws_once_example :
    (verify_jws itself codec 101
      (1 ∷ [])
      (1 ∷ [])
      false
      (since
        (made (2 ∷ []) 101 ∷ [])
        (verify_jws itself codec 100
          (1 ∷ [])
          (1 ∷ [])
          false
          (new_nonce (1 ∷ []) 100 (λ n. none))
          empty.shared.db).1)
      empty.shared.db).0
    ≡ err bad_nonce
unfolding makes_again bytes_eq
verify_jws_once_example =
    verify_jws_once itself codec 100 101 (1 ∷ []) (1 ∷ []) (1 ∷ []) false false
      (new_nonce (1 ∷ []) 100 (λ n. none)) empty.shared.db empty.shared.db jws_row (header_of 1)
      (made (2 ∷ []) 101 ∷ []) run_lem.3 refl

verify_jws-Signed_example :
    ((consume_nonce (2 ∷ []) 200 (new_nonce (2 ∷ []) 200 (λ n. none))).0 ≡ true)
    × ((verify_jws itself codec 200
          (2 ∷ [])
          (2 ∷ [])
          true
          (new_nonce (2 ∷ []) 200 (λ n. none))
          registered.shared.db).1
        ≡ (consume_nonce (2 ∷ []) 200 (new_nonce (2 ∷ []) 200 (λ n. none))).1)
    × ((j : Jws) × (account : Account) × (parse_jws itself codec (2 ∷ []) ≡ ok (j, header_of 2))
        × (◌≡◌ {A = Option Account} (some account_row) (some account))
        × Signed itself codec (2 ∷ []) registered.shared.db j (header_of 2) account)
verify_jws-Signed_example =
    verify_jws-Signed itself codec 200 (2 ∷ []) (2 ∷ []) (new_nonce (2 ∷ []) 200 (λ n. none))
      registered.shared.db (header_of 2) (2 ∷ []) (some account_row) run_lem.4

validate_challenge-Answered_example :
    (authz : Authorization) × (get_authz (202 ∷ []) ordered.shared.db ≡ some authz)
    × Answered answering authz
        (204 ∷ 205 ∷ [])
        (key_authorization answering (204 ∷ 205 ∷ []) account_row)
validate_challenge-Answered_example =
    validate_challenge-Answered asking answering challenge_row account_row ordered.shared 300 refl
      run_lem.5

finalize_request-begins_example :
    (get_order (200 ∷ []) proved.shared.db ≡ some ready_order_row)
    × (ready_order_row.account_id ≡ account_row.id)
    × (ready_order_row.status ≡ ready)
    × ((i : Identifier) → Memᴰ i (name ∷ []) → (n : Bytes) × Memᴰ n (csr_names csr) × (n ≡ i.value))
finalize_request-begins_example =
    finalize_request-begins (at 400) (200 ∷ []) (4 ∷ []) account_row proved.shared ready_order_row
      csr (4 ∷ []) run_lem.6
