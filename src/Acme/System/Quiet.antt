-- ===== src/Acme/System/Quiet.antt =====
-- The accesses that leave the log and the checkpoints as they are.
use ca_extension_mtc_playgro.Acme.Handlers.Poll.{poll_assertion, look_at_bundle}
use ca_extension_mtc_playgro.Prelude.{
  ◌≡◌, refl, List, [], ◌∷◌, ◌++◌, Bool, true, false, ◌&&◌, Option, none, some, arith,
}
use ca_extension_mtc_playgro.Prelude.Result.{Result, ok, err, panic, stuck}
use ca_extension_mtc_playgro.Bytes.{Bytes}
use ca_extension_mtc_playgro.Acme.Tables.{Account}
use ca_extension_mtc_playgro.Acme.Jws.{JwsHeader, JwsError, verify_jws}
use ca_extension_mtc_playgro.Acme.Outside.{Config, Outside}
use ca_extension_mtc_playgro.Acme.Thread.{
  Thread, Route, Request, Shared, Stepped, new_account, new_order, order, authz, challenge,
  finalize, certificate, received, find_account, add_account, add_order, read_order, list_urls,
  read_authz, list_challenges, read_challenge, validate, challenge_valid, challenge_invalid,
  find_authz, mark_authz, list_authzs, ready_order, read_final, begin_final, process_finalize,
  append, checkpoint, prove, store_cert, proxied, poll, read_bundle, finish, read_certificate,
  load_certificate,
}
use ca_extension_mtc_playgro.Acme.System.{requires_kid, handle, receive, resume}
use ca_extension_mtc_playgro.Acme.Handlers.Register.{
  new_account_request, look_for_account, insert_account, new_order_request, insert_whole_order,
  show_order, show_urls, show_authz, show_challenges,
}
use ca_extension_mtc_playgro.Acme.Handlers.Validate.{
  challenge_request, validate_challenge, fail_challenge, pass_challenge, find_challenge_authz,
  mark_authz_valid, look_at_authzs, make_order_ready,
}
use ca_extension_mtc_playgro.Acme.Handlers.Finalize.{
  check_csr, finalize_request, start_processing, start_mtc, start_embedded, choose_issuer,
  finish_proxied, certify, keep_certificate, finish_order, certificate_request, hand_out,
}

-- The threads that rely on nothing of the log.
unfoldable pub carefree : Thread → Bool
carefree (checkpoint id csr is kind entry index) = false
carefree (prove id csr is kind entry index cp) = false
carefree _ = true

-- The two accesses that write to the log and to the checkpoints.
unfoldable pub writes_log : Thread → Bool
writes_log (append id csr is kind entry) = true
writes_log (checkpoint id csr is kind entry index) = true
writes_log _ = false

unfoldable pub all_carefree : List Thread → Bool
all_carefree [] = true
all_carefree (t ∷ ts) = carefree t && all_carefree ts

-- An access that leaves the log and the checkpoints as they are.
unfoldable pub Quiet : Shared → Stepped → Type 0
Quiet s r =
    (r.shared.log ≡ s.log)
    × (r.shared.checkpoints ≡ s.checkpoints)
    × (all_carefree r.threads ≡ true)

module _ (cfg : Config) (o : Outside) (s : Shared) where
  handle-Quiet :
      (r : Route) (header : JwsHeader) (payload : Bytes) (account : Option Account) (s' : Shared)
      → Quiet s' (handle cfg o r header payload account s')
  unfolding Quiet handle new_account_request new_order_request carefree all_carefree
  handle-Quiet new_account header payload account s' = (ground arith, ground arith, ground arith)
  handle-Quiet new_order header payload (some a) s' = (ground arith, ground arith, ground arith)
  handle-Quiet (order id) header payload (some a) s' = (refl, refl, refl)
  handle-Quiet (authz id) header payload (some a) s' = (refl, refl, refl)
  handle-Quiet (challenge id) header payload (some a) s' = (refl, refl, refl)
  handle-Quiet (finalize id) header payload (some a) s' = (refl, refl, refl)
  handle-Quiet (certificate id) header payload (some a) s' = (refl, refl, refl)
  handle-Quiet new_order header payload none s' = (refl, refl, refl)
  handle-Quiet (order id) header payload none s' = (refl, refl, refl)
  handle-Quiet (authz id) header payload none s' = (refl, refl, refl)
  handle-Quiet (challenge id) header payload none s' = (refl, refl, refl)
  handle-Quiet (finalize id) header payload none s' = (refl, refl, refl)
  handle-Quiet (certificate id) header payload none s' = (refl, refl, refl)

  receive-Quiet : (r : Request) → Quiet s (receive cfg o r s)
  unfolding Quiet receive carefree all_carefree
  receive-Quiet r =
      go
        (verify_jws o.sha256 o.codec (o.clock 0) (cfg.external_url ++ r.path) r.body
          (requires_kid r.route) s.nonces s.db).0
        refl
    where
      go :
          (checked : Result JwsError (JwsHeader × Bytes × Option Account))
          → (verify_jws o.sha256 o.codec
              (o.clock 0)
              (cfg.external_url ++ r.path)
              r.body
              (requires_kid r.route)
              s.nonces
              s.db).0
            ≡ checked
          → Quiet s (receive cfg o r s)
      go (ok accepted) e = rw (receive, e) (handle-Quiet r.route accepted.0 accepted.1 accepted.2 _)
      go (err x) e = rw (receive, e) (refl, refl, refl)
      go panic e = rw (receive, e) (refl, refl, refl)
      go stuck e = rw (receive, e) (refl, refl, refl)

  pub resume-Quiet : (t : Thread) → writes_log t ≡ false → Quiet s (resume cfg o t s)
  unfolding Quiet resume writes_log carefree all_carefree look_for_account insert_account
      insert_whole_order show_order show_urls show_authz show_challenges challenge_request
      validate_challenge fail_challenge pass_challenge find_challenge_authz mark_authz_valid
      look_at_authzs make_order_ready check_csr finalize_request start_processing start_mtc
      start_embedded choose_issuer finish_proxied poll_assertion look_at_bundle certify
      keep_certificate finish_order certificate_request hand_out
  resume-Quiet (received r) h = receive-Quiet r
  resume-Quiet (find_account header request thumbprint) h =
      (ground arith, ground arith, ground arith)
  resume-Quiet (add_account a) h = (ground arith, ground arith, ground arith)
  resume-Quiet (add_order x authzs challenges) h = (ground arith, ground arith, ground arith)
  resume-Quiet (read_order id) h = (ground arith, ground arith, ground arith)
  resume-Quiet (list_urls x) h = (ground arith, ground arith, ground arith)
  resume-Quiet (read_authz id) h = (ground arith, ground arith, ground arith)
  resume-Quiet (list_challenges a) h = (ground arith, ground arith, ground arith)
  resume-Quiet (read_challenge id account) h = (ground arith, ground arith, ground arith)
  resume-Quiet (validate ch account) h = (ground arith, ground arith, ground arith)
  resume-Quiet (challenge_valid ch now) h = (ground arith, ground arith, ground arith)
  resume-Quiet (challenge_invalid ch) h = (ground arith, ground arith, ground arith)
  resume-Quiet (find_authz ch) h = (ground arith, ground arith, ground arith)
  resume-Quiet (mark_authz a) h = (ground arith, ground arith, ground arith)
  resume-Quiet (list_authzs a) h = (ground arith, ground arith, ground arith)
  resume-Quiet (ready_order id) h = (ground arith, ground arith, ground arith)
  resume-Quiet (read_final id payload account) h = (ground arith, ground arith, ground arith)
  resume-Quiet (begin_final x csr pem) h = (ground arith, ground arith, ground arith)
  resume-Quiet (process_finalize id csr pem is) h = (ground arith, ground arith, ground arith)
  resume-Quiet (prove id csr is kind entry index cp) h = (ground arith, ground arith, ground arith)
  resume-Quiet (store_cert id is serial der) h = (ground arith, ground arith, ground arith)
  resume-Quiet (proxied id is serial) h = (ground arith, ground arith, ground arith)
  resume-Quiet (poll id is serial) h = (ground arith, ground arith, ground arith)
  resume-Quiet (read_bundle id is serial index) h = (ground arith, ground arith, ground arith)
  resume-Quiet (finish id status columns) h = (ground arith, ground arith, ground arith)
  resume-Quiet (read_certificate id account) h = (ground arith, ground arith, ground arith)
  resume-Quiet (load_certificate x) h = (ground arith, ground arith, ground arith)
  resume-Quiet (append id csr is kind entry) h = cc
  resume-Quiet (checkpoint id csr is kind entry index) h = cc
