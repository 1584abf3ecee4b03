-- ===== src/Acme/System/Good.antt =====
-- Every access of a thread, on sound tables.
use ca_extension_mtc_playgro.Prelude.{◌≡◌, refl, ◌++◌, Option, none, some}
use ca_extension_mtc_playgro.Prelude.Result.{Result, ok, err, panic, stuck}
use ca_extension_mtc_playgro.Bytes.{Bytes}
use ca_extension_mtc_playgro.Acme.Tables.{Account}
use ca_extension_mtc_playgro.Acme.Jws.{JwsHeader, JwsError, verify_jws}
use ca_extension_mtc_playgro.Acme.Outside.{Config, Outside}
use ca_extension_mtc_playgro.Acme.Thread.{
  Thread, Route, Request, Shared, new_account, new_order, order, authz, challenge, finalize,
  certificate, received, find_account, add_account, add_order, read_order, list_urls, read_authz,
  list_challenges, read_challenge, validate, challenge_valid, challenge_invalid, find_authz,
  mark_authz, list_authzs, ready_order, read_final, begin_final, process_finalize, append,
  checkpoint, prove, store_cert, proxied, poll, read_bundle, finish, read_certificate,
  load_certificate,
}
use ca_extension_mtc_playgro.Acme.System.{requires_kid, handle, receive, resume}
use ca_extension_mtc_playgro.Acme.System.Sound.{Sound, Relies, Good}
use ca_extension_mtc_playgro.Acme.System.Keeps.{unmoved}
use ca_extension_mtc_playgro.Acme.System.Keeps.Registered.{
  new_account_request-Good, look_for_account-Good, insert_account-Good, new_order_request-Good,
  insert_whole_order-Good, show_order-Good, show_urls-Good, show_authz-Good, show_challenges-Good,
}
use ca_extension_mtc_playgro.Acme.System.Keeps.Validated.{
  challenge_request-Good, validate_challenge-Good, fail_challenge-Good, pass_challenge-Good,
  find_challenge_authz-Good, mark_authz_valid-Good, look_at_authzs-Good, make_order_ready-Good,
}
use ca_extension_mtc_playgro.Acme.System.Keeps.Finalized.{
  finalize_request-Good, start_processing-Good, choose_issuer-Good, finish_proxied-Good,
  poll_assertion-Good, look_at_bundle-Good, append_to_log-Good, make_checkpoint-Good, certify-Good,
  keep_certificate-Good, finish_order-Good, certificate_request-Good, hand_out-Good,
}

handle-Good :
    (cfg : Config) (o : Outside) (r : Route) (header : JwsHeader) (payload : Bytes)
    (account : Option Account) (s : Shared)
    → Sound s.db
    → Good s.db (handle cfg o r header payload account s)
unfolding handle Relies
handle-Good cfg o new_account header payload account s sound =
    new_account_request-Good s sound o header payload
handle-Good cfg o new_order header payload (some a) s sound =
    new_order_request-Good s sound cfg o a payload
handle-Good cfg o (order id) header payload (some a) s sound = unmoved sound (tt, tt)
handle-Good cfg o (authz id) header payload (some a) s sound = unmoved sound (tt, tt)
handle-Good cfg o (challenge id) header payload (some a) s sound = unmoved sound (tt, tt)
handle-Good cfg o (finalize id) header payload (some a) s sound = unmoved sound (tt, tt)
handle-Good cfg o (certificate id) header payload (some a) s sound = unmoved sound (tt, tt)
handle-Good cfg o new_order header payload none s sound = unmoved sound tt
handle-Good cfg o (order id) header payload none s sound = unmoved sound tt
handle-Good cfg o (authz id) header payload none s sound = unmoved sound tt
handle-Good cfg o (challenge id) header payload none s sound = unmoved sound tt
handle-Good cfg o (finalize id) header payload none s sound = unmoved sound tt
handle-Good cfg o (certificate id) header payload none s sound = unmoved sound tt

receive-Good :
    (cfg : Config) (o : Outside) (r : Request) (s : Shared)
    → Sound s.db
    → Good s.db (receive cfg o r s)
unfolding receive
receive-Good cfg o r s sound =
    go
      (verify_jws o.sha256 o.codec (o.clock 0) (cfg.external_url ++ r.path) r.body
        (requires_kid r.route) s.nonces s.db).0
      refl
  where
    go :
        (checked : Result JwsError (JwsHeader × Bytes × Option Account))
        → (verify_jws o.sha256 o.codec
            (o.clock 0)
            (cfg.external_url ++ r.path)
            r.body
            (requires_kid r.route)
            s.nonces
            s.db).0
          ≡ checked
        → Good s.db (receive cfg o r s)
    go (ok accepted) e =
        rw (receive, e) (handle-Good cfg o r.route accepted.0 accepted.1 accepted.2 _ sound)
    go (err x) e = rw (receive, e) (unmoved sound tt)
    go panic e = rw (receive, e) (unmoved sound tt)
    go stuck e = rw (receive, e) (unmoved sound tt)

pub resume-Good :
    (cfg : Config) (o : Outside) (t : Thread) (s : Shared)
    → Sound s.db
    → Relies t s.db
    → Good s.db (resume cfg o t s)
unfolding resume Relies
resume-Good cfg o (received r) s sound h = receive-Good cfg o r s sound
resume-Good cfg o (find_account header request thumbprint) s sound h =
    look_for_account-Good s sound o header request thumbprint
resume-Good cfg o (add_account a) s sound h = insert_account-Good s sound a
resume-Good cfg o (add_order x authzs challenges) s sound h =
    insert_whole_order-Good s sound cfg x authzs challenges h
resume-Good cfg o (read_order id) s sound h = show_order-Good s sound id
resume-Good cfg o (list_urls x) s sound h = show_urls-Good s sound cfg x
resume-Good cfg o (read_authz id) s sound h = show_authz-Good s sound id
resume-Good cfg o (list_challenges a) s sound h = show_challenges-Good s sound a
resume-Good cfg o (read_challenge id account) s sound h = challenge_request-Good s sound id account
resume-Good cfg o (validate ch account) s sound h = validate_challenge-Good s sound cfg o ch account
resume-Good cfg o (challenge_valid ch now) s sound h = pass_challenge-Good s sound ch now
resume-Good cfg o (challenge_invalid ch) s sound h = fail_challenge-Good s sound o ch
resume-Good cfg o (find_authz ch) s sound h = find_challenge_authz-Good s sound ch
resume-Good cfg o (mark_authz a) s sound h = mark_authz_valid-Good s sound a h
resume-Good cfg o (list_authzs a) s sound h = look_at_authzs-Good s sound a h
resume-Good cfg o (ready_order id) s sound h = make_order_ready-Good s sound id h
resume-Good cfg o (read_final id payload account) s sound h =
    finalize_request-Good s sound o id payload account
resume-Good cfg o (begin_final x csr pem) s sound h = start_processing-Good s sound x csr pem h
resume-Good cfg o (process_finalize id csr pem is) s sound h =
    choose_issuer-Good s sound id is h cfg o csr pem
resume-Good cfg o (append id csr is kind entry) s sound h =
    append_to_log-Good s sound id is h o csr kind entry
resume-Good cfg o (checkpoint id csr is kind entry index) s sound h =
    make_checkpoint-Good s sound id is h o csr kind entry index
resume-Good cfg o (prove id csr is kind entry index cp) s sound h =
    certify-Good s sound id is h cfg o csr kind index cp
resume-Good cfg o (store_cert id is serial der) s sound h =
    keep_certificate-Good s sound id is h cfg o serial der
resume-Good cfg o (proxied id is serial) s sound h = finish_proxied-Good s sound id is h serial
resume-Good cfg o (poll id is serial) s sound h = poll_assertion-Good s sound id is h cfg o serial
resume-Good cfg o (read_bundle id is serial index) s sound h =
    look_at_bundle-Good s sound id is h cfg o serial index
resume-Good cfg o (finish id status columns) s sound h =
    finish_order-Good s sound id status columns h
resume-Good cfg o (read_certificate id account) s sound h =
    certificate_request-Good s sound id account
resume-Good cfg o (load_certificate x) s sound h = hand_out-Good s sound x
