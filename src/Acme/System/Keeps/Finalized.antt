-- ===== src/Acme/System/Keeps/Finalized.antt =====
-- The accesses that finalize an order and hand its certificate out.
use ca_extension_mtc_playgro.Prelude.{true, false}
use ca_extension_mtc_playgro.Acme.Handlers.Poll.{poll_assertion, look_at_bundle}
use ca_extension_mtc_playgro.Revocation.{find_entry_by_serial}
use mathlib.Core.Path.{subst}
use ca_extension_mtc_playgro.Prelude.{
  ℕ, ◌≡◌, refl, sym, List, [], ◌∷◌, ◌++◌, true, not, Bool-cases, some, Option-cases, inl, inr,
  length, ◌==◌,
}
use ca_extension_mtc_playgro.Prelude.Int.{pos}
use ca_extension_mtc_playgro.Prelude.Result.{Result, ok, err, panic, stuck}
use ca_extension_mtc_playgro.Bytes.{Bytes, bytes_eq}
use ca_extension_mtc_playgro.Merkle.Hash.{Error}
use ca_extension_mtc_playgro.Merkle.Nodes.{inclusion_proof_from_nodes}
use ca_extension_mtc_playgro.Log.{append_direct_entry}
use ca_extension_mtc_playgro.Log.Tables.{LogEntry, Store, StoreError}
use ca_extension_mtc_playgro.Log.Root.{node_at}
use ca_extension_mtc_playgro.Log.Checkpoint.{
  Checkpoint, LogError, build_mtc_entry, create_checkpoint,
}
use ca_extension_mtc_playgro.Acme.Rows.Members.{find-Mem}
use ca_extension_mtc_playgro.Acme.Tables.{
  Status, ready, processing, valid, invalid, status_eq, status_eq→eq, Identifier, Account, Order,
}
use ca_extension_mtc_playgro.Acme.Statements.{
  Column, csr, cert_serial, order_is, get_order, get_order_final_cert_der,
}
use ca_extension_mtc_playgro.Acme.Outside.{Config, Outside, Csr}
use ca_extension_mtc_playgro.Acme.Thread.{Kind, Shared}
use ca_extension_mtc_playgro.Acme.Handlers.Finalize.{
  covers, check_csr, finalize_request, start_processing, mtc_prefix, fails, names_of, start_mtc,
  start_embedded, choose_issuer, finish_proxied, append_to_log, make_checkpoint, signed_certificate,
  certify, keep_certificate, finish_order, certificate_request, hand_out,
}
use ca_extension_mtc_playgro.Acme.System.Sound.{
  has_been_ready, HasOrder, AllValid, Sound, Approved, Approved-Later, Relies, Good,
}
use ca_extension_mtc_playgro.Acme.System.Updates.{
  update_order_status-Later, update_order_status-Sound, set_order_final_cert_der-Later,
  set_order_final_cert_der-Sound,
}
use ca_extension_mtc_playgro.Acme.System.Keeps.{unmoved}

invalid_rest : has_been_ready invalid ≡ true → ⊥
unfolding has_been_ready
invalid_rest h = cc

ready_is : has_been_ready ready ≡ true
unfolding has_been_ready
ready_is = refl

module _ (s : Shared) (sound : Sound s.db) where
  fails-Good : (o : Outside) (id : Bytes) → Good s.db (fails o id s)
  unfolding Relies
  fails-Good o id = unmoved sound ((λ been. absurd (invalid_rest been)), tt)

  check_csr-Good :
      (o : Outside) (order : Order) (payload : Bytes)
      → Approved order.id order.identifiers s.db
      → Good s.db (check_csr o order payload s)
  unfolding check_csr Relies
  check_csr-Good o order payload approved = elim (Option-cases (o.finalize_request payload)) [
    | inl e ↦ rw (check_csr, e) (unmoved sound tt)
    | inr (text, e) ↦ elim (Option-cases (o.codec.base64_url text)) [
      | inl e1 ↦ rw (check_csr, e, e1) (unmoved sound tt)
      | inr (der, e1) ↦ elim (Option-cases (o.parse_certificate_request der)) [
        | inl e2 ↦ rw (check_csr, e, e1, e2) (unmoved sound tt)
        | inr (request, e2) ↦ elim (Bool-cases (covers o request order.identifiers)) [
          | inl named ↦ rw (check_csr, e, e1, e2, named) (unmoved sound (approved, tt))
          | inr missing ↦ rw (check_csr, e, e1, e2, missing) (unmoved sound tt)
        ]
      ]
    ]
  ]

  pub finalize_request-Good :
      (o : Outside) (id payload : Bytes) (account : Account)
      → Good s.db (finalize_request o id payload account s)
  unfolding finalize_request get_order
  finalize_request-Good o id payload account = elim (Option-cases (get_order id s.db)) [
    | inl e ↦ rw (finalize_request, e) (unmoved sound tt)
    | inr (order, e) ↦ elim (Bool-cases (not (bytes_eq order.account_id account.id))) [
      | inl other ↦ rw (finalize_request, e, other) (unmoved sound tt)
      | inr own ↦ elim (Bool-cases (status_eq order.status ready)) [
        | inr early ↦ rw (finalize_request, e, own, early) (unmoved sound tt)
        | inl is ↦
            let (at, same) = find-Mem (order_is id) s.db.orders order e in
            rw (finalize_request, e, own, is)
              (check_csr-Good o order payload (record {
                there = (order, at, refl);
                all =
                    sound.allowed order at
                      (was_ready order.status (status_eq→eq order.status ready is));
                names = sound.covered order at;
              }))
      ]
    ]
  ]
    where
      was_ready : (status : Status) → status ≡ ready → has_been_ready status ≡ true
      was_ready status is = subst (λ x. has_been_ready x ≡ true) (sym is) ready_is

  pub start_processing-Good :
      (order : Order) (request : Csr) (pem : Bytes)
      → Approved order.id order.identifiers s.db
      → Good s.db (start_processing order request pem s)
  unfolding start_processing Relies
  start_processing-Good order request pem approved =
      let later = update_order_status-Later order.id processing ((csr, pem) ∷ []) s.db in
      record {
        sound =
            update_order_status-Sound order.id processing ((csr, pem) ∷ []) s.db sound
              (λ been. approved.all);
        later = later;
        relied = (Approved-Later later approved, (tt, tt));
      }

  module _ (id : Bytes) (is : List Identifier) (approved : Approved id is s.db) where
    start_mtc-Good :
        (cfg : Config) (o : Outside) (request : Csr) → Good s.db (start_mtc cfg o id request is s)
    unfolding start_mtc Relies
    start_mtc-Good cfg o request =
        elim (Option-cases
          (o.build_log_entry_from_csr cfg.mtc_bridge_url (o.clock 0) request (names_of is))) [
            | inl e ↦ rw (start_mtc, e) (fails-Good o id)
            | inr (der, e) ↦
                built der e (build_mtc_entry o.sha256 o.contents_octets der (mtc_prefix ++ id)) refl
          ]
      where
        built :
            (der : Bytes)
            → o.build_log_entry_from_csr cfg.mtc_bridge_url (o.clock 0) request (names_of is)
              ≡ some der
            → (r : Result LogError LogEntry)
            → build_mtc_entry o.sha256 o.contents_octets der (mtc_prefix ++ id) ≡ r
            → Good s.db (start_mtc cfg o id request is s)
        built der e (ok entry) h = rw (start_mtc, e, h) (unmoved sound (approved, tt))
        built der e (err x) h = rw (start_mtc, e, h) (fails-Good o id)
        built der e panic h = rw (start_mtc, e, h) (unmoved sound tt)
        built der e stuck h = rw (start_mtc, e, h) (unmoved sound tt)

    start_embedded-Good :
        (o : Outside) (request : Csr) → Good s.db (start_embedded o id request is s)
    unfolding start_embedded Relies
    start_embedded-Good o request = elim (Option-cases (o.issue_precert request (names_of is))) [
      | inl e ↦ rw (start_embedded, e) (fails-Good o id)
      | inr (precert, e) ↦ rw (start_embedded, e) (unmoved sound (approved, tt))
    ]

    pub choose_issuer-Good :
        (cfg : Config) (o : Outside) (request : Csr) (pem : Bytes)
        → Good s.db (choose_issuer cfg o id request pem is s)
    unfolding choose_issuer Relies start_mtc start_embedded
    choose_issuer-Good cfg o request pem = elim (Bool-cases cfg.local_ca) [
      | inl local ↦ elim (Bool-cases cfg.mtc_mode) [
        | inl mtc ↦ rw (choose_issuer, local, mtc) (start_mtc-Good cfg o request)
        | inr pre ↦ rw (choose_issuer, local, pre) (start_embedded-Good o request)
      ]
      | inr remote ↦ elim (Option-cases (o.proxy_to_ca request pem is)) [
        | inl e ↦ rw (choose_issuer, remote, e) (fails-Good o id)
        | inr (serial, e) ↦ rw (choose_issuer, remote, e) (unmoved sound (approved, tt))
      ]
    ]

    pub finish_proxied-Good : (serial : Bytes) → Good s.db (finish_proxied id is serial s)
    unfolding finish_proxied Relies
    finish_proxied-Good serial =
        let later = update_order_status-Later id processing ((cert_serial, serial) ∷ []) s.db in
        record {
          sound =
              update_order_status-Sound id processing ((cert_serial, serial) ∷ []) s.db sound
                (λ been. approved.all);
          later = later;
          relied = (Approved-Later later approved, tt);
        }

    pub poll_assertion-Good :
        (cfg : Config) (o : Outside) (serial : Bytes)
        → Good s.db (poll_assertion cfg o id is serial s)
    unfolding poll_assertion Relies
    poll_assertion-Good cfg o serial = elim (Bool-cases o.deadline_passed) [
      | inl late ↦
          rw (poll_assertion, late) (unmoved sound ((λ been. (approved.all, approved.there)), tt))
      | inr early ↦ elim (Option-cases (find_entry_by_serial serial s.log.entries)) [
        | inl e ↦ rw (poll_assertion, early, e) (unmoved sound (approved, tt))
        | inr (index, e) ↦ rw (poll_assertion, early, e) (unmoved sound (approved, tt))
      ]
    ]

    pub look_at_bundle-Good :
        (cfg : Config) (o : Outside) (serial : Bytes) (index : ℕ)
        → Good s.db (look_at_bundle cfg o id is serial index s)
    unfolding look_at_bundle Relies
    look_at_bundle-Good cfg o serial index = elim (Option-cases (o.get_assertion_bundle index)) [
      | inl e ↦ rw (look_at_bundle, e) (unmoved sound (approved, tt))
      | inr (true, e) ↦ rw (look_at_bundle, e) (unmoved sound (approved, tt))
      | inr (false, e) ↦
          rw (look_at_bundle, e) (unmoved sound ((λ been. (approved.all, approved.there)), tt))
    ]

    pub append_to_log-Good :
        (o : Outside) (request : Csr) (kind : Kind) (entry : LogEntry)
        → Good s.db (append_to_log o id request is kind entry s)
    unfolding append_to_log Relies
    append_to_log-Good o request kind entry = go (append_direct_entry o.sha256 entry s.log) refl
      where
        go :
            (r : Result StoreError (ℕ × Store))
            → append_direct_entry o.sha256 entry s.log ≡ r
            → Good s.db (append_to_log o id request is kind entry s)
        go (ok out) e = rw (append_to_log, e) (unmoved sound (approved, tt))
        go (err x) e = rw (append_to_log, e) (fails-Good o id)
        go panic e = rw (append_to_log, e) (unmoved sound tt)
        go stuck e = rw (append_to_log, e) (unmoved sound tt)

    pub make_checkpoint-Good :
        (o : Outside) (request : Csr) (kind : Kind) (entry : LogEntry) (index : ℕ)
        → Good s.db (make_checkpoint o id request is kind entry index s)
    unfolding make_checkpoint Relies
    make_checkpoint-Good o request kind entry index =
        go (create_checkpoint o.sha256 o.sign_checkpoint (o.clock 0) s.log) refl
      where
        go :
            (r : Result LogError Checkpoint)
            → create_checkpoint o.sha256 o.sign_checkpoint (o.clock 0) s.log ≡ r
            → Good s.db (make_checkpoint o id request is kind entry index s)
        go (ok cp) e = rw (make_checkpoint, e) (unmoved sound (approved, tt))
        go (err x) e = rw (make_checkpoint, e) (fails-Good o id)
        go panic e = rw (make_checkpoint, e) (unmoved sound tt)
        go stuck e = rw (make_checkpoint, e) (unmoved sound tt)

    pub certify-Good :
        (cfg : Config) (o : Outside) (request : Csr) (kind : Kind) (index : ℕ) (cp : Checkpoint)
        → Good s.db (certify cfg o id request is kind index cp s)
    unfolding certify Relies
    certify-Good cfg o request kind index cp =
        go
          (inclusion_proof_from_nodes o.sha256 (node_at s.log.nodes) (pos index) (pos cp.tree_size))
          refl
      where
        go :
            (r : Result Error (List Bytes))
            → inclusion_proof_from_nodes o.sha256
                (node_at s.log.nodes)
                (pos index)
                (pos cp.tree_size)
              ≡ r
            → Good s.db (certify cfg o id request is kind index cp s)
        go (ok proof) e =
            elim (Option-cases (signed_certificate cfg o request is kind index cp proof)) [
              | inl e1 ↦ rw (certify, e, e1) (fails-Good o id)
              | inr (der, e1) ↦ rw (certify, e, e1) (unmoved sound (approved, tt))
            ]
        go (err x) e = rw (certify, e) (fails-Good o id)
        go panic e = rw (certify, e) (unmoved sound tt)
        go stuck e = rw (certify, e) (unmoved sound tt)

    pub keep_certificate-Good :
        (cfg : Config) (o : Outside) (serial der : Bytes)
        → Good s.db (keep_certificate cfg o id serial der s)
    unfolding keep_certificate Relies
    keep_certificate-Good cfg o serial der =
        let later = set_order_final_cert_der-Later id der o.ca_cert_der s.db in
        record {
          sound = set_order_final_cert_der-Sound id der o.ca_cert_der s.db sound;
          later = later;
          relied = (
            (λ been. ((Approved-Later later approved).all, (Approved-Later later approved).there)),
            tt,
          );
        }

  pub finish_order-Good :
      (id : Bytes) (status : Status) (columns : List (Column × Bytes))
      → (has_been_ready status ≡ true → AllValid id s.db × HasOrder id s.db)
      → Good s.db (finish_order id status columns s)
  unfolding finish_order
  finish_order-Good id status columns may = record {
    sound = update_order_status-Sound id status columns s.db sound (λ been. (may been).0);
    later = update_order_status-Later id status columns s.db;
    relied = tt;
  }

  pub certificate_request-Good :
      (id : Bytes) (account : Account) → Good s.db (certificate_request id account s)
  unfolding certificate_request Relies
  certificate_request-Good id account = elim (Option-cases (get_order id s.db)) [
    | inl e ↦ rw (certificate_request, e) (unmoved sound tt)
    | inr (order, e) ↦ elim (Bool-cases (not (bytes_eq order.account_id account.id))) [
      | inl other ↦ rw (certificate_request, e, other) (unmoved sound tt)
      | inr own ↦ elim (Bool-cases (not (status_eq order.status valid))) [
        | inl early ↦ rw (certificate_request, e, own, early) (unmoved sound tt)
        | inr done ↦ elim (Bool-cases (length order.cert_serial == 0)) [
          | inl bare ↦ rw (certificate_request, e, own, done, bare) (unmoved sound tt)
          | inr numbered ↦ rw (certificate_request, e, own, done, numbered) (unmoved sound (tt, tt))
        ]
      ]
    ]
  ]

  pub hand_out-Good : (order : Order) → Good s.db (hand_out order s)
  unfolding hand_out
  hand_out-Good order = elim (Option-cases (get_order_final_cert_der order.id s.db)) [
    | inl e ↦ rw (hand_out, e) (unmoved sound tt)
    | inr (ders, e) ↦ elim (Bool-cases (length ders.0 == 0)) [
      | inl empty ↦ rw (hand_out, e, empty) (unmoved sound tt)
      | inr full ↦ rw (hand_out, e, full) (unmoved sound tt)
    ]
  ]
