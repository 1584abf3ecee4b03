-- ===== src/Acme/Run/Outcome.antt =====
-- What the runs of Acme/Run come to.
use ca_extension_mtc_playgro.Bytes.{be}
use ca_extension_mtc_playgro.Prelude.{◌≡◌, refl, [], ◌∷◌, true, none, some, length}
use ca_extension_mtc_playgro.Prelude.Result.{ok}
use ca_extension_mtc_playgro.Acme.Tables.{ready, valid}
use ca_extension_mtc_playgro.Acme.Nonce.{new_nonce}
use ca_extension_mtc_playgro.Acme.System.Drain.{drain}
use ca_extension_mtc_playgro.Bytes.{bytes_eq, un_be, le}
use ca_extension_mtc_playgro.Acme.Rows.{find, select, update, exists}
use ca_extension_mtc_playgro.Acme.Tables.{status_number, status_eq}
use ca_extension_mtc_playgro.Acme.Statements.{
  create_account, get_account, get_account_by_thumbprint, insert_order, insert_authzs,
  insert_challenges, create_order, get_order, set_column, set_columns, update_order_status,
  set_order_final_cert_der, get_authz, list_authzs_by_order, update_authz_status, get_challenge,
  update_challenge_status,
}
use ca_extension_mtc_playgro.Acme.Nonce.{delete, consume_nonce}
use ca_extension_mtc_playgro.Acme.Jws.{
  decoded, has_slash, after_last_slash, signing_input, parse_rsa_jwk, parse_jwk, verify_signature,
  parse_jws, key_of_account, key_of_header, check_jws, verify_jws,
}
use ca_extension_mtc_playgro.Acme.Outside.{new_id, canonical_jwk, jwk_thumbprint}
use ca_extension_mtc_playgro.Acme.Handlers.Register.{
  authz_url, cert_url, is_wildcard, new_account_request, look_for_account, insert_account, all_dns,
  make_authzs, make_challenges, make_order, new_order_request, urls_of, insert_whole_order,
  show_urls,
}
use ca_extension_mtc_playgro.Acme.Handlers.Validate.{
  disallowed, all_allowed, is_allowed_http_01_target, answers_http_01, perform_http_01,
  key_authorization, challenge_request, validate_challenge, pass_challenge, find_challenge_authz,
  mark_authz_valid, all_valid, look_at_authzs, make_order_ready,
}
use ca_extension_mtc_playgro.Acme.Handlers.Finalize.{
  has_name, csr_names, covers, check_csr, finalize_request, start_processing, start_mtc,
  choose_issuer, append_to_log, make_checkpoint, serial_of, keep_certificate, finish_order,
}
use ca_extension_mtc_playgro.Acme.System.{requires_kid, handle, receive, resume}
use ca_extension_mtc_playgro.Log.{
  at_index, max_level, require, double_below, level_nodes, recompute_levels, recompute_interior,
  append_direct_entry, compute_root_hash,
}
use ca_extension_mtc_playgro.Log.Tables.{
  tree_size, has_index, append_entry, get_tree_node, set_tree_node, set_tree_nodes,
}
use ca_extension_mtc_playgro.Log.Checkpoint.{build_mtc_entry, create_checkpoint}
use ca_extension_mtc_playgro.Format.Entry.{marshal_entry}
use ca_extension_mtc_playgro.Merkle.Hash.{split_point, leaf_hash, interior_hash}
use ca_extension_mtc_playgro.Acme.Tables.{processing}
use ca_extension_mtc_playgro.Acme.Thread.{prove, mtc, list_urls}
use ca_extension_mtc_playgro.Merkle.Nodes.{inclusion_proof_from_nodes}
use ca_extension_mtc_playgro.Acme.System.Sound.{has_been_ready}
use ca_extension_mtc_playgro.Acme.System.Authorised.{certifies}
use ca_extension_mtc_playgro.Acme.Thread.{challenge_valid, begin_final}
use ca_extension_mtc_playgro.Acme.Handlers.Finalize.{certify, signed_certificate}
use ca_extension_mtc_playgro.Merkle.Nodes.{inclusion_from_nodes_rec, subtree_hash_from_nodes}
use ca_extension_mtc_playgro.Prelude.Pow.{bit_len}
use ca_extension_mtc_playgro.Acme.Run.{
  itself, codec, name, csr, at, registered, ordered, proved, finalized, ready_order_row, logged,
  saved, header_of, jws_row, account_row, challenge_row, asking, answering, statuses, issued,
  ready_again,
}

-- What the runs come to. Of the last two, an order that was valid is ready again.
pub run_lem :
    (proved.shared.db.orders ≡ ready_order_row ∷ [])
    × (finalized.threads
        ≡ prove (200 ∷ []) csr (name ∷ []) mtc logged 1 saved
          ∷ list_urls (record ready_order_row { status = processing })
          ∷ [])
    × (length finalized.shared.log.entries ≡ 2)
    × (parse_jws itself codec (1 ∷ []) ≡ ok (jws_row, header_of 1))
    × ((verify_jws itself codec 200
          (2 ∷ [])
          (2 ∷ [])
          true
          (new_nonce (2 ∷ []) 200 (λ n. none))
          registered.shared.db).0
        ≡ ok (header_of 2, 2 ∷ [], some account_row))
    × ((validate_challenge asking answering challenge_row account_row ordered.shared).threads
        ≡ challenge_valid challenge_row 300 ∷ [])
    × ((finalize_request (at 400) (200 ∷ []) (4 ∷ []) account_row proved.shared).threads
        ≡ begin_final ready_order_row csr (4 ∷ []) ∷ [])
    × (statuses issued ≡ valid ∷ [])
    × (statuses ready_again ≡ ready ∷ [])
unfolding bytes_eq be un_be le find select update exists status_number status_eq create_account
    get_account get_account_by_thumbprint insert_order insert_authzs insert_challenges create_order
    get_order set_column set_columns update_order_status set_order_final_cert_der get_authz
    list_authzs_by_order update_authz_status get_challenge update_challenge_status delete new_nonce
    consume_nonce decoded has_slash after_last_slash signing_input parse_rsa_jwk parse_jwk
    verify_signature parse_jws key_of_account key_of_header check_jws verify_jws new_id
    canonical_jwk jwk_thumbprint authz_url cert_url is_wildcard new_account_request look_for_account
    insert_account all_dns make_authzs make_challenges make_order new_order_request urls_of
    insert_whole_order show_urls disallowed all_allowed is_allowed_http_01_target answers_http_01
    perform_http_01 key_authorization challenge_request validate_challenge pass_challenge
    find_challenge_authz mark_authz_valid all_valid look_at_authzs make_order_ready has_name
    csr_names covers check_csr finalize_request start_processing start_mtc choose_issuer
    append_to_log make_checkpoint serial_of keep_certificate finish_order requires_kid handle
    receive resume drain at_index max_level require double_below level_nodes recompute_levels
    recompute_interior append_direct_entry compute_root_hash tree_size has_index append_entry
    get_tree_node set_tree_node set_tree_nodes build_mtc_entry create_checkpoint marshal_entry
    split_point leaf_hash interior_hash certify inclusion_proof_from_nodes inclusion_from_nodes_rec
    subtree_hash_from_nodes signed_certificate bit_len
run_lem = (refl, refl, refl, refl, refl, refl, refl, refl, refl)

pub was_ready : has_been_ready ready ≡ true
unfolding has_been_ready
was_ready = refl

pub makes :
    certifies (prove (200 ∷ []) csr (name ∷ []) mtc logged 1 saved) ≡ some (200 ∷ [], name ∷ [])
unfolding certifies
makes = refl
