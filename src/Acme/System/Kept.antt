-- ===== src/Acme/System/Kept.antt =====
-- Every access of a thread, on a well-formed log.
use mathlib.Core.Path.{subst}
use ca_extension_mtc_playgro.Prelude.{
  ◌^◌, ◌≤◌, ◌≡◌, refl, sym, ap, List, [], ◌∷◌, true, false, All, length, Bool-cases, inl, inr,
  length-append, arith,
}
use ca_extension_mtc_playgro.Prelude.Result.{◌>>=◌}
use ca_extension_mtc_playgro.Bytes.{Bytes}
use ca_extension_mtc_playgro.Log.{at_index, append_direct_entry}
use ca_extension_mtc_playgro.Log.Tables.{LogEntry, Store, tree_size, has_index, append_entry}
use ca_extension_mtc_playgro.Log.WellFormed.{IsLog}
use ca_extension_mtc_playgro.Acme.Tables.{Identifier}
use ca_extension_mtc_playgro.Acme.Outside.{Config, Outside, Csr}
use ca_extension_mtc_playgro.Acme.Thread.{
  Thread, Kind, Shared, Stepped, received, find_account, add_account, add_order, read_order,
  list_urls, read_authz, list_challenges, read_challenge, validate, challenge_valid,
  challenge_invalid, find_authz, mark_authz, list_authzs, ready_order, read_final, begin_final,
  process_finalize, append, checkpoint, prove, store_cert, proxied, poll, read_bundle, finish,
  read_certificate, load_certificate,
}
use ca_extension_mtc_playgro.Acme.System.{resume}
use ca_extension_mtc_playgro.Acme.Handlers.Finalize.{append_to_log, make_checkpoint}
use ca_extension_mtc_playgro.Acme.System.Placed.{
  Rests, Grown-refl, Kept, append_to_log-Kept, make_checkpoint-Kept,
}
use ca_extension_mtc_playgro.Acme.System.Quiet.{
  carefree, writes_log, all_carefree, Quiet, resume-Quiet,
}

-- No access takes an entry from the log, whatever the log holds.
append_to_log_le :
    (o : Outside) (id : Bytes) (csr : Csr) (is : List Identifier) (kind : Kind) (entry : LogEntry)
    (s : Shared)
    → length s.log.entries ≤ length (append_to_log o id csr is kind entry s).shared.log.entries
unfolding append_to_log append_direct_entry append_entry
append_to_log_le o id csr is kind entry s =
    elim (Bool-cases (has_index (at_index (tree_size s.log.entries) entry).index s.log.entries)) [
      | inl there ↦
          rw (append_to_log, append_direct_entry, append_entry, there, ◌>>=◌) (omega arith)
      | inr fresh ↦
          rw (append_to_log, append_direct_entry, append_entry, fresh, ◌>>=◌)
            (omega
              (arith, length-append s.log.entries (at_index (tree_size s.log.entries) entry ∷ [])))
    ]

still_le :
    (cfg : Config) (o : Outside) (s : Shared) (t : Thread)
    → writes_log t ≡ false
    → length s.log.entries ≤ length (resume cfg o t s).shared.log.entries
unfolding Quiet
still_le cfg o s t h =
    omega (arith, ap (λ (l : Store). length l.entries) (resume-Quiet cfg o s t h).0)

pub resume_le :
    (cfg : Config) (o : Outside) (t : Thread) (s : Shared)
    → length s.log.entries ≤ length (resume cfg o t s).shared.log.entries
unfolding resume make_checkpoint writes_log
resume_le cfg o (append id csr is kind entry) s = append_to_log_le o id csr is kind entry s
resume_le cfg o (checkpoint id csr is kind entry index) s = ground arith
resume_le cfg o (received r) s = still_le cfg o s (received r) refl
resume_le cfg o (find_account header request thumbprint) s =
    still_le cfg o s (find_account header request thumbprint) refl
resume_le cfg o (add_account a) s = still_le cfg o s (add_account a) refl
resume_le cfg o (add_order x authzs challenges) s =
    still_le cfg o s (add_order x authzs challenges) refl
resume_le cfg o (read_order id) s = still_le cfg o s (read_order id) refl
resume_le cfg o (list_urls x) s = still_le cfg o s (list_urls x) refl
resume_le cfg o (read_authz id) s = still_le cfg o s (read_authz id) refl
resume_le cfg o (list_challenges a) s = still_le cfg o s (list_challenges a) refl
resume_le cfg o (read_challenge id account) s = still_le cfg o s (read_challenge id account) refl
resume_le cfg o (validate ch account) s = still_le cfg o s (validate ch account) refl
resume_le cfg o (challenge_valid ch now) s = still_le cfg o s (challenge_valid ch now) refl
resume_le cfg o (challenge_invalid ch) s = still_le cfg o s (challenge_invalid ch) refl
resume_le cfg o (find_authz ch) s = still_le cfg o s (find_authz ch) refl
resume_le cfg o (mark_authz a) s = still_le cfg o s (mark_authz a) refl
resume_le cfg o (list_authzs a) s = still_le cfg o s (list_authzs a) refl
resume_le cfg o (ready_order id) s = still_le cfg o s (ready_order id) refl
resume_le cfg o (read_final id payload account) s =
    still_le cfg o s (read_final id payload account) refl
resume_le cfg o (begin_final x csr pem) s = still_le cfg o s (begin_final x csr pem) refl
resume_le cfg o (process_finalize id csr pem is) s =
    still_le cfg o s (process_finalize id csr pem is) refl
resume_le cfg o (prove id csr is kind entry index cp) s =
    still_le cfg o s (prove id csr is kind entry index cp) refl
resume_le cfg o (store_cert id is serial der) s =
    still_le cfg o s (store_cert id is serial der) refl
resume_le cfg o (proxied id is serial) s = still_le cfg o s (proxied id is serial) refl
resume_le cfg o (poll id is serial) s = still_le cfg o s (poll id is serial) refl
resume_le cfg o (read_bundle id is serial index) s =
    still_le cfg o s (read_bundle id is serial index) refl
resume_le cfg o (finish id status columns) s = still_le cfg o s (finish id status columns) refl
resume_le cfg o (read_certificate id account) s =
    still_le cfg o s (read_certificate id account) refl
resume_le cfg o (load_certificate x) s = still_le cfg o s (load_certificate x) refl

module _ (sha256 : Bytes → Bytes) where
  carefree-Rests : (s : Shared) (t : Thread) → carefree t ≡ true → Rests sha256 t s
  unfolding carefree Rests
  carefree-Rests s (checkpoint id csr is kind entry index) h = cc
  carefree-Rests s (prove id csr is kind entry index cp) h = cc
  carefree-Rests s _ h = tt

  all_carefree-Rests :
      (s : Shared) (ts : List Thread) → all_carefree ts ≡ true → All (λ t. Rests sha256 t s) ts
  unfolding all_carefree
  all_carefree-Rests s [] h = tt
  all_carefree-Rests s (t ∷ ts) h = elim (Bool-cases (carefree t)) [
    | inl free ↦ (carefree-Rests s t free, all_carefree-Rests s ts (rw (all_carefree, free) at h))
    | inr bound ↦ cc (rw (all_carefree, bound) at h)
  ]

  Quiet-Kept : (s : Shared) (r : Stepped) → IsLog sha256 s.log → Quiet s r → Kept sha256 s r
  unfolding Quiet
  Quiet-Kept s r is_log quiet = record {
    is_log = subst (IsLog sha256) (sym quiet.0) is_log;
    grown = Grown-refl sha256 s r.shared quiet.0 quiet.1;
    rests = all_carefree-Rests r.shared r.threads quiet.2;
  }

  pub resume-Kept :
      (cfg : Config) (o : Outside)
      → o.sha256 ≡ sha256
      → (s : Shared) (t : Thread) → IsLog sha256 s.log
      → length s.log.entries ≤ 2 ^ 63
      → Rests sha256 t s
      → Kept sha256 s (resume cfg o t s)
  unfolding resume Rests writes_log
  resume-Kept cfg o same s (append id csr is kind entry) is_log fits rests =
      append_to_log-Kept sha256 o same s is_log id csr is kind entry
  resume-Kept cfg o same s (checkpoint id csr is kind entry index) is_log fits rests =
      make_checkpoint-Kept sha256 o same s is_log id csr is kind entry index fits rests
  resume-Kept cfg o same s (received r) is_log fits rests =
      Quiet-Kept s _ is_log (resume-Quiet cfg o s (received r) refl)
  resume-Kept cfg o same s (find_account header request thumbprint) is_log fits rests =
      Quiet-Kept s _ is_log (resume-Quiet cfg o s (find_account header request thumbprint) refl)
  resume-Kept cfg o same s (add_account a) is_log fits rests =
      Quiet-Kept s _ is_log (resume-Quiet cfg o s (add_account a) refl)
  resume-Kept cfg o same s (add_order x authzs challenges) is_log fits rests =
      Quiet-Kept s _ is_log (resume-Quiet cfg o s (add_order x authzs challenges) refl)
  resume-Kept cfg o same s (read_order id) is_log fits rests =
      Quiet-Kept s _ is_log (resume-Quiet cfg o s (read_order id) refl)
  resume-Kept cfg o same s (list_urls x) is_log fits rests =
      Quiet-Kept s _ is_log (resume-Quiet cfg o s (list_urls x) refl)
  resume-Kept cfg o same s (read_authz id) is_log fits rests =
      Quiet-Kept s _ is_log (resume-Quiet cfg o s (read_authz id) refl)
  resume-Kept cfg o same s (list_challenges a) is_log fits rests =
      Quiet-Kept s _ is_log (resume-Quiet cfg o s (list_challenges a) refl)
  resume-Kept cfg o same s (read_challenge id account) is_log fits rests =
      Quiet-Kept s _ is_log (resume-Quiet cfg o s (read_challenge id account) refl)
  resume-Kept cfg o same s (validate ch account) is_log fits rests =
      Quiet-Kept s _ is_log (resume-Quiet cfg o s (validate ch account) refl)
  resume-Kept cfg o same s (challenge_valid ch now) is_log fits rests =
      Quiet-Kept s _ is_log (resume-Quiet cfg o s (challenge_valid ch now) refl)
  resume-Kept cfg o same s (challenge_invalid ch) is_log fits rests =
      Quiet-Kept s _ is_log (resume-Quiet cfg o s (challenge_invalid ch) refl)
  resume-Kept cfg o same s (find_authz ch) is_log fits rests =
      Quiet-Kept s _ is_log (resume-Quiet cfg o s (find_authz ch) refl)
  resume-Kept cfg o same s (mark_authz a) is_log fits rests =
      Quiet-Kept s _ is_log (resume-Quiet cfg o s (mark_authz a) refl)
  resume-Kept cfg o same s (list_authzs a) is_log fits rests =
      Quiet-Kept s _ is_log (resume-Quiet cfg o s (list_authzs a) refl)
  resume-Kept cfg o same s (ready_order id) is_log fits rests =
      Quiet-Kept s _ is_log (resume-Quiet cfg o s (ready_order id) refl)
  resume-Kept cfg o same s (read_final id payload account) is_log fits rests =
      Quiet-Kept s _ is_log (resume-Quiet cfg o s (read_final id payload account) refl)
  resume-Kept cfg o same s (begin_final x csr pem) is_log fits rests =
      Quiet-Kept s _ is_log (resume-Quiet cfg o s (begin_final x csr pem) refl)
  resume-Kept cfg o same s (process_finalize id csr pem is) is_log fits rests =
      Quiet-Kept s _ is_log (resume-Quiet cfg o s (process_finalize id csr pem is) refl)
  resume-Kept cfg o same s (prove id csr is kind entry index cp) is_log fits rests =
      Quiet-Kept s _ is_log (resume-Quiet cfg o s (prove id csr is kind entry index cp) refl)
  resume-Kept cfg o same s (store_cert id is serial der) is_log fits rests =
      Quiet-Kept s _ is_log (resume-Quiet cfg o s (store_cert id is serial der) refl)
  resume-Kept cfg o same s (proxied id is serial) is_log fits rests =
      Quiet-Kept s _ is_log (resume-Quiet cfg o s (proxied id is serial) refl)
  resume-Kept cfg o same s (poll id is serial) is_log fits rests =
      Quiet-Kept s _ is_log (resume-Quiet cfg o s (poll id is serial) refl)
  resume-Kept cfg o same s (read_bundle id is serial index) is_log fits rests =
      Quiet-Kept s _ is_log (resume-Quiet cfg o s (read_bundle id is serial index) refl)
  resume-Kept cfg o same s (finish id status columns) is_log fits rests =
      Quiet-Kept s _ is_log (resume-Quiet cfg o s (finish id status columns) refl)
  resume-Kept cfg o same s (read_certificate id account) is_log fits rests =
      Quiet-Kept s _ is_log (resume-Quiet cfg o s (read_certificate id account) refl)
  resume-Kept cfg o same s (load_certificate x) is_log fits rests =
      Quiet-Kept s _ is_log (resume-Quiet cfg o s (load_certificate x) refl)
