-- ===== src/Acme/System/Keeps/Validated.antt =====
-- The accesses that answer a challenge.
use mathlib.Core.List.{Memᴰ}
use mathlib.Core.List.Memᴰ
use mathlib.Core.Path.{subst}
use ca_extension_mtc_playgro.Prelude.{
  ℕ, ◌≡◌, refl, sym, ap, ◌∙◌, List, [], ◌∷◌, true, ◌||◌, Bool-cases, Option-cases, ◌⊎◌, inl, inr,
}
use ca_extension_mtc_playgro.Bytes.{Bytes, bytes_eq, bytes_eq→eq, bytes_eq_refl}
use ca_extension_mtc_playgro.Acme.Rows.Members.{find-Mem, Mem-select}
use ca_extension_mtc_playgro.Acme.Tables.{
  ready, valid, invalid, status_eq, status_eq→eq, Account, Authorization, Challenge,
}
use ca_extension_mtc_playgro.Acme.Statements.{
  authz_is, authz_of, get_challenge, get_authz, list_authzs_by_order, update_challenge_status,
}
use ca_extension_mtc_playgro.Acme.Outside.{Config, Outside}
use ca_extension_mtc_playgro.Acme.Thread.{Shared}
use ca_extension_mtc_playgro.Acme.Handlers.Validate.{
  perform_http_01, key_authorization, challenge_request, validate_challenge, fail_challenge,
  pass_challenge, find_challenge_authz, mark_authz_valid, all_valid, look_at_authzs,
  make_order_ready,
}
use ca_extension_mtc_playgro.Acme.System.Sound.{
  HasOrder, HasAuthz, Granted, AllValid, Sound, Relies, Good,
}
use ca_extension_mtc_playgro.Acme.System.Updates.{
  update_order_status-Later, update_order_status-Sound, update_authz_status-Later,
  update_authz_status-Sound, update_authz_status-Granted,
}
use ca_extension_mtc_playgro.Acme.System.Keeps.{unmoved, other_tables-Sound, other_tables-Later}

-- The loop passes over an authorization only if it is the one just marked.
all_valid-Mem :
    (id : Bytes) (rows : List Authorization) (a : Authorization)
    → all_valid id rows ≡ true
    → Memᴰ a rows
    → (a.id ≡ id) ⊎ (a.status ≡ valid)
unfolding all_valid
all_valid-Mem id [] a h m = absurd (Memᴰ.not-nil m)
all_valid-Mem id (x ∷ rest) a h (Memᴰ.head e) = elim (Bool-cases (bytes_eq x.id id)) [
  | inl same ↦ inl (ap (λ (y : Authorization). y.id) e ∙ bytes_eq→eq x.id id same)
  | inr other ↦ elim (Bool-cases (status_eq x.status valid)) [
    | inl is ↦ inr (ap (λ (y : Authorization). y.status) e ∙ status_eq→eq x.status valid is)
    | inr not_valid ↦ cc (rw (all_valid, other, not_valid) at h)
  ]
]
all_valid-Mem id (x ∷ rest) a h (Memᴰ.tail m) =
    elim (Bool-cases (bytes_eq x.id id || status_eq x.status valid)) [
      | inl fine ↦ all_valid-Mem id rest a (rw (all_valid, fine) at h) m
      | inr bad ↦ cc (rw (all_valid, bad) at h)
    ]

module _ (s : Shared) (sound : Sound s.db) where
  pub challenge_request-Good :
      (id : Bytes) (account : Account) → Good s.db (challenge_request id account s)
  unfolding challenge_request Relies
  challenge_request-Good id account = elim (Option-cases (get_challenge id s.db)) [
    | inl e ↦ rw (challenge_request, e) (unmoved sound tt)
    | inr (ch, e) ↦ elim (Bool-cases (status_eq ch.status valid || status_eq ch.status invalid)) [
      | inl done ↦ rw (challenge_request, e, done) (unmoved sound tt)
      | inr waits ↦ rw (challenge_request, e, waits) (unmoved sound (tt, tt))
    ]
  ]

  pub validate_challenge-Good :
      (cfg : Config) (o : Outside) (ch : Challenge) (account : Account)
      → Good s.db (validate_challenge cfg o ch account s)
  unfolding validate_challenge Relies
  validate_challenge-Good cfg o ch account = elim (Bool-cases cfg.auto_approve_challenge) [
    | inl auto ↦ rw (validate_challenge, auto) (unmoved sound (tt, tt))
    | inr asked ↦
        elim (Bool-cases (
          perform_http_01 o (get_authz ch.authz_id s.db) ch.token
            (key_authorization o ch.token account))) [
              | inl right ↦ rw (validate_challenge, asked, right) (unmoved sound (tt, tt))
              | inr wrong ↦ rw (validate_challenge, asked, wrong) (unmoved sound (tt, tt))
            ]
  ]

  pub fail_challenge-Good : (o : Outside) (ch : Challenge) → Good s.db (fail_challenge o ch s)
  unfolding fail_challenge update_challenge_status
  fail_challenge-Good o ch = record {
    sound = other_tables-Sound sound;
    later = other_tables-Later;
    relied = tt;
  }

  pub pass_challenge-Good : (ch : Challenge) (now : ℕ) → Good s.db (pass_challenge ch now s)
  unfolding pass_challenge update_challenge_status Relies
  pass_challenge-Good ch now = record {
    sound = other_tables-Sound sound;
    later = other_tables-Later;
    relied = (tt, tt);
  }

  pub find_challenge_authz-Good : (ch : Challenge) → Good s.db (find_challenge_authz ch s)
  unfolding find_challenge_authz get_authz Relies
  find_challenge_authz-Good ch = elim (Option-cases (get_authz ch.authz_id s.db)) [
    | inl e ↦ rw (find_challenge_authz, e) (unmoved sound tt)
    | inr (a, e) ↦
        let (at, is) = find-Mem (authz_is ch.authz_id) s.db.authzs a e in
        rw (find_challenge_authz, e) (unmoved sound (((a, at, refl), sound.referenced a at), tt))
  ]

  pub mark_authz_valid-Good :
      (a : Authorization)
      → HasAuthz a.id s.db × HasOrder a.order_id s.db
      → Good s.db (mark_authz_valid a s)
  unfolding mark_authz_valid Relies
  mark_authz_valid-Good a there =
      let later = update_authz_status-Later a.id s.db in
      record {
        sound = update_authz_status-Sound a.id s.db sound;
        later = later;
        relied = (
          (
            later.has_authz a.id there.0,
            later.has_order a.order_id there.1,
            update_authz_status-Granted a.id s.db,
          ),
          tt,
        );
      }

  pub look_at_authzs-Good :
      (a : Authorization)
      → HasAuthz a.id s.db × HasOrder a.order_id s.db × Granted a.id s.db
      → Good s.db (look_at_authzs a s)
  unfolding look_at_authzs list_authzs_by_order Relies
  look_at_authzs-Good a there =
      elim (Bool-cases (all_valid a.id (list_authzs_by_order a.order_id s.db))) [
        | inr not_all ↦ rw (look_at_authzs, not_all) (unmoved sound tt)
        | inl all ↦ rw (look_at_authzs, all) (unmoved sound ((there.1, every all), tt))
      ]
    where
      every :
          all_valid a.id (list_authzs_by_order a.order_id s.db) ≡ true → AllValid a.order_id s.db
      every all b at own =
          let listed =
            Mem-select (authz_of a.order_id) s.db.authzs b at
              (subst (λ x. bytes_eq x a.order_id ≡ true) (sym own) (bytes_eq_refl a.order_id)) in
          elim (all_valid-Mem a.id (list_authzs_by_order a.order_id s.db) b all listed) [
            | inl same ↦ there.2 b at same
            | inr is ↦ is
          ]

  pub make_order_ready-Good :
      (id : Bytes) → HasOrder id s.db × AllValid id s.db → Good s.db (make_order_ready id s)
  unfolding make_order_ready
  make_order_ready-Good id there = record {
    sound = update_order_status-Sound id ready [] s.db sound (λ been. there.1);
    later = update_order_status-Later id ready [] s.db;
    relied = tt;
  }
