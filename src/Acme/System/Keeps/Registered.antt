-- ===== src/Acme/System/Keeps/Registered.antt =====
-- The accesses that make and show accounts and orders.
use mathlib.Core.List.{Memᴰ}
use mathlib.Core.List.Memᴰ
use ca_extension_mtc_playgro.Prelude.{
  ℕ, ◌+◌, ◌≡◌, refl, sym, ap, List, [], ◌∷◌, false, not, ◌||◌, Bool-cases, Option, none, some,
  Option-cases, inl, inr, length, ◌==◌, if◌then◌else◌,
}
use ca_extension_mtc_playgro.Prelude.Result.{Result, ok, err, panic, stuck, ◌>>=◌}
use ca_extension_mtc_playgro.Bytes.{Bytes, bytes_eq}
use ca_extension_mtc_playgro.Acme.Rows.{exists}
use ca_extension_mtc_playgro.Acme.Tables.{Identifier, Account, Order, Authorization, Challenge, Db}
use ca_extension_mtc_playgro.Acme.Statements.{
  DbError, account_is, get_account_by_thumbprint, create_account, create_order, get_order,
  get_authz,
}
use ca_extension_mtc_playgro.Acme.Jws.{JwsHeader, JwsError}
use ca_extension_mtc_playgro.Acme.Outside.{Config, Outside, AccountRequest, jwk_thumbprint}
use ca_extension_mtc_playgro.Acme.Thread.{Shared}
use ca_extension_mtc_playgro.Acme.Handlers.Register.{
  new_account_request, look_for_account, insert_account, all_dns, make_authzs, make_order,
  new_order_request, insert_whole_order, show_order, show_urls, show_authz, show_challenges,
}
use ca_extension_mtc_playgro.Acme.System.Sound.{Covered, Sound, Planned, Relies, Good}
use ca_extension_mtc_playgro.Acme.System.Created.{
  create_order_lem, create_order-Later, create_order-Sound,
}
use ca_extension_mtc_playgro.Acme.System.Keeps.{unmoved, other_tables-Sound, other_tables-Later}

make_authzs-own :
    (o : Outside) (order_id : Bytes) (expires n : ℕ) (is : List Identifier) (a : Authorization)
    → Memᴰ a (make_authzs o order_id expires n is)
    → a.order_id ≡ order_id
unfolding make_authzs
make_authzs-own o order_id expires n [] a m = absurd (Memᴰ.not-nil m)
make_authzs-own o order_id expires n (i ∷ is) a (Memᴰ.head e) =
    ap (λ (x : Authorization). x.order_id) e
make_authzs-own o order_id expires n (i ∷ is) a (Memᴰ.tail m) =
    make_authzs-own o order_id expires (n + 4) is a m

make_authzs-Covered :
    (o : Outside) (order_id : Bytes) (expires n : ℕ) (is : List Identifier)
    → Covered order_id is (make_authzs o order_id expires n is)
unfolding make_authzs
make_authzs-Covered o order_id expires n [] i m = absurd (Memᴰ.not-nil m)
make_authzs-Covered o order_id expires n (x ∷ is) i (Memᴰ.head e) = (_, Memᴰ.head refl, refl, sym e)
make_authzs-Covered o order_id expires n (x ∷ is) i (Memᴰ.tail m) =
    let (a, at, own, name) = make_authzs-Covered o order_id expires (n + 4) is i m in
    (a, Memᴰ.tail at, own, name)

pub make_order-Planned :
    (cfg : Config) (o : Outside) (account : Account) (is : List Identifier)
    → Planned
        (make_order cfg o account is)
        (make_authzs o (make_order cfg o account is).id (make_order cfg o account is).expires 2 is)
unfolding make_order
make_order-Planned cfg o account is = record {
  fresh = refl;
  own =
      make_authzs-own o (make_order cfg o account is).id (make_order cfg o account is).expires 2 is;
  names =
      make_authzs-Covered o (make_order cfg o account is).id (make_order cfg o account is).expires 2
        is;
}

module _ (s : Shared) (sound : Sound s.db) where
  pub new_account_request-Good :
      (o : Outside) (header : JwsHeader) (payload : Bytes)
      → Good s.db (new_account_request o header payload s)
  unfolding new_account_request Relies
  new_account_request-Good o header payload =
      parsed
        (if length payload == 0
          then some (record { contact = []; only_return_existing = false })
          else o.account_request payload)
        refl
    where
      keyed :
          (request : AccountRequest) (t : Result JwsError Bytes)
          → (if length payload == 0
              then some (record { contact = []; only_return_existing = false })
              else o.account_request payload)
            ≡ some request
          → jwk_thumbprint o header.jwk ≡ t
          → Good s.db (new_account_request o header payload s)
      keyed request (ok thumbprint) e h = rw (new_account_request, e, h) (unmoved sound (tt, tt))
      keyed request (err x) e h = rw (new_account_request, e, h) (unmoved sound tt)
      keyed request panic e h = rw (new_account_request, e, h) (unmoved sound tt)
      keyed request stuck e h = rw (new_account_request, e, h) (unmoved sound tt)

      parsed :
          (p : Option AccountRequest)
          → (if length payload == 0
              then some (record { contact = []; only_return_existing = false })
              else o.account_request payload)
            ≡ p
          → Good s.db (new_account_request o header payload s)
      parsed none e = rw (new_account_request, e) (unmoved sound tt)
      parsed (some request) e = keyed request (jwk_thumbprint o header.jwk) e refl

  pub look_for_account-Good :
      (o : Outside) (header : JwsHeader) (request : AccountRequest) (thumbprint : Bytes)
      → Good s.db (look_for_account o header request thumbprint s)
  unfolding look_for_account Relies
  look_for_account-Good o header request thumbprint =
      elim (Option-cases (get_account_by_thumbprint thumbprint s.db)) [
        | inr (existing, e) ↦ rw (look_for_account, e) (unmoved sound tt)
        | inl e ↦ elim (Bool-cases request.only_return_existing) [
          | inl only ↦ rw (look_for_account, e, only) (unmoved sound tt)
          | inr also ↦ rw (look_for_account, e, also) (unmoved sound (tt, tt))
        ]
      ]

  pub insert_account-Good : (account : Account) → Good s.db (insert_account account s)
  unfolding insert_account create_account
  insert_account-Good account =
      elim (Bool-cases (
        exists (account_is account.id) s.db.accounts
        || exists (λ b. bytes_eq b.key_thumbprint account.key_thumbprint) s.db.accounts)) [
          | inl used ↦ rw (insert_account, create_account, used, ◌>>=◌) (unmoved sound tt)
          | inr unused ↦
              rw (insert_account, create_account, unused, ◌>>=◌)
                (record {
                  sound = other_tables-Sound sound;
                  later = other_tables-Later;
                  relied = tt;
                })
        ]

  pub new_order_request-Good :
      (cfg : Config) (o : Outside) (account : Account) (payload : Bytes)
      → Good s.db (new_order_request cfg o account payload s)
  unfolding new_order_request Relies
  new_order_request-Good cfg o account payload = elim (Option-cases (o.order_request payload)) [
    | inl e ↦ rw (new_order_request, e) (unmoved sound tt)
    | inr (is, e) ↦ elim (Bool-cases (length is == 0)) [
      | inl empty ↦ rw (new_order_request, e, empty) (unmoved sound tt)
      | inr named ↦ elim (Bool-cases (not (all_dns is))) [
        | inl other ↦ rw (new_order_request, e, named, other) (unmoved sound tt)
        | inr dns ↦
            rw (new_order_request, e, named, dns)
              (unmoved sound (make_order-Planned cfg o account is, tt))
      ]
    ]
  ]

  pub insert_whole_order-Good :
      (cfg : Config) (order : Order) (authzs : List Authorization) (challenges : List Challenge)
      → Planned order authzs
      → Good s.db (insert_whole_order cfg order authzs challenges s)
  unfolding insert_whole_order
  insert_whole_order-Good cfg order authzs challenges planned =
      go (create_order order authzs challenges s.db) refl
    where
      go :
          (r : Result DbError Db)
          → create_order order authzs challenges s.db ≡ r
          → Good s.db (insert_whole_order cfg order authzs challenges s)
      go (ok db) e =
          let added = create_order_lem order authzs challenges s.db db e in
          rw (insert_whole_order, e)
            (record {
              sound = create_order-Sound order authzs s.db db added planned sound;
              later = create_order-Later order authzs s.db db added planned;
              relied = tt;
            })
      go (err x) e = rw (insert_whole_order, e) (unmoved sound tt)
      go panic e = rw (insert_whole_order, e) (unmoved sound tt)
      go stuck e = rw (insert_whole_order, e) (unmoved sound tt)

  pub show_order-Good : (id : Bytes) → Good s.db (show_order id s)
  unfolding show_order Relies
  show_order-Good id = elim (Option-cases (get_order id s.db)) [
    | inl e ↦ rw (show_order, e) (unmoved sound tt)
    | inr (x, e) ↦ rw (show_order, e) (unmoved sound (tt, tt))
  ]

  pub show_urls-Good : (cfg : Config) (order : Order) → Good s.db (show_urls cfg order s)
  unfolding show_urls
  show_urls-Good cfg order = unmoved sound tt

  pub show_authz-Good : (id : Bytes) → Good s.db (show_authz id s)
  unfolding show_authz Relies
  show_authz-Good id = elim (Option-cases (get_authz id s.db)) [
    | inl e ↦ rw (show_authz, e) (unmoved sound tt)
    | inr (x, e) ↦ rw (show_authz, e) (unmoved sound (tt, tt))
  ]

  pub show_challenges-Good : (a : Authorization) → Good s.db (show_challenges a s)
  unfolding show_challenges
  show_challenges-Good a = unmoved sound tt
