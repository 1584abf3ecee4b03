-- ===== src/Acme/System/Created.antt =====
-- `CreateACMEOrder` on sound tables: the rows it adds are new ones, and the order is pending.
use mathlib.Core.List.{Memᴰ}
use mathlib.Core.List.Memᴰ
use mathlib.Core.Path.{subst}
use mathlib.Core.List.{append_assoc, append-nil}
use ca_extension_mtc_playgro.Prelude.{
  ◌≡◌, refl, sym, ap, ◌∙◌, List, [], ◌∷◌, ◌++◌, Bool, true, false, not, Bool-cases, ◌⊎◌, inl, inr,
}
use ca_extension_mtc_playgro.Prelude.Result.{Result, ok, ◌>>=◌, ◌>>◌, reject, >>=-eq-ok, ok_inj}
use ca_extension_mtc_playgro.Bytes.{Bytes, bytes_eq, bytes_eq_refl}
use ca_extension_mtc_playgro.Acme.Rows.{exists}
use ca_extension_mtc_playgro.Acme.Rows.Members.{Mem-exists}
use ca_extension_mtc_playgro.Acme.Tables.{pending, Identifier, Order, Authorization, Challenge, Db}
use ca_extension_mtc_playgro.Acme.Statements.{
  duplicate_key, no_reference, account_is, order_is, authz_is, challenge_is, insert_order,
  insert_authzs, insert_challenges, create_order,
}
use ca_extension_mtc_playgro.Acme.System.Sound.{
  has_been_ready, HasOrder, HasAuthz, AllValid, Covered, Sound, Planned, Later,
}

reject-ok :
    {E A : Type 0} (b : Bool) (e : E) (next : Result E A) (a : A)
    → (reject b e >> next) ≡ ok a
    → (b ≡ false) × (next ≡ ok a)
reject-ok true e next a h = cc
reject-ok false e next a h = (refl, h)

exists_append :
    {A : Type 0} (p : A → Bool) (xs ys : List A) → exists p (xs ++ ys) ≡ false → exists p xs ≡ false
unfolding exists
exists_append p [] ys h = refl
exists_append p (x ∷ xs) ys h = elim (Bool-cases (p x)) [
  | inl this ↦ cc (rw (exists, this) at h)
  | inr other ↦ rw (exists, other) (exists_append p xs ys (rw (exists, other) at h))
]

insert_order_lem :
    (o : Order) (db db' : Db)
    → insert_order o db ≡ ok db'
    → (db' ≡ record db { orders = db.orders ++ (o ∷ []) })
      × (exists (order_is o.id) db.orders ≡ false)
unfolding insert_order
insert_order_lem o db db' h =
    let (unused, h1) = reject-ok (exists (order_is o.id) db.orders) duplicate_key _ db' h in
    let (owned, h2) =
      reject-ok (not (exists (account_is o.account_id) db.accounts)) no_reference _ db' h1 in
    (sym (ok_inj _ _ h2), unused)

insert_authzs_lem :
    (new : List Authorization) (db db' : Db)
    → insert_authzs new db ≡ ok db'
    → (db' ≡ record db { authzs = db.authzs ++ new })
      × ((a : Authorization) → Memᴰ a new → exists (authz_is a.id) db.authzs ≡ false)
unfolding insert_authzs
insert_authzs_lem [] db db' h = (
  sym (ok_inj _ _ h) ∙ ap (λ rows. record db { authzs = rows }) (sym (append-nil db.authzs)),
  λ a m. absurd (Memᴰ.not-nil m),
)
insert_authzs_lem (x ∷ rest) db db' h =
    let (unused, h1) = reject-ok (exists (authz_is x.id) db.authzs) duplicate_key _ db' h in
    let (there, h2) =
      reject-ok (not (exists (order_is x.order_id) db.orders)) no_reference _ db' h1 in
    let (made, fresh) =
      insert_authzs_lem rest (record db { authzs = db.authzs ++ (x ∷ []) }) db' h2 in
    (
      made ∙ ap (λ rows. record db { authzs = rows }) (append_assoc db.authzs (x ∷ []) rest),
      λ a m. elim m [
        | Memᴰ.head e ↦
            subst (λ (y : Authorization). exists (authz_is y.id) db.authzs ≡ false) (sym e) unused
        | Memᴰ.tail later ↦ exists_append (authz_is a.id) db.authzs (x ∷ []) (fresh a later)
      ],
    )

insert_challenges_lem :
    (new : List Challenge) (db db' : Db)
    → insert_challenges new db ≡ ok db'
    → (db'.orders ≡ db.orders) × (db'.authzs ≡ db.authzs)
unfolding insert_challenges
insert_challenges_lem [] db db' h =
    (ap (λ (x : Db). x.orders) (sym (ok_inj _ _ h)), ap (λ (x : Db). x.authzs) (sym (ok_inj _ _ h)))
insert_challenges_lem (c ∷ rest) db db' h =
    let (unused, h1) = reject-ok (exists (challenge_is c.id) db.challenges) duplicate_key _ db' h in
    let (there, h2) =
      reject-ok (not (exists (authz_is c.authz_id) db.authzs)) no_reference _ db' h1 in
    insert_challenges_lem rest (record db { challenges = db.challenges ++ (c ∷ []) }) db' h2

-- The rows that an order adds.
pub record Added (o : Order) (new : List Authorization) (db db' : Db) : Type 0 where
  pub orders_are : db'.orders ≡ db.orders ++ (o ∷ [])
  pub authzs_are : db'.authzs ≡ db.authzs ++ new
  pub new_order : exists (order_is o.id) db.orders ≡ false
  pub new_authzs : (a : Authorization) → Memᴰ a new → exists (authz_is a.id) db.authzs ≡ false

pub create_order_lem :
    (o : Order) (new : List Authorization) (cs : List Challenge) (db db' : Db)
    → create_order o new cs db ≡ ok db'
    → Added o new db db'
unfolding create_order
create_order_lem o new cs db db' h =
    let (db1, h1, k1) =
      >>=-eq-ok (insert_order o db) (λ d. insert_authzs new d >>= insert_challenges cs) h in
    let (db2, h2, k2) = >>=-eq-ok (insert_authzs new db1) (insert_challenges cs) k1 in
    let (is1, unused) = insert_order_lem o db db1 h1 in
    let (is2, fresh) = insert_authzs_lem new db1 db2 h2 in
    let (same_orders, same_authzs) = insert_challenges_lem cs db2 db' k2 in
    record {
      orders_are = same_orders ∙ ap (λ (x : Db). x.orders) is2 ∙ ap (λ (x : Db). x.orders) is1;
      authzs_are =
          same_authzs ∙ ap (λ (x : Db). x.authzs) is2 ∙ ap (λ (x : Db). x.authzs ++ new) is1;
      new_order = unused;
      new_authzs =
          λ a m. subst (λ (x : Db). exists (authz_is a.id) x.authzs ≡ false) is1 (fresh a m);
    }

pending_new : has_been_ready pending ≡ true → ⊥
unfolding has_been_ready
pending_new h = cc

module _ (o : Order) (new : List Authorization) (db db' : Db) (added : Added o new db db') where
  Mem-orders : (x : Order) → Memᴰ x db'.orders → Memᴰ x db.orders ⊎ (x ≡ o)
  Mem-orders x at = elim (Memᴰ.append_cases db.orders (subst (λ l. Memᴰ x l) added.orders_are at)) [
    | inl old ↦ inl old
    | inr last ↦ inr (Memᴰ.eq_of_singleton last)
  ]

  orders-Mem : (x : Order) → Memᴰ x db.orders → Memᴰ x db'.orders
  orders-Mem x at = subst (λ l. Memᴰ x l) (sym added.orders_are) (Memᴰ.append_left (o ∷ []) at)

  Mem-authzs : (a : Authorization) → Memᴰ a db'.authzs → Memᴰ a db.authzs ⊎ Memᴰ a new
  Mem-authzs a at = Memᴰ.append_cases db.authzs (subst (λ l. Memᴰ a l) added.authzs_are at)

  authzs-Mem : (a : Authorization) → Memᴰ a db.authzs → Memᴰ a db'.authzs
  authzs-Mem a at = subst (λ l. Memᴰ a l) (sym added.authzs_are) (Memᴰ.append_left new at)

  new-Mem : (a : Authorization) → Memᴰ a new → Memᴰ a db'.authzs
  new-Mem a at = subst (λ l. Memᴰ a l) (sym added.authzs_are) (Memᴰ.append_right db.authzs at)

  -- The order's id and the new authorizations' ids are in no old row.
  no_old_order : (id : Bytes) → HasOrder id db → id ≡ o.id → ⊥
  no_old_order id (x, at, is) same =
      let found =
        Mem-exists (order_is o.id) db.orders x at
          (subst (λ y. bytes_eq y o.id ≡ true) (sym (is ∙ same)) (bytes_eq_refl o.id)) in
      let unused = added.new_order in cc

  no_old_authz : (id : Bytes) → HasAuthz id db → (a : Authorization) → Memᴰ a new → a.id ≡ id → ⊥
  no_old_authz id (x, at, is) a m same =
      let found =
        Mem-exists (authz_is a.id) db.authzs x at
          (subst (λ y. bytes_eq y a.id ≡ true) (sym (is ∙ sym same)) (bytes_eq_refl a.id)) in
      let unused = added.new_authzs a m in cc

  Covered-added :
      (id : Bytes) (is : List Identifier) → Covered id is db.authzs → Covered id is db'.authzs
  Covered-added id is cover i m =
      let (a, at, own, named) = cover i m in (a, authzs-Mem a at, own, named)

  module _ (planned : Planned o new) where
    all_valid_added : (id : Bytes) → HasOrder id db → AllValid id db → AllValid id db'
    all_valid_added id there all a at own = elim (Mem-authzs a at) [
      | inl old ↦ all a old own
      | inr late ↦ absurd (no_old_order id there (sym own ∙ planned.own a late))
    ]

    pub create_order-Later : Later db db'
    create_order-Later = record {
      has_order = λ id h. let (x, at, is) = h in (x, orders-Mem x at, is);
      has_authz = λ id h. let (a, at, is) = h in (a, authzs-Mem a at, is);
      granted = λ id there all a at is. elim (Mem-authzs a at) [
        | inl old ↦ all a old is
        | inr late ↦ absurd (no_old_authz id there a late is)
      ];
      all_valid = all_valid_added;
      covered = Covered-added;
    }

    pub create_order-Sound : Sound db → Sound db'
    create_order-Sound sound = record {
      covered = λ x at. elim (Mem-orders x at) [
        | inl old ↦ Covered-added x.id x.identifiers (sound.covered x old)
        | inr this ↦
            subst (λ (y : Order). Covered y.id y.identifiers db'.authzs) (sym this)
              (λ i m. let (a, at, own, named) = planned.names i m in (a, new-Mem a at, own, named))
      ];
      allowed = λ x at been. elim (Mem-orders x at) [
        | inl old ↦ all_valid_added x.id (x, old, refl) (sound.allowed x old been)
        | inr this ↦
            let still : has_been_ready pending ≡ true =
              subst (λ s. has_been_ready s ≡ true)
                (ap (λ (y : Order). y.status) this ∙ planned.fresh) been in
            absurd (pending_new still)
      ];
      referenced = λ a at. elim (Mem-authzs a at) [
        | inl old ↦ let (x, here, is) = sound.referenced a old in (x, orders-Mem x here, is)
        | inr late ↦ (
          o,
          subst (λ l. Memᴰ o l) (sym added.orders_are)
              (Memᴰ.append_right db.orders (Memᴰ.head refl)),
          sym (planned.own a late),
        )
      ];
    }
