-- ===== src/Acme/System/Updates.antt =====
-- The updates of internal/store/store.go that the server runs, on sound tables.
use mathlib.Core.List.{Memᴰ}
use mathlib.Core.Path.{subst}
use ca_extension_mtc_playgro.Prelude.{◌≡◌, refl, sym, ap, ◌∙◌, List, [], ◌∷◌, Bool, true, inl, inr}
use ca_extension_mtc_playgro.Bytes.{Bytes, bytes_eq, bytes_eq→eq, bytes_eq_refl}
use ca_extension_mtc_playgro.Acme.Rows.{update}
use ca_extension_mtc_playgro.Acme.Rows.Members.{update-Mem, Mem-update}
use ca_extension_mtc_playgro.Acme.Tables.{Status, valid, Identifier, Order, Authorization, Db}
use ca_extension_mtc_playgro.Acme.Statements.{
  Column, csr, certificate_url, cert_serial, assertion_url, error_type, error_detail, set_column,
  set_columns, order_is, authz_is, update_order_status, set_order_final_cert_der,
  update_authz_status,
}
use ca_extension_mtc_playgro.Acme.System.Sound.{
  has_been_ready, HasOrder, Granted, AllValid, Covered, Sound, Later,
}

-- An update of orders that leaves them their names.
module _ (p : Order → Bool) (f : Order → Order) (same_id : (o : Order) → (f o).id ≡ o.id)
    (same_names : (o : Order) → (f o).identifiers ≡ o.identifiers) (db : Db) where
  abbrev updated : Db
  updated = record db { orders = update p f db.orders }

  HasOrder-updated : (id : Bytes) → HasOrder id db → HasOrder id updated
  HasOrder-updated id (o, at, is) =
      let (b, here, was) = Mem-update p f db.orders o at in
      elim was [
        | inl e ↦ (b, here, ap (λ (x : Order). x.id) e ∙ is)
        | inr e ↦ (b, here, ap (λ (x : Order). x.id) e ∙ same_id o ∙ is)
      ]

  orders_Later : Later db updated
  orders_Later = record {
    has_order = HasOrder-updated;
    has_authz = λ id h. h;
    granted = λ id there h. h;
    all_valid = λ id there h. h;
    covered = λ id is h. h;
  }

  orders_Sound :
      Sound db
      → ((o : Order)
          → Memᴰ o db.orders
          → p o ≡ true
          → has_been_ready (f o).status ≡ true
          → AllValid o.id db)
      → Sound updated
  orders_Sound sound allowed = record {
    covered = λ o at.
        let (b, here, was) = update-Mem p f db.orders o at in
        elim was [
          | inl (e, miss) ↦
              subst (λ (x : Order). Covered x.id x.identifiers db.authzs) (sym e)
                (sound.covered b here)
          | inr (e, hit) ↦
              subst (λ (x : Order). Covered x.id x.identifiers db.authzs) (sym e)
                (subst (λ id. Covered id (f b).identifiers db.authzs) (sym (same_id b))
                  (subst (λ is. Covered b.id is db.authzs) (sym (same_names b))
                    (sound.covered b here)))
        ];
    allowed = λ o at been.
        let (b, here, was) = update-Mem p f db.orders o at in
        elim was [
          | inl (e, miss) ↦
              subst (λ (x : Order). AllValid x.id db) (sym e)
                (sound.allowed b here
                  (subst (λ (x : Order). has_been_ready x.status ≡ true) e been))
          | inr (e, hit) ↦
              subst (λ (x : Order). AllValid x.id db) (sym e)
                (subst (λ id. AllValid id db) (sym (same_id b))
                  (allowed b here hit
                    (subst (λ (x : Order). has_been_ready x.status ≡ true) e been)))
        ];
    referenced = λ a at. HasOrder-updated a.order_id (sound.referenced a at);
  }

-- The columns beside the status leave an order its names and its status.
set_column_keeps :
    (c : Column) (v : Bytes) (o : Order)
    → ((set_column c v o).id ≡ o.id)
      × ((set_column c v o).identifiers ≡ o.identifiers)
      × ((set_column c v o).status ≡ o.status)
unfolding set_column
set_column_keeps csr v o = (refl, refl, refl)
set_column_keeps certificate_url v o = (refl, refl, refl)
set_column_keeps cert_serial v o = (refl, refl, refl)
set_column_keeps assertion_url v o = (refl, refl, refl)
set_column_keeps error_type v o = (refl, refl, refl)
set_column_keeps error_detail v o = (refl, refl, refl)

set_columns_keeps :
    (cs : List (Column × Bytes)) (o : Order)
    → ((set_columns cs o).id ≡ o.id)
      × ((set_columns cs o).identifiers ≡ o.identifiers)
      × ((set_columns cs o).status ≡ o.status)
unfolding set_columns
set_columns_keeps [] o = (refl, refl, refl)
set_columns_keeps ((c, v) ∷ rest) o =
    let now = set_column_keeps c v o in
    let later = set_columns_keeps rest (set_column c v o) in
    (later.0 ∙ now.0, later.1 ∙ now.1, later.2 ∙ now.2)

module _ (id : Bytes) (status : Status) (columns : List (Column × Bytes)) (db : Db) where
  abbrev restated : Order → Order
  restated o = set_columns columns (record o { status = status })

  pub update_order_status-Later : Later db (update_order_status id status columns db)
  unfolding update_order_status
  update_order_status-Later =
      orders_Later (order_is id) restated
        (λ o. (set_columns_keeps columns (record o { status = status })).0)
        (λ o. (set_columns_keeps columns (record o { status = status })).1) db

  pub update_order_status-Sound :
      Sound db
      → (has_been_ready status ≡ true → AllValid id db)
      → Sound (update_order_status id status columns db)
  unfolding update_order_status
  update_order_status-Sound sound allowed =
      orders_Sound (order_is id) restated
        (λ o. (set_columns_keeps columns (record o { status = status })).0)
        (λ o. (set_columns_keeps columns (record o { status = status })).1) db sound
        (λ o at hit been.
          subst (λ x. AllValid x db) (sym (bytes_eq→eq o.id id hit))
            (allowed (
              subst (λ s. has_been_ready s ≡ true)
                (set_columns_keeps columns (record o { status = status })).2 been)))

module _ (id der ca : Bytes) (db : Db) where
  pub set_order_final_cert_der-Later : Later db (set_order_final_cert_der id der ca db)
  unfolding set_order_final_cert_der
  set_order_final_cert_der-Later =
      orders_Later (order_is id) (λ o. record o { final_cert_der = der; ca_cert_der = ca })
        (λ o. refl) (λ o. refl) db

  pub set_order_final_cert_der-Sound : Sound db → Sound (set_order_final_cert_der id der ca db)
  unfolding set_order_final_cert_der
  set_order_final_cert_der-Sound sound =
      orders_Sound (order_is id) (λ o. record o { final_cert_der = der; ca_cert_der = ca })
        (λ o. refl) (λ o. refl) db sound (λ o at hit been. sound.allowed o at been)

-- An authorization only becomes valid.
module _ (id : Bytes) (db : Db) where
  abbrev granted_authz : Authorization → Authorization
  granted_authz a = record a { status = valid }

  abbrev marked : Db
  marked = update_authz_status id valid db

  -- A row behind the update is valid by it, or an old one.
  marked-Mem :
      (a : Authorization)
      → Memᴰ a marked.authzs
      → (b : Authorization) × Memᴰ b db.authzs
        × (a.id ≡ b.id)
        × (a.order_id ≡ b.order_id)
        × (b.status ≡ valid → a.status ≡ valid)
  unfolding update_authz_status
  marked-Mem a at =
      let (b, here, was) = update-Mem (authz_is id) granted_authz db.authzs a at in
      elim was [
        | inl (e, miss) ↦ (
          b,
          here,
          ap (λ (x : Authorization). x.id) e,
          ap (λ (x : Authorization). x.order_id) e,
          λ v. ap (λ (x : Authorization). x.status) e ∙ v,
        )
        | inr (e, hit) ↦ (
          b,
          here,
          ap (λ (x : Authorization). x.id) e,
          ap (λ (x : Authorization). x.order_id) e,
          λ v. ap (λ (x : Authorization). x.status) e,
        )
      ]

  Mem-marked :
      (a : Authorization)
      → Memᴰ a db.authzs
      → (b : Authorization) × Memᴰ b marked.authzs
        × (b.id ≡ a.id)
        × (b.order_id ≡ a.order_id)
        × (b.identifier ≡ a.identifier)
  unfolding update_authz_status
  Mem-marked a at =
      let (b, here, was) = Mem-update (authz_is id) granted_authz db.authzs a at in
      elim was [
        | inl e ↦ (
          b,
          here,
          ap (λ (x : Authorization). x.id) e,
          ap (λ (x : Authorization). x.order_id) e,
          ap (λ (x : Authorization). x.identifier) e,
        )
        | inr e ↦ (
          b,
          here,
          ap (λ (x : Authorization). x.id) e,
          ap (λ (x : Authorization). x.order_id) e,
          ap (λ (x : Authorization). x.identifier) e,
        )
      ]

  all_valid_marked : (order_id : Bytes) → AllValid order_id db → AllValid order_id marked
  all_valid_marked order_id all a at own =
      let (b, here, same, of, becomes) = marked-Mem a at in becomes (all b here (sym of ∙ own))

  Covered-marked :
      (o : Bytes) (is : List Identifier) → Covered o is db.authzs → Covered o is marked.authzs
  Covered-marked o is cover i m =
      let (a, at, own, names) = cover i m in
      let (b, here, same, of, name) = Mem-marked a at in (b, here, of ∙ own, name ∙ names)

  pub update_authz_status-Later : Later db marked
  unfolding update_authz_status
  update_authz_status-Later = record {
    has_order = λ id h. h;
    has_authz = λ id h.
        let (a, at, is) = h in
        let (b, here, same, of, name) = Mem-marked a at in (b, here, same ∙ is);
    granted = λ id there all a at is.
        let (b, here, same, of, becomes) = marked-Mem a at in becomes (all b here (sym same ∙ is));
    all_valid = λ o there all. all_valid_marked o all;
    covered = Covered-marked;
  }

  pub update_authz_status-Sound : Sound db → Sound marked
  unfolding update_authz_status
  update_authz_status-Sound sound = record {
    covered = λ o at. Covered-marked o.id o.identifiers (sound.covered o at);
    allowed = λ o at been. all_valid_marked o.id (sound.allowed o at been);
    referenced = λ a at.
        let (b, here, same, of, becomes) = marked-Mem a at in
        subst (λ x. HasOrder x db) (sym of) (sound.referenced b here);
  }

  pub update_authz_status-Granted : Granted id marked
  unfolding update_authz_status
  update_authz_status-Granted a at is =
      let (b, here, was) = update-Mem (authz_is id) granted_authz db.authzs a at in
      elim was [
        | inl (e, miss) ↦
            let hit : bytes_eq b.id id ≡ true =
              subst (λ x. bytes_eq x id ≡ true)
                (sym (ap (λ (x : Authorization). x.id) (sym e) ∙ is)) (bytes_eq_refl id) in
            cc
        | inr (e, hit) ↦ ap (λ (x : Authorization). x.status) e
      ]
