-- ===== src/Acme/System/Sound.antt =====
-- The tables in which no order has come further than its authorizations allow, what a thread relies on
-- when it goes on, and what no access takes away from it.
use mathlib.Core.List.{Memᴰ}
use ca_extension_mtc_playgro.Prelude.{◌≡◌, List, Bool, true, false, All}
use ca_extension_mtc_playgro.Bytes.{Bytes}
use ca_extension_mtc_playgro.Acme.Tables.{
  Status, pending, ready, processing, valid, Identifier, Order, Authorization, Db,
}
use ca_extension_mtc_playgro.Acme.Thread.{
  Thread, Stepped, add_order, mark_authz, list_authzs, ready_order, begin_final, process_finalize,
  append, checkpoint, prove, store_cert, proxied, poll, read_bundle, finish,
}

-- An order that has been ready.
unfoldable pub has_been_ready : Status → Bool
has_been_ready ready = true
has_been_ready processing = true
has_been_ready valid = true
has_been_ready _ = false

abbrev pub HasOrder : Bytes → Db → Type 0
HasOrder id db = (o : Order) × Memᴰ o db.orders × (o.id ≡ id)

abbrev pub HasAuthz : Bytes → Db → Type 0
HasAuthz id db = (a : Authorization) × Memᴰ a db.authzs × (a.id ≡ id)

-- Every authorization of an id, and every one of an order, is valid.
abbrev pub Granted : Bytes → Db → Type 0
Granted id db = (a : Authorization) → Memᴰ a db.authzs → a.id ≡ id → a.status ≡ valid

abbrev pub AllValid : Bytes → Db → Type 0
AllValid order_id db =
    (a : Authorization) → Memᴰ a db.authzs → a.order_id ≡ order_id → a.status ≡ valid

-- Each of some identifiers has an authorization of the order.
abbrev pub Covered : Bytes → List Identifier → List Authorization → Type 0
Covered order_id identifiers authzs =
    (i : Identifier)
    → Memᴰ i identifiers
    → (a : Authorization) × Memᴰ a authzs × (a.order_id ≡ order_id) × (a.identifier ≡ i)

-- Each of some identifiers has an authorization of the order that is valid.
unfoldable pub Authorised : Bytes → List Identifier → Db → Type 0
Authorised order_id identifiers db =
    (i : Identifier)
    → Memᴰ i identifiers
    → (a : Authorization) × Memᴰ a db.authzs
      × (a.order_id ≡ order_id)
      × (a.identifier ≡ i)
      × (a.status ≡ valid)

pub record Sound (db : Db) : Type 0 where
  pub covered : (o : Order) → Memᴰ o db.orders → Covered o.id o.identifiers db.authzs
  pub allowed : (o : Order) → Memᴰ o db.orders → has_been_ready o.status ≡ true → AllValid o.id db
  pub referenced : (a : Authorization) → Memᴰ a db.authzs → HasOrder a.order_id db

-- What an order's processing relies on.
pub record Approved (order_id : Bytes) (identifiers : List Identifier) (db : Db) : Type 0 where
  pub there : HasOrder order_id db
  pub all : AllValid order_id db
  pub names : Covered order_id identifiers db.authzs

-- What `CreateACMEOrder` is given.
pub record Planned (o : Order) (authzs : List Authorization) : Type 0 where
  pub fresh : o.status ≡ pending
  pub own : (a : Authorization) → Memᴰ a authzs → a.order_id ≡ o.id
  pub names : Covered o.id o.identifiers authzs

-- What a thread relies on.
unfoldable pub Relies : Thread → Db → Type 0
Relies (add_order o authzs challenges) db = Planned o authzs
Relies (mark_authz a) db = HasAuthz a.id db × HasOrder a.order_id db
Relies (list_authzs a) db = HasAuthz a.id db × HasOrder a.order_id db × Granted a.id db
Relies (ready_order id) db = HasOrder id db × AllValid id db
Relies (begin_final o csr pem) db = Approved o.id o.identifiers db
Relies (process_finalize id csr pem identifiers) db = Approved id identifiers db
Relies (append id csr identifiers kind entry) db = Approved id identifiers db
Relies (checkpoint id csr identifiers kind entry index) db = Approved id identifiers db
Relies (prove id csr identifiers kind entry index cp) db = Approved id identifiers db
Relies (store_cert id identifiers serial der) db = Approved id identifiers db
Relies (proxied id identifiers serial) db = Approved id identifiers db
Relies (poll id identifiers serial) db = Approved id identifiers db
Relies (read_bundle id identifiers serial index) db = Approved id identifiers db
Relies (finish id status columns) db =
    has_been_ready status ≡ true → AllValid id db × HasOrder id db
Relies _ db = Unit {0}

-- What stays from one state of the tables to a later one.
pub record Later (db db' : Db) : Type 0 where
  pub has_order : (id : Bytes) → HasOrder id db → HasOrder id db'
  pub has_authz : (id : Bytes) → HasAuthz id db → HasAuthz id db'
  pub granted : (id : Bytes) → HasAuthz id db → Granted id db → Granted id db'
  pub all_valid : (id : Bytes) → HasOrder id db → AllValid id db → AllValid id db'
  pub covered :
      (id : Bytes) (is : List Identifier) → Covered id is db.authzs → Covered id is db'.authzs

pub Approved-Later :
    {id : Bytes} {is : List Identifier} {db db' : Db}
    → Later db db'
    → Approved id is db
    → Approved id is db'
Approved-Later later a = record {
  there = later.has_order _ a.there;
  all = later.all_valid _ a.there a.all;
  names = later.covered _ _ a.names;
}

-- A thread may go on relying on what it relied on.
pub Relies-Later : (t : Thread) {db db' : Db} → Later db db' → Relies t db → Relies t db'
unfolding Relies
Relies-Later (add_order o authzs challenges) later r = r
Relies-Later (mark_authz a) later r = (later.has_authz a.id r.0, later.has_order a.order_id r.1)
Relies-Later (list_authzs a) later r =
    (later.has_authz a.id r.0, later.has_order a.order_id r.1, later.granted a.id r.0 r.2)
Relies-Later (ready_order id) later r = (later.has_order id r.0, later.all_valid id r.0 r.1)
Relies-Later (begin_final o csr pem) later r = Approved-Later later r
Relies-Later (process_finalize id csr pem is) later r = Approved-Later later r
Relies-Later (append id csr is kind entry) later r = Approved-Later later r
Relies-Later (checkpoint id csr is kind entry index) later r = Approved-Later later r
Relies-Later (prove id csr is kind entry index cp) later r = Approved-Later later r
Relies-Later (store_cert id is serial der) later r = Approved-Later later r
Relies-Later (proxied id is serial) later r = Approved-Later later r
Relies-Later (poll id is serial) later r = Approved-Later later r
Relies-Later (read_bundle id is serial index) later r = Approved-Later later r
Relies-Later (finish id status columns) later r =
    λ been. let (all, there) = r been in (later.all_valid id there all, later.has_order id there)
Relies-Later _ later r = tt

pub Authorised-Approved :
    {id : Bytes} {is : List Identifier} {db : Db} → Approved id is db → Authorised id is db
unfolding Authorised
Authorised-Approved approved i m =
    let (a, at, own, is) = approved.names i m in (a, at, own, is, approved.all a at own)

-- What an access leaves behind: sound tables, and threads that may rely on them.
pub record Good (db : Db) (r : Stepped) : Type 0 where
  pub sound : Sound r.shared.db
  pub later : Later db r.shared.db
  pub relied : All (λ t. Relies t r.shared.db) r.threads
