-- ===== src/Acme/System/Authorised.antt =====
-- However requests and goroutines interleave, an order gets ready, and a certificate is made, only for
-- names whose authorizations are valid.
use ca_extension_mtc_playgro.Acme.Thread.{Shared}
use ca_extension_mtc_playgro.Acme.Handlers.Finalize.{fails}
use mathlib.Core.List.{Memᴰ}
use mathlib.Core.List.Memᴰ
use mathlib.Core.Path.{subst}
use ca_extension_mtc_playgro.Prelude.{
  ◌≡◌, sym, List, [], ◌∷◌, ◌++◌, true, All, All-append, Option, none, some,
}
use ca_extension_mtc_playgro.Bytes.{Bytes}
use ca_extension_mtc_playgro.Log.Tables.{Store}
use ca_extension_mtc_playgro.Log.Checkpoint.{Checkpoint}
use ca_extension_mtc_playgro.Acme.Tables.{Identifier, Order, Db}
use ca_extension_mtc_playgro.Acme.Outside.{Config}
use ca_extension_mtc_playgro.Acme.Thread.{
  Thread, process_finalize, append, checkpoint, prove, store_cert, proxied,
}
use ca_extension_mtc_playgro.Acme.System.{
  resume, Server, Step, serve, goes, overlaps, collides, clean, Reach, start, then,
}
use ca_extension_mtc_playgro.Acme.System.Sound.{
  has_been_ready, Sound, Relies, Relies-Later, Authorised,
}
use ca_extension_mtc_playgro.Acme.System.Good.{resume-Good}

-- A server whose tables are sound, and whose threads may rely on what they rely on.
pub record InOrder (w : Server) : Type 0 where
  pub sound : Sound w.shared.db
  pub relied : All (λ t. Relies t w.shared.db) w.threads

pub All-join :
    {A : Type 0} (P : A → Type 0) (xs ys : List A) → All P xs → All P ys → All P (xs ++ ys)
All-join P [] ys h k = k
All-join P (x ∷ xs) ys h k = (h.0, All-join P xs ys h.1 k)

All-Later :
    (db db' : Db) (ts : List Thread)
    → ((t : Thread) → Relies t db → Relies t db')
    → All (λ t. Relies t db) ts
    → All (λ t. Relies t db') ts
All-Later db db' [] later h = tt
All-Later db db' (t ∷ ts) later h = (later t h.0, All-Later db db' ts later h.1)

Step-InOrder :
    (sha256 : Bytes → Bytes) (cfg : Config) (a b : Server)
    → Step sha256 cfg a b
    → InOrder a
    → InOrder b
unfolding Relies has_been_ready
Step-InOrder sha256 cfg _ _ (serve s ts r nonce now) h = record {
  sound = h.sound;
  relied = (tt, h.relied);
}
Step-InOrder sha256 cfg _ _ (clean s ts now) h = record { sound = h.sound; relied = h.relied }
Step-InOrder sha256 cfg _ _ (goes o same s before t after) h =
    let r = resume cfg o t s in
    let (first, rest) = All-append (λ x. Relies x s.db) before (t ∷ after) h.relied in
    let good = resume-Good cfg o t s h.sound rest.0 in
    let keeps : (x : Thread) → Relies x s.db → Relies x r.shared.db =
      λ x. Relies-Later x good.later in
    record {
      sound = good.sound;
      relied =
          All-join (λ x. Relies x r.shared.db) before (r.threads ++ after)
            (All-Later s.db r.shared.db before keeps first)
            (All-join (λ x. Relies x r.shared.db) r.threads after good.relied
              (All-Later s.db r.shared.db after keeps rest.1));
    }
Step-InOrder sha256 cfg _ _ (overlaps o same s before t after seen left calls) h =
    let s' : Shared = record s { log = seen } in
    let r = resume cfg o t s' in
    let (first, rest) = All-append (λ x. Relies x s.db) before (t ∷ after) h.relied in
    let good = resume-Good cfg o t s' h.sound rest.0 in
    let keeps : (x : Thread) → Relies x s.db → Relies x r.shared.db =
      λ x. Relies-Later x good.later in
    record {
      sound = good.sound;
      relied =
          All-join (λ x. Relies x r.shared.db) before (r.threads ++ after)
            (All-Later s.db r.shared.db before keeps first)
            (All-join (λ x. Relies x r.shared.db) r.threads after good.relied
              (All-Later s.db r.shared.db after keeps rest.1));
    }
Step-InOrder sha256 cfg _ _ (collides o s before after id csr is kind entry) h =
    let (first, rest) =
      All-append (λ x. Relies x s.db) before (append id csr is kind entry ∷ after) h.relied in
    record {
      sound = h.sound;
      relied =
          All-join (λ x. Relies x s.db) before ((fails o id s).threads ++ after) first
            ((λ been. cc), rest.1);
    }

Reach-InOrder :
    (sha256 : Bytes → Bytes) (cfg : Config) (a b : Server)
    → Reach sha256 cfg a b
    → InOrder a
    → InOrder b
Reach-InOrder sha256 cfg a _ (start w) h = h
Reach-InOrder sha256 cfg a _ (then {b = b} {c = c} before step) h =
    Step-InOrder sha256 cfg b c step (Reach-InOrder sha256 cfg a b before h)

-- The server that `New` makes over empty tables, with whatever log there is.
abbrev pub new_server : Store → List Checkpoint → Server
new_server log checkpoints = record {
  shared = record {
    db = record { accounts = []; orders = []; authzs = []; challenges = [] };
    nonces = λ n. none;
    log = log;
    checkpoints = checkpoints;
  };
  threads = [];
}

new_server-InOrder :
    (log : Store) (checkpoints : List Checkpoint) → InOrder (new_server log checkpoints)
new_server-InOrder log checkpoints = record {
  sound = record {
    covered = λ o at. absurd (Memᴰ.not-nil at);
    allowed = λ o at. absurd (Memᴰ.not-nil at);
    referenced = λ a at. absurd (Memᴰ.not-nil at);
  };
  relied = tt;
}

-- The order, and the names, of a thread that has a certificate made.
unfoldable pub certifies : Thread → Option (Bytes × List Identifier)
certifies (process_finalize id csr pem is) = some (id, is)
certifies (append id csr is kind entry) = some (id, is)
certifies (checkpoint id csr is kind entry index) = some (id, is)
certifies (prove id csr is kind entry index cp) = some (id, is)
certifies (store_cert id is serial der) = some (id, is)
certifies (proxied id is serial) = some (id, is)
certifies _ = none

pub All-Mem : {A : Type 0} (P : A → Type 0) (xs : List A) (a : A) → All P xs → Memᴰ a xs → P a
All-Mem P [] a h m = absurd (Memᴰ.not-nil m)
All-Mem P (x ∷ xs) a h (Memᴰ.head e) = subst P (sym e) h.0
All-Mem P (x ∷ xs) a h (Memᴰ.tail m) = All-Mem P xs a h.1 m

-- On a server that started with empty tables, however its requests and goroutines have interleaved, calls
-- of the log that overlap included, and whatever they have found outside: where an order is ready, processing or valid, each of its
-- identifiers has an authorization of that order whose status is valid.
pub Reach-Authorised :
    (sha256 : Bytes → Bytes) (cfg : Config) (log : Store) (checkpoints : List Checkpoint)
    (w : Server)
    → Reach sha256 cfg (new_server log checkpoints) w
    → (o : Order) → Memᴰ o w.shared.db.orders
    → has_been_ready o.status ≡ true
    → Authorised o.id o.identifiers w.shared.db
unfolding Authorised
Reach-Authorised sha256 cfg log checkpoints w reached o at been i m =
    let h =
      Reach-InOrder sha256 cfg (new_server log checkpoints) w reached
        (new_server-InOrder log checkpoints) in
    let (a, here, own, name) = h.sound.covered o at i m in
    (a, here, own, name, h.sound.allowed o at been a here own)
