-- ===== src/Acme/System/Keeps.antt =====
-- Every access leaves sound tables behind, and takes nothing away that a thread relies on.
pub mod Registered
pub mod Validated
pub mod Finalized
use ca_extension_mtc_playgro.Prelude.{◌≡◌, List, All}
use ca_extension_mtc_playgro.Acme.Tables.{Account, Challenge, Db}
use ca_extension_mtc_playgro.Acme.Thread.{Thread, Stepped}
use ca_extension_mtc_playgro.Acme.System.Sound.{Sound, Later, Relies, Good}

abbrev pub Later-refl : (db : Db) → Later db db
Later-refl db = record {
  has_order = λ id h. h;
  has_authz = λ id h. h;
  granted = λ id there h. h;
  all_valid = λ id there h. h;
  covered = λ id is h. h;
}

-- An access that leaves the tables as they are.
pub unmoved :
    {r : Stepped}
    → Sound r.shared.db
    → All (λ t. Relies t r.shared.db) r.threads
    → Good r.shared.db r
unmoved {r} sound relied = record { sound = sound; later = Later-refl r.shared.db; relied = relied }

-- The other two tables matter to nobody here.
pub other_tables-Later :
    {db : Db} {accounts : List Account} {challenges : List Challenge}
    → Later db (record db { accounts = accounts; challenges = challenges })
other_tables-Later = record {
  has_order = λ id h. h;
  has_authz = λ id h. h;
  granted = λ id there h. h;
  all_valid = λ id there h. h;
  covered = λ id is h. h;
}

pub other_tables-Sound :
    {db : Db} {accounts : List Account} {challenges : List Challenge}
    → Sound db
    → Sound (record db { accounts = accounts; challenges = challenges })
other_tables-Sound sound = record {
  covered = sound.covered;
  allowed = sound.allowed;
  referenced = sound.referenced;
}
