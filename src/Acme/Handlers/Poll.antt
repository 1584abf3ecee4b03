-- ===== src/Acme/Handlers/Poll.antt =====
-- internal/acme/finalize.go: `waitForAssertion`, and what an order that another CA has signed is left
-- with.
use ca_extension_mtc_playgro.Prelude.{ℕ, List, [], ◌∷◌, ◌++◌, Option, none, some, if◌then◌else◌}
use ca_extension_mtc_playgro.Bytes.{Bytes}
use ca_extension_mtc_playgro.Revocation.{find_entry_by_serial}
use ca_extension_mtc_playgro.Acme.Tables.{valid, Identifier}
use ca_extension_mtc_playgro.Acme.Statements.{Column, certificate_url, assertion_url}
use ca_extension_mtc_playgro.Acme.Outside.{Config, Outside}
use ca_extension_mtc_playgro.Acme.Thread.{Shared, Stepped, goes_on, poll, read_bundle, finish}
use ca_extension_mtc_playgro.Acme.Handlers.Register.{cert_url}

-- "/assertion/"
abbrev pub assertion_path : Bytes
assertion_path = 47 ∷ 97 ∷ 115 ∷ 115 ∷ 101 ∷ 114 ∷ 116 ∷ 105 ∷ 111 ∷ 110 ∷ 47 ∷ []

-- The columns of the order's last update, with the bundle's address where one was found.
unfoldable pub final_columns : Config → Bytes → Option Bytes → List (Column × Bytes)
final_columns cfg id none = (certificate_url, cert_url cfg id) ∷ []
final_columns cfg id (some url) = (certificate_url, cert_url cfg id) ∷ (assertion_url, url) ∷ []

-- One round of the loop of `waitForAssertion`: the deadline, or a tick, on which the entry is looked up.
unfoldable pub poll_assertion :
    Config → Outside → Bytes → List Identifier → Bytes → Shared → Stepped
poll_assertion cfg o id identifiers serial s =
    if o.deadline_passed
    then goes_on s (finish id valid (final_columns cfg id none))
    else (elim (find_entry_by_serial serial s.log.entries) [
      | none ↦ goes_on s (poll id identifiers serial)
      | some index ↦ goes_on s (read_bundle id identifiers serial index)
    ])

-- The tick's second query.
unfoldable pub look_at_bundle :
    Config → Outside → Bytes → List Identifier → Bytes → ℕ → Shared → Stepped
look_at_bundle cfg o id identifiers serial index s = elim (o.get_assertion_bundle index) [
  | none ↦ goes_on s (poll id identifiers serial)
  | some stale ↦
      if stale
      then goes_on s (poll id identifiers serial)
      else goes_on s (
          finish id valid
            (final_columns cfg id (some (cfg.mtc_bridge_url ++ (assertion_path ++ serial)))))
]
