-- ===== src/Acme/Nonce.antt =====
-- internal/acme/nonce.go: the nonces that a request has to bring, each of them once. The map is a
-- function from the nonce to the time it expires, in nanoseconds. The lock makes each of the three
-- functions, one round of the loop in the last, a single step.
pub mod History
use ca_extension_mtc_playgro.Prelude.{
  ℕ, ◌+◌, ◌≤◌, ◌<◌, ◌≡◌, refl, Bool, true, false, Option, none, some, Option-cases, inl, inr, ltb,
  leb, if◌then◌else◌, arith, Bool-cases,
}
use ca_extension_mtc_playgro.Bytes.{Bytes, bytes_eq, bytes_eq_refl}

abbrev pub Nonces : Type 0
Nonces = Bytes → Option ℕ

-- `1 * time.Hour`
abbrev pub hour : ℕ
hour = 3600000000000

-- `delete(m, k)`
unfoldable pub delete : Bytes → Nonces → Nonces
delete k m n = if bytes_eq n k then none else m n

-- `newNonce`, for the text that it makes.
unfoldable pub new_nonce : Bytes → ℕ → Nonces → Nonces
new_nonce nonce now m n = if bytes_eq n nonce then some (now + hour) else m n

-- `consumeNonce`
unfoldable pub consume_nonce : Bytes → ℕ → Nonces → Bool × Nonces
consume_nonce nonce now m = elim (m nonce) [
  | none ↦ (false, m)
  | some expires ↦ (ltb now expires, delete nonce m)
]

-- One round of `cleanupNonces`.
unfoldable pub cleanup_nonces : ℕ → Nonces → Nonces
cleanup_nonces now m n = elim (m n) [
  | none ↦ none
  | some expires ↦ if ltb expires now then none else some expires
]
