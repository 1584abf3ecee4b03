-- ===== src/Acme/Nonce/History.antt =====
-- The nonces of a server, as the history of what was made, brought and cleaned up decides them.
use ca_extension_mtc_playgro.Prelude.{
  ℕ, ◌+◌, ◌≤◌, ◌≡◌, refl, ◌∙◌, List, [], ◌∷◌, All, Bool, false, ◌||◌, Option, none, some,
  Option-cases, inl, inr, ltb, if◌then◌else◌, arith, Bool-cases,
}
use ca_extension_mtc_playgro.Bytes.{Bytes, bytes_eq, bytes_eq_refl, bytes_eq→eq}
use ca_extension_mtc_playgro.Acme.Nonce.{
  Nonces, hour, delete, new_nonce, consume_nonce, cleanup_nonces,
}

-- A nonce that a request has brought has no row any more, and one without a row is not accepted.
pub consume_nonce_gone :
    (nonce : Bytes) (now : ℕ) (m : Nonces) → (consume_nonce nonce now m).1 nonce ≡ none
unfolding consume_nonce delete
consume_nonce_gone nonce now m = elim (Option-cases (m nonce)) [
  | inl e ↦ rw (consume_nonce, e) e
  | inr (expires, e) ↦ rw (consume_nonce, e, delete, bytes_eq_refl nonce) refl
]

pub consume_nonce-none :
    (nonce : Bytes) (now : ℕ) (m : Nonces) → m nonce ≡ none → (consume_nonce nonce now m).0 ≡ false
unfolding consume_nonce
consume_nonce-none nonce now m e = rw (consume_nonce, e) refl

-- A nonce that a request has brought, accepted or not, is not accepted again, at any time.
consume_nonce_once :
    (nonce : Bytes) (first later : ℕ) (m : Nonces)
    → (consume_nonce nonce later (consume_nonce nonce first m).1).0 ≡ false
unfolding consume_nonce delete
consume_nonce_once nonce first later m = elim (Option-cases (m nonce)) [
  | inl e ↦ rw (consume_nonce, e, e) refl
  | inr (expires, e) ↦ rw (consume_nonce, e, delete, bytes_eq_refl nonce) refl
]

-- A new nonce is accepted for an hour, whatever the map held before.
consume_nonce-new_nonce :
    (nonce : Bytes) (made now : ℕ) (m : Nonces)
    → (consume_nonce nonce now (new_nonce nonce made m)).0 ≡ ltb now (made + hour)
unfolding consume_nonce new_nonce
consume_nonce-new_nonce nonce made now m =
    let same = bytes_eq_refl nonce in rw (consume_nonce, new_nonce, same) refl

-- The answer hangs on the nonce's own row only.
same_row :
    (nonce : Bytes) (now : ℕ) (m m' : Nonces)
    → m nonce ≡ m' nonce
    → (consume_nonce nonce now m).0 ≡ (consume_nonce nonce now m').0
unfolding consume_nonce
same_row nonce now m m' e = elim (Option-cases (m' nonce)) [
  | inl gone ↦ rw (consume_nonce, e, gone) refl
  | inr (expires, found) ↦ rw (consume_nonce, e, found) refl
]

other_row :
    (nonce other : Bytes) (before : ℕ) (m : Nonces)
    → bytes_eq nonce other ≡ false
    → (consume_nonce other before m).1 nonce ≡ m nonce
unfolding consume_nonce delete
other_row nonce other before m apart = elim (Option-cases (m other)) [
  | inl e ↦ rw (consume_nonce, e) refl
  | inr (expires, e) ↦ rw (consume_nonce, e, delete, apart) refl
]

-- Another nonce, made or brought in between, does not matter.
consume_nonce_other :
    (nonce other : Bytes) (now before : ℕ) (m : Nonces)
    → bytes_eq nonce other ≡ false
    → ((consume_nonce nonce now (consume_nonce other before m).1).0 ≡ (consume_nonce nonce now m).0)
      × ((consume_nonce nonce now (new_nonce other before m)).0 ≡ (consume_nonce nonce now m).0)
unfolding new_nonce
consume_nonce_other nonce other now before m apart = (
  same_row nonce now (consume_nonce other before m).1 m (other_row nonce other before m apart),
  same_row nonce now (new_nonce other before m) m (rw (new_nonce, apart) refl),
)

-- The clean-up takes no nonce away that would still be accepted.
consume_nonce-cleanup_nonces :
    (nonce : Bytes) (cleaned now : ℕ) (m : Nonces)
    → cleaned ≤ now
    → (consume_nonce nonce now (cleanup_nonces cleaned m)).0 ≡ (consume_nonce nonce now m).0
unfolding consume_nonce cleanup_nonces
consume_nonce-cleanup_nonces nonce cleaned now m le = elim (Option-cases (m nonce)) [
  | inl e ↦ rw (consume_nonce, cleanup_nonces, e) refl
  | inr (expires, e) ↦ elim (Bool-cases (ltb expires cleaned)) [
    | inl old ↦ rw (consume_nonce, cleanup_nonces, e, old) (ground arith)
    | inr kept ↦ rw (consume_nonce, cleanup_nonces, e, kept) refl
  ]
]

-- What happens to the map, and when.
pub data Event : Type 0 where
  made brought : Bytes → ℕ → Event
  cleaned : ℕ → Event

abbrev pub time : Event → ℕ
time (made n t) = t
time (brought n t) = t
time (cleaned t) = t

-- The map behind a history, the newest event first.
unfoldable pub run : List Event → Nonces
run [] = λ n. none
run (made n t ∷ h) = new_nonce n t (run h)
run (brought n t ∷ h) = (consume_nonce n t (run h)).1
run (cleaned t ∷ h) = cleanup_nonces t (run h)

-- The map behind a history that begins with any map, and whether a nonce is made in a history.
unfoldable pub since : List Event → Nonces → Nonces
since [] m = m
since (made n t ∷ h) m = new_nonce n t (since h m)
since (brought n t ∷ h) m = (consume_nonce n t (since h m)).1
since (cleaned t ∷ h) m = cleanup_nonces t (since h m)

unfoldable pub makes_again : Bytes → List Event → Bool
makes_again nonce [] = false
makes_again nonce (made n t ∷ h) = bytes_eq nonce n || makes_again nonce h
makes_again nonce (brought n t ∷ h) = makes_again nonce h
makes_again nonce (cleaned t ∷ h) = makes_again nonce h

-- A nonce without a row has none after others have been brought, or after a clean-up.
consume_keeps_none :
    (nonce n : Bytes) (t : ℕ) (m : Nonces) → m nonce ≡ none → (consume_nonce n t m).1 nonce ≡ none
unfolding consume_nonce delete
consume_keeps_none nonce n t m gone = elim (Option-cases (m n)) [
  | inl e ↦ rw (consume_nonce, e) gone
  | inr (expires, e) ↦ elim (Bool-cases (bytes_eq nonce n)) [
    | inl same ↦ rw (consume_nonce, e, delete, same) refl
    | inr apart ↦ rw (consume_nonce, e, delete, apart) gone
  ]
]

cleanup_keeps_none :
    (nonce : Bytes) (t : ℕ) (m : Nonces) → m nonce ≡ none → cleanup_nonces t m nonce ≡ none
unfolding cleanup_nonces
cleanup_keeps_none nonce t m gone = rw (cleanup_nonces, gone) refl

-- A nonce without a row has none until it is made.
pub since-none :
    (nonce : Bytes) (h : List Event) (m : Nonces)
    → m nonce ≡ none
    → makes_again nonce h ≡ false
    → since h m nonce ≡ none
unfolding since makes_again new_nonce
since-none nonce [] m gone unmade = gone
since-none nonce (made n t ∷ h) m gone unmade = elim (Bool-cases (bytes_eq nonce n)) [
  | inl same ↦ cc (rw same at unmade)
  | inr apart ↦ rw (new_nonce, apart) (since-none nonce h m gone (rw apart at unmade))
]
since-none nonce (brought n t ∷ h) m gone unmade =
    consume_keeps_none nonce n t (since h m) (since-none nonce h m gone unmade)
since-none nonce (cleaned t ∷ h) m gone unmade =
    cleanup_keeps_none nonce t (since h m) (since-none nonce h m gone unmade)

-- The specification: when the nonce was made, if no request has brought it since.
unfoldable pub unused_since : Bytes → List Event → Option ℕ
unused_since nonce [] = none
unused_since nonce (made n t ∷ h) =
    let before = unused_since nonce h in if bytes_eq nonce n then some t else before
unused_since nonce (brought n t ∷ h) =
    let before = unused_since nonce h in if bytes_eq nonce n then none else before
unused_since nonce (cleaned t ∷ h) = unused_since nonce h

unfoldable pub fresh : ℕ → Option ℕ → Bool
fresh now none = false
fresh now (some t) = ltb now (t + hour)

-- After any history, none of whose events is later than now, a nonce is accepted exactly if it was made
-- less than an hour ago and no request has brought it since.
pub consume_nonce-run :
    (nonce : Bytes) (now : ℕ) (h : List Event)
    → All (λ e. time e ≤ now) h
    → (consume_nonce nonce now (run h)).0 ≡ fresh now (unused_since nonce h)
unfolding run unused_since fresh
consume_nonce-run nonce now [] past = unfold consume_nonce in refl
consume_nonce-run nonce now (made n t ∷ h) past = elim (Bool-cases (bytes_eq nonce n)) [
  | inl same ↦
      let at = bytes_eq→eq nonce n same in
      rw (same, ← at) (consume_nonce-new_nonce nonce t now (run h))
  | inr apart ↦
      rw apart
        ((consume_nonce_other nonce n now t (run h) apart).1 ∙ consume_nonce-run nonce now h past.1)
]
consume_nonce-run nonce now (brought n t ∷ h) past = elim (Bool-cases (bytes_eq nonce n)) [
  | inl same ↦
      let at = bytes_eq→eq nonce n same in rw (same, ← at) (consume_nonce_once nonce t now (run h))
  | inr apart ↦
      rw apart
        ((consume_nonce_other nonce n now t (run h) apart).0 ∙ consume_nonce-run nonce now h past.1)
]
consume_nonce-run nonce now (cleaned t ∷ h) past =
    consume_nonce-cleanup_nonces nonce t now (run h) past.0 ∙ consume_nonce-run nonce now h past.1
