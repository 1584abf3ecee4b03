-- ===== src/Acme/Rows/Members.antt =====
-- The rows of a table that a selection finds and that an update leaves.
use mathlib.Core.List.{Memᴰ}
use mathlib.Core.List.Memᴰ
use ca_extension_mtc_playgro.Prelude.{
  ◌≡◌, refl, sym, ap, ◌∙◌, List, [], ◌∷◌, Bool, true, false, Option, some, Bool-cases, ◌⊎◌, inl,
  inr,
}
use ca_extension_mtc_playgro.Acme.Rows.{find, select, update, exists}

pub some_inj : {A : Type 0} (a b : A) → ◌≡◌ {A = Option A} (some a) (some b) → a ≡ b
some_inj a b h = cc

module _ {A : Type 0} (p : A → Bool) where
  pub find-Mem : (xs : List A) (a : A) → find p xs ≡ some a → Memᴰ a xs × (p a ≡ true)
  unfolding find
  find-Mem [] a h = cc
  find-Mem (x ∷ xs) a h = elim (Bool-cases (p x)) [
    | inl this ↦
        let same : x ≡ a = some_inj x a (rw this at h) in
        (Memᴰ.head (sym same), sym (ap p same) ∙ this)
    | inr other ↦ let rest = find-Mem xs a (rw other at h) in (Memᴰ.tail rest.0, rest.1)
  ]

  pub Mem-exists : (xs : List A) (a : A) → Memᴰ a xs → p a ≡ true → exists p xs ≡ true
  unfolding exists
  Mem-exists [] a m h = absurd (Memᴰ.not-nil m)
  Mem-exists (x ∷ xs) a (Memᴰ.head e) h = rw (exists, sym (ap p e) ∙ h) refl
  Mem-exists (x ∷ xs) a (Memᴰ.tail m) h = elim (Bool-cases (p x)) [
    | inl this ↦ rw (exists, this) refl
    | inr other ↦ rw (exists, other) (Mem-exists xs a m h)
  ]

  pub Mem-select : (xs : List A) (a : A) → Memᴰ a xs → p a ≡ true → Memᴰ a (select p xs)
  unfolding select
  Mem-select [] a m h = m
  Mem-select (x ∷ xs) a (Memᴰ.head e) h = rw (select, sym (ap p e) ∙ h) (Memᴰ.head e)
  Mem-select (x ∷ xs) a (Memᴰ.tail m) h = elim (Bool-cases (p x)) [
    | inl this ↦ rw (select, this) (Memᴰ.tail (Mem-select xs a m h))
    | inr other ↦ rw (select, other) (Mem-select xs a m h)
  ]

  module _ (f : A → A) where
    -- A row behind an update is an old one, or is one that the update has changed.
    pub update-Mem :
        (xs : List A) (b : A)
        → Memᴰ b (update p f xs)
        → (a : A) × Memᴰ a xs × (((b ≡ a) × (p a ≡ false)) ⊎ ((b ≡ f a) × (p a ≡ true)))
    unfolding update
    update-Mem [] b m = absurd (Memᴰ.not-nil m)
    update-Mem (x ∷ xs) b (Memᴰ.head e) = elim (Bool-cases (p x)) [
      | inl this ↦ (x, Memᴰ.head refl, inr (rw this at e, this))
      | inr other ↦ (x, Memᴰ.head refl, inl (rw other at e, other))
    ]
    update-Mem (x ∷ xs) b (Memᴰ.tail m) =
        let (a, at, was) = update-Mem xs b m in (a, Memᴰ.tail at, was)

    -- An old row is there behind an update, changed or not.
    pub Mem-update :
        (xs : List A) (a : A) → Memᴰ a xs → (b : A) × Memᴰ b (update p f xs) × ((b ≡ a) ⊎ (b ≡ f a))
    unfolding update
    Mem-update [] a m = absurd (Memᴰ.not-nil m)
    Mem-update (x ∷ xs) a (Memᴰ.head e) = elim (Bool-cases (p x)) [
      | inl this ↦ (f x, Memᴰ.head (rw this refl), inr (ap f (sym e)))
      | inr other ↦ (x, Memᴰ.head (rw other refl), inl (sym e))
    ]
    Mem-update (x ∷ xs) a (Memᴰ.tail m) =
        let (b, at, is) = Mem-update xs a m in (b, Memᴰ.tail at, is)
