-- ===== src/Acme/Rows.antt =====
-- SQL on a table that is a list of rows: the row of a key, a selection, an update.
pub mod Members
use ca_extension_mtc_playgro.Prelude.{
  ◌≡◌, refl, List, [], ◌∷◌, Bool, true, false, ◌||◌, Option, none, some, if◌then◌else◌, All,
  Bool-cases, inl, inr,
}

module _ {A : Type 0} where
  -- `SELECT … WHERE id = $1` on a primary key: the row, if there is one.
  unfoldable pub find : (A → Bool) → List A → Option A
  find p [] = none
  find p (x ∷ xs) = let rest = find p xs in if p x then some x else rest

  -- `SELECT … WHERE …`: the rows.
  unfoldable pub select : (A → Bool) → List A → List A
  select p [] = []
  select p (x ∷ xs) = let rest = select p xs in if p x then x ∷ rest else rest

  -- `UPDATE … SET … WHERE …`
  unfoldable pub update : (A → Bool) → (A → A) → List A → List A
  update p f [] = []
  update p f (x ∷ xs) = (if p x then f x else x) ∷ update p f xs

  -- Whether a constraint finds a row.
  unfoldable pub exists : (A → Bool) → List A → Bool
  exists p [] = false
  exists p (x ∷ xs) = p x || exists p xs
