-- ===== src/Log/WellFormed.antt =====
-- When the tables of internal/issuancelog's log are well formed.
use mathlib.Core.Path.{subst}
use ca_extension_mtc_playgro.Prelude.{
  ℕ, zero, suc, ◌+◌, ◌*◌, ◌^◌, ◌≤◌, ◌<◌, ◌≡◌, refl, ap, ◌∙◌, true, false, Bool-cases, inl, inr,
  some, List, [], ◌∷◌, ◌++◌, length, ltb, arith,
}
use mathlib.Core.Path.{ap₂}
use ca_extension_mtc_playgro.Prelude.Pow.{pow_suc}
use ca_extension_mtc_playgro.Bytes.{Bytes}
use ca_extension_mtc_playgro.Merkle.Hash.{leaf_hash, interior_hash}
use ca_extension_mtc_playgro.Log.Tables.{LogEntry, Store, tree_size, has_index}
use ca_extension_mtc_playgro.Log.Ragged.{ragged, expected}
use ca_extension_mtc_playgro.Log.Recompute.{Stored, Settled}

-- The entries' indices count up from `n`.
abbrev pub Numbered : ℕ → List LogEntry → Type 0
Numbered n [] = Unit {0}
Numbered n (e ∷ es) = (e.index ≡ n) × Numbered (suc n) es

pub Numbered-append :
    (n : ℕ) (es more : List LogEntry)
    → Numbered n es
    → Numbered (n + length es) more
    → Numbered n (es ++ more)
Numbered-append n [] more h at = subst (λ (m : ℕ). Numbered m more) (omega arith) at
Numbered-append n (x ∷ es) more h at =
    (h.0, Numbered-append (suc n) es more h.1 (subst (λ (m : ℕ). Numbered m more) (omega arith) at))

tree_size-cons :
    (n : ℕ) (e : LogEntry) (es : List LogEntry)
    → Numbered n (e ∷ es)
    → tree_size (e ∷ es) ≡ n + length (e ∷ es)
unfolding tree_size
tree_size-cons n e [] h = ground (arith, h.0)
tree_size-cons n e (x ∷ es) h =
    let rest = tree_size-cons (suc n) x es h.1 in
    let later : ltb e.index (tree_size (x ∷ es)) ≡ true = ground (arith, h.0, rest) in
    rw (tree_size, later) (rest ∙ omega arith)

-- The size of a well-numbered table.
pub tree_size_lem : (es : List LogEntry) → Numbered 0 es → tree_size es ≡ length es
tree_size_lem [] h = unfold tree_size in refl
tree_size_lem (e ∷ es) h = tree_size-cons 0 e es h ∙ omega arith

pub has_index_past :
    (n i : ℕ) (es : List LogEntry) → Numbered n es → n + length es ≤ i → has_index i es ≡ false
unfolding has_index
has_index_past n i [] h past = refl
has_index_past n i (e ∷ es) h past =
    ground (arith, h.0, has_index_past (suc n) i es h.1 (omega arith))

pub leaf-Settled : (n i : ℕ) → Settled n 0 i
leaf-Settled n i = elim (Bool-cases (ltb i n)) [
  | inl before ↦ inl (ground arith)
  | inr past ↦ inr (ground arith)
]

module _ (sha256 : Bytes → Bytes) where
  -- The leaf hash of the entry at an index.
  unfoldable pub leaf_at : List LogEntry → ℕ → Bytes
  leaf_at [] i = []
  leaf_at (e ∷ es) zero = leaf_hash sha256 e.entry_data
  leaf_at (e ∷ es) (suc i) = leaf_at es i

  pub leaf_at-append :
      (es more : List LogEntry) (i : ℕ) → i < length es → leaf_at (es ++ more) i ≡ leaf_at es i
  unfolding leaf_at
  leaf_at-append [] more i h = absurd (omega arith)
  leaf_at-append (x ∷ es) more zero h = refl
  leaf_at-append (x ∷ es) more (suc i) h = leaf_at-append es more i (omega arith)

  pub leaf_at_past :
      (es more : List LogEntry) (j : ℕ) → leaf_at (es ++ more) (length es + j) ≡ leaf_at more j
  unfolding leaf_at
  leaf_at_past [] more j = ap (leaf_at more) (omega arith)
  leaf_at_past (x ∷ es) more j =
      let up : suc (length es) + j ≡ suc (length es + j) = omega arith in
      ap (leaf_at (x ∷ (es ++ more))) up ∙ leaf_at_past es more j

  pub leaf_at_new :
      (es : List LogEntry) (e : LogEntry)
      → leaf_at (es ++ (e ∷ [])) (length es) ≡ leaf_hash sha256 e.entry_data
  unfolding leaf_at
  leaf_at_new es e =
      let at : length es ≡ length es + 0 = omega arith in
      ap (leaf_at (es ++ (e ∷ []))) at ∙ leaf_at_past es (e ∷ []) 0

  -- The hashes of a tree depend on its own leaves only.
  ragged_cong :
      (f g : ℕ → Bytes) (size : ℕ)
      → ((i : ℕ) → i < size → f i ≡ g i)
      → (l i : ℕ) → i * 2 ^ l < size
      → ragged sha256 f size l i ≡ ragged sha256 g size l i
  unfolding ragged
  ragged_cong f g size same zero i h = same i (omega arith)
  ragged_cong f g size same (suc l) i h = elim (Bool-cases (ltb ((i * 2 + 1) * 2 ^ l) size)) [
    | inl two ↦ rw two (
        ap₂ (interior_hash sha256) (ragged_cong f g size same l (i * 2) low)
          (ragged_cong f g size same l (i * 2 + 1) (ground (arith, two))))
    | inr one ↦ rw one (ragged_cong f g size same l (i * 2) low)
  ]
    where
      low : i * 2 * 2 ^ l < size
      low = omega (arith, ap (λ (t : ℕ). i * t) (pow_suc l))

  pub expected_cong :
      (f g : ℕ → Bytes) (size : ℕ)
      → ((i : ℕ) → i < size → f i ≡ g i)
      → (l i : ℕ) → expected sha256 f size l i ≡ expected sha256 g size l i
  unfolding expected
  expected_cong f g size same l i = elim (Bool-cases (ltb (i * 2 ^ l) size)) [
    | inl there ↦ rw there (ap some (ragged_cong f g size same l i (ground (arith, there))))
    | inr past ↦ rw past refl
  ]

  -- A well-formed log: its entries count up from 0, and its nodes hold the hashes of their tree. A log
  -- that is no longer than the null entry has rows for its leaf only.
  pub record IsLog (s : Store) : Type 0 where
    pub numbered : Numbered 0 s.entries
    pub settled :
        (l i : ℕ)
        → l < 64
        → Settled (length s.entries) l i
        → s.nodes l i ≡ expected sha256 (leaf_at s.entries) (length s.entries) l i
    pub stored : 1 < length s.entries → Stored sha256 (leaf_at s.entries) s.nodes (length s.entries)
