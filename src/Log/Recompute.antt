-- ===== src/Log/Recompute.antt =====
-- `recomputeInterior` leaves every node with the hash that belongs to it.
use native.Mathlib.Nat.{div-mul-le_self, lt-div-mul-add, le_refl, mul-le-mul_right}
use mathlib.Core.Path.{subst}
use ca_extension_mtc_playgro.Prelude.{
  ℕ, zero, suc, ◌+◌, ◌-◌, ◌*◌, ◌/◌, ◌^◌, ◌≤◌, ◌<◌, ◌≡◌, refl, ap, ◌∙◌, sym, Bool, true, false, ◌&&◌,
  ◌||◌, Bool-cases, inl, inr, ◌⊎◌, Option, none, some, Option-cases, ◌∷◌, ltb, leb, ◌==◌, arith,
}
use ca_extension_mtc_playgro.Prelude.Pow.{pow_pos, pow_suc}
use ca_extension_mtc_playgro.Bytes.{Bytes}
use ca_extension_mtc_playgro.Merkle.Hash.{interior_hash}
use ca_extension_mtc_playgro.Log.{level_nodes, recompute_levels, recompute_interior}
use ca_extension_mtc_playgro.Log.Tables.{Nodes, get_tree_node, set_tree_node, set_tree_nodes}
use ca_extension_mtc_playgro.Log.Ragged.{ragged, expected, ragged-perfect}

-- A row that is not the one written.
set_tree_node_other :
    (level index : ℕ) (hash : Bytes) (nodes : Nodes) (l i : ℕ)
    → (l == level && i == index) ≡ false
    → set_tree_node level index hash nodes l i ≡ nodes l i
unfolding set_tree_node
set_tree_node_other level index hash nodes l i h = rw h refl

set_tree_node_same :
    (level index : ℕ) (hash : Bytes) (nodes : Nodes)
    → set_tree_node level index hash nodes level index ≡ some hash
unfolding set_tree_node
set_tree_node_same level index hash nodes = ground arith

-- A node that no append changes while the tree has that size or grows past it by other nodes: all its
-- leaves are there, or none.
abbrev pub Settled : ℕ → ℕ → ℕ → Type 0
Settled size l i = ((i + 1) * 2 ^ l ≤ size) ⊎ (size ≤ i * 2 ^ l)

within : ℕ → ℕ → ℕ → ℕ → ℕ → Bool
within level rounds idx l i = l == level && (leb idx i && ltb i (idx + rounds))

not_leb : (a b : ℕ) → leb a b ≡ false → b < a
not_leb a b h = ground arith

quot_mono : (a b p : ℕ) → 0 < p → a ≤ b → a / p ≤ b / p
quot_mono a b p pos h = elim (Bool-cases (leb (a / p) (b / p))) [
  | inl fine ↦ ground arith
  | inr bad ↦ absurd (
      omega (
        arith,
        mul-le-mul_right p (not_leb (a / p) (b / p) bad),
        div-mul-le_self a p,
        lt-div-mul-add {a = b} pos,
      ))
]

within_step :
    (level rounds idx l i : ℕ)
    → within level (suc rounds) idx l i ≡ false
    → (within level rounds (suc idx) l i ≡ false) × ((l == level && i == idx) ≡ false)
unfolding within
within_step level rounds idx l i h = ground arith

within_next : (level rounds idx : ℕ) → within level rounds (suc idx) level idx ≡ false
unfolding within
within_next level rounds idx = ground arith

both : (a i b : ℕ) → (leb a i && leb i b) ≡ true → (a ≤ i) × (i ≤ b)
both a i b h = ground arith

beyond : (a i b : ℕ) → (leb a i && leb i b) ≡ false → leb a i ≡ true → b < i
beyond a i b h g = ground arith

not_within :
    (level a i b : ℕ)
    → a ≤ b
    → (leb a i && leb i b) ≡ false
    → within level (suc b - a) a level i ≡ false
unfolding within
not_within level a i b le h = ground arith

not_this : (level rounds idx l i : ℕ) → (l == level) ≡ false → within level rounds idx l i ≡ false
unfolding within
not_this level rounds idx l i h = ground arith

module _ (sha256 : Bytes → Bytes) where
  -- The hash of a node from its children, of which the right one may not be there.
  combine : Bytes → Option Bytes → Bytes
  combine left none = left
  combine left (some right) = interior_hash sha256 left right

  module _ (nodes : Nodes) (level low : ℕ) (below : level - 1 ≡ low) where
    level_nodes-cons :
        (rounds idx : ℕ) (left : Bytes)
        → nodes low (idx * 2) ≡ some left
        → level_nodes sha256 nodes level (suc rounds) idx
          ≡ record { level = level; position = idx; hash = combine left (nodes low (idx * 2 + 1)) }
            ∷ level_nodes sha256 nodes level rounds (suc idx)
    unfolding level_nodes get_tree_node combine
    level_nodes-cons rounds idx left h = elim (Option-cases (nodes low (idx * 2 + 1))) [
      | inl e ↦ rw (level_nodes, below, h, below, e) refl
      | inr (right, e) ↦ rw (level_nodes, below, h, below, e) refl
    ]

    -- Rows that the loop over a level leaves alone.
    level_nodes_outside :
        (rounds idx l i : ℕ) (base : Nodes)
        → within level rounds idx l i ≡ false
        → set_tree_nodes (level_nodes sha256 nodes level rounds idx) base l i ≡ base l i
    unfolding level_nodes get_tree_node set_tree_nodes
    level_nodes_outside zero idx l i base h = refl
    level_nodes_outside (suc rounds) idx l i base h = elim (Option-cases (nodes low (idx * 2))) [
      | inl e ↦
          rw (level_nodes, below, e)
            (level_nodes_outside rounds (suc idx) l i base (within_step level rounds idx l i h).0)
      | inr (left, e) ↦
          rw (level_nodes-cons rounds idx left e, set_tree_nodes)
            (level_nodes_outside rounds (suc idx) l i _ (within_step level rounds idx l i h).0
              ∙ set_tree_node_other level idx _ base l i (within_step level rounds idx l i h).1)
    ]

    -- Rows that it writes.
    level_nodes_inside :
        (rounds idx i : ℕ) (left : Bytes) (base : Nodes)
        → ((k : ℕ) → idx ≤ k → k ≤ i → (x : Bytes) × (nodes low (k * 2) ≡ some x))
        → nodes low (i * 2) ≡ some left
        → idx ≤ i
        → i < idx + rounds
        → set_tree_nodes (level_nodes sha256 nodes level rounds idx) base level i
          ≡ some (combine left (nodes low (i * 2 + 1)))
    unfolding set_tree_nodes
    level_nodes_inside zero idx i left base there e lo hi = absurd (omega arith)
    level_nodes_inside (suc rounds) idx i left base there e lo hi = elim (Bool-cases (i == idx)) [
      | inl same ↦
          let at : i ≡ idx = ground arith in
          subst
            (λ (k : ℕ).
              set_tree_nodes (level_nodes sha256 nodes level (suc rounds) idx) base level k
              ≡ some (combine left (nodes low (k * 2 + 1))))
            (sym at)
            (rw
              (
                level_nodes-cons rounds idx left
                    (subst (λ (k : ℕ). nodes low (k * 2) ≡ some left) at e),
                set_tree_nodes,
              )
              (level_nodes_outside rounds (suc idx) level idx _ (within_next level rounds idx)
                ∙ set_tree_node_same level idx _ base))
      | inr later ↦
          let (x, first) = there idx (le_refl idx) lo in
          rw (level_nodes-cons rounds idx x first, set_tree_nodes)
            (level_nodes_inside rounds (suc idx) i left _ (λ k a b. there k (omega arith) b) e
              (ground arith) (omega arith))
    ]

  module _ (hash_at : ℕ → Bytes) where
    -- The table holds what belongs there, at the levels that `recomputeInterior` keeps.
    abbrev pub Stored : Nodes → ℕ → Type 0
    Stored nodes size = (l i : ℕ) → l < 64 → nodes l i ≡ expected sha256 hash_at size l i

    -- Halfway: the new tree's hashes below a level, the old tree's from it on.
    abbrev Mixed : Nodes → ℕ → ℕ → ℕ → Type 0
    Mixed nodes old new level =
        ((l i : ℕ) → l < level → l < 64 → nodes l i ≡ expected sha256 hash_at new l i)
        × ((l i : ℕ)
            → level ≤ l
            → l < 64
            → Settled old l i
            → nodes l i ≡ expected sha256 hash_at old l i)

    pub expected-there :
        (size l i : ℕ)
        → i * 2 ^ l < size
        → expected sha256 hash_at size l i ≡ some (ragged sha256 hash_at size l i)
    unfolding expected
    expected-there size l i h = let t : ltb (i * 2 ^ l) size ≡ true = ground arith in rw t refl

    pub expected-past : (size l i : ℕ) → size ≤ i * 2 ^ l → expected sha256 hash_at size l i ≡ none
    unfolding expected
    expected-past size l i h = let t : ltb (i * 2 ^ l) size ≡ false = ground arith in rw t refl

    -- A parent's hash from its children's.
    expected-parent :
        (size l i : ℕ)
        → i * 2 ^ suc l < size
        → some (
            combine
              (ragged sha256 hash_at size l (i * 2))
              (expected sha256 hash_at size l (i * 2 + 1)))
          ≡ expected sha256 hash_at size (suc l) i
    unfolding expected combine ragged
    expected-parent size l i h = elim (Bool-cases (ltb ((i * 2 + 1) * 2 ^ l) size)) [
      | inl two ↦ rw (there, two) refl
      | inr one ↦ rw (there, one) refl
    ]
      where
        there : ltb (i * 2 ^ suc l) size ≡ true
        there = ground arith

    -- A node that was complete keeps its hash.
    expected_complete :
        (old new l i : ℕ)
        → (i + 1) * 2 ^ l ≤ old
        → old < new
        → expected sha256 hash_at old l i ≡ expected sha256 hash_at new l i
    expected_complete old new l i h lt =
        expected-there old l i (omega (arith, pow_pos l))
        ∙ ap some (
            ragged-perfect sha256 hash_at old l i h
            ∙ sym (ragged-perfect sha256 hash_at new l i (omega arith)))
        ∙ sym (expected-there new l i (omega (arith, pow_pos l)))

    -- One level: every row of it is right afterwards.
    module _ (nodes : Nodes) (old new k : ℕ) (grows : old < new) (small : suc k < 64)
        (mixed : Mixed nodes old new (suc k)) where
      abbrev first : ℕ
      first = old / 2 ^ suc k

      abbrev last : ℕ
      last = (new - 1) / 2 ^ suc k

      child_there :
          (i : ℕ) → i ≤ last → nodes k (i * 2) ≡ some (ragged sha256 hash_at new k (i * 2))
      child_there i h =
          mixed.0 k (i * 2) (omega arith) (omega arith)
          ∙ expected-there new k (i * 2) (
              omega (
                arith,
                mul-le-mul_right (2 ^ suc k) h,
                div-mul-le_self (new - 1) (2 ^ suc k),
                twice,
                grows,
              ))
        where
          twice : i * 2 * 2 ^ k ≡ i * 2 ^ suc k
          twice = omega (arith, ap (λ (t : ℕ). i * t) (pow_suc k))

      in_order : first ≤ last
      in_order = quot_mono old (new - 1) (2 ^ suc k) (pow_pos (suc k)) (omega arith)

      level_value :
          (base : Nodes) (i : ℕ)
          → (Settled old (suc k) i → base (suc k) i ≡ expected sha256 hash_at old (suc k) i)
          → set_tree_nodes
              (level_nodes sha256 nodes (suc k) (suc last - first) first)
              base
              (suc k)
              i
            ≡ expected sha256 hash_at new (suc k) i
      level_value base i h = elim (Bool-cases (leb first i && leb i last)) [
        | inl inside ↦
            level_nodes_inside nodes (suc k) k (omega arith) (suc last - first) first i
              (ragged sha256 hash_at new k (i * 2)) base
              (λ m a b. (
                ragged sha256 hash_at new k (m * 2),
                child_there m (omega (arith, both first i last inside)),
              ))
              (child_there i (both first i last inside).1) (both first i last inside).0
              (omega (arith, both first i last inside))
            ∙ ap (λ (o : Option Bytes). some (combine (ragged sha256 hash_at new k (i * 2)) o))
                (mixed.0 k (i * 2 + 1) (omega arith) (omega arith))
            ∙ expected-parent new k i (
                omega (
                  arith,
                  mul-le-mul_right (2 ^ suc k) (both first i last inside).1,
                  div-mul-le_self (new - 1) (2 ^ suc k),
                  grows,
                ))
        | inr outside ↦
            level_nodes_outside nodes (suc k) k (omega arith) (suc last - first) first (suc k) i
              base (not_within (suc k) first i last in_order outside)
            ∙ elim (Bool-cases (leb first i)) [
              | inl past ↦
                  let far : last < i = beyond first i last outside past in
                  let high : new ≤ i * 2 ^ suc k = omega (
                    arith,
                    mul-le-mul_right (2 ^ suc k) far,
                    lt-div-mul-add {a = new - 1} (pow_pos (suc k)),
                    grows,
                  ) in
                  h (inr (omega arith))
                  ∙ expected-past old (suc k) i (omega arith)
                  ∙ sym (expected-past new (suc k) i high)
              | inr before ↦
                  let whole : (i + 1) * 2 ^ suc k ≤ old = omega (
                    arith,
                    mul-le-mul_right (2 ^ suc k) (not_leb first i before),
                    div-mul-le_self old (2 ^ suc k),
                  ) in
                  h (inl whole) ∙ expected_complete old new (suc k) i whole grows
            ]
      ]

      -- The level done, the loop goes on with the next.
      level-Mixed :
          Mixed
            (set_tree_nodes (level_nodes sha256 nodes (suc k) (suc last - first) first) nodes)
            old
            new
            (suc (suc k))
      level-Mixed = (
        (λ l i lt ok. elim (Bool-cases (l == suc k)) [
          | inl this ↦
              let at : l ≡ suc k = ground arith in
              subst
                (λ (m : ℕ).
                  set_tree_nodes (level_nodes sha256 nodes (suc k) (suc last - first) first) nodes m
                    i
                  ≡ expected sha256 hash_at new m i)
                (sym at) (level_value nodes i (mixed.1 (suc k) i (omega arith) small))
          | inr other ↦
              level_nodes_outside nodes (suc k) k (omega arith) (suc last - first) first l i nodes
                (not_this (suc k) (suc last - first) first l i other)
              ∙ mixed.0 l i (ground arith) ok
        ]),
        (λ l i le ok settled.
            level_nodes_outside nodes (suc k) k (omega arith) (suc last - first) first l i nodes
              (not_this (suc k) (suc last - first) first l i (ground arith))
            ∙ mixed.1 l i (omega arith) ok settled),
      )

      level_step :
          (rounds : ℕ)
          → recompute_levels sha256 (suc rounds) (suc k) old new nodes
            ≡ recompute_levels sha256 rounds
                (suc (suc k))
                old
                new
                (set_tree_nodes (level_nodes sha256 nodes (suc k) (suc last - first) first) nodes)
      unfolding recompute_levels
      level_step rounds =
          let cons =
            level_nodes-cons nodes (suc k) k (omega arith) (last - first) first _
              (child_there first in_order) in
          let count : suc last - first ≡ suc (last - first) = omega (arith, in_order) in
          rw (recompute_levels, goes_on, count, cons) refl
        where
          goes_on : (new == 0 || ltb last first) ≡ false
          goes_on = ground (arith, in_order)

    recompute_levels_lem :
        (rounds k : ℕ) (nodes : Nodes) (old new : ℕ)
        → old < new
        → rounds + suc k ≡ 64
        → Mixed nodes old new (suc k)
        → Stored (recompute_levels sha256 rounds (suc k) old new nodes) new
    recompute_levels_lem zero k nodes old new lt e mixed =
        λ l i small. unfold recompute_levels in mixed.0 l i (omega arith) small
    recompute_levels_lem (suc rounds) k nodes old new lt e mixed =
        rw (level_step nodes old new k lt (omega arith) mixed rounds) (
          recompute_levels_lem rounds (suc k) _ old new lt (omega arith)
            (level-Mixed nodes old new k lt (omega arith) mixed))

    -- With the new leaves in their rows and the old tree's settled hashes above them, every row of the levels
    -- below 64 holds the new tree's hash afterwards.
    pub recompute_interior_lem :
        (nodes : Nodes) (old new : ℕ)
        → old < new
        → ((i : ℕ) → nodes 0 i ≡ expected sha256 hash_at new 0 i)
        → ((l i : ℕ)
            → 0 < l
            → l < 64
            → Settled old l i
            → nodes l i ≡ expected sha256 hash_at old l i)
        → Stored (recompute_interior sha256 old new nodes) new
    unfolding recompute_interior
    recompute_interior_lem nodes old new lt leaves above =
        recompute_levels_lem 63 0 nodes old new lt refl (
          (λ l i low ok.
              let at : l ≡ 0 = omega arith in
              subst (λ (m : ℕ). nodes m i ≡ expected sha256 hash_at new m i) (sym at) (leaves i)),
          (λ l i low ok settled. above l i (omega arith) ok settled),
        )
