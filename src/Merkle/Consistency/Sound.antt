-- ===== src/Merkle/Consistency/Sound.antt =====
-- What an accepted consistency proof says of the old root.
use mathlib.Core.Path.{ap₂}
use ca_extension_mtc_playgro.Prelude.{
  ℕ, zero, suc, ◌+◌, ◌-◌, ◌^◌, ◌≤◌, ◌<◌, ◌≡◌, refl, sym, ap, ◌∙◌, List, [], ◌∷◌, inl, inr, ◌⊎◌,
  some, Bool, true, false, All, get_elem?, leb, ◌==◌, arith, Bool-cases,
}
use ca_extension_mtc_playgro.Prelude.Int.{pos}
use ca_extension_mtc_playgro.Prelude.Result.{
  Result, ok, err, panic, stuck, ◌>>=◌, ok_inj, >>=-eq-ok,
}
use ca_extension_mtc_playgro.Bytes.{Bytes, bytes_eq, bytes_eq→eq}
use ca_extension_mtc_playgro.Merkle.Hash.{Error, split_point, interior_hash, subtree_hash}
use ca_extension_mtc_playgro.Merkle.Collision.{Collision, Is32, interior_hash_inj}
use ca_extension_mtc_playgro.Merkle.Shape.{
  Shape, leaf, node, root, root-Is32, build, compute_subtree_hash-root,
}
use ca_extension_mtc_playgro.Merkle.Consistency.{
  next_hash, verify_consistency_rec, accept, verify_consistency,
}
use ca_extension_mtc_playgro.Merkle.Consistency.Prefix.{
  prefix_root, prefix_root_all, prefix_root_inside, prefix_root_beyond, prefix_root-root,
}

get_elem?-Is32 :
    (proof : List Bytes) (at : ℕ) (hash : Bytes)
    → All Is32 proof
    → get_elem? proof at ≡ some hash
    → Is32 hash
get_elem?-Is32 [] at hash a h = cc
get_elem?-Is32 (x ∷ xs) zero hash a h = let e : x ≡ hash = cc in rw (← e) a.0
get_elem?-Is32 (x ∷ xs) (suc at) hash a h = get_elem?-Is32 xs at hash a.1 h

next_hash-Is32 :
    (proof : List Bytes) (at : ℕ) (hash : Bytes) (at' : ℕ)
    → All Is32 proof
    → next_hash proof at ≡ ok (hash, at')
    → Is32 hash
unfolding next_hash
next_hash-Is32 proof at hash at' a h = get_elem?-Is32 proof at hash a (ground arith)

module _ (sha256 : Bytes → Bytes) where
  -- What a successful step at an inner node has read, on each side of the split.
  module _ (fuel m n k : ℕ) (open_right : Bool) (pass : Bytes) (proof : List Bytes) (at : ℕ)
      (old new : Bytes) (at'' : ℕ) (part : (m == n) ≡ false) (e : split_point n ≡ ok k)
      (h : verify_consistency_rec sha256 (suc fuel) m n open_right pass proof at
        ≡ ok (old, new, at'')) where
    read_inside :
        leb m k ≡ true
        → (left : Bytes) × (right : Bytes) × (at' : ℕ) × (verify_consistency_rec sha256 fuel m k
              open_right pass proof at
            ≡ ok (old, left, at'))
          × (next_hash proof at' ≡ ok (right, at''))
          × (new ≡ interior_hash sha256 left right)
    unfolding verify_consistency_rec
    read_inside inside =
        let (x, first, rest) =
          >>=-eq-ok (verify_consistency_rec sha256 fuel m k open_right pass proof at)
            (λ x. next_hash proof x.2 >>= λ y. ok (x.0, interior_hash sha256 x.1 y.0, y.1))
            (rw (verify_consistency_rec, part, e, ◌>>=◌, inside) at h) in
        let (y, second, last) =
          >>=-eq-ok (next_hash proof x.2) (λ y. ok (x.0, interior_hash sha256 x.1 y.0, y.1)) rest in
        let same = ok_inj _ _ last in
        (
          x.1,
          y.0,
          x.2,
          first ∙ ap (λ t. ok (t.0, x.1, x.2)) same,
          second ∙ ap (λ t. ok (y.0, t.2)) same,
          sym (ap (λ t. t.1) same),
        )

    read_beyond :
        leb m k ≡ false
        → (left : Bytes) × (old' : Bytes) × (new' : Bytes) × (at' : ℕ) × (verify_consistency_rec
              sha256 fuel
              (m - k)
              (n - k)
              false
              []
              proof
              at
            ≡ ok (old', new', at'))
          × (next_hash proof at' ≡ ok (left, at''))
          × (old ≡ interior_hash sha256 left old')
          × (new ≡ interior_hash sha256 left new')
    unfolding verify_consistency_rec
    read_beyond beyond =
        let (x, first, rest) =
          >>=-eq-ok (verify_consistency_rec sha256 fuel (m - k) (n - k) false [] proof at)
            (λ x. next_hash proof x.2 >>= λ y.
              ok (interior_hash sha256 y.0 x.0, interior_hash sha256 y.0 x.1, y.1))
            (rw (verify_consistency_rec, part, e, ◌>>=◌, beyond) at h) in
        let (y, second, last) =
          >>=-eq-ok (next_hash proof x.2)
            (λ y. ok (interior_hash sha256 y.0 x.0, interior_hash sha256 y.0 x.1, y.1)) rest in
        let same = ok_inj _ _ last in
        (
          y.0,
          x.0,
          x.1,
          x.2,
          first,
          second ∙ ap (λ t. ok (y.0, t.2)) same,
          sym (ap (λ t. t.0) same),
          sym (ap (λ t. t.1) same),
        )

  read-All :
      (fuel m n : ℕ) (open_right : Bool) (pass : Bytes) (proof : List Bytes) (at : ℕ)
      (old new : Bytes) (at' : ℕ)
      → (m == n) ≡ true
      → (open_right ≡ true → Is32 pass)
      → All Is32 proof
      → verify_consistency_rec sha256 (suc fuel) m n open_right pass proof at ≡ ok (old, new, at')
      → (old ≡ new) × Is32 new
  unfolding verify_consistency_rec
  read-All fuel m n true pass proof at old new at' all wp a h =
      let same = ok_inj _ _ (rw (verify_consistency_rec, all) at h) in
      (sym (ap (λ t. t.0) same) ∙ ap (λ t. t.1) same, rw (← ap (λ t. t.1) same) (wp refl))
  read-All fuel m n false pass proof at old new at' all wp a h =
      let (x, first, last) =
        >>=-eq-ok (next_hash proof at) (λ x. ok (x.0, x.0, x.1))
          (rw (verify_consistency_rec, all) at h) in
      let same = ok_inj _ _ last in
      (
        sym (ap (λ t. t.0) same) ∙ ap (λ t. t.1) same,
        rw (← ap (λ t. t.1) same) (next_hash-Is32 proof at x.0 x.1 a first),
      )

  module _ (hash_at : ℕ → Bytes) (wide : (x : Bytes) → Is32 (sha256 x))
      (leaves : (i : ℕ) → Is32 (hash_at i)) (proof : List Bytes) (hashes : All Is32 proof) where
    interior-Is32 : (left right new : Bytes) → new ≡ interior_hash sha256 left right → Is32 new
    unfolding interior_hash
    interior-Is32 left right new e = rw e (wide _)

    new-Is32 :
        {fuel n : ℕ} (t : Shape fuel n) (m : ℕ) (open_right : Bool) (pass : Bytes) (at : ℕ)
        (old new : Bytes) (at' : ℕ)
        → 0 < m
        → m ≤ n
        → (open_right ≡ true → Is32 pass)
        → verify_consistency_rec sha256 fuel m n open_right pass proof at ≡ ok (old, new, at')
        → Is32 new
    new-Is32 {n = n} (leaf {fuel = f} e) m open_right pass at old new at' p q wp h =
        (read-All f m n open_right pass proof at old new at' (ground arith) wp hashes h).1
    new-Is32 {n = n} (node {fuel = f} j e lo hi left right) m open_right pass at old new at' p q wp
          h =
        elim (Bool-cases (m == n)) [
          | inl all ↦ (read-All f m n open_right pass proof at old new at' all wp hashes h).1
          | inr part ↦ elim (Bool-cases (leb m (2 ^ j))) [
            | inl inside ↦
                let (l, r, a, _, _, is) =
                  read_inside f m n _ open_right pass proof at old new at' part e h inside in
                interior-Is32 l r new is
            | inr beyond ↦
                let (l, o, v, a, _, _, _, is) =
                  read_beyond f m n _ open_right pass proof at old new at' part e h beyond in
                interior-Is32 l v new is
          ]
        ]

    verify_consistency_rec_sound :
        {fuel n : ℕ} (t : Shape fuel n) (m start : ℕ) (open_right : Bool) (pass : Bytes) (at : ℕ)
        (old new : Bytes) (at' : ℕ)
        → 0 < m
        → m ≤ n
        → (open_right ≡ true → Is32 pass)
        → verify_consistency_rec sha256 fuel m n open_right pass proof at ≡ ok (old, new, at')
        → new ≡ root sha256 hash_at start t
        → (old ≡ prefix_root sha256 hash_at m start t) ⊎ Collision sha256
    unfolding root
    verify_consistency_rec_sound {n = n} (leaf {fuel = f} e) m start open_right pass at old new at'
          p q wp h eq =
        inl (
          (read-All f m n open_right pass proof at old new at' (ground arith) wp hashes h).0
          ∙ eq
          ∙ sym (prefix_root_all sha256 hash_at (leaf {fuel = f} e) m start (ground arith)))
    verify_consistency_rec_sound {n = n} (node {fuel = f} j e lo hi left right) m start open_right
          pass at old new at' p q wp h eq =
        elim (Bool-cases (m == n)) [
          | inl all ↦ inl (
              (read-All f m n open_right pass proof at old new at' all wp hashes h).0
              ∙ eq
              ∙ sym (prefix_root_all sha256 hash_at (node j e lo hi left right) m start all))
          | inr part ↦ elim (Bool-cases (leb m (2 ^ j))) [
            | inl inside ↦
                let (l, r, a, first, _, is) =
                  read_inside f m n _ open_right pass proof at old new at' part e h inside in
                let l32 = new-Is32 left m open_right pass at old l a p (ground arith) wp first in
                elim (interior_hash_inj sha256 _ _ _ _
                  (l32 ∙ sym (root-Is32 sha256 hash_at wide leaves left start)) (sym is ∙ eq)) [
                    | inl same ↦
                        elim (verify_consistency_rec_sound left m start open_right pass at old l a p
                          (ground arith) wp first same.0) [
                            | inl good ↦ inl (
                                good
                                ∙ sym (
                                    prefix_root_inside sha256 hash_at j e lo hi left right m start
                                      part inside))
                            | inr c ↦ inr c
                          ]
                    | inr c ↦ inr c
                  ]
            | inr beyond ↦
                let (l, o, v, a, first, second, was, is) =
                  read_beyond f m n _ open_right pass proof at old new at' part e h beyond in
                elim (interior_hash_inj sha256 _ _ _ _
                  (next_hash-Is32 proof a l at' hashes second
                    ∙ sym (root-Is32 sha256 hash_at wide leaves left start))
                  (sym is ∙ eq)) [
                    | inl same ↦
                        elim (verify_consistency_rec_sound right (m - 2 ^ j) (start + 2 ^ j) false
                          [] at o v a (ground arith) (omega arith) (λ z. cc) first same.1) [
                            | inl good ↦ inl (
                                was
                                ∙ ap₂ (interior_hash sha256) same.0 good
                                ∙ sym (
                                    prefix_root_beyond sha256 hash_at j e lo hi left right m start
                                      part beyond))
                            | inr c ↦ inr c
                          ]
                    | inr c ↦ inr c
                  ]
          ]
        ]

accept-true :
    (old_root new_root : Bytes) (proof : List Bytes) (r : Result Error (Bytes × Bytes × ℕ))
    → accept old_root new_root proof r ≡ ok true
    → (at : ℕ) × (r ≡ ok (old_root, new_root, at))
unfolding accept
accept-true old_root new_root proof (ok (old, new, at)) h =
    let both : (bytes_eq old old_root ≡ true) × (bytes_eq new new_root ≡ true) = ground arith in
    (
      at,
      ap (λ (x : Bytes). ok (x, new, at)) (bytes_eq→eq old old_root both.0)
          ∙ ap (λ (x : Bytes). ok (old_root, x, at)) (bytes_eq→eq new new_root both.1),
    )
accept-true old_root new_root proof (err e) h = cc
accept-true old_root new_root proof panic h = cc
accept-true old_root new_root proof stuck h = cc

-- Take a tree of at most 2 ^ 63 leaf hashes of 32 bytes, and an old size from 1 up to its size. If
-- `VerifyConsistency` accepts a proof of 32-byte hashes for an old root of 32 bytes and the root of that
-- tree, then the old root is the root of the tree's first `old_size` leaves, or two byte strings with
-- one SHA-256 hash are at hand.
pub verify_consistency_sound :
    (sha256 : Bytes → Bytes) (hash_at : ℕ → Bytes) (old_size new_size : ℕ) (proof : List Bytes)
    (old_root new_root : Bytes)
    → ((input : Bytes) → Is32 (sha256 input))
    → ((i : ℕ) → Is32 (hash_at i))
    → All Is32 proof
    → Is32 old_root
    → 0 < old_size
    → old_size ≤ new_size
    → new_size ≤ 2 ^ 63
    → subtree_hash sha256 hash_at 0 new_size ≡ ok new_root
    → verify_consistency sha256 (pos old_size) (pos new_size) proof old_root new_root ≡ ok true
    → (subtree_hash sha256 hash_at 0 old_size ≡ ok old_root) ⊎ Collision sha256
unfolding subtree_hash verify_consistency
verify_consistency_sound sha256 hash_at m n proof old_root new_root wide leaves hashes old32 p q
      fits is_root accepted =
    elim (Bool-cases (m == n)) [
      | inl all ↦
          let agree : bytes_eq old_root new_root ≡ true = ground arith in
          let same : m ≡ n = ground arith in
          inl (rw (same, bytes_eq→eq old_root new_root agree) is_root)
      | inr part ↦
          let taken : accept old_root new_root proof
                (verify_consistency_rec sha256 64 m n true old_root proof 0)
              ≡ ok true =
            ground arith in
          let (at, ran) = accept-true old_root new_root proof _ taken in
          elim (verify_consistency_rec_sound sha256 hash_at wide leaves proof hashes new m 0 true
            old_root 0 old_root new_root at p q (λ _. old32) ran
            (ok_inj _ _
              (sym is_root ∙ compute_subtree_hash-root sha256 hash_at new 0 n (omega arith)))) [
                | inl good ↦ inl (
                    compute_subtree_hash-root sha256 hash_at old 0 m (omega arith)
                    ∙ ap ok (sym (good ∙ prefix_root-root sha256 hash_at new old m 0 refl p q)))
                | inr c ↦ inr c
              ]
    ]
  where
    new : Shape 64 n
    new = build 63 n (omega arith) fits (omega arith)

    old : Shape 64 m
    old = build 63 m p (omega arith) (omega arith)
