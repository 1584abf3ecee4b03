-- ===== src/Format/Signatures/RoundTrip.antt =====
-- What `marshalSignatures` writes is what `unmarshalSignatures` reads, both ways.
use ca_extension_mtc_playgro.Prelude.{
  ℕ, zero, suc, ◌≤◌, ◌<◌, ◌≡◌, refl, ap, ◌∙◌, sym, List, inl, inr, [], ◌∷◌, ◌++◌, false, All,
  All-append, length, length-append, take, drop, take-append-drop, length-take, ltb, ◌==◌,
  Bool-cases, arith,
}
use ca_extension_mtc_playgro.Prelude.Result.{Result, ok, ok_inj, ◌>>=◌, >>=-eq-ok}
use ca_extension_mtc_playgro.Bytes.{Bytes, IsByte, be, un_be, length-be, un_be-be, be-un_be}
use ca_extension_mtc_playgro.Format.Signatures.{
  Error, MtcSignature, cut, check_signatures, write_signatures, read_signatures,
}

pub take-append : (n : ℕ) (xs ys : Bytes) → length xs ≡ n → take n (xs ++ ys) ≡ xs
take-append zero [] ys h = refl
take-append (suc n) [] ys h = absurd (omega arith)
take-append zero (x ∷ xs) ys h = absurd (omega arith)
take-append (suc n) (x ∷ xs) ys h = ap (λ (zs : Bytes). x ∷ zs) (take-append n xs ys (omega arith))

pub drop-append : (n : ℕ) (xs ys : Bytes) → length xs ≡ n → drop n (xs ++ ys) ≡ ys
drop-append zero [] ys h = refl
drop-append (suc n) [] ys h = absurd (omega arith)
drop-append zero (x ∷ xs) ys h = absurd (omega arith)
drop-append (suc n) (x ∷ xs) ys h = drop-append n xs ys (omega arith)

-- A part of known length is cut off the front.
pub cut-append :
    (e : Error) (n : ℕ) (xs ys : Bytes) → length xs ≡ n → cut e n (xs ++ ys) ≡ ok (xs, ys)
unfolding cut
cut-append e n xs ys h = rw (cut, enough, take-append n xs ys h, drop-append n xs ys h)
  where
    enough : ltb (length (xs ++ ys)) n ≡ false
    enough = ground (arith, length-append xs ys)

-- What a successful cut has read.
pub cut-eq-ok :
    (e : Error) (n : ℕ) (input : Bytes) (p : Bytes × Bytes)
    → cut e n input ≡ ok p
    → (input ≡ p.0 ++ p.1) × (length p.0 ≡ n)
unfolding cut
cut-eq-ok e n input p h = elim (Bool-cases (ltb (length input) n)) [
  | inl short ↦ cc (h, short)
  | inr enough ↦
      let e' = ok_inj _ p (rw enough at h) in
      (
        sym (take-append-drop n input) ∙ ap (λ (q : Bytes × Bytes). q.0 ++ q.1) e',
        ap (λ (q : Bytes × Bytes). length q.0) (sym e') ∙ length-take n input ∙ ground arith,
      )
]

check-cons :
    (s : MtcSignature) (rest : List MtcSignature)
    → check_signatures (s ∷ rest) ≡ ok tt
    → (0 < length s.cosigner_id)
      × (length s.cosigner_id < 256)
      × (length s.signature < 65536)
      × (check_signatures rest ≡ ok tt)
unfolding check_signatures
check-cons s rest h = ground arith

module _ (s : MtcSignature) (rest : List MtcSignature) (short : length s.cosigner_id < 256) where
  write-cons :
      write_signatures (s ∷ rest)
      ≡ length s.cosigner_id
        ∷ (s.cosigner_id ++ (be 2 (length s.signature) ++ (s.signature ++ write_signatures rest)))
  unfolding write_signatures be
  write-cons =
      ap
        (λ (x : ℕ).
          x
          ∷ (s.cosigner_id
              ++ (be 2 (length s.signature) ++ (s.signature ++ write_signatures rest))))
        (omega arith)

  length-write-cons : length (write_signatures rest) < length (write_signatures (s ∷ rest))
  length-write-cons = omega (
    arith,
    ap length write-cons,
    length-append s.cosigner_id
        (be 2 (length s.signature) ++ (s.signature ++ write_signatures rest)),
    length-append (be 2 (length s.signature)) (s.signature ++ write_signatures rest),
    length-append s.signature (write_signatures rest),
  )

step :
    (s : MtcSignature) (tail : Bytes) (fuel : ℕ) (sigs : List MtcSignature)
    → 0 < length s.cosigner_id
    → length s.signature < 65536
    → read_signatures fuel tail ≡ ok sigs
    → read_signatures (suc fuel) (
        length s.cosigner_id
        ∷ (s.cosigner_id ++ (be 2 (length s.signature) ++ (s.signature ++ tail))))
      ≡ ok (s ∷ sigs)
unfolding read_signatures
step s tail fuel sigs a c ih = rw (
  read_signatures,
  nonzero,
  ◌>>=◌,
  cut-append _ _ s.cosigner_id (be 2 (length s.signature) ++ (s.signature ++ tail)) refl,
  cut-append _ 2 (be 2 (length s.signature)) (s.signature ++ tail) (length-be 2 _),
  un_be-be 2 (length s.signature) c,
  cut-append _ _ s.signature tail refl,
  ih,
)
  where
    nonzero : (length s.cosigner_id == 0) ≡ false
    nonzero = ground arith

-- Signatures that pass the checks of `marshalSignatures` are read back from what it writes, by any fuel
-- from the length of that on.
pub read_signatures-write_signatures :
    (sigs : List MtcSignature) (fuel : ℕ)
    → check_signatures sigs ≡ ok tt
    → length (write_signatures sigs) ≤ fuel
    → read_signatures fuel (write_signatures sigs) ≡ ok sigs
read_signatures-write_signatures [] fuel h enough = unfold read_signatures write_signatures in refl
read_signatures-write_signatures (s ∷ rest) zero h enough =
    let (a, b, c, d) = check-cons s rest h in absurd (omega (arith, length-write-cons s rest b))
read_signatures-write_signatures (s ∷ rest) (suc fuel) h enough =
    let (a, b, c, d) = check-cons s rest h in
    let ih =
      read_signatures-write_signatures rest fuel d (omega (arith, length-write-cons s rest b)) in
    rw (write-cons s rest b) (step s (write_signatures rest) fuel rest a c ih)

-- What a successful round of the loop has read.
record Round (fuel id_len : ℕ) (rest : Bytes) (sigs : List MtcSignature) : Type 0 where
  sig : MtcSignature
  more : List MtcSignature
  sig_len : Bytes
  tail : Bytes
  is : sigs ≡ sig ∷ more
  read_more : read_signatures fuel tail ≡ ok more
  layout : rest ≡ sig.cosigner_id ++ (sig_len ++ (sig.signature ++ tail))
  nonzero : 0 < id_len
  id_size : length sig.cosigner_id ≡ id_len
  len_size : length sig_len ≡ 2
  sig_size : length sig.signature ≡ un_be 0 sig_len

-- The rounds of the loop behind the cosigner's id, its length and the signature.
after_sig : ℕ → Bytes → Bytes × Bytes → Result Error (List MtcSignature)
after_sig fuel id t = do
  sigs ← read_signatures fuel t.1
  ok (record { cosigner_id = id; signature = t.0 } ∷ sigs)

after_len : ℕ → Bytes → Bytes × Bytes → Result Error (List MtcSignature)
after_len fuel id q = cut Error.truncated_sig (un_be 0 q.0) q.1 >>= after_sig fuel id

after_id : ℕ → Bytes × Bytes → Result Error (List MtcSignature)
after_id fuel p = cut Error.truncated_sig_length 2 p.1 >>= after_len fuel p.0

round :
    (fuel id_len : ℕ) (rest : Bytes) (sigs : List MtcSignature)
    → read_signatures (suc fuel) (id_len ∷ rest) ≡ ok sigs
    → Round fuel id_len rest sigs
unfolding read_signatures after_id after_len after_sig
round fuel id_len rest sigs h = elim (Bool-cases (id_len == 0)) [
  | inl none_there ↦ cc (rw (read_signatures, none_there, ◌>>=◌) at h)
  | inr some_there ↦
      let (p, cut_p, h1) =
        >>=-eq-ok (cut Error.truncated_id id_len rest) (after_id fuel)
          (rw (read_signatures, some_there, ◌>>=◌) at h) in
      let (q, cut_q, h2) =
        >>=-eq-ok (cut Error.truncated_sig_length 2 p.1) (after_len fuel p.0) h1 in
      let (t, cut_t, h3) =
        >>=-eq-ok (cut Error.truncated_sig (un_be 0 q.0) q.1) (after_sig fuel p.0) h2 in
      let (more, read, made) =
        >>=-eq-ok (read_signatures fuel t.1)
          (λ sigs. ok (record { cosigner_id = p.0; signature = t.0 } ∷ sigs)) h3 in
      let fp = cut-eq-ok Error.truncated_id id_len rest p cut_p in
      let fq = cut-eq-ok Error.truncated_sig_length 2 p.1 q cut_q in
      let ft = cut-eq-ok Error.truncated_sig (un_be 0 q.0) q.1 t cut_t in
      record {
        sig = record { cosigner_id = p.0; signature = t.0 };
        more = more;
        sig_len = q.0;
        tail = t.1;
        is = sym (ok_inj _ _ made);
        read_more = read;
        layout = fp.0 ∙ ap (λ (x : Bytes). p.0 ++ x) (fq.0 ∙ ap (λ (x : Bytes). q.0 ++ x) ft.0);
        nonzero = ground arith;
        id_size = fp.1;
        len_size = fq.1;
        sig_size = ft.1;
      }
]

pub un_be_2 : (bs : Bytes) → length bs ≡ 2 → All IsByte bs → un_be 0 bs < 65536
unfolding un_be
un_be_2 [] h a = absurd (omega arith)
un_be_2 (x ∷ []) h a = absurd (omega arith)
un_be_2 (x ∷ y ∷ []) h a = omega arith
un_be_2 (x ∷ y ∷ z ∷ bs) h a = absurd (omega arith)

check_signatures-cons :
    (s : MtcSignature) (rest : List MtcSignature)
    → 0 < length s.cosigner_id
    → length s.cosigner_id < 256
    → length s.signature < 65536
    → check_signatures rest ≡ ok tt
    → check_signatures (s ∷ rest) ≡ ok tt
unfolding check_signatures
check_signatures-cons s rest a b c d = ground arith

-- Bytes that `unmarshalSignatures` accepts are those that `marshalSignatures` writes of the signatures
-- read, which pass its checks.
pub write_signatures-read_signatures :
    (fuel : ℕ) (wire : Bytes) (sigs : List MtcSignature)
    → All IsByte wire
    → read_signatures fuel wire ≡ ok sigs
    → (check_signatures sigs ≡ ok tt) × (write_signatures sigs ≡ wire)
write_signatures-read_signatures fuel [] [] bytes h =
    unfold check_signatures write_signatures in (refl, refl)
write_signatures-read_signatures fuel [] (s ∷ sigs) bytes h = unfold read_signatures in cc
write_signatures-read_signatures zero (b ∷ rest) sigs bytes h = unfold read_signatures in cc
write_signatures-read_signatures (suc fuel) (id_len ∷ rest) sigs bytes h =
    let r = round fuel id_len rest sigs h in
    let all : All IsByte (r.sig.cosigner_id ++ (r.sig_len ++ (r.sig.signature ++ r.tail))) =
      rw r.layout at bytes.1 in
    let all_len =
      All-append IsByte r.sig_len (r.sig.signature ++ r.tail)
        (All-append IsByte r.sig.cosigner_id _ all).1 in
    let ih =
      write_signatures-read_signatures fuel r.tail r.more
        (All-append IsByte r.sig.signature r.tail all_len.1).1 r.read_more in
    let short : length r.sig.cosigner_id < 256 = omega (arith, r.id_size, bytes.0) in
    let small : length r.sig.signature < 65536 =
      omega (arith, r.sig_size, un_be_2 r.sig_len r.len_size all_len.0) in
    let wide : be 2 (length r.sig.signature) ≡ r.sig_len =
      ap (be 2) r.sig_size ∙ be-un_be 2 r.sig_len r.len_size all_len.0 in
    rw r.is (
      check_signatures-cons r.sig r.more (omega (arith, r.id_size, r.nonzero)) short small ih.0,
      write-cons r.sig r.more short
          ∙ rw (wide, ih.1, r.id_size) (ap (λ (x : Bytes). id_len ∷ x) (sym r.layout)),
    )
