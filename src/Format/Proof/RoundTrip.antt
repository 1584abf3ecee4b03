-- ===== src/Format/Proof/RoundTrip.antt =====
-- What `MarshalProof` writes and `UnmarshalProof` reads.
use mathlib.Core.Path.{ap₂}
use ca_extension_mtc_playgro.Prelude.{
  ℕ, ◌*◌, ◌/◌, ◌%◌, ◌^◌, ◌≤◌, ◌<◌, ◌≡◌, refl, ap, sym, ◌∙◌, List, [], ◌∷◌, ◌++◌, true, false, not,
  length, length-append, ltb, leb, ◌==◌, arith,
}
use ca_extension_mtc_playgro.Prelude.Result.{ok, err, ok_inj, ◌>>=◌, reject, >>=-eq-ok}
use ca_extension_mtc_playgro.Bytes.{Bytes, be, un_be, length-be, un_be-be}
use ca_extension_mtc_playgro.Format.Signatures.{
  Error, check_signatures, write_signatures, marshal_signatures, unmarshal_signatures,
}
use ca_extension_mtc_playgro.Format.Signatures.RoundTrip.{
  take-append, drop-append, cut-append, read_signatures-write_signatures,
}
use ca_extension_mtc_playgro.Format.Proof.{
  MtcProof, hash_size, check_hashes, write_hashes, layout, marshal_proof, read_hashes,
  unmarshal_tail, unmarshal_body, unmarshal_proof,
}

check_hashes-cons :
    (h : Bytes) (hs : List Bytes)
    → check_hashes (h ∷ hs) ≡ ok tt
    → (length h ≡ 32) × (check_hashes hs ≡ ok tt)
unfolding check_hashes
check_hashes-cons h hs e = ground arith

length-write_hashes :
    (hs : List Bytes) → check_hashes hs ≡ ok tt → length (write_hashes hs) ≡ length hs * 32
unfolding write_hashes
length-write_hashes [] e = refl
length-write_hashes (h ∷ hs) e =
    let (size, rest) = check_hashes-cons h hs e in
    omega (arith, length-append h (write_hashes hs), length-write_hashes hs rest, size)

read_hashes-write_hashes :
    (hs : List Bytes) → check_hashes hs ≡ ok tt → read_hashes (length hs) (write_hashes hs) ≡ hs
unfolding read_hashes write_hashes
read_hashes-write_hashes [] e = refl
read_hashes-write_hashes (h ∷ hs) e =
    let (size, rest) = check_hashes-cons h hs e in
    rw (
      take-append 32 h (write_hashes hs) size,
      drop-append 32 h (write_hashes hs) size,
      read_hashes-write_hashes hs rest,
    )

-- The reader behind the two ends of the range.
read_ends :
    (s8 e8 body : Bytes)
    → length s8 ≡ 8
    → length e8 ≡ 8
    → 4 ≤ length body
    → un_be 0 s8 < un_be 0 e8
    → unmarshal_proof (s8 ++ (e8 ++ body)) ≡ unmarshal_body (un_be 0 s8) (un_be 0 e8) body
unfolding unmarshal_proof
read_ends s8 e8 body hs he hb nonempty = rw (
  unmarshal_proof,
  long,
  ◌>>=◌,
  drop-append 8 s8 (e8 ++ body) hs,
  take-append 8 s8 (e8 ++ body) hs,
  drop-append 8 e8 body he,
  take-append 8 e8 body he,
  ordered,
)
  where
    long : ltb (length (s8 ++ (e8 ++ body))) 20 ≡ false
    long = ground (arith, length-append s8 (e8 ++ body), length-append e8 body)

    ordered : leb (un_be 0 e8) (un_be 0 s8) ≡ false
    ordered = ground arith

-- The reader gets as far as the signatures.
module _ (p : MtcProof) (sigs : Bytes) (nonempty : p.start < p.end) (wide : p.end < 256 ^ 8)
    (few : length p.inclusion_proof * 32 < 65536)
    (sized : check_hashes p.inclusion_proof ≡ ok tt) where
  unmarshal_body-layout :
      unmarshal_body p.start p.end (
        be 2 (length p.inclusion_proof * 32)
        ++ (write_hashes p.inclusion_proof ++ (be 2 (length sigs) ++ sigs)))
      ≡ unmarshal_tail p.start p.end p.inclusion_proof (un_be 0 (be 2 (length sigs))) sigs
  unfolding unmarshal_body
  unmarshal_body-layout = rw (
    unmarshal_body,
    cut-append _ 2 (be 2 (length p.inclusion_proof * 32))
        (write_hashes p.inclusion_proof ++ (be 2 (length sigs) ++ sigs)) (length-be 2 _),
    un_be-be 2 (length p.inclusion_proof * 32) few,
    aligned,
    ◌>>=◌,
    cut-append _ _ (write_hashes p.inclusion_proof) (be 2 (length sigs) ++ sigs)
        (length-write_hashes p.inclusion_proof sized),
    cut-append _ 2 (be 2 (length sigs)) sigs (length-be 2 _),
    rounds,
    read_hashes-write_hashes p.inclusion_proof sized,
  )
    where
      aligned : not (length p.inclusion_proof * 32 % 32 == 0) ≡ false
      aligned = ground arith

      rounds : length p.inclusion_proof * 32 / 32 ≡ length p.inclusion_proof
      rounds = omega arith

  unmarshal_proof-layout :
      unmarshal_proof (layout p sigs)
      ≡ unmarshal_tail p.start p.end p.inclusion_proof (un_be 0 (be 2 (length sigs))) sigs
  unfolding layout
  unmarshal_proof-layout =
      read_ends (be 8 p.start) (be 8 p.end) body (length-be 8 _) (length-be 8 _) long
        (rw (start_back, end_back) nonempty)
      ∙ rw (start_back, end_back) unmarshal_body-layout
    where
      body : Bytes
      body =
          be 2 (length p.inclusion_proof * 32)
          ++ (write_hashes p.inclusion_proof ++ (be 2 (length sigs) ++ sigs))

      long : 4 ≤ length body
      long = omega (
        arith,
        length-append (be 2 (length p.inclusion_proof * 32))
            (write_hashes p.inclusion_proof ++ (be 2 (length sigs) ++ sigs)),
        length-append (write_hashes p.inclusion_proof) (be 2 (length sigs) ++ sigs),
        length-append (be 2 (length sigs)) sigs,
        length-be 2 (length p.inclusion_proof * 32),
        length-be 2 (length sigs),
      )

      start_back : un_be 0 (be 8 p.start) ≡ p.start
      start_back = un_be-be 8 p.start (omega arith)

      end_back : un_be 0 (be 8 p.end) ≡ p.end
      end_back = un_be-be 8 p.end wide

un_be-be_2 : (n : ℕ) → un_be 0 (be 2 n) ≡ n % 65536
unfolding be un_be
un_be-be_2 n = omega arith

be_2-wraps : (n : ℕ) → be 2 n ≡ be 2 (n % 65536)
unfolding be
be_2-wraps n =
    let high : n / 256 % 256 ≡ n % 65536 / 256 % 256 = omega arith in
    let low : n % 256 ≡ n % 65536 % 256 = omega arith in ap₂ (λ (a b : ℕ). a ∷ b ∷ []) high low

-- What a successful `MarshalProof` has tested and written.
record Marshalled (p : MtcProof) (wire : Bytes) : Type 0 where
  nonempty : p.start < p.end
  few : length p.inclusion_proof * 32 < 65536
  sized : check_hashes p.inclusion_proof ≡ ok tt
  checked : check_signatures p.signatures ≡ ok tt
  written : wire ≡ layout p (write_signatures p.signatures)

marshalled : (p : MtcProof) (wire : Bytes) → marshal_proof p ≡ ok wire → Marshalled p wire
unfolding marshal_proof marshal_signatures
marshalled p wire h =
    let (_, e1, h1) = >>=-eq-ok (reject (leb p.end p.start) Error.invalid_range) _ h in
    let (_, e2, h2) =
      >>=-eq-ok (reject (ltb 0xffff (length p.inclusion_proof * hash_size)) Error.proof_too_large) _
        h1 in
    let (_, e3, h3) = >>=-eq-ok (check_hashes p.inclusion_proof) _ h2 in
    let (sigs, e4, h4) =
      >>=-eq-ok (marshal_signatures p.signatures) (λ sigs. ok (layout p sigs)) h3 in
    let (_, e5, h5) =
      >>=-eq-ok (check_signatures p.signatures) (λ _. ok (write_signatures p.signatures)) e4 in
    record {
      nonempty = ground arith;
      few = ground arith;
      sized = e3;
      checked = e5;
      written = sym (ok_inj _ _ h4) ∙ ap (layout p) (sym (ok_inj _ _ h5));
    }

module _ (p : MtcProof) (wire : Bytes) (wide : p.end < 256 ^ 8)
    (made : marshal_proof p ≡ ok wire) where
  read_marshalled :
      unmarshal_proof wire
      ≡ unmarshal_tail p.start p.end p.inclusion_proof
          (un_be 0 (be 2 (length (write_signatures p.signatures))))
          (write_signatures p.signatures)
  read_marshalled =
      let m = marshalled p wire made in
      rw m.written
        (unmarshal_proof-layout p (write_signatures p.signatures) m.nonempty wide m.few m.sized)

  -- A proof that `MarshalProof` accepts, over a range whose end fits its eight bytes and with at
  -- most 65535 bytes of signatures, is read back from its encoding by `UnmarshalProof`.
  pub unmarshal_proof-marshal_proof :
      length (write_signatures p.signatures) < 65536 → unmarshal_proof wire ≡ ok p
  unfolding unmarshal_tail unmarshal_signatures
  unmarshal_proof-marshal_proof few =
      let m = marshalled p wire made in
      read_marshalled
      ∙ rw (
        un_be-be 2 (length (write_signatures p.signatures)) few,
        exact,
        ◌>>=◌,
        read_signatures-write_signatures p.signatures (length (write_signatures p.signatures))
            m.checked (omega arith),
      )
    where
      exact :
          ltb (length (write_signatures p.signatures)) (length (write_signatures p.signatures))
          ≡ false
      exact = ground arith

  -- A proof that `MarshalProof` accepts, over a range whose end fits its eight bytes but with more
  -- than 65535 bytes of signatures, is encoded with the signatures' length modulo 65536 before all of
  -- them, and `UnmarshalProof` rejects that encoding as followed by trailing data.
  pub marshal_proof_wraps :
      65535 < length (write_signatures p.signatures)
      → (wire
          ≡ be 8 p.start
            ++ (be 8 p.end
                ++ (be 2 (length p.inclusion_proof * 32)
                    ++ (write_hashes p.inclusion_proof
                        ++ (be 2 (length (write_signatures p.signatures) % 65536)
                            ++ write_signatures p.signatures)))))
        × (unmarshal_proof wire ≡ err Error.trailing_data)
  unfolding unmarshal_tail layout
  marshal_proof_wraps many = (
    (marshalled p wire made).written
        ∙ ap
            (λ (prefix : Bytes).
              be 8 p.start
              ++ (be 8 p.end
                  ++ (be 2 (length p.inclusion_proof * 32)
                      ++ (write_hashes p.inclusion_proof
                          ++ (prefix ++ write_signatures p.signatures)))))
            (be_2-wraps (length (write_signatures p.signatures))),
    read_marshalled
        ∙ rw (un_be-be_2 (length (write_signatures p.signatures)), whole, wrapped, ◌>>=◌) refl,
  )
    where
      whole :
          ltb
            (length (write_signatures p.signatures))
            (length (write_signatures p.signatures) % 65536)
          ≡ false
      whole = ground arith

      wrapped :
          ltb
            (length (write_signatures p.signatures) % 65536)
            (length (write_signatures p.signatures))
          ≡ true
      wrapped = ground arith
