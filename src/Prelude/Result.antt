-- ===== src/Prelude/Result.antt =====
-- What a Go call comes to: its value, an error value of type `E`, or a panic. `stuck` is no outcome of
-- the program: a recursion on fuel ran out of it.
use ca_extension_mtc_playgro.Prelude.{◌≡◌, refl, Bool, true, false}

pub data Result (E A : Type 0) : Type 0 where
  ok : A → Result E A
  err : E → Result E A
  panic : Result E A
  stuck : Result E A

-- `if bad { return nil, e }`
abbrev pub reject : {E : Type 0} → Bool → E → Result E (Unit {0})
reject false reason = ok tt
reject true reason = err reason

-- What follows a call runs on its value only.
infixl 5 ◌>>=◌
abbrev pub ◌>>=◌ : {E A B : Type 0} → Result E A → (A → Result E B) → Result E B
stuck >>= next = stuck
panic >>= next = panic
err reason >>= next = err reason
ok value >>= next = next value

infixl 5 ◌>>◌
abbrev pub ◌>>◌ : {E B : Type 0} → Result E (Unit {0}) → Result E B → Result E B
call >> rest = call >>= λ done. rest

-- The value of a call that the whole succeeded with.
pub >>=-eq-ok :
    {E A B : Type 0} (call : Result E A) (next : A → Result E B) {out : B}
    → (call >>= next) ≡ ok out
    → (mid : A) × (call ≡ ok mid) × (next mid ≡ ok out)
>>=-eq-ok stuck next made = cc
>>=-eq-ok panic next made = cc
>>=-eq-ok (err reason) next made = cc
>>=-eq-ok (ok value) next made = (value, refl, made)

pub ok_inj : {E A : Type 0} (a b : A) → ◌≡◌ {A = Result E A} (ok a) (ok b) → a ≡ b
ok_inj a b h = cc
