-- ===== src/Acme/System/Drain.antt =====
-- A run of a server's threads in the order of their list.
use ca_extension_mtc_playgro.Prelude.{ℕ, zero, suc, ◌≡◌, refl, List, [], ◌∷◌, ◌++◌, true}
use ca_extension_mtc_playgro.Bytes.{Bytes}
use ca_extension_mtc_playgro.Acme.Outside.{Config, Outside}
use ca_extension_mtc_playgro.Acme.Thread.{Thread, Shared}
use ca_extension_mtc_playgro.Acme.System.{resume, Server, goes, Reach, then, is_alone, is_serial}

-- The threads' accesses in the order of the list, with what each of them finds outside.
unfoldable pub drain : Config → (ℕ → Outside) → ℕ → Server → Server
drain cfg outside zero w = w
drain cfg outside (suc n) w = elim w.threads [
  | [] ↦ w
  | t ∷ ts ↦
      let r = resume cfg (outside n) t w.shared in
      drain cfg outside n (record { shared = r.shared; threads = r.threads ++ ts })
]

pub drain-Reach :
    (sha256 : Bytes → Bytes) (cfg : Config) (outside : ℕ → Outside)
    → ((n : ℕ) → (outside n).sha256 ≡ sha256)
    → (a : Server) (n : ℕ) (s : Shared) (ts : List Thread)
    → Reach sha256 cfg a (record { shared = s; threads = ts })
    → Reach sha256 cfg a (drain cfg outside n (record { shared = s; threads = ts }))
unfolding drain
drain-Reach sha256 cfg outside same a zero s ts h = h
drain-Reach sha256 cfg outside same a (suc n) s [] h = h
drain-Reach sha256 cfg outside same a (suc n) s (t ∷ ts) h =
    let r = resume cfg (outside n) t s in
    drain-Reach sha256 cfg outside same a n r.shared (r.threads ++ ts)
      (then h (goes (outside n) (same n) s [] t ts))

-- The calls of the log do not overlap in it.
pub drain-is_serial :
    (sha256 : Bytes → Bytes) (cfg : Config) (outside : ℕ → Outside)
    (same : (n : ℕ) → (outside n).sha256 ≡ sha256) (a : Server) (n : ℕ) (s : Shared)
    (ts : List Thread) (h : Reach sha256 cfg a (record { shared = s; threads = ts }))
    → is_serial h ≡ true
    → is_serial (drain-Reach sha256 cfg outside same a n s ts h) ≡ true
unfolding drain-Reach drain is_serial is_alone
drain-is_serial sha256 cfg outside same a zero s ts h serial = serial
drain-is_serial sha256 cfg outside same a (suc n) s [] h serial = serial
drain-is_serial sha256 cfg outside same a (suc n) s (t ∷ ts) h serial =
    let r = resume cfg (outside n) t s in
    drain-is_serial sha256 cfg outside same a n r.shared (r.threads ++ ts)
      (then h (goes (outside n) (same n) s [] t ts)) (rw (is_serial, serial, is_alone) refl)
