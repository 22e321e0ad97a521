-- ===== src/Vmcb/Page.antt =====
-- A page of memory as bytes at offsets, with the little-endian accesses of x86. A page has 0x1000
-- bytes; an access further on would be out of bounds in the source, so theorems state that the
-- code makes none.
use native.Mathlib.Nat.{pow-suc}
use svm_stuff.Base.{
  ℕ, zero, suc, ◌+◌, ◌*◌, ◌/◌, ◌%◌, ◌^◌, ◌≤◌, ◌<◌, ◌≡◌, ◌⊎◌, refl, arith, ◌==◌, if◌then◌else◌,
  ==_self,
}

abbrev pub Page : Type 0
Page = ℕ → ℕ

abbrev pub IsBytes : Page → Type 0
IsBytes p = (a : ℕ) → p a < 256

unfoldable pub put : Page → ℕ → ℕ → Page
put p off b a = if a == off then b else p a

-- `n` bytes at `off`, the lowest first.
unfoldable pub set_bytes : ℕ → Page → ℕ → ℕ → Page
set_bytes zero p off v = p
set_bytes (suc n) p off v = put (set_bytes n p (off + 1) (v / 256)) off (v % 256)

unfoldable pub get_bytes : ℕ → Page → ℕ → ℕ
get_bytes zero p off = 0
get_bytes (suc n) p off = p off + 256 * get_bytes n p (off + 1)

-- The accessors of SVM.h.
unfoldable pub vmcb_get64 : Page → ℕ → ℕ
vmcb_get64 p off = get_bytes 8 p off

unfoldable pub vmcb_set64 : Page → ℕ → ℕ → Page
vmcb_set64 p off v = set_bytes 8 p off v

unfoldable pub vmcb_get8 : Page → ℕ → ℕ
vmcb_get8 p off = p off

unfoldable pub vmcb_set8 : Page → ℕ → ℕ → Page
vmcb_set8 p off v = put p off v

-- The byte at `a` is outside the `n` bytes at `off`.
abbrev pub Outside : ℕ → ℕ → ℕ → Type 0
Outside a n off = (a < off) ⊎ (off + n ≤ a)

pub set_bytes-Outside :
    (n : ℕ) (p : Page) (off v a : ℕ) → Outside a n off → set_bytes n p off v a ≡ p a
unfolding set_bytes put
set_bytes-Outside zero p off v a h = refl
set_bytes-Outside (suc n) p off v a h = ground (arith, set_bytes-Outside n p (off + 1) (v / 256) a)

put_self : (p : Page) (off b : ℕ) → put p off b off ≡ b
unfolding put
put_self p off b = rw (==_self off)

-- Two ranges of bytes without a common one.
abbrev pub Apart : ℕ → ℕ → ℕ → ℕ → Type 0
Apart n off m at = (off + n ≤ at) ⊎ (at + m ≤ off)

get_bytes-put :
    (m : ℕ) (p : Page) (at off b : ℕ)
    → Outside off m at
    → get_bytes m (put p off b) at ≡ get_bytes m p at
unfolding get_bytes put
get_bytes-put zero p at off b h = refl
get_bytes-put (suc m) p at off b h = ground (arith, get_bytes-put m p (at + 1) off b)

-- A read that meets none of the bytes written sees the page as it was.
pub get_bytes-set_bytes-Apart :
    (n m : ℕ) (p : Page) (off v at : ℕ)
    → Apart n off m at
    → get_bytes m (set_bytes n p off v) at ≡ get_bytes m p at
unfolding set_bytes
get_bytes-set_bytes-Apart zero m p off v at h = refl
get_bytes-set_bytes-Apart (suc n) m p off v at h = ground (
  arith,
  get_bytes-put m (set_bytes n p (off + 1) (v / 256)) at off (v % 256),
  get_bytes-set_bytes-Apart n m p (off + 1) (v / 256) at,
)

-- A read of the bytes written gives the value, if it fits them.
pub get_bytes-set_bytes :
    (n : ℕ) (p : Page) (off v : ℕ) → v < 256 ^ n → get_bytes n (set_bytes n p off v) off ≡ v
unfolding set_bytes get_bytes
get_bytes-set_bytes zero p off v h = omega arith
get_bytes-set_bytes (suc n) p off v h = ground (
  arith,
  pow-suc 256 n,
  get_bytes-put n (set_bytes n p (off + 1) (v / 256)) (off + 1) off (v % 256),
  get_bytes-set_bytes n p (off + 1) (v / 256) (omega (arith, pow-suc 256 n)),
  put_self (set_bytes n p (off + 1) (v / 256)) off (v % 256),
)

pub set_bytes-IsBytes : (n : ℕ) (p : Page) (off v : ℕ) → IsBytes p → IsBytes (set_bytes n p off v)
unfolding set_bytes put
set_bytes-IsBytes zero p off v h a = h a
set_bytes-IsBytes (suc n) p off v h a =
    ground (arith, set_bytes-IsBytes n p (off + 1) (v / 256) h a)

pub get_bytes-lt : (n : ℕ) (p : Page) (off : ℕ) → IsBytes p → get_bytes n p off < 256 ^ n
unfolding get_bytes
get_bytes-lt zero p off h = omega arith
get_bytes-lt (suc n) p off h = omega (arith, h off, pow-suc 256 n, get_bytes-lt n p (off + 1) h)

-- Bytes that agree read the same.
pub get_bytes_agree :
    (n : ℕ) (p q : Page) (off : ℕ)
    → ((a : ℕ) → off ≤ a → a < off + n → p a ≡ q a)
    → get_bytes n p off ≡ get_bytes n q off
unfolding get_bytes
get_bytes_agree zero p q off h = refl
get_bytes_agree (suc n) p q off h =
    let rest = get_bytes_agree n p q (off + 1) (λ a lo hi. h a (omega arith) (omega arith)) in
    let first = h off (omega arith) (omega arith) in omega arith
