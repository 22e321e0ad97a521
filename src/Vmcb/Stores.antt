-- ===== src/Vmcb/Stores.antt =====
-- A sequence of stores into a page, and what a read finds after it: the value of the last store
-- to exactly the bytes read, provided the stores behind it spare them.
pub mod Ranges
use svm_stuff.Base.{
  ℕ, ◌+◌, ◌^◌, ◌≤◌, ◌<◌, ◌≡◌, refl, Bool, true, ◌&&◌, ◌||◌, List, [], ◌∷◌, ◌++◌, arith, leb, ◌==◌,
  if◌then◌else◌, Bool-cases, inl, inr, ◌∙◌,
}
use svm_stuff.Vmcb.Page.{
  Page, IsBytes, Apart, set_bytes, get_bytes, get_bytes-set_bytes, get_bytes-set_bytes-Apart,
  set_bytes-Outside, set_bytes-IsBytes,
}

pub record Store : Type 0 where
  pub off : ℕ
  pub width : ℕ
  pub val : ℕ

abbrev pub store : ℕ → ℕ → ℕ → Store
store off width val = record { off = off; width = width; val = val }

unfoldable pub run : List Store → Page → Page
run [] p = p
run (s ∷ ss) p = run ss (set_bytes s.width p s.off s.val)

pub run-append : (ss ts : List Store) (p : Page) → run (ss ++ ts) p ≡ run ts (run ss p)
unfolding run
run-append [] ts p = refl
run-append (s ∷ ss) ts p = run-append ss ts (set_bytes s.width p s.off s.val)

pub data Found : Type 0 where
  untouched clash : Found
  hit : ℕ → Found

abbrev pub apart : ℕ → ℕ → ℕ → ℕ → Bool
apart n off m at = leb (off + n) at || leb (at + m) off

abbrev pub found_at : ℕ → ℕ → Store → Found → Found
found_at m at s untouched =
    if (s.off == at) && (s.width == m)
    then hit s.val
    else if apart s.width s.off m at
    then untouched
    else clash
found_at m at s clash = clash
found_at m at s (hit v) = hit v

-- What a read of `m` bytes at `at` finds after the stores.
abbrev pub last_store : ℕ → ℕ → List Store → Found
last_store m at [] = untouched
last_store m at (s ∷ ss) = found_at m at s (last_store m at ss)

-- What `Found` says of a page before and a page after.
abbrev pub Reads : ℕ → ℕ → Page → Page → Found → Type 0
Reads m at p q untouched = get_bytes m q at ≡ get_bytes m p at
Reads m at p q clash = Unit {0}
Reads m at p q (hit v) = v < 256 ^ m → get_bytes m q at ≡ v

module _ (n off m at : ℕ) where
  same_range : ((off == at) && (n == m)) ≡ true → (off ≡ at) × (n ≡ m)
  same_range h = ground arith

  apart-Apart : apart n off m at ≡ true → Apart n off m at
  apart-Apart h = ground arith

exact_hit :
    (m at n off v : ℕ) (p : Page)
    → (off ≡ at) × (n ≡ m)
    → v < 256 ^ m
    → get_bytes m (set_bytes n p off v) at ≡ v
exact_hit m at n off v p e fits = rw (← e.0, ← e.1) (get_bytes-set_bytes n p off v (rw e.1 fits))

-- One store in front of stores whose reading is known.
Reads-step :
    (m at n off v : ℕ) (p q : Page) (f : Found)
    → Reads m at (set_bytes n p off v) q f
    → Reads m at p q (found_at m at (store off n v) f)
Reads-step m at n off v p q clash h = tt
Reads-step m at n off v p q (hit w) h = h
Reads-step m at n off v p q untouched h = elim (Bool-cases ((off == at) && (n == m))) [
  | inl same ↦ rw same (λ fits. h ∙ exact_hit m at n off v p (same_range n off m at same) fits)
  | inr other ↦ rw other (elim (Bool-cases (apart n off m at)) [
    | inl free ↦
        rw free (h ∙ get_bytes-set_bytes-Apart n m p off v at (apart-Apart n off m at free))
    | inr meets ↦ rw meets tt
  ])
]

run-Reads : (m at : ℕ) (ss : List Store) (p : Page) → Reads m at p (run ss p) (last_store m at ss)
unfolding run
run-Reads m at [] p = refl
run-Reads m at (s ∷ ss) p =
    Reads-step m at s.width s.off s.val p (run ss (set_bytes s.width p s.off s.val))
      (last_store m at ss) (run-Reads m at ss (set_bytes s.width p s.off s.val))

-- A read finds the value of the last store to its bytes.
pub run-hit :
    (m at : ℕ) (ss : List Store) (p : Page) {v : ℕ}
    → last_store m at ss ≡ hit v
    → v < 256 ^ m
    → get_bytes m (run ss p) at ≡ v
run-hit m at ss p e fits = (rw e at (run-Reads m at ss p)) fits

-- A read of bytes that no store meets finds what was there.
pub run-untouched :
    (m at : ℕ) (ss : List Store) (p : Page)
    → last_store m at ss ≡ untouched
    → get_bytes m (run ss p) at ≡ get_bytes m p at
run-untouched m at ss p e = rw e at (run-Reads m at ss p)

pub run-IsBytes : (ss : List Store) (p : Page) → IsBytes p → IsBytes (run ss p)
unfolding run
run-IsBytes [] p h = h
run-IsBytes (s ∷ ss) p h =
    run-IsBytes ss (set_bytes s.width p s.off s.val) (set_bytes-IsBytes s.width p s.off s.val h)

-- Every store ends at or below `size`.
abbrev pub within : ℕ → List Store → Bool
within size [] = true
within size (s ∷ ss) = leb (s.off + s.width) size && within size ss

pub run-within :
    (size : ℕ) (ss : List Store) (p : Page) (a : ℕ)
    → within size ss ≡ true
    → size ≤ a
    → run ss p a ≡ p a
unfolding run
run-within size [] p a h above = refl
run-within size (s ∷ ss) p a h above = ground (
  arith,
  run-within size ss (set_bytes s.width p s.off s.val) a,
  set_bytes-Outside s.width p s.off s.val a,
)
