-- ===== src/Vmcb/Stores/Ranges.antt =====
-- Where a sequence of stores can reach: ranges of bytes, as pairs of an offset and a length.
use svm_stuff.Base.{
  ℕ, ◌+◌, ◌≤◌, ◌<◌, ◌≡◌, refl, Bool, true, false, ◌&&◌, ◌||◌, List, [], ◌∷◌, arith, leb, ltb,
}
use svm_stuff.Vmcb.Page.{Page, Outside, set_bytes, set_bytes-Outside}
use svm_stuff.Vmcb.Stores.{Store, run}

abbrev pub in_ranges : ℕ → List (ℕ × ℕ) → Bool
in_ranges a [] = false
in_ranges a (r ∷ rs) = (leb r.0 a && ltb a (r.0 + r.1)) || in_ranges a rs

-- All of the `n` bytes at `off` lie in one of the ranges.
abbrev pub inside : ℕ → ℕ → List (ℕ × ℕ) → Bool
inside off n [] = false
inside off n (r ∷ rs) = (leb r.0 off && leb (off + n) (r.0 + r.1)) || inside off n rs

abbrev pub all_inside : List Store → List (ℕ × ℕ) → Bool
all_inside [] rs = true
all_inside (s ∷ ss) rs = inside s.off s.width rs && all_inside ss rs

inside-Outside :
    (off n a : ℕ) (rs : List (ℕ × ℕ))
    → inside off n rs ≡ true
    → in_ranges a rs ≡ false
    → Outside a n off
inside-Outside off n a [] h free = ground arith
inside-Outside off n a (r ∷ rs) h free = ground (arith, inside-Outside off n a rs)

-- A byte in none of the ranges stays.
pub run-all_inside :
    (ss : List Store) (rs : List (ℕ × ℕ)) (p : Page) (a : ℕ)
    → all_inside ss rs ≡ true
    → in_ranges a rs ≡ false
    → run ss p a ≡ p a
unfolding run
run-all_inside [] rs p a h free = refl
run-all_inside (s ∷ ss) rs p a h free = ground (
  arith,
  run-all_inside ss rs (set_bytes s.width p s.off s.val) a,
  set_bytes-Outside s.width p s.off s.val a,
  inside-Outside s.off s.width a rs,
)

-- Outside of ranges is outside of the first and of the others.
pub in_ranges-Outside :
    (a : ℕ) (r : ℕ × ℕ) (rs : List (ℕ × ℕ))
    → in_ranges a (r ∷ rs) ≡ false
    → Outside a r.1 r.0 × (in_ranges a rs ≡ false)
in_ranges-Outside a r rs h = (ground arith, ground arith)

-- None of the ranges meets the `n` bytes at `off`.
abbrev pub clear : ℕ → ℕ → List (ℕ × ℕ) → Bool
clear off n [] = true
clear off n (r ∷ rs) = (leb (off + n) r.0 || leb (r.0 + r.1) off) && clear off n rs

pub clear-in_ranges :
    (off n a : ℕ) (rs : List (ℕ × ℕ))
    → clear off n rs ≡ true
    → off ≤ a
    → a < off + n
    → in_ranges a rs ≡ false
clear-in_ranges off n a [] h lo hi = refl
clear-in_ranges off n a (r ∷ rs) h lo hi = ground (arith, clear-in_ranges off n a rs)
