-- ===== src/Vmx/Shadow/Map.antt =====
-- The abstract view of a shadow VMCS: an association list from encodings to values, in which a new
-- encoding goes to the end.
use svm_stuff.Base.{
  ℕ, ◌<◌, ◌^◌, ◌≡◌, refl, Option, none, some, List, [], ◌∷◌, ◌++◌, arith, ◌==◌, if◌then◌else◌,
}
use svm_stuff.Vmx.Shadow.{Field}

abbrev pub field : ℕ → ℕ → Field
field e v = record { enc = e; val = v }

unfoldable pub lookup : ℕ → List Field → Option ℕ
lookup e [] = none
lookup e (f ∷ fs) = if f.enc == e then some f.val else lookup e fs

unfoldable pub insert : ℕ → ℕ → List Field → List Field
insert e v [] = field e v ∷ []
insert e v (f ∷ fs) = if f.enc == e then field f.enc v ∷ fs else f ∷ insert e v fs

-- The fields are `uint32_t` and `uint64_t`.
abbrev pub AllWords : List Field → Type 0
AllWords [] = Unit {0}
AllWords (f ∷ fs) = (f.enc < 2 ^ 32) × (f.val < 2 ^ 64) × AllWords fs

-- No two slots have one encoding.
abbrev pub Distinct : List Field → Type 0
Distinct [] = Unit {0}
Distinct (f ∷ fs) = (lookup f.enc fs ≡ none) × Distinct fs

pub lookup-insert :
    (k e v : ℕ) (fs : List Field)
    → lookup k (insert e v fs) ≡ (if e == k then some v else lookup k fs)
unfolding lookup insert
lookup-insert k e v [] = refl
lookup-insert k e v (f ∷ fs) = ground (arith, lookup-insert k e v fs)

pub insert-append :
    (e v : ℕ) (fs : List Field) → lookup e fs ≡ none → insert e v fs ≡ fs ++ field e v ∷ []
unfolding lookup insert
insert-append e v [] h = refl
insert-append e v (f ∷ fs) h = ground (arith, insert-append e v fs)

pub insert-AllWords :
    (e v : ℕ) (fs : List Field) → e < 2 ^ 32 → v < 2 ^ 64 → AllWords fs → AllWords (insert e v fs)
unfolding insert
insert-AllWords e v [] p q h = (p, q, tt)
insert-AllWords e v (f ∷ fs) p q h = ground (arith, insert-AllWords e v fs)

pub insert-Distinct : (e v : ℕ) (fs : List Field) → Distinct fs → Distinct (insert e v fs)
unfolding lookup insert
insert-Distinct e v [] h = (refl, tt)
insert-Distinct e v (f ∷ fs) h = ground (arith, insert-Distinct e v fs, lookup-insert f.enc e v fs)

pub lookup-lt : (e v : ℕ) (fs : List Field) → AllWords fs → lookup e fs ≡ some v → v < 2 ^ 64
unfolding lookup
lookup-lt e v [] h found = cc
lookup-lt e v (f ∷ fs) h found = ground (arith, lookup-lt e v fs)
