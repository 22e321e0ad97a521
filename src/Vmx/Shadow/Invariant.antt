-- ===== src/Vmx/Shadow/Invariant.antt =====
-- What every operation on a shadow VMCS keeps.
use mathlib.Core.Option
use svm_stuff.Base.{
  ℕ, zero, suc, ◌+◌, ◌≤◌, ◌<◌, ◌^◌, ◌≡◌, ◌↔◌, refl, Bool, true, false, Option, none, some, arith,
  ◌==◌, Bool-cases, inl, inr,
}
use svm_stuff.Vmx.Shadow.{
  Field, ShadowVmcs, max_fields, fresh, reset, read, write_loop, append_field, write,
}
use svm_stuff.Vmx.Shadow.Map.{
  lookup, AllWords, Distinct, insert-AllWords, insert-Distinct, lookup-lt,
}
use svm_stuff.Vmx.Shadow.Refine.{
  view, read-lookup, Outcome, updated, appended, dropped, write-Outcome,
}

pub record IsValid (s : ShadowVmcs) : Type 0 where
  pub in_bounds : s.count ≤ max_fields
  pub words : AllWords (view s)
  pub distinct : Distinct (view s)

pub fresh-IsValid : IsValid fresh
unfolding fresh view
fresh-IsValid = record { in_bounds = omega arith; words = tt; distinct = tt }

-- Slots left over from before a reset are not in use.
pub read-reset : (s : ShadowVmcs) (e : ℕ) → read (reset s) e ≡ 0
unfolding reset read
read-reset s e = refl

Outcome-IsValid :
    (s : ShadowVmcs) (e v : ℕ) (r : ShadowVmcs × Bool)
    → e < 2 ^ 32
    → v < 2 ^ 64
    → IsValid s
    → Outcome s e v r
    → IsValid r.0
Outcome-IsValid s e v r p q valid (updated w c l a) = record {
  in_bounds = rw c valid.in_bounds;
  words = rw w (insert-AllWords e v (view s) p q valid.words);
  distinct = rw w (insert-Distinct e v (view s) valid.distinct);
}
Outcome-IsValid s e v r p q valid (appended w c l a room) = record {
  in_bounds = omega arith;
  words = rw w (insert-AllWords e v (view s) p q valid.words);
  distinct = rw w (insert-Distinct e v (view s) valid.distinct);
}
Outcome-IsValid s e v r p q valid (dropped a full) = valid

-- A write of a 32-bit encoding and a 64-bit value keeps a store valid: at most 256 fields, no
-- encoding twice, and every encoding and value within its width.
pub write-IsValid :
    (s : ShadowVmcs) (e v : ℕ) → e < 2 ^ 32 → v < 2 ^ 64 → IsValid s → IsValid (write s e v).0
write-IsValid s e v p q valid = Outcome-IsValid s e v (write s e v) p q valid (write-Outcome s e v)

-- A read gives a `uint64_t`.
pub read-lt : (s : ShadowVmcs) (e : ℕ) → IsValid s → read s e < 2 ^ 64
read-lt s e valid =
    rw (read-lookup s e) (split (lookup e (view s)) λ v h. lookup-lt e v (view s) valid.words h)
  where
    split : (o : Option ℕ) → ((v : ℕ) → o ≡ some v → v < 2 ^ 64) → Option.get_or o 0 < 2 ^ 64
    split none h = omega arith
    split (some v) h = h v refl

-- A write fails exactly when the store is full and does not hold the encoding.
pub write-fails_iff :
    (s : ShadowVmcs) (e v : ℕ)
    → ((write s e v).1 ≡ false) ↔ (max_fields ≤ s.count) × (lookup e (view s) ≡ none)
write-fails_iff s e v = split (write s e v) (write-Outcome s e v)
  where
    split :
        (r : ShadowVmcs × Bool)
        → Outcome s e v r
        → (r.1 ≡ false) ↔ (max_fields ≤ s.count) × (lookup e (view s) ≡ none)
    split r (updated w c l a) = (λ h. cc, λ h. absurd (a h.1))
    split r (appended w c l a room) = (λ h. cc, λ h. absurd (omega arith))
    split r (dropped a full) = (λ h. (full, a), λ h. refl)

-- The loop leaves slot `j` alone.
abbrev Kept : ℕ → (ℕ → Field) → Option (ℕ → Field) → Type 0
Kept j fs none = Unit {0}
Kept j fs (some gs) = gs j ≡ fs j

write_loop-Kept :
    (left i : ℕ) (fs : ℕ → Field) (e v j : ℕ) → i + left ≤ j → Kept j fs (write_loop left i fs e v)
unfolding write_loop
write_loop-Kept zero i fs e v j h = tt
write_loop-Kept (suc left) i fs e v j h = elim (Bool-cases ((fs i).enc == e)) [
  | inl same ↦ rw same (ground arith)
  | inr other ↦ rw other (write_loop-Kept left (i + 1) fs e v j (omega arith))
]

-- From a store of at most 256 fields, no write changes a slot from 256 on, which would lie behind
-- the array.
pub write-InBounds :
    (s : ShadowVmcs) (e v j : ℕ)
    → s.count ≤ max_fields
    → max_fields ≤ j
    → (write s e v).0.fields j ≡ s.fields j
unfolding write append_field
write-InBounds s e v j bound behind =
    finish (write_loop s.count 0 s.fields e v)
      (write_loop-Kept s.count 0 s.fields e v j (omega arith))
  where
    finish :
        (r : Option (ℕ → Field))
        → Kept j s.fields r
        → (elim r as (λ o. ShadowVmcs × Bool) [
          | some fs ↦ (record s { fields = fs }, true)
          | none ↦ append_field s e v
        ]).0.fields
            j
          ≡ s.fields j
    finish none h = ground arith
    finish (some gs) h = h
