-- ===== src/Vmx/Shadow/Writes.antt =====
-- A sequence of writes, and what a read finds after it.
use mathlib.Core.Option
use svm_stuff.Base.{
  ℕ, ◌+◌, ◌≤◌, ◌≡◌, refl, ◌∙◌, Bool, true, Option, none, some, List, [], ◌∷◌, ◌++◌, arith, ◌==◌,
  if◌then◌else◌, length,
}
use svm_stuff.Vmx.Shadow.{Field, ShadowVmcs, max_fields, read, write}
use svm_stuff.Vmx.Shadow.Map.{lookup, insert, AllWords}
use svm_stuff.Vmx.Shadow.Refine.{
  view, Outcome, updated, appended, dropped, write-Outcome, read-write,
}
use svm_stuff.Vmx.Shadow.Invariant.{IsValid, write-IsValid}

unfoldable pub run_writes : List Field → ShadowVmcs → ShadowVmcs
run_writes [] s = s
run_writes (w ∷ ws) s = run_writes ws (write s w.enc w.val).0

-- The writes that take a new slot of a store with these fields.
unfoldable pub missing : List Field → List Field → ℕ
missing [] fs = 0
missing (w ∷ ws) fs =
    (elim (lookup w.enc fs) [ none ↦ 1 | some v ↦ 0 ]) + missing ws (insert w.enc w.val fs)

-- The value that the last write to an encoding gives it.
abbrev pub last_write : ℕ → List Field → Option ℕ
last_write k [] = none
last_write k (w ∷ ws) = elim (last_write k ws) [
  | some v ↦ some v
  | none ↦ if w.enc == k then some w.val else none
]

pub missing-le-length : (ws fs : List Field) → missing ws fs ≤ length ws
unfolding missing
missing-le-length [] fs = omega arith
missing-le-length (w ∷ ws) fs = ground (arith, missing-le-length ws (insert w.enc w.val fs))

-- With room for the write, it succeeds, and leaves room for the ones behind it.
record Advances (s : ShadowVmcs) (w : Field) (ws : List Field) (r : ShadowVmcs × Bool)
    : Type 0 where
  succeeds : r.1 ≡ true
  room : r.0.count + missing ws (view r.0) ≤ max_fields
  launched : r.0.launched ≡ s.launched

write-Advances :
    (s : ShadowVmcs) (w : Field) (ws : List Field)
    → s.count + missing (w ∷ ws) (view s) ≤ max_fields
    → Advances s w ws (write s w.enc w.val)
unfolding missing
write-Advances s w ws room = split (write s w.enc w.val) (write-Outcome s w.enc w.val)
  where
    split : (r : ShadowVmcs × Bool) → Outcome s w.enc w.val r → Advances s w ws r
    split r (updated e c l a) = record {
      succeeds = refl;
      room = rw (e, c) (ground arith);
      launched = l;
    }
    split r (appended e c l a q) = record {
      succeeds = refl;
      room = rw (e, c) (ground arith);
      launched = l;
    }
    split r (dropped a full) = absurd (ground arith)

-- With room for all, a read finds the last value written, or else what was there.
pub read-run_writes :
    (ws : List Field) (s : ShadowVmcs) (k : ℕ)
    → s.count + missing ws (view s) ≤ max_fields
    → read (run_writes ws s) k ≡ Option.get_or (last_write k ws) (read s k)
unfolding run_writes
read-run_writes [] s k room = refl
read-run_writes (w ∷ ws) s k room =
    let step = write-Advances s w ws room in
    ground (
      arith,
      read-run_writes ws (write s w.enc w.val).0 k step.room,
      read-write s k w.enc w.val,
      step.succeeds,
    )

pub launched-run_writes :
    (ws : List Field) (s : ShadowVmcs) → (run_writes ws s).launched ≡ s.launched
unfolding run_writes
launched-run_writes [] s = refl
launched-run_writes (w ∷ ws) s =
    launched-run_writes ws (write s w.enc w.val).0
    ∙ split (write s w.enc w.val) (write-Outcome s w.enc w.val)
  where
    split : (r : ShadowVmcs × Bool) → Outcome s w.enc w.val r → r.0.launched ≡ s.launched
    split r (updated e c l a) = l
    split r (appended e c l a q) = l
    split r (dropped a full) = refl

pub run_writes-IsValid :
    (ws : List Field) (s : ShadowVmcs) → AllWords ws → IsValid s → IsValid (run_writes ws s)
unfolding run_writes
run_writes-IsValid [] s h valid = valid
run_writes-IsValid (w ∷ ws) s h valid =
    run_writes-IsValid ws (write s w.enc w.val).0 h.2 (write-IsValid s w.enc w.val h.0 h.1 valid)

-- Later writes count.
pub last_write-append :
    (k : ℕ) (ws vs : List Field)
    → last_write k (ws ++ vs)
      ≡ (elim (last_write k vs) [ some v ↦ some v | none ↦ last_write k ws ])
last_write-append k [] vs = eta (last_write k vs)
  where
    eta : (o : Option ℕ) → o ≡ (elim o [ some v ↦ some v | none ↦ none ])
    eta none = refl
    eta (some v) = refl
last_write-append k (w ∷ ws) vs = ground (arith, last_write-append k ws vs)
