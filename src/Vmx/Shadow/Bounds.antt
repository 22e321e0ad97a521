-- ===== src/Vmx/Shadow/Bounds.antt =====
-- The array of the shadow VMCS of src/kern_vmx.hpp and what lies behind it.
use svm_stuff.Base.{ℕ, ◌≤◌, ◌≡◌, refl, ◌∙◌, arith, Bool, List, [], ◌∷◌}
use svm_stuff.Vmx.Shadow.{Field, ShadowVmcs, max_fields, write, set_launched}
use svm_stuff.Vmx.Shadow.Refine.{Outcome, updated, appended, dropped, write-Outcome}
use svm_stuff.Vmx.Shadow.Invariant.{write-InBounds}
use svm_stuff.Vmx.Shadow.Writes.{run_writes}

-- `t` uses slots of the array only, no fewer than `s`, and nothing behind the array is changed.
pub record InArray (s t : ShadowVmcs) : Type 0 where
  pub within : t.count ≤ max_fields
  pub grows : s.count ≤ t.count
  pub behind : (j : ℕ) → max_fields ≤ j → t.fields j ≡ s.fields j

pub same-InArray : (s : ShadowVmcs) → s.count ≤ max_fields → InArray s s
same-InArray s h = record { within = h; grows = omega arith; behind = λ j b. refl }

pub InArray-trans : {s t u : ShadowVmcs} → InArray s t → InArray t u → InArray s u
InArray-trans h k = record {
  within = k.within;
  grows = omega (arith, h.grows, k.grows);
  behind = λ j b. k.behind j b ∙ h.behind j b;
}

pub write-InArray : (s : ShadowVmcs) (e v : ℕ) → s.count ≤ max_fields → InArray s (write s e v).0
write-InArray s e v h = record {
  within = (counts (write s e v) (write-Outcome s e v)).0;
  grows = (counts (write s e v) (write-Outcome s e v)).1;
  behind = λ j b. write-InBounds s e v j h b;
}
  where
    counts :
        (r : ShadowVmcs × Bool) → Outcome s e v r → (r.0.count ≤ max_fields) × (s.count ≤ r.0.count)
    counts r (updated w c l a) = (omega (arith, c), omega (arith, c))
    counts r (appended w c l a room) = (omega (arith, c), omega (arith, c))
    counts r (dropped a full) = (h, omega arith)

pub run_writes-InArray :
    (ws : List Field) (s : ShadowVmcs) → s.count ≤ max_fields → InArray s (run_writes ws s)
unfolding run_writes
run_writes-InArray [] s h = same-InArray s h
run_writes-InArray (w ∷ ws) s h =
    let step = write-InArray s w.enc w.val h in
    InArray-trans step (run_writes-InArray ws (write s w.enc w.val).0 step.within)

pub set_launched-InArray :
    (s t : ShadowVmcs) (v : Bool) → InArray s t → InArray s (set_launched t v)
unfolding set_launched
set_launched-InArray s t v h = record { within = h.within; grows = h.grows; behind = h.behind }
