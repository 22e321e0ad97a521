-- ===== src/Entry/Order.antt =====
-- The shadow VMCS without the order of its slots: the quotient by what VMREAD sees of it, and the
-- translation of src/kern_vmcs_vmcb.cpp as a function on the quotient.
use svm_stuff.Base.{
  ℕ, ◌+◌, ◌≤◌, ◌≡◌, ◌≢◌, refl, ap, sym, ◌∙◌, Bool, true, Bool-cases, inl, inr, arith,
}
use mathlib.Core.Quot
use mathlib.Core.Quot.{Quot, Quot-set}
use svm_stuff.Vmcb.Page.{Page}
use svm_stuff.Vmcb.Stores.{run}
use svm_stuff.Vmx.Shadow.{ShadowVmcs, read, write, max_fields}
use svm_stuff.Vmx.Shadow.Refine.{Outcome, updated, appended, dropped, write-Outcome, read-write}
use svm_stuff.Vmx.Shadow.Invariant.{write-fails_iff}
use svm_stuff.Entry.{translate_vmcs_to_vmcb, pin_controls, cpu_controls, sec_controls, npt_root}
use svm_stuff.Entry.Stores.{entry_stores, translate-run}

abbrev pub SameFields : ShadowVmcs → ShadowVmcs → Type 0
SameFields s t = (k : ℕ) → read s k ≡ read t k

entry_stores-same : (s t : ShadowVmcs) → read s ≡ read t → entry_stores s ≡ entry_stores t
unfolding pin_controls cpu_controls sec_controls npt_root
entry_stores-same s t e = rw e refl

pub translate-SameFields :
    (s t : ShadowVmcs) (p : Page)
    → SameFields s t
    → translate_vmcs_to_vmcb s p ≡ translate_vmcs_to_vmcb t p
translate-SameFields s t p h =
    translate-run s p
    ∙ ap (λ ss. run ss p) (entry_stores-same s t (λ i k. h k i))
    ∙ sym (translate-run t p)

-- The shadow VMCS as VMREAD sees it, and the VMCB that a launch makes of it.
abbrev pub Seen : Type 0
Seen = Quot SameFields

Page-set : IsSet Page
Page-set = hlevel

loaded : Seen → Page → Page
loaded q p =
    Quot.lift Page-set (λ s. translate_vmcs_to_vmcb s p) (λ s t h. translate-SameFields s t p h) q

-- A write counts at most one more slot.
pub write-count : (s : ShadowVmcs) (e v : ℕ) → (write s e v).0.count ≤ s.count + 1
write-count s e v = split (write s e v) (write-Outcome s e v)
  where
    split : (r : ShadowVmcs × Bool) → Outcome s e v r → r.0.count ≤ s.count + 1
    split r (updated w c l a) = omega (arith, c)
    split r (appended w c l a room) = omega (arith, c)
    split r (dropped a full) = omega arith

write_room : (s : ShadowVmcs) (e v : ℕ) → s.count + 1 ≤ max_fields → (write s e v).1 ≡ true
write_room s e v h = elim (Bool-cases (write s e v).1) [
  | inl done ↦ done
  | inr refused ↦ absurd (omega (arith, ((write-fails_iff s e v).0 refused).0))
]

write-SameFields :
    (s : ShadowVmcs) (e f v w : ℕ)
    → e ≢ f
    → s.count + 2 ≤ max_fields
    → SameFields (write (write s e v).0 f w).0 (write (write s f w).0 e v).0
write-SameFields s e f v w ne room k =
    let e_first = write_room s e v (omega arith) in
    let f_first = write_room s f w (omega arith) in
    let f_then = write_room (write s e v).0 f w (omega (arith, write-count s e v)) in
    let e_then = write_room (write s f w).0 e v (omega (arith, write-count s f w)) in
    rw
      (
        read-write (write s e v).0 k f w,
        read-write s k e v,
        read-write (write s f w).0 k e v,
        read-write s k f w,
        e_first,
        f_first,
        f_then,
        e_then,
      )
      (ground arith)

-- Writes of two distinct fields in either order, to a store with room for both, leave the same shadow VMCS as
-- VMREAD sees it, though its slots differ; and a launch makes the same VMCB of it.
pub translate-write_comm :
    (s : ShadowVmcs) (e f v w : ℕ) (p : Page)
    → e ≢ f
    → s.count + 2 ≤ max_fields
    → (◌≡◌ {A = Seen}
        (Quot.mk (write (write s e v).0 f w).0)
        (Quot.mk (write (write s f w).0 e v).0))
      × (translate_vmcs_to_vmcb (write (write s e v).0 f w).0 p
          ≡ translate_vmcs_to_vmcb (write (write s f w).0 e v).0 p)
unfolding loaded
translate-write_comm s e f v w p ne room =
    let same : ◌≡◌ {A = Seen} (Quot.mk (write (write s e v).0 f w).0)
        (Quot.mk (write (write s f w).0 e v).0) =
      Quot.sound (write-SameFields s e f v w ne room) in
    (same, ap (λ q. loaded q p) same)
