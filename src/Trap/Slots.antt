-- ===== src/Trap/Slots.antt =====
-- The registers are told apart, and a store changes just one.
use svm_stuff.Base.{
  ℕ, ◌%◌, ◌≡◌, ◌≢◌, refl, sym, ap, ◌∙◌, arith, ◌==◌, if◌then◌else◌, Bool-cases, inl, inr, false,
  ==_iff,
}
use svm_stuff.Bits.{bit_and_field}
use svm_stuff.Trap.{
  SavedState64, Slot, load, store, amdv_gpr, rax, rcx, rdx, rbx, isf_rsp, rbp, rsi, rdi, r8, r9,
  r10, r11, r12, r13, r14, r15,
}

-- The encoding of a register in an instruction.
abbrev pub encoding : Slot → ℕ
encoding rax = 0
encoding rcx = 1
encoding rdx = 2
encoding rbx = 3
encoding isf_rsp = 4
encoding rbp = 5
encoding rsi = 6
encoding rdi = 7
encoding r8 = 8
encoding r9 = 9
encoding r10 = 10
encoding r11 = 11
encoding r12 = 12
encoding r13 = 13
encoding r14 = 14
encoding r15 = 15

encoding-amdv_gpr : (idx : ℕ) → encoding (amdv_gpr idx) ≡ idx % 16
unfolding amdv_gpr
encoding-amdv_gpr idx = ground (arith, bit_and_field 0 4 idx)

slot_at : ℕ → Slot
slot_at n =
    if n == 0
    then rax
    else if n == 1
    then rcx
    else if n == 2
    then rdx
    else if n == 3
    then rbx
    else if n == 4
    then isf_rsp
    else if n == 5
    then rbp
    else if n == 6
    then rsi
    else if n == 7
    then rdi
    else if n == 8
    then r8
    else if n == 9
    then r9
    else if n == 10
    then r10
    else if n == 11
    then r11
    else if n == 12
    then r12
    else if n == 13
    then r13
    else if n == 14
    then r14
    else r15

slot_at-encoding : (a : Slot) → slot_at (encoding a) ≡ a
unfolding slot_at
slot_at-encoding rax = refl
slot_at-encoding rcx = refl
slot_at-encoding _ = refl

slot-eq : (a b : Slot) → encoding a ≡ encoding b → a ≡ b
slot-eq a b e = sym (slot_at-encoding a) ∙ ap slot_at e ∙ slot_at-encoding b

load-store_self : (a : Slot) (v : ℕ) (st : SavedState64) → load a (store a v st) ≡ v
unfolding load store
load-store_self rax v st = refl
load-store_self rcx v st = refl
load-store_self _ v st = refl

load-store_ne :
    (a b : Slot) (v : ℕ) (st : SavedState64)
    → encoding a ≢ encoding b
    → load b (store a v st) ≡ load b st
unfolding load store
load-store_ne rax rax v st ne = absurd (ne refl)
load-store_ne rcx rcx v st ne = absurd (ne refl)
load-store_ne rdx rdx v st ne = absurd (ne refl)
load-store_ne rbx rbx v st ne = absurd (ne refl)
load-store_ne isf_rsp isf_rsp v st ne = absurd (ne refl)
load-store_ne rbp rbp v st ne = absurd (ne refl)
load-store_ne rsi rsi v st ne = absurd (ne refl)
load-store_ne rdi rdi v st ne = absurd (ne refl)
load-store_ne r8 r8 v st ne = absurd (ne refl)
load-store_ne r9 r9 v st ne = absurd (ne refl)
load-store_ne r10 r10 v st ne = absurd (ne refl)
load-store_ne r11 r11 v st ne = absurd (ne refl)
load-store_ne r12 r12 v st ne = absurd (ne refl)
load-store_ne r13 r13 v st ne = absurd (ne refl)
load-store_ne r14 r14 v st ne = absurd (ne refl)
load-store_ne r15 r15 v st ne = absurd (ne refl)
load-store_ne _ _ v st ne = refl

-- After a store through the slot of one register encoding, the slot of another reads as the value
-- stored if the two agree in their low four bits, and as before if not.
pub load-store :
    (i j v : ℕ) (st : SavedState64)
    → load (amdv_gpr j) (store (amdv_gpr i) v st)
      ≡ (if i % 16 == j % 16 then v else load (amdv_gpr j) st)
load-store i j v st = elim (Bool-cases (i % 16 == j % 16)) [
  | inl same ↦
      rw (same, one_slot (ground (arith, ==_iff (i % 16) (j % 16))))
        (load-store_self (amdv_gpr j) v st)
  | inr other ↦ rw other (load-store_ne (amdv_gpr i) (amdv_gpr j) v st (apart other))
]
  where
    one_slot : i % 16 ≡ j % 16 → amdv_gpr i ≡ amdv_gpr j
    one_slot e =
        slot-eq (amdv_gpr i) (amdv_gpr j) (encoding-amdv_gpr i ∙ e ∙ sym (encoding-amdv_gpr j))

    apart : (i % 16 == j % 16) ≡ false → encoding (amdv_gpr i) ≢ encoding (amdv_gpr j)
    apart other e = ground (arith, encoding-amdv_gpr i, encoding-amdv_gpr j)

-- A store to a register leaves the frame's instruction pointer and flags alone.
pub store-frame :
    (a : Slot) (v : ℕ) (st : SavedState64)
    → (((store a v st).isf).rip ≡ (st.isf).rip) × (((store a v st).isf).rflags ≡ (st.isf).rflags)
unfolding store
store-frame rax v st = (refl, refl)
store-frame rcx v st = (refl, refl)
store-frame _ v st = (refl, refl)
