-- ===== src/Examples/Vmx.antt =====
-- The shadow VMCS: a store with room and a full one.
use svm_stuff.Base.{ℕ, ap, ◌≡◌, refl, arith, false}
use svm_stuff.Vmx.Fields.{VmcsField, encoding}
use svm_stuff.Vmx.Shadow.{ShadowVmcs, fresh, read, write}
use svm_stuff.Vmx.Shadow.Map.{field}
use svm_stuff.Vmx.Shadow.Refine.{Outcome, write-Outcome}
use svm_stuff.Vmx.Shadow.Writes.{run_writes}
use svm_stuff.Examples.Samples.{sample}

-- VMCS_GUEST_CR0 is 0x6800, and VMCS_CPU_EXEC_CONTROL 0x4002.
read-sample :
    (read sample 0x6800 ≡ 0x80050033)
    × (read sample 0x6802 ≡ 0x1000)
    × (read sample 0x4002 ≡ 0x80000080)
unfolding run_writes write fresh read
read-sample = (refl, refl, refl)

write-Outcome_example : Outcome sample 0x6800 5 (write sample 0x6800 5)
write-Outcome_example = write-Outcome sample 0x6800 5

-- A store with all slots in use.
abbrev full : ShadowVmcs
full = record { launched = false; count = 256; fields = λ i. field i 1 }
  where
    number : VmcsField → ℕ
    number f = encoding f

    apart : ¬ (VmcsField.guest_cr0 ≡ VmcsField.guest_cr3)
    apart e =
        let same : number VmcsField.guest_cr0 ≡ number VmcsField.guest_cr3 = ap number e in
        omega (arith, same)
