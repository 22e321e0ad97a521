-- ===== src/Exit/Analogue.antt =====
-- Which VMX exit an SVM exit corresponds to, by rules, and that the code follows them.
use svm_stuff.Base.{
  ℕ, ◌+◌, ◌-◌, ◌%◌, ◌<◌, ◌≡◌, ◌≢◌, ◌↔◌, ◌⊎◌, refl, sym, ap, ◌∙◌, leb, ◌&&◌, if◌then◌else◌, subst,
  arith, bit_and, Bool-cases, inl, inr, ◌==◌,
}
use svm_stuff.Bits.{bit_and_bit}
use svm_stuff.Vmx.Controls.{
  VmxExitReason, reason_code, exception_nmi, external_interrupt, cpuid, hlt, vmcall, io_instruction,
  rdmsr, wrmsr, ept_violation, unknown, triple_fault, cr_access, ept_misconfig,
}
use svm_stuff.Exit.{exit_reason, svm_exit_to_vmx_reason}

-- AMD's exit code and EXITINFO1, and the exit that VMX reports for the same event.
pub data Analogue (code info : ℕ) : VmxExitReason → Type 0 where
  exception : (vector : ℕ) → vector < 32 → code ≡ 0x40 + vector → Analogue code info exception_nmi
  physical_interrupt : code ≡ 0x60 → Analogue code info external_interrupt
  non_maskable : code ≡ 0x61 → Analogue code info exception_nmi
  cpu_identification : code ≡ 0x72 → Analogue code info cpuid
  halt : code ≡ 0x78 → Analogue code info hlt
  port_access : code ≡ 0x7B → Analogue code info io_instruction
  msr_read : code ≡ 0x7C → info % 2 ≡ 0 → Analogue code info rdmsr
  msr_write : code ≡ 0x7C → info % 2 ≡ 1 → Analogue code info wrmsr
  hypercall : code ≡ 0x81 → Analogue code info vmcall
  nested_fault : code ≡ 0x400 → Analogue code info ept_violation

-- Every rule is followed.
pub exit_reason-Analogue :
    {code info : ℕ} {r : VmxExitReason} → Analogue code info r → exit_reason code info ≡ r
unfolding exit_reason
exit_reason-Analogue (exception v h e) = ground arith
exit_reason-Analogue (physical_interrupt e) = rw e
exit_reason-Analogue (non_maskable e) = rw e
exit_reason-Analogue (cpu_identification e) = rw e
exit_reason-Analogue (halt e) = rw e
exit_reason-Analogue (port_access e) = rw e
exit_reason-Analogue {info} (msr_read e h) = rw e (ground (arith, bit_and_bit 0 info))
exit_reason-Analogue {info} (msr_write e h) = rw e (ground (arith, bit_and_bit 0 info))
exit_reason-Analogue (hypercall e) = rw e
exit_reason-Analogue (nested_fault e) = rw e

-- An exit that the code reports has an analogue, and it reports that one.
Analogue-or_unknown :
    (code info : ℕ) → Analogue code info (exit_reason code info) ⊎ (exit_reason code info ≡ unknown)
unfolding exit_reason
Analogue-or_unknown code info = elim (Bool-cases (code == 0x72)) [
  | inl e ↦ rw e (inl (cpu_identification (ground arith)))
  | inr e ↦ rw e (elim (Bool-cases (code == 0x78)) [
    | inl e ↦ rw e (inl (halt (ground arith)))
    | inr e ↦ rw e (elim (Bool-cases (code == 0x81)) [
      | inl e ↦ rw e (inl (hypercall (ground arith)))
      | inr e ↦ rw e (elim (Bool-cases (code == 0x7B)) [
        | inl e ↦ rw e (inl (port_access (ground arith)))
        | inr e ↦ rw e (elim (Bool-cases (code == 0x7C)) [
          | inl e ↦ rw e (elim (Bool-cases (bit_and info 1 == 0)) [
            | inl even ↦
                rw even (inl (msr_read (ground arith) (ground (arith, bit_and_bit 0 info))))
            | inr odd ↦ rw odd (inl (msr_write (ground arith) (ground (arith, bit_and_bit 0 info))))
          ])
          | inr e ↦ rw e (elim (Bool-cases (code == 0x60)) [
            | inl e ↦ rw e (inl (physical_interrupt (ground arith)))
            | inr e ↦ rw e (elim (Bool-cases (code == 0x61)) [
              | inl e ↦ rw e (inl (non_maskable (ground arith)))
              | inr e ↦ rw e (elim (Bool-cases (code == 0x400)) [
                | inl e ↦ rw e (inl (nested_fault (ground arith)))
                | inr e ↦ rw e (elim (Bool-cases (leb 0x40 code && leb code 0x5F)) [
                  | inl e ↦ rw e (inl (exception (code - 0x40) (ground arith) (ground arith)))
                  | inr e ↦ rw e (inr refl)
                ])
              ])
            ])
          ])
        ])
      ])
    ])
  ])
]

-- The reasons have different codes.
reason_of : ℕ → VmxExitReason
reason_of n =
    if n == 0
    then exception_nmi
    else if n == 1
    then external_interrupt
    else if n == 2
    then triple_fault
    else if n == 10
    then cpuid
    else if n == 12
    then hlt
    else if n == 18
    then vmcall
    else if n == 28
    then cr_access
    else if n == 30
    then io_instruction
    else if n == 31
    then rdmsr
    else if n == 32
    then wrmsr
    else if n == 48
    then ept_violation
    else if n == 49
    then ept_misconfig
    else unknown

reason_of-reason_code : (r : VmxExitReason) → reason_of (reason_code r) ≡ r
unfolding reason_of
reason_of-reason_code exception_nmi = refl
reason_of-reason_code external_interrupt = refl
reason_of-reason_code _ = refl

-- For a reason other than EXIT_UNKNOWN, the code returned is that reason's exactly if the rules of
-- `Analogue` give the reason for the exit code and EXITINFO1.
pub svm_exit_to_vmx_reason-Analogue :
    (code info : ℕ) (r : VmxExitReason)
    → r ≢ unknown
    → (svm_exit_to_vmx_reason code info ≡ reason_code r) ↔ Analogue code info r
unfolding svm_exit_to_vmx_reason
svm_exit_to_vmx_reason-Analogue code info r known =
    (sound, λ a. ap reason_code (exit_reason-Analogue a))
  where
    same : reason_code (exit_reason code info) ≡ reason_code r → exit_reason code info ≡ r
    same h =
        sym (reason_of-reason_code (exit_reason code info))
        ∙ ap reason_of h
        ∙ reason_of-reason_code r

    sound : reason_code (exit_reason code info) ≡ reason_code r → Analogue code info r
    sound h = elim (Analogue-or_unknown code info) [
      | inl a ↦ subst (Analogue code info) (same h) a
      | inr u ↦ absurd (known (sym (same h) ∙ u))
    ]

Analogue-known : {code info : ℕ} {r : VmxExitReason} → Analogue code info r → r ≢ unknown
Analogue-known (exception v h e) u = cc
Analogue-known (physical_interrupt e) u = cc
Analogue-known (non_maskable e) u = cc
Analogue-known (cpu_identification e) u = cc
Analogue-known (halt e) u = cc
Analogue-known (port_access e) u = cc
Analogue-known (msr_read e h) u = cc
Analogue-known (msr_write e h) u = cc
Analogue-known (hypercall e) u = cc
Analogue-known (nested_fault e) u = cc

-- EXIT_UNKNOWN is reported exactly for an exit to which no rule of `Analogue` gives a reason.
pub exit_reason-unknown_iff :
    (code info : ℕ)
    → (exit_reason code info ≡ unknown) ↔ ((r : VmxExitReason) → ¬ Analogue code info r)
exit_reason-unknown_iff code info = (
  λ u r a. Analogue-known a (sym (exit_reason-Analogue a) ∙ u),
  λ none_fits. elim (Analogue-or_unknown code info) [
    | inl a ↦ absurd (none_fits (exit_reason code info) a)
    | inr u ↦ u
  ],
)
