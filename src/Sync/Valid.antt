-- ===== src/Sync/Valid.antt =====
-- The translation keeps the shadow VMCS well formed, and needs at most 42 slots.
use svm_stuff.Base.{ℕ, ◌+◌, ◌^◌, ◌≤◌, ◌<◌, List, [], ◌∷◌, ◌++◌, arith, length, Bool-cases, inl, inr}
use svm_stuff.Bits.{bit_and_complement}
use svm_stuff.Vmcb.Page.{Page, IsBytes, vmcb_get64, get_bytes-lt}
use svm_stuff.Vmcb.Layout
use svm_stuff.Vmcb.Segment.{get_selector, get_attrib, get_limit, get_base}
use svm_stuff.Vmx.Fields.{VmcsField, encoding}
use svm_stuff.Vmx.Controls.{VmxExitReason, reason_code, exception_nmi, external_interrupt}
use svm_stuff.Vmx.Shadow.{Field, ShadowVmcs}
use svm_stuff.Vmx.Shadow.Map.{AllWords}
use svm_stuff.Vmx.Shadow.Refine.{view}
use svm_stuff.Vmx.Shadow.Invariant.{IsValid}
use svm_stuff.Vmx.Shadow.Writes.{run_writes-IsValid, missing-le-length}
use svm_stuff.Segment.Rights.{svm_attrib_to_vmx_ar-lt}
use svm_stuff.Exit.{exit_reason, svm_exit_to_vmx_reason}
use svm_stuff.Entry.{SegMap, k_segs}
use svm_stuff.Sync.{translate_vmcb_to_vmcs}
use svm_stuff.Sync.Writes.{
  register_writes, segment_writes, reason_writes, state_writes, length_writes, length_known,
  sync_writes, HasRoom, sync-run,
}

reason_code-lt : (r : VmxExitReason) → reason_code r < 2 ^ 32
reason_code-lt exception_nmi = omega arith
reason_code-lt external_interrupt = omega arith
reason_code-lt _ = omega arith

pub svm_exit_to_vmx_reason-lt : (code info : ℕ) → svm_exit_to_vmx_reason code info < 2 ^ 32
unfolding svm_exit_to_vmx_reason
svm_exit_to_vmx_reason-lt code info = reason_code-lt (exit_reason code info)

pub encoding-lt : (f : VmcsField) → encoding f < 2 ^ 32
encoding-lt VmcsField.virtual_processor_id = omega arith
encoding-lt _ = omega arith

AllWords-append : (ws vs : List Field) → AllWords ws → AllWords vs → AllWords (ws ++ vs)
AllWords-append [] vs h k = k
AllWords-append (w ∷ ws) vs h k = (h.0, h.1, AllWords-append ws vs h.2 k)

module _ (p : Page) (bytes : IsBytes p) where
  get64-lt : (off : ℕ) → vmcb_get64 p off < 2 ^ 64
  unfolding vmcb_get64
  get64-lt off = get_bytes-lt 8 p off bytes

  selector-lt : (seg : ℕ) → get_selector p seg < 2 ^ 16
  unfolding get_selector
  selector-lt seg = get_bytes-lt 2 p seg bytes

  limit-lt : (seg : ℕ) → get_limit p seg < 2 ^ 32
  unfolding get_limit
  limit-lt seg = get_bytes-lt 4 p (seg + 4) bytes

  base-lt : (seg : ℕ) → get_base p seg < 2 ^ 64
  unfolding get_base
  base-lt seg = get_bytes-lt 8 p (seg + 8) bytes

  register_writes-AllWords : AllWords (register_writes p)
  register_writes-AllWords =
      omega (arith, get64-lt, bit_and_complement 64 (vmcb_get64 p Layout.vmcb_efer) (2 ^ 12))

  segment_writes-AllWords : (ms : List SegMap) → AllWords (segment_writes p ms)
  segment_writes-AllWords [] = tt
  segment_writes-AllWords (m ∷ ms) = (
    encoding-lt m.sel_enc,
    omega (arith, selector-lt m.vmcb_off),
    (
      encoding-lt m.limit_enc,
      omega (arith, limit-lt m.vmcb_off),
      (
        encoding-lt m.base_enc,
        base-lt m.vmcb_off,
        (
          encoding-lt m.ar_enc,
          omega (arith, svm_attrib_to_vmx_ar-lt (get_attrib p m.vmcb_off)),
          segment_writes-AllWords ms,
        ),
      ),
    ),
  )

  reason_writes-AllWords : AllWords (reason_writes p)
  reason_writes-AllWords = omega (arith, svm_exit_to_vmx_reason-lt)

  state_writes-AllWords : AllWords (state_writes p)
  state_writes-AllWords =
      AllWords-append (register_writes p) (segment_writes p k_segs ++ reason_writes p)
        register_writes-AllWords
        (AllWords-append (segment_writes p k_segs) (reason_writes p)
          (segment_writes-AllWords k_segs) reason_writes-AllWords)

  length_writes-AllWords : (n : ℕ) → AllWords (length_writes p n)
  length_writes-AllWords n = elim (Bool-cases (length_known p n)) [
    | inl known ↦ rw known (omega (arith, get64-lt))
    | inr unknown ↦ rw unknown tt
  ]

  -- From a VMCB of bytes, what an exit saves keeps a valid shadow VMCS valid, whether or not the
  -- store has room for all of it.
  pub sync-IsValid : (s : ShadowVmcs) (n : ℕ) → IsValid s → IsValid (translate_vmcb_to_vmcs p s n)
  unfolding sync_writes
  sync-IsValid s n valid = rw (sync-run p s n) (
      run_writes-IsValid (sync_writes p n) s
        (AllWords-append (state_writes p) (length_writes p n) state_writes-AllWords
          (length_writes-AllWords n))
        valid)

length-sync_writes : (p : Page) (n : ℕ) → length (sync_writes p n) ≤ 42
unfolding sync_writes
length-sync_writes p n = elim (Bool-cases (length_known p n)) [
  | inl known ↦ rw known (omega arith)
  | inr unknown ↦ rw unknown (omega arith)
]

-- 214 fields leave room for every exit.
pub HasRoom-of_count : (p : Page) (n : ℕ) (s : ShadowVmcs) → s.count ≤ 214 → HasRoom p n s
HasRoom-of_count p n s h =
    omega (arith, length-sync_writes p n, missing-le-length (sync_writes p n) (view s))
