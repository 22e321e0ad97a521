-- ===== src/Sync/Writes.antt =====
-- The translation as one sequence of writes.
use mathlib.Core.Option
use svm_stuff.Base.{
  ℕ, ◌-◌, ◌+◌, ◌^◌, ◌≤◌, ◌≡◌, ◌≢◌, refl, ◌∙◌, Bool, true, false, ◌&&◌, Option, none, some, List, [],
  ◌∷◌, ◌++◌, bit_and, ltb, if◌then◌else◌, truthy, Bool-cases, inl, inr, ==_ne,
}
use svm_stuff.Vmcb.Page.{Page, vmcb_get64}
use svm_stuff.Vmcb.Constants
use svm_stuff.Vmcb.Layout
use svm_stuff.Vmcb.Segment.{get_selector, get_attrib, get_limit, get_base, get_member}
use svm_stuff.Vmx.Fields.{VmcsField, encoding}
use svm_stuff.Vmx.Shadow.{Field, ShadowVmcs, max_fields, read, write}
use svm_stuff.Vmx.Shadow.Refine.{view}
use svm_stuff.Vmx.Shadow.Writes.{
  run_writes, missing, last_write, last_write-append, read-run_writes,
}
use svm_stuff.Segment.{svm_attrib_to_vmx_ar}
use svm_stuff.Exit.{svm_exit_to_vmx_reason}
use svm_stuff.Entry.{SegMap, k_segs}
use svm_stuff.Sync.{
  save_registers, save_segment, save_segments, save_reason, save_length, translate_vmcb_to_vmcs,
}

abbrev pub entry : VmcsField → ℕ → Field
entry f v = record { enc = encoding f; val = v }

abbrev pub register_writes : Page → List Field
register_writes p =
    entry VmcsField.guest_cr0 (vmcb_get64 p Layout.vmcb_cr0)
    ∷ entry VmcsField.guest_cr3 (vmcb_get64 p Layout.vmcb_cr3)
    ∷ entry VmcsField.guest_cr4 (vmcb_get64 p Layout.vmcb_cr4)
    ∷ entry VmcsField.guest_cr2 (vmcb_get64 p Layout.vmcb_cr2)
    ∷ entry VmcsField.guest_rip (vmcb_get64 p Layout.vmcb_rip)
    ∷ entry VmcsField.guest_rsp (vmcb_get64 p Layout.vmcb_rsp)
    ∷ entry VmcsField.guest_rflags (vmcb_get64 p Layout.vmcb_rflags)
    ∷ entry VmcsField.guest_ia32_efer
        (bit_and (vmcb_get64 p Layout.vmcb_efer) (2 ^ 64 - 1 - 2 ^ 12))
    ∷ []

abbrev pub segment_writes : Page → List SegMap → List Field
segment_writes p [] = []
segment_writes p (m ∷ ms) =
    entry m.sel_enc (get_selector p m.vmcb_off)
    ∷ entry m.limit_enc (get_limit p m.vmcb_off)
    ∷ entry m.base_enc (get_base p m.vmcb_off)
    ∷ entry m.ar_enc (svm_attrib_to_vmx_ar (get_attrib p m.vmcb_off))
    ∷ segment_writes p ms

abbrev pub reason_writes : Page → List Field
reason_writes p =
    entry VmcsField.vm_exit_reason
      (svm_exit_to_vmx_reason (get_member Layout.exit_code p) (get_member Layout.exit_info_1 p))
    ∷ []

-- The writes that every exit makes.
abbrev pub state_writes : Page → List Field
state_writes p = register_writes p ++ segment_writes p k_segs ++ reason_writes p

abbrev pub length_known : Page → ℕ → Bool
length_known p svm_features =
    truthy (bit_and svm_features Constants.svm_feature_nrips)
    && ltb (vmcb_get64 p Layout.vmcb_rip) (vmcb_get64 p Layout.vmcb_ctl_nrip)

abbrev pub instr_length : Page → ℕ
instr_length p = vmcb_get64 p Layout.vmcb_ctl_nrip - vmcb_get64 p Layout.vmcb_rip

abbrev pub length_writes : Page → ℕ → List Field
length_writes p svm_features =
    if length_known p svm_features
    then entry VmcsField.vm_exit_instr_len (instr_length p) ∷ []
    else []

unfoldable pub sync_writes : Page → ℕ → List Field
sync_writes p svm_features = state_writes p ++ length_writes p svm_features

pub run_writes-append :
    (ws vs : List Field) (s : ShadowVmcs)
    → run_writes (ws ++ vs) s ≡ run_writes vs (run_writes ws s)
unfolding run_writes
run_writes-append [] vs s = refl
run_writes-append (w ∷ ws) vs s = run_writes-append ws vs (write s w.enc w.val).0

save_length-run :
    (p : Page) (n : ℕ) (s : ShadowVmcs) → save_length p n s ≡ run_writes (length_writes p n) s
unfolding save_length run_writes
save_length-run p n s = elim (Bool-cases (truthy (bit_and n Constants.svm_feature_nrips))) [
  | inr off ↦ rw off
  | inl on ↦
      rw on
        (elim (Bool-cases
          (ltb (vmcb_get64 p Layout.vmcb_rip) (vmcb_get64 p Layout.vmcb_ctl_nrip))) [
            | inl known ↦ rw known
            | inr unknown ↦ rw unknown
          ])
]

-- The translation makes these writes and no other.
pub sync-run :
    (p : Page) (s : ShadowVmcs) (n : ℕ)
    → translate_vmcb_to_vmcs p s n ≡ run_writes (sync_writes p n) s
unfolding translate_vmcb_to_vmcs save_registers save_segments save_segment save_reason sync_writes
    run_writes
sync-run p s n = rw save_length-run

-- A store that has room for every field that the translation writes.
abbrev pub HasRoom : Page → ℕ → ShadowVmcs → Type 0
HasRoom p n s = s.count + missing (sync_writes p n) (view s) ≤ max_fields

abbrev pub length_field : ℕ
length_field = 0x440C

length_writes-other :
    (p : Page) (n k : ℕ) → length_field ≢ k → last_write k (length_writes p n) ≡ none
length_writes-other p n k ne = elim (Bool-cases (length_known p n)) [
  | inl known ↦ rw (known, ==_ne length_field k ne)
  | inr unknown ↦ rw unknown
]

-- What a read of any field but the instruction length finds after the translation.
pub sync-read :
    (p : Page) (s : ShadowVmcs) (n k : ℕ)
    → HasRoom p n s
    → length_field ≢ k
    → read (translate_vmcb_to_vmcs p s n) k
      ≡ Option.get_or (last_write k (state_writes p)) (read s k)
unfolding sync_writes
sync-read p s n k room ne = rw (sync-run p s n) (
    read-run_writes (sync_writes p n) s k room
    ∙ rw (last_write-append k (state_writes p) (length_writes p n), length_writes-other p n k ne))

length_writes_self :
    (p : Page) (n : ℕ)
    → last_write length_field (length_writes p n)
      ≡ (if length_known p n then some (instr_length p) else none)
length_writes_self p n = elim (Bool-cases (length_known p n)) [
  | inl known ↦ rw known
  | inr unknown ↦ rw unknown
]

some_if :
    (b : Bool) (v old : ℕ) (o : Option ℕ)
    → o ≡ (if b then some v else none)
    → Option.get_or (elim o [ some w ↦ some w | none ↦ none ]) old ≡ (if b then v else old)
some_if true v old o h = rw h
some_if false v old o h = rw h

-- The instruction length, where it is known.
pub sync-read_length :
    (p : Page) (s : ShadowVmcs) (n : ℕ)
    → HasRoom p n s
    → read (translate_vmcb_to_vmcs p s n) length_field
      ≡ (if length_known p n then instr_length p else read s length_field)
unfolding sync_writes
sync-read_length p s n room = rw (sync-run p s n) (
    read-run_writes (sync_writes p n) s length_field room
    ∙ rw (last_write-append length_field (state_writes p) (length_writes p n)) (
        some_if (length_known p n) (instr_length p) (read s length_field)
          (last_write length_field (length_writes p n)) (length_writes_self p n)))
