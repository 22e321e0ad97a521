-- ===== src/Vmcb/Layout.antt =====
-- The packed structure `vmcb_t` of src/SVM.h and the offsets of the state-save area.
use svm_stuff.Base.{ℕ, zero, suc, ◌+◌, ◌-◌, List, [], ◌∷◌}

abbrev pub vmcb_size : ℕ
vmcb_size = 0x1000

abbrev pub vmcb_state_save_offset : ℕ
vmcb_state_save_offset = 0x400

abbrev pub vmcb_seg_es : ℕ
vmcb_seg_es = 0x400

abbrev pub vmcb_seg_cs : ℕ
vmcb_seg_cs = 0x410

abbrev pub vmcb_seg_ss : ℕ
vmcb_seg_ss = 0x420

abbrev pub vmcb_seg_ds : ℕ
vmcb_seg_ds = 0x430

abbrev pub vmcb_seg_fs : ℕ
vmcb_seg_fs = 0x440

abbrev pub vmcb_seg_gs : ℕ
vmcb_seg_gs = 0x450

abbrev pub vmcb_seg_gdtr : ℕ
vmcb_seg_gdtr = 0x460

abbrev pub vmcb_seg_ldtr : ℕ
vmcb_seg_ldtr = 0x470

abbrev pub vmcb_seg_idtr : ℕ
vmcb_seg_idtr = 0x480

abbrev pub vmcb_seg_tr : ℕ
vmcb_seg_tr = 0x490

abbrev pub vmcb_cpl : ℕ
vmcb_cpl = 0x4CB

abbrev pub vmcb_efer : ℕ
vmcb_efer = 0x4D0

abbrev pub vmcb_cr4 : ℕ
vmcb_cr4 = 0x548

abbrev pub vmcb_cr3 : ℕ
vmcb_cr3 = 0x550

abbrev pub vmcb_cr0 : ℕ
vmcb_cr0 = 0x558

abbrev pub vmcb_dr7 : ℕ
vmcb_dr7 = 0x560

abbrev pub vmcb_dr6 : ℕ
vmcb_dr6 = 0x568

abbrev pub vmcb_rflags : ℕ
vmcb_rflags = 0x570

abbrev pub vmcb_rip : ℕ
vmcb_rip = 0x578

abbrev pub vmcb_rsp : ℕ
vmcb_rsp = 0x5D8

abbrev pub vmcb_rax : ℕ
vmcb_rax = 0x5F8

abbrev pub vmcb_star : ℕ
vmcb_star = 0x600

abbrev pub vmcb_lstar : ℕ
vmcb_lstar = 0x608

abbrev pub vmcb_cstar : ℕ
vmcb_cstar = 0x610

abbrev pub vmcb_sfmask : ℕ
vmcb_sfmask = 0x618

abbrev pub vmcb_kgsbase : ℕ
vmcb_kgsbase = 0x620

abbrev pub vmcb_sysentcs : ℕ
vmcb_sysentcs = 0x628

abbrev pub vmcb_sysentesp : ℕ
vmcb_sysentesp = 0x630

abbrev pub vmcb_sysenteip : ℕ
vmcb_sysenteip = 0x638

abbrev pub vmcb_cr2 : ℕ
vmcb_cr2 = 0x640

abbrev pub vmcb_gpat : ℕ
vmcb_gpat = 0x668

abbrev pub vmcb_ctl_eventinj : ℕ
vmcb_ctl_eventinj = 0x0A8

abbrev pub vmcb_ctl_nrip : ℕ
vmcb_ctl_nrip = 0x0C8

-- The members of `vmcb_t`, in the order of their declaration.
pub data Member : Type 0 where
  intercept_cr : Member
  intercept_dr : Member
  intercept_exceptions : Member
  intercept_1 : Member
  intercept_2 : Member
  reserved_1 : Member
  pause_filter_thresh : Member
  pause_filter_count : Member
  iopm_base_pa : Member
  msrpm_base_pa : Member
  tsc_offset : Member
  guest_asid : Member
  tlb_control : Member
  reserved_2 : Member
  v_intr : Member
  interrupt_shadow : Member
  exit_code : Member
  exit_info_1 : Member
  exit_info_2 : Member
  exit_int_info : Member
  np_enable : Member
  reserved_3 : Member
  nested_cr3 : Member
  raw_tail : Member

abbrev pub size_of : Member → ℕ
size_of intercept_cr = 4
size_of intercept_dr = 4
size_of intercept_exceptions = 4
size_of intercept_1 = 4
size_of intercept_2 = 4
size_of reserved_1 = 0x28
size_of pause_filter_thresh = 2
size_of pause_filter_count = 2
size_of iopm_base_pa = 8
size_of msrpm_base_pa = 8
size_of tsc_offset = 8
size_of guest_asid = 4
size_of tlb_control = 1
size_of reserved_2 = 3
size_of v_intr = 8
size_of interrupt_shadow = 8
size_of exit_code = 8
size_of exit_info_1 = 8
size_of exit_info_2 = 8
size_of exit_int_info = 8
size_of np_enable = 8
size_of reserved_3 = 0x18
size_of nested_cr3 = 8
size_of raw_tail = vmcb_size - 0xB8

abbrev pub index : Member → ℕ
index intercept_cr = 0
index intercept_dr = 1
index intercept_exceptions = 2
index intercept_1 = 3
index intercept_2 = 4
index reserved_1 = 5
index pause_filter_thresh = 6
index pause_filter_count = 7
index iopm_base_pa = 8
index msrpm_base_pa = 9
index tsc_offset = 10
index guest_asid = 11
index tlb_control = 12
index reserved_2 = 13
index v_intr = 14
index interrupt_shadow = 15
index exit_code = 16
index exit_info_1 = 17
index exit_info_2 = 18
index exit_int_info = 19
index np_enable = 20
index reserved_3 = 21
index nested_cr3 = 22
index raw_tail = 23

abbrev pub members : List Member
members =
    intercept_cr ∷ intercept_dr ∷ intercept_exceptions ∷ intercept_1 ∷ intercept_2 ∷ reserved_1
    ∷ pause_filter_thresh ∷ pause_filter_count ∷ iopm_base_pa ∷ msrpm_base_pa ∷ tsc_offset
    ∷ guest_asid ∷ tlb_control ∷ reserved_2 ∷ v_intr ∷ interrupt_shadow ∷ exit_code ∷ exit_info_1
    ∷ exit_info_2 ∷ exit_int_info ∷ np_enable ∷ reserved_3 ∷ nested_cr3 ∷ raw_tail ∷ []

-- The sizes of the first `k` members.
abbrev pub size_before : ℕ → List Member → ℕ
size_before zero ms = 0
size_before (suc k) [] = 0
size_before (suc k) (m ∷ ms) = size_of m + size_before k ms

-- The structure is packed: a member begins where the one before it ends.
abbrev pub offset_of : Member → ℕ
offset_of m = size_before (index m) members
