-- ===== src/Ept.antt =====
-- EPT entries as NPT entries, src/kern_vmcs_vmcb.cpp.
pub mod Entry
pub mod Walk
use svm_stuff.Base.{
  ℕ, ◌-◌, ◌*◌, ◌^◌, Bool, true, false, bit_and, bit_or, ◌==◌, not, if◌then◌else◌, truthy, ◌>>>◌,
}

abbrev pub ept_read : ℕ
ept_read = 2 ^ 0

abbrev pub ept_write : ℕ
ept_write = 2 ^ 1

abbrev pub ept_execute : ℕ
ept_execute = 2 ^ 2

abbrev pub ept_memtype_shift : ℕ
ept_memtype_shift = 3

abbrev pub ept_page_size : ℕ
ept_page_size = 2 ^ 7

abbrev pub ept_addr_mask : ℕ
ept_addr_mask = 0x000FFFFFFFFFF000

abbrev pub pt_present : ℕ
pt_present = 2 ^ 0

abbrev pub pt_rw : ℕ
pt_rw = 2 ^ 1

abbrev pub pt_us : ℕ
pt_us = 2 ^ 2

abbrev pub pt_pwt : ℕ
pt_pwt = 2 ^ 3

abbrev pub pt_pcd : ℕ
pt_pcd = 2 ^ 4

abbrev pub pt_ps : ℕ
pt_ps = 2 ^ 7

abbrev pub pt_nx : ℕ
pt_nx = 2 ^ 63

-- `if (b) x |= mask`
abbrev pub or_if : Bool → ℕ → ℕ → ℕ
or_if b mask x = if b then bit_or x mask else x

-- The part of `eptEntryToNpt` for a page-mapping entry.
pub leaf_bits : ℕ → ℕ → ℕ
leaf_bits ept npt =
    let npt = or_if (truthy (bit_and ept ept_page_size)) pt_ps npt in
    let mem_type = bit_and (ept >>> ept_memtype_shift) 0x7 in
    or_if (mem_type == 0) (bit_or pt_pwt pt_pcd) npt

-- Present, address, write and execute permission.
pub access_bits : ℕ → ℕ
access_bits ept =
    let npt = bit_or (bit_or (bit_and ept ept_addr_mask) pt_present) pt_us in
    let npt = or_if (truthy (bit_and ept ept_write)) pt_rw npt in
    or_if (not (truthy (bit_and ept ept_execute))) pt_nx npt

unfoldable pub ept_entry_to_npt : ℕ → Bool → ℕ
unfolding leaf_bits access_bits
ept_entry_to_npt ept leaf =
    if bit_and ept (bit_or (bit_or ept_read ept_write) ept_execute) == 0
    then 0
    else if leaf
    then leaf_bits ept (access_bits ept)
    else access_bits ept

-- A scaffold in the source: no table is built.
unfoldable pub build_npt_from_ept : ℕ → ℕ
build_npt_from_ept eptp = 0
