-- ===== src/Examples/Formats.antt =====
-- The formats that differ between VMX and SVM: segment rights, exits, events and page tables.
use svm_stuff.Base.{
  ℕ, ◌%◌, ◌<◌, ap, ◌+◌, ◌*◌, ◌^◌, ◌≡◌, ◌≢◌, ◌≤◌, ◌↔◌, ◌&&◌, ◌==◌, refl, arith, true, if◌then◌else◌,
}
use svm_stuff.Segment.{vmx_ar_to_svm_attrib, svm_attrib_to_vmx_ar}
use svm_stuff.Segment.Rights.{
  digits_at, svm_rights, vmx_rights, unusable, no_rights, svm_rights-vmx_ar_to_svm_attrib,
  ar_round_trip,
}
use svm_stuff.Exit.{svm_exit_to_vmx_reason}
use svm_stuff.Exit.Analogue.{Analogue, svm_exit_to_vmx_reason-Analogue}
use svm_stuff.Vmx.Controls.{wrmsr, unknown, reason_code}
use svm_stuff.Ept.{ept_entry_to_npt}
use svm_stuff.Ept.Entry.{IsPresent, IsNptFor, ept_entry_to_npt-IsNptFor}
use svm_stuff.Ept.Entry.{frame}
use svm_stuff.Ept.Walk.{
  Tables, Access, ept_format, npt_format, faulty, mapped, walk, found, counterpart, below,
  IsParallel, readable, readable_walked,
}
use svm_stuff.Ept.Walk.Parallel.{walk-parallel}
use svm_stuff.Vmcb.Layout
use svm_stuff.Vmcb.Layout.{size_of, index, members, size_before, offset_of}
use svm_stuff.Vmcb.Segment.{get_member, set_member}
use svm_stuff.Vmcb.Members.{documented, get_member-set_member}
use svm_stuff.Examples.Samples.{zero_page}

svm_rights-vmx_ar_to_svm_attrib_example :
    svm_rights (vmx_ar_to_svm_attrib 0xA09B)
    ≡ (if unusable 0xA09B == 1 then no_rights else vmx_rights 0xA09B)
svm_rights-vmx_ar_to_svm_attrib_example = svm_rights-vmx_ar_to_svm_attrib 0xA09B

ar_round_trip_example : svm_attrib_to_vmx_ar (vmx_ar_to_svm_attrib 0xA09B) ≡ (
    if (unusable 0xA09B == 0) && (digits_at 0xA09B 7 1 == 1)
    then digits_at 0xA09B 0 8 + digits_at 0xA09B 12 4 * 2 ^ 12
    else 2 ^ 16)
ar_round_trip_example = ar_round_trip 0xA09B

-- A data segment that is usable but not present comes back as unusable.
not_present : svm_attrib_to_vmx_ar (vmx_ar_to_svm_attrib 0x0013) ≡ 0x10000
unfolding vmx_ar_to_svm_attrib svm_attrib_to_vmx_ar
not_present = refl

wrmsr_known : wrmsr ≢ unknown
wrmsr_known e = cc

svm_exit_to_vmx_reason-Analogue_example :
    (svm_exit_to_vmx_reason 0x7C 1 ≡ reason_code wrmsr) ↔ Analogue 0x7C 1 wrmsr
svm_exit_to_vmx_reason-Analogue_example = svm_exit_to_vmx_reason-Analogue 0x7C 1 wrmsr wrmsr_known

-- A 2 MB page that is readable and executable, write-back cached.
large-IsPresent : IsPresent 0x2000B5
large-IsPresent e = omega arith

ept_entry_to_npt-IsNptFor_example : IsNptFor 0x2000B5 true (ept_entry_to_npt 0x2000B5 true)
ept_entry_to_npt-IsNptFor_example = ept_entry_to_npt-IsNptFor 0x2000B5 true large-IsPresent

get_member-set_member_example :
    (offset_of Layout.exit_code ≡ documented Layout.exit_code)
    × (offset_of Layout.exit_code + size_of Layout.exit_code ≤ 0x1000)
    × (size_before 24 members ≡ 0x1000)
    × (get_member Layout.exit_info_1 (set_member Layout.exit_code zero_page 0x78) ≡ (
        if index Layout.exit_code == index Layout.exit_info_1
        then 0x78
        else get_member Layout.exit_info_1 zero_page))
get_member-set_member_example =
    get_member-set_member Layout.exit_code Layout.exit_info_1 zero_page 0x78 (omega arith)

-- A 2-MiB page without write permission, behind two tables; its memory type is write-back.
abbrev tables : Tables
tables l f i = if l == 1 then 0x40000000 + 0xB5 else (l + 1) * 0x1000 + 7

abbrev all : Access
all = record { read = 1; write = 1; execute = 1 }

-- The nested tables lie elsewhere than the EPT's.
abbrev place : ℕ → ℕ → ℕ
place l f = (f + 2 ^ 39) % 2 ^ 40

abbrev nested : Tables
nested l g i = let e = tables l (place l g) i in counterpart l e (below place l (frame e))

nested-IsParallel : IsParallel place tables nested
nested-IsParallel = record {
  address = λ l f. omega arith;
  entries = λ l f i h.
      ap (λ x. counterpart l (tables l x i) (below place l (frame (tables l x i)))) (back f h);
}
  where
    back : (f : ℕ) → f < 2 ^ 40 → ((f + 2 ^ 39) % 2 ^ 40 + 2 ^ 39) % 2 ^ 40 ≡ f
    back f h = omega arith

large_page :
    walk ept_format tables 0x201234 3 all 9
    ≡ mapped (record {
      access = record { read = 1; write = 0; execute = 1 };
      frame = 0x40000;
      level = 1;
      uncached = 0;
    })
unfolding walk found
large_page = refl

large_page-fine : walk ept_format tables 0x201234 3 all 9 ≢ faulty
large_page-fine e = let page = large_page in cc

walk-parallel_example :
    walk npt_format nested 0x201234 3 (readable all) (place 3 9)
    ≡ readable_walked (walk ept_format tables 0x201234 3 all 9)
walk-parallel_example =
    walk-parallel place tables nested 0x201234 3 all 9 nested-IsParallel (omega arith)
      large_page-fine
