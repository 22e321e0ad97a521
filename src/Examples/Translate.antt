-- ===== src/Examples/Translate.antt =====
-- Both translations at the sample.
use svm_stuff.Base.{◌≡◌, refl, arith}
use svm_stuff.Vmcb.Layout
use svm_stuff.Vmcb.Page.{Page, get_bytes, vmcb_get64}
use svm_stuff.Vmx.Shadow.{read, write, fresh}
use svm_stuff.Vmx.Shadow.Writes.{run_writes}
use svm_stuff.Vmcb.Page.{vmcb_set64, set_bytes, put}
use svm_stuff.Vmcb.Segment.{set_selector, set_limit, set_base, set_attrib, set_member}
use svm_stuff.Vmcb.Event.{eventinj_make}
use svm_stuff.Vmx.Controls.{vmx_entry_type, vmx_entry_vector}
use svm_stuff.Segment.{vmx_ar_to_svm_attrib}
use svm_stuff.Ept.{build_npt_from_ept}
use svm_stuff.Entry.{
  translate_vmcs_to_vmcb, load_segments, load_segment, load_tables, load_registers, load_intercepts,
  load_paging, load_asid, load_event, event_word, svm_event_type, npt_root, sec_controls,
  cpu_controls, pin_controls, intercept_word,
}
use svm_stuff.Entry.State.{RegistersLoaded, translate-RegistersLoaded}
use svm_stuff.Entry.Named.{fs, IsLoaded, translate-SegmentsLoaded}
use svm_stuff.Entry.Control.{
  InterceptsLoaded, PagingLoaded, translate-InterceptsLoaded, translate-PagingLoaded,
}
use svm_stuff.Entry.Injection.{EventLoaded, translate-EventLoaded}
use svm_stuff.Entry.Frame.{NotLoaded, translate-NotLoaded}
use svm_stuff.Sync.{translate_vmcb_to_vmcs}
use svm_stuff.Sync.Writes.{HasRoom}
use svm_stuff.Sync.Fields.{exit_value, sync-exit_value}
use svm_stuff.Vmx.Fields.{VmcsField, encoding}
use svm_stuff.Sync.Valid.{HasRoom-of_count}
use svm_stuff.Examples.Samples.{zero_page, sample, sample-IsValid, sample_count}

abbrev loaded : Page
loaded = translate_vmcs_to_vmcb sample zero_page

translate-RegistersLoaded_example : RegistersLoaded sample (translate_vmcs_to_vmcb sample zero_page)
translate-RegistersLoaded_example = translate-RegistersLoaded sample zero_page sample-IsValid

translate-SegmentsLoaded_example : IsLoaded sample (translate_vmcs_to_vmcb sample zero_page) fs
translate-SegmentsLoaded_example = translate-SegmentsLoaded sample zero_page sample-IsValid fs

translate-InterceptsLoaded_example :
    InterceptsLoaded sample (translate_vmcs_to_vmcb sample zero_page)
translate-InterceptsLoaded_example = translate-InterceptsLoaded sample zero_page

translate-PagingLoaded_example : PagingLoaded sample (translate_vmcs_to_vmcb sample zero_page)
translate-PagingLoaded_example = translate-PagingLoaded sample zero_page sample-IsValid

translate-NotLoaded_example : NotLoaded zero_page (translate_vmcs_to_vmcb sample zero_page)
translate-NotLoaded_example = translate-NotLoaded sample zero_page

translate-EventLoaded_example : EventLoaded sample (translate_vmcs_to_vmcb sample zero_page)
translate-EventLoaded_example = translate-EventLoaded sample zero_page

sample-HasRoom : HasRoom loaded 8 sample
sample-HasRoom = HasRoom-of_count loaded 8 sample (omega (arith, sample_count))

sync-exit_value_example :
    read (translate_vmcb_to_vmcs loaded sample 8) (encoding VmcsField.guest_cs_ar)
    ≡ exit_value loaded 8 VmcsField.guest_cs_ar (read sample (encoding VmcsField.guest_cs_ar))
sync-exit_value_example = sync-exit_value loaded sample 8 VmcsField.guest_cs_ar sample-HasRoom

-- The page fault with its error code, as VMRUN reads it.
event_of_sample : vmcb_get64 loaded Layout.vmcb_ctl_eventinj ≡ 0x280000B0E
unfolding translate_vmcs_to_vmcb load_segments load_segment load_tables load_registers
    load_intercepts load_paging load_asid load_event vmcb_get64 vmcb_set64 set_bytes get_bytes put
    set_selector set_limit set_base set_attrib set_member event_word svm_event_type vmx_entry_type
    vmx_entry_vector eventinj_make read run_writes write fresh vmx_ar_to_svm_attrib npt_root
    build_npt_from_ept sec_controls cpu_controls pin_controls intercept_word
event_of_sample = refl
