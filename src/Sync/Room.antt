-- ===== src/Sync/Room.antt =====
-- Room in the shadow VMCS for one exit of src/kern_vmcs_vmcb.cpp after another.
use svm_stuff.Base.{
  ℕ, ◌≤◌, ◌≡◌, ◌⊎◌, refl, sym, subst, true, List, [], ◌∷◌, ◌++◌, arith, Bool-cases, inl, inr,
}
use svm_stuff.Vmcb.Page.{Page}
use svm_stuff.Vmx.Shadow.{ShadowVmcs}
use svm_stuff.Vmx.Shadow.Refine.{view}
use svm_stuff.Vmx.Shadow.Room.{
  holds, unseen, encodings, all_among, RoomFor, missing-unseen, unseen-le-append, RoomFor-of_count,
  run_writes-RoomFor,
}
use svm_stuff.Sync.{translate_vmcb_to_vmcs}
use svm_stuff.Sync.Writes.{state_writes, length_known, length_field, sync_writes, HasRoom, sync-run}

-- The fields that an exit may write: those that every exit writes, and the instruction length.
abbrev pub exit_fields : List ℕ
exit_fields = encodings (state_writes (λ a. 0)) ++ length_field ∷ []

sync_writes-among : (p : Page) (n : ℕ) → all_among exit_fields (sync_writes p n) ≡ true
unfolding sync_writes
sync_writes-among p n = elim (Bool-cases (length_known p n)) [
  | inl known ↦ rw known refl
  | inr unknown ↦ rw unknown refl
]

encodings-sync_writes :
    (p : Page) (n : ℕ)
    → (encodings (sync_writes p n) ≡ exit_fields)
      ⊎ (encodings (sync_writes p n) ++ length_field ∷ [] ≡ exit_fields)
unfolding sync_writes
encodings-sync_writes p n = elim (Bool-cases (length_known p n)) [
  | inl known ↦ inl (rw known refl)
  | inr unknown ↦ inr (rw unknown refl)
]

-- With that room, an exit finds room, and leaves the next one room.
pub HasRoom-RoomFor : (p : Page) (n : ℕ) (s : ShadowVmcs) → RoomFor exit_fields s → HasRoom p n s
unfolding RoomFor
HasRoom-RoomFor p n s room =
    omega (arith, missing-unseen (sync_writes p n) (view s), fewer (encodings-sync_writes p n))
  where
    es : List ℕ
    es = encodings (sync_writes p n)

    fewer :
        (es ≡ exit_fields) ⊎ (es ++ length_field ∷ [] ≡ exit_fields)
        → unseen es (holds (view s)) ≤ unseen exit_fields (holds (view s))
    fewer (inl same) =
        subst (λ xs. unseen es (holds (view s)) ≤ unseen xs (holds (view s))) same (omega arith)
    fewer (inr shorter) =
        subst (λ xs. unseen es (holds (view s)) ≤ unseen xs (holds (view s))) shorter
          (unseen-le-append es (length_field ∷ []) (holds (view s)))

pub sync-RoomFor :
    (p : Page) (n : ℕ) (s : ShadowVmcs)
    → RoomFor exit_fields s
    → RoomFor exit_fields (translate_vmcb_to_vmcs p s n)
sync-RoomFor p n s room =
    subst (RoomFor exit_fields) (sym (sync-run p s n))
      (run_writes-RoomFor exit_fields (sync_writes p n) s (sync_writes-among p n) room)

pub exit_fields-RoomFor : (s : ShadowVmcs) → s.count ≤ 214 → RoomFor exit_fields s
exit_fields-RoomFor s few = RoomFor-of_count exit_fields s (omega arith)
