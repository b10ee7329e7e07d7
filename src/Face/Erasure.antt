-- ===== src/Face/Erasure.antt =====
-- What an erasure and a withdrawal of consent leave behind in the database.
use face_cam.Prelude.{
  ℕ, ◌≡◌, ◌⊎◌, inl, inr, refl, ap, sym, ◌∙◌, Bool, true, false, Option, none, some, [], is_empty,
  Text, ==_refl, arith, Option-cases, Bool-cases,
}
use mathlib.Core.List.{Memᴰ}
use face_cam.Prelude.Errors.{Error, Result, ok, err}
use face_cam.Context.{RequestStore, tenant_id_of, is_platform_scope}
use face_cam.Rows.{Member, FaceTemplate}
use face_cam.Store.{Table, unless}
use face_cam.Face.{
  Devices, FaceErasureReport, own_member, own_face, find_member, set_member, device, delete_images,
  clear_engine, erase_rows, erase_member_faces, forget_faces, withdrawn, withdraw_consent,
}

module _ {A X : Type 0} (members : Table (Member A) (λ m. m.id))
    (faces : Table FaceTemplate (λ f. f.id)) (devices : Devices X) where
  -- How an erasure that returns has gone: there was no template of the member, and nothing was
  -- done; or the engine answered, and then the images, the rows and the member's mark went.
  pub record Nothing (t member_id : ℕ) (ms ms' : members.State) (fs fs' : faces.State) (x x' : X)
      : Type 0 where
    pub absent : faces.find_many fs (own_face t member_id) ≡ []
    pub members_kept : ms' ≡ ms
    pub faces_kept : fs' ≡ fs
    pub devices_kept : x' ≡ x

  pub record Erased (t member_id : ℕ) (ms ms' : members.State) (fs fs' : faces.State) (x x' : X)
      : Type 0 where
    pub key : Option Text
    pub cleared : Bool
    pub x₁ : X
    pub known : devices.tenant_api_key t x ≡ ok key
    pub engine :
        clear_engine members faces devices key (faces.find_many fs (own_face t member_id)) x
        ≡ (ok cleared, x₁)
    pub images :
        x'
        ≡ (delete_images members faces devices (faces.find_many fs (own_face t member_id)) 0 x₁).1
    pub faces_gone : fs' ≡ faces.delete_many (own_face t member_id) fs
    pub member_marked : ms' ≡ members.update_many (own_member t member_id) forget_faces ms

  Result-cases : {B : Type 0} (r : Result B) → ((e : Error) × (r ≡ err e)) ⊎ ((v : B) × (r ≡ ok v))
  Result-cases (ok v) = inr (v, refl)
  Result-cases (err e) = inl (e, refl)

  erase_sound :
      (t member_id : ℕ) (ctx : Option RequestStore) (ms : members.State) (fs : faces.State) (x : X)
      (report : FaceErasureReport) (ctx' : Option RequestStore) (ms' : members.State)
      (fs' : faces.State) (x' : X)
      → is_platform_scope ctx ≡ false
      → tenant_id_of ctx ≡ some t
      → erase_member_faces members faces devices member_id (ctx, (ms, fs, x))
        ≡ (ok report, (ctx', (ms', fs', x')))
      → (ctx' ≡ ctx)
        × (Nothing t member_id ms ms' fs fs' x x' ⊎ Erased t member_id ms ms' fs fs' x x')
  unfolding erase_member_faces erase_rows find_member set_member device
  erase_sound t member_id ctx ms fs x report ctx' ms' fs' x' ordinary inside e =
      elim (Option-cases (members.find_first ms (own_member t member_id))) [
        | inl gone ↦ absurd (ground arith)
        | inr (m, there) ↦
            elim (Bool-cases (is_empty (faces.find_many fs (own_face t member_id)))) [
              | inl none_left ↦ (
                ground arith,
                inl (record {
                  absent = ground arith;
                  members_kept = ground arith;
                  faces_kept = ground arith;
                  devices_kept = ground arith;
                }),
              )
              | inr some_left ↦ elim (Result-cases (devices.tenant_api_key t x)) [
                | inl (problem, unreadable) ↦ absurd (ground arith)
                | inr (key, known) ↦
                    let call =
                      clear_engine members faces devices key
                        (faces.find_many fs (own_face t member_id)) x in
                    elim (Result-cases call.0) [
                      | inl (problem, unreachable) ↦ absurd (ground arith)
                      | inr (cleared, answered) ↦ (
                        ground arith,
                        inr (record {
                          key = key;
                          cleared = cleared;
                          x₁ = call.1;
                          known = known;
                          engine = ap (λ r. (r, call.1)) answered;
                          images = ground arith;
                          faces_gone = ground arith;
                          member_marked = ground arith;
                        }),
                      )
                    ]
              ]
            ]
      ]

  empty_has_none : (f : FaceTemplate) → Memᴰ f [] → ⊥
  empty_has_none f h = elim h [ ]

  erase_leaves_none :
      (t member_id : ℕ) (ms ms' : members.State) (fs fs' : faces.State) (x x' : X) (k : ℕ)
      (f : FaceTemplate)
      → Nothing t member_id ms ms' fs fs' x x' ⊎ Erased t member_id ms ms' fs fs' x x'
      → faces.find_unique fs' k ≡ some f
      → own_face t member_id f ≡ false
  erase_leaves_none t member_id ms ms' fs fs' x x' k f (inl nothing) stored =
      elim (Bool-cases (own_face t member_id f)) [
        | inl theirs ↦
            let before : faces.find_unique fs k ≡ some f = rw (sym nothing.faces_kept) stored in
            let listed = faces.find_many_complete fs (own_face t member_id) k f before theirs in
            absurd (empty_has_none f (rw (sym nothing.absent) listed))
        | inr other ↦ other
      ]
  erase_leaves_none t member_id ms ms' fs fs' x x' k f (inr erased) stored =
      let left : unless (own_face t member_id) (faces.find_unique fs k) ≡ some f =
        sym (faces.find_unique-delete_many fs (own_face t member_id) k)
        ∙ ap (λ s. faces.find_unique s k) (sym erased.faces_gone)
        ∙ stored in
      elim (Option-cases (faces.find_unique fs k)) [
        | inl gone ↦ absurd (ground arith)
        | inr (q, there) ↦ ground arith
      ]

  -- The rows of a withdrawal are the rows of its erasure, but for the member's mark.
  withdraw-erase :
      (now t member_id : ℕ) (reason : Option Text) (ctx : Option RequestStore) (ms : members.State)
      (fs : faces.State) (x : X) (report : FaceErasureReport) (ctx' : Option RequestStore)
      (ms' : members.State) (fs' : faces.State) (x' : X)
      → is_platform_scope ctx ≡ false
      → tenant_id_of ctx ≡ some t
      → withdraw_consent members faces devices now member_id reason (ctx, (ms, fs, x))
        ≡ (ok report, (ctx', (ms', fs', x')))
      → (ms₁ : members.State) × (Nothing t member_id ms ms₁ fs fs' x x'
          ⊎ Erased t member_id ms ms₁ fs fs' x x')
        × (ms' ≡ members.update_many (own_member t member_id) (withdrawn now reason) ms₁)
  unfolding withdraw_consent set_member
  withdraw-erase now t member_id reason ctx ms fs x report ctx' ms' fs' x' ordinary inside e =
      let call = erase_member_faces members faces devices member_id (ctx, (ms, fs, x)) in
      elim (Result-cases call.0) [
        | inl (problem, failed) ↦ absurd (ground arith)
        | inr (done, returned) ↦
            let now_gone =
              erase_sound t member_id ctx ms fs x done call.1.0 call.1.1.0 call.1.1.1 call.1.1.2
                ordinary inside (ap (λ r. (r, call.1)) returned) in
            let same_faces : fs' ≡ call.1.1.1 = ground (arith, now_gone.0) in
            let same_devices : x' ≡ call.1.1.2 = ground (arith, now_gone.0) in
            let marked : ms'
                ≡ members.update_many (own_member t member_id) (withdrawn now reason) call.1.1.0 =
              ground (arith, now_gone.0) in
            (call.1.1.0, rw (same_faces, same_devices) now_gone.1, marked)
      ]

  -- After a withdrawal of consent that returns, no face row of the member is left in the tenant,
  -- under any key. The tenant is the one of the request.
  pub withdraw_consent-erases :
      (now t member_id : ℕ) (reason : Option Text) (ctx : Option RequestStore) (ms : members.State)
      (fs : faces.State) (x : X) (report : FaceErasureReport) (ctx' : Option RequestStore)
      (ms' : members.State) (fs' : faces.State) (x' : X) (k : ℕ) (f : FaceTemplate)
      → is_platform_scope ctx ≡ false
      → tenant_id_of ctx ≡ some t
      → withdraw_consent members faces devices now member_id reason (ctx, (ms, fs, x))
        ≡ (ok report, (ctx', (ms', fs', x')))
      → faces.find_unique fs' k ≡ some f
      → own_face t member_id f ≡ false
  withdraw_consent-erases now t member_id reason ctx ms fs x report ctx' ms' fs' x' k f ordinary
        inside e stored =
      let (ms₁, how, marked) =
        withdraw-erase now t member_id reason ctx ms fs x report ctx' ms' fs' x' ordinary inside
          e in
      erase_leaves_none t member_id ms ms₁ fs fs' x x' k f how stored

  -- The member's row through the erasure: as it was, or without its mark of enrolment.
  row_survives :
      (t member_id : ℕ) (ms ms' : members.State) (fs fs' : faces.State) (x x' : X) (m : Member A)
      → Nothing t member_id ms ms' fs fs' x x' ⊎ Erased t member_id ms ms' fs fs' x x'
      → members.find_unique ms member_id ≡ some m
      → (m' : Member A) × (members.find_unique ms' member_id ≡ some m')
        × (m'.id ≡ m.id)
        × (m'.tenant_id ≡ m.tenant_id)
  row_survives t member_id ms ms' fs fs' x x' m (inl nothing) there =
      (m, rw (nothing.members_kept) there, refl, refl)
  row_survives t member_id ms ms' fs fs' x x' m (inr erased) there =
      elim (Bool-cases (own_member t member_id m)) [
        | inl own ↦ (
          forget_faces m,
          rw
              (
                erased.member_marked,
                members.find_unique-update_many ms (own_member t member_id) forget_faces member_id
                    (λ q. refl),
                there,
                own,
              )
              refl,
          refl,
          refl,
        )
        | inr other ↦ (
          m,
          rw
              (
                erased.member_marked,
                members.find_unique-update_many ms (own_member t member_id) forget_faces member_id
                    (λ q. refl),
                there,
                other,
              )
              refl,
          refl,
          refl,
        )
      ]

  -- After a withdrawal of consent that returns, the row of a member of the tenant holds no
  -- consent, and the time and the reason of the withdrawal.
  pub withdraw_consent-marks :
      (now t member_id : ℕ) (reason : Option Text) (ctx : Option RequestStore) (ms : members.State)
      (fs : faces.State) (x : X) (report : FaceErasureReport) (ctx' : Option RequestStore)
      (ms' : members.State) (fs' : faces.State) (x' : X) (m : Member A)
      → is_platform_scope ctx ≡ false
      → tenant_id_of ctx ≡ some t
      → members.find_unique ms member_id ≡ some m
      → m.tenant_id ≡ t
      → withdraw_consent members faces devices now member_id reason (ctx, (ms, fs, x))
        ≡ (ok report, (ctx', (ms', fs', x')))
      → (m' : Member A) × (members.find_unique ms' member_id ≡ some m')
        × (m'.consent_at ≡ none)
        × (m'.consent_version ≡ none)
        × (m'.consent_withdrawn_at ≡ some now)
        × (m'.consent_withdrawn_reason ≡ reason)
  withdraw_consent-marks now t member_id reason ctx ms fs x report ctx' ms' fs' x' m ordinary inside
        there theirs e =
      let (ms₁, how, marked) =
        withdraw-erase now t member_id reason ctx ms fs x report ctx' ms' fs' x' ordinary inside
          e in
      let (m₁, there₁, same_id, same_tenant) =
        row_survives t member_id ms ms₁ fs fs' x x' m how there in
      let own : own_member t member_id m₁ ≡ true =
        ground
          (arith, ==_refl t, ==_refl member_id, members.find_unique-key ms member_id m there) in
      (
        withdrawn now reason m₁,
        rw
            (
              marked,
              members.find_unique-update_many ms₁ (own_member t member_id) (withdrawn now reason)
                  member_id (λ q. refl),
              there₁,
              own,
            )
            refl,
        refl,
        refl,
        refl,
        refl,
      )

  erase_fails :
      (t member_id : ℕ) (ctx : Option RequestStore) (ms : members.State) (fs : faces.State)
      (x x₁ : X) (m : Member A) (key : Option Text) (problem : Error)
      → is_platform_scope ctx ≡ false
      → tenant_id_of ctx ≡ some t
      → members.find_first ms (own_member t member_id) ≡ some m
      → is_empty (faces.find_many fs (own_face t member_id)) ≡ false
      → devices.tenant_api_key t x ≡ ok key
      → clear_engine members faces devices key (faces.find_many fs (own_face t member_id)) x
        ≡ (err problem, x₁)
      → ((erase_member_faces members faces devices member_id (ctx, (ms, fs, x))).0 ≡ err problem)
        × ((erase_member_faces members faces devices member_id (ctx, (ms, fs, x))).1
            ≡ (ctx, (ms, fs, x₁)))
  unfolding erase_member_faces find_member device
  erase_fails t member_id ctx ms fs x x₁ m key problem ordinary inside there listed known failed =
      (ground arith, ground arith)

  -- When the member has templates and the face engine cannot be cleared, the withdrawal fails with
  -- the engine's error, and every row of the database is as it was: the consent stays on record
  -- until the faces are really gone.
  pub withdraw_consent_fails :
      (now t member_id : ℕ) (reason : Option Text) (ctx : Option RequestStore) (ms : members.State)
      (fs : faces.State) (x x₁ : X) (m : Member A) (key : Option Text) (problem : Error)
      → is_platform_scope ctx ≡ false
      → tenant_id_of ctx ≡ some t
      → members.find_first ms (own_member t member_id) ≡ some m
      → is_empty (faces.find_many fs (own_face t member_id)) ≡ false
      → devices.tenant_api_key t x ≡ ok key
      → clear_engine members faces devices key (faces.find_many fs (own_face t member_id)) x
        ≡ (err problem, x₁)
      → ((withdraw_consent members faces devices now member_id reason (ctx, (ms, fs, x))).0
          ≡ err problem)
        × ((withdraw_consent members faces devices now member_id reason (ctx, (ms, fs, x))).1
            ≡ (ctx, (ms, fs, x₁)))
  unfolding withdraw_consent
  withdraw_consent_fails now t member_id reason ctx ms fs x x₁ m key problem ordinary inside there
        listed known failed =
      let e =
        erase_fails t member_id ctx ms fs x x₁ m key problem ordinary inside there listed known
          failed in
      (ground (arith, e.0), ground (arith, e.0, e.1))
