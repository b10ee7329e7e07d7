-- ===== src/Members/Effects.antt =====
-- What a call of the members' service leaves in the table, whatever it answers.
use face_cam.Prelude.{
  ℕ, ◌≡◌, ◌⊎◌, inl, inr, true, Option, none, some, text_eq, arith, Option-cases, Bool-cases,
}
use face_cam.Context.{RequestStore, tenant_id_of, user_id_of, is_platform_scope, require_tenant_id}
use face_cam.Rows.{Member}
use face_cam.Store.{Table}
use face_cam.Members.{
  MemberWriteInput, own, coded, new_member, edited, to_archive, to_restore, assert_code_free,
  find_own, write_own, create, update, archive, restore,
}

module _ {A : Type 0} (members : Table (Member A) (λ m. m.id)) where
  -- A row of the tenant has been rewritten by a function.
  pub record Rewritten (id : ℕ) (ms ms' : members.State) (f : Member A → Member A) : Type 0 where
    pub t : ℕ
    pub m : Member A
    pub found : members.find_first ms (own t id) ≡ some m
    pub written : ms' ≡ members.update_many (own t m.id) f ms

  pub record Created (id now : ℕ) (input : MemberWriteInput A) (ctx : Option RequestStore)
      (ms ms' : members.State) : Type 0 where
    pub t : ℕ
    pub inside : tenant_id_of ctx ≡ some t
    pub free : members.find_first ms (coded t input.code) ≡ none
    pub written : ms' ≡ members.create (new_member id t now (user_id_of ctx) input) ms

  pub create_effect :
      (id now : ℕ) (input : MemberWriteInput A) (ctx : Option RequestStore) (ms : members.State)
      → ((create members id now input (ctx, ms)).1.1 ≡ ms)
        ⊎ Created id now input ctx ms (create members id now input (ctx, ms)).1.1
  unfolding create assert_code_free require_tenant_id
  create_effect id now input ctx ms = elim (Option-cases (tenant_id_of ctx)) [
    | inl outside ↦ inl (ground arith)
    | inr (t, inside) ↦ elim (Bool-cases (is_platform_scope ctx)) [
      | inl platform ↦ inl (ground arith)
      | inr ordinary ↦ elim (Option-cases (members.find_first ms (coded t input.code))) [
        | inr (clash, used) ↦ inl (ground arith)
        | inl free ↦ inr (record { t = t; inside = inside; free = free; written = ground arith })
      ]
    ]
  ]

  pub record Updated (id now : ℕ) (input : MemberWriteInput A) (ctx : Option RequestStore)
      (ms ms' : members.State) : Type 0 where
    pub t : ℕ
    pub m : Member A
    pub found : members.find_first ms (own t id) ≡ some m
    pub code :
        (text_eq input.code m.code ≡ true) ⊎ (members.find_first ms (coded t input.code) ≡ none)
    pub written : ms' ≡ members.update_many (own t m.id) (edited now (user_id_of ctx) input) ms

  pub update_effect :
      (now id : ℕ) (input : MemberWriteInput A) (ctx : Option RequestStore) (ms : members.State)
      → ((update members now id input (ctx, ms)).1.1 ≡ ms)
        ⊎ Updated id now input ctx ms (update members now id input (ctx, ms)).1.1
  unfolding update find_own assert_code_free write_own
  update_effect now id input ctx ms = elim (Bool-cases (is_platform_scope ctx)) [
    | inl platform ↦ inl (ground arith)
    | inr ordinary ↦ elim (Option-cases (tenant_id_of ctx)) [
      | inl outside ↦ inl (ground arith)
      | inr (t, inside) ↦ elim (Option-cases (members.find_first ms (own t id))) [
        | inl gone ↦ inl (ground arith)
        | inr (m, found) ↦ elim (Bool-cases (text_eq input.code m.code)) [
          | inl same ↦
              inr (record { t = t; m = m; found = found; code = inl same; written = ground arith })
          | inr other ↦ elim (Option-cases (members.find_first ms (coded t input.code))) [
            | inr (clash, used) ↦ inl (ground arith)
            | inl free ↦
                inr
                  (record { t = t; m = m; found = found; code = inr free; written = ground arith })
          ]
        ]
      ]
    ]
  ]

  pub archive_effect :
      (now id : ℕ) (ctx : Option RequestStore) (ms : members.State)
      → ((archive members now id (ctx, ms)).1.1 ≡ ms)
        ⊎ Rewritten id ms (archive members now id (ctx, ms)).1.1 (to_archive now)
  unfolding archive find_own write_own
  archive_effect now id ctx ms = elim (Bool-cases (is_platform_scope ctx)) [
    | inl platform ↦ inl (ground arith)
    | inr ordinary ↦ elim (Option-cases (tenant_id_of ctx)) [
      | inl outside ↦ inl (ground arith)
      | inr (t, inside) ↦ elim (Option-cases (members.find_first ms (own t id))) [
        | inl gone ↦ inl (ground arith)
        | inr (m, found) ↦ inr (record { t = t; m = m; found = found; written = ground arith })
      ]
    ]
  ]

  pub restore_effect :
      (id : ℕ) (ctx : Option RequestStore) (ms : members.State)
      → ((restore members id (ctx, ms)).1.1 ≡ ms)
        ⊎ Rewritten id ms (restore members id (ctx, ms)).1.1 to_restore
  unfolding restore find_own write_own
  restore_effect id ctx ms = elim (Bool-cases (is_platform_scope ctx)) [
    | inl platform ↦ inl (ground arith)
    | inr ordinary ↦ elim (Option-cases (tenant_id_of ctx)) [
      | inl outside ↦ inl (ground arith)
      | inr (t, inside) ↦ elim (Option-cases (members.find_first ms (own t id))) [
        | inl gone ↦ inl (ground arith)
        | inr (m, found) ↦ inr (record { t = t; m = m; found = found; written = ground arith })
      ]
    ]
  ]
