-- ===== src/Members/Codes.antt =====
-- Member codes stay unique in each organization, through any run of the service's writes.
use face_cam.Prelude.{
  ℕ, ◌≡◌, ◌⊎◌, inl, inr, refl, sym, ap, ◌∙◌, Bool, true, Option, none, some, Text, text_eq,
  text_eq_iff, is_some, ◌==◌, ==_iff, if◌then◌else◌, arith, Option-cases, Bool-cases,
}
use face_cam.Context.{RequestStore, user_id_of}
use face_cam.Rows.{Member}
use face_cam.Store.{Table, patch}
use face_cam.Members.{
  ConsentInput, with_consent, MemberWriteInput, own, coded, new_member, edited, to_archive,
  to_restore, create, update, archive, restore,
}
use face_cam.Members.Effects.{create_effect, update_effect, archive_effect, restore_effect}

module _ {A : Type 0} where
  with_consent_keeps :
      (now : ℕ) (user : Option ℕ) (consent : Option ConsentInput) (m : Member A)
      → ((with_consent now user consent m).id ≡ m.id)
        × ((with_consent now user consent m).tenant_id ≡ m.tenant_id)
        × ((with_consent now user consent m).code ≡ m.code)
  with_consent_keeps now user none m = (refl, refl, refl)
  with_consent_keeps now user (some consent) m = elim (Bool-cases consent.granted) [
    | inl given ↦ rw given (refl, refl, refl)
    | inr refused ↦ rw refused (refl, refl, refl)
  ]

  pub new_member_keeps :
      (id t now : ℕ) (user : Option ℕ) (input : MemberWriteInput A)
      → ((new_member id t now user input).id ≡ id)
        × ((new_member id t now user input).tenant_id ≡ t)
        × ((new_member id t now user input).code ≡ input.code)
  new_member_keeps id t now user input = with_consent_keeps now user input.consent _

  pub edited_keeps :
      (now : ℕ) (user : Option ℕ) (input : MemberWriteInput A) (q : Member A)
      → ((edited now user input q).id ≡ q.id)
        × ((edited now user input q).tenant_id ≡ q.tenant_id)
        × ((edited now user input q).code ≡ input.code)
  edited_keeps now user input q =
      with_consent_keeps now user (if is_some q.consent_at then none else input.consent) _

module _ {A : Type 0} (members : Table (Member A) (λ m. m.id)) where
  -- Two stored members of one organization with one code are one member.
  unfoldable pub UniqueCodes : members.State → Type 0
  UniqueCodes ms =
      (a b : Member A)
      → members.find_unique ms a.id ≡ some a
      → members.find_unique ms b.id ≡ some b
      → a.tenant_id ≡ b.tenant_id
      → a.code ≡ b.code
      → a.id ≡ b.id

  -- Where a row of an updated table comes from.
  pub before_update :
      (ms : members.State) (p : Member A → Bool) (f : Member A → Member A) (a : Member A)
      → ((q : Member A) → (f q).id ≡ q.id)
      → members.find_unique (members.update_many p f ms) a.id ≡ some a
      → (b : Member A) × (members.find_unique ms b.id ≡ some b) × (a ≡ patch p f b) × (b.id ≡ a.id)
  before_update ms p f a keeps there =
      let law = members.find_unique-update_many ms p f a.id keeps in
      elim (Option-cases (members.find_unique ms a.id)) [
        | inl gone ↦ absurd (ground (arith, law))
        | inr (b, found) ↦
            let key = members.find_unique-key ms a.id b found in
            (b, ap (λ k. members.find_unique ms k) key ∙ found, ground (arith, law), key)
      ]

  -- A rewriting that leaves ids, organizations and codes alone.
  pub update_many-UniqueCodes :
      (ms : members.State) (p : Member A → Bool) (f : Member A → Member A)
      → ((q : Member A) → (f q).id ≡ q.id)
      → ((q : Member A) → (f q).tenant_id ≡ q.tenant_id)
      → ((q : Member A) → (f q).code ≡ q.code)
      → UniqueCodes ms
      → UniqueCodes (members.update_many p f ms)
  unfolding UniqueCodes
  update_many-UniqueCodes ms p f keeps tenants codes unique a b ha hb same_tenant same_code =
      let (a₀, ha₀, ea, ia) = before_update ms p f a keeps ha in
      let (b₀, hb₀, eb, ib) = before_update ms p f b keeps hb in
      let ta : a.tenant_id ≡ a₀.tenant_id = ground (arith, tenants a₀) in
      let tb : b.tenant_id ≡ b₀.tenant_id = ground (arith, tenants b₀) in
      let ca : a.code ≡ a₀.code = ground (arith, codes a₀) in
      let cb : b.code ≡ b₀.code = ground (arith, codes b₀) in
      sym ia ∙ unique a₀ b₀ ha₀ hb₀ (sym ta ∙ same_tenant ∙ tb) (sym ca ∙ same_code ∙ cb) ∙ ib

  pub no_clash :
      (ms : members.State) (t : ℕ) (code : Text) (b : Member A)
      → members.find_first ms (coded t code) ≡ none
      → members.find_unique ms b.id ≡ some b
      → b.tenant_id ≡ t
      → b.code ≡ code
      → ⊥
  no_clash ms t code b free there tenant same =
      let refused = members.find_first_none ms (coded t code) b.id b free there in
      ground (arith, text_eq_iff b.code code, ==_iff b.tenant_id t)

  pub create-UniqueCodes :
      (ms : members.State) (row : Member A)
      → members.find_first ms (coded row.tenant_id row.code) ≡ none
      → UniqueCodes ms
      → UniqueCodes (members.create row ms)
  unfolding UniqueCodes
  create-UniqueCodes ms row free unique a b ha hb same_tenant same_code =
      let la = members.find_unique-create ms row a.id in
      let lb = members.find_unique-create ms row b.id in
      elim (Bool-cases (row.id == a.id)) [
        | inl a_new ↦ elim (Bool-cases (row.id == b.id)) [
          | inl b_new ↦ ground arith
          | inr b_old ↦
              let ea : row ≡ a = ground (arith, la) in
              absurd (
                no_clash ms row.tenant_id row.code b free (ground (arith, lb)) (ground arith)
                  (ground arith))
        ]
        | inr a_old ↦ elim (Bool-cases (row.id == b.id)) [
          | inl b_new ↦
              let eb : row ≡ b = ground (arith, lb) in
              absurd (
                no_clash ms row.tenant_id row.code a free (ground (arith, la)) (ground arith)
                  (ground arith))
          | inr b_old ↦ unique a b (ground (arith, la)) (ground (arith, lb)) same_tenant same_code
        ]
      ]

  -- The row that `update` rewrites.
  pub rewritten_row :
      (ms : members.State) (t id : ℕ) (m b : Member A)
      → members.find_first ms (own t id) ≡ some m
      → members.find_unique ms b.id ≡ some b
      → own t m.id b ≡ true
      → b ≡ m
  rewritten_row ms t id m b found there hit =
      let (stored, passed) = members.find_first_sound ms (own t id) m found in
      let same : b.id ≡ m.id = ground (arith, ==_iff b.id m.id) in
      let moved : members.find_unique ms b.id ≡ some m =
        ap (λ k. members.find_unique ms k) same ∙ stored in
      ground arith

  -- Only the row that is rewritten can have the new code already.
  holder :
      (ms : members.State) (t id : ℕ) (code : Text) (m b : Member A)
      → members.find_first ms (own t id) ≡ some m
      → (text_eq code m.code ≡ true) ⊎ (members.find_first ms (coded t code) ≡ none)
      → UniqueCodes ms
      → members.find_unique ms b.id ≡ some b
      → b.tenant_id ≡ t
      → b.code ≡ code
      → b.id ≡ m.id
  unfolding UniqueCodes
  holder ms t id code m b found (inl same) unique there tenant coded_so =
      let (stored, passed) = members.find_first_sound ms (own t id) m found in
      unique b m there stored (ground (arith, ==_iff m.tenant_id t))
        (ground (arith, text_eq_iff code m.code))
  holder ms t id code m b found (inr free) unique there tenant coded_so =
      absurd (no_clash ms t code b free there tenant coded_so)

  hit_row :
      (ms : members.State) (t now id : ℕ) (user : Option ℕ) (input : MemberWriteInput A)
      (m a a₀ : Member A)
      → own t m.id a₀ ≡ true
      → a ≡ patch (own t m.id) (edited now user input) a₀
      → (a₀.id ≡ m.id) × (a.tenant_id ≡ t) × (a.code ≡ input.code)
  hit_row ms t now id user input m a a₀ hit e =
      let e' : a ≡ edited now user input a₀ = ground arith in
      let (i, tenant, code) = edited_keeps now user input a₀ in
      (
        ground (arith, ==_iff a₀.id m.id),
        ap (λ q. q.tenant_id) e' ∙ tenant ∙ ground (arith, ==_iff a₀.tenant_id t),
        ap (λ q. q.code) e' ∙ code,
      )

  pub update-UniqueCodes :
      (ms : members.State) (t now id : ℕ) (user : Option ℕ) (input : MemberWriteInput A)
      (m : Member A)
      → members.find_first ms (own t id) ≡ some m
      → (text_eq input.code m.code ≡ true) ⊎ (members.find_first ms (coded t input.code) ≡ none)
      → UniqueCodes ms
      → UniqueCodes (members.update_many (own t m.id) (edited now user input) ms)
  unfolding UniqueCodes
  update-UniqueCodes ms t now id user input m found code unique a b ha hb same_tenant same_code =
      let f = edited now user input in
      let (a₀, ha₀, ea, ia) =
        before_update ms (own t m.id) f a (λ q. (edited_keeps now user input q).0) ha in
      let (b₀, hb₀, eb, ib) =
        before_update ms (own t m.id) f b (λ q. (edited_keeps now user input q).0) hb in
      elim (Bool-cases (own t m.id a₀)) [
        | inl a_hit ↦ elim (Bool-cases (own t m.id b₀)) [
          | inl b_hit ↦ ground (arith, ==_iff a₀.id m.id, ==_iff b₀.id m.id)
          | inr b_miss ↦
              let (at_m, tenant, coded_so) = hit_row ms t now id user input m a a₀ a_hit ea in
              let eb' : b ≡ b₀ = ground arith in
              let same =
                holder ms t id input.code m b₀ found code unique hb₀
                  (ap (λ q. q.tenant_id) (sym eb') ∙ sym same_tenant ∙ tenant)
                  (ap (λ q. q.code) (sym eb') ∙ sym same_code ∙ coded_so) in
              sym ia ∙ at_m ∙ sym same ∙ ib
        ]
        | inr a_miss ↦ elim (Bool-cases (own t m.id b₀)) [
          | inl b_hit ↦
              let (at_m, tenant, coded_so) = hit_row ms t now id user input m b b₀ b_hit eb in
              let ea' : a ≡ a₀ = ground arith in
              let same =
                holder ms t id input.code m a₀ found code unique ha₀
                  (ap (λ q. q.tenant_id) (sym ea') ∙ same_tenant ∙ tenant)
                  (ap (λ q. q.code) (sym ea') ∙ same_code ∙ coded_so) in
              sym ia ∙ same ∙ sym at_m ∙ ib
          | inr b_miss ↦
              let ea' : a ≡ a₀ = ground arith in
              let eb' : b ≡ b₀ = ground arith in
              sym ia ∙ unique a₀ b₀ ha₀ hb₀ (ground arith) (ground arith) ∙ ib
        ]
      ]

  -- One call of the service by some request; the database gives a new row an id of its own.
  pub data Step (ms : members.State) (ms' : members.State) : Type 0 where
    created :
        (ctx : Option RequestStore) (id now : ℕ) (input : MemberWriteInput A)
        → members.find_unique ms id ≡ none
        → ms' ≡ (create members id now input (ctx, ms)).1.1
        → Step ms ms'
    updated :
        (ctx : Option RequestStore) (now id : ℕ) (input : MemberWriteInput A)
        → ms' ≡ (update members now id input (ctx, ms)).1.1
        → Step ms ms'
    archived :
        (ctx : Option RequestStore) (now id : ℕ)
        → ms' ≡ (archive members now id (ctx, ms)).1.1
        → Step ms ms'
    restored :
        (ctx : Option RequestStore) (id : ℕ)
        → ms' ≡ (restore members id (ctx, ms)).1.1
        → Step ms ms'

  pub data Reach (ms : members.State) : members.State → Type 0 where
    here : Reach ms ms
    next : {u v : members.State} → Reach ms u → Step u v → Reach ms v

  pub Step-UniqueCodes : (ms ms' : members.State) → Step ms ms' → UniqueCodes ms → UniqueCodes ms'
  Step-UniqueCodes ms ms' (Step.created ctx id now input fresh e) unique =
      elim (create_effect members id now input ctx ms) [
        | inl same ↦ rw (e, same) unique
        | inr done ↦
            let (i, tenant, code) = new_member_keeps id done.t now (user_id_of ctx) input in
            let free : members.find_first ms (
                  coded (new_member id done.t now (user_id_of ctx) input).tenant_id
                    (new_member id done.t now (user_id_of ctx) input).code)
                ≡ none =
              rw (tenant, code) done.free in
            rw (e, done.written)
              (create-UniqueCodes ms (new_member id done.t now (user_id_of ctx) input) free unique)
      ]
  Step-UniqueCodes ms ms' (Step.updated ctx now id input e) unique =
      elim (update_effect members now id input ctx ms) [
        | inl same ↦ rw (e, same) unique
        | inr done ↦
            rw (e, done.written)
              (update-UniqueCodes ms done.t now id (user_id_of ctx) input done.m done.found
                done.code unique)
      ]
  Step-UniqueCodes ms ms' (Step.archived ctx now id e) unique =
      elim (archive_effect members now id ctx ms) [
        | inl same ↦ rw (e, same) unique
        | inr done ↦
            rw (e, done.written)
              (update_many-UniqueCodes ms (own done.t done.m.id) (to_archive now) (λ q. refl)
                (λ q. refl) (λ q. refl) unique)
      ]
  Step-UniqueCodes ms ms' (Step.restored ctx id e) unique =
      elim (restore_effect members id ctx ms) [
        | inl same ↦ rw (e, same) unique
        | inr done ↦
            rw (e, done.written)
              (update_many-UniqueCodes ms (own done.t done.m.id) to_restore (λ q. refl) (λ q. refl)
                (λ q. refl) unique)
      ]

  -- Codes stay unique in every organization through any sequence of creations, edits, archivings
  -- and restorations, by whatever requests, refused ones included.
  pub Reach-UniqueCodes : (ms ms' : members.State) → Reach ms ms' → UniqueCodes ms → UniqueCodes ms'
  Reach-UniqueCodes ms ms' here unique = unique
  Reach-UniqueCodes ms ms' (next {u} {v} run last) unique =
      Step-UniqueCodes u v last (Reach-UniqueCodes ms u run unique)
