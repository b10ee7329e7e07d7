-- ===== src/Members/Entries.antt =====
-- The roll of an organization: who stands under a code, and what the writes of a table do to it.
use face_cam.Prelude.{
  ℕ, ◌≡◌, ◌⊎◌, inl, inr, refl, sym, ap, ◌∙◌, Bool, true, false, ◌&&◌, Option, none, some, Text,
  text_eq, text_eq_iff, ◌==◌, ==_iff, ==_refl, if◌then◌else◌, arith, Option-cases, Bool-cases,
}
use mathlib.Core.Option
use face_cam.Rows.{Member}
use face_cam.Store.{Table, patch}
use face_cam.Members.{own, coded}
use face_cam.Members.Codes.{UniqueCodes, before_update, create-UniqueCodes, rewritten_row}

-- The abstract view, and the changes that it allows.
abbrev pub Roll : Type 0 → Type 0
Roll A = ℕ → Text → Option (Member A)

abbrev pub at_code : ℕ → Text → ℕ → Text → Bool
at_code t code u c = u == t && text_eq code c

module _ {A : Type 0} where
  -- One entry is set; an entry moves to another code, which is free or its own.
  abbrev pub enter : ℕ → Text → Member A → Roll A → Roll A
  enter t code row roll u c = if at_code t code u c then some row else roll u c

  abbrev pub move : ℕ → Text → Text → Member A → Roll A → Roll A
  move t old new row roll u c =
      if at_code t new u c then some row else if at_code t old u c then none else roll u c

  pub data Change (before : Roll A) (after : Roll A) : Type 0 where
    stay : ((u : ℕ) (c : Text) → after u c ≡ before u c) → Change before after
    entered :
        (t : ℕ) (row : Member A)
        → row.tenant_id ≡ t
        → before t row.code ≡ none
        → ((u : ℕ) (c : Text) → after u c ≡ enter t row.code row before u c)
        → Change before after
    moved :
        (t : ℕ) (old new : Member A)
        → before t old.code ≡ some old
        → (new.id ≡ old.id) × (new.tenant_id ≡ t)
        → (new.code ≡ old.code) ⊎ (before t new.code ≡ none)
        → ((u : ℕ) (c : Text) → after u c ≡ move t old.code new.code new before u c)
        → Change before after

module _ {A : Type 0} (members : Table (Member A) (λ m. m.id)) where
  abbrev pub roll : members.State → Roll A
  roll ms t code = members.find_first ms (coded t code)

  pub roll_right :
      (ms : members.State) (t : ℕ) (code : Text) (m : Member A)
      → UniqueCodes members ms
      → members.find_unique ms m.id ≡ some m
      → coded t code m ≡ true
      → roll ms t code ≡ some m
  unfolding UniqueCodes
  roll_right ms t code m unique there fits = elim (Option-cases (roll ms t code)) [
    | inl nobody ↦ absurd (cc (members.find_first_none ms (coded t code) m.id m nobody there))
    | inr (q, found) ↦
        let (stored, passed) = members.find_first_sound ms (coded t code) q found in
        let same =
          unique q m stored there (ground (arith, ==_iff q.tenant_id t, ==_iff m.tenant_id t))
            (ground (arith, text_eq_iff q.code code, text_eq_iff m.code code)) in
        let moved_on : members.find_unique ms m.id ≡ some q =
          sym (ap (λ k. members.find_unique ms k) same) ∙ stored in
        ground arith
  ]

  -- Tables that store the same members under a code have the same entry there.
  pub roll_agree :
      (ms ms' : members.State) (t : ℕ) (code : Text)
      → UniqueCodes members ms
      → ((q : Member A)
          → coded t code q ≡ true
          → members.find_unique ms q.id ≡ some q
          → members.find_unique ms' q.id ≡ some q)
      → ((q : Member A)
          → coded t code q ≡ true
          → members.find_unique ms' q.id ≡ some q
          → members.find_unique ms q.id ≡ some q)
      → roll ms' t code ≡ roll ms t code
  roll_agree ms ms' t code unique forth back = elim (Option-cases (roll ms' t code)) [
    | inr (q, found) ↦
        let (stored, passed) = members.find_first_sound ms' (coded t code) q found in
        found ∙ sym (roll_right ms t code q unique (back q passed stored) passed)
    | inl nobody ↦ elim (Option-cases (roll ms t code)) [
      | inl nobody_before ↦ nobody ∙ sym nobody_before
      | inr (q, found) ↦
          let (stored, passed) = members.find_first_sound ms (coded t code) q found in
          absurd
            (cc (members.find_first_none ms' (coded t code) q.id q nobody (forth q passed stored)))
    ]
  ]

  pub coded_at :
      (t u : ℕ) (code c : Text) (m : Member A)
      → m.tenant_id ≡ t
      → m.code ≡ code
      → coded u c m ≡ at_code t code u c
  coded_at t u code c m tenant same =
      ground (arith, ==_iff m.tenant_id u, ==_iff u t, text_eq_iff m.code c, text_eq_iff code c)

  pub create_rolls :
      (ms : members.State) (row : Member A) (u : ℕ) (c : Text)
      → UniqueCodes members ms
      → members.find_unique ms row.id ≡ none
      → roll ms row.tenant_id row.code ≡ none
      → roll (members.create row ms) u c ≡ enter row.tenant_id row.code row (roll ms) u c
  create_rolls ms row u c unique fresh free =
      elim (Bool-cases (at_code row.tenant_id row.code u c)) [
        | inl hit ↦
            let stored : members.find_unique (members.create row ms) row.id ≡ some row =
              ground (arith, members.find_unique-create ms row row.id, ==_refl row.id) in
            roll_right (members.create row ms) u c row
              (create-UniqueCodes members ms row free unique) stored
              (coded_at row.tenant_id u row.code c row refl refl ∙ hit)
            ∙ rw hit refl
        | inr missed ↦
            roll_agree ms (members.create row ms) u c unique (λ q fits there. forth q there)
              (λ q fits there. back q missed fits there)
            ∙ rw missed refl
      ]
    where
      forth :
          (q : Member A)
          → members.find_unique ms q.id ≡ some q
          → members.find_unique (members.create row ms) q.id ≡ some q
      forth q there = elim (Bool-cases (row.id == q.id)) [
        | inl same ↦
            let taken : none ≡ some q =
              sym fresh
              ∙ ap (λ k. members.find_unique ms k) ((==_iff row.id q.id).0 same)
              ∙ there in
            cc
        | inr other ↦ ground (arith, members.find_unique-create ms row q.id)
      ]

      back :
          (q : Member A)
          → at_code row.tenant_id row.code u c ≡ false
          → coded u c q ≡ true
          → members.find_unique (members.create row ms) q.id ≡ some q
          → members.find_unique ms q.id ≡ some q
      back q missed fits there = elim (Bool-cases (row.id == q.id)) [
        | inl same ↦
            let this : row ≡ q = ground (arith, members.find_unique-create ms row q.id) in
            let as_row : coded u c row ≡ true = rw this fits in
            let no : coded u c row ≡ false =
              coded_at row.tenant_id u row.code c row refl refl ∙ missed in
            cc
        | inr other ↦ ground (arith, members.find_unique-create ms row q.id)
      ]

  pub same_code :
      (ms : members.State) (t : ℕ) (m q : Member A) (u : ℕ) (c : Text)
      → UniqueCodes members ms
      → m.tenant_id ≡ t
      → members.find_unique ms m.id ≡ some m
      → members.find_unique ms q.id ≡ some q
      → coded u c q ≡ true
      → at_code t m.code u c ≡ true
      → own t m.id q ≡ false
      → ⊥
  unfolding UniqueCodes
  same_code ms t m q u c unique in_t stored kept fits left other =
      let tenant : q.tenant_id ≡ m.tenant_id = ground (arith, ==_iff q.tenant_id u, ==_iff u t) in
      let code : q.code ≡ m.code = ground (arith, text_eq_iff q.code c, text_eq_iff m.code c) in
      let same = unique q m kept stored tenant code in
      ground (arith, ==_iff q.id m.id, ==_iff q.tenant_id t)

  -- Who stands under another code after a rewriting stood there before it, and is another member.
  pub untouched :
      (ms : members.State) (t id : ℕ) (m q : Member A) (f : Member A → Member A) (u : ℕ) (c : Text)
      → members.find_first ms (own t id) ≡ some m
      → ((p : Member A) → (f p).id ≡ p.id)
      → (f m).tenant_id ≡ t
      → at_code t (f m).code u c ≡ false
      → coded u c q ≡ true
      → members.find_unique (members.update_many (own t m.id) f ms) q.id ≡ some q
      → (members.find_unique ms q.id ≡ some q) × (own t m.id q ≡ false)
  untouched ms t id m q f u c found keeps tenant missed fits there =
      let (b, stored, patched, same_id) = before_update members ms (own t m.id) f q keeps there in
      elim (Bool-cases (own t m.id b)) [
        | inl hit ↦
            let as_m : b ≡ m = rewritten_row members ms t id m b found stored hit in
            let is_new : q ≡ f m = patched ∙ rw hit refl ∙ ap f as_m in
            let no : coded u c (f m) ≡ false =
              coded_at t u (f m).code c (f m) tenant refl ∙ missed in
            let fits' : coded u c (f m) ≡ true = sym (ap (coded u c) is_new) ∙ fits in absurd (cc)
        | inr kept ↦
            let is_old : q ≡ b = patched ∙ rw kept refl in
            (
              ap (λ k. members.find_unique ms k) (sym same_id) ∙ stored ∙ ap some (sym is_old),
              ap (own t m.id) is_old ∙ kept,
            )
      ]

  pub move_rolls :
      (ms : members.State) (t id : ℕ) (m : Member A) (f : Member A → Member A) (u : ℕ) (c : Text)
      → UniqueCodes members ms
      → UniqueCodes members (members.update_many (own t m.id) f ms)
      → members.find_first ms (own t id) ≡ some m
      → ((q : Member A) → (f q).id ≡ q.id)
      → (f m).tenant_id ≡ t
      → roll (members.update_many (own t m.id) f ms) u c
        ≡ move t m.code (f m).code (f m) (roll ms) u c
  move_rolls ms t id m f u c unique unique' found keeps tenant =
      let ms' = members.update_many (own t m.id) f ms in
      let (stored, passed) = members.find_first_sound ms (own t id) m found in
      let in_t : m.tenant_id ≡ t = ground (arith, ==_iff m.tenant_id t) in
      let own_m : own t m.id m ≡ true = ground (arith, ==_refl m.id, ==_iff m.tenant_id t) in
      elim (Bool-cases (at_code t (f m).code u c)) [
        | inl hit ↦
            let stored' : members.find_unique ms' (f m).id ≡ some (f m) =
              ap (λ k. members.find_unique ms' k) (keeps m)
              ∙ members.find_unique-update_many ms (own t m.id) f m.id keeps
              ∙ ap (Option.map (patch (own t m.id) f)) stored
              ∙ rw own_m refl in
            roll_right ms' u c (f m) unique' stored'
              (coded_at t u (f m).code c (f m) tenant refl ∙ hit)
            ∙ rw hit refl
        | inr missed ↦ elim (Bool-cases (at_code t m.code u c)) [
          | inl left ↦ elim (Option-cases (roll ms' u c)) [
            | inl nobody ↦ nobody ∙ rw (missed, left) refl
            | inr (q, there) ↦
                let (stored_q, fits) = members.find_first_sound ms' (coded u c) q there in
                let (kept, other) =
                  untouched ms t id m q f u c found keeps tenant missed fits stored_q in
                absurd (same_code ms t m q u c unique in_t stored kept fits left other)
          ]
          | inr elsewhere ↦
              roll_agree ms ms' u c unique
                (λ q fits there. forth ms t id m q u c found in_t elsewhere fits there)
                (λ q fits there.
                  (untouched ms t id m q f u c found keeps tenant missed fits there).0)
              ∙ rw (missed, elsewhere) refl
        ]
      ]
    where
      forth :
          (ms : members.State) (t id : ℕ) (m q : Member A) (u : ℕ) (c : Text)
          → members.find_first ms (own t id) ≡ some m
          → m.tenant_id ≡ t
          → at_code t m.code u c ≡ false
          → coded u c q ≡ true
          → members.find_unique ms q.id ≡ some q
          → members.find_unique (members.update_many (own t m.id) f ms) q.id ≡ some q
      forth ms t id m q u c found in_t elsewhere fits there = elim (Bool-cases (own t m.id q)) [
        | inl hit ↦
            let as_m : q ≡ m = rewritten_row members ms t id m q found there hit in
            let no : coded u c m ≡ false = coded_at t u m.code c m in_t refl ∙ elsewhere in
            let fits' : coded u c m ≡ true = sym (ap (coded u c) as_m) ∙ fits in absurd (cc)
        | inr kept ↦
            members.find_unique-update_many ms (own t m.id) f q.id keeps
            ∙ ap (Option.map (patch (own t m.id) f)) there
            ∙ rw kept refl
      ]
