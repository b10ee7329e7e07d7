-- ===== src/Store/Keyed.antt =====
-- A table that meets the laws: a bound on the keys, and the row under each key below it.
use face_cam.Prelude.{
  ℕ, zero, suc, ◌<◌, ◌≡◌, refl, inl, inr, Bool, true, false, Option, none, some, List, [], ◌∷◌, All,
  ltb, ◌==◌, ==_iff, if◌then◌else◌, arith, Option-cases, Bool-cases,
}
use Prim.Native.Nat.{max}
use mathlib.Core.List.{Memᴰ}
use mathlib.Core.Option
use face_cam.Store.{Table, unless, patch}

module _ {R : Type 0} (key : R → ℕ) where
  pub record Rows : Type 0 where
    pub bound : ℕ
    pub row : ℕ → Option R

-- A row stands under its own key, or is not there.
module _ {R : Type 0} (key : R → ℕ) where
  unfoldable pub guarded : ℕ → Option R → Option R
  guarded k none = none
  guarded k (some r) = if key r == k then some r else none

  unfoldable pub at : Rows key → ℕ → Option R
  unfolding guarded
  at s k = if ltb k s.bound then guarded k (s.row k) else none

  unfoldable pub first : (ℕ → Option R) → (R → Bool) → ℕ → Option R
  first f p zero = none
  first f p (suc n) =
      let rest = first f p n in elim (f n) [ none ↦ rest | some r ↦ if p r then some r else rest ]

  unfoldable pub many : (ℕ → Option R) → (R → Bool) → ℕ → List R
  many f p zero = []
  many f p (suc n) =
      let rest = many f p n in elim (f n) [ none ↦ rest | some r ↦ if p r then r ∷ rest else rest ]

  pub at-key : (s : Rows key) (k : ℕ) (r : R) → at s k ≡ some r → key r ≡ k
  unfolding at guarded
  at-key s k r e = elim (Option-cases (s.row k)) [
    | inl gone ↦ absurd (ground arith)
    | inr (q, found) ↦ ground arith
  ]

  pub at-bound : (s : Rows key) (k : ℕ) (r : R) → at s k ≡ some r → k < s.bound
  unfolding at
  at-bound s k r e = ground arith

  pub first_sound :
      (s : Rows key) (p : R → Bool) (n : ℕ) (r : R)
      → first (at s) p n ≡ some r
      → (at s (key r) ≡ some r) × (p r ≡ true)
  unfolding first
  first_sound s p zero r e = cc
  first_sound s p (suc n) r e = elim (Option-cases (at s n)) [
    | inl gone ↦ first_sound s p n r (ground arith)
    | inr (q, found) ↦ elim (Bool-cases (p q)) [
      | inl passed ↦ ground (arith, at-key s n q found)
      | inr failed ↦ first_sound s p n r (ground arith)
    ]
  ]

  pub first-none :
      (s : Rows key) (p : R → Bool) (n k : ℕ) (r : R)
      → first (at s) p n ≡ none
      → k < n
      → at s k ≡ some r
      → p r ≡ false
  unfolding first
  first-none s p zero k r e h found = elim h [ ]
  first-none s p (suc n) k r e h found = elim (Bool-cases (k == n)) [
    | inl here ↦ elim (Bool-cases (p r)) [
      | inl passed ↦ absurd (ground (arith, ==_iff k n))
      | inr failed ↦ failed
    ]
    | inr before ↦ first-none s p n k r (ground arith) (ground arith) found
  ]

  pub many_sound :
      (s : Rows key) (p : R → Bool) (n : ℕ)
      → All (λ r. (at s (key r) ≡ some r) × (p r ≡ true)) (many (at s) p n)
  unfolding many
  many_sound s p zero = tt
  many_sound s p (suc n) = elim (Option-cases (at s n)) [
    | inl gone ↦ rw (gone, many) (many_sound s p n)
    | inr (q, found) ↦ elim (Bool-cases (p q)) [
      | inl passed ↦
          rw (found, passed, many) ((rw (at-key s n q found) found, passed), many_sound s p n)
      | inr failed ↦ rw (found, failed, many) (many_sound s p n)
    ]
  ]

  pub many_complete :
      (s : Rows key) (p : R → Bool) (n k : ℕ) (r : R)
      → k < n
      → at s k ≡ some r
      → p r ≡ true
      → Memᴰ r (many (at s) p n)
  unfolding many
  many_complete s p zero k r h found passed = elim h [ ]
  many_complete s p (suc n) k r h found passed = elim (Bool-cases (k == n)) [
    | inl here ↦
        let top : at s n ≡ some r = ground (arith, ==_iff k n) in
        rw (top, passed, many) (Memᴰ.head refl)
    | inr before ↦
        let later = many_complete s p n k r (ground arith) found passed in
        elim (Option-cases (at s n)) [
          | inl gone ↦ rw (gone, many) later
          | inr (q, there) ↦ elim (Bool-cases (p q)) [
            | inl kept ↦ rw (there, kept, many) (Memᴰ.tail later)
            | inr dropped ↦ rw (there, dropped, many) later
          ]
        ]
  ]

  unfoldable pub added : R → Rows key → Rows key
  added r s = record {
    bound = max s.bound (suc (key r));
    row = λ k. if key r == k then some r else at s k;
  }

  unfoldable pub updated : (R → Bool) → (R → R) → Rows key → Rows key
  updated p f s = record s { row = λ k. Option.map (patch p f) (s.row k) }

  unfoldable pub deleted : (R → Bool) → Rows key → Rows key
  deleted p s = record s { row = λ k. unless p (s.row k) }

  pub at-added :
      (s : Rows key) (r : R) (k : ℕ) → at (added r s) k ≡ (if key r == k then some r else at s k)
  unfolding added at
  at-added s r k = elim (Option-cases (s.row k)) [
    | inl gone ↦ ground arith
    | inr (q, found) ↦ ground arith
  ]

  pub at-updated :
      (s : Rows key) (p : R → Bool) (f : R → R) (k : ℕ)
      → ((r : R) → key (f r) ≡ key r)
      → at (updated p f s) k ≡ Option.map (patch p f) (at s k)
  unfolding updated at
  at-updated s p f k same = elim (Option-cases (s.row k)) [
    | inl gone ↦ ground arith
    | inr (q, found) ↦ ground (arith, same q)
  ]

  pub at-deleted : (s : Rows key) (p : R → Bool) (k : ℕ) → at (deleted p s) k ≡ unless p (at s k)
  unfolding deleted at
  at-deleted s p k = elim (Option-cases (s.row k)) [
    | inl gone ↦ ground arith
    | inr (q, found) ↦ ground arith
  ]

  abbrev pub keyed : Table R key
  keyed = record {
    State = Rows key;
    find_unique = at;
    find_first = λ s p. first (at s) p s.bound;
    find_many = λ s p. many (at s) p s.bound;
    create = added;
    update_many = updated;
    delete_many = deleted;
    find_unique-key = at-key;
    find_first_sound = λ s p r. first_sound s p s.bound r;
    find_first_none = λ s p k r e found. first-none s p s.bound k r e (at-bound s k r found) found;
    find_many_sound = λ s p. many_sound s p s.bound;
    find_many_complete =
        λ s p k r found. many_complete s p s.bound k r (at-bound s k r found) found;
    find_unique-create = at-added;
    find_unique-update_many = at-updated;
    find_unique-delete_many = at-deleted;
  }

  -- The table that holds the rows of a list.
  abbrev pub holding : List R → Rows key
  holding [] = record { bound = 0; row = λ k. none }
  holding (r ∷ rs) = added r (holding rs)

-- For tests: the operations above compute where `running` does.
unfoldable pub running : Unit {0}
unfolding at first many added updated deleted
running = tt
