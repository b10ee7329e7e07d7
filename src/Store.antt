-- ===== src/Store.antt =====
-- A table of the database as Prisma shows it to the services. Prisma and Postgres are not part of
-- the repository: their operations are fields, with the documented behaviour that the services
-- rely on as laws, all about the row that is found under a primary key.
pub mod Keyed
use face_cam.Prelude.{
  ℕ, ◌≡◌, Bool, true, false, Option, none, some, List, All, not, ◌==◌, if◌then◌else◌,
}
use mathlib.Core.List.{Memᴰ}
use mathlib.Core.Option

-- What is left of a row that is deleted if it passes the test.
abbrev pub unless : {R : Type 0} → (R → Bool) → Option R → Option R
unless p none = none
unless p (some r) = if p r then none else some r

-- `data` is written into the rows that pass the test.
abbrev pub patch : {R : Type 0} → (R → Bool) → (R → R) → R → R
patch p f r = if p r then f r else r

pub record Table (R : Type 0) (key : R → ℕ) : Type 1 where
  pub State : Type 0
  -- `findUnique({ where: { id } })`
  pub find_unique : State → ℕ → Option R
  -- `findFirst({ where })`, and `findMany({ where })`
  pub find_first : State → (R → Bool) → Option R
  pub find_many : State → (R → Bool) → List R
  -- `create({ data })`, `updateMany({ where, data })` and `deleteMany({ where })`
  pub create : R → State → State
  pub update_many : (R → Bool) → (R → R) → State → State
  pub delete_many : (R → Bool) → State → State
  pub find_unique-key : (s : State) (k : ℕ) (r : R) → find_unique s k ≡ some r → key r ≡ k
  pub find_first_sound :
      (s : State) (p : R → Bool) (r : R)
      → find_first s p ≡ some r
      → (find_unique s (key r) ≡ some r) × (p r ≡ true)
  pub find_first_none :
      (s : State) (p : R → Bool) (k : ℕ) (r : R)
      → find_first s p ≡ none
      → find_unique s k ≡ some r
      → p r ≡ false
  pub find_many_sound :
      (s : State) (p : R → Bool)
      → All (λ r. (find_unique s (key r) ≡ some r) × (p r ≡ true)) (find_many s p)
  pub find_many_complete :
      (s : State) (p : R → Bool) (k : ℕ) (r : R)
      → find_unique s k ≡ some r
      → p r ≡ true
      → Memᴰ r (find_many s p)
  pub find_unique-create :
      (s : State) (r : R) (k : ℕ)
      → find_unique (create r s) k ≡ (if key r == k then some r else find_unique s k)
  pub find_unique-update_many :
      (s : State) (p : R → Bool) (f : R → R) (k : ℕ)
      → ((r : R) → key (f r) ≡ key r)
      → find_unique (update_many p f s) k ≡ Option.map (patch p f) (find_unique s k)
  pub find_unique-delete_many :
      (s : State) (p : R → Bool) (k : ℕ)
      → find_unique (delete_many p s) k ≡ unless p (find_unique s k)
