-- ===== src/Storage.antt =====
-- The names of stored objects and their removal: apps/api/src/storage/storage.interface.ts and
-- apps/api/src/storage/s3.storage.ts. A bucket is the list of its keys; the listing of a page is the
-- SDK's, with what the S3 documentation says of it as laws.
pub mod Local
pub mod Counting
pub mod Erasure
pub mod Links
mod Tests
use face_cam.Prelude.{
  ℕ, zero, suc, ◌+◌, ◌≡◌, ◌≢◌, ◌⊎◌, Bool, true, false, ◌&&◌, ◌||◌, not, Option, none, some, List,
  [], ◌∷◌, ◌++◌, length, Text, codes, text_eq, starts_with, is_empty, includes, any_of, ltb, ◌==◌,
  if◌then◌else◌, decimal, or_default,
}
use mathlib.Core.List.{Memᴰ}
use face_cam.Prelude.Errors.{Result, ok, err, Error, storage_error}

pub data StorageKind : Type 0 where
  enrolment snapshot branding : StorageKind

abbrev pub kind_text : StorageKind → Text
kind_text enrolment = codes "enrolment"
kind_text snapshot = codes "snapshot"
kind_text branding = codes "branding"

-- `year` and `month` are those of `at` in UTC, the month counted from 0.
pub record ObjectName : Type 0 where
  pub tenant_id : Text
  pub kind : StorageKind
  pub id : Text
  pub extension : Option Text
  pub year : ℕ
  pub month : ℕ

-- `.padStart(2, '0')`
abbrev pub pad_two : Text → Text
pad_two s = if ltb (length s) 2 then (if is_empty s then codes "00" else b'0' ∷ s) else s

-- `.replace(/^\./, '')`
abbrev pub without_dot : Text → Text
without_dot [] = []
without_dot (c ∷ s) = if c == b'.' then s else c ∷ s

-- What stands in a key behind the tenant.
unfoldable pub object_path : ObjectName → Text
unfolding decimal
object_path n =
    kind_text n.kind
    ++ codes "/"
    ++ decimal n.year
    ++ codes "/"
    ++ pad_two (decimal (n.month + 1))
    ++ codes "/"
    ++ n.id
    ++ codes "."
    ++ without_dot (or_default n.extension (codes "jpg"))

abbrev pub member_prefix : Text → Text
member_prefix tenant_id = codes "tenants/" ++ (tenant_id ++ codes "/")

abbrev pub build_storage_key : ObjectName → Text
build_storage_key n = codes "tenants/" ++ (n.tenant_id ++ codes "/" ++ object_path n)

-- A page of `ListObjectsV2`: its keys, and the token of the next page when it is truncated.
pub record Page (T : Type 0) : Type 0 where
  pub keys : List Text
  pub next : Option T

-- The bucket. A key is after a token when the pages from that token on may have it; each key is
-- after no token. Every call may also throw.
pub record Bucket (T : Type 0) : Type 0 where
  pub list_page : Text → Option T → List Text → Result (Page T)
  pub delete_fails : List Text → List Text → Bool
  -- Whether `DeleteObjects`, asked to delete these keys, leaves a key and names it in its `Errors`.
  pub refused : List Text → List Text → Text → Bool
  pub after : Option T → Text → Bool
  pub after_none : (key : Text) → after none key ≡ true
  -- A page has stored keys with the prefix, behind its token.
  pub listed :
      (prefix : Text) (token : Option T) (stored : List Text) (page : Page T) (key : Text)
      → list_page prefix token stored ≡ ok page
      → includes page.keys key ≡ true
      → (includes stored key ≡ true) × (starts_with prefix key ≡ true) × (after token key ≡ true)
  -- What a page leaves out is behind the next token; the last page leaves nothing out.
  pub complete :
      (prefix : Text) (token : Option T) (stored : List Text) (page : Page T) (key : Text)
      → list_page prefix token stored ≡ ok page
      → includes stored key ≡ true
      → starts_with prefix key ≡ true
      → after token key ≡ true
      → (includes page.keys key ≡ true)
        ⊎ ((next : T) × (page.next ≡ some next) × (after (some next) key ≡ true))
  -- A truncated page has a key, and its keys are not behind the next token; the pages go forward.
  pub truncated :
      (prefix : Text) (token : Option T) (stored : List Text) (page : Page T) (next : T)
      → list_page prefix token stored ≡ ok page
      → page.next ≡ some next
      → (is_empty page.keys ≡ false)
        × ((key : Text) → includes page.keys key ≡ true → after (some next) key ≡ false)
        × ((key : Text) → after (some next) key ≡ true → after token key ≡ true)

-- The stored keys without those to delete that are not refused.
unfoldable pub without_keys : (Text → Bool) → List Text → List Text → List Text
without_keys refused keys [] = []
without_keys refused keys (key ∷ stored) =
    let rest = without_keys refused keys stored in
    if includes keys key && not (refused key) then rest else key ∷ rest

-- What a `DeleteObjects` that does not throw leaves.
abbrev pub delete_objects : {T : Type 0} → Bucket T → List Text → List Text → List Text
delete_objects bucket keys stored = without_keys (bucket.refused keys stored) keys stored

-- `.filter((key) => Boolean(key))`
unfoldable pub named : List Text → List Text
named [] = []
named (key ∷ keys) = let rest = named keys in if is_empty key then rest else key ∷ rest

module _ {T : Type 0} (bucket : Bucket T) (prefix : Text) where
  -- The loop of `deletePrefix`, with the number that it counts as removed: the `Errors` of a call of
  -- `DeleteObjects` are not read. Out of fuel it has no result.
  unfoldable pub delete_pages : ℕ → Option T → ℕ → List Text → Option (Result ℕ × List Text)
  unfolding without_keys named
  delete_pages zero token removed stored = none
  delete_pages (suc fuel) token removed stored = elim (bucket.list_page prefix token stored) [
    | err e ↦ some (err e, stored)
    | ok page ↦
        let keys = named page.keys in
        if not (is_empty keys) && bucket.delete_fails keys stored
        then some (err storage_error, stored)
        else elim page.next [
          | none ↦ some (ok (removed + length keys), delete_objects bucket keys stored)
          | some next ↦
              delete_pages fuel (some next) (removed + length keys)
                (delete_objects bucket keys stored)
        ]
  ]

  -- A pass for each key and one more is enough.
  unfoldable pub delete_prefix : List Text → Option (Result ℕ × List Text)
  unfolding delete_pages
  delete_prefix stored = delete_pages (suc (length stored)) none 0 stored
