-- ===== src/Storage/Tests.antt =====
-- A bucket of two pages, and runs of the removal and of the links.
use face_cam.Prelude.{
  ℕ, ◌+◌, ◌*◌, ◌≤◌, ◌<◌, ◌≡◌, ◌⊎◌, inl, inr, refl, sym, ap, ◌∙◌, Bool, true, false, ◌&&◌, not,
  Option, none, some, List, [], ◌∷◌, ◌++◌, length, Text, codes, text_eq, text_eq_iff, starts_with,
  is_empty, includes, leb, if◌then◌else◌, arith, Bool-cases,
}
use face_cam.Prelude.Errors.{Result, ok, err, Error, invalid_signature}
use face_cam.Storage.{
  Page, Bucket, ObjectName, enrolment, snapshot, member_prefix, build_storage_key, delete_prefix,
}
use face_cam.Storage.Local.{Disk, signed_url, serve, serve_link, sign, get, resolve_key}
use face_cam.Storage.Erasure.{IsRefused, delete_prefix-member_prefix}
use face_cam.Storage.Links.{file_answer, serve-signed_url}

keep : (Text → Bool) → List Text → List Text
keep p [] = []
keep p (key ∷ stored) = let rest = keep p stored in if p key then key ∷ rest else rest

includes-keep :
    (p : Text → Bool) (stored : List Text) (key : Text)
    → includes (keep p stored) key ≡ (includes stored key && p key)
unfolding keep
includes-keep p [] key = refl
includes-keep p (k ∷ stored) key = elim (Bool-cases (text_eq k key)) [
  | inl same ↦
      let at : p k ≡ p key = ap p ((text_eq_iff k key).0 same) in
      ground (arith, includes-keep p stored key)
  | inr other ↦ ground (arith, includes-keep p stored key)
]

-- Short keys come on the first page, long ones on the second, if there are short ones.
abbrev is_long : Text → Bool
is_long key = leb 45 (length key)

abbrev short_keys : Text → List Text → List Text
short_keys prefix stored = keep (λ key. starts_with prefix key && not (is_long key)) stored

abbrev long_keys : Text → List Text → List Text
long_keys prefix stored = keep (λ key. starts_with prefix key && is_long key) stored

abbrev list_page : Text → Option (Unit {0}) → List Text → Result (Page (Unit {0}))
list_page prefix (some token) stored = ok (record { keys = long_keys prefix stored; next = none })
list_page prefix none stored =
    if is_empty (short_keys prefix stored)
    then ok (record { keys = long_keys prefix stored; next = none })
    else ok (record { keys = short_keys prefix stored; next = some tt })

abbrev after : Option (Unit {0}) → Text → Bool
after none key = true
after (some token) key = is_long key

includes-empty : (keys : List Text) (key : Text) → is_empty keys ≡ true → includes keys key ≡ false
includes-empty [] key empty = refl
includes-empty (k ∷ keys) key empty = absurd (cc empty)

-- The two pages that there are.
data Paged (prefix : Text) (token : Option (Unit {0})) (stored : List Text) (page : Page (Unit {0}))
    : Type 0 where
  last_long :
      page.keys ≡ long_keys prefix stored
      → page.next ≡ none
      → (token ≡ some tt) ⊎ (is_empty (short_keys prefix stored) ≡ true)
      → Paged prefix token stored page
  first_short :
      page.keys ≡ short_keys prefix stored
      → page.next ≡ some tt
      → token ≡ none
      → is_empty (short_keys prefix stored) ≡ false
      → Paged prefix token stored page

keys_of : Result (Page (Unit {0})) → List Text
keys_of (ok page) = page.keys
keys_of (err e) = []

next_of : Result (Page (Unit {0})) → Option (Unit {0})
next_of (ok page) = page.next
next_of (err e) = none

paged :
    (prefix : Text) (token : Option (Unit {0})) (stored : List Text) (page : Page (Unit {0}))
    → list_page prefix token stored ≡ ok page
    → Paged prefix token stored page
unfolding keys_of next_of
paged prefix (some token) stored page e =
    last_long (sym (ap keys_of e)) (sym (ap next_of e)) (inl refl)
paged prefix none stored page e = elim (Bool-cases (is_empty (short_keys prefix stored))) [
  | inl empty ↦
      let given : list_page prefix none stored
          ≡ ok (record { keys = long_keys prefix stored; next = none }) =
        rw empty refl in
      last_long (sym (ap keys_of e) ∙ ap keys_of given) (sym (ap next_of e) ∙ ap next_of given)
        (inr empty)
  | inr filled ↦
      let given : list_page prefix none stored
          ≡ ok (record { keys = short_keys prefix stored; next = some tt }) =
        rw filled refl in
      first_short (sym (ap keys_of e) ∙ ap keys_of given) (sym (ap next_of e) ∙ ap next_of given)
        refl filled
]

none_short :
    (prefix : Text) (stored : List Text) (key : Text)
    → is_empty (short_keys prefix stored) ≡ true
    → includes stored key ≡ true
    → starts_with prefix key ≡ true
    → is_long key ≡ true
none_short prefix stored key empty there begins =
    let short : includes (short_keys prefix stored) key ≡ false =
      includes-empty (short_keys prefix stored) key empty in
    ground (arith, includes-keep (λ k. starts_with prefix k && not (is_long k)) stored key)

after_long : (token : Option (Unit {0})) (key : Text) → is_long key ≡ true → after token key ≡ true
after_long none key long = refl
after_long (some token) key long = long

listed_law :
    (prefix : Text) (token : Option (Unit {0})) (stored : List Text) (page : Page (Unit {0}))
    (key : Text)
    → list_page prefix token stored ≡ ok page
    → includes page.keys key ≡ true
    → (includes stored key ≡ true) × (starts_with prefix key ≡ true) × (after token key ≡ true)
listed_law prefix token stored page key answered there =
    elim (paged prefix token stored page answered) [
      | last_long keys next which ↦
          let (was, (begins, long)) : (includes stored key ≡ true)
              × ((starts_with prefix key ≡ true) × (is_long key ≡ true)) =
            ground (
              arith,
              includes-keep (λ k. starts_with prefix k && is_long k) stored key,
              ap (λ ks. includes ks key) keys,
            ) in
          (was, begins, after_long token key long)
      | first_short keys next first filled ↦
          let (was, begins) : (includes stored key ≡ true) × (starts_with prefix key ≡ true) =
            ground (
              arith,
              includes-keep (λ k. starts_with prefix k && not (is_long k)) stored key,
              ap (λ ks. includes ks key) keys,
            ) in
          (was, begins, ap (λ t. after t key) first)
    ]

complete_law :
    (prefix : Text) (token : Option (Unit {0})) (stored : List Text) (page : Page (Unit {0}))
    (key : Text)
    → list_page prefix token stored ≡ ok page
    → includes stored key ≡ true
    → starts_with prefix key ≡ true
    → after token key ≡ true
    → (includes page.keys key ≡ true)
      ⊎ ((next : Unit {0}) × (page.next ≡ some next) × (after (some next) key ≡ true))
complete_law prefix token stored page key answered there begins behind =
    elim (paged prefix token stored page answered) [
      | last_long keys next which ↦
          let long : is_long key ≡ true = elim which [
            | inl second ↦ sym (ap (λ t. after t key) second) ∙ behind
            | inr empty ↦ none_short prefix stored key empty there begins
          ] in
          inl (
            ap (λ ks. includes ks key) keys
            ∙ includes-keep (λ k. starts_with prefix k && is_long k) stored key
            ∙ rw (there, begins, long) refl)
      | first_short keys next first filled ↦ elim (Bool-cases (is_long key)) [
        | inl long ↦ inr (tt, next, long)
        | inr short ↦ inl (
            ap (λ ks. includes ks key) keys
            ∙ includes-keep (λ k. starts_with prefix k && not (is_long k)) stored key
            ∙ rw (there, begins, short) refl)
      ]
    ]

truncated_law :
    (prefix : Text) (token : Option (Unit {0})) (stored : List Text) (page : Page (Unit {0}))
    (next : Unit {0})
    → list_page prefix token stored ≡ ok page
    → page.next ≡ some next
    → (is_empty page.keys ≡ false)
      × ((key : Text) → includes page.keys key ≡ true → after (some next) key ≡ false)
      × ((key : Text) → after (some next) key ≡ true → after token key ≡ true)
truncated_law prefix token stored page next answered more =
    elim (paged prefix token stored page answered) [
      | last_long keys last which ↦ absurd (cc (sym last ∙ more))
      | first_short keys following first filled ↦ (
        ap is_empty keys ∙ filled,
        (λ key there. ground (
          arith,
          includes-keep (λ k. starts_with prefix k && not (is_long k)) stored key,
          ap (λ ks. includes ks key) keys,
        )),
        (λ key long. ap (λ t. after t key) first),
      )
    ]

abbrev bucket : Bucket (Unit {0})
bucket = record {
  list_page = list_page;
  delete_fails = λ keys stored. false;
  refused = λ keys stored key. false;
  after = after;
  after_none = λ key. refl;
  listed = listed_law;
  complete = complete_law;
  truncated = truncated_law;
}

abbrev photo : Text → Text → ObjectName
photo tenant id = record {
  tenant_id = tenant;
  kind = enrolment;
  id = id;
  extension = some (codes ".png");
  year = 2026;
  month = 2;
}

abbrev own_photo : ObjectName
own_photo = photo (codes "t1") (codes "p1")

abbrev other_photo : ObjectName
other_photo = photo (codes "t12") (codes "p1")

abbrev long_photo : ObjectName
long_photo = photo (codes "t1") (codes "photo-with-a-long-name")

abbrev photos : List Text
photos =
    build_storage_key long_photo ∷ build_storage_key other_photo ∷ build_storage_key own_photo ∷ []

key_built : build_storage_key own_photo ≡ codes "tenants/t1/enrolment/2026/03/p1.png"
unfolding face_cam.Storage.object_path
key_built = refl

two_pages :
    delete_prefix bucket (member_prefix (codes "t1")) photos
    ≡ some (ok 2, build_storage_key other_photo ∷ [])
unfolding delete_prefix keep face_cam.Storage.object_path
two_pages = refl

delete_prefix-member_prefix_example :
    (r : Result ℕ) × ((left : List Text) × ((delete_prefix bucket
            (member_prefix (codes "t1"))
            photos
          ≡ some (r, left))
        × (includes left (build_storage_key other_photo)
            ≡ includes photos (build_storage_key other_photo))
        × (((e : Error) × (r ≡ err e))
            ⊎ ((n : ℕ) × (r ≡ ok n)
                × ((includes left (build_storage_key own_photo) ≡ false)
                    ⊎ IsRefused bucket
                        (member_prefix (codes "t1"))
                        (build_storage_key own_photo))))))
delete_prefix-member_prefix_example =
    delete_prefix-member_prefix bucket photos own_photo other_photo refl refl (λ same. ground arith)

abbrev disk : Disk (Unit {0})
disk = record {
  root = codes "/data";
  encryption_key = codes "secret";
  signed_url_ttl = 300;
  hmac = λ key text. key ++ text;
  hex = λ bytes. bytes;
  from_hex = λ text. text;
  resolved = λ root key. root ++ codes "/" ++ key;
  separator = codes "/";
  read_file = λ path x. some (codes "png");
  write_file = λ path body x. some x;
  is_there = λ path x. true;
  remove = λ path x. some x;
  to_lower = λ t. t;
  encode = λ t. t;
  decode = λ t. some t;
}

served :
    serve disk 9000 (codes "a.png") (some 10) (some (codes "secreta.png:10")) tt
    ≡ ok (codes "image/png", codes "png")
unfolding serve sign get resolve_key
served = refl

serve-signed_url_example :
    let (link_key, expires, signature) = signed_url disk 1500 (codes "a.png") none in
    ((serve_link disk 9000 link_key (some expires) (some signature) tt
        ≡ file_answer disk (codes "a.png") tt)
      × (9000 ≤ 1500 + 300 * 1000))
    ⊎ ((serve_link disk 9000 link_key (some expires) (some signature) tt ≡ err invalid_signature)
        × (1500 + 300 * 1000 < 9000 + 1000))
serve-signed_url_example = serve-signed_url disk 1500 9000 (codes "a.png") none tt refl refl
