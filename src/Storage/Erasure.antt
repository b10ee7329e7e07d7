-- ===== src/Storage/Erasure.antt =====
-- Removing every object under a prefix ends, and removes these objects and no others.
use face_cam.Prelude.{
  ℕ, zero, suc, ◌+◌, ◌<◌, ◌≡◌, ◌≢◌, ◌⊎◌, inl, inr, refl, sym, ap, ◌∙◌, Bool, true, false, ◌&&◌, not,
  Option, none, some, List, [], ◌∷◌, ◌++◌, length, Text, codes, text_eq_refl, starts_with,
  starts_with-append, segments_apart, has_char, is_empty, includes, arith, Bool-cases, Option-cases,
}
use face_cam.Prelude.Errors.{Result, ok, err, Error, storage_error}
use face_cam.Prelude.Calls.{result-cases}
use face_cam.Storage.{
  Page, Bucket, delete_objects, named, delete_pages, delete_prefix, member_prefix,
  build_storage_key, object_path, ObjectName,
}
use face_cam.Storage.Counting.{
  count, count-length, count-without, count_lt, includes-without, named-same,
}

prefix_filled :
    (prefix key : Text)
    → is_empty prefix ≡ false
    → starts_with prefix key ≡ true
    → is_empty key ≡ false
prefix_filled [] key filled begins = absurd (cc filled)
prefix_filled (c ∷ prefix) [] filled begins = absurd (cc begins)
prefix_filled (c ∷ prefix) (d ∷ key) filled begins = refl

first_key : (keys : List Text) → is_empty keys ≡ false → (key : Text) × (includes keys key ≡ true)
first_key [] filled = absurd (cc filled)
first_key (key ∷ keys) filled = (key, rw (text_eq_refl key) refl)

module _ {T : Type 0} (bucket : Bucket T) (prefix : Text) where
  -- A call of `DeleteObjects` refuses to delete the key.
  abbrev pub IsRefused : Text → Type 0
  IsRefused key =
      (keys : List Text) × (stored : List Text) × (bucket.refused keys stored key ≡ true)

  -- What a removal leaves: every key without the prefix, and, unless it threw, of the others only
  -- those that were refused.
  abbrev pub Erased : List Text → Result ℕ → List Text → Type 0
  Erased stored r left =
      ((key : Text) → starts_with prefix key ≡ false → includes left key ≡ includes stored key)
      × (((e : Error) × (r ≡ err e))
          ⊎ ((n : ℕ) × (r ≡ ok n)
              × ((key : Text)
                  → starts_with prefix key ≡ true
                  → (includes left key ≡ false) ⊎ IsRefused key)))

  wanted : Option T → Text → Bool
  wanted token key = starts_with prefix key && bucket.after token key

  -- What the laws say of one page.
  module _ (token : Option T) (stored : List Text) (page : Page T)
      (answered : bucket.list_page prefix token stored ≡ ok page) where
    page_named : is_empty prefix ≡ false → named page.keys ≡ page.keys
    page_named filled = named-same page.keys (λ key there.
        prefix_filled prefix key filled
          (bucket.listed prefix token stored page key answered there).1)

    page_keeps :
        (key : Text)
        → starts_with prefix key ≡ false
        → includes (delete_objects bucket page.keys stored) key ≡ includes stored key
    page_keeps key other = elim (Bool-cases (includes page.keys key)) [
      | inl there ↦
          absurd (cc (sym other ∙ (bucket.listed prefix token stored page key answered there).1))
      | inr absent ↦
          ground (arith, includes-without (bucket.refused page.keys stored) page.keys stored key)
    ]

    next_pass :
        (fuel removed : ℕ) (next : T)
        → named page.keys ≡ page.keys
        → (not (is_empty page.keys) && bucket.delete_fails page.keys stored) ≡ false
        → page.next ≡ some next
        → delete_pages bucket prefix (suc fuel) token removed stored
          ≡ delete_pages bucket prefix fuel
              (some next)
              (removed + length page.keys)
              (delete_objects bucket page.keys stored)
    unfolding delete_pages
    next_pass fuel removed next same deleted more =
        rw (delete_pages, answered, same, deleted, more, same) refl

    last_page :
        (key : Text)
        → page.next ≡ none
        → ((k : Text)
            → includes stored k ≡ true
            → starts_with prefix k ≡ true
            → (bucket.after token k ≡ true) ⊎ IsRefused k)
        → starts_with prefix key ≡ true
        → (includes (delete_objects bucket page.keys stored) key ≡ false) ⊎ IsRefused key
    last_page key last behind begins = elim (Bool-cases (bucket.refused page.keys stored key)) [
      | inl refused ↦ inr (page.keys, stored, refused)
      | inr removed ↦ elim (Bool-cases (includes stored key)) [
        | inr absent ↦ inl (
            ground (arith, includes-without (bucket.refused page.keys stored) page.keys stored key))
        | inl there ↦ elim (behind key there begins) [
          | inr refused ↦ inr refused
          | inl later ↦
              elim (bucket.complete prefix token stored page key answered there begins later) [
                | inl listed ↦ inl (
                    ground (
                      arith,
                      includes-without (bucket.refused page.keys stored) page.keys stored key,
                    ))
                | inr (next, more, after) ↦ absurd (cc (sym last ∙ more))
              ]
        ]
      ]
    ]

    next_behind :
        (next : T) (key : Text)
        → page.next ≡ some next
        → ((k : Text)
            → includes stored k ≡ true
            → starts_with prefix k ≡ true
            → (bucket.after token k ≡ true) ⊎ IsRefused k)
        → includes (delete_objects bucket page.keys stored) key ≡ true
        → starts_with prefix key ≡ true
        → (bucket.after (some next) key ≡ true) ⊎ IsRefused key
    next_behind next key more behind there begins =
        elim (Bool-cases (bucket.refused page.keys stored key)) [
          | inl refused ↦ inr (page.keys, stored, refused)
          | inr removed ↦
              let split = includes-without (bucket.refused page.keys stored) page.keys stored key in
              let (was, unlisted) : (includes stored key ≡ true)
                  × (includes page.keys key ≡ false) =
                ground arith in
              elim (behind key was begins) [
                | inr refused ↦ inr refused
                | inl later ↦
                    elim (bucket.complete prefix token stored page key answered was begins later) [
                      | inl listed ↦ absurd (cc (sym unlisted ∙ listed))
                      | inr (n, is_next, beyond) ↦
                          let same : n ≡ next = cc (sym is_next ∙ more) in
                          inl (ap (λ m. bucket.after (some m) key) (sym same) ∙ beyond)
                    ]
              ]
        ]

    next_count :
        (next : T)
        → page.next ≡ some next
        → count (wanted (some next)) (delete_objects bucket page.keys stored)
          < count (wanted token) stored
    unfolding wanted
    next_count next more =
        let (filled, before, forward) =
          bucket.truncated prefix token stored page next answered more in
        let (first, there) = first_key page.keys filled in
        let (was, begins, behind) = bucket.listed prefix token stored page first answered there in
        let fewer =
          count-without (wanted (some next)) (bucket.refused page.keys stored) page.keys stored in
        let strict =
          count_lt (wanted token) (wanted (some next)) stored first
            (λ key both. ground (arith, forward key)) was (rw (begins, behind) refl)
            (rw (begins, before first there) refl) in
        omega arith

  abbrev Removed : ℕ → Option T → ℕ → List Text → Type 0
  Removed fuel token removed stored =
      (r : Result ℕ) × ((left : List Text) × ((delete_pages bucket prefix fuel token removed stored
            ≡ some (r, left))
          × Erased stored r left))

  delete_pages-Erased :
      (fuel : ℕ) (token : Option T) (removed : ℕ) (stored : List Text)
      → is_empty prefix ≡ false
      → ((key : Text)
          → includes stored key ≡ true
          → starts_with prefix key ≡ true
          → (bucket.after token key ≡ true) ⊎ IsRefused key)
      → count (wanted token) stored < fuel
      → Removed fuel token removed stored
  unfolding delete_pages wanted
  delete_pages-Erased zero token removed stored named_prefix behind enough = absurd (ground arith)
  delete_pages-Erased (suc fuel) token removed stored named_prefix behind enough =
      elim (result-cases (bucket.list_page prefix token stored)) [
        | inr (e, failed) ↦ (
          err e,
          (stored, (rw (delete_pages, failed) refl, ((λ key other. refl), inl (e, refl)))),
        )
        | inl (page, answered) ↦
            let same = page_named token stored page answered named_prefix in
            let keeps = page_keeps token stored page answered in
            elim (Bool-cases (not (is_empty page.keys) && bucket.delete_fails page.keys stored)) [
              | inl refused ↦ (
                err storage_error,
                (
                  stored,
                  (
                    rw (delete_pages, answered, same, refused) refl,
                    ((λ key other. refl), inl (storage_error, refl)),
                  ),
                ),
              )
              | inr deleted ↦ elim (Option-cases page.next) [
                | inl last ↦ (
                  ok (removed + length page.keys),
                  (
                    delete_objects bucket page.keys stored,
                    (
                      rw (delete_pages, answered, same, deleted, last, same) refl,
                      (
                        keeps,
                        inr (
                          removed + length page.keys,
                          refl,
                          (λ key begins.
                              last_page token stored page answered key last behind begins),
                        ),
                      ),
                    ),
                  ),
                )
                | inr (next, more) ↦
                    let fewer = next_count token stored page answered next more in
                    let (r, (left, (done, erased))) =
                      delete_pages-Erased fuel (some next) (removed + length page.keys)
                        (delete_objects bucket page.keys stored) named_prefix
                        (λ key there begins.
                          next_behind token stored page answered next key more behind there begins)
                        (omega (arith, fewer, enough)) in
                    (
                      r,
                      (
                        left,
                        (
                          next_pass token stored page answered fuel removed next same deleted more
                              ∙ done,
                          ((λ key other. erased.0 key other ∙ keeps key other), erased.1),
                        ),
                      ),
                    )
              ]
            ]
      ]

own_key : (n : ObjectName) → starts_with (member_prefix n.tenant_id) (build_storage_key n) ≡ true
own_key n = starts_with-append (n.tenant_id ++ codes "/") (object_path n)

other_key :
    (t : Text) (n : ObjectName)
    → has_char b'/' t ≡ false
    → has_char b'/' n.tenant_id ≡ false
    → t ≢ n.tenant_id
    → starts_with (member_prefix t) (build_storage_key n) ≡ false
other_key t n ht hn apart =
    elim (Bool-cases (starts_with (member_prefix t) (build_storage_key n))) [
      | inr no_match ↦ no_match
      | inl begins ↦ absurd (apart (segments_apart t n.tenant_id (object_path n) ht hn begins))
    ]

-- Removing everything under the prefix of an organization always ends, whatever the bucket holds and
-- however it is paged. When it returns, no object under a key that was built for the organization is
-- left, but for one that a call of DeleteObjects refused to delete in an answer that is a success:
-- such a refusal is not noticed. Whether it returns or throws, the keys that were built for another organization are
-- stored or not as before. The ids of organizations have no slash.
pub delete_prefix-member_prefix :
    {T : Type 0} (bucket : Bucket T) (stored : List Text) (own other : ObjectName)
    → has_char b'/' own.tenant_id ≡ false
    → has_char b'/' other.tenant_id ≡ false
    → own.tenant_id ≢ other.tenant_id
    → (r : Result ℕ) × ((left : List Text) × ((delete_prefix bucket
              (member_prefix own.tenant_id)
              stored
            ≡ some (r, left))
          × (includes left (build_storage_key other) ≡ includes stored (build_storage_key other))
          × (((e : Error) × (r ≡ err e))
              ⊎ ((n : ℕ) × (r ≡ ok n)
                  × ((includes left (build_storage_key own) ≡ false)
                      ⊎ IsRefused bucket (member_prefix own.tenant_id) (build_storage_key own))))))
unfolding delete_prefix
delete_prefix-member_prefix bucket stored own other ht hn apart =
    let prefix = member_prefix own.tenant_id in
    let (r, (left, (done, (kept, gone)))) =
      delete_pages-Erased bucket prefix (suc (length stored)) none 0 stored refl
        (λ key there begins. inl (bucket.after_none key))
        (omega (arith, count-length (wanted bucket prefix none) stored)) in
    (
      r,
      (
        left,
        (
          done,
          kept (build_storage_key other) (other_key own.tenant_id other ht hn apart),
          elim gone [
            | inl thrown ↦ inl thrown
            | inr (n, returned, cleared) ↦
                inr (n, returned, cleared (build_storage_key own) (own_key own))
          ],
        ),
      ),
    )
