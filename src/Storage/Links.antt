-- ===== src/Storage/Links.antt =====
-- Signed links to stored files: who is served, and for how long.
use face_cam.Prelude.{
  ℕ, ◌+◌, ◌*◌, ◌/◌, ◌≤◌, ◌<◌, ◌≡◌, ◌⊎◌, inl, inr, refl, true, false, Option, some, List, Text,
  text_eq_refl, ltb, or_default, arith, Bool-cases,
}
use face_cam.Prelude.Errors.{Result, ok, err, invalid_signature}
use face_cam.Storage.Local.{
  Disk, get, sign, verify, signed_url, content_type_for, serve, serve_link,
}

expired :
    (made now ttl : ℕ)
    → ltb ((made / 1000 + ttl) * 1000) now ≡ true
    → made + ttl * 1000 < now + 1000
expired made now ttl over = grind arith

unexpired :
    (made now ttl : ℕ) → ltb ((made / 1000 + ttl) * 1000) now ≡ false → now ≤ made + ttl * 1000
unexpired made now ttl live = grind arith

module _ {X : Type 0} (disk : Disk X) where
  -- What the endpoint answers for a file, once the link is accepted.
  abbrev pub file_answer : Text → X → Result (Text × List ℕ)
  file_answer key x = elim (get disk key x) [
    | err e ↦ err e
    | ok body ↦ ok (content_type_for disk key, body)
  ]

  -- A link that was made at one time is served at another as the file itself, until its time is over;
  -- then it is refused. The time is over at most the link's lifetime after it was made, and less than
  -- a second earlier. Decoding an encoded key gives the key, and the key is such that decoding it once
  -- more changes nothing, as it is without a percent sign.
  pub serve-signed_url :
      (made now : ℕ) (key : Text) (ttl : Option ℕ) (x : X)
      → disk.decode (disk.encode key) ≡ some key
      → disk.decode key ≡ some key
      → let (link_key, expires, signature) = signed_url disk made key ttl in
        ((serve_link disk now link_key (some expires) (some signature) x ≡ file_answer key x)
          × (now ≤ made + or_default ttl disk.signed_url_ttl * 1000))
        ⊎ ((serve_link disk now link_key (some expires) (some signature) x ≡ err invalid_signature)
            × (made + or_default ttl disk.signed_url_ttl * 1000 < now + 1000))
  unfolding serve_link serve verify signed_url
  serve-signed_url made now key ttl x coded plain =
      let expires = made / 1000 + or_default ttl disk.signed_url_ttl in
      elim (Bool-cases (ltb (expires * 1000) now)) [
        | inl over ↦ inr (
          rw (serve_link, coded, serve, plain, verify, over) refl,
          expired made now (or_default ttl disk.signed_url_ttl) over,
        )
        | inr live ↦ inl (
          rw
              (
                serve_link,
                coded,
                serve,
                plain,
                verify,
                live,
                text_eq_refl (disk.from_hex (sign disk key expires)),
              )
              refl,
          unexpired made now (or_default ttl disk.signed_url_ttl) live,
        )
      ]
