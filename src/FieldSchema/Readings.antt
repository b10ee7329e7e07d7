-- ===== src/FieldSchema/Readings.antt =====
-- What the readers of zod give back, for the schemas of packages/shared/src/field-schema.ts.
use face_cam.Prelude.{
  ℕ, ◌≤◌, ◌≡◌, refl, sym, ap, ◌∙◌, ◌⊎◌, inl, inr, Bool, true, Option, none, some, length, leb, Text,
  arith,
}
use face_cam.FieldSchema.Values.{Value, undefined, null, string}
use face_cam.FieldSchema.Schemas.{Zod, guarded, mapped, read_string, read_optional}

pub mapped-some :
    {A B : Type 0} (f : A → B) (o : Option A) (b : B)
    → mapped f o ≡ some b
    → (a : A) × (o ≡ some a) × (b ≡ f a)
mapped-some f none b e = absurd (ground arith)
mapped-some f (some a) b e = (a, refl, ground arith)

pub guarded-some :
    {A : Type 0} (p : A → Bool) (o : Option A) (a : A)
    → guarded p o ≡ some a
    → (o ≡ some a) × (p a ≡ true)
guarded-some p none a e = absurd (ground arith)
guarded-some p (some b) a e = ground arith

pub read_string-some :
    {N : Type 0} (p : Text → Option Text) (v w : Value N)
    → read_string p v ≡ some w
    → (t : Text) × (u : Text) × (v ≡ string t) × (p t ≡ some u) × (w ≡ string u)
read_string-some p (string t) w e =
    let (u, read, same) = mapped-some string (p t) w e in (t, u, refl, read, same)
read_string-some p Value.undefined w e = absurd (ground arith)
read_string-some p null w e = absurd (ground arith)
read_string-some p (Value.boolean b) w e = absurd (ground arith)
read_string-some p (Value.number n) w e = absurd (ground arith)
read_string-some p (Value.array xs) w e = absurd (ground arith)
read_string-some p (Value.object es) w e = absurd (ground arith)

pub blank_optional :
    {N : Type 0} (p : Value N → Option (Value N)) (v w : Value N)
    → read_optional p v ≡ some w
    → ((v ≡ undefined) × (w ≡ undefined)) ⊎ (p v ≡ some w)
blank_optional p Value.undefined w e = inl (refl, ground arith)
blank_optional p null w e = inr e
blank_optional p (string t) w e = inr e
blank_optional p (Value.boolean b) w e = inr e
blank_optional p (Value.number n) w e = inr e
blank_optional p (Value.array xs) w e = inr e
blank_optional p (Value.object es) w e = inr e

module _ {N : Type 0} (z : Zod N) where
  pub trimmed_string : (t : Text) → z.parse_string (z.trim z.z_string) t ≡ some (z.trimmed t)
  trimmed_string t = rw (z.parse-trim, z.parse-z_string) refl

  pub read_of_string :
      (s : z.StringSchema) (v w : Value N)
      → z.parse (z.of_string s) v ≡ some w
      → (t u : Text) × (z.parse_string s t ≡ some u) × (w ≡ string u)
  read_of_string s v w e =
      let (t, u, same, read, out) =
        read_string-some (z.parse_string s) v w (sym (z.parse-of_string s v) ∙ e) in
      (t, u, read, out)

  pub read_of_sent :
      (s : z.StringSchema) (v w : Value N)
      → z.parse (z.of_string s) v ≡ some w
      → (t u : Text) × (v ≡ string t) × (z.parse_string s t ≡ some u) × (w ≡ string u)
  read_of_sent s v w e = read_string-some (z.parse_string s) v w (sym (z.parse-of_string s v) ∙ e)

  pub checked :
      (p : Text → Bool) (s : z.StringSchema) (t u : Text)
      → z.parse_string (z.check p s) t ≡ some u
      → (z.parse_string s t ≡ some u) × (p u ≡ true)
  checked p s t u e = guarded-some p (z.parse_string s t) u (sym (z.parse-check p s t) ∙ e)

  -- `z.string().trim().min(least).max(most)`: what was sent, trimmed, of that size.
  pub sized_string :
      (least most : ℕ) (v w : Value N)
      → z.parse (z.of_string (z.max_length most (z.min_length least (z.trim z.z_string)))) v
        ≡ some w
      → (t : Text) × (v ≡ string t)
        × (w ≡ string (z.trimmed t))
        × ((least ≤ length (z.trimmed t)) × (length (z.trimmed t) ≤ most))
  sized_string least most v w e =
      let s = z.trim z.z_string in
      let (t, u, sent, read, out) = read_of_sent (z.max_length most (z.min_length least s)) v w e in
      let (long, below) =
        guarded-some (λ a. leb (length a) most) (z.parse_string (z.min_length least s) t) u
          (sym (z.parse-max_length most (z.min_length least s) t) ∙ read) in
      let (cut, above) =
        guarded-some (λ a. leb least (length a)) (z.parse_string s t) u
          (sym (z.parse-min_length least s t) ∙ long) in
      let size : (least ≤ length u) × (length u ≤ most) = (ground arith, ground arith) in
      let same : u ≡ z.trimmed t = cc (cut, trimmed_string t) in
      (t, sent, out ∙ ap (λ a. string a) same, rw (← same) size)
