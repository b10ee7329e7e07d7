-- ===== src/Storage/Counting.antt =====
-- Counting the keys of a bucket that pass a test, and what leaving keys out does to a list.
use face_cam.Prelude.{
  ℕ, suc, ◌<◌, ◌≤◌, ◌≡◌, inl, inr, refl, ap, ◌∙◌, Bool, true, false, ◌&&◌, not, List, [], ◌∷◌,
  length, Text, text_eq, text_eq_iff, text_eq_refl, is_empty, includes, if◌then◌else◌, arith,
  Bool-cases,
}
use face_cam.Storage.{without_keys, named}

-- How many of the keys pass a test.
unfoldable pub count : (Text → Bool) → List Text → ℕ
count p [] = 0
count p (key ∷ stored) = let rest = count p stored in if p key then suc rest else rest

pub count-length : (p : Text → Bool) (stored : List Text) → count p stored ≤ length stored
unfolding count
count-length p [] = ground arith
count-length p (key ∷ stored) = ground (arith, count-length p stored)

pub count-without :
    (p refused : Text → Bool) (keys stored : List Text)
    → count p (without_keys refused keys stored) ≤ count p stored
unfolding count without_keys
count-without p refused keys [] = ground arith
count-without p refused keys (key ∷ stored) =
    elim (Bool-cases (includes keys key && not (refused key))) [
      | inl gone ↦ ground (arith, count-without p refused keys stored)
      | inr kept ↦ ground (arith, count-without p refused keys stored)
    ]

pub count_le :
    (p q : Text → Bool) (stored : List Text)
    → ((key : Text) → q key ≡ true → p key ≡ true)
    → count q stored ≤ count p stored
unfolding count
count_le p q [] weaker = ground arith
count_le p q (key ∷ stored) weaker = elim (Bool-cases (q key)) [
  | inl passes ↦ ground (arith, count_le p q stored weaker, weaker key passes)
  | inr fails ↦ ground (arith, count_le p q stored weaker)
]

pub count_lt :
    (p q : Text → Bool) (stored : List Text) (found : Text)
    → ((key : Text) → q key ≡ true → p key ≡ true)
    → includes stored found ≡ true
    → p found ≡ true
    → q found ≡ false
    → count q stored < count p stored
unfolding count
count_lt p q [] found weaker there good bad = absurd (ground arith)
count_lt p q (key ∷ stored) found weaker there good bad = elim (Bool-cases (text_eq key found)) [
  | inl same ↦
      let at = (text_eq_iff key found).0 same in
      let p_here : p key ≡ true = ap p at ∙ good in
      let q_here : q key ≡ false = ap q at ∙ bad in ground (arith, count_le p q stored weaker)
  | inr other ↦ elim (Bool-cases (q key)) [
    | inl passes ↦
        ground (arith, count_lt p q stored found weaker (ground arith) good bad, weaker key passes)
    | inr fails ↦ ground (arith, count_lt p q stored found weaker (ground arith) good bad)
  ]
]

pub includes-without :
    (refused : Text → Bool) (keys stored : List Text) (key : Text)
    → includes (without_keys refused keys stored) key
      ≡ (includes stored key && not (includes keys key && not (refused key)))
unfolding without_keys
includes-without refused keys [] key = refl
includes-without refused keys (k ∷ stored) key = elim (Bool-cases (text_eq k key)) [
  | inl same ↦
      let at = (text_eq_iff k key).0 same in
      let both : includes keys k ≡ includes keys key = ap (includes keys) at in
      let either : refused k ≡ refused key = ap refused at in
      ground (arith, includes-without refused keys stored key)
  | inr other ↦ ground (arith, includes-without refused keys stored key)
]

pub named-same :
    (keys : List Text)
    → ((key : Text) → includes keys key ≡ true → is_empty key ≡ false)
    → named keys ≡ keys
unfolding named
named-same [] filled = refl
named-same (key ∷ keys) filled =
    let here : is_empty key ≡ false = filled key (rw (text_eq_refl key) refl) in
    rw (here, named-same keys (λ k there. filled k (ground arith))) refl
