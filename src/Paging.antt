-- ===== src/Paging.antt =====
-- The pages of a list: `skip`, `take` and `totalPages` of the list operations of
-- apps/api/src/members/members.service.ts and apps/api/src/tenants/tenants.service.ts.
use face_cam.Prelude.{
  ℕ, zero, suc, ◌+◌, ◌-◌, ◌*◌, ◌/◌, ◌≤◌, ◌<◌, ◌≡◌, refl, ap, sym, ◌∙◌, List, [], ◌∷◌, ◌++◌, length,
  take, drop, take-all, arith,
}
use Prim.Native.Nat.{max}

pub record Paginated (A : Type 0) : Type 0 where
  pub items : List A
  pub total : ℕ
  pub page : ℕ
  pub page_size : ℕ
  pub total_pages : ℕ

-- `Math.max(1, Math.ceil(total / pageSize))`, for a page size above 0.
unfoldable pub total_pages : ℕ → ℕ → ℕ
total_pages total page_size = max 1 ((total + page_size - 1) / page_size)

total_pages_enough :
    (total page_size : ℕ) → 0 < page_size → total ≤ total_pages total page_size * page_size
unfolding total_pages
total_pages_enough total page_size h = grind arith

module _ {A : Type 0} where
  -- `skip: (page - 1) * pageSize, take: pageSize`
  unfoldable pub page_of : ℕ → ℕ → List A → List A
  page_of page page_size rows = take page_size (drop ((page - 1) * page_size) rows)

  unfoldable pub paginate : ℕ → ℕ → List A → Paginated A
  unfolding page_of total_pages
  paginate page page_size rows = record {
    items = page_of page page_size rows;
    total = length rows;
    page = page;
    page_size = page_size;
    total_pages = total_pages (length rows) page_size;
  }

  -- The pages from the first to this one, one after another.
  unfoldable pub pages_to : ℕ → ℕ → List A → List A
  unfolding page_of
  pages_to zero page_size rows = []
  pages_to (suc n) page_size rows = pages_to n page_size rows ++ page_of (suc n) page_size rows

  take-nil : (n : ℕ) → take {A = A} n [] ≡ []
  take-nil zero = refl
  take-nil (suc n) = refl

  take-add : (m n : ℕ) (xs : List A) → take m xs ++ take n (drop m xs) ≡ take (m + n) xs
  take-add zero n xs = ap (λ k. take k xs) (omega arith)
  take-add (suc m) n [] = take-nil n ∙ sym (take-nil (suc m + n))
  take-add (suc m) n (x ∷ xs) =
      let next : suc m + n ≡ suc (m + n) = omega arith in
      rw next (ap (λ t. x ∷ t) (take-add m n xs))

  pages_to-take :
      (n page_size : ℕ) (rows : List A) → pages_to n page_size rows ≡ take (n * page_size) rows
  unfolding pages_to page_of
  pages_to-take zero page_size rows =
      let none_yet : 0 * page_size ≡ 0 = omega arith in rw none_yet refl
  pages_to-take (suc n) page_size rows =
      let skipped : (suc n - 1) * page_size ≡ n * page_size = grind arith in
      let next : suc n * page_size ≡ n * page_size + page_size = grind arith in
      rw (next, skipped, pages_to-take n page_size rows) (take-add (n * page_size) page_size rows)

  -- The pages up to the last hold all rows, in their order and each once.
  pub pages_to-total_pages :
      (page_size : ℕ) (rows : List A)
      → 0 < page_size
      → pages_to (total_pages (length rows) page_size) page_size rows ≡ rows
  pages_to-total_pages page_size rows h =
      pages_to-take (total_pages (length rows) page_size) page_size rows
      ∙ take-all _ rows (total_pages_enough (length rows) page_size h)
