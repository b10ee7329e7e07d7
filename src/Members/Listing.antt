-- ===== src/Members/Listing.antt =====
-- Going through the pages of a list of members.
use face_cam.Prelude.{
  ℕ, zero, suc, ◌<◌, ◌≤◌, ◌≡◌, ◌↔◌, refl, ap, sym, ◌∙◌, true, false, Option, some, List, [], ◌∷◌,
  ◌++◌, All, length, length-take_le, arith,
}
use mathlib.Core.List.{Memᴰ}
use face_cam.Prelude.Errors.{Result, ok, err}
use face_cam.Context.{RequestStore, tenant_id_of, is_platform_scope}
use face_cam.Rows.{Member}
use face_cam.Store.{Table}
use face_cam.Paging.{Paginated, paginate, pages_to, total_pages, pages_to-total_pages}
use face_cam.Members.{Searching, ListMembersQuery, NoTies, listed, rows_of, list}

All-Memᴰ : {A : Type 0} (P : A → Type 0) (x : A) (xs : List A) → All P xs → Memᴰ x xs → P x
All-Memᴰ P x (y ∷ ys) h (Memᴰ.head e) = rw e h.0
All-Memᴰ P x (y ∷ ys) h (Memᴰ.tail m) = All-Memᴰ P x ys h.1 m
All-Memᴰ P x [] h m = elim m [ ]

module _ {A : Type 0} (members : Table (Member A) (λ m. m.id)) (db : Searching A) where
  abbrev pub items_of : Result (Paginated (Member A)) → List (Member A)
  items_of (ok answer) = answer.items
  items_of (err e) = []

  -- What a client has read after asking for the first pages, one after another.
  unfoldable pub read_pages :
      ListMembersQuery → Option RequestStore × members.State → ℕ → List (Member A)
  read_pages query st zero = []
  read_pages query st (suc n) =
      read_pages query st n ++ items_of (list members db (record query { page = suc n }) st).0

  read_pages-pages_to :
      (query : ListMembersQuery) (ctx : Option RequestStore) (ms : members.State) (t n : ℕ)
      → is_platform_scope ctx ≡ false
      → tenant_id_of ctx ≡ some t
      → NoTies (db.ties query.sort_by) (members.find_many ms (listed db t query))
      → read_pages query (ctx, ms) n ≡ pages_to n query.page_size (rows_of members db t query ms)
  unfolding read_pages list pages_to rows_of
  read_pages-pages_to query ctx ms t zero ordinary inside untied = refl
  read_pages-pages_to query ctx ms t (suc n) ordinary inside untied =
      rw
        (
          read_pages-pages_to query ctx ms t n ordinary inside untied,
          ordinary,
          inside,
          db.sorted_untied (suc n) query.page query.sort_by query.ascending
              (members.find_many ms (listed db t query)) untied,
        )
        refl

  -- A client that asks for every page up to the last that an answer names has read exactly the
  -- stored members of the request's tenant that match the query, provided that no two of these tie
  -- in the sort of the query and that nothing is written meanwhile. The listing writes nothing, the
  -- total is the number of these members and no page is longer than the page size.
  pub read_pages-exact :
      (query : ListMembersQuery) (ctx : Option RequestStore) (ms : members.State) (t : ℕ)
      (answer : Paginated (Member A)) (st : Option RequestStore × members.State) (m : Member A)
      → is_platform_scope ctx ≡ false
      → tenant_id_of ctx ≡ some t
      → 0 < query.page_size
      → NoTies (db.ties query.sort_by) (members.find_many ms (listed db t query))
      → list members db query (ctx, ms) ≡ (ok answer, st)
      → (Memᴰ m (read_pages query (ctx, ms) answer.total_pages)
          ↔ ((members.find_unique ms m.id ≡ some m) × (listed db t query m ≡ true)))
        × (answer.total ≡ length (read_pages query (ctx, ms) answer.total_pages))
        × (length answer.items ≤ query.page_size)
        × (st ≡ (ctx, ms))
  unfolding list rows_of
  read_pages-exact query ctx ms t answer st m ordinary inside positive untied e =
      let found = members.find_many ms (listed db t query) in
      let rows = rows_of members db t query ms in
      let same : answer ≡ paginate query.page query.page_size rows = ground arith in
      let pages : answer.total_pages ≡ total_pages (length rows) query.page_size =
        ap (λ a. a.total_pages) same in
      let all_rows : read_pages query (ctx, ms) answer.total_pages ≡ rows =
        read_pages-pages_to query ctx ms t answer.total_pages ordinary inside untied
        ∙ ap (λ n. pages_to n query.page_size rows) pages
        ∙ pages_to-total_pages query.page_size rows positive in
      let keeps = db.sorted_keeps query.page query.sort_by query.ascending found m in
      (
        rw all_rows (
          λ h.
              All-Memᴰ (λ q. (members.find_unique ms q.id ≡ some q) × (listed db t query q ≡ true))
                m found (members.find_many_sound ms (listed db t query)) (keeps.1 h),
          λ h. keeps.0 (members.find_many_complete ms (listed db t query) m.id m h.0 h.1),
        ),
        ap (λ a. a.total) same ∙ ap length (sym all_rows),
        rw same (length-take_le query.page_size _),
        ground arith,
      )
