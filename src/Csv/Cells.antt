-- ===== src/Csv/Cells.antt =====
-- How the reader takes in one cell and one line that the export wrote.
use face_cam.Prelude.{
  ℕ, ◌≡◌, refl, sym, ◌∙◌, inl, inr, Bool, true, false, Option, none, some, List, [], ◌∷◌, ◌++◌, map,
  Text, any_of, ◌==◌, ==_iff, or_default, arith, Bool-cases,
}
use mathlib.Core.List.{append_assoc, append-nil}
use face_cam.Csv.{
  quote, comma, line_feed, carriage_return, is_special, escape, csv_cell, join, line_end, trim,
  Reader, next_is, push_row, read_char, read_chars,
}

module _ {A : Type 0} where
  pub append_one : (x : List A) (c : A) (t : List A) → x ++ c ∷ t ≡ (x ++ c ∷ []) ++ t
  append_one x c t = sym (append_assoc x (c ∷ []) t)

abbrev pub at : List (List Text) → List Text → Text → Bool → Reader
at rows row cell in_quotes = record { rows = rows; row = row; cell = cell; in_quotes = in_quotes }

module _ (rows : List (List Text)) (row : List Text) where
  quoted_char :
      (x : Text) (c : ℕ) (rest : Text)
      → (c == quote) ≡ false
      → read_chars false (at rows row x true) (c ∷ rest)
        ≡ read_chars false (at rows row (x ++ c ∷ []) true) rest
  unfolding read_chars read_char
  quoted_char x c rest other = rw (read_chars, read_char, other) refl

  -- Inside quotes an escaped text is read up to its closing quote.
  pub read_escaped :
      (x t rest : Text)
      → next_is quote rest ≡ false
      → read_chars false (at rows row x true) (escape t ++ quote ∷ rest)
        ≡ read_chars false (at rows row (x ++ t) false) rest
  unfolding read_chars read_char escape
  read_escaped x [] rest after = rw (after, append-nil x) refl
  read_escaped x (c ∷ t) rest after = elim (Bool-cases (c == quote)) [
    | inl q ↦
        rw (read_chars, read_char, q, append_one x c t, (==_iff c quote).0 q)
          (read_escaped (x ++ quote ∷ []) t rest after)
    | inr q ↦
        rw (q, append_one x c t) (quoted_char x c _ q ∙ read_escaped (x ++ c ∷ []) t rest after)
  ]

  -- A text without special characters is read as it stands.
  pub read_plain :
      (x t rest : Text)
      → any_of is_special t ≡ false
      → read_chars false (at rows row x false) (t ++ rest)
        ≡ read_chars false (at rows row (x ++ t) false) rest
  unfolding read_chars read_char
  read_plain x [] rest plain = rw (append-nil x) refl
  read_plain x (c ∷ t) rest plain =
      let (q, k, n, r, p) : ((c == quote) ≡ false)
          × ((c == comma) ≡ false)
          × ((c == line_feed) ≡ false)
          × ((c == carriage_return) ≡ false)
          × (any_of is_special t ≡ false) =
        ground arith in
      rw (read_chars, read_char, q, k, n, r, append_one x c t) (read_plain (x ++ c ∷ []) t rest p)

  -- A cell that the export wrote is read as its text.
  pub read_cell :
      (t : Option Text) (rest : Text)
      → next_is quote rest ≡ false
      → read_chars false (at rows row [] false) (csv_cell t ++ rest)
        ≡ read_chars false (at rows row (or_default t []) false) rest
  unfolding csv_cell read_chars
  read_cell none rest after = refl
  read_cell (some t) rest after = elim (Bool-cases (any_of is_special t)) [
    | inl special ↦
        rw (special, append_assoc (escape t) (quote ∷ []) rest) (read_escaped [] t rest after)
    | inr plain ↦ rw plain (read_plain [] t rest plain)
  ]

-- What the reader keeps of a cell.
unfoldable pub cell_text : Option Text → Text
unfolding trim
cell_text t = trim (or_default t [])

module _ (rows : List (List Text)) where
  -- A line that the export wrote, with its end, is read as a row.
  pub read_line :
      (row : List Text) (t : Option Text) (ts : List (Option Text)) (rest : Text)
      → read_chars false
          (at rows row [] false)
          (join (comma ∷ []) (map csv_cell (t ∷ ts)) ++ (line_end ++ rest))
        ≡ read_chars false (at (push_row rows (row ++ map cell_text (t ∷ ts))) [] [] false) rest
  unfolding read_chars read_char csv_cell join trim cell_text
  read_line row t [] rest = read_cell rows row t (line_end ++ rest) refl
  read_line row t (u ∷ ts) rest =
      rw
        (
          append_assoc (csv_cell t ++ comma ∷ []) (join (comma ∷ []) (map csv_cell (u ∷ ts)))
              (line_end ++ rest),
          append_assoc (csv_cell t) (comma ∷ [])
              (join (comma ∷ []) (map csv_cell (u ∷ ts)) ++ (line_end ++ rest)),
          append_one row (cell_text t) (map cell_text (u ∷ ts)),
        )
        (read_cell rows row t _ refl ∙ read_line (row ++ cell_text t ∷ []) u ts rest)
