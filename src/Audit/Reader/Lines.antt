-- ===== src/Audit/Reader/Lines.antt =====
-- What the reader makes of the lines that the appends wrote.
use sigil_pi.Prelude.{
  ℕ, suc, ◌≡◌, refl, sym, true, false, Option, none, some, List, [], ◌∷◌, ◌++◌, Each, ap, ◌∙◌,
}
use mathlib.Core.List.{append_assoc, append-nil}
use sigil_pi.Audit.Chain.{Record}
use sigil_pi.Audit.Reader.{
  is_break, is_blank, onto_first, lines_at, records, torn, read_lines, read_path,
}

-- No character of the line ends a line.
abbrev pub OneLine : List ℕ → Type 0
OneLine line = Each (λ c. is_break c ≡ false) line

lines_at-append :
    (line : List ℕ) (c : ℕ) (rest : List ℕ)
    → OneLine line
    → is_break c ≡ true
    → lines_at is_break (line ++ c ∷ rest) ≡ line ∷ lines_at is_break rest
unfolding lines_at
lines_at-append [] c rest one ends = rw ends refl
lines_at-append (d ∷ line) c rest one ends =
    rw one.0 (ap (onto_first d) (lines_at-append line c rest one.1 ends))

module _ (loads : List ℕ → Option Record) (dumps : Record → List ℕ) where
  -- The file after appends of these records: `json.dumps` and a newline for each.
  unfoldable pub appended : List Record → List ℕ
  appended [] = []
  appended (r ∷ rs) = dumps r ++ 10 ∷ appended rs

  -- The record's text is one line, is not blank, and is read as the record.
  pub record IsReadable (r : Record) : Type 0 where
    pub one_line : OneLine (dumps r)
    pub not_blank : is_blank (dumps r) ≡ false
    pub loaded : loads (dumps r) ≡ some r

  read_lines-appended :
      (n : ℕ) (done rs : List Record)
      → Each IsReadable rs
      → read_lines loads n done (lines_at is_break (appended rs)) ≡ records (done ++ rs)
  unfolding read_lines appended lines_at
  read_lines-appended n done [] readable = ap records (sym (append-nil done))
  read_lines-appended n done (r ∷ rs) readable =
      rw (lines_at-append (dumps r) 10 (appended rs) readable.0.one_line refl, read_lines)
        (rw (readable.0.not_blank, readable.0.loaded, read_lines)
          (read_lines-appended (suc n) (done ++ r ∷ []) rs readable.1
            ∙ ap records (append_assoc done (r ∷ []) rs)))

  -- What the appends wrote is read back, where no text of a record has a character that ends a line.
  pub read_path-appended :
      (rs : List Record) → Each IsReadable rs → read_path loads (some (appended rs)) ≡ records rs
  unfolding read_path
  read_path-appended rs readable = read_lines-appended 1 [] rs readable

  -- A record whose text has a character that ends a line, as U+2028 does, and no record before it,
  -- tears the file there for the reader, though `json.dumps` leaves the character as it is.
  pub read_path-break :
      (r : Record) (rs : List Record) (a b : List ℕ) (c : ℕ)
      → dumps r ≡ a ++ c ∷ b
      → OneLine a
      → is_break c ≡ true
      → is_blank a ≡ false
      → loads a ≡ none
      → read_path loads (some (appended (r ∷ rs))) ≡ torn 1 0
  unfolding read_path read_lines appended
  read_path-break r rs a b c text one ends filled broken =
      let rest = b ++ 10 ∷ appended rs in
      ap (λ t. read_path loads (some (t ++ 10 ∷ appended rs))) text
      ∙ ap (λ t. read_path loads (some t)) (append_assoc a (c ∷ b) (10 ∷ appended rs))
      ∙ rw (lines_at-append a c rest one ends, read_lines) (rw (filled, broken, read_lines) refl)
