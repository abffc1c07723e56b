-- ===== src/Audit/LastLine.antt =====
-- The last line of a file, and what `_tail_record` of mcp/src/compliance_mcp/audit.py makes of it.
use regulatory_compliance_he.Prelude.{
  ℕ, ◌≤◌, ◌≡◌, ◌≢◌, ◌⊎◌, inl, inr, refl, sym, ap, ◌∙◌, some, true, List, [], ◌∷◌, ◌++◌, arith, all,
  keep, last?, keep-append, last-append, length, drop, nat_eq, Bool-cases,
}
use mathlib.Core.List.{append-nil, append_assoc}
use regulatory_compliance_he.Audit.Tail.{
  Bytes, newline, count, prepend, split_lines, is_written_line, tail_line, drop-length, IsTail,
  read_back-IsTail, count-append, drop-append, count-drop, IsWhole, IsWhole-drop,
}

prepend-append : (c : ℕ) (xs ys : List Bytes) → xs ≢ [] → prepend c (xs ++ ys) ≡ prepend c xs ++ ys
prepend-append c [] ys h = absurd (h refl)
prepend-append c (x ∷ xs) ys h = refl

prepend-ne-nil : (c : ℕ) (xs : List Bytes) → prepend c xs ≢ []
prepend-ne-nil c [] h = cc h
prepend-ne-nil c (x ∷ xs) h = cc h

split_lines-ne-nil : (s : Bytes) → split_lines s ≢ []
unfolding split_lines
split_lines-ne-nil [] h = cc h
split_lines-ne-nil (c ∷ s) h = elim (Bool-cases (nat_eq c newline)) [
  | inl e ↦ absurd (cc (rw e at h))
  | inr e ↦ prepend-ne-nil c (split_lines s) (rw e at h)
]

split_lines-append :
    (xs ys : Bytes) → split_lines (xs ++ newline ∷ ys) ≡ split_lines xs ++ split_lines ys
unfolding split_lines
split_lines-append [] ys = refl
split_lines-append (c ∷ xs) ys = elim (Bool-cases (nat_eq c newline)) [
  | inl e ↦ rw e (ap (λ (l : List Bytes). [] ∷ l) (split_lines-append xs ys))
  | inr e ↦ rw e (
      ap (λ (l : List Bytes). prepend c l) (split_lines-append xs ys)
      ∙ prepend-append c (split_lines xs) (split_lines ys) (split_lines-ne-nil xs))
]

-- A line has no line end within.
split_lines_one : (line : Bytes) → count line ≡ 0 → split_lines line ≡ line ∷ []
unfolding split_lines count
split_lines_one [] h = refl
split_lines_one (c ∷ line) h = elim (Bool-cases (nat_eq c newline)) [
  | inl e ↦ absurd (ground (arith, e, h))
  | inr e ↦
      rw e (ap (λ (l : List Bytes). prepend c l) (split_lines_one line (ground (arith, e, h))))
]

-- The end of the file behind the last line.
abbrev pub IsEnd : Bytes → Type 0
IsEnd end = (end ≡ []) ⊎ (end ≡ newline ∷ [])

nothing_kept : keep is_written_line (split_lines []) ≡ []
unfolding keep split_lines all
nothing_kept = refl

kept_line :
    (line end : Bytes)
    → count line ≡ 0
    → is_written_line line ≡ true
    → IsEnd end
    → keep is_written_line (split_lines (line ++ end)) ≡ line ∷ []
unfolding keep
kept_line line end flat written (inl e) =
    rw (e, append-nil line, split_lines_one line flat, written) refl
kept_line line end flat written (inr e) =
    rw (e, split_lines-append line [], split_lines_one line flat, written, nothing_kept)

last_split :
    (before : List Bytes) (line end : Bytes)
    → count line ≡ 0
    → is_written_line line ≡ true
    → IsEnd end
    → last? (keep is_written_line (before ++ split_lines (line ++ end))) ≡ some line
last_split before line end flat written ends =
    rw
      (
        keep-append is_written_line before (split_lines (line ++ end)),
        kept_line line end flat written ends,
      )
      (last-append (keep is_written_line before) line)

last_whole :
    (before line end : Bytes)
    → IsWhole before
    → count line ≡ 0
    → is_written_line line ≡ true
    → IsEnd end
    → last? (keep is_written_line (split_lines (before ++ (line ++ end)))) ≡ some line
last_whole before line end (inl e) flat written ends =
    rw e (last_split [] line end flat written ends)
last_whole before line end (inr (c, e)) flat written ends =
    ap (λ (b : Bytes). last? (keep is_written_line (split_lines (b ++ (line ++ end))))) e
    ∙ ap (λ (b : Bytes). last? (keep is_written_line (split_lines b)))
        (append_assoc c (newline ∷ []) (line ++ end))
    ∙ ap (λ (b : List Bytes). last? (keep is_written_line b)) (split_lines-append c (line ++ end))
    ∙ last_split (split_lines c) line end flat written ends

count-end : (end : Bytes) → IsEnd end → count end ≤ 1
unfolding count
count-end end (inl e) = rw e (omega arith)
count-end end (inr e) = rw e (omega arith)

-- The loop stops only when it has read the whole last line.
tail_has_line :
    (before line end : Bytes) (buf : Bytes)
    → IsWhole before
    → count line ≡ 0
    → IsEnd end
    → IsTail (before ++ (line ++ end)) buf
    → (b : Bytes) × IsWhole b × (buf ≡ b ++ (line ++ end))
tail_has_line before line end buf whole flat ends (pos, e, high, inl z) =
    (before, whole, e ∙ ap (λ n. drop n (before ++ (line ++ end))) z)
tail_has_line before line end buf whole flat ends (pos, e, high, inr two) =
    elim (drop-append before (line ++ end) pos) [
      | inl d ↦ (drop pos before, IsWhole-drop pos before whole, e ∙ d)
      | inr (k, d) ↦ absurd (
          omega (
            arith,
            two,
            flat,
            count-end end ends,
            ap count (e ∙ d),
            count-drop k (line ++ end),
            count-append line end,
          ))
    ]

-- The chunked read from the end gives the last line, however long it and the file are, if the file is
-- whole lines, then that line, then at most one line end, and the line is not blank.
pub tail_line_lem :
    (before line end : Bytes)
    → IsWhole before
    → count line ≡ 0
    → is_written_line line ≡ true
    → IsEnd end
    → tail_line (before ++ (line ++ end)) ≡ some line
unfolding tail_line
tail_line_lem before line end whole flat written ends =
    let file = before ++ (line ++ end) in
    let read =
      read_back-IsTail (length file) file (length file) [] (omega arith) (omega arith)
        (sym (drop-length file)) in
    let (b, whole_b, e) = tail_has_line before line end _ whole flat ends read in
    rw e (last_whole b line end whole_b flat written ends)
