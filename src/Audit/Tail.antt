-- ===== src/Audit/Tail.antt =====
-- `AuditLog._tail_record` of mcp/src/compliance_mcp/audit.py on the bytes of a file: the read backwards
-- in chunks. Audit.Writer has the same on lines.
use regulatory_compliance_he.Prelude.{
  ℕ, zero, suc, ◌+◌, ◌-◌, ◌≤◌, ◌≡◌, ◌⊎◌, inl, inr, refl, ap, ◌∙◌, min, Option, Bool, not, ◌&&◌,
  ◌||◌, List, [], ◌∷◌, ◌++◌, arith, all, keep, last?, length, take, drop, leb, nat_eq, Bool-cases,
  if◌then◌else◌,
}

abbrev pub Bytes : Type 0
Bytes = List ℕ

abbrev pub newline : ℕ
newline = 10

-- `buf.count(b"\n")`
unfoldable pub count : Bytes → ℕ
count [] = 0
count (c ∷ s) = (if nat_eq c newline then 1 else 0) + count s

abbrev pub prepend : ℕ → List Bytes → List Bytes
prepend c [] = (c ∷ []) ∷ []
prepend c (l ∷ ls) = (c ∷ l) ∷ ls

-- `buf.split(b"\n")`
unfoldable pub split_lines : Bytes → List Bytes
split_lines [] = [] ∷ []
split_lines (c ∷ s) =
    let rest = split_lines s in if nat_eq c newline then [] ∷ rest else prepend c rest

-- The white space of `bytes.strip`.
unfoldable pub is_white : ℕ → Bool
is_white c = (leb 9 c && leb c 13) || nat_eq c 32

abbrev pub is_written_line : Bytes → Bool
is_written_line line = not (all is_white line)

-- The bytes from `pos` on for `step` bytes.
abbrev pub slice : Bytes → ℕ → ℕ → Bytes
slice file pos step = take step (drop pos file)

-- The loop; the position falls in each round, so as many rounds as the file has bytes are enough.
unfoldable pub read_back : ℕ → Bytes → ℕ → Bytes → Bytes
read_back zero file pos buf = buf
read_back (suc fuel) file pos buf =
    let step = min 4096 pos in
    let grown = slice file (pos - step) step ++ buf in
    let more = read_back fuel file (pos - step) grown in
    if nat_eq pos 0 then buf else if leb 2 (count grown) then grown else more

-- The line that `_tail_record` parses.
unfoldable pub tail_line : Bytes → Option Bytes
tail_line file =
    last? (keep is_written_line (split_lines (read_back (length file) file (length file) [])))

length-drop : (xs : Bytes) (n : ℕ) → length (drop n xs) ≡ length xs - n
length-drop [] zero = omega arith
length-drop [] (suc n) = omega arith
length-drop (x ∷ xs) zero = omega arith
length-drop (x ∷ xs) (suc n) = omega (arith, length-drop xs n)

-- A slice that ends where another begins.
slice-append :
    (xs : Bytes) (n k m : ℕ)
    → m ≡ n + k
    → m ≤ length xs
    → take k (drop n xs) ++ drop m xs ≡ drop n xs
slice-append xs zero zero zero e h = refl
slice-append xs zero zero (suc m) e h = absurd (omega (arith, e))
slice-append xs zero (suc k) zero e h = absurd (omega (arith, e))
slice-append [] zero (suc k) (suc m) e h = absurd (omega (arith, h))
slice-append (x ∷ xs) zero (suc k) (suc m) e h =
    ap (λ (l : Bytes). x ∷ l) (slice-append xs zero k m (omega (arith, e)) (omega (arith, h)))
slice-append xs (suc n) k zero e h = absurd (omega (arith, e))
slice-append [] (suc n) k (suc m) e h = absurd (omega (arith, h))
slice-append (x ∷ xs) (suc n) k (suc m) e h =
    slice-append xs n k m (omega (arith, e)) (omega (arith, h))

pub drop-length : (xs : Bytes) → drop (length xs) xs ≡ []
drop-length [] = refl
drop-length (x ∷ xs) = drop-length xs

-- What the loop has read when it ends: all from some place on, and either the whole file or two line
-- ends.
abbrev pub IsTail : Bytes → Bytes → Type 0
IsTail file buf =
    (pos : ℕ) × (buf ≡ drop pos file) × (pos ≤ length file) × ((pos ≡ 0) ⊎ (2 ≤ count buf))

-- Enough rounds: the loop ends by its own test.
pub read_back-IsTail :
    (fuel : ℕ) (file : Bytes) (pos : ℕ) (buf : Bytes)
    → pos ≤ fuel
    → pos ≤ length file
    → buf ≡ drop pos file
    → IsTail file (read_back fuel file pos buf)
unfolding read_back
read_back-IsTail zero file pos buf low high e = (pos, e, high, inl (omega (arith, low)))
read_back-IsTail (suc fuel) file pos buf low high e = elim (Bool-cases (nat_eq pos 0)) [
  | inl z ↦ rw z (pos, e, high, inl (ground (arith, z)))
  | inr nz ↦
      let step = min 4096 pos in
      let grown = slice file (pos - step) step ++ buf in
      let joined : grown ≡ drop (pos - step) file =
        ap (λ (b : Bytes). slice file (pos - step) step ++ b) e
        ∙ slice-append file (pos - step) step pos (omega arith) high in
      elim (Bool-cases (leb 2 (count grown))) [
        | inl two ↦
            rw (nz, two) (pos - step, joined, omega (arith, high), inr (ground (arith, two)))
        | inr one ↦
            rw (nz, one)
              (read_back-IsTail fuel file (pos - step) grown (ground (arith, low, nz))
                (omega (arith, high)) joined)
      ]
]

pub count-append : (xs ys : Bytes) → count (xs ++ ys) ≡ count xs + count ys
unfolding count
count-append [] ys = omega arith
count-append (x ∷ xs) ys = omega (arith, count-append xs ys)

-- The place is before the second part, or in it.
pub drop-append :
    (xs ys : Bytes) (n : ℕ)
    → (drop n (xs ++ ys) ≡ drop n xs ++ ys) ⊎ ((k : ℕ) × (drop n (xs ++ ys) ≡ drop k ys))
drop-append xs ys zero = inl refl
drop-append [] ys (suc n) = inr (suc n, refl)
drop-append (x ∷ xs) ys (suc n) = drop-append xs ys n

pub count-drop : (n : ℕ) (xs : Bytes) → count (drop n xs) ≤ count xs
unfolding count
count-drop zero xs = omega arith
count-drop (suc n) [] = omega arith
count-drop (suc n) (x ∷ xs) = omega (arith, count-drop n xs)

-- Whole lines.
abbrev pub IsWhole : Bytes → Type 0
IsWhole b = (b ≡ []) ⊎ ((c : Bytes) × (b ≡ c ++ newline ∷ []))

drop-nil : (n : ℕ) → drop {A = ℕ} n [] ≡ []
drop-nil zero = refl
drop-nil (suc n) = refl

drop_last : (k n : ℕ) → (drop k (n ∷ []) ≡ n ∷ []) ⊎ (drop k (n ∷ []) ≡ [])
drop_last zero n = inl refl
drop_last (suc k) n = inr (drop-nil k)

pub IsWhole-drop : (n : ℕ) (b : Bytes) → IsWhole b → IsWhole (drop n b)
IsWhole-drop n b (inl e) = inl (rw e (drop-nil n))
IsWhole-drop n b (inr (c, e)) = elim (drop-append c (newline ∷ []) n) [
  | inl d ↦ inr (drop n c, ap (λ (l : Bytes). drop n l) e ∙ d)
  | inr (k, d) ↦ elim (drop_last k newline) [
    | inl f ↦ inr ([], ap (λ (l : Bytes). drop n l) e ∙ d ∙ f)
    | inr f ↦ inl (ap (λ (l : Bytes). drop n l) e ∙ d ∙ f)
  ]
]
