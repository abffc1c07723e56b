-- ===== src/Json/Scanner.antt =====
-- A reader of the text that Json.antt prints: it counts brackets outside strings, and so finds where a
-- value or a key ends.
use regulatory_compliance_he.Prelude.{
  Text, ℕ, zero, suc, ◌≡◌, ap, Option, none, some, Bool, ◌||◌, [], ◌∷◌, ◌++◌, nat_eq, if◌then◌else◌,
}

-- Between the tokens, in a string, and after a backslash in a string.
pub data Mode : Type 0 where
  plain : Mode
  inside : Mode
  escaped : Mode

-- The open brackets and the mode.
abbrev pub State : Type 0
State = ℕ × Mode

abbrev opens : ℕ → Bool
opens c = nat_eq c b'[' || nat_eq c b'{'

abbrev closes : ℕ → Bool
closes c = nat_eq c b']' || nat_eq c b'}'

abbrev separates : ℕ → Bool
separates c = nat_eq c b',' || nat_eq c b':'

-- Outside every bracket, a bracket that closes or a separator ends the value.
abbrev bound : ℕ → ℕ → Option State
bound zero c = none
bound (suc n) c = if closes c then some (n, plain) else some (suc n, plain)

unfoldable pub step : State → ℕ → Option State
step (n, plain) c =
    if nat_eq c b'"'
    then some (n, inside)
    else if opens c
    then some (suc n, plain)
    else if closes c || separates c
    then bound n c
    else some (n, plain)
step (n, inside) c =
    if nat_eq c b'"'
    then some (n, plain)
    else if nat_eq c b'\\'
    then some (n, escaped)
    else some (n, inside)
step (n, escaped) c = some (n, inside)

abbrev continue_run : Option State → (State → Option State) → Option State
continue_run none f = none
continue_run (some s) f = f s

-- The state after a text, if the value does not end before.
unfoldable pub run : State → Text → Option State
unfolding step
run s [] = some s
run s (c ∷ t) = continue_run (step s c) (λ s'. run s' t)

abbrev continue_cut : Option State → (State → Text × Text) → ℕ → Text → Text × Text
continue_cut none f c t = ([], c ∷ t)
continue_cut (some s) f c t = (c ∷ (f s).0, (f s).1)

-- The text as far as the value goes, and the rest.
unfoldable pub cut : State → Text → Text × Text
unfolding step
cut s [] = ([], [])
cut s (c ∷ t) = continue_cut (step s c) (λ s'. cut s' t) c t

run-append_step :
    (x : Option State) (t r : Text) (s' s'' : State)
    → ((s : State) → run s t ≡ some s' → run s' r ≡ some s'' → run s (t ++ r) ≡ some s'')
    → continue_run x (λ s. run s t) ≡ some s'
    → run s' r ≡ some s''
    → continue_run x (λ s. run s (t ++ r)) ≡ some s''
run-append_step none t r s' s'' ih e f = cc
run-append_step (some s) t r s' s'' ih e f = ih s e f

pub run-append :
    (t r : Text) (s s' s'' : State)
    → run s t ≡ some s'
    → run s' r ≡ some s''
    → run s (t ++ r) ≡ some s''
unfolding run
run-append [] r s s' s'' e f = cc
run-append (c ∷ t) r s s' s'' e f =
    run-append_step (step s c) t r s' s'' (λ s. run-append t r s s' s'') e f

cut-append_step :
    (x : Option State) (c : ℕ) (t r : Text) (s' : State)
    → ((s : State) → run s t ≡ some s' → cut s (t ++ r) ≡ (t ++ (cut s' r).0, (cut s' r).1))
    → continue_run x (λ s. run s t) ≡ some s'
    → continue_cut x (λ s. cut s (t ++ r)) c (t ++ r) ≡ (c ∷ (t ++ (cut s' r).0), (cut s' r).1)
cut-append_step none c t r s' ih e = cc
cut-append_step (some s) c t r s' ih e = ap (λ (p : Text × Text). (c ∷ p.0, p.1)) (ih s e)

pub cut-append :
    (t r : Text) (s s' : State)
    → run s t ≡ some s'
    → cut s (t ++ r) ≡ (t ++ (cut s' r).0, (cut s' r).1)
unfolding cut run
cut-append [] r s s' e = cc
cut-append (c ∷ t) r s s' e = cut-append_step (step s c) c t r s' (λ s. cut-append t r s s') e
