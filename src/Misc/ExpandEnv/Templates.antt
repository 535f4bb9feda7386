-- ===== src/Misc/ExpandEnv/Templates.antt =====
-- Texts made of literals and variables, and what internal/misc/expandenv.go makes of them.
use mathlib.Core.List.{append_assoc, append-nil}
use kubauth.Base.{
  ℕ, ◌≡◌, refl, sym, ap, ◌∙◌, true, false, List, [], ◌∷◌, ◌++◌, arith, eqb, if◌then◌else◌, All,
}
use kubauth.Misc.ExpandEnv.{
  Outcome, expanded, missing_variable, is_alphanumeric, is_empty, expand_env,
}
use kubauth.Misc.ExpandEnv.Grammar.{text, name, prepend, count_line, expansion}
use kubauth.Misc.ExpandEnv.Laws.{expand_env-eq-expansion, prepend-prepend, prepend-nil}

pub data Piece : Type 0 where
  literal : List ℕ → Piece
  variable : List ℕ → Piece

abbrev pub render : List Piece → List ℕ
render [] = []
render (literal bs ∷ ps) = bs ++ render ps
render (variable v ∷ ps) = b'$' ∷ b'{' ∷ (v ++ b'}' ∷ render ps)

-- Literals hold no dollar, and names are of letters, digits and underscores.
abbrev pub WellFormed : List Piece → Type 0
WellFormed [] = Unit
WellFormed (literal bs ∷ ps) = All (λ b. eqb b b'$' ≡ false) bs × WellFormed ps
WellFormed (variable v ∷ ps) = All (λ b. is_alphanumeric b ≡ true) v × WellFormed ps

abbrev pub count_lines : List ℕ → ℕ → ℕ
count_lines [] line = line
count_lines (b ∷ bs) line = count_lines bs (count_line b line)

-- Literals stand for themselves and variables for their values; the first one with no value is
-- the error, at the line where it stands.
unfoldable pub meaning : (List ℕ → List ℕ) → ℕ → List Piece → Outcome
meaning getenv line [] = expanded []
meaning getenv line (literal bs ∷ ps) = prepend bs (meaning getenv (count_lines bs line) ps)
meaning getenv line (variable v ∷ ps) =
    let rest = prepend (getenv v) (meaning getenv line ps) in
    if is_empty (getenv v) then missing_variable line v else rest

module _ (getenv : List ℕ → List ℕ) where
  expansion-literal :
      (line : ℕ) (bs rest : List ℕ)
      → All (λ b. eqb b b'$' ≡ false) bs
      → expansion getenv line text (bs ++ rest)
        ≡ prepend bs (expansion getenv (count_lines bs line) text rest)
  unfolding expansion
  expansion-literal line [] rest h = sym (prepend-nil _)
  expansion-literal line (b ∷ bs) rest h = rw h.0 (
      ap (prepend (b ∷ [])) (expansion-literal (count_line b line) bs rest h.1)
      ∙ sym (prepend-prepend (b ∷ []) bs _))

  alphanumeric_other :
      (b line : ℕ) → is_alphanumeric b ≡ true → (eqb b b'}' ≡ false) × (count_line b line ≡ line)
  unfolding is_alphanumeric
  alphanumeric_other b line h = ground arith

  expansion-name :
      (line : ℕ) (u v rest : List ℕ)
      → All (λ b. is_alphanumeric b ≡ true) v
      → expansion getenv line (name u) (v ++ b'}' ∷ rest) ≡ (
          if is_empty (getenv (u ++ v))
          then missing_variable line (u ++ v)
          else prepend (getenv (u ++ v)) (expansion getenv line text rest))
  unfolding expansion
  expansion-name line u [] rest h = rw (append-nil u)
  expansion-name line u (b ∷ v) rest h =
      let other = alphanumeric_other b line h.0 in
      rw (other.0, h.0, other.1)
        (expansion-name line (u ++ b ∷ []) v rest h.1 ∙ rw (append_assoc u (b ∷ []) v))

  expansion-render :
      (line : ℕ) (ps : List Piece)
      → WellFormed ps
      → expansion getenv line text (render ps) ≡ meaning getenv line ps
  unfolding meaning expansion
  expansion-render line [] w = refl
  expansion-render line (literal bs ∷ ps) w =
      expansion-literal line bs (render ps) w.0
      ∙ ap (prepend bs) (expansion-render (count_lines bs line) ps w.1)
  expansion-render line (variable v ∷ ps) w =
      expansion-name line [] v (render ps) w.0 ∙ rw (expansion-render line ps w.1)

-- A text of literals and variables expands to its meaning: every variable gives way to its value,
-- and if one has no value the first such is the error, with the line that it stands on.
pub expand_env-render :
    (getenv : List ℕ → List ℕ) (ps : List Piece)
    → WellFormed ps
    → expand_env getenv (render ps) ≡ meaning getenv 1 ps
expand_env-render getenv ps w =
    expand_env-eq-expansion getenv (render ps) ∙ expansion-render getenv 1 ps w
