-- ===== src/Misc/ExpandEnv/Grammar.antt =====
-- The expansion of internal/misc/expandenv.go written without positions: the text is read once, from
-- left to right, and each byte is either kept, or held back while it may belong to a variable.
use kubauth.Base.{ℕ, ◌+◌, List, [], ◌∷◌, ◌++◌, eqb, if◌then◌else◌}
use kubauth.Misc.ExpandEnv.{Outcome, expanded, missing_variable, fault, is_alphanumeric, is_empty}

-- What is held back: nothing, a dollar, or a dollar, a brace and the name so far.
pub data Reading : Type 0 where
  text : Reading
  dollar : Reading
  name : List ℕ → Reading

abbrev pub held : Reading → List ℕ
held text = []
held dollar = b'$' ∷ []
held (name v) = b'$' ∷ b'{' ∷ v

abbrev pub prepend : List ℕ → Outcome → Outcome
prepend bs (expanded out) = expanded (bs ++ out)
prepend bs (missing_variable line variable) = missing_variable line variable
prepend bs fault = fault

abbrev pub count_line : ℕ → ℕ → ℕ
count_line b line = if eqb b b'\n' then line + 1 else line

module _ (getenv : List ℕ → List ℕ) where
  unfoldable pub expansion : ℕ → Reading → List ℕ → Outcome
  unfolding is_alphanumeric is_empty
  expansion line r [] = expanded (held r)
  expansion line text (b ∷ rest) =
      let opened = expansion (count_line b line) dollar rest in
      let kept = prepend (b ∷ []) (expansion (count_line b line) text rest) in
      if eqb b b'$' then opened else kept
  expansion line dollar (b ∷ rest) =
      let opened = expansion (count_line b line) (name []) rest in
      let kept = prepend (b'$' ∷ b ∷ []) (expansion (count_line b line) text rest) in
      if eqb b b'{' then opened else kept
  expansion line (name v) (b ∷ rest) =
      let longer = expansion (count_line b line) (name (v ++ b ∷ [])) rest in
      let closed = prepend (getenv v) (expansion (count_line b line) text rest) in
      let kept = prepend (b'$' ∷ b'{' ∷ (v ++ b ∷ [])) (expansion (count_line b line) text rest) in
      if eqb b b'}'
      then (if is_empty (getenv v) then missing_variable (count_line b line) v else closed)
      else if is_alphanumeric b
      then longer
      else kept
