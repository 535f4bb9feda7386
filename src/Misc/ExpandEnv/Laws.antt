-- ===== src/Misc/ExpandEnv/Laws.antt =====
-- `ExpandEnv` of internal/misc/expandenv.go computes the expansion of the grammar.
use mathlib.Core.List.{append_assoc, append-nil}
use kubauth.Base.{
  ℕ, ◌+◌, if◌then◌else◌, ◌≡◌, refl, sym, ap, ◌∙◌, ◌≢◌, inl, inr, none, some, List, [], ◌∷◌, ◌++◌,
  arith, eqb, Bool-cases, length, length-append, drop-append, take-append, Option,
}
use kubauth.Misc.ExpandEnv.{
  nominal, after_token, in_var, State, Outcome, expanded, missing_variable, fault, Locals,
  is_alphanumeric, is_empty, between, stops, goes_on, round, scan, expand_env,
}
use kubauth.Misc.ExpandEnv.Grammar.{
  Reading, text, dollar, name, held, prepend, count_line, expansion,
}

pub prepend-prepend :
    (xs bs : List ℕ) (o : Outcome) → prepend (xs ++ bs) o ≡ prepend xs (prepend bs o)
prepend-prepend xs bs (expanded out) = ap expanded (append_assoc xs bs out)
prepend-prepend xs bs (missing_variable line v) = refl
prepend-prepend xs bs fault = refl

between-append :
    (done lit rest : List ℕ)
    → between (done ++ (lit ++ rest)) (length done) (length done + length lit) ≡ lit
between-append done lit rest =
    rw (← append_assoc done lit rest, ← length-append done lit, take-append (done ++ lit) rest)
      (drop-append done lit)

abbrev state_of : Reading → State
state_of text = nominal
state_of dollar = after_token
state_of (name v) = in_var

abbrev variable_of : Reading → List ℕ → List ℕ
variable_of text stale = stale
variable_of dollar stale = stale
variable_of (name v) stale = v

abbrev end_of : Reading → ℕ → Option ℕ
end_of text end = none
end_of dollar end = some end
end_of (name v) end = some end

-- The locals while `r` is held back: what stands before `from` is done, and the bytes from there up
-- to `end` are kept.
abbrev locals_of : Reading → List ℕ → List ℕ → ℕ → ℕ → ℕ → Locals
locals_of r output stale from end line = record {
  output = output;
  variable = variable_of r stale;
  chunk_start = from;
  line = line;
  state = state_of r;
  chunk_end = end_of r end;
}

module _ (getenv : List ℕ → List ℕ) (s : List ℕ) where
  module _ (output stale : List ℕ) (i from end line b : ℕ) where
    round-text :
        round getenv s i b (locals_of text output stale from end line)
        ≡ goes_on (
            if eqb b b'$'
            then locals_of dollar output stale from i (count_line b line)
            else locals_of text output stale from end (count_line b line))
    unfolding round
    round-text = ground arith

    round-dollar :
        round getenv s i b (locals_of dollar output stale from end line)
        ≡ goes_on (
            if eqb b b'{'
            then locals_of (name []) output stale from end (count_line b line)
            else locals_of text output stale from end (count_line b line))
    unfolding round
    round-dollar = ground arith

    round-name :
        (v : List ℕ)
        → round getenv s i b (locals_of (name v) output stale from end line) ≡ (
            if eqb b b'}'
            then (if is_empty (getenv v)
                then stops (missing_variable (count_line b line) v)
                else goes_on (
                    locals_of text
                      (output ++ (between s from end ++ getenv v))
                      v
                      (i + 1)
                      end
                      (count_line b line)))
            else if is_alphanumeric b
            then goes_on (locals_of (name (v ++ b ∷ [])) output stale from end (count_line b line))
            else goes_on (locals_of text output v from end (count_line b line)))
    unfolding round
    round-name v = ground arith

  -- One more byte is kept: it joins the literal.
  keep_bytes :
      (done lit bytes rest : List ℕ) {t : List ℕ}
      → s ≡ done ++ (lit ++ t)
      → t ≡ bytes ++ rest
      → s ≡ done ++ ((lit ++ bytes) ++ rest)
  keep_bytes done lit bytes rest e h = ground (arith, append_assoc lit bytes rest)

  keep_output :
      (output lit bytes : List ℕ) (o : Outcome)
      → prepend (output ++ (lit ++ bytes)) o ≡ prepend (output ++ lit) (prepend bytes o)
  keep_output output lit bytes o =
      ap (λ (l : List ℕ). prepend l o) (sym (append_assoc output lit bytes))
      ∙ prepend-prepend (output ++ lit) bytes o

  -- Behind a closing brace everything is done.
  after_close :
      (done lit bytes rest : List ℕ) {t : List ℕ}
      → s ≡ done ++ (lit ++ t)
      → t ≡ bytes ++ rest
      → s ≡ (done ++ (lit ++ bytes)) ++ rest
  after_close done lit bytes rest e h =
      ground (arith, append_assoc lit bytes rest, append_assoc done (lit ++ bytes) rest)

  close_position :
      (done lit v : List ℕ) (b : ℕ)
      → length (done ++ (lit ++ b'$' ∷ b'{' ∷ (v ++ b ∷ [])))
        ≡ length done + length lit + length v + 3
  close_position done lit v b = omega (
    arith,
    length-append done (lit ++ b'$' ∷ b'{' ∷ (v ++ b ∷ [])),
    length-append lit (b'$' ∷ b'{' ∷ (v ++ b ∷ [])),
    length-append v (b ∷ []),
  )

  close_output :
      (done lit t value output : List ℕ) (from end : ℕ)
      → s ≡ done ++ (lit ++ t)
      → from ≡ length done
      → end ≡ length done + length lit
      → (o : Outcome)
      → prepend ((output ++ (between s from end ++ value)) ++ []) o
        ≡ prepend (output ++ lit) (prepend value o)
  close_output done lit t value output from end e hf he o =
      rw
        (append-nil (output ++ (between s from end ++ value)), e, hf, he, between-append done lit t)
        (keep_output output lit value o)

  -- While `r` is held back, the loop returns the output, the literal read since the last variable,
  -- and the expansion of the rest.
  scan-eq-expansion :
      (rest : List ℕ) (r : Reading) (done lit output stale : List ℕ) (i from end line : ℕ)
      → s ≡ done ++ (lit ++ (held r ++ rest))
      → i ≡ length done + length lit + length (held r)
      → from ≡ length done
      → end ≡ length done + length lit
      → scan getenv s i rest (locals_of r output stale from end line)
        ≡ prepend (output ++ lit) (expansion getenv line r rest)
  unfolding scan expansion
  scan-eq-expansion [] r done lit output stale i from end line e hi hf he = ground (
    arith,
    drop-append done (lit ++ (held r ++ [])),
    append_assoc output lit (held r),
    append-nil (held r),
  )
  scan-eq-expansion (b ∷ rest) text done lit output stale i from end line e hi hf he =
      elim (Bool-cases (eqb b b'$')) [
        | inl h ↦
            rw (round-text output stale i from end line b, scan, h)
              (scan-eq-expansion rest dollar done lit output stale (i + 1) from i
                (count_line b line) (ground arith) (omega arith) hf (omega arith))
        | inr h ↦
            rw (round-text output stale i from end line b, scan, h)
              (scan-eq-expansion rest text done (lit ++ b ∷ []) output stale (i + 1) from
                  (length done + length (lit ++ b ∷ [])) (count_line b line)
                  (keep_bytes done lit (b ∷ []) rest e refl)
                  (omega (arith, length-append lit (b ∷ []))) hf refl
                ∙ keep_output output lit (b ∷ []) _)
      ]
  scan-eq-expansion (b ∷ rest) dollar done lit output stale i from end line e hi hf he =
      elim (Bool-cases (eqb b b'{')) [
        | inl h ↦
            rw (round-dollar output stale i from end line b, scan, h)
              (scan-eq-expansion rest (name []) done lit output stale (i + 1) from end
                (count_line b line) (ground arith) (omega arith) hf he)
        | inr h ↦
            let bytes : List ℕ = b'$' ∷ b ∷ [] in
            rw (round-dollar output stale i from end line b, scan, h)
              (scan-eq-expansion rest text done (lit ++ bytes) output stale (i + 1) from
                  (length done + length (lit ++ bytes)) (count_line b line)
                  (keep_bytes done lit bytes rest e refl) (omega (arith, length-append lit bytes))
                  hf refl
                ∙ keep_output output lit bytes _)
      ]
  scan-eq-expansion (b ∷ rest) (name v) done lit output stale i from end line e hi hf he =
      let bytes = b'$' ∷ b'{' ∷ (v ++ b ∷ []) in
      let whole : (held (name v) ++ b ∷ rest) ≡ bytes ++ rest =
        ground (arith, append_assoc v (b ∷ []) rest) in
      let step = round-name output stale i from end line b v in
      elim (Bool-cases (eqb b b'}')) [
        | inl h ↦ elim (Bool-cases (is_empty (getenv v))) [
          | inl unset ↦ rw (step, scan, h, unset)
          | inr found ↦
              let done' = done ++ (lit ++ bytes) in
              let output' = output ++ (between s from end ++ getenv v) in
              rw (step, scan, h, found)
                (scan-eq-expansion rest text done' [] output' v (i + 1) (i + 1) (length done' + 0)
                    (count_line b line) (after_close done lit bytes rest e whole)
                    (omega (arith, close_position done lit v b))
                    (omega (arith, close_position done lit v b)) refl
                  ∙ close_output done lit (held (name v) ++ b ∷ rest) (getenv v) output from end e
                      hf he _)
        ]
        | inr h ↦ elim (Bool-cases (is_alphanumeric b)) [
          | inl alnum ↦
              rw (step, scan, h, alnum)
                (scan-eq-expansion rest (name (v ++ b ∷ [])) done lit output stale (i + 1) from end
                  (count_line b line) (ground (arith, whole))
                  (omega (arith, length-append v (b ∷ []))) hf he)
          | inr other ↦
              rw (step, scan, h, other)
                (scan-eq-expansion rest text done (lit ++ bytes) output v (i + 1) from
                    (length done + length (lit ++ bytes)) (count_line b line)
                    (keep_bytes done lit bytes rest e whole)
                    (omega (arith, length-append lit bytes, length-append v (b ∷ []))) hf refl
                  ∙ keep_output output lit bytes _)
        ]
      ]

pub prepend-nil : (o : Outcome) → prepend [] o ≡ o
prepend-nil (expanded out) = refl
prepend-nil (missing_variable line v) = refl
prepend-nil fault = refl

-- Whatever the text and the environment, the loop over positions returns the expansion that is
-- read off the text from left to right.
pub expand_env-eq-expansion :
    (getenv : List ℕ → List ℕ) (s : List ℕ) → expand_env getenv s ≡ expansion getenv 1 text s
unfolding expand_env
expand_env-eq-expansion getenv s =
    scan-eq-expansion getenv s s text [] [] [] [] 0 0 0 1 refl refl refl refl
    ∙ prepend-nil (expansion getenv 1 text s)

prepend-ne-fault : (bs : List ℕ) (o : Outcome) → o ≢ fault → prepend bs o ≢ fault
prepend-ne-fault bs (expanded out) h e = cc
prepend-ne-fault bs (missing_variable line v) h e = cc
prepend-ne-fault bs fault h e = h refl

expansion-ne-fault :
    (getenv : List ℕ → List ℕ) (line : ℕ) (r : Reading) (rest : List ℕ)
    → expansion getenv line r rest ≢ fault
unfolding expansion
expansion-ne-fault getenv line r [] e = cc
expansion-ne-fault getenv line text (b ∷ rest) e = ground (
  arith,
  expansion-ne-fault getenv (count_line b line) dollar rest,
  prepend-ne-fault (b ∷ []) _ (expansion-ne-fault getenv (count_line b line) text rest),
)
expansion-ne-fault getenv line dollar (b ∷ rest) e = ground (
  arith,
  expansion-ne-fault getenv (count_line b line) (name []) rest,
  prepend-ne-fault (b'$' ∷ b ∷ []) _ (expansion-ne-fault getenv (count_line b line) text rest),
)
expansion-ne-fault getenv line (name v) (b ∷ rest) e =
    let more = expansion-ne-fault getenv (count_line b line) text rest in
    ground (
      arith,
      expansion-ne-fault getenv (count_line b line) (name (v ++ b ∷ [])) rest,
      prepend-ne-fault (getenv v) _ more,
      prepend-ne-fault (b'$' ∷ b'{' ∷ (v ++ b ∷ [])) _ more,
    )

-- No slice of the text is taken out of its bounds: the function returns a text or an error.
pub expand_env-ne-fault : (getenv : List ℕ → List ℕ) (s : List ℕ) → expand_env getenv s ≢ fault
expand_env-ne-fault getenv s =
    rw (expand_env-eq-expansion getenv s) (expansion-ne-fault getenv 1 text s)
