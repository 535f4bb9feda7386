-- ===== src/Misc/ExpandEnv.antt =====
-- internal/misc/expandenv.go. A Go string is the list of its bytes; `os.Getenv` is the argument
-- `getenv`, which returns the empty text for a variable that is not set.
pub mod Grammar
pub mod Laws
pub mod Templates
use kubauth.Base.{
  ℕ, ◌+◌, ◌-◌, Bool, true, false, ◌&&◌, ◌||◌, Option, none, some, List, [], ◌∷◌, ◌++◌, leb, eqb,
  if◌then◌else◌, length, take, drop,
}

pub data State : Type 0 where
  nominal after_token in_var : State

-- `fault` is the panic of a slice expression with an end that is not a position.
pub data Outcome : Type 0 where
  expanded : List ℕ → Outcome
  missing_variable : (line : ℕ) (variable : List ℕ) → Outcome
  fault : Outcome

-- The local variables of `ExpandEnv`; `chunk_end` is `none` for its -1.
pub record Locals : Type 0 where
  pub output : List ℕ
  pub variable : List ℕ
  pub chunk_start : ℕ
  pub line : ℕ
  pub state : State
  pub chunk_end : Option ℕ

unfoldable pub is_alphanumeric : ℕ → Bool
is_alphanumeric b =
    (leb b'a' b && leb b b'z')
    || (leb b'A' b && leb b b'Z')
    || (leb b'0' b && leb b b'9')
    || eqb b b'_'

-- `s[from:to]`
abbrev pub between : List ℕ → ℕ → ℕ → List ℕ
between s from to = drop from (take to s)

pub data Step : Type 0 where
  goes_on : Locals → Step
  stops : Outcome → Step

unfoldable pub is_empty : List ℕ → Bool
is_empty [] = true
is_empty (b ∷ bs) = false

module _ (getenv : List ℕ → List ℕ) (s : List ℕ) where
  -- `output = append(output, s[chunkStart:chunkEnd]...)` and the value, at the closing brace.
  close_variable : Option ℕ → List ℕ → ℕ → Locals → Step
  close_variable none value i l = stops fault
  close_variable (some end) value i l = goes_on (record l {
    output = l.output ++ (between s l.chunk_start end ++ value);
    chunk_start = i + 1;
    chunk_end = none;
    state = nominal;
  })

  -- The `switch` on the state, for the byte `b` at position `i`.
  dispatch : State → ℕ → ℕ → Locals → Step
  unfolding close_variable is_alphanumeric is_empty
  dispatch nominal i b l =
      if eqb b b'$'
      then goes_on (record l { state = after_token; chunk_end = some i })
      else goes_on l
  dispatch after_token i b l =
      if eqb b b'{'
      then goes_on (record l { state = in_var; variable = [] })
      else goes_on (record l { state = nominal; chunk_end = none })
  dispatch in_var i b l =
      if eqb b b'}'
      then (let value = getenv l.variable in
          if is_empty value
          then stops (missing_variable l.line l.variable)
          else close_variable l.chunk_end value i l)
      else if is_alphanumeric b
      then goes_on (record l { variable = l.variable ++ b ∷ [] })
      else goes_on (record l { state = nominal; chunk_end = none })

  -- One round of the loop.
  round : ℕ → ℕ → Locals → Step
  unfolding dispatch
  round i b l =
      let l' : Locals = record l { line = if eqb b b'\n' then l.line + 1 else l.line } in
      dispatch l'.state i b l'

  -- The loop from position `i`, over the bytes that are left, and what follows it.
  scan : ℕ → List ℕ → Locals → Outcome
  scan i [] l = expanded (l.output ++ drop l.chunk_start s)
  scan i (b ∷ rest) l = elim (round i b l) [ stops o ↦ o | goes_on l' ↦ scan (i + 1) rest l' ]

abbrev start : Locals
start = record {
  output = [];
  variable = [];
  chunk_start = 0;
  line = 1;
  state = nominal;
  chunk_end = none;
}

unfoldable pub expand_env : (List ℕ → List ℕ) → List ℕ → Outcome
unfolding scan round
expand_env getenv s = scan getenv s 0 s start
