-- ===== src/Misc/Tests.antt =====
-- Runs of internal/misc.
use kubauth.Base.{◌≡◌, refl, some, List, [], ◌∷◌, ℕ, eqb, if◌then◌else◌}
use kubauth.Misc.Claims.{nil, str, strings, Claims, no_claims, claim, get, merge_maps}
use kubauth.Misc.ExpandEnv.{expand_env}
use kubauth.Misc.ExpandEnv.Grammar.{expansion, text}
use kubauth.Misc.ExpandEnv.Laws.{expand_env-eq-expansion}

abbrev base_claims : Claims
base_claims = claim "roles" (strings ("a" ∷ "b" ∷ [])) (claim "mail" (str "x") no_claims)

abbrev more_claims : Claims
more_claims = claim "roles" (strings ("b" ∷ "c" ∷ [])) (claim "mail" nil no_claims)

merged_roles :
    get "roles" (merge_maps base_claims more_claims) ≡ some (strings ("a" ∷ "b" ∷ "c" ∷ []))
unfolding get merge_maps
merged_roles = refl

mail_is_null : get "mail" more_claims ≡ some nil
unfolding get
mail_is_null = refl

-- The variables of the environment begin with A and have the value "!".
abbrev environment : List ℕ → List ℕ
environment [] = []
environment (b ∷ bs) = if eqb b 65 then 33 ∷ [] else []

expand_env-eq-expansion_example :
    expand_env environment (36 ∷ 123 ∷ 65 ∷ 125 ∷ [])
    ≡ expansion environment 1 text (36 ∷ 123 ∷ 65 ∷ 125 ∷ [])
expand_env-eq-expansion_example = expand_env-eq-expansion environment (36 ∷ 123 ∷ 65 ∷ 125 ∷ [])
