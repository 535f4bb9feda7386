-- ===== src/Oidc/Upstream/Laws.antt =====
-- The renaming and the cleanup of the claims of an upstream provider.
use kubauth.Base.{
  ◌≡◌, refl, ◌∙◌, ap, ◌⊎◌, inl, inr, String, Bool, true, false, Option, none, some, List, [], ◌∷◌,
  ◌||◌, ◌&&◌, not, arith, ◌==◌, eq_iff, if◌then◌else◌, Bool-cases, contains,
}
use kubauth.Misc.Claims.{Value, Claims, get, delete}
use kubauth.Misc.Claims.Merge.{get-put, get-delete, UniqueKeys, put-UniqueKeys, delete-UniqueKeys}
use kubauth.Oidc.Upstream.{
  oidc_id_token_registered_claims, delete_all, remove_all, cleanup_claims, move_by, move_found,
  apply_rule, perform_renaming, RenamingOperation, ClaimRenamingSpec, copy, rename,
}

-- The key goes away in a cleanup.
abbrev pub is_removed : List String → String → Bool
is_removed removals k =
    contains oidc_id_token_registered_claims k || (not (k == "") && contains removals k)

get-delete_all :
    (ks : List String) (k : String) (m : Claims)
    → get k (delete_all ks m) ≡ (if contains ks k then none else get k m)
unfolding delete_all
get-delete_all [] k m = refl
get-delete_all (j ∷ ks) k m = ground (arith, get-delete_all ks k (delete j m), get-delete j k m)

get-remove_all :
    (ks : List String) (k : String) (m : Claims)
    → get k (remove_all ks m) ≡ (if not (k == "") && contains ks k then none else get k m)
unfolding remove_all
get-remove_all [] k m = ground arith
get-remove_all (j ∷ ks) k m = elim (Bool-cases (j == "")) [
  | inl h ↦ rw h (ground (arith, h, get-remove_all ks k m, eq_iff j "", eq_iff k "", eq_iff j k))
  | inr h ↦ rw h (
      ground (
        arith,
        h,
        get-remove_all ks k (delete j m),
        get-delete j k m,
        eq_iff j k,
        eq_iff j "",
        eq_iff k "",
      ))
]

-- A cleanup removes the claims that OpenID Connect registers for ID tokens and the ones that the
-- specification lists, and keeps the value of every other claim; an empty name in the list counts
-- for nothing.
pub cleanup_claims_lem :
    (claim_removals : List String) (k : String) (m : Claims)
    → get k (cleanup_claims claim_removals m)
      ≡ (if is_removed claim_removals k then none else get k m)
unfolding cleanup_claims
cleanup_claims_lem removals k m = ground (
  arith,
  get-remove_all removals k (delete_all oidc_id_token_registered_claims m),
  get-delete_all oidc_id_token_registered_claims k m,
)

operation-cases : (o : RenamingOperation) → (o ≡ copy) ⊎ (o ≡ rename)
operation-cases copy = inl refl
operation-cases rename = inr refl

-- A set of claims seen as a function of the name, and a renaming of that function.
abbrev pub View : Type 0
View = String → Option Value

abbrev is_rename : RenamingOperation → Bool
is_rename copy = false
is_rename rename = true

-- The value moves to the new name, whatever stood there, and a rename leaves nothing at the old one.
abbrev moved : ClaimRenamingSpec → Option Value → View → View
moved rule none f k = f k
moved rule (some v) f k =
    if rule.new_name == k
    then some v
    else if is_rename rule.operation && (rule.old_name == k)
    then none
    else f k

abbrev by_rule : ClaimRenamingSpec → View → View
by_rule rule f =
    if rule.old_name == "" || rule.new_name == "" then f else moved rule (f rule.old_name) f

abbrev pub by_rules : List ClaimRenamingSpec → View → View
by_rules [] f = f
by_rules (rule ∷ rules) f = by_rules rules (by_rule rule f)

get-move_by :
    (rule : ClaimRenamingSpec) (v : Value) (m : Claims) (k : String)
    → get k (move_by rule.operation rule v m) ≡ moved rule (some v) (λ j. get j m) k
unfolding move_by
get-move_by rule v m k = elim (operation-cases rule.operation) [
  | inl h ↦ rw h (ground (arith, get-put rule.new_name k v m))
  | inr h ↦ rw h (
      ground
        (arith, get-put rule.new_name k v (delete rule.old_name m), get-delete rule.old_name k m))
]

get-move_found :
    (rule : ClaimRenamingSpec) (o : Option Value) (m : Claims) (k : String)
    → get k (move_found rule o m) ≡ moved rule o (λ j. get j m) k
unfolding move_found
get-move_found rule none m k = refl
get-move_found rule (some v) m k = get-move_by rule v m k

get-apply_rule :
    (rule : ClaimRenamingSpec) (m : Claims) (k : String)
    → get k (apply_rule rule m) ≡ by_rule rule (λ j. get j m) k
unfolding apply_rule
get-apply_rule rule m k = elim (Bool-cases (rule.old_name == "" || rule.new_name == "")) [
  | inl h ↦ rw h refl
  | inr h ↦ rw h (get-move_found rule (get rule.old_name m) m k)
]

-- The claims that the renaming returns, seen as a function of the name, are those of the rules
-- applied one after the other to that function: a rule with an empty name and one whose old name is
-- not there do nothing, a copy sets the new name, a rename also takes the old name away, unless it
-- is the new one. Order and representation of the set play no part.
pub perform_renaming_lem :
    (rules : List ClaimRenamingSpec) (m : Claims) (k : String)
    → get k (perform_renaming rules m) ≡ by_rules rules (λ j. get j m) k
unfolding perform_renaming
perform_renaming_lem [] m k = refl
perform_renaming_lem (rule ∷ rules) m k =
    perform_renaming_lem rules (apply_rule rule m) k
    ∙ ap (λ (f : View). by_rules rules f k) (λ i j. get-apply_rule rule m j i)

move_found-UniqueKeys :
    (rule : ClaimRenamingSpec) (o : Option Value) (m : Claims)
    → UniqueKeys m
    → UniqueKeys (move_found rule o m)
unfolding move_found move_by
move_found-UniqueKeys rule none m u = u
move_found-UniqueKeys rule (some v) m u = elim (operation-cases rule.operation) [
  | inl h ↦ rw h (put-UniqueKeys rule.new_name v m u)
  | inr h ↦ rw h (
      put-UniqueKeys rule.new_name v (delete rule.old_name m) (delete-UniqueKeys rule.old_name m u))
]

pub perform_renaming-UniqueKeys :
    (rules : List ClaimRenamingSpec) (m : Claims)
    → UniqueKeys m
    → UniqueKeys (perform_renaming rules m)
unfolding perform_renaming apply_rule
perform_renaming-UniqueKeys [] m u = u
perform_renaming-UniqueKeys (rule ∷ rules) m u =
    perform_renaming-UniqueKeys rules (apply_rule rule m)
      (elim (Bool-cases (rule.old_name == "" || rule.new_name == "")) [
        | inl h ↦ rw h u
        | inr h ↦ rw h (move_found-UniqueKeys rule (get rule.old_name m) m u)
      ])
