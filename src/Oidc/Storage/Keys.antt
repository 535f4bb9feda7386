-- ===== src/Oidc/Storage/Keys.antt =====
-- cmd/oidc/oidcstorage/memory.go: the public keys of the issuers.
use kubauth.Base.{String, Option, none, some, List, [], ◌∷◌, map, Dict, lookup}
use mathlib.Core.Option
use kubauth.Oidc.Storage.{Fetched, fetched, PublicKeyScopes, MemoryStore, not_found}

-- The keys of a subject; the maps are those of the store, or absent.
unfoldable pub find_keys :
    {K : Type 0}
    → Option (Dict (Dict (PublicKeyScopes K)))
    → String
    → Option (Dict (PublicKeyScopes K))
find_keys none subject = none
find_keys (some by_sub) subject = lookup subject by_sub

unfoldable pub find_key :
    {K : Type 0} → Option (Dict (PublicKeyScopes K)) → String → Option (PublicKeyScopes K)
find_key none key_id = none
find_key (some keys) key_id = lookup key_id keys

-- No key is as no subject.
unfoldable pub all_keys : {K : Type 0} → Option (Dict (PublicKeyScopes K)) → Fetched (List K)
all_keys none = (none, some not_found)
all_keys (some []) = (none, some not_found)
all_keys (some (x ∷ xs)) = (some (map (λ y. y.1.key) (x ∷ xs)), none)

module _ {R U K : Type 0} where
  unfoldable pub subject_keys :
      MemoryStore R U K → String → String → Option (Dict (PublicKeyScopes K))
  unfolding find_keys
  subject_keys s issuer subject = find_keys (lookup issuer s.issuer_public_keys) subject

  unfoldable pub get_public_key : MemoryStore R U K → String → String → String → Fetched K
  unfolding subject_keys find_key
  get_public_key s issuer subject key_id =
      fetched (Option.map (λ x. x.key) (find_key (subject_keys s issuer subject) key_id))

  unfoldable pub get_public_key_scopes :
      MemoryStore R U K → String → String → String → Fetched (List String)
  unfolding subject_keys find_key
  get_public_key_scopes s issuer subject key_id =
      fetched (Option.map (λ x. x.scopes) (find_key (subject_keys s issuer subject) key_id))

  unfoldable pub get_public_keys : MemoryStore R U K → String → String → Fetched (List K)
  unfolding subject_keys all_keys
  get_public_keys s issuer subject = all_keys (subject_keys s issuer subject)
