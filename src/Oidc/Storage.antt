-- ===== src/Oidc/Storage.antt =====
-- cmd/oidc/oidcstorage/memory.go: the store in memory. A requester is a value of the OIDC library
-- with an identifier, `get_id`; the values that the library fetches back, keys and upstreams are
-- only passed on. An operation runs under the mutexes of the maps it uses: it is one step.
pub mod Sessions
pub mod Keys
pub mod Steps
pub mod Codes
pub mod Tokens
pub mod Rotation
pub mod Assertions
pub mod Clients
use kubauth.Base.{
  String, Bool, true, false, Option, none, some, List, [], ◌∷◌, map, ◌==◌, ℕ, not, ltb,
  if◌then◌else◌, Dict, lookup, insert, erase,
}
use mathlib.Core.Option
use kubauth.Oidc.Client.{KubauthClient}

-- The errors of the store: `ErrNotFound`, `ErrInvalidatedAuthorizeCode`, `ErrInactiveToken`,
-- `ErrJTIKnown`, `ClientDuplicationError` with the owner of the client, and the failed type assertion.
pub data StoreError : Type 0 where
  not_found invalidated_authorize_code inactive_token jti_known no_custom_lifespans : StoreError
  client_duplication : String → StoreError

pub record StoreAuthorizeCode (R : Type 0) : Type 0 where
  pub active : Bool
  pub requester : R

pub record StoreRefreshToken (R : Type 0) : Type 0 where
  pub active : Bool
  pub access_token_signature : String
  pub requester : R

pub record PublicKeyScopes (K : Type 0) : Type 0 where
  pub key : K
  pub scopes : List String

-- `R` is a requester, `U` an upstream and `K` a key. Times are instants of a clock.
pub record MemoryStore (R U K : Type 0) : Type 0 where
  pub clients : Dict KubauthClient
  pub authorize_codes : Dict (StoreAuthorizeCode R)
  pub id_sessions : Dict R
  pub access_tokens : Dict R
  pub refresh_tokens : Dict (StoreRefreshToken R)
  pub pkces : Dict R
  pub blacklisted_jtis : Dict ℕ
  pub access_token_request_ids : Dict String
  pub refresh_token_request_ids : Dict String
  pub issuer_public_keys : Dict (Dict (Dict (PublicKeyScopes K)))
  pub par_sessions : Dict R
  pub upstreams : Dict U

-- What an operation that fetches yields: the value, the error, or both.
abbrev pub Fetched : Type 0 → Type 0
Fetched A = Option A × Option StoreError

abbrev pub fetched : {A : Type 0} → Option A → Fetched A
fetched none = (none, some not_found)
fetched (some a) = (some a, none)

-- What an operation that writes yields: the store and the error.
abbrev pub Written : Type 0 → Type 0 → Type 0 → Type 0
Written R U K = MemoryStore R U K × Option StoreError

-- `exp.After(time.Now())` of the entry that was found.
unfoldable pub still_listed : ℕ → Option ℕ → Option StoreError
still_listed now none = none
still_listed now (some exp) = if ltb now exp then some jti_known else none

-- The loop that deletes the expired entries; it reads the clock again for each, `now j`.
unfoldable pub purge : (String → ℕ) → Dict ℕ → Dict ℕ
purge now [] = []
purge now ((j, exp) ∷ m) =
    let rest = purge now m in if ltb exp (now j) then rest else (j, exp) ∷ rest

module _ {R U K : Type 0} where
  unfoldable pub new_memory_store : MemoryStore R U K
  new_memory_store = record {
    clients = [];
    authorize_codes = [];
    id_sessions = [];
    access_tokens = [];
    refresh_tokens = [];
    pkces = [];
    blacklisted_jtis = [];
    access_token_request_ids = [];
    refresh_token_request_ids = [];
    issuer_public_keys = [];
    par_sessions = [];
    upstreams = [];
  }

  unfoldable pub create_open_id_connect_session : MemoryStore R U K → String → R → MemoryStore R U K
  create_open_id_connect_session s code req = record s {
    id_sessions = insert code req s.id_sessions;
  }

  unfoldable pub get_open_id_connect_session : MemoryStore R U K → String → Fetched R
  get_open_id_connect_session s code = fetched (lookup code s.id_sessions)

  unfoldable pub delete_open_id_connect_session : MemoryStore R U K → String → MemoryStore R U K
  delete_open_id_connect_session s code = record s { id_sessions = erase code s.id_sessions }

  unfoldable pub get_upstream : MemoryStore R U K → String → Option U
  get_upstream s name = lookup name s.upstreams

  unfoldable pub set_upstream : MemoryStore R U K → String → U → MemoryStore R U K
  set_upstream s name u = record s { upstreams = insert name u s.upstreams }

  unfoldable pub delete_upstream : MemoryStore R U K → String → MemoryStore R U K
  delete_upstream s name = record s { upstreams = erase name s.upstreams }

  unfoldable pub get_kubauth_client : MemoryStore R U K → String → Fetched KubauthClient
  get_kubauth_client s id = fetched (lookup id s.clients)

  -- The registration of a client whose identifier finds this client.
  unfoldable pub register : MemoryStore R U K → KubauthClient → Option KubauthClient → Written R U K
  register s client none = (record s { clients = insert client.client_id client s.clients }, none)
  register s client (some old) =
      if old.k8s_id == client.k8s_id
      then (record s { clients = insert client.client_id client s.clients }, none)
      else (s, some (client_duplication old.k8s_id))

  unfoldable pub set_client : MemoryStore R U K → KubauthClient → Written R U K
  unfolding register
  set_client s client = register s client (lookup client.client_id s.clients)

  unfoldable pub delete_client : MemoryStore R U K → String → MemoryStore R U K
  delete_client s id = record s { clients = erase id s.clients }

  -- No client of the store has the type that the assertion asks for.
  unfoldable pub set_token_lifespans : MemoryStore R U K → String → Option StoreError
  set_token_lifespans s id = elim (lookup id s.clients) [
    | none ↦ some not_found
    | some client ↦ some no_custom_lifespans
  ]

  unfoldable pub client_assertion_jwt_valid : MemoryStore R U K → ℕ → String → Option StoreError
  unfolding still_listed
  client_assertion_jwt_valid s now jti = still_listed now (lookup jti s.blacklisted_jtis)

  unfoldable pub note_jti : MemoryStore R U K → String → ℕ → Option ℕ → Written R U K
  note_jti s jti exp none =
      (record s { blacklisted_jtis = insert jti exp s.blacklisted_jtis }, none)
  note_jti s jti exp (some _) = (s, some jti_known)

  unfoldable pub set_client_assertion_jwt :
      MemoryStore R U K → (String → ℕ) → String → ℕ → Written R U K
  unfolding purge note_jti
  set_client_assertion_jwt s now jti exp =
      let kept = purge now s.blacklisted_jtis in
      note_jti (record s { blacklisted_jtis = kept }) jti exp (lookup jti kept)

  unfoldable pub is_jwt_used : MemoryStore R U K → ℕ → String → Bool
  unfolding client_assertion_jwt_valid
  is_jwt_used s now jti = elim (client_assertion_jwt_valid s now jti) [
    | none ↦ false
    | some e ↦ true
  ]

  unfoldable pub mark_jwt_used_for_time :
      MemoryStore R U K → (String → ℕ) → String → ℕ → Written R U K
  unfolding set_client_assertion_jwt
  mark_jwt_used_for_time s now jti exp = set_client_assertion_jwt s now jti exp
