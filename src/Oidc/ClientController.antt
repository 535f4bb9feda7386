-- ===== src/Oidc/ClientController.antt =====
-- cmd/oidc/controllers/oidcclient_controller.go: one reconciliation as a step on the resource in the
-- cluster, the store and the count of status errors. The calls of the Kubernetes client and bcrypt
-- are the record `Calls`; events and logs are left out. The API server removes a resource
-- without finalizers by itself.
pub mod Store
pub mod Status
pub mod Hashing
pub mod Settled
pub mod Convergence
mod Tests
use kubauth.Base.{
  String, Bool, true, false, not, Option, none, some, List, [], ◌∷◌, ◌++◌, ◌<>◌, ◌&&◌, ◌==◌, ℕ, suc,
  ◌+◌, eqb, if◌then◌else◌,
}
use kubauth.Misc.Slices.{bool_ptr_true}
use kubauth.Proto.{Result, ok, err}
use kubauth.Ucrd.Authenticator.{Fetch, found, absent, failed}
use kubauth.Oidc.Client.{SecretRef, OidcClientSpec, KubauthClient, new_kubauth_client}
use kubauth.Oidc.Storage.{MemoryStore, StoreError, set_client, delete_client, client_duplication}

-- The phases; a resource without a status has the empty one.
pub data Phase : Type 0 where
  no_phase ready error off : Phase

pub record ClientStatus : Type 0 where
  pub phase : Phase
  pub client_id : String
  pub message : String

-- `OidcClient`, as far as the controller reads it.
pub record OidcClient : Type 0 where
  pub namespace : String
  pub name : String
  pub deleting : Bool
  pub has_finalizer : Bool
  pub spec : OidcClientSpec
  pub status : ClientStatus

pub record Settings : Type 0 where
  pub client_privileged_namespace : String
  pub default_style : String

-- The outcome of the calls of a run: of a `Get` of a secret, given its name, of the hash of a value,
-- of a patch and of the update of the status. bcrypt is salted: a hash depends on the run and on
-- the place of the reference in the list as well.
pub record Calls : Type 0 where
  pub get_secret : String → Fetch (String → Option String)
  pub hash : ℕ → String → Result String
  pub patch : Result (Unit {0})
  pub update_status : Result (Unit {0})

pub record World (R U K : Type 0) : Type 0 where
  pub resource : Fetch OidcClient
  pub store : MemoryStore R U K
  pub status_errors : ℕ

-- `ctrl.Result` and an error.
pub data Outcome : Type 0 where
  done : Outcome
  requeue : Outcome
  failure : String → Outcome

unfoldable pub build_client_id : Settings → OidcClientSpec → String → String → String
build_client_id r spec name namespace =
    if not (spec.client_id == "")
    then spec.client_id
    else if not (namespace == r.client_privileged_namespace)
    then namespace <> "-" <> name
    else name

abbrev pub phase_eq : Phase → Phase → Bool
phase_eq no_phase no_phase = true
phase_eq ready ready = true
phase_eq error error = true
phase_eq off off = true
phase_eq _ _ = false

-- The client with its identifier in the status, in memory.
unfoldable pub identified : Settings → OidcClient → OidcClient
unfolding build_client_id
identified r c = record c {
  status = record c.status {
    client_id =
        if c.status.client_id == ""
        then build_client_id r c.spec c.name c.namespace
        else c.status.client_id;
  };
}

-- The text of an error of the store.
abbrev pub store_error : Option StoreError → Option String
store_error (some (client_duplication owner)) = some ("duplicate client_id with " <> owner)
store_error _ = none

-- The status for an error, or for its absence.
unfoldable pub status_for : OidcClient → Option String → ClientStatus
status_for c (some e) = record c.status { phase = error; message = e }
status_for c none =
    if not (bool_ptr_true c.spec.enabled)
    then record c.status { phase = off; message = "Disabled" }
    else record c.status { phase = ready; message = "OK" }

abbrev pub hashed_as : String → SecretRef → Bool → String → Result String → Result String
hashed_as namespace ref true value hash = ok value
hashed_as namespace ref false value (ok h) = ok h
hashed_as namespace ref false value (err e) =
    err (
      "unable to hash value from secret '" <> namespace <> ":" <> ref.name <> "[" <> ref.key
      <> "]'")

-- The hash of a value, or the value that is one, of the reference at a place of the list.
unfoldable pub hash_of : Calls → String → ℕ → SecretRef → String → Result String
hash_of k namespace i ref value = hashed_as namespace ref ref.hashed value (k.hash i value)

-- What the secrets of a client give: the hashes, an error of the configuration, or a failed call.
pub data Hashes : Type 0 where
  hashes : List String → Hashes
  misconfigured : String → Hashes
  unreachable : String → Hashes

abbrev pub add_hash : Result String → Hashes → Hashes
add_hash (err e) rest = misconfigured e
add_hash (ok h) (hashes hs) = hashes (h ∷ hs)
add_hash (ok h) other = other

abbrev pub secret_value : Calls → String → ℕ → SecretRef → Option String → Result String
secret_value k namespace i ref (some value) = hash_of k namespace i ref value
secret_value k namespace i ref none =
    err ("no '" <> ref.key <> "' key in secret '" <> namespace <> ":" <> ref.name <> "'")

abbrev pub secret_step :
    Calls → String → ℕ → SecretRef → Fetch (String → Option String) → Hashes → Hashes
secret_step k namespace i ref absent rest =
    misconfigured ("unable to fetch secret '" <> namespace <> ":" <> ref.name <> "'")
secret_step k namespace i ref (failed e) rest = unreachable e
secret_step k namespace i ref (found entries) rest =
    add_hash (secret_value k namespace i ref (entries ref.key)) rest

-- The loop over the references, from a place on, stops at the first that does not give a hash.
unfoldable pub hash_secrets : Calls → String → ℕ → List SecretRef → Hashes
unfolding hash_of
hash_secrets k namespace i [] = hashes []
hash_secrets k namespace i (ref ∷ refs) =
    let rest = hash_secrets k namespace (suc i) refs in
    secret_step k namespace i ref (k.get_secret ref.name) rest

abbrev pub public_secrets : Option (List SecretRef) → Hashes
public_secrets none = hashes []
public_secrets (some refs) = misconfigured "'secrets' set while public is enabled"

abbrev pub private_secrets : Calls → String → Option (List SecretRef) → Hashes
private_secrets k namespace (some (ref ∷ rest)) = hash_secrets k namespace 0 (ref ∷ rest)
private_secrets k namespace _ =
    misconfigured "when not public, one of 'secrets' must be defined with at least one item"

-- What the client is registered with, or why not; `none` is without hashes.
unfoldable pub secrets_of : Calls → OidcClient → Hashes
unfolding hash_secrets
secrets_of k c =
    if not (bool_ptr_true c.spec.enabled)
    then hashes []
    else if c.spec.public
    then public_secrets c.spec.secrets
    else private_secrets k c.namespace c.spec.secrets

unfoldable pub with_style : Settings → OidcClient → OidcClient
with_style r c = record c {
  spec = record c.spec { style = if c.spec.style == "" then r.default_style else c.spec.style };
}

module _ {R U K : Type 0} where
  -- The update of the status in the cluster; the first failure is retried.
  unfoldable pub write_status :
      World R U K → OidcClient → ClientStatus → Result (Unit {0}) → World R U K × Outcome
  write_status w c status (ok _) =
      (record w { resource = found (record c { status = status }) }, done)
  write_status w c status (err e) =
      if eqb w.status_errors 0
      then (record w { status_errors = w.status_errors + 1 }, requeue)
      else (w, failure e)

  -- `updateStatus`: nothing is written if phase and message are as before. `c` is the resource in the
  -- cluster.
  unfoldable pub update_status :
      Calls → World R U K → OidcClient → OidcClient → Option String → World R U K × Outcome
  unfolding status_for write_status
  update_status k w c named e =
      let status = status_for named e in
      if phase_eq named.status.phase status.phase && named.status.message == status.message
      then (w, done)
      else write_status w c status k.update_status

  -- `UpdateStorageAndStatus`, on the store.
  unfoldable pub update_storage :
      MemoryStore R U K → OidcClient → Hashes → MemoryStore R U K × Option String
  update_storage store c (hashes hs) =
      if bool_ptr_true c.spec.enabled
      then (let registered =
            set_client store (new_kubauth_client c.namespace c.name c.spec c.status.client_id hs) in
          (registered.0, store_error registered.1))
      else (delete_client store c.status.client_id, none)
  update_storage store c (misconfigured e) = (delete_client store c.status.client_id, some e)
  update_storage store c (unreachable e) = (store, some e)

  -- A failed call of a secret ends the run; all else is written to the store and the status.
  unfoldable pub settle :
      Calls → World R U K → OidcClient → OidcClient → Hashes → World R U K × Outcome
  unfolding update_storage update_status
  settle k w c named (unreachable e) = (w, failure e)
  settle k w c named h =
      let stored = update_storage w.store named h in
      update_status k (record w { store = stored.0 }) c named stored.1

  -- A patch of the finalizer.
  unfoldable pub patch_finalizer :
      World R U K → OidcClient → Bool → Result (Unit {0}) → World R U K × Outcome
  patch_finalizer w c present (ok _) =
      (record w { resource = found (record c { has_finalizer = present }) }, done)
  patch_finalizer w c present (err e) = (w, failure e)

  -- The deletion: only a client that is ready is in the store.
  unfoldable pub remove : Calls → World R U K → OidcClient → OidcClient → World R U K × Outcome
  unfolding patch_finalizer
  remove k w c named =
      patch_finalizer
        (record w {
          store =
              if phase_eq named.status.phase ready
              then delete_client w.store named.status.client_id
              else w.store;
        })
        c false k.patch

  unfoldable pub reconcile_client :
      Settings → Calls → World R U K → OidcClient → World R U K × Outcome
  unfolding remove patch_finalizer settle secrets_of with_style identified
  reconcile_client r k w c =
      let named = identified r c in
      if c.deleting
      then remove k w c named
      else if not c.has_finalizer
      then patch_finalizer w c true k.patch
      else settle k w c (with_style r named) (secrets_of k named)

  unfoldable pub reconcile :
      Settings → Calls → World R U K → Fetch OidcClient → World R U K × Outcome
  unfolding reconcile_client
  reconcile r k w absent = (w, done)
  reconcile r k w (failed e) = (w, failure e)
  reconcile r k w (found c) = reconcile_client r k w c
