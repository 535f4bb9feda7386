-- ===== src/Oidc/ClientController/Hashing.antt =====
-- How far the secrets that cmd/oidc/controllers/oidcclient_controller.go hashes depend on the salts.
use mathlib.Core.Path.{subst}
use kubauth.Base.{
  ◌≡◌, ◌≢◌, refl, String, Bool, true, false, not, Option, none, some, List, [], ◌∷◌, ℕ, suc,
  if◌then◌else◌,
}
use kubauth.Misc.Slices.{bool_ptr_true}
use kubauth.Proto.{Result, ok, err}
use kubauth.Ucrd.Authenticator.{Fetch, found, absent, failed}
use kubauth.Oidc.Client.{SecretRef}
use kubauth.Oidc.ClientController.{
  OidcClient, Calls, Hashes, hashes, misconfigured, unreachable, add_hash, hashed_as, hash_of,
  secret_value, secret_step, hash_secrets, public_secrets, private_secrets, secrets_of,
}

-- The same outcome, up to the hashes.
abbrev pub Alike : Hashes → Hashes → Type 0
Alike (hashes hs) (hashes gs) = Unit
Alike (misconfigured e) (misconfigured f) = e ≡ f
Alike (unreachable e) (unreachable f) = e ≡ f
Alike _ _ = ⊥

abbrev pub is_ok : Result String → Bool
is_ok (ok h) = true
is_ok (err e) = false

-- Two runs see the same secrets, and the same values have a hash, which can be another one.
pub record Agree (k l : Calls) : Type 0 where
  pub secrets : (name : String) → k.get_secret name ≡ l.get_secret name
  pub hashed : (i : ℕ) (value : String) → is_ok (k.hash i value) ≡ is_ok (l.hash i value)

pub Alike-reached :
    (g h : Hashes)
    → Alike g h
    → ((e : String) → g ≢ unreachable e)
    → (e : String) → h ≢ unreachable e
Alike-reached (hashes gs) (hashes hs) a reached e = λ no. cc
Alike-reached (misconfigured f) (misconfigured x) a reached e = λ no. cc
Alike-reached (unreachable f) h a reached e = absurd (reached f refl)
Alike-reached (hashes gs) (misconfigured x) a reached e = absurd a
Alike-reached (hashes gs) (unreachable x) a reached e = absurd a
Alike-reached (misconfigured f) (hashes hs) a reached e = absurd a
Alike-reached (misconfigured f) (unreachable x) a reached e = absurd a

add_hash-Alike :
    (x y : String) (g h : Hashes) → Alike g h → Alike (add_hash (ok x) g) (add_hash (ok y) h)
add_hash-Alike x y (hashes gs) (hashes hs) a = tt
add_hash-Alike x y (misconfigured f) (misconfigured e) a = a
add_hash-Alike x y (unreachable f) (unreachable e) a = a
add_hash-Alike x y (hashes gs) (misconfigured e) a = a
add_hash-Alike x y (hashes gs) (unreachable e) a = a
add_hash-Alike x y (misconfigured f) (hashes hs) a = a
add_hash-Alike x y (misconfigured f) (unreachable e) a = a
add_hash-Alike x y (unreachable f) (hashes hs) a = a
add_hash-Alike x y (unreachable f) (misconfigured e) a = a

module _ (namespace : String) (ref : SecretRef) (value : String) (g h : Hashes)
    (rest : Alike g h) where
  hashed-Alike :
      (given : Bool) (x y : Result String)
      → is_ok x ≡ is_ok y
      → Alike
          (add_hash (hashed_as namespace ref given value x) g)
          (add_hash (hashed_as namespace ref given value y) h)
  hashed-Alike true x y e = add_hash-Alike value value g h rest
  hashed-Alike false (ok x) (ok y) e = add_hash-Alike x y g h rest
  hashed-Alike false (err x) (err y) e = refl
  hashed-Alike false (ok x) (err y) e = let no : true ≡ false = e in cc
  hashed-Alike false (err x) (ok y) e = let no : false ≡ true = e in cc

module _ (k l : Calls) (agree : Agree k l) (namespace : String) where
  value-Alike :
      (i : ℕ) (ref : SecretRef) (o : Option String) (g h : Hashes)
      → Alike g h
      → Alike
          (add_hash (secret_value k namespace i ref o) g)
          (add_hash (secret_value l namespace i ref o) h)
  unfolding hash_of
  value-Alike i ref none g h rest = refl
  value-Alike i ref (some value) g h rest =
      hashed-Alike namespace ref value g h rest ref.hashed (k.hash i value) (l.hash i value)
        (agree.hashed i value)

  step-Alike :
      (i : ℕ) (ref : SecretRef) (f : Fetch (String → Option String)) (g h : Hashes)
      → Alike g h
      → Alike (secret_step k namespace i ref f g) (secret_step l namespace i ref f h)
  step-Alike i ref absent g h rest = refl
  step-Alike i ref (failed e) g h rest = refl
  step-Alike i ref (found entries) g h rest = value-Alike i ref (entries ref.key) g h rest

  hash_secrets-Alike :
      (i : ℕ) (refs : List SecretRef)
      → Alike (hash_secrets k namespace i refs) (hash_secrets l namespace i refs)
  unfolding hash_secrets
  hash_secrets-Alike i [] = tt
  hash_secrets-Alike i (ref ∷ refs) =
      subst
        (λ (f : Fetch (String → Option String)).
          Alike
            (secret_step k namespace i ref (k.get_secret ref.name)
              (hash_secrets k namespace (suc i) refs))
            (secret_step l namespace i ref f (hash_secrets l namespace (suc i) refs)))
        (agree.secrets ref.name)
        (step-Alike i ref (k.get_secret ref.name) (hash_secrets k namespace (suc i) refs)
          (hash_secrets l namespace (suc i) refs) (hash_secrets-Alike (suc i) refs))

  private-Alike :
      (o : Option (List SecretRef))
      → Alike (private_secrets k namespace o) (private_secrets l namespace o)
  private-Alike none = refl
  private-Alike (some []) = refl
  private-Alike (some (ref ∷ refs)) = hash_secrets-Alike 0 (ref ∷ refs)

public-Alike : (o : Option (List SecretRef)) → Alike (public_secrets o) (public_secrets o)
public-Alike none = tt
public-Alike (some refs) = refl

if-Alike :
    (b : Bool) (f g h i : Hashes)
    → Alike f h
    → Alike g i
    → Alike (if b then f else g) (if b then h else i)
if-Alike true f g h i first second = first
if-Alike false f g h i first second = second

-- What the secrets of a client give differs in the hashes only.
pub secrets_of-Alike :
    (k l : Calls) (c : OidcClient) → Agree k l → Alike (secrets_of k c) (secrets_of l c)
unfolding secrets_of
secrets_of-Alike k l c agree =
    if-Alike (not (bool_ptr_true c.spec.enabled)) (hashes [])
      (if c.spec.public
        then public_secrets c.spec.secrets
        else private_secrets k c.namespace c.spec.secrets)
      (hashes [])
      (if c.spec.public
        then public_secrets c.spec.secrets
        else private_secrets l c.namespace c.spec.secrets)
      tt
      (if-Alike c.spec.public (public_secrets c.spec.secrets)
        (private_secrets k c.namespace c.spec.secrets) (public_secrets c.spec.secrets)
        (private_secrets l c.namespace c.spec.secrets) (public-Alike c.spec.secrets)
        (private-Alike k l agree c.namespace c.spec.secrets))
