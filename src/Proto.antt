-- ===== src/Proto.antt =====
-- internal/proto: what the identity providers and their clients exchange. JSON encoding and the
-- HTTP exchange are not modelled: an exchange yields a response or an error.
use kubauth.Base.{◌≡◌, refl, ◌⊎◌, inl, inr, String, Bool, Option, none, List, []}
use kubauth.Base.Int.{ℤ}
use kubauth.Misc.Claims.{Claims, no_claims}

-- The texts that the source names; `other` stands for every other text.
pub data Status : Type 0 where
  user_not_found disabled password_checked password_fail password_unchecked : Status
  password_missing undefined password_changed unknown_provider : Status
  invalid_old_password invalid_new_password unsupported : Status
  other : String → Status

pub record User : Type 0 where
  pub login : String
  pub uid : Option ℤ
  pub name : String
  pub emails : List String
  pub groups : List String
  pub claims : Claims

abbrev pub init_user : String → User
init_user login = record {
  login = login;
  uid = none;
  name = "";
  emails = [];
  groups = [];
  claims = no_claims;
}

pub record IdentityRequest : Type 0 where
  pub login : String
  pub password : String

pub record Translated : Type 0 where
  pub groups : List String
  pub claims : Claims
  pub uid : Option ℤ

pub record ProviderSpec : Type 0 where
  pub name : String
  pub credential_authority : Bool
  pub group_authority : Bool
  pub claim_authority : Bool
  pub name_authority : Bool
  pub email_authority : Bool

pub record UserDetail : Type 0 where
  pub user : User
  pub status : Status
  pub provider : ProviderSpec
  pub translated : Translated

pub record IdentityResponse : Type 0 where
  pub user : User
  pub status : Status
  pub details : List UserDetail
  pub authority : String

-- A Go `(value, error)`.
pub data Result {ℓ} (A : Type ℓ) : Type ℓ where
  ok : A → Result A
  err : String → Result A

infixl 5 ◌>>=◌
abbrev pub ◌>>=◌ {ℓ κ} : {A : Type ℓ} {B : Type κ} → Result A → (A → Result B) → Result B
ok value >>= go_on = go_on value
err message >>= go_on = err message

pub Result-cases {ℓ} :
    {A : Type ℓ} (r : Result A) → ((a : A) × (r ≡ ok a)) ⊎ ((e : String) × (r ≡ err e))
Result-cases (ok a) = inl (a, refl)
Result-cases (err e) = inr (e, refl)

-- A bind behind a bind that only builds.
pub bind-ok {ℓ κ μ} :
    {A : Type ℓ} {B : Type κ} {C : Type μ} (r : Result A) (f : A → B) (g : B → Result C)
    → (r >>= (λ a. ok (f a)) >>= g) ≡ (r >>= λ a. g (f a))
bind-ok (ok a) f g = refl
bind-ok (err e) f g = refl

pub ok-injective {ℓ} : {A : Type ℓ} {a b : A} → ok a ≡ ok b → a ≡ b
ok-injective h = cc

-- A bind that succeeds, taken apart.
pub bind_inv {ℓ κ} :
    {A : Type ℓ} {B : Type κ} (m : Result A) (f : A → Result B) (b : B)
    → (m >>= f) ≡ ok b
    → (a : A) × (m ≡ ok a) × (f a ≡ ok b)
bind_inv (ok a) f b h = (a, refl, h)
bind_inv (err e) f b h = cc
