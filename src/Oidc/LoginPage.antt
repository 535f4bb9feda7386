-- ===== src/Oidc/LoginPage.antt =====
-- cmd/oidc/oidcserver/display-login.go: the upstream providers that a login page offers. Events and
-- logs are left out, the template always executes, and `url.Values.Encode` is the argument
-- `encode_query`.
pub mod Order
pub mod Offered
pub mod Laws
use kubauth.Base.{
  String, Bool, true, false, not, Option, none, some, List, [], ◌∷◌, ◌++◌, ◌<>◌, ◌&&◌, ◌==◌, map,
  if◌then◌else◌, Dict, lookup,
}
use Prim.Native.Nat.{Ordering}
use Prim.Native.String.{compare}
use kubauth.Oidc.Client.{KubauthClient}
use kubauth.Oidc.Storage.{MemoryStore, get_upstream}
use kubauth.Oidc.Upstream.Provider.{
  ProviderType, internal, oidc, unsupported, Upstream, get_display_name, new_internal_upstream,
}

pub record UpstreamButton : Type 0 where
  pub name : String
  pub display_name : String

-- `LoginModel`, without the version and the date of the build.
pub record LoginModel : Type 0 where
  pub invalid_login : Bool
  pub style : String
  pub upstream_buttons : List UpstreamButton
  pub show_login_form : Bool
  pub fieldset_label : String
  pub show_no_provider_message : Bool
  pub show_sso_check : Bool

-- The page, or the redirection to the only provider.
pub data LoginResponse : Type 0 where
  page : LoginModel → LoginResponse
  redirect_to : String → LoginResponse

-- The settings of the server.
pub record PageSettings : Type 0 where
  pub default_style : String
  pub default_login_label : String
  pub on_demand : Bool
  pub encode_query : String → String

-- The variables `internal` and `upstreamButtons`.
pub record Choice : Type 0 where
  pub internal : Option Upstream
  pub buttons : List UpstreamButton

abbrev pub is_internal : Upstream → Bool
is_internal u = elim u.spec.type [ internal ↦ true | oidc ↦ false | unsupported t ↦ false ]

abbrev pub button_of : Upstream → UpstreamButton
button_of u = record { name = u.name; display_name = get_display_name u }

-- The body of both loops on an upstream.
unfoldable pub add_upstream : Choice → Upstream → Choice
add_upstream c u =
    if is_internal u
    then record c { internal = some u }
    else record c { buttons = c.buttons ++ button_of u ∷ [] }

abbrev pub add_found : Choice → Option Upstream → Choice
add_found c none = c
add_found c (some u) = add_upstream c u

-- An upstream before the first of a list, or behind it, where `rest` is the list with it put in.
abbrev pub put_by : Ordering → Upstream → Upstream → List Upstream → List Upstream → List Upstream
put_by Ordering.gt u x xs rest = x ∷ rest
put_by _ u x xs rest = u ∷ x ∷ xs

-- `sort.Slice` by name; the names of the upstreams of a store are distinct.
unfoldable pub insert_upstream : Upstream → List Upstream → List Upstream
insert_upstream u [] = u ∷ []
insert_upstream u (x ∷ xs) = put_by (compare u.name x.name) u x xs (insert_upstream u xs)

unfoldable pub sort_upstreams : List Upstream → List Upstream
unfolding insert_upstream
sort_upstreams [] = []
sort_upstreams (u ∷ us) = insert_upstream u (sort_upstreams us)

-- The loop over the upstreams of the store, which leaves out the client-specific ones.
unfoldable pub choose_global : Choice → List Upstream → Choice
unfolding add_upstream
choose_global c [] = c
choose_global c (u ∷ us) = choose_global (if u.spec.client_specific then c else add_upstream c u) us

abbrev pub no_choice : Choice
no_choice = record { internal = none; buttons = [] }

abbrev pub values {ℓ} : {V : Type ℓ} → Dict V → List V
values [] = []
values ((k, v) ∷ m) = v ∷ values m

-- Without a list of the client: the upstreams of the store, or the default one if there is none.
unfoldable pub choose_any : String → List Upstream → Choice
unfolding choose_global sort_upstreams new_internal_upstream
choose_any label [] = record { internal = some (new_internal_upstream label); buttons = [] }
choose_any label (u ∷ us) = choose_global no_choice (sort_upstreams (u ∷ us))

-- What is shown for a choice, over the model.
unfoldable pub show_internal : Option Upstream → LoginModel → LoginModel
show_internal none m = m
show_internal (some u) m = record m { show_login_form = true; fieldset_label = get_display_name u }

unfoldable pub show_choice : Choice → LoginModel → LoginModel
unfolding show_internal
show_choice c m =
    let shown = show_internal c.internal (record m { upstream_buttons = c.buttons }) in
    elim c.buttons [
      | [] ↦ elim c.internal [
        | none ↦ record shown { show_no_provider_message = true }
        | some u ↦ shown
      ]
      | (b ∷ bs) ↦ shown
    ]

-- The redirection where one provider is the only way.
unfoldable pub display : PageSettings → LoginModel → LoginResponse
display s m = elim m.upstream_buttons [
  | [] ↦ page m
  | (b ∷ []) ↦
      if not m.invalid_login && (not m.show_login_form && not m.show_no_provider_message)
      then redirect_to ("/upstream/go?" <> s.encode_query b.name)
      else page m
  | (b ∷ c ∷ bs) ↦ page m
]

abbrev pub style_of : PageSettings → Option KubauthClient → String
style_of s none = s.default_style
style_of s (some client) = client.spec.style

module _ {R K : Type 0} (store : MemoryStore R Upstream K) (s : PageSettings) where
  -- The loop over the list of the client, which leaves out what the store does not have.
  unfoldable pub choose_named : Choice → List String → Choice
  unfolding add_upstream
  choose_named c [] = c
  choose_named c (name ∷ names) = choose_named (add_found c (get_upstream store name)) names

  unfoldable pub choose : KubauthClient → Choice
  unfolding choose_named choose_any
  choose client = elim client.spec.upstream_providers [
    | [] ↦ choose_any s.default_login_label (values store.upstreams)
    | (name ∷ names) ↦ choose_named no_choice (name ∷ names)
  ]

  unfoldable pub populate : Option KubauthClient → LoginModel → LoginModel
  unfolding choose show_choice
  populate none m = m
  populate (some client) m = show_choice (choose client) m

  -- The client of an identifier; the empty one has none.
  unfoldable pub client_of : String → Option KubauthClient
  client_of client_id = if client_id == "" then none else lookup client_id store.clients

  unfoldable pub display_login_response : String → Bool → LoginResponse
  unfolding populate client_of display
  display_login_response client_id invalid_login = display s (
      populate (client_of client_id) (record {
        invalid_login = invalid_login;
        style = style_of s (client_of client_id);
        upstream_buttons = [];
        show_login_form = false;
        fieldset_label = "";
        show_no_provider_message = false;
        show_sso_check = s.on_demand;
      }))
