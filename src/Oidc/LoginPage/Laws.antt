-- ===== src/Oidc/LoginPage/Laws.antt =====
-- What the login page of cmd/oidc/oidcserver/display-login.go offers.
use kubauth.Base.{
  ◌≡◌, refl, sym, inl, inr, String, Bool, true, false, not, Option, none, some, List, [], ◌∷◌, ◌<>◌,
  ◌&&◌, arith, Bool-cases, if◌then◌else◌,
}
use kubauth.Oidc.Client.{KubauthClient}
use kubauth.Oidc.Storage.{MemoryStore}
use kubauth.Oidc.Upstream.Provider.{Upstream, get_display_name}
use kubauth.Oidc.LoginPage.{
  UpstreamButton, LoginModel, LoginResponse, page, redirect_to, PageSettings, is_internal,
  button_of, no_choice, show_choice, show_internal, populate, display, client_of, style_of,
  display_login_response,
}
use kubauth.Oidc.LoginPage.Offered.{
  buttons_for, or_else, last_internal, chosen, OfferedBy, offered, offered-OfferedBy, choose-chosen,
}

abbrev pub is_some : Option Upstream → Bool
is_some none = false
is_some (some u) = true

abbrev pub label_of : Option Upstream → String
label_of none = ""
label_of (some u) = get_display_name u

abbrev pub is_nil : List Upstream → Bool
is_nil [] = true
is_nil (u ∷ us) = false

-- The page shows these upstreams.
pub record Shows (us : List Upstream) (m : LoginModel) : Type 0 where
  pub buttons : m.upstream_buttons ≡ buttons_for us
  pub form : m.show_login_form ≡ is_some (last_internal us)
  pub label : m.fieldset_label ≡ label_of (last_internal us)
  pub message : m.show_no_provider_message ≡ is_nil us

-- The response offers these upstreams: the only one, if it is not internal and no login has failed,
-- is gone to at once.
abbrev pub Offers : PageSettings → List Upstream → Bool → LoginResponse → Type 0
Offers s us invalid (page m) = Shows us m
Offers s us invalid (redirect_to q) =
    (u : Upstream) × (us ≡ u ∷ [])
    × (is_internal u ≡ false)
    × (invalid ≡ false)
    × (q ≡ "/upstream/go?" <> s.encode_query u.name)

is_some-last_internal :
    (b : Bool) (o : Option Upstream) (u : Upstream)
    → is_some (or_else o (if b then some u else none)) ≡ false
    → (b ≡ false) × (is_some o ≡ false)
is_some-last_internal true none u h = cc
is_some-last_internal false none u h = (refl, refl)
is_some-last_internal b (some v) u h = cc

only_button :
    (us : List Upstream) (b : UpstreamButton)
    → is_some (last_internal us) ≡ false
    → buttons_for us ≡ b ∷ []
    → (u : Upstream) × (us ≡ u ∷ []) × (is_internal u ≡ false) × (b ≡ button_of u)
only_button [] b h e = cc
only_button (u ∷ []) b h e =
    let ext = is_some-last_internal (is_internal u) none u h in
    (u, refl, ext.0, ground (arith, e, ext.0))
only_button (u ∷ v ∷ us) b h e =
    let first = is_some-last_internal (is_internal u) (last_internal (v ∷ us)) u h in
    let second = is_some-last_internal (is_internal v) (last_internal us) v first.1 in
    let no : ⊥ = ground (arith, e, first.0, second.0) in absurd no

display-Offers :
    (s : PageSettings) (us : List Upstream) (m : LoginModel)
    → Shows us m
    → Offers s us m.invalid_login (display s m)
unfolding display
display-Offers s us m h = with_buttons m.upstream_buttons h.buttons
  where
    with_buttons :
        (bs : List UpstreamButton)
        → bs ≡ buttons_for us
        → Offers s us m.invalid_login (
            let r : LoginResponse = elim bs [
              | [] ↦ page m
              | (b ∷ []) ↦
                  if not m.invalid_login
                    && (not m.show_login_form && not m.show_no_provider_message)
                  then redirect_to ("/upstream/go?" <> s.encode_query b.name)
                  else page m
              | (b ∷ c ∷ bs) ↦ page m
            ] in
            r)
    with_buttons [] e = h
    with_buttons (b ∷ c ∷ bs) e = h
    with_buttons (b ∷ []) e =
        elim (Bool-cases
          (not m.invalid_login && (not m.show_login_form && not m.show_no_provider_message))) [
            | inr t ↦ rw t h
            | inl t ↦
                let form : is_some (last_internal us) ≡ false = ground (arith, t, h.form) in
                let (u, one, ext, same) = only_button us b form (sym e) in
                rw (t, same) (u, one, ext, ground (arith, t), refl)
          ]

no_upstreams :
    (us : List Upstream) → buttons_for us ≡ [] → is_some (last_internal us) ≡ false → us ≡ []
no_upstreams [] e h = refl
no_upstreams (u ∷ us) e h =
    let first = is_some-last_internal (is_internal u) (last_internal us) u h in
    let no : ⊥ = ground (arith, e, first.0) in absurd no

-- A model before the upstreams are known.
abbrev IsFresh : LoginModel → Type 0
IsFresh m =
    (m.upstream_buttons ≡ [])
    × (m.show_login_form ≡ false)
    × (m.fieldset_label ≡ "")
    × (m.show_no_provider_message ≡ false)

or_else-none : (o : Option Upstream) → or_else o none ≡ o
or_else-none none = refl
or_else-none (some u) = refl

has_internal : (us : List Upstream) (u : Upstream) → last_internal us ≡ some u → is_nil us ≡ false
has_internal [] u h = cc
has_internal (v ∷ us) u h = refl

has_button :
    (us : List Upstream) (b : UpstreamButton) (bs : List UpstreamButton)
    → buttons_for us ≡ b ∷ bs
    → is_nil us ≡ false
has_button [] b bs h = cc
has_button (v ∷ us) b bs h = refl

module _ (us : List Upstream) (m : LoginModel) (fresh : IsFresh m) where
  show_choice_cases :
      (bs : List UpstreamButton) (o : Option Upstream)
      → buttons_for us ≡ bs
      → last_internal us ≡ o
      → Shows us (show_choice (record { internal = o; buttons = bs }) m)
        × ((show_choice (record { internal = o; buttons = bs }) m).invalid_login ≡ m.invalid_login)
  unfolding show_choice show_internal
  show_choice_cases [] none e h = (
    record {
      buttons = sym e;
      form = rw h fresh.1;
      label = rw h fresh.2;
      message = rw (no_upstreams us e (rw h refl)) refl;
    },
    refl,
  )
  show_choice_cases [] (some u) e h = (
    record {
      buttons = sym e;
      form = rw h refl;
      label = rw h refl;
      message = rw (has_internal us u h) fresh.3;
    },
    refl,
  )
  show_choice_cases (b ∷ bs) none e h = (
    record {
      buttons = sym e;
      form = rw h fresh.1;
      label = rw h fresh.2;
      message = rw (has_button us b bs e) fresh.3;
    },
    refl,
  )
  show_choice_cases (b ∷ bs) (some u) e h = (
    record {
      buttons = sym e;
      form = rw h refl;
      label = rw h refl;
      message = rw (has_button us b bs e) fresh.3;
    },
    refl,
  )

  show_choice-Shows :
      Shows us (show_choice (chosen no_choice us) m)
      × ((show_choice (chosen no_choice us) m).invalid_login ≡ m.invalid_login)
  show_choice-Shows =
      show_choice_cases (buttons_for us) (or_else (last_internal us) none) refl
        (sym (or_else-none (last_internal us)))

-- The login page of a client offers exactly the upstreams that its list names and the store has,
-- or without a list those of the store that are not client-specific, sorted by name, or the
-- default internal one if the store has none at all. External upstreams are buttons in that order,
-- and the form is shown, under the name of the last one, if there is an internal upstream; if there
-- is none of either kind the page says so. The client is sent to the upstream at once only if it
-- is the single one, is external, and no login has just failed.
pub display-Offers_client :
    {R K : Type 0} (store : MemoryStore R Upstream K) (s : PageSettings) (client_id : String)
    (client : KubauthClient) (invalid : Bool)
    → client_of store s client_id ≡ some client
    → (us : List Upstream) × OfferedBy store s client.spec.upstream_providers us
      × Offers s us invalid (display_login_response store s client_id invalid)
unfolding display_login_response populate
display-Offers_client store s client_id client invalid e =
    let m : LoginModel = record {
      invalid_login = invalid;
      style = style_of s (some client);
      upstream_buttons = [];
      show_login_form = false;
      fieldset_label = "";
      show_no_provider_message = false;
      show_sso_check = s.on_demand;
    } in
    let shown = show_choice-Shows (offered store s client) m (refl, refl, refl, refl) in
    (
      offered store s client,
      offered-OfferedBy store s client,
      rw e (
          rw (choose-chosen store s client) (
            rw shown.1 at (
              display-Offers s (offered store s client)
                (show_choice (chosen no_choice (offered store s client)) m) shown.0))),
    )
