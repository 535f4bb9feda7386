-- ===== src/Oidc/ClientController/Status.antt =====
-- What cmd/oidc/controllers/oidcclient_controller.go writes to a status, and where a run gets to.
use kubauth.Base.{
  ◌≡◌, ◌≢◌, refl, ap, inl, inr, String, Bool, true, false, not, Option, none, some, ◌==◌, ◌&&◌,
  arith, eq_iff, eq_refl, Bool-cases, if◌then◌else◌,
}
use kubauth.Misc.Slices.{bool_ptr_true}
use kubauth.Proto.{ok}
use kubauth.Ucrd.Authenticator.{found}
use kubauth.Oidc.Storage.{MemoryStore}
use kubauth.Oidc.ClientController.{
  OidcClient, ClientStatus, Phase, no_phase, ready, error, off, Settings, Calls, World, done,
  Hashes, hashes, misconfigured, unreachable, phase_eq, build_client_id, identified, with_style,
  status_for, secrets_of, update_storage, write_status, update_status, settle, reconcile_client,
}

phase_eq_refl : (p : Phase) → phase_eq p p ≡ true
phase_eq_refl no_phase = refl
phase_eq_refl ready = refl
phase_eq_refl error = refl
phase_eq_refl off = refl

pub phase_eq_path : (p q : Phase) → phase_eq p q ≡ true → p ≡ q
phase_eq_path no_phase q h = ground (arith, h)
phase_eq_path ready q h = ground (arith, h)
phase_eq_path error q h = ground (arith, h)
phase_eq_path off q h = ground (arith, h)

pub &&-left : (p q : Bool) → (p && q) ≡ true → p ≡ true
&&-left true q h = refl
&&-left false q h = h

pub &&-right : (p q : Bool) → (p && q) ≡ true → q ≡ true
&&-right true q h = h
&&-right false q h = cc

-- The calls of a run succeed: patches, updates, and those for the secrets of the client.
pub record Succeeds (r : Settings) (k : Calls) (c : OidcClient) : Type 0 where
  pub patched : k.patch ≡ ok tt
  pub updated : k.update_status ≡ ok tt
  pub reached : (e : String) → secrets_of k (identified r c) ≢ unreachable e

abbrev pub with_finalizer : OidcClient → OidcClient
with_finalizer c = record c { has_finalizer = true }

pub Succeeds-with_finalizer :
    (r : Settings) (k : Calls) (c : OidcClient) → Succeeds r k c → Succeeds r k (with_finalizer c)
unfolding secrets_of identified
Succeeds-with_finalizer r k c good = record {
  patched = good.patched;
  updated = good.updated;
  reached = good.reached;
}

-- A client that has its identifier keeps it.
pub identified_again :
    (r : Settings) (c : OidcClient) (t : ClientStatus)
    → t.client_id ≡ (identified r c).status.client_id
    → identified r (record c { status = t }) ≡ record c { status = t }
unfolding identified
identified_again r c t e =
    let built = build_client_id r c.spec c.name c.namespace in
    let kept : (if t.client_id == "" then built else t.client_id) ≡ t.client_id =
      ground (arith, e, eq_iff t.client_id "", eq_iff c.status.client_id "", eq_iff built "") in
    ap (λ (i : String). record c { status = record t { client_id = i } }) kept

-- What of a status comes from the client, and what from the outcome.
pub status_for-client_id :
    (c : OidcClient) (e : Option String) → (status_for c e).client_id ≡ c.status.client_id
unfolding status_for
status_for-client_id c (some e) = refl
status_for-client_id c none = elim (Bool-cases (not (bool_ptr_true c.spec.enabled))) [
  | inl t ↦ rw t refl
  | inr t ↦ rw t refl
]

pub status_for-congr :
    (c d : OidcClient) (e : Option String)
    → c.spec.enabled ≡ d.spec.enabled
    → ((status_for c e).phase ≡ (status_for d e).phase)
      × ((status_for c e).message ≡ (status_for d e).message)
unfolding status_for
status_for-congr c d (some e) same = (refl, refl)
status_for-congr c d none same = rw same (elim (Bool-cases (not (bool_ptr_true d.spec.enabled))) [
  | inl t ↦ rw t (refl, refl)
  | inr t ↦ rw t (refl, refl)
])

module _ {R U K : Type 0} where
  -- The same outcome is written for a client that differs in phase and message only.
  pub update_storage-status :
      (store : MemoryStore R U K) (c : OidcClient) (p : Phase) (m : String) (h : Hashes)
      → update_storage store (record c { status = record c.status { phase = p; message = m } }) h
        ≡ update_storage store c h
  unfolding update_storage
  update_storage-status store c p m (hashes hs) = refl
  update_storage-status store c p m (misconfigured e) = refl
  update_storage-status store c p m (unreachable e) = refl

  pub settle_reached :
      (k : Calls) (w : World R U K) (c named : OidcClient) (h : Hashes)
      → ((e : String) → h ≢ unreachable e)
      → settle k w c named h
        ≡ update_status k
            (record w { store = (update_storage w.store named h).0 })
            c
            named
            (update_storage w.store named h).1
  unfolding settle
  settle_reached k w c named (hashes hs) reached = refl
  settle_reached k w c named (misconfigured e) reached = refl
  settle_reached k w c named (unreachable e) reached = absurd (reached e refl)

  -- A status that is up to date, and one that is written.
  pub update_status_same :
      (k : Calls) (w : World R U K) (c named : OidcClient) (e : Option String)
      → named.status.phase ≡ (status_for named e).phase
      → named.status.message ≡ (status_for named e).message
      → update_status k w c named e ≡ (w, done)
  unfolding update_status
  update_status_same k w c named e same_phase same_message =
      rw
        (
          same_phase,
          same_message,
          phase_eq_refl (status_for named e).phase,
          eq_refl (status_for named e).message,
        )
        refl

  pub update_status_kept :
      (k : Calls) (w : World R U K) (c named : OidcClient) (e : Option String)
      → (phase_eq named.status.phase (status_for named e).phase
          && named.status.message == (status_for named e).message)
        ≡ true
      → update_status k w c named e ≡ (w, done)
  unfolding update_status
  update_status_kept k w c named e same = rw same refl

  pub update_status_written :
      (k : Calls) (w : World R U K) (c named : OidcClient) (e : Option String)
      → k.update_status ≡ ok tt
      → (phase_eq named.status.phase (status_for named e).phase
          && named.status.message == (status_for named e).message)
        ≡ false
      → update_status k w c named e
        ≡ (record w { resource = found (record c { status = status_for named e }) }, done)
  unfolding update_status write_status
  update_status_written k w c named e updated differs = rw (differs, updated) refl

  pub runs_settle :
      (r : Settings) (k : Calls) (v : World R U K) (d : OidcClient)
      → d.deleting ≡ false
      → d.has_finalizer ≡ true
      → reconcile_client r k v d
        ≡ settle k v d (with_style r (identified r d)) (secrets_of k (identified r d))
  unfolding reconcile_client
  runs_settle r k v d kept has = rw (kept, has) refl
