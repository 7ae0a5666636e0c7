-- ===== src/Http/Tokens/Staff/Recorded.antt =====
-- What a staff route leaves in the audit store, behind `RequireStaff` and `AuditHook`.
use orbit_api_gateway.Base.{
  ℕ, ◌≡◌, ◌≢◌, ◌⊎◌, ◌∙◌, sym, ap, inl, inr, refl, String, true, false, some, [], ◌∷◌, ◌++◌, ◌==◌,
  arith, eq_iff, Bool-cases,
}
use orbit_api_gateway.Base.Strings.{cut_prefix}
use orbit_api_gateway.Memory.Stores.{record_entry}
use orbit_api_gateway.World.{World, Tick}
use orbit_api_gateway.Service.Audit.{record_audit, completed}
use orbit_api_gateway.Http.Message.{Request, Conn, HandlerFunc, get_header}
use orbit_api_gateway.Http.Tokens.{
  TokenAuth, Claims, claim_text, claim_flag, extract_staff_identity, enrich_context, staff_context,
  parse_token, refuse,
}
use orbit_api_gateway.Http.Tokens.Gates.{
  with_claims, staff_token_subject, staff_claims_gate, staff_token_gate, require_staff,
}
use orbit_api_gateway.Http.Tokens.Gates.Admission.{Gate}
use orbit_api_gateway.Http.Tokens.Gates.Staffing.{Staff, require_staff-Gate, require_staff-token}
use orbit_api_gateway.Http.Tokens.Staff.{actor_of, hook_entry, audit_hook}

-- What the handler made of the request, with the entry of it in the audit store.
abbrev pub with_entry : Tick → Request → Conn → Conn
with_entry tick r done = record done {
  world = record done.world { audit = done.world.audit ++ completed tick (hook_entry r) ∷ [] };
}

module _ (a : TokenAuth) (tick : Tick) where
  -- `AuditHook` with an audit store.
  audit_hook-recorded :
      (next : HandlerFunc) (r : Request) (c : Conn)
      → a.audited ≡ true
      → actor_of r.context ≢ ""
      → audit_hook a tick next r c ≡ with_entry tick r (next r c)
  unfolding audit_hook record_audit record_entry
  audit_hook-recorded next r c h named =
      let filled : (actor_of r.context == "") ≡ false =
        ground (arith, eq_iff (actor_of r.context) "") in
      rw (filled, h) refl

  audit_hook-unnamed :
      (next : HandlerFunc) (r : Request) (c : Conn)
      → actor_of r.context ≡ ""
      → audit_hook a tick next r c ≡ next r c
  unfolding audit_hook
  audit_hook-unnamed next r c e =
      let blank : (actor_of r.context == "") ≡ true =
        ground (arith, eq_iff (actor_of r.context) "") in
      rw blank refl

  -- A refusal leaves the world alone.
  require_staff-world :
      (r : Request) (c : Conn) → (require_staff a tick (λ r' c'. c') r c).world ≡ c.world
  unfolding require_staff staff_token_gate staff_claims_gate
  require_staff-world r c = ground arith

  -- What comes of a request to a staff route with this handler.
  pub data Outcome (next : HandlerFunc) (r : Request) (c : Conn) : Conn → Type 0 where
    refused :
        (status : ℕ) (message : String)
        → ((status ≡ 401) ⊎ (status ≡ 403) ⊎ (status ≡ 500))
        → ((r' : Request) (w : World) → ¬ Staff a tick r c r' w)
        → Outcome next r c (refuse status message c.world c)
    recorded :
        (r' : Request)
        → Staff a tick r c r' c.world
        → actor_of r'.context ≢ ""
        → (hook_entry r').is_staff ≡ true
        → Outcome next r c (with_entry tick r' (next r' c))
    unnamed :
        (r' : Request)
        → Staff a tick r c r' c.world
        → actor_of r'.context ≡ ""
        → Outcome next r c (next r' c)

  admitted-Outcome :
      (next : HandlerFunc) (r : Request) (c : Conn) (r' : Request)
      → a.audited ≡ true
      → Staff a tick r c r' c.world
      → Outcome next r c (audit_hook a tick next r' c)
  unfolding hook_entry
  admitted-Outcome next r c r' h staff = elim (Bool-cases (actor_of r'.context == "")) [
    | inl e ↦
        let blank : actor_of r'.context ≡ "" = ground (arith, eq_iff (actor_of r'.context) "") in
        rw (audit_hook-unnamed next r' c blank) (unnamed r' staff blank)
    | inr e ↦
        let named : actor_of r'.context ≢ "" = ground (arith, eq_iff (actor_of r'.context) "") in
        rw (audit_hook-recorded next r' c h named) (recorded r' staff named staff.marked)
  ]

  gated-Outcome :
      (next : HandlerFunc) (r : Request) (c : Conn)
      → a.audited ≡ true
      → Gate (Staff a tick r c) (require_staff a tick) r c
      → Outcome next r c (require_staff a tick (audit_hook a tick next) r c)
  gated-Outcome next r c h (inl (r', w, staff, runs)) =
      let same : w ≡ c.world = staff.same_world in
      rw (runs (audit_hook a tick next), same) (admitted-Outcome next r c r' h (rw same at staff))
  gated-Outcome next r c h (inr (status, message, w, kind, none_fits, answers)) =
      let same : c.world ≡ w =
        sym (require_staff-world r c) ∙ ap (λ (d : Conn). d.world) (answers (λ r' c'. c')) in
      rw (answers (audit_hook a tick next), ← same) (refused status message kind none_fits)

-- With an audit store, and whatever handler stands behind `RequireStaff` and `AuditHook`: a request
-- that is let through as staff runs the handler, and then exactly one entry, marked as a staff
-- member's, is appended to the audit store, unless the request has no actor, when nothing is
-- recorded. Any other request is refused with 401, 403 or 500, and leaves the world as it was.
pub require_staff-Outcome :
    (a : TokenAuth) (tick : Tick) (next : HandlerFunc) (r : Request) (c : Conn)
    → a.audited ≡ true
    → Outcome a tick next r c (require_staff a tick (audit_hook a tick next) r c)
require_staff-Outcome a tick next r c h =
    gated-Outcome a tick next r c h (require_staff-Gate a tick r c)

flagged :
    (claims : Claims)
    → claim_flag "is_staff" claims ≡ true
    → (extract_staff_identity claims).is_staff ≡ true
unfolding extract_staff_identity
flagged claims h = ground arith

-- A token that has no subject and no staff subject names no actor.
nameless :
    (a : TokenAuth) (tick : Tick) (claims : Claims) (r : Request)
    → claim_text "sub" claims ≡ ""
    → claim_text "staff_subject" claims ≡ ""
    → (extract_staff_identity claims).is_staff ≡ true
    → actor_of (with_claims claims (staff_token_subject a tick claims) r).context ≡ ""
unfolding actor_of with_claims enrich_context staff_token_subject extract_staff_identity
    staff_context
nameless a tick claims r sub subject staff = ground (arith)

-- A request that no other gate has authenticated, whose token is accepted and has the claim
-- `is_staff`, but names no subject and no staff subject, runs the staff handler and leaves no entry:
-- what comes of it is what the handler makes of it, with or without an audit store.
pub require_staff-unrecorded :
    (a : TokenAuth) (tick : Tick) (next : HandlerFunc) (r : Request) (c : Conn) (token : String)
    (claims : Claims)
    → r.context.is_staff ≡ false
    → r.context.user_id ≡ ""
    → cut_prefix (get_header "Authorization" r) "Bearer " ≡ some token
    → parse_token a tick token ≡ some claims
    → claim_flag "is_staff" claims ≡ true
    → claim_text "sub" claims ≡ ""
    → claim_text "staff_subject" claims ≡ ""
    → require_staff a tick (audit_hook a tick next) r c
      ≡ next (with_claims claims (staff_token_subject a tick claims) r) c
require_staff-unrecorded a tick next r c token claims s u e p flag sub subject =
    let staff = flagged claims flag in
    require_staff-token a tick r c (audit_hook a tick next) token claims s u e p staff
    ∙ audit_hook-unnamed a tick next (with_claims claims (staff_token_subject a tick claims) r) c
        (nameless a tick claims r sub subject staff)
