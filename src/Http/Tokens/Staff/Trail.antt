-- ===== src/Http/Tokens/Staff/Trail.antt =====
-- What the staff routes leave in the audit store.
use orbit_api_gateway.Base.{
  ◌≡◌, ◌⊎◌, inl, inr, refl, String, Bool, true, false, ◌||◌, eq_iff, not, if◌then◌else◌, List, [],
  ◌∷◌, ◌++◌, ◌==◌, arith, Bool-cases,
}
use mathlib.Core.List.{append-nil}
use orbit_api_gateway.Json.{str, object}
use orbit_api_gateway.Domain.Audit.{AuditEntry}
use orbit_api_gateway.Memory.Stores.{list_by_org, record_entry}
use orbit_api_gateway.World.{World, Tick}
use orbit_api_gateway.Service.Audit.{record_audit, completed}
use orbit_api_gateway.Http.Message.{Request, Response, Conn}
use orbit_api_gateway.Http.Response.{write_json}
use orbit_api_gateway.Http.Tokens.{TokenAuth, refuse}
use orbit_api_gateway.Http.Tokens.Staff.{org_of, break_glass_entry, audit, handle_staff_break_glass}

-- The document of an access that was granted.
abbrev granted : Request → Response → Response
granted r = write_json 200 (
    object (
      ("org_id", str (org_of r))
      ∷ ("reason", str r.context.break_glass_reason)
      ∷ ("staff_subject", str r.context.staff_subject)
      ∷ ("status", str "break_glass_granted")
      ∷ []))

-- What the break-glass route makes of a request: it refuses it and changes nothing, or it grants
-- the access and has put the entry into the audit store.
pub data BreakGlass (tick : Tick) (r : Request) (c : Conn) : Conn → Type 0 where
  not_staff :
      r.context.is_staff ≡ false
      → BreakGlass tick r c (refuse 403 "staff access required" c.world c)
  no_reason :
      r.context.is_staff ≡ true
      → r.context.break_glass_reason ≡ ""
      → BreakGlass tick r c (refuse 400 "break-glass reason required" c.world c)
  access :
      r.context.is_staff ≡ true
      → ¬ (r.context.break_glass_reason ≡ "")
      → BreakGlass tick r c (record {
        world = record c.world {
          audit = c.world.audit ++ completed tick (break_glass_entry r) ∷ [];
        };
        response = granted r c.response;
      })

-- The route for the outcomes of its tests.
outcome-BreakGlass :
    (tick : Tick) (r : Request) (c : Conn) (staff blank audited : Bool)
    → r.context.is_staff ≡ staff
    → (r.context.break_glass_reason == "") ≡ blank
    → audited ≡ true
    → BreakGlass tick r c (
        if not staff
        then refuse 403 "staff access required" c.world c
        else if blank
        then refuse 400 "break-glass reason required" c.world c
        else let c' =
            if audited
            then record c { world = record_audit tick (break_glass_entry r) c.world }
            else c in
          record c' { response = granted r c'.response })
unfolding record_audit record_entry
outcome-BreakGlass tick r c false blank audited s b h = not_staff s
outcome-BreakGlass tick r c true true audited s b h =
    no_reason s (ground (arith, eq_iff r.context.break_glass_reason ""))
outcome-BreakGlass tick r c true false true s b h =
    access s (ground (arith, eq_iff r.context.break_glass_reason ""))
outcome-BreakGlass tick r c true false false s b h = ground arith

-- With an audit store, the break-glass route grants an access only to staff who give a reason, and
-- then exactly one entry is appended to the audit store; otherwise it answers 403 or 400 and the
-- world is unchanged.
pub handle_staff_break_glass-BreakGlass :
    (a : TokenAuth) (tick : Tick) (r : Request) (c : Conn)
    → a.audited ≡ true
    → BreakGlass tick r c (handle_staff_break_glass a tick r c)
unfolding handle_staff_break_glass audit record_audit record_entry
handle_staff_break_glass-BreakGlass a tick r c h =
    outcome-BreakGlass tick r c r.context.is_staff (r.context.break_glass_reason == "") a.audited
      refl refl h

-- An entry at the end of the store is listed last, or not at all.
list-append :
    (org_id : String) (entries : List AuditEntry) (e : AuditEntry)
    → list_by_org org_id (entries ++ e ∷ [])
      ≡ list_by_org org_id entries ++ list_by_org org_id (e ∷ [])
unfolding list_by_org
list-append org_id [] e = refl
list-append org_id (x ∷ entries) e =
    let rest = list-append org_id entries e in
    elim (Bool-cases (org_id == "" || x.org_id == org_id)) [
      | inl h ↦ rw (h, rest) refl
      | inr h ↦ rw (h, rest) refl
    ]

-- An entry that is recorded is the last one that is listed for its organization, and for the empty
-- name, and the list of any other organization stays as it was.
pub list-record :
    (tick : Tick) (entry : AuditEntry) (org_id : String) (w : World)
    → (((org_id ≡ "") ⊎ (org_id ≡ entry.org_id))
        × (list_by_org org_id (record_audit tick entry w).audit
            ≡ list_by_org org_id w.audit ++ completed tick entry ∷ []))
      ⊎ ((¬ (org_id ≡ ""))
          × (¬ (org_id ≡ entry.org_id))
          × (list_by_org org_id (record_audit tick entry w).audit ≡ list_by_org org_id w.audit))
unfolding record_audit record_entry list_by_org completed
list-record tick entry org_id w =
    let e = completed tick entry in
    let list = list-append org_id w.audit e in
    elim (Bool-cases (org_id == "" || e.org_id == org_id)) [
      | inl h ↦
          inl (ground (arith, eq_iff org_id "", eq_iff entry.org_id org_id), rw (list, h) refl)
      | inr h ↦ inr (
        ground (arith, eq_iff org_id "", eq_iff entry.org_id org_id),
        ground (arith, eq_iff org_id "", eq_iff entry.org_id org_id),
        rw (list, h) (append-nil (list_by_org org_id w.audit)),
      )
    ]
