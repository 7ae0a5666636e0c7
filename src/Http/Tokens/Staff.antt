-- ===== src/Http/Tokens/Staff.antt =====
-- `AuditHook` and `HandleStaffBreakGlass` of httpapi/middleware.go.
pub mod Trail
pub mod Recorded
use Prim.Native.String.{◌++◌}
use orbit_api_gateway.Base.{String, true, not, ◌&&◌, [], ◌∷◌, ◌==◌, if◌then◌else◌}
use orbit_api_gateway.Json.{str, object}
use orbit_api_gateway.Domain.Audit.{AuditEntry}
use orbit_api_gateway.World.{Tick}
use orbit_api_gateway.Service.Audit.{record_audit}
use orbit_api_gateway.Http.Message.{Request, Context, Conn, HandlerFunc, get_header, path_value}
use orbit_api_gateway.Http.Response.{write_json}
use orbit_api_gateway.Http.Tokens.{TokenAuth, refuse}

-- The organization that a staff action is about: the context's target, or the path's, or the
-- header's.
unfoldable pub org_of : Request → String
unfolding path_value get_header
org_of r =
    if not (r.context.target_org == "")
    then r.context.target_org
    else if not (path_value "org_id" r == "")
    then path_value "org_id" r
    else get_header "X-Org-Id" r

-- The actor of an action.
unfoldable pub actor_of : Context → String
actor_of ctx =
    if ctx.is_staff && not (ctx.staff_subject == "") then ctx.staff_subject else ctx.user_id

-- The entry that `AuditHook` records; the identifier and the time are filled in by `RecordAudit`.
unfoldable pub hook_entry : Request → AuditEntry
unfolding org_of actor_of
hook_entry r = record {
  id = "";
  org_id = org_of r;
  actor = actor_of r.context;
  actor_type = if r.context.is_staff then "staff" else "user";
  is_staff = r.context.is_staff;
  break_glass = r.context.break_glass;
  reason = r.context.break_glass_reason;
  action = r.method ++ (" " ++ r.path);
  resource = r.path;
  timestamp = 0;
}

-- The entry that `HandleStaffBreakGlass` records.
unfoldable pub break_glass_entry : Request → AuditEntry
unfolding org_of
break_glass_entry r = record {
  id = "";
  org_id = org_of r;
  actor = r.context.staff_subject;
  actor_type = "staff";
  is_staff = true;
  break_glass = true;
  reason = r.context.break_glass_reason;
  action = "break_glass.access";
  resource = r.path;
  timestamp = 0;
}

module _ (a : TokenAuth) (tick : Tick) where
  -- A record in the audit store, where there is one.
  unfoldable pub audit : AuditEntry → Conn → Conn
  unfolding record_audit
  audit entry c = if a.audited then record c { world = record_audit tick entry c.world } else c

  -- `AuditHook`
  unfoldable pub audit_hook : HandlerFunc → HandlerFunc
  unfolding audit hook_entry
  audit_hook next r c =
      let done = next r c in if actor_of r.context == "" then done else audit (hook_entry r) done

  -- `HandleStaffBreakGlass`
  unfoldable pub handle_staff_break_glass : HandlerFunc
  unfolding audit break_glass_entry write_json
  handle_staff_break_glass r c =
      if not r.context.is_staff
      then refuse 403 "staff access required" c.world c
      else if r.context.break_glass_reason == ""
      then refuse 400 "break-glass reason required" c.world c
      else let c' = audit (break_glass_entry r) c in
        record c' {
          response =
              write_json 200
                (object (
                  ("org_id", str (org_of r))
                  ∷ ("reason", str r.context.break_glass_reason)
                  ∷ ("staff_subject", str r.context.staff_subject)
                  ∷ ("status", str "break_glass_granted")
                  ∷ []))
                c'.response;
        }
