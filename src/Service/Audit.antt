-- ===== src/Service/Audit.antt =====
-- The audit methods of application/service.go, by what is wired. cmd/gateway wires the store, the
-- clock and the code generator.
use Prim.Native.String.{◌++◌}
use orbit_api_gateway.Base.{Bool, true, String, List, [], ◌==◌, eqb, if◌then◌else◌}
use orbit_api_gateway.Base.Strings.{itoa}
use orbit_api_gateway.Domain.Runtime.{Time, unix_nano}
use orbit_api_gateway.Domain.Audit.{AuditEntry}
use orbit_api_gateway.Memory.Stores.{record_entry, list_by_org}
use orbit_api_gateway.World.{World, Tick, Op, pure}

-- `Timestamp.IsZero`
abbrev pub stamp : Tick → Time → Time
stamp tick t = if eqb t 0 then tick.now else t

-- The ID that an entry without one gets, by whether a code generator is wired.
abbrev pub name_entry : Bool → Tick → Time → String → String
name_entry has_codes tick t id =
    if id == ""
    then if has_codes
      then "audit-" ++ (tick.code ++ ("-" ++ itoa (unix_nano t)))
      else "audit-" ++ itoa (unix_nano t)
    else id

-- The entry that `RecordAudit` hands to the store. Without a clock it asks the system for the time.
unfoldable pub complete : Bool → Tick → AuditEntry → AuditEntry
complete has_codes tick entry =
    let t = stamp tick entry.timestamp in
    record entry { timestamp = t; id = name_entry has_codes tick t entry.id }

unfoldable pub completed : Tick → AuditEntry → AuditEntry
unfolding complete
completed tick entry = complete true tick entry

-- `RecordAudit`, by whether a store and a code generator are wired
unfoldable pub record_audit_as : Bool → Bool → Tick → AuditEntry → World → World
unfolding complete record_entry
record_audit_as has_store has_codes tick entry w =
    if has_store
    then record w { audit = record_entry (complete has_codes tick entry) w.audit }
    else w

-- `RecordAudit` of the service that cmd/gateway builds
unfoldable pub record_audit : Tick → AuditEntry → World → World
unfolding record_audit_as completed
record_audit tick entry w = record_audit_as true true tick entry w

-- `ListAuditEntries`, by whether a store is wired
unfoldable pub list_audit_entries_as : Bool → String → Op (List AuditEntry)
list_audit_entries_as has_store org_id w =
    if has_store then pure (list_by_org org_id w.audit) w else pure [] w

-- `ListAuditEntries` of the service that cmd/gateway builds
unfoldable pub list_audit_entries : String → Op (List AuditEntry)
unfolding list_audit_entries_as
list_audit_entries org_id w = list_audit_entries_as true org_id w
