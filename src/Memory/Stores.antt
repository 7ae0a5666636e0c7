-- ===== src/Memory/Stores.antt =====
-- memory/memory.go and memory/audit.go.
use orbit_api_gateway.Base.{
  String, Bool, ◌||◌, Option, none, some, List, [], ◌∷◌, ◌++◌, ◌==◌, if◌then◌else◌,
}
use orbit_api_gateway.Base.Map.{Map, lookup, insert, erase}
use orbit_api_gateway.Domain.Ownership.{Challenge}
use orbit_api_gateway.Domain.Onboarding.{ClaimResult}
use orbit_api_gateway.Domain.Audit.{AuditEntry}

-- `Challenges`, under its mutex
abbrev pub Challenges : Type 0
Challenges = Map Challenge

-- `NewChallenges`
abbrev pub new_challenges : Challenges
new_challenges = []

-- `Claims`, under its mutex
abbrev pub Claims : Type 0
Claims = Map ClaimResult

-- `NewClaims`
abbrev pub new_claims : Claims
new_claims = []

-- `AuditStore`, under its mutex
abbrev pub AuditStore : Type 0
AuditStore = List AuditEntry

-- `NewAuditStore`
abbrev pub new_audit_store : AuditStore
new_audit_store = []

-- `Challenges.Save`
unfoldable pub save : String → Challenge → Challenges → Challenges
unfolding insert
save email challenge items = insert email challenge items

-- `Challenges.Confirm`: `none` where it reports false.
unfoldable pub confirm : String → (Challenge → Bool) → Challenges → Option Challenge × Challenges
unfolding lookup erase
confirm email accept items = elim (lookup email items) [
  | none ↦ (none, items)
  | some challenge ↦ if accept challenge then (some challenge, erase email items) else (none, items)
]

-- `Claims.Get`
unfoldable pub get : String → Claims → Option ClaimResult
unfolding lookup
get key items = lookup key items

-- `Claims.Put`
unfoldable pub put : String → ClaimResult → Claims → Claims
unfolding insert
put key result items = insert key result items

-- `AuditStore.Record`
unfoldable pub record_entry : AuditEntry → AuditStore → AuditStore
record_entry entry entries = entries ++ entry ∷ []

-- `AuditStore.ListByOrg`
unfoldable pub list_by_org : String → AuditStore → List AuditEntry
list_by_org org_id [] = []
list_by_org org_id (e ∷ entries) =
    let rest = list_by_org org_id entries in
    if org_id == "" || e.org_id == org_id then e ∷ rest else rest

-- `AuditStore.All`
unfoldable pub all_entries : AuditStore → List AuditEntry
all_entries entries = entries
