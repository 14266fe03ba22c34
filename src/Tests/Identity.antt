-- ===== src/Tests/Identity.antt =====
-- Permissions at concrete inputs: a user who reads a project's audit events, and their own.
use intelligent_agent_platfo.Base.{◌≡◌, ◌↔◌, refl, arith, none, some, true, [], ◌∷◌}
use intelligent_agent_platfo.Database.{AuditEvent, AuditKey, AuditStatus, RiskLevel}
use intelligent_agent_platfo.Identity.Authorization.{
  DataScope, PermissionGrant, ResourceScope, AuthorizationContext, allows, audit_scope_predicate,
}
use intelligent_agent_platfo.Identity.Permits.{Granted, allows_iff, audit_scope-eq-allows}

abbrev own_grant : PermissionGrant
own_grant = record {
  permission_code = 9;
  data_scope = DataScope.own;
  project_ids = 2 ∷ [];
  owner_user_id = some 3;
}

abbrev project_grant : PermissionGrant
project_grant = record own_grant {
  data_scope = DataScope.project;
  project_ids = 5 ∷ [];
  owner_user_id = none;
}

abbrev user : AuthorizationContext
user = record {
  user_id = 3;
  unit_id = 1;
  current_project_id = some 2;
  role_codes = 8 ∷ [];
  grants = own_grant ∷ project_grant ∷ [];
}

abbrev resource : ResourceScope
resource = record { unit_id = 1; project_id = some 5; owner_user_id = some 4 }

allows_iff_example :
    (allows user 9 resource ≡ true)
    ↔ ((resource.unit_id ≡ user.unit_id) × Granted 9 resource 3 user.grants)
allows_iff_example = allows_iff user 9 resource

abbrev seen : AuditEvent
seen = record {
  idempotency_key = AuditKey.skill_script_terminal 20;
  unit_id = some 1;
  project_id = some 2;
  user_id = some 3;
  actor_roles = [];
  status = AuditStatus.succeeded;
  risk_level = RiskLevel.low;
  run_id = 11;
  resource_id = 20;
  error_code = none;
  duration_ms = none;
}

audit_scope-eq-allows_example :
    audit_scope_predicate 9 user seen
    ≡ allows user 9 (record { unit_id = 1; project_id = some 2; owner_user_id = some 3 })
audit_scope-eq-allows_example = audit_scope-eq-allows 9 user seen (omega arith) (refl, (refl, tt))
