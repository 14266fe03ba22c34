-- ===== src/Identity/Authorization.antt =====
-- backend/app/identity/authorization.py and the records of identity/schemas.py that it reads, and
-- the audit scope of backend/app/audit/policy.py. Permission codes are texts; a set is a list.
use intelligent_agent_platfo.Base.{
  Bool, true, false, ◌&&◌, ◌||◌, not, Option, none, some, List, [], ◌∷◌, ◌++◌, any, elem, ◌==◌,
  if◌then◌else◌,
}
use intelligent_agent_platfo.Database.{Text, AuditEvent}

pub data DataScope : Type 0 where
  unit assigned_projects project own custom_projects : DataScope

pub data PermissionTarget : Type 0 where
  unit current_project : PermissionTarget

pub record PermissionGrant : Type 0 where
  pub permission_code : Text
  pub data_scope : DataScope
  pub project_ids : List Text
  pub owner_user_id : Option Text

pub record ResourceScope : Type 0 where
  pub unit_id : Text
  pub project_id : Option Text
  pub owner_user_id : Option Text

pub record PermissionCapability : Type 0 where
  pub code : Text
  pub target : PermissionTarget

pub record AuthorizationContext : Type 0 where
  pub user_id : Text
  pub unit_id : Text
  pub current_project_id : Option Text
  pub role_codes : List Text
  pub grants : List PermissionGrant

-- Python's `o or d`: `None` and the empty text are false.
abbrev pub or_text : Option Text → Text → Text
or_text none d = d
or_text (some t) d = if t == 0 then d else t

abbrev pub is_unit : DataScope → Bool
is_unit DataScope.unit = true
is_unit _ = false

abbrev pub is_own : DataScope → Bool
is_own DataScope.own = true
is_own _ = false

-- `{"assigned_projects", "project", "custom_projects"}`
abbrev pub is_project_wide : DataScope → Bool
is_project_wide DataScope.assigned_projects = true
is_project_wide DataScope.project = true
is_project_wide DataScope.custom_projects = true
is_project_wide _ = false

abbrev pub in_projects : Option Text → List Text → Bool
in_projects none ids = false
in_projects (some p) ids = elem p ids

-- `_grant_allows`
unfoldable pub grant_allows : PermissionGrant → ResourceScope → Text → Bool
grant_allows grant resource user_id =
    if is_unit grant.data_scope
    then true
    else if not (in_projects resource.project_id grant.project_ids)
    then false
    else if is_project_wide grant.data_scope
    then true
    else is_own grant.data_scope
      && (or_text grant.owner_user_id user_id == or_text resource.owner_user_id 0)

unfoldable pub allows : AuthorizationContext → Text → ResourceScope → Bool
unfolding grant_allows
allows context permission_code resource =
    if not (resource.unit_id == context.unit_id)
    then false
    else any
        (λ g. (g.permission_code == permission_code) && grant_allows g resource context.user_id)
        context.grants

unfoldable pub allows_entry : AuthorizationContext → Text → PermissionTarget → Bool
unfolding allows
allows_entry context permission_code PermissionTarget.unit =
    any (λ g. (g.permission_code == permission_code) && is_unit g.data_scope) context.grants
allows_entry context permission_code PermissionTarget.current_project =
    elim context.current_project_id [
      | none ↦ false
      | some p ↦ allows context permission_code (record {
        unit_id = context.unit_id;
        project_id = some p;
        owner_user_id = some context.user_id;
      })
    ]

abbrev entry : AuthorizationContext → Text → PermissionTarget → List PermissionCapability
entry context code target =
    if allows_entry context code target then record { code = code; target = target } ∷ [] else []

-- The loop of `entry_capabilities`, as a set.
unfoldable pub capabilities_of :
    AuthorizationContext → List PermissionGrant → List PermissionCapability
unfolding allows_entry
capabilities_of context [] = []
capabilities_of context (g ∷ gs) =
    entry context g.permission_code PermissionTarget.unit
    ++ (entry context g.permission_code PermissionTarget.current_project
        ++ capabilities_of context gs)

unfoldable pub entry_capabilities : AuthorizationContext → List PermissionCapability
unfolding capabilities_of
entry_capabilities context = capabilities_of context context.grants

unfoldable pub with_project : AuthorizationContext → Option Text → AuthorizationContext
with_project context project_id = record context { current_project_id = project_id }

-- SQL's `column == value`, of which NULL counts as false in a `where`
abbrev pub sql_eq : Option Text → Text → Bool
sql_eq none t = false
sql_eq (some u) t = u == t

-- The term that `audit_scope_predicate` adds for a grant. `audit_read` stands for "audit.read".
abbrev pub audit_term : Text → AuthorizationContext → AuditEvent → PermissionGrant → Bool
audit_term audit_read context event grant =
    if not (grant.permission_code == audit_read)
    then false
    else if is_unit grant.data_scope
    then sql_eq event.unit_id context.unit_id
    else sql_eq event.unit_id context.unit_id
      && (in_projects event.project_id grant.project_ids
          && (not (is_own grant.data_scope) || sql_eq event.user_id context.user_id))

-- Which audit events a user sees: `or_(*terms)`, or `false()`.
unfoldable pub audit_scope_predicate : Text → AuthorizationContext → AuditEvent → Bool
audit_scope_predicate audit_read context event =
    any (audit_term audit_read context event) context.grants
