-- ===== src/Identity/Permits.antt =====
-- What a permission grant permits, in words, beside identity/authorization.py and audit/policy.py.
use intelligent_agent_platfo.Base.{
  ◌≡◌, ◌≢◌, ◌↔◌, inl, inr, refl, true, false, ◌&&◌, Option, none, some, List, [], ◌∷◌, any, elem,
  arith, ◌∙◌, ap, Bool, ◌==◌, ==-self, Bool-cases,
}
use intelligent_agent_platfo.Database.{Text, AuditEvent}
use intelligent_agent_platfo.Identity.Authorization.{
  DataScope, PermissionGrant, ResourceScope, AuthorizationContext, or_text, grant_allows, allows,
  sql_eq, audit_term, audit_scope_predicate,
}

-- The ways in which a grant covers a resource of its unit.
pub data Covers (g : PermissionGrant) (r : ResourceScope) (user_id : Text) : Type 0 where
  unit_wide : g.data_scope ≡ DataScope.unit → Covers g r user_id
  project_wide :
      (p : Text)
      → r.project_id ≡ some p
      → elem p g.project_ids ≡ true
      → g.data_scope ≢ DataScope.unit
      → g.data_scope ≢ DataScope.own
      → Covers g r user_id
  own_only :
      (p : Text)
      → r.project_id ≡ some p
      → elem p g.project_ids ≡ true
      → g.data_scope ≡ DataScope.own
      → or_text g.owner_user_id user_id ≡ or_text r.owner_user_id 0
      → Covers g r user_id

-- Some grant of a list has the permission and covers the resource.
pub data Granted (code : Text) (r : ResourceScope) (user_id : Text)
    : List PermissionGrant → Type 0 where
  here :
      {g : PermissionGrant} {gs : List PermissionGrant}
      → g.permission_code ≡ code
      → Covers g r user_id
      → Granted code r user_id (g ∷ gs)
  there :
      {g : PermissionGrant} {gs : List PermissionGrant}
      → Granted code r user_id gs
      → Granted code r user_id (g ∷ gs)

grant_allows-Covers :
    (g : PermissionGrant) (r : ResourceScope) (u : Text) → grant_allows g r u ≡ true → Covers g r u
unfolding grant_allows
grant_allows-Covers g r u h = go g.data_scope r.project_id refl refl
  where
    go : (sc : DataScope) (pr : Option Text) → g.data_scope ≡ sc → r.project_id ≡ pr → Covers g r u
    go DataScope.unit pr e f = Covers.unit_wide e
    go DataScope.assigned_projects none e f = ground (arith, h)
    go DataScope.assigned_projects (some p) e f =
        Covers.project_wide p f (ground (arith, h)) (ground arith) (ground arith)
    go DataScope.project none e f = ground (arith, h)
    go DataScope.project (some p) e f =
        Covers.project_wide p f (ground (arith, h)) (ground arith) (ground arith)
    go DataScope.custom_projects none e f = ground (arith, h)
    go DataScope.custom_projects (some p) e f =
        Covers.project_wide p f (ground (arith, h)) (ground arith) (ground arith)
    go DataScope.own none e f = ground (arith, h)
    go DataScope.own (some p) e f = Covers.own_only p f (ground (arith, h)) e (ground (arith, h))

Covers-grant_allows :
    (g : PermissionGrant) (r : ResourceScope) (u : Text) → Covers g r u → grant_allows g r u ≡ true
unfolding grant_allows
Covers-grant_allows g r u (Covers.unit_wide e) = ground arith
Covers-grant_allows g r u (Covers.project_wide p e m not_unit not_own) = ground arith
Covers-grant_allows g r u (Covers.own_only p e m o same) = ground arith

any-Granted :
    (code : Text) (r : ResourceScope) (u : Text) (gs : List PermissionGrant)
    → any (λ g. (g.permission_code == code) && grant_allows g r u) gs ≡ true
    → Granted code r u gs
any-Granted code r u [] h = cc
any-Granted code r u (g ∷ gs) h =
    elim (Bool-cases ((g.permission_code == code) && grant_allows g r u)) [
      | inl hit ↦ Granted.here (ground arith) (grant_allows-Covers g r u (ground arith))
      | inr miss ↦ Granted.there (any-Granted code r u gs (ground arith))
    ]

Granted-any :
    (code : Text) (r : ResourceScope) (u : Text) {gs : List PermissionGrant}
    → Granted code r u gs
    → any (λ g. (g.permission_code == code) && grant_allows g r u) gs ≡ true
Granted-any code r u (Granted.here {g} e c) = ground (arith, Covers-grant_allows g r u c)
Granted-any code r u (Granted.there d) = ground (arith, Granted-any code r u d)

-- A user is allowed exactly what some grant with the permission covers, in the user's own unit.
pub allows_iff :
    (context : AuthorizationContext) (code : Text) (r : ResourceScope)
    → (allows context code r ≡ true)
      ↔ ((r.unit_id ≡ context.unit_id) × Granted code r context.user_id context.grants)
unfolding allows
allows_iff context code r = (
  λ h. (ground arith, any-Granted code r context.user_id context.grants (ground arith)),
  λ (own_unit, granted). ground (arith, Granted-any code r context.user_id granted),
)

-- The owner that a grant names, if it names one, is the user: so the repository makes them, with
-- the user as the owner of each grant of the data scope `own`, and none of the others.
abbrev pub IsPersonal : Text → List PermissionGrant → Type 0
IsPersonal user_id [] = Unit
IsPersonal user_id (g ∷ gs) = (or_text g.owner_user_id user_id ≡ user_id) × IsPersonal user_id gs

-- The resource that an event of a unit is.
abbrev pub audited : Text → AuditEvent → ResourceScope
audited unit_id e = record {
  unit_id = unit_id;
  project_id = e.project_id;
  owner_user_id = e.user_id;
}

owner-user :
    (user_id : Text) (owner : Option Text)
    → user_id ≢ 0
    → (user_id == or_text owner 0) ≡ sql_eq owner user_id
owner-user user_id none known = ground arith
owner-user user_id (some o) known = ground arith

audit_terms-eq-grants :
    (audit_read : Text) (context : AuthorizationContext) (e : AuditEvent)
    (gs : List PermissionGrant)
    → context.user_id ≢ 0
    → IsPersonal context.user_id gs
    → e.unit_id ≡ some context.unit_id
    → any (audit_term audit_read context e) gs
      ≡ any
          (λ g.
            (g.permission_code == audit_read)
            && grant_allows g (audited context.unit_id e) context.user_id)
          gs
unfolding grant_allows
audit_terms-eq-grants audit_read context e [] known personal same = refl
audit_terms-eq-grants audit_read context e (g ∷ gs) known (own, others) same =
    rw (same, own, ← owner-user context.user_id e.user_id known, ==-self context.unit_id)
      (ground (arith, audit_terms-eq-grants audit_read context e gs known others same))

audit_terms-other_unit :
    (audit_read : Text) (context : AuthorizationContext) (e : AuditEvent)
    (gs : List PermissionGrant)
    → sql_eq e.unit_id context.unit_id ≡ false
    → any (audit_term audit_read context e) gs ≡ false
audit_terms-other_unit audit_read context e [] other = refl
audit_terms-other_unit audit_read context e (g ∷ gs) other =
    ground (arith, audit_terms-other_unit audit_read context e gs other)

-- What the authorization service says of an audit event; an event of the platform has no unit,
-- and is no resource.
abbrev pub event_allowed : Text → AuthorizationContext → AuditEvent → Option Text → Bool
event_allowed audit_read context e none = false
event_allowed audit_read context e (some unit_id) = allows context audit_read (audited unit_id e)

-- For a user with an identifier, whose grants name no other owner: the audit events that the user
-- sees are exactly those, of a unit, of which the authorization service allows the permission;
-- in particular none of another unit or of the platform.
pub audit_scope-eq-allows :
    (audit_read : Text) (context : AuthorizationContext) (e : AuditEvent)
    → context.user_id ≢ 0
    → IsPersonal context.user_id context.grants
    → audit_scope_predicate audit_read context e ≡ event_allowed audit_read context e e.unit_id
unfolding audit_scope_predicate allows
audit_scope-eq-allows audit_read context e known personal = go e.unit_id refl
  where
    go :
        (o : Option Text)
        → e.unit_id ≡ o
        → any (audit_term audit_read context e) context.grants
          ≡ event_allowed audit_read context e o
    go none p = audit_terms-other_unit audit_read context e context.grants (rw p refl)
    go (some u) p = elim (Bool-cases (u == context.unit_id)) [
      | inl same ↦
          let own : u ≡ context.unit_id = ground arith in
          rw own (
            rw (==-self context.unit_id) (
              audit_terms-eq-grants audit_read context e context.grants known personal
                (p ∙ ap some own)))
      | inr other ↦
          rw other (audit_terms-other_unit audit_read context e context.grants (rw p other))
    ]
