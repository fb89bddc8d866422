-- ===== src/Impersonation/Audits.antt =====
-- The audit table after an entry is saved.
use remote_connect_backend.Base.{
  ℕ, ◌≡◌, refl, Bool, true, false, Option, none, some, is_some, List, [], ◌∷◌, ◌++◌, arith,
  if◌then◌else◌, Bool-cases, inl, inr,
}
use remote_connect_backend.Base.Text.{Text, ◌≐◌, ≐_self, ≐_iff}
use remote_connect_backend.Impersonation.World.{
  Reason, active, ended, ImpersonationAudit, AuditFields, starts, ends, find_audit, set_fields,
  change_audit, save_audit_entry,
}

-- No row, or one that is ended.
abbrev pub is_ended : Option ImpersonationAudit → Bool
is_ended none = true
is_ended (some a) = elim a.status [ ended ↦ true | active ↦ false ]

abbrev pub is_active : Option ImpersonationAudit → Bool
is_active none = false
is_active (some a) = elim a.status [ ended ↦ false | active ↦ true ]

change_audit-ends :
    (id : Text) (now : ℕ) (reason : Reason) (audits : List ImpersonationAudit)
    → is_ended (find_audit id (change_audit id (ends now reason) audits)) ≡ true
change_audit-ends id now reason [] = refl
change_audit-ends id now reason (a ∷ rest) = ground (arith, change_audit-ends id now reason rest)

pub save_audit_entry-ends :
    (id : Text) (now : ℕ) (reason : Reason) (audits : List ImpersonationAudit)
    → is_ended (find_audit id (save_audit_entry id (ends now reason) audits)) ≡ true
unfolding save_audit_entry
save_audit_entry-ends id now reason audits = ground (arith, change_audit-ends id now reason audits)

change_audit-starts :
    (id : Text) (admin target now : ℕ) (audits : List ImpersonationAudit)
    → is_some (find_audit id audits) ≡ true
    → is_active (find_audit id (change_audit id (starts admin target now) audits)) ≡ true
change_audit-starts id admin target now [] h = cc
change_audit-starts id admin target now (a ∷ rest) h =
    ground (arith, change_audit-starts id admin target now rest)

find_audit-append :
    (j : Text) (a : ImpersonationAudit) (audits : List ImpersonationAudit)
    → find_audit j (audits ++ a ∷ []) ≡ (
        if is_some (find_audit j audits)
        then find_audit j audits
        else if a.audited_id ≐ j
        then some a
        else none)
find_audit-append j a [] = refl
find_audit-append j a (b ∷ rest) = ground (arith, find_audit-append j a rest)

pub save_audit_entry-starts :
    (id : Text) (admin target now : ℕ) (audits : List ImpersonationAudit)
    → is_active (find_audit id (save_audit_entry id (starts admin target now) audits)) ≡ true
unfolding save_audit_entry
save_audit_entry-starts id admin target now audits =
    elim (Bool-cases (is_some (find_audit id audits))) [
      | inl there ↦ ground (arith, there, change_audit-starts id admin target now audits)
      | inr missing ↦
          let a : ImpersonationAudit = record {
            audited_id = id;
            admin_user_id = admin;
            target_user_id = target;
            started_at = now;
            ended_at = none;
            termination_reason = none;
            status = active;
          } in
          ground (arith, missing, find_audit-append id a audits, ≐_self id)
    ]

set_fields-audited_id :
    (fields : AuditFields) (a : ImpersonationAudit)
    → (set_fields fields a).audited_id ≡ a.audited_id
set_fields-audited_id (starts admin target now) a = refl
set_fields-audited_id (ends now reason) a = refl

change_audit-other :
    (id j : Text) (fields : AuditFields) (audits : List ImpersonationAudit)
    → (id ≐ j) ≡ false
    → find_audit j (change_audit id fields audits) ≡ find_audit j audits
change_audit-other id j fields [] h = refl
change_audit-other id j fields (a ∷ rest) h = ground (
  arith,
  set_fields-audited_id fields a,
  change_audit-other id j fields rest,
  ≐_iff a.audited_id id,
  ≐_iff a.audited_id j,
)

-- An entry of another id stays as it was.
pub save_audit_entry-other :
    (id j : Text) (fields : AuditFields) (audits : List ImpersonationAudit)
    → (id ≐ j) ≡ false
    → find_audit j (save_audit_entry id fields audits) ≡ find_audit j audits
unfolding save_audit_entry
save_audit_entry-other id j (ends now reason) audits h =
    ground (arith, change_audit-other id j (ends now reason) audits h)
save_audit_entry-other id j (starts admin target now) audits h =
    let a : ImpersonationAudit = record {
      audited_id = id;
      admin_user_id = admin;
      target_user_id = target;
      started_at = now;
      ended_at = none;
      termination_reason = none;
      status = active;
    } in
    ground (
      arith,
      change_audit-other id j (starts admin target now) audits h,
      find_audit-append j a audits,
    )
