-- ===== src/Auth/Access/Laws.antt =====
-- Which assignment grants which permission.
use doupro.Base.{◌≡◌, refl, ◌↔◌, ◌⊎◌, inl, inr, Bool, true, false, arith}
use doupro.Auth.Access.{
  Role, admin, write, read, Permission, read_containers, write_containers, view_logs,
  manage_schedules, manage_notifications, view_stats, AccessControl, can,
}

-- The flag that grants a permission to every role, if there is one.
abbrev flag : AccessControl → Permission → Bool
flag a view_logs = a.may_view_logs
flag a manage_schedules = a.may_manage_schedules
flag a manage_notifications = a.may_manage_notifications
flag a view_stats = a.may_view_stats
flag a _ = false

-- What grants a permission: the admin role anything, the write role reading and writing containers,
-- the read role reading them, and a flag its own permission.
pub data Granted (a : AccessControl) : Permission → Type 0 where
  by_admin : (p : Permission) → a.role ≡ admin → Granted a p
  by_write : a.role ≡ write → Granted a write_containers
  by_read : (a.role ≡ write) ⊎ (a.role ≡ read) → Granted a read_containers
  by_flag : (p : Permission) → flag a p ≡ true → Granted a p

can_sound :
    (r : Role) (a : AccessControl) (p : Permission) → a.role ≡ r → can a p ≡ true → Granted a p
unfolding can
can_sound admin a p e h = by_admin p e
can_sound write a read_containers e h = by_read (inl e)
can_sound write a write_containers e h = by_write e
can_sound read a read_containers e h = by_read (inr e)
can_sound r a p e h = by_flag p (ground arith)

can_complete : (a : AccessControl) {p : Permission} → Granted a p → can a p ≡ true
unfolding can
can_complete a (by_admin p e) = rw e
can_complete a (by_write e) = rw e
can_complete a (by_read (inl e)) = rw e
can_complete a (by_read (inr e)) = rw e
can_complete a (by_flag p e) = ground arith

-- `Can` grants exactly what the role or a flag of the assignment grants.
pub can_iff : (a : AccessControl) (p : Permission) → (can a p ≡ true) ↔ Granted a p
can_iff a p = (can_sound a.role a p refl, can_complete a)
