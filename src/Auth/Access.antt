-- ===== src/Auth/Access.antt =====
-- Roles, permissions and `AccessControl` of internal/store/auth.go.
pub mod Laws
use doupro.Base.{Bool, true, false}

-- `Role` is a string: `unlisted` stands for every other one, which `Valid` refuses.
pub data Role : Type 0 where
  admin write read unlisted : Role

pub data Permission : Type 0 where
  read_containers write_containers view_logs manage_schedules : Permission
  manage_notifications view_stats manage_settings manage_users : Permission
  unlisted : Permission

-- The fields `ViewLogs` and so on are spelled `may_…`, since the permissions have the same names.
pub record AccessControl : Type 0 where
  pub role : Role
  pub may_view_logs : Bool
  pub may_manage_schedules : Bool
  pub may_manage_notifications : Bool
  pub may_view_stats : Bool
  pub protected : Bool

unfoldable pub valid : AccessControl → Bool
valid a = elim a.role [ Role.unlisted ↦ false | _ ↦ true ]

-- `Can`, for a role other than admin
abbrev can_as : Role → AccessControl → Permission → Bool
can_as admin a p = true
can_as write a read_containers = true
can_as write a write_containers = true
can_as read a read_containers = true
can_as role a view_logs = a.may_view_logs
can_as role a manage_schedules = a.may_manage_schedules
can_as role a manage_notifications = a.may_manage_notifications
can_as role a view_stats = a.may_view_stats
can_as role a p = false

unfoldable pub can : AccessControl → Permission → Bool
can a p = can_as a.role a p
