-- ===== src/Users.antt =====
-- The rows of apps/app/modules/user/entities/user_entity.py that authentication and impersonation
-- read, and `get_by_id` of apps/app/utils/repositories/base_repository.py for them.
use remote_connect_backend.Base.{ℕ, Bool, Option, none, some, List, [], ◌∷◌, if◌then◌else◌, ◌==◌}
use remote_connect_backend.Base.Text.{Text}

pub record User : Type 0 where
  pub user_id : ℕ
  pub name : Option Text
  pub email : Text
  pub is_active : Bool
  pub is_admin : Bool
  pub deleted_at : Option ℕ

unfoldable pub get_by_id : ℕ → List User → Option User
get_by_id id [] = none
get_by_id id (u ∷ us) = if u.user_id == id then some u else get_by_id id us
