-- ===== src/Models/Passwords.antt =====
-- `User.set_password` and `User.check_password` of app/models.py. The functions of werkzeug.security
-- and of bcrypt are parameters; a hash that they cannot read is no match.
use Prim.Native.Char.{code}
use narsika.Base.{suc, String, Bool, true, false, ◌&&◌, ◌||◌, ◌==◌, nat_eq, text_eq, if◌then◌else◌}
use narsika.Models.{User}

pub record Hashing : Type 0 where
  pub generate : String → String
  pub check : String → String → Bool
  pub check_bcrypt : String → String → Bool

-- `s.startswith(prefix)`
unfoldable pub starts_with : String → String → Bool
starts_with String.[] s = true
starts_with (String.◌∷◌ c p) String.[] = false
starts_with (String.◌∷◌ c p) (String.◌∷◌ d s) = code c == code d && starts_with p s

module _ (hashing : Hashing) where
  unfoldable pub set_password : String → User → User
  set_password value user = record user {
    password_hash = hashing.generate value;
    password = "";
    session_version = suc user.session_version;
  }

  unfoldable pub check_encoded : String → String → Bool
  unfolding starts_with
  check_encoded encoded value =
      if starts_with "$2a$" encoded || starts_with "$2b$" encoded || starts_with "$2y$" encoded
      then hashing.check_bcrypt value encoded
      else hashing.check encoded value

  -- `self.password_hash or self.password`
  unfoldable pub check_password : User → String → Bool
  unfolding check_encoded
  check_password user value =
      check_encoded (if user.password_hash == "" then user.password else user.password_hash) value
