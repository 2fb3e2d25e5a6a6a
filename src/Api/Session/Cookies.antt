-- ===== src/Api/Session/Cookies.antt =====
-- The session cookie of server/internal/api/session.go, and the logout of auth_callback.go.
use clawgard.Prelude.{ℕ, ◌+◌, ◌≡◌, refl, String, Bool, true, not, List, []}
use clawgard.Api.Session.{Codec, sign}

-- Until when a browser keeps a cookie: `MaxAge: -1` takes it away.
pub data Lifetime : Type 0 where
  expires : ℕ → Lifetime
  removed : Lifetime

pub record Cookie : Type 0 where
  pub name : String
  pub value : List ℕ
  pub path : String
  pub http_only : Bool
  pub secure : Bool
  pub same_site_lax : Bool
  pub lifetime : Lifetime

abbrev pub session_cookie_name : String
session_cookie_name = "clawgard_session"

unfoldable pub set_cookie : Codec → String → ℕ → Bool → ℕ → Cookie
set_cookie c email ttl dev now = record {
  name = session_cookie_name;
  value = sign c email ttl now;
  path = "/";
  http_only = true;
  secure = not dev;
  same_site_lax = true;
  lifetime = expires (now + ttl);
}

unfoldable pub clear : Bool → Cookie
clear dev = record {
  name = session_cookie_name;
  value = [];
  path = "/";
  http_only = true;
  secure = not dev;
  same_site_lax = true;
  lifetime = removed;
}

-- `Logout`: 204, whether or not there was a session.
unfoldable pub logout : Bool → Cookie × ℕ
unfolding clear
logout dev = (clear dev, 204)

-- The cookie of a logout has the name, the path and the marks of the one of a login, which a browser needs
-- to see the same cookie.
logout-set_cookie :
    (c : Codec) (email : String) (ttl now : ℕ) (dev : Bool)
    → record (set_cookie c email ttl dev now) { value = []; lifetime = removed } ≡ (logout dev).0
unfolding set_cookie logout
logout-set_cookie c email ttl now dev = refl
