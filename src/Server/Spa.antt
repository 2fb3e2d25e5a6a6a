-- ===== src/Server/Spa.antt =====
-- server/internal/web/embed.go: the embedded pages. What the directory holds, and what http.FileServer
-- answers for a path in it, are arguments.
use clawgard.Prelude.{
  ℕ, String, Bool, true, false, not, ◌&&◌, ◌||◌, Option, none, some, List, [], ◌∷◌, ◌==◌,
  Comparable-String, if◌then◌else◌, strip_prefix,
}

pub data Body : Type 0 where
  nothing index_page : Body
  file : String → Body

pub record Page : Type 0 where
  pub status : ℕ
  pub headers : List (String × String)
  pub body : Body

pub record Dist : Type 0 where
  -- whether `sub.Open(name)` succeeds
  pub opens : String → Bool
  pub file_server : String → Page

abbrev pub is_some : Option String → Bool
is_some none = false
is_some (some s) = true

abbrev pub has_prefix : String → String → Bool
has_prefix s p = is_some (strip_prefix p s)

abbrev pub or_whole : String → Option String → String
or_whole s none = s
or_whole s (some rest) = rest

abbrev pub trim_prefix : String → String → String
trim_prefix s p = or_whole s (strip_prefix p s)

abbrev pub csp : String
csp =
    "default-src 'self'; script-src 'self'; style-src 'self' 'unsafe-inline'; img-src 'self' data:; font-src 'self' data:; connect-src 'self'; frame-ancestors 'none'; base-uri 'self'; form-action 'self'"

abbrev pub index : Page
index = record {
  status = 200;
  headers =
      ("Content-Type", "text/html; charset=utf-8")
      ∷ ("Content-Security-Policy", csp)
      ∷ ("X-Frame-Options", "DENY")
      ∷ ("X-Content-Type-Options", "nosniff")
      ∷ ("Referrer-Policy", "no-referrer")
      ∷ [];
  body = index_page;
}

abbrev pub not_found : Page
not_found = record { status = 404; headers = []; body = nothing }

abbrev pub cached : Page → Page
cached p = record p {
  headers = ("Cache-Control", "public, max-age=31536000, immutable") ∷ p.headers;
}

-- The page for the path of a request.
unfoldable pub serve_spa : Dist → String → Page
serve_spa d p =
    if has_prefix p "/v1/" || has_prefix p "/auth/"
    then not_found
    else if has_prefix p "/assets/" && d.opens (trim_prefix p "/")
    then cached (d.file_server p)
    else if not (trim_prefix p "/" == "") && d.opens (trim_prefix p "/")
    then d.file_server p
    else index
