-- ===== src/Api/Acl/Listing.antt =====
-- The two readings of a buddy's ACL: the listing's in server/internal/store/buddies.go and the one of
-- server/internal/api/hatchling.go.
use clawgard.Prelude.{
  ◌≡◌, refl, ap, if◌then◌else◌, String, Bool, true, false, ◌&&◌, ◌||◌, Option, none, some, List,
  arith, eq_iff, ◌==◌, Comparable-String,
}
use clawgard.Store.Db.{BuddyRow}
use clawgard.Store.Threads.{text_or_empty}
use clawgard.Store.Buddies.{any_of, is_null, group_in, scan_buddy, visible}
use clawgard.Api.Http.{Identity}
use clawgard.Api.Acl.{acl_allows}

group_in-text :
    (o : Option String) (groups : List String)
    → any_of "" groups ≡ false
    → any_of (text_or_empty o) groups ≡ group_in o groups
group_in-text none groups h = h
group_in-text (some g) groups h = refl

not_both : (mode : String) → (mode == "users") ≡ true → (mode == "group") ≡ false
not_both mode h = ap (λ m. m == "group") ((eq_iff mode "users").0 h)

-- A caller with no empty group name is listed exactly the live buddies that they may ask, and those
-- that they own.
pub visible_lem :
    (id : Identity) (r : BuddyRow)
    → any_of "" id.groups ≡ false
    → visible id.email id.groups r
      ≡ (is_null r.deleted_at && (acl_allows (scan_buddy r).acl id || r.owner_email == id.email))
unfolding visible acl_allows
visible_lem id r no_empty = rw (group_in-text r.acl_group_id id.groups no_empty) (
    by_modes (r.acl_mode == "public") (r.acl_mode == "users") (r.acl_mode == "group")
      (any_of id.email r.acl_users) (group_in r.acl_group_id id.groups) (is_null r.deleted_at)
      (r.owner_email == id.email) (not_both r.acl_mode))
  where
    by_modes :
        (p u g a b l o : Bool)
        → (u ≡ true → g ≡ false)
        → (l && (p || (u && a) || (g && b) || o))
          ≡ (l && ((if p then true else if u then a else if g then b else false) || o))
    by_modes p u g a b l o h = ground arith
