-- ===== src/Gateway/Tests.antt =====
-- The theorems on rooms, at a concrete request.
use core_dashboard.Prelude.{
  ◌≤◌, ◌≡◌, refl, not, ◌&&◌, ◌||◌, [], ◌∷◌, All, contains, length, codes, text_equality,
}
use core_dashboard.Shared.Values.{text, opaque, is_name}
use core_dashboard.Gateway.{
  Input, array, sanitize_services, valid_services, distinct_after, receives, on_subscribe,
  on_unsubscribe, max_rooms_per_request,
}
use core_dashboard.Gateway.Rooms.{IsName, IsDistinct, sanitize_services-IsDistinct, receives_iff}

abbrev request : Input
request = array (
    text (codes "shop.web")
    ∷ opaque
    ∷ text (codes "..")
    ∷ text (codes "shop.web")
    ∷ text (codes "db")
    ∷ [])

sanitize_services-request : sanitize_services request ≡ codes "shop.web" ∷ codes "db" ∷ []
unfolding sanitize_services valid_services distinct_after is_name
sanitize_services-request = refl

sanitize_services-IsDistinct_case :
    (length (sanitize_services request) ≤ max_rooms_per_request)
    × All IsName (sanitize_services request)
    × IsDistinct (sanitize_services request)
sanitize_services-IsDistinct_case = sanitize_services-IsDistinct request

receives_iff_case :
    (receives (codes "db") (on_subscribe request []).0
      ≡ (contains (codes "db") (sanitize_services request) || receives (codes "db") []))
    × (receives (codes "db") (on_unsubscribe request []).0
        ≡ (not (contains (codes "db") (sanitize_services request)) && receives (codes "db") []))
receives_iff_case = receives_iff (codes "db") request []
