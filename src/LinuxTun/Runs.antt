-- ===== src/LinuxTun/Runs.antt =====
-- A pool beside the routes of a home network, and one inside of it.
use kepos.Common.{ℕ, ◌≡◌, refl, false, Option, none, some, List, [], ◌∷◌, All, if◌then◌else◌}
use kepos.Common.Json.{Json, text, object, field, last, lookup, is_text}
use kepos.Common.Numerals.{all, is_digit}
use kepos.Common.Split.{split}
use kepos.Common.Text.{Text, codes, number}
use kepos.LinuxTun.{prefix, check_pool_routes, assigned, check_dialer_addresses}
use kepos.LinuxTun.Overlap.{Apart, check_pool_routes-Apart}

abbrev number_of : Text → Option ℕ
number_of s = if all is_digit s then some (number s) else none

abbrev route : Text → Json
route dst = object (field (codes "dst") (text dst) (field (codes "dev") (text (codes "eth0")) last))

abbrev routes : List Json
routes = route (codes "default") ∷ route (codes "192.168.0.0/16") ∷ route (codes "10.7.1.4") ∷ []

computing : Unit {0}
unfolding prefix check_pool_routes check_dialer_addresses split lookup is_text
computing = tt

check_pool_routes-Apart_example : All (Apart number_of [] (168230912, 24)) routes
unfolding computing
check_pool_routes-Apart_example =
    check_pool_routes-Apart number_of (codes "10.7.0.0/24") [] 168230912 24 routes refl refl refl

pool_inside : check_pool_routes number_of (codes "192.168.3.0/24") [] routes ≡ false
unfolding computing
pool_inside = refl

pool_around : check_pool_routes number_of (codes "10.7.0.0/16") [] routes ≡ false
unfolding computing
pool_around = refl

address_taken :
    check_dialer_addresses
      (record { name = codes "eth0"; address = codes "10.7.0.2" } ∷ [])
      routes
      (codes "10.7.0.1" ∷ codes "10.7.0.2" ∷ [])
    ≡ some (assigned (codes "10.7.0.2") (codes "eth0"))
unfolding computing
address_taken = refl
