-- ===== src/ReceiverState/Runs.antt =====
-- Runs of the store and of invitations on concrete input, with a function in the place of SHA-256.
use kepos.Common.{
  ℕ, zero, suc, ◌<◌, ◌^◌, false, none, some, List, [], ◌∷◌, ◌++◌, ◌≡◌, ◌↔◌, ◌⊎◌, refl, arith,
  if◌then◌else◌,
}
use kepos.Common.Outcome.{done, thrown, final}
use kepos.Common.Integers.{pos}
use kepos.Common.Text.{Text, codes, join_dots, decimal}
use kepos.Common.Split.{split}
use kepos.Invitation.{
  Invitation, is_key, parse_invitation, format_invitation, enrollment_request, enrollment_secret,
  enrollment,
}
use kepos.Invitation.Texts.{parse_iff}
use kepos.Invitation.Requests.{IsAscii, enrollment_iff}
use kepos.ReceiverState.Addresses.{Range, address, ipv4, pool_range}
use kepos.ReceiverState.Addresses.Ranges.{pool_range-ipv4}
use kepos.ReceiverState.Addresses.Canonical.{address-ipv4}
use kepos.ReceiverState.Durable.{
  ports, State, Store, Write, lost, storage_failure, unusable_invitation, save, live, rejected_pool,
}
use kepos.ReceiverState.Enrollment.{taken_addresses}
use kepos.ReceiverState.{
  enroll, digest, open_new, new_state, create_invitation, issue_invitation, revoke, grant, issue,
}
use kepos.ReceiverState.Invariant.{Sound}
use kepos.ReceiverState.Histories.{create, enrol, remove, run, run-Sound}
use kepos.ReceiverState.Refusal.{Refuses, failed_for_good}
use kepos.ReceiverState.Access.{Removed, Granted, revoke-Removed, grant-Granted}
use kepos.ReceiverState.Allocation.{Lowest, AllTaken, enroll_allocates, ok, fresh_device, enrolled}
use kepos.ReceiverState.Spending.{one_use, NoDraw}

abbrev repeat : ℕ → ℕ → List ℕ
repeat zero b = []
repeat (suc n) b = b ∷ repeat n b

abbrev sha256 : List ℕ → Text
sha256 bytes = bytes

abbrev receiver : Text
receiver = repeat 64 b'a'

abbrev phone : Text
phone = repeat 64 b'b'

abbrev laptop : Text
laptop = repeat 64 b'c'

abbrev secret : Text
secret = repeat 64 b'7'

abbrev home : Text
home = codes "10.7.0.1"

abbrev pool : Text
pool = codes "10.7.0.0/29"

abbrev opened : State
opened = new_state receiver home pool

abbrev start : Store
start = record { state = opened; failed = false; disk = some opened }

abbrev invited : Store
invited = final (create_invitation sha256 none (pos 1000) secret ok start)

loop : Unit {0}
unfolding enroll create_invitation revoke open_new digest format_invitation parse_invitation is_key
    ipv4 address pool_range decimal split join_dots issue_invitation live NoDraw grant IsAscii
loop = tt

open_run : open_new receiver home pool ok ≡ done tt start
unfolding loop
open_run = refl

abbrev after_phone : Store
after_phone = record {
  state = enrolled invited.state (fresh_device phone 168230914) (pos 2000) [];
  failed = false;
  disk = some (enrolled invited.state (fresh_device phone 168230914) (pos 2000) []);
}

enroll_run :
    enroll sha256 phone secret (pos 2000) ok invited
    ≡ done (fresh_device phone 168230914) after_phone
unfolding loop
enroll_run = refl

late_run : enroll sha256 phone secret (pos 601000) ok invited ≡ thrown unusable_invitation invited
unfolding loop
late_run = refl

ipv4_run : ipv4 (codes "192.168.001.7") ≡ none
unfolding loop
ipv4_run = refl

pool_run : pool_range pool ≡ some (record { first = 168230913; last = 168230918 })
unfolding loop
pool_run = refl

run-Sound_example :
    (range : Range) × ((pool_range pool ≡ some range)
      × Sound range (
          run sha256 start
            (create none (pos 1000) secret ok ∷ enrol phone secret (pos 2000) ok ∷ [])))
run-Sound_example =
    run-Sound sha256 receiver home pool ok start
      (create none (pos 1000) secret ok ∷ enrol phone secret (pos 2000) ok ∷ []) open_run

one_use_example :
    enroll sha256 laptop secret (pos 3000) ok (run sha256 after_phone (remove phone ok ∷ []))
    ≡ thrown
        (if (run sha256 after_phone (remove phone ok ∷ [])).failed
          then storage_failure
          else unusable_invitation)
        (run sha256 after_phone (remove phone ok ∷ []))
unfolding loop
one_use_example =
    one_use sha256 phone secret (pos 2000) ok invited after_phone (fresh_device phone 168230914)
      (remove phone ok ∷ []) laptop (pos 3000) ok (refl, tt) refl (tt, tt)

enroll_allocates_example :
    ((n : ℕ) × (Lowest (taken_addresses invited.state none) 168230913 168230919 n
        × (enroll sha256 phone secret (pos 2000) ok invited
            ≡ done (fresh_device phone n) (record invited {
              state = enrolled invited.state (fresh_device phone n) (pos 2000) [];
              disk = some (enrolled invited.state (fresh_device phone n) (pos 2000) []);
            }))))
    ⊎ (AllTaken (taken_addresses invited.state none) 168230913 168230919
        × (enroll sha256 phone secret (pos 2000) ok invited ≡ thrown rejected_pool invited))
unfolding loop
enroll_allocates_example =
    enroll_allocates sha256 phone secret (pos 2000) invited
      (record { first = 168230913; last = 168230918 }) (issue sha256 secret (pos 1000) none) [] refl
      refl refl refl refl (omega arith)

abbrev torn : Write
torn = record { fate = lost; cleanup = none }

failed_for_good_example :
    ((final (save opened torn start)).state ≡ start.state)
    × ((run sha256 (final (save opened torn start)) (remove phone ok ∷ [])
          ≡ final (save opened torn start))
        × Refuses sha256 (run sha256 (final (save opened torn start)) (remove phone ok ∷ [])))
failed_for_good_example = failed_for_good sha256 opened torn start (remove phone ok ∷ []) (λ e. cc)

revoke-Removed_example : Removed phone after_phone (final (revoke phone ok after_phone))
unfolding loop
revoke-Removed_example =
    revoke-Removed phone ok after_phone (final (revoke phone ok after_phone)) refl

grant-Granted_example :
    Granted phone
      (ports (22 ∷ 443 ∷ []))
      after_phone
      (final (grant phone (ports (22 ∷ 443 ∷ [])) ok after_phone))
unfolding loop
grant-Granted_example =
    grant-Granted phone (ports (22 ∷ 443 ∷ [])) ok after_phone
      (final (grant phone (ports (22 ∷ 443 ∷ [])) ok after_phone)) refl

address-ipv4_example : (address 168230913 ≡ home) × (168230913 < 2 ^ 32)
unfolding loop
address-ipv4_example = address-ipv4 home 168230913 refl

pool_range-ipv4_example : (ipv4 (address 168230915) ≡ some 168230915) × (168230915 < 2 ^ 32)
unfolding loop
pool_range-ipv4_example =
    pool_range-ipv4 pool (record { first = 168230913; last = 168230918 }) 168230915 pool_run
      (omega arith) (omega arith)

abbrev invitation : Invitation
invitation = record { receiver_key = receiver; secret = secret }

abbrev invitation_text : Text
invitation_text = codes "kepos1:" ++ receiver ++ b':' ∷ secret

parse_iff_example :
    (parse_invitation invitation_text ≡ some invitation)
    ↔ (format_invitation invitation ≡ some invitation_text)
parse_iff_example = parse_iff invitation_text invitation

abbrev request : List ℕ
request = codes "Kepos enrollment v1 " ++ secret

enrollment_iff_example :
    (enrollment_secret request ≡ enrollment secret) ↔ (enrollment_request secret ≡ some request)
unfolding loop
enrollment_iff_example = enrollment_iff request secret (ground arith)
