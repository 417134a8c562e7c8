-- ===== src/Engine/Traffic/Known.antt =====
-- The sessions of the traffic, and what is genuine.
use kepos.Common.{ℕ, ◌≡◌, ◌⊎◌, refl, true, false, not, some, List, [], ◌∷◌, ◌++◌, All, if_cases}
use kepos.Common.Text.{Text}
use kepos.Common.Maps.{get, AllEntries-set, AllEntries-get}
use kepos.Packet.{Packet, ipv4}
use kepos.Packet.Wellformed.{IsWellformed}
use kepos.Policy.Table.{Direction}
use kepos.Policy.State.{create}
use kepos.Policy.{admit}
use kepos.Policy.Invariant.{Inv, create-Inv}
use kepos.Policy.Preservation.{admit-Inv}
use kepos.Policy.Ends.{Between, admit-Between}
use kepos.Engine.Traffic.State.{Member, Network, Session, Traffic, put, new_session, attach}

abbrev pub In : List Member → Member → Type 0
In [] m = ⊥
In (x ∷ xs) m = (x ≡ m) ⊎ In xs m

-- The member whose session stands under a key.
abbrev pub IsMember : Network → Text → Member → Type 0
IsMember n key m = In n.members m × (m.key ≡ key)

-- A session has the policy of its member, in a state that calls of `admit` reach, and is ready only
-- after its first frame.
pub record IsSession (n : Network) (key : Text) (s : Session) : Type 0 where
  pub member : Member
  pub known : IsMember n key member
  pub ends : Between n.local_address member.address s.policy
  pub sound : Inv member.ports (not n.enrollment) s.policy
  pub greeted : s.ready ≡ true → s.first ≡ false

-- A packet of the device: from the address of the member whose session it came by, to our own, and TCP
-- or ICMP.
pub record IsGenuine (n : Network) (key : Text) (bytes : List ℕ) : Type 0 where
  pub member : Member
  pub known : IsMember n key member
  pub packet : Packet
  pub read : ipv4 bytes ≡ some packet
  pub wellformed : IsWellformed bytes packet
  pub source : packet.source ≡ member.address
  pub destination : packet.destination ≡ n.local_address
  pub protocol : (packet.protocol ≡ 6) ⊎ (packet.protocol ≡ 1)

pub record Sound (n : Network) (q : Traffic) : Type 0 where
  pub sessions : All (λ (e : Text × Session). IsSession n e.0 e.1) q.sessions
  pub delivered : All (λ (e : Text × List ℕ). IsGenuine n e.0 e.1) q.to_device

pub All-append :
    {A : Type 0} (P : A → Type 0) (xs : List A) (x : A) → All P xs → P x → All P (xs ++ x ∷ [])
All-append P [] x h p = (p, tt)
All-append P (y ∷ ys) x h p = (h.0, All-append P ys x h.1 p)

module _ (n : Network) where
  abbrev pub P : Text × Session → Type 0
  P e = IsSession n e.0 e.1

  pub put-Sound :
      (q : Traffic) (key : Text) (s : Session)
      → Sound n q
      → IsSession n key s
      → Sound n (put q key s)
  put-Sound q key s h p = record {
    sessions = AllEntries-set P q.sessions key s p h.sessions;
    delivered = h.delivered;
  }

  pub session_of :
      (q : Traffic) (key : Text) (s : Session)
      → get q.sessions key ≡ some s
      → Sound n q
      → IsSession n key s
  session_of q key s e h = AllEntries-get P q.sessions key s e h.sessions

  pub attach-Sound :
      (q : Traffic) (m : Member) (stream : ℕ)
      → In n.members m
      → Sound n q
      → Sound n (attach n q m stream)
  unfolding attach create
  attach-Sound q m stream known h =
      if_cases (Sound n) _ _ _ (λ e. record { sessions = h.sessions; delivered = h.delivered })
        (λ e. record {
          sessions =
              AllEntries-set P q.sessions m.key (new_session n m stream)
                (record {
                  member = m;
                  known = (known, refl);
                  ends = (refl, refl);
                  sound = create-Inv n.local_address m.address m.ports (not n.enrollment);
                  greeted = λ ready. absurd (cc);
                })
                h.sessions;
          delivered = h.delivered;
        })

  -- A call of the policy leaves a session a session.
  pub moved-IsSession :
      (key : Text) (s : Session) (bytes : List ℕ) (d : Direction) (now : ℕ)
      → IsSession n key s
      → IsSession n key (record s { policy = (admit s.policy bytes d now).policy })
  moved-IsSession key s bytes d now h = record {
    member = h.member;
    known = h.known;
    ends = admit-Between n.local_address h.member.address s.policy bytes d now h.ends;
    sound = admit-Inv bytes d now h.sound;
    greeted = h.greeted;
  }
