-- ===== src/Engine/Traffic/Runs.antt =====
-- A peer connects, says hello, and sends a segment, which reaches the device.
use kepos.Common.{true, false, [], ◌∷◌, ◌≡◌, refl, inl}
use kepos.Common.Maps.{get, set}
use kepos.Common.Text.{Text, codes}
use kepos.Policy.State.{only}
use kepos.Policy.Runs.{syn, running}
use kepos.Engine.Enrolling.{Enrolled, other_error}
use kepos.Engine.Traffic.{on_frame}
use kepos.Engine.Traffic.State.{Member, Network, Traffic, new_traffic, attach, hello}
use kepos.Engine.Traffic.Known.{Sound}
use kepos.Engine.Traffic.Genuine.{History, begin, attached, framed, History-Sound}

abbrev phone : Member
phone = record {
  label = codes "phone";
  key = codes "k";
  address = codes "10.0.0.2";
  ports = only (22 ∷ []);
}

abbrev network : Network
network = record {
  local_address = codes "10.0.0.1";
  local_key = codes "own";
  members = phone ∷ [];
  enrollment = false;
}

abbrev asks : Text → Enrolled
asks secret = other_error

abbrev connected : Traffic
connected = attach network new_traffic phone 5

abbrev greeted : Traffic
greeted = (on_frame network connected phone 5 hello asks true 1).0

abbrev delivered : Traffic
delivered = (on_frame network greeted phone 5 syn asks true 2).0

a_segment_arrives : delivered.to_device ≡ (codes "k", syn) ∷ []
unfolding running attach on_frame get set
a_segment_arrives = refl

a_history : History network delivered
a_history =
    framed phone 5 syn asks true 2
      (framed phone 5 hello asks true 1 (attached phone 5 (inl refl) begin))

History-Sound_example : Sound network delivered
History-Sound_example = History-Sound network a_history
