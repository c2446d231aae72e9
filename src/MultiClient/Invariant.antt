-- ===== src/MultiClient/Invariant.antt =====
-- multi_client.py: the tables stay consistent over any sequence of calls.
use matf_master_vpn.Prelude.{List, [], ◌∷◌}
use matf_master_vpn.Prelude.Int.{ℤ, int_eq}
use matf_master_vpn.Prelude.Equality.{pair_eq, string_eq, nat_eq}
use matf_master_vpn.Bytes.{Bytes}
use matf_master_vpn.Primitives.{Primitives}
use matf_master_vpn.Protocol.{Packet}
use matf_master_vpn.Transport.{Address}
use matf_master_vpn.MultiClient.{MultiClientServerEngine, Ref}
use matf_master_vpn.MultiClient.Steps.{
  add_session, remove_session, replace_session, handle_tun_packet, handle_udp_packet,
}
use matf_master_vpn.MultiClient.Tables.{
  IsTable, IsTable-add_session, IsTable-remove_session, IsTable-replace_session,
}
use matf_master_vpn.MultiClient.Keeps.{
  IsTable-Keeps, handle_tun_packet-Keeps, handle_udp_packet-Keeps,
}

-- The public methods of the engine, as calls.
pub data Call : Type 0 where
  add replace : Ref → Call
  remove : Address → ℤ → Call
  from_tun : Bytes → Call
  from_udp : Packet → Address → Call

unfoldable pub perform : Primitives → Call → MultiClientServerEngine → MultiClientServerEngine
perform c (add ref) e = (add_session ref e).1
perform c (replace ref) e = (replace_session ref e).1
perform c (remove a id) e = (remove_session a id e).1
perform c (from_tun payload) e = (handle_tun_packet c payload e).1
perform c (from_udp p a) e = (handle_udp_packet c p a e).1

unfoldable pub perform_all :
    Primitives → List Call → MultiClientServerEngine → MultiClientServerEngine
perform_all c [] e = e
perform_all c (call ∷ calls) e = perform_all c calls (perform c call e)

IsTable-perform :
    (c : Primitives) (call : Call) (e : MultiClientServerEngine)
    → IsTable e
    → IsTable (perform c call e)
unfolding perform
IsTable-perform c (add ref) e t = IsTable-add_session ref e t
IsTable-perform c (replace ref) e t = IsTable-replace_session ref e t
IsTable-perform c (remove a id) e t = IsTable-remove_session a id e t
IsTable-perform c (from_tun payload) e t = IsTable-Keeps (handle_tun_packet-Keeps c payload e) t
IsTable-perform c (from_udp p a) e t = IsTable-Keeps (handle_udp_packet-Keeps c p a e) t

-- Over any sequence of calls, those that raise included, the tables of sessions and of routes hold
-- the same sessions, each under its own address and id and under its own tunnel address.
pub IsTable-perform_all :
    (c : Primitives) (calls : List Call) (e : MultiClientServerEngine)
    → IsTable e
    → IsTable (perform_all c calls e)
unfolding perform_all
IsTable-perform_all c [] e t = t
IsTable-perform_all c (call ∷ calls) e t =
    IsTable-perform_all c calls (perform c call e) (IsTable-perform c call e t)
