-- ===== src/Engine.antt =====
-- engine.py: forwarding between a TUN device and a UDP transport, point to point. Times are counted
-- in ticks of one fixed length.
pub mod Steps
pub mod Sound
pub mod Accepted
pub mod Invariant
pub mod Receipt
pub mod Delivery
pub mod Replays
use mathlib.Core.Bool.{xor}
use matf_master_vpn.Prelude.{
  ℕ, ◌+◌, ◌&&◌, ◌||◌, Option, Error, Result, ok, err, raise_if, ◌>>=◌, ◌>>◌,
}
use matf_master_vpn.Prelude.Int.{ℤ, pos, ltbℤ, lebℤ, pos_part, outside, truthy}
use matf_master_vpn.Replay.{ReplayWindow, new_window, default_replay_window_size}
use matf_master_vpn.Crypto.{Cipher}
use matf_master_vpn.Transport.{Address, UdpTransport}
use matf_master_vpn.Tun.{TunDevice}

abbrev pub max_sequence_number : ℕ
max_sequence_number = 0xffffffffffffffff

pub record TunnelEngine : Type 0 where
  pub tun_device : TunDevice
  pub transport : UdpTransport
  pub remote_address : Address
  pub session_id : ℤ
  pub sequence_number : ℕ
  pub cipher : Option Cipher
  pub replay_window : ReplayWindow
  pub keepalive_interval : ℕ
  pub liveness_timeout : ℕ
  pub last_authenticated_receive : ℕ
  pub next_keepalive : ℕ

-- TunnelEngine.__init__, with the clock's reading
unfoldable pub new_engine :
    TunDevice → UdpTransport → Address → ℤ → Option Cipher → ℤ → ℤ → ℕ → Result TunnelEngine
new_engine tun_device transport remote_address session_id cipher keepalive_interval liveness_timeout
      now =
    do
      raise_if (outside 0xffffffff session_id) Error.value_error
      raise_if (ltbℤ keepalive_interval (pos 0) || ltbℤ liveness_timeout (pos 0)) Error.value_error
      raise_if (xor (truthy keepalive_interval) (truthy liveness_timeout)) Error.value_error
      raise_if (truthy liveness_timeout && lebℤ liveness_timeout keepalive_interval)
          Error.value_error
      window ← new_window (pos default_replay_window_size)
      ok (record {
        tun_device = tun_device;
        transport = transport;
        remote_address = remote_address;
        session_id = session_id;
        sequence_number = 0;
        cipher = cipher;
        replay_window = window;
        keepalive_interval = pos_part keepalive_interval;
        liveness_timeout = pos_part liveness_timeout;
        last_authenticated_receive = now;
        next_keepalive = now + pos_part keepalive_interval;
      })
