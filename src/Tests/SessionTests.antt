-- ===== src/Tests/SessionTests.antt =====
-- A session of the endpoint with a preshared key.
use matf_master_vpn.Prelude.{◌≡◌, refl, none, some, [], ◌∷◌, ok}
use matf_master_vpn.Prelude.Int.{pos, negsuc}
use matf_master_vpn.Crypto.{Cipher}
use matf_master_vpn.Handshake.{Draw}
use matf_master_vpn.Tun.{check_name, check_device_name}
use matf_master_vpn.Engine.{TunnelEngine, new_engine}
use matf_master_vpn.Replay.{new_window}
use matf_master_vpn.Engine.Steps.{run}
use matf_master_vpn.Engine.Accepted.{with_rounds}
use matf_master_vpn.Engine.Sound.{IsSound}
use matf_master_vpn.Operations.{check_mtu}
use matf_master_vpn.Session.{
  Surroundings, negotiate, build_engine, establish_session, prepare_session,
}
use matf_master_vpn.Session.Secured.{establish_session-some}
use matf_master_vpn.Tests.Toy.{toy, zeros}
use matf_master_vpn.Tests.EngineTests.{device, socket, client_address}
use matf_master_vpn.Tests.ConfigTests.{config, key_files, prepared_cipher, prepare-prepared}

abbrev draw : Draw
draw = record { private_key = zeros 32; random = zeros 32 }

-- One round, which forwards a packet of two bytes
abbrev around : Surroundings
around = record {
  socket = ok socket;
  session_number = 0;
  draw = draw;
  draws = λ k. draw;
  arrivals = [];
  device = ok device;
  configured = ok tt;
  now = 5;
  rounds =
      record { tun_packet = some (69 ∷ 1 ∷ []); datagram = none; received_at = 6; checked_at = 6 }
      ∷ [];
}

abbrev engine : TunnelEngine
engine = record {
  tun_device = device;
  transport = socket;
  remote_address = client_address;
  session_id = pos 1;
  sequence_number = 0;
  cipher = prepared_cipher;
  replay_window = record { size = 64; highest_sequence = negsuc 0; bitmap = 0 };
  keepalive_interval = 0;
  liveness_timeout = 0;
  last_authenticated_receive = 5;
  next_keepalive = 5;
}

ready : prepare_session toy key_files config ≡ ok (prepared_cipher, ([], []))
unfolding prepare_session
ready = rw prepare-prepared refl

established : establish_session toy config prepared_cipher ([], []) around ≡ ok engine
unfolding establish_session negotiate build_engine check_device_name check_name check_mtu new_engine
    new_window mathlib.Core.Bool.xor
established = refl

establish_session-some_example :
    (x : Cipher) × (prepared_cipher ≡ some x)
    × IsSound (with_rounds toy around.rounds engine []) (run toy around.rounds engine).1
establish_session-some_example =
    establish_session-some toy key_files config around refl ready established
