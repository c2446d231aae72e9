-- ===== src/Lib.antt =====
-- The matf-vpn program (src/matf_vpn): a VPN over UDP, point to point or with one server for
-- many clients. Packets that a TUN device delivers are encrypted and sent as datagrams;
-- datagrams are checked against a replay window, decrypted, and written to the TUN device.
-- Ciphers come from a preshared key, from static X25519 keys, or from an authenticated
-- ephemeral handshake.
--
-- The parts, the files that model them, and the code:
--   Protocol: protocol.py, the packet and its wire format. `encode` and `decode` are
--     Packet.encode and Packet.decode; `header_pack` and `header_unpack` are the struct
--     format `!BBIQH`.
--   Replay: ReplayWindow of crypto.py. `is_replay` and `mark_authenticated` are the
--     methods; `advance` is the branch for a number above the highest.
--   Crypto: the rest of crypto.py. PacketCipher, RotatingPacketCipher with its cache of two
--     ciphers, `create_cipher`; an AESGCM object is its key.
--   KeyAgreement and Handshake: key_agreement.py and handshake.py. KeyAgreement.Files is
--     `write_keypair` on a disk, whose files `load_x25519_key` of Cli reads; Hex has
--     `bytes.hex` and `bytes.fromhex`. Handshake has the messages and the session secret,
--     Handshake.Rounds the loops of `run_client_handshake` and `run_server_handshake`.
--   Transport and Tun: transport.py and tun.py, as logs of what was sent and written, with
--     the operating system's answers as functions.
--   Engine: engine.py. `new_engine` is TunnelEngine.__init__; Engine.Steps has
--     `_send_packet`, `_receive_udp_packet`, `run_once` and the rest, with one definition
--     for each group of lines that a guard or an except clause sets apart.
--   MultiClient: multi_client.py. Sessions are shared objects, so the tables hold
--     references into a memory; MultiClient.Steps has the methods.
--   MultiServer: multi_server.py, ClientRegistry with its cache of 1024 accepted hellos,
--     and MultiServer.Rounds with MultiClientServer.run_once and run, over a list of what
--     the rounds find.
--   Json, Config and ServerConfig: config.py and server_config.py, from the parsed JSON
--     document on.
--   Operations: run_with_reconnect of operations.py and the MTU check of network.py. Cli:
--     the checks, the key files and the choice of the cipher in cli.py. Session: its
--     `run_session` and the end of its `main`, which join all of these. ServerCli:
--     multi_server_cli.py, the start of the server from its configuration.
--   Desktop: gui.py. Desktop.Process and Desktop.Controls have EndpointProcess,
--     Desktop.Window the MainWindow, and Desktop.Runs the events: clicks, the output and
--     the end of the process, and the timers of `stop`.
--   Experiment: experiment.py, the schedule of a benchmark campaign. Benchmark:
--     benchmark.py, and Benchmark.Runs the runs of benchmark_cli.py. Handshake.Traffic
--     joins the handshake with the engines.
--   Prelude, Bytes, Bits, Texts and OrderedDict are shared: exceptions as values, integers,
--     byte strings, bits and Python dictionaries. Tests runs the code on concrete inputs.
--
-- How the parts are modelled. An exception is a value of `Error`; a method that changes an
-- object takes it and returns it beside its result, also when it raises, so what was changed
-- before a raise stays changed. Integers of Python are `ℤ` where the code checks their sign or
-- range, and natural numbers where it never makes them negative. Times are counted in ticks of
-- one fixed length. What the program waits for is an argument: the datagram or packet that
-- `select` reports, the clock, the random draws, and for a loop the list of what arrives. A
-- loop over a number of attempts recurses on that number, so it needs no other bound; an
-- endless loop is run over the list of its rounds.
--
-- Assumed. Floating point numbers of the benchmarks are an abstract type; ArithmeticLaws says
-- that those compared are ordered, that no sum of samples is too large for a float, and that 95
-- percent of a number, rounded, does not exceed it. The shuffle of a generator permutes its
-- list. AES-GCM, HKDF, SHA-256, HMAC and X25519 are the fields of `Primitives`. AeadLaws says
-- that AES-GCM decrypts what it encrypted and adds 16 bytes, HkdfLaws that HKDF derives as many
-- bytes as it is asked for, AgreementLaws that X25519 is commutative, with public keys of 32
-- bytes and tags of 32 bytes. Tests.Toy has functions for which these laws hold. Nothing is
-- assumed about the strength of the cryptography: the theorems say which checks a message
-- passed. The parsers of ipaddress, pathlib and int are the fields of `Parsers`, with no law.
--
-- Not modelled: opening and closing sockets, the ioctl and the file descriptors of the TUN
-- device, logging, argparse, and the NaN and infinities of JSON. Of the measurement tools,
-- which stand beside the VPN, the schedule of experiment.py, benchmark.py and the runs of
-- benchmark_cli.py are modelled; report files, plots and the statistics of scipy are not. Of
-- gui.py the layout and the style of the widgets are left out, and the wording of the log: a
-- line is the event or the error that it tells of.
pub mod Prelude
pub mod Bytes
pub mod OrderedDict
pub mod Bits
pub mod Protocol
pub mod Replay
pub mod Primitives
pub mod Crypto
pub mod KeyAgreement
pub mod Handshake
pub mod Transport
pub mod Tun
pub mod Engine
pub mod MultiClient
pub mod MultiServer
pub mod Json
pub mod Config
pub mod ServerConfig
pub mod Operations
pub mod ServerCli
pub mod Cli
pub mod Session
pub mod Texts
pub mod Hex
pub mod Benchmark
pub mod Desktop
pub mod Experiment
pub mod Tests
