-- ===== src/Tun.antt =====
-- tun.py: the TUN device. The interface is the log of the packets written to it, and the count that
-- the kernel gives for each write.
use matf_master_vpn.Prelude.{
  ℕ, Bool, false, Option, none, some, List, [], ◌∷◌, Error, Result, ok, err, length, leb, ◌==◌,
  ◌||◌, ◌>>=◌, ◌>>◌, not, String, raise_if, ◌≡◌, arith,
}
use matf_master_vpn.Bytes.{Bytes, ascii, all_ascii}

abbrev pub ifnamsiz : ℕ
ifnamsiz = 16

-- `written` is newest first. `takes p` is the number of bytes of `p` that `os.write` reports, `none`
-- its `OSError`, where nothing is written.
pub record TunDevice : Type 0 where
  pub descriptor : Option ℕ
  pub written : List Bytes
  pub takes : Bytes → Option ℕ

unfoldable pub has_zero : Bytes → Bool
has_zero [] = false
has_zero (b ∷ bs) = b == 0 || has_zero bs

-- The test of `TunDevice.__init__` on the name, in ASCII.
unfoldable pub check_name : Bytes → Result (Unit {0})
unfolding has_zero
check_name name =
    raise_if (length name == 0 || (leb ifnamsiz (length name) || has_zero name)) Error.value_error

-- `TunDevice.__init__` up to the device: the name is encoded, and tested.
unfoldable pub check_device_name : String → Result (Unit {0})
check_device_name name = do
  raise_if (not (all_ascii (ascii name))) Error.value_error
  check_name (ascii name)

-- TunDevice._require_open, which is also `fileno`
unfoldable pub require_open : TunDevice → Result ℕ
require_open device = elim device.descriptor [
  | none ↦ err Error.runtime_error
  | some descriptor ↦ ok descriptor
]

abbrev written_on : TunDevice → Bytes → Option ℕ → Result (ℕ × TunDevice)
written_on device packet none = err Error.os_error
written_on device packet (some written) =
    ok (written, record device { written = packet ∷ device.written })

-- TunDevice.write
unfoldable pub write : TunDevice → Bytes → Result (ℕ × TunDevice)
write device packet = do
  descriptor ← require_open device
  written_on device packet (device.takes packet)

-- A write that returns has written the packet, and left the rest of the device.
pub write-written :
    (d : TunDevice) (p : Bytes) {n : ℕ} {after : TunDevice}
    → write d p ≡ ok (n, after)
    → after ≡ record d { written = p ∷ d.written }
unfolding write require_open
write-written d p e = ground arith

-- TunDevice.close
unfoldable pub close : TunDevice → TunDevice
close device = record device { descriptor = none }
