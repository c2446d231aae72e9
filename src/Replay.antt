-- ===== src/Replay.antt =====
-- `ReplayWindow` of crypto.py: a sliding window over the sequence numbers of authenticated packets.
pub mod Tracks
pub mod History
use matf_master_vpn.Prelude.{
  ℕ, zero, suc, ◌+◌, ◌-◌, ◌*◌, ◌^◌, ◌≡◌, refl, Bool, true, false, not, leb, ◌==◌, if◌then◌else◌,
  Error, Result, ok, err, raise_if, ◌>>=◌, ◌>>◌,
}
use matf_master_vpn.Prelude.Int.{ℤ, pos, negsuc, ltbℤ, lebℤ, pos_part, ◌-ℤ◌}
use Prim.Native.Nat.{bit_and, bit_or}

abbrev pub default_replay_window_size : ℕ
default_replay_window_size = 64

pub record ReplayWindow : Type 0 where
  pub size : ℕ
  pub highest_sequence : ℤ
  pub bitmap : ℕ

-- ReplayWindow.__init__
unfoldable pub new_window : ℤ → Result ReplayWindow
new_window size = do
  raise_if (lebℤ size (pos 0)) Error.value_error
  ok (record { size = pos_part size; highest_sequence = negsuc 0; bitmap = 0 })

-- `1 << distance` is `2 ^ distance`; a distance is never negative where it is used.
unfoldable pub distance : ReplayWindow → ℤ → ℕ
distance w sequence_number = pos_part (w.highest_sequence -ℤ sequence_number)

-- ReplayWindow.is_replay
unfoldable pub is_replay : ReplayWindow → ℤ → Bool
is_replay w sequence_number =
    if ltbℤ sequence_number (pos 0)
    then true
    else if ltbℤ w.highest_sequence sequence_number
    then false
    else if leb w.size (distance w sequence_number)
    then true
    else not (bit_and w.bitmap (2 ^ distance w sequence_number) == 0)

-- The branch of `mark_authenticated` for a sequence number above the highest.
unfoldable pub advance : ReplayWindow → ℤ → ReplayWindow
advance w sequence_number =
    let shift = pos_part (sequence_number -ℤ w.highest_sequence) in
    let shifted : ℕ =
      if leb w.size shift then 0 else bit_and (w.bitmap * 2 ^ shift) (2 ^ w.size - 1) in
    record w { highest_sequence = sequence_number; bitmap = bit_or shifted 1 }

-- ReplayWindow.mark_authenticated
unfoldable pub mark_authenticated : ReplayWindow → ℤ → Result ReplayWindow
mark_authenticated w sequence_number = do
  raise_if (is_replay w sequence_number) Error.value_error
  ok (
      if ltbℤ w.highest_sequence sequence_number
      then advance w sequence_number
      else record w { bitmap = bit_or w.bitmap (2 ^ distance w sequence_number) })
