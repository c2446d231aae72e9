-- ===== src/Tests/ReplayTests.antt =====
-- A replay window of four numbers, on a short history.
use matf_master_vpn.Prelude.{◌≡◌, refl, true, false, [], ◌∷◌, arith}
use matf_master_vpn.Prelude.Int.{pos, negsuc}
use matf_master_vpn.Replay.{
  ReplayWindow, new_window, is_replay, mark_authenticated, advance, distance,
}
use matf_master_vpn.Replay.Tracks.{Reaches, start, accept, refuses}
use matf_master_vpn.Replay.History.{is_replay-history, Reaches-Distinct, Distinct, bitmap_bounded}
use matf_master_vpn.Bits.{bit}

abbrev at_five : ReplayWindow
at_five = record { size = 4; highest_sequence = pos 5; bitmap = 1 }

abbrev with_three : ReplayWindow
with_three = record { size = 4; highest_sequence = pos 5; bitmap = 5 }

history : Reaches 4 with_three (3 ∷ 5 ∷ [])
unfolding new_window mark_authenticated is_replay advance distance
history = accept 3 (accept {v = at_five} 5 (start refl) refl) refl

refused_three : is_replay with_three (pos 3) ≡ true
unfolding is_replay distance
refused_three = refl

fresh_four : is_replay with_three (pos 4) ≡ false
unfolding is_replay distance
fresh_four = refl

refused_negative : is_replay with_three (negsuc 2) ≡ true
unfolding is_replay
refused_negative = refl

is_replay-history_example : is_replay with_three (pos 1) ≡ refuses 4 (3 ∷ 5 ∷ []) 1
is_replay-history_example = is_replay-history history 1

Reaches-Distinct_example : Distinct (3 ∷ 5 ∷ [])
Reaches-Distinct_example = Reaches-Distinct history

bitmap_bounded_example : bit 4 5 ≡ 0
bitmap_bounded_example = bitmap_bounded history 4 (omega arith)
