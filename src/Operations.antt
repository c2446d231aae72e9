-- ===== src/Operations.antt =====
-- operations.py and network.py: sessions with reconnection, and the check of the MTU.
use matf_master_vpn.Prelude.{
  ℕ, suc, ◌≡◌, refl, Bool, true, false, ◌||◌, List, [], ◌∷◌, if◌then◌else◌, Error, Result, ok, err,
  raise_if, is_os_error, arith, Bool-cases, inl, inr,
}
use matf_master_vpn.Prelude.Int.{ℤ, pos, ltbℤ}

-- What a run of `run_with_reconnect` does in the order it does it.
pub data Event : Type 0 where
  failed : ℕ → Error → Event
  slept : ℤ → Event

-- How it ends; `unfinished` after the sessions that are given.
pub data Ending : Type 0 where
  returned unfinished : Ending
  raised : Error → Ending

-- The loop over the results of the sessions to come, with the number of failures so far
unfoldable pub reconnect_loop : ℤ → ℕ → List (Result (Unit {0})) → List Event × Ending
reconnect_loop delay attempt [] = ([], unfinished)
reconnect_loop delay attempt (ok done ∷ sessions) = ([], returned)
reconnect_loop delay attempt (err e ∷ sessions) =
    let (events, ending) = reconnect_loop delay (suc attempt) sessions in
    if is_os_error e
    then (failed (suc attempt) e ∷ slept delay ∷ events, ending)
    else ([], raised e)

-- run_with_reconnect
unfoldable pub run_with_reconnect : ℤ → List (Result (Unit {0})) → List Event × Ending
run_with_reconnect reconnect_delay sessions =
    if ltbℤ reconnect_delay (pos 0)
    then ([], raised Error.value_error)
    else reconnect_loop reconnect_delay 0 sessions

-- The test of `configure_tun`
unfoldable pub check_mtu : ℤ → Result (Unit {0})
check_mtu mtu = raise_if (ltbℤ mtu (pos 576) || ltbℤ (pos 65535) mtu) Error.value_error

-- The events of failures numbered on from `attempt`.
abbrev pub failures : ℤ → ℕ → List Error → List Event
failures delay attempt [] = []
failures delay attempt (e ∷ errors) =
    failed (suc attempt) e ∷ slept delay ∷ failures delay (suc attempt) errors

-- Sessions that all end in these exceptions, before the others
abbrev pub after_failures : List Error → List (Result (Unit {0})) → List (Result (Unit {0}))
after_failures [] sessions = sessions
after_failures (e ∷ errors) sessions = err e ∷ after_failures errors sessions

abbrev pub all_os_errors : List Error → Bool
all_os_errors [] = true
all_os_errors (e ∷ errors) = if is_os_error e then all_os_errors errors else false

loop-failures :
    (delay : ℤ) (attempt : ℕ) (errors : List Error) (sessions : List (Result (Unit {0})))
    → all_os_errors errors ≡ true
    → reconnect_loop delay attempt (after_failures errors (ok tt ∷ sessions))
      ≡ (failures delay attempt errors, returned)
unfolding reconnect_loop
loop-failures delay attempt [] sessions h = refl
loop-failures delay attempt (e ∷ errors) sessions h = elim (Bool-cases (is_os_error e)) [
  | inl retried ↦
      rw (retried, loop-failures delay (suc attempt) errors sessions (rw retried at h)) refl
  | inr other ↦ let clash : false ≡ true = rw other at h in absurd (cc clash)
]

-- After any number of sessions that end in an `OSError`, timeouts included, and one that returns, the
-- run returns, having logged each failure with its number, from 1 on, and slept after each.
pub run_with_reconnect-failures :
    (delay : ℕ) (errors : List Error) (sessions : List (Result (Unit {0})))
    → all_os_errors errors ≡ true
    → run_with_reconnect (pos delay) (after_failures errors (ok tt ∷ sessions))
      ≡ (failures (pos delay) 0 errors, returned)
unfolding run_with_reconnect
run_with_reconnect-failures delay errors sessions h =
    let valid : ltbℤ (pos delay) (pos 0) ≡ false = ground arith in
    rw valid (loop-failures (pos delay) 0 errors sessions h)
