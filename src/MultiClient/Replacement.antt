-- ===== src/MultiClient/Replacement.antt =====
-- multi_client.py: what `replace_session` leaves, and when it fails.
use matf_master_vpn.Prelude.{
  ◌≡◌, ◌≢◌, ◌⊎◌, refl, sym, ap, ◌∙◌, none, some, inl, inr, Error, Result, ok, err, Bool-cases,
  Option-cases,
}
use matf_master_vpn.Prelude.Int.{ℤ, int_eq}
use matf_master_vpn.Prelude.Equality.{pair_eq, string_eq, nat_eq}
use matf_master_vpn.Prelude.Exec.{continue}
use matf_master_vpn.OrderedDict.{get, get-put, get-remove}
use matf_master_vpn.Transport.{Address}
use matf_master_vpn.MultiClient.{MultiClientServerEngine, Ref}
use matf_master_vpn.MultiClient.Steps.{
  link, unlink, add_session, remove_found, remove_session, remove_existing, replace_session,
}
use matf_master_vpn.MultiClient.Tables.{IsTable, key_at, tunnel_at, IsTable-unlink}

-- A session other than the one at `ref` has its key: it belongs to another tunnel address.
abbrev pub KeyTaken : Ref → MultiClientServerEngine → Type 0
KeyTaken ref e =
    (other : Ref) × (get (key_at e ref) e.sessions ≡ some other)
    × (tunnel_at e other ≢ tunnel_at e ref)

-- The session at `ref` is the one of its key and of its tunnel address.
abbrev pub IsLinked : Ref → MultiClientServerEngine → Type 0
IsLinked ref e =
    (get (key_at e ref) e.sessions ≡ some ref) × (get (tunnel_at e ref) e.routes ≡ some ref)

link-IsLinked : (ref : Ref) (e : MultiClientServerEngine) → IsLinked ref (link ref e)
unfolding link
link-IsLinked ref e = (
  rw
      (
        get-put (key_at e ref) (key_at e ref) ref e.sessions,
        ((pair_eq {A = Address} {B = ℤ}).beq_iff (key_at e ref) (key_at e ref)).1 refl,
      )
      refl,
  rw
      (
        get-put (tunnel_at e ref) (tunnel_at e ref) ref e.routes,
        (nat_eq.beq_iff (tunnel_at e ref) (tunnel_at e ref)).1 refl,
      )
      refl,
)

-- What adding or replacing a session may come to.
abbrev pub Outcome :
    Ref → MultiClientServerEngine → Result (Unit {0}) × MultiClientServerEngine → Type 0
Outcome ref e r =
    ((r.0 ≡ ok tt) × IsLinked ref r.1 × (¬ (KeyTaken ref e)))
    ⊎ ((r.0 ≡ err Error.value_error) × KeyTaken ref e)

add_session-Outcome :
    (ref : Ref) (e : MultiClientServerEngine)
    → IsTable e
    → get (tunnel_at e ref) e.routes ≡ none
    → Outcome ref e (add_session ref e)
unfolding add_session
add_session-Outcome ref e t unrouted = elim (Option-cases (get (key_at e ref) e.sessions)) [
  | inl free ↦
      rw (free, unrouted)
        (inl (
          refl,
          link-IsLinked ref e,
          λ taken. (let clash : none ≡ some taken.0 = taken.1 in cc clash),
        ))
  | inr (other, taken) ↦
      let (own, routed) = t.by_key (key_at e ref) other taken in
      let apart : tunnel_at e other ≢ tunnel_at e ref = λ same.
        (let clash : none ≡ some other =
            sym unrouted ∙ ap (λ a. get a e.routes) (sym same) ∙ routed in
          cc clash) in
      rw (add_session, taken) (inr (refl, (other, refl, apart)))
]

-- The engine after the session at `r` was removed from both tables.
abbrev without : Ref → MultiClientServerEngine → MultiClientServerEngine
without r e = unlink (key_at e r) r e

without-unrouted :
    (r ref : Ref) (e : MultiClientServerEngine)
    → tunnel_at e r ≡ tunnel_at e ref
    → get (tunnel_at (without r e) ref) (without r e).routes ≡ none
unfolding unlink
without-unrouted r ref e same =
    rw
      (
        get-remove (tunnel_at e r) (tunnel_at e ref) e.routes,
        (nat_eq.beq_iff (tunnel_at e r) (tunnel_at e ref)).1 same,
      )
      refl

without-KeyTaken :
    (r ref : Ref) (e : MultiClientServerEngine) → KeyTaken ref (without r e) → KeyTaken ref e
unfolding unlink
without-KeyTaken r ref e (other, found, apart) =
    elim (Bool-cases ((pair_eq {A = Address} {B = ℤ}).beq (key_at e r) (key_at e ref))) [
      | inl same ↦
          let clash : none ≡ some other =
            rw (get-remove (key_at e r) (key_at e ref) e.sessions, same) at found in
          absurd (cc clash)
      | inr differs ↦
          (other, (rw (get-remove (key_at e r) (key_at e ref) e.sessions, differs) at found), apart)
    ]

-- The other way round, where the session removed has the tunnel address of the new one.
KeyTaken-without :
    (r ref : Ref) (e : MultiClientServerEngine)
    → get (key_at e r) e.sessions ≡ some r
    → tunnel_at e r ≡ tunnel_at e ref
    → KeyTaken ref e
    → KeyTaken ref (without r e)
unfolding unlink
KeyTaken-without r ref e held same (other, found, apart) =
    elim (Bool-cases ((pair_eq {A = Address} {B = ℤ}).beq (key_at e r) (key_at e ref))) [
      | inl equal ↦
          let keys =
            ((pair_eq {A = Address} {B = ℤ}).beq_iff (key_at e r) (key_at e ref)).0 equal in
          let both : some other ≡ some r =
            sym found ∙ ap (λ k. get k e.sessions) (sym keys) ∙ held in
          let is : other ≡ r = cc both in absurd (apart (ap (tunnel_at e) is ∙ same))
      | inr differs ↦
          (other, rw (get-remove (key_at e r) (key_at e ref) e.sessions, differs) found, apart)
    ]

remove_existing-none : (e : MultiClientServerEngine) → remove_existing none e ≡ (ok tt, e)
unfolding remove_existing
remove_existing-none e = refl

remove_existing-without :
    (r : Ref) (e : MultiClientServerEngine)
    → get (key_at e r) e.sessions ≡ some r
    → remove_existing (some r) e ≡ (ok tt, without r e)
unfolding remove_existing remove_session remove_found
remove_existing-without r e held = rw held refl

Outcome-without :
    (r ref : Ref) (e : MultiClientServerEngine) (o : Result (Unit {0}) × MultiClientServerEngine)
    → get (key_at e r) e.sessions ≡ some r
    → tunnel_at e r ≡ tunnel_at e ref
    → Outcome ref (without r e) o
    → Outcome ref e o
Outcome-without r ref e o held same (inl (done, linked, free)) =
    inl (done, linked, λ taken. free (KeyTaken-without r ref e held same taken))
Outcome-without r ref e o held same (inr (failed, taken)) =
    inr (failed, without-KeyTaken r ref e taken)

-- With consistent tables, replacing a session ends in one of two ways. Where no session of another
-- tunnel address has the same remote address and session id, it links the session under its key and
-- its tunnel address and raises nothing. Where there is one, it raises `ValueError`.
pub replace_session_outcomes :
    (ref : Ref) (e : MultiClientServerEngine) → IsTable e → Outcome ref e (replace_session ref e)
unfolding replace_session
replace_session_outcomes ref e t = elim (Option-cases (get (tunnel_at e ref) e.routes)) [
  | inl unrouted ↦
      rw
        (ap (λ o. continue (remove_existing o e) (λ done. add_session ref)) unrouted
          ∙ ap (λ o. continue o (λ done. add_session ref)) (remove_existing-none e))
        (add_session-Outcome ref e t unrouted)
  | inr (r, routed) ↦
      let (same, held) = t.by_tunnel (tunnel_at e ref) r routed in
      rw
        (ap (λ o. continue (remove_existing o e) (λ done. add_session ref)) routed
          ∙ ap (λ o. continue o (λ done. add_session ref)) (remove_existing-without r e held))
        (Outcome-without r ref e (add_session ref (without r e)) held same (
          add_session-Outcome ref (without r e) (IsTable-unlink (key_at e r) r e held t)
            (without-unrouted r ref e same)))
]
