-- ===== src/MultiServer/References.antt =====
-- multi_server.py and multi_client.py: the references in the tables, and the place of a new session.
use matf_master_vpn.Prelude.{
  ℕ, ◌<◌, ◌≡◌, sym, ap, ◌∙◌, Option, none, some, inl, inr, Result, ok, err, arith, Bool-cases,
}
use matf_master_vpn.Prelude.Int.{ℤ, int_eq}
use matf_master_vpn.Prelude.Equality.{Eq, pair_eq, string_eq, nat_eq}
use matf_master_vpn.Prelude.Exec.{continue}
use matf_master_vpn.OrderedDict.{get, get-put, get-remove}
use matf_master_vpn.Transport.{Address}
use matf_master_vpn.MultiClient.{
  ClientSession, MultiClientServerEngine, SessionKey, Ref, key_of, assign,
}
use matf_master_vpn.MultiClient.Steps.{
  update, is_some, link, unlink, add_session, remove_found, remove_session, remove_existing,
  replace_session,
}
use matf_master_vpn.MultiClient.Keeps.{Keeps, assign_cases}
use matf_master_vpn.MultiClient.Tables.{IsTable, key_at, tunnel_at}

abbrev pub key_eq : Eq SessionKey
key_eq = pair_eq {A = Address} {B = ℤ}

-- Every session in the table is at a reference below `n`.
abbrev pub AreBelow : ℕ → MultiClientServerEngine → Type 0
AreBelow n e = (k : SessionKey) (r : Ref) → get k e.sessions ≡ some r → r < n

pub Keeps-AreBelow :
    (n : ℕ) {e f : MultiClientServerEngine} → Keeps e f → AreBelow n e → AreBelow n f
Keeps-AreBelow n k below key r found = below key r (ap (get key) (sym k.same_sessions) ∙ found)

link-AreBelow :
    (n : ℕ) (ref : Ref) (e : MultiClientServerEngine)
    → ref < n
    → AreBelow n e
    → AreBelow n (link ref e)
unfolding link
link-AreBelow n ref e here below k r found = elim (Bool-cases (key_eq.beq (key_at e ref) k)) [
  | inl same ↦
      let is : some ref ≡ some r = rw (get-put (key_at e ref) k ref e.sessions, same) at found in
      let equal : ref ≡ r = cc is in rw (← equal) here
  | inr other ↦ below k r (rw (get-put (key_at e ref) k ref e.sessions, other) at found)
]

add_session-AreBelow :
    (n : ℕ) (ref : Ref) (e : MultiClientServerEngine)
    → ref < n
    → AreBelow n e
    → AreBelow n (add_session ref e).1
unfolding add_session
add_session-AreBelow n ref e here below =
    elim (Bool-cases (is_some (get (key_at e ref) e.sessions))) [
      | inl taken ↦ rw taken below
      | inr free ↦ elim (Bool-cases (is_some (get (tunnel_at e ref) e.routes))) [
        | inl taken ↦ rw (free, taken) below
        | inr open_route ↦ rw (free, open_route) (link-AreBelow n ref e here below)
      ]
    ]

unlink-AreBelow :
    (n : ℕ) (key : SessionKey) (ref : Ref) (e : MultiClientServerEngine)
    → AreBelow n e
    → AreBelow n (unlink key ref e)
unfolding unlink
unlink-AreBelow n key ref e below k r found = elim (Bool-cases (key_eq.beq key k)) [
  | inl same ↦
      let clash : none ≡ some r = rw (get-remove key k e.sessions, same) at found in
      absurd (cc clash)
  | inr other ↦ below k r (rw (get-remove key k e.sessions, other) at found)
]

remove_found-AreBelow :
    (n : ℕ) (key : SessionKey) (o : Option Ref) (e : MultiClientServerEngine)
    → AreBelow n e
    → AreBelow n (remove_found key o e).1
unfolding remove_found
remove_found-AreBelow n key none e below = below
remove_found-AreBelow n key (some ref) e below = unlink-AreBelow n key ref e below

remove_existing-AreBelow :
    (n : ℕ) (o : Option Ref) (e : MultiClientServerEngine)
    → AreBelow n e
    → AreBelow n (remove_existing o e).1
unfolding remove_existing remove_session
remove_existing-AreBelow n none e below = below
remove_existing-AreBelow n (some r) e below =
    remove_found-AreBelow n (key_at e r) (get (key_at e r) e.sessions) e below

pub replace_session-AreBelow :
    (n : ℕ) (ref : Ref) (e : MultiClientServerEngine)
    → ref < n
    → AreBelow n e
    → AreBelow n (replace_session ref e).1
unfolding replace_session
replace_session-AreBelow n ref e here below =
    go (remove_existing (get (tunnel_at e ref) e.routes) e)
      (remove_existing-AreBelow n (get (tunnel_at e ref) e.routes) e below)
  where
    go :
        (r : Result (Unit {0}) × MultiClientServerEngine)
        → AreBelow n r.1
        → AreBelow n (continue r (λ done. add_session ref)).1
    go (ok done, s) h = add_session-AreBelow n ref s here h
    go (err x, s) h = h

-- A session made at a reference that no table holds changes no session in the tables.
pub IsTable-fresh :
    (n : ℕ) (s : ClientSession) (e : MultiClientServerEngine)
    → AreBelow n e
    → IsTable e
    → IsTable (update n s e)
unfolding update
IsTable-fresh n s e below t = record {
  by_key = λ k r found.
      (let (own, routed) = t.by_key k r found in
        let kept = untouched k r found in
        (
          ap key_of kept ∙ own,
          ap (λ (x : ClientSession). get x.tunnel_address e.routes) kept ∙ routed,
        ));
  by_tunnel = λ a r found.
      (let (own, held) = t.by_tunnel a r found in
        let kept = untouched (key_at e r) r held in
        (
          ap (λ (x : ClientSession). x.tunnel_address) kept ∙ own,
          ap (λ (x : ClientSession). get (key_of x) e.sessions) kept ∙ held,
        ));
}
  where
    untouched :
        (k : SessionKey) (r : Ref)
        → get k e.sessions ≡ some r
        → assign n s e.objects r ≡ e.objects r
    untouched k r found = elim (assign_cases n s e.objects r) [
      | inl (here, value) ↦ absurd (omega (arith, below k r found))
      | inr value ↦ value
    ]
