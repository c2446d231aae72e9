-- ===== src/MultiClient/Tables.antt =====
-- multi_client.py: the tables of sessions and of routes hold the same sessions, each under its own
-- keys.
use matf_master_vpn.Prelude.{
  ℕ, ◌≡◌, refl, ap, ◌∙◌, false, Option, none, some, inl, inr, Result, ok, err, Bool-cases,
  Option-cases,
}
use matf_master_vpn.Prelude.Int.{ℤ, int_eq}
use matf_master_vpn.Prelude.Equality.{pair_eq, string_eq, nat_eq}
use matf_master_vpn.Prelude.Exec.{continue}
use matf_master_vpn.OrderedDict.{get}
use matf_master_vpn.OrderedDict.Pairing.{Paired, Paired-put, Paired-remove}
use matf_master_vpn.Transport.{Address, UdpTransport}
use matf_master_vpn.Tun.{TunDevice}
use matf_master_vpn.MultiClient.{
  ClientSession, MultiClientServerEngine, SessionKey, Ref, key_of, new_server_engine,
}
use matf_master_vpn.MultiClient.Steps.{
  is_some, link, unlink, add_session, remove_found, remove_session, remove_existing,
  replace_session,
}

abbrev pub key_at : MultiClientServerEngine → Ref → SessionKey
key_at e r = key_of (e.objects r)

abbrev pub tunnel_at : MultiClientServerEngine → Ref → ℕ
tunnel_at e r = (e.objects r).tunnel_address

-- Both tables hold the same sessions, each under its address and id and under its tunnel address.
pub record IsTable (e : MultiClientServerEngine) : Type 0 where
  pub by_key : Paired e.sessions e.routes (key_at e) (tunnel_at e)
  pub by_tunnel : Paired e.routes e.sessions (tunnel_at e) (key_at e)

pub IsTable-new_server_engine :
    (d : TunDevice) (t : UdpTransport) (objects : Ref → ClientSession)
    → IsTable (new_server_engine d t objects)
unfolding get
IsTable-new_server_engine d t objects = record { by_key = λ k v h. cc h; by_tunnel = λ k v h. cc h }

pub absent_lem {ℓ} : {A : Type ℓ} (o : Option A) → is_some o ≡ false → o ≡ none
absent_lem none h = refl
absent_lem (some a) h = cc

IsTable-link :
    (ref : Ref) (e : MultiClientServerEngine)
    → get (key_at e ref) e.sessions ≡ none
    → get (tunnel_at e ref) e.routes ≡ none
    → IsTable e
    → IsTable (link ref e)
unfolding link
IsTable-link ref e no_session no_route t = record {
  by_key = Paired-put e.sessions e.routes (key_at e) (tunnel_at e) ref t.by_key no_route;
  by_tunnel = Paired-put e.routes e.sessions (tunnel_at e) (key_at e) ref t.by_tunnel no_session;
}

pub IsTable-add_session :
    (ref : Ref) (e : MultiClientServerEngine) → IsTable e → IsTable (add_session ref e).1
unfolding add_session
IsTable-add_session ref e t = elim (Bool-cases (is_some (get (key_at e ref) e.sessions))) [
  | inl taken ↦ rw taken t
  | inr free ↦ elim (Bool-cases (is_some (get (tunnel_at e ref) e.routes))) [
    | inl taken ↦ rw (free, taken) t
    | inr open_route ↦
        rw (free, open_route) (IsTable-link ref e (absent_lem _ free) (absent_lem _ open_route) t)
  ]
]

pub IsTable-unlink :
    (key : SessionKey) (ref : Ref) (e : MultiClientServerEngine)
    → get key e.sessions ≡ some ref
    → IsTable e
    → IsTable (unlink key ref e)
unfolding unlink
IsTable-unlink key ref e found t =
    let (own, routed) = t.by_key key ref found in
    let held : get (key_at e ref) e.sessions ≡ some ref = ap (λ k. get k e.sessions) own ∙ found in
    rw (← own) (record {
      by_key = Paired-remove e.sessions e.routes (key_at e) (tunnel_at e) ref t.by_key held;
      by_tunnel = Paired-remove e.routes e.sessions (tunnel_at e) (key_at e) ref t.by_tunnel routed;
    })

pub IsTable-remove_session :
    (remote_address : Address) (session_id : ℤ) (e : MultiClientServerEngine)
    → IsTable e
    → IsTable (remove_session remote_address session_id e).1
unfolding remove_session remove_found
IsTable-remove_session remote_address session_id e t =
    elim (Option-cases (get (remote_address, session_id) e.sessions)) [
      | inl missing ↦ rw missing t
      | inr (ref, found) ↦ rw found (IsTable-unlink (remote_address, session_id) ref e found t)
    ]

IsTable-remove_existing :
    (existing : Option Ref) (e : MultiClientServerEngine)
    → IsTable e
    → IsTable (remove_existing existing e).1
unfolding remove_existing
IsTable-remove_existing none e t = t
IsTable-remove_existing (some r) e t = IsTable-remove_session _ _ e t

pub IsTable-replace_session :
    (ref : Ref) (e : MultiClientServerEngine) → IsTable e → IsTable (replace_session ref e).1
unfolding replace_session
IsTable-replace_session ref e t =
    go (remove_existing (get (tunnel_at e ref) e.routes) e)
      (IsTable-remove_existing (get (tunnel_at e ref) e.routes) e t)
  where
    go :
        (r : Result (Unit {0}) × MultiClientServerEngine)
        → IsTable r.1
        → IsTable (continue r (λ done. add_session ref)).1
    go (ok done, s) h = IsTable-add_session ref s h
    go (err x, s) h = h
