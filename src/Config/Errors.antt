-- ===== src/Config/Errors.antt =====
-- config.py: how `load_config` can fail.
use mathlib.Core.Bool.{xor}
use matf_master_vpn.Prelude.{
  Bool, true, false, Option, none, some, List, [], ◌∷◌, Error, Result, ok, err, ◌≡◌, refl, sym, ap,
  ◌∙◌, ◌⊎◌, inl, inr, ◌>>=◌, Option-cases, Result-cases, arith, String, Raises, Raises-raise_if,
  Raises-bind,
}
use matf_master_vpn.Prelude.Int.{ℤ, pos, negsuc}
use matf_master_vpn.Prelude.Equality.{string_eq}
use matf_master_vpn.OrderedDict.{get}
use matf_master_vpn.Crypto.{EndpointRole}
use matf_master_vpn.Json.{Json, null, text, integer, real}
use matf_master_vpn.Config.{
  Parsers, Raw, EndpointConfig, required, as_text, as_integer, as_boolean, or_default, string_field,
  optional_string, integer_field, boolean_field, checked_port, role_of, number_field, path_field,
  endpoint_of, validate_name, validate_numbers, validate_keys, validate_config, config_of,
  as_object, load_config, has_unknown, allowed_fields, lacks_one, as_number, in_list,
}

-- Nothing but `ValueError`.
abbrev Refuses {ℓ} : {A : Type ℓ} → Result A → Type ℓ
Refuses r = Raises Error.value_error r

ok-Refuses {ℓ} : {A : Type ℓ} (a : A) → Refuses (ok a)
ok-Refuses a e h = cc

required-Refuses {ℓ} : {A : Type ℓ} (o : Option A) → Refuses (required o)
required-Refuses none e h = cc
required-Refuses (some a) e h = cc

as_text-Refuses : (v : Json) → Refuses (as_text v)
as_text-Refuses v e h = ground arith

as_integer-Refuses : (v : Json) → Refuses (as_integer v)
as_integer-Refuses v e h = ground arith

as_boolean-Refuses : (v : Json) → Refuses (as_boolean v)
as_boolean-Refuses v e h = ground arith

as_object-Refuses : (p : Parsers) (v : Json) → Refuses (as_object p v)
as_object-Refuses p v e h = ground arith

string-Refuses :
    (raw : Raw) (field : String) (default : Json) → Refuses (string_field raw field default)
unfolding string_field
string-Refuses raw field default = as_text-Refuses _

optional-Refuses : (raw : Raw) (field : String) → Refuses (optional_string raw field)
unfolding optional_string
optional-Refuses raw field e h = ground arith

integer-Refuses :
    (raw : Raw) (field : String) (default : ℤ) → Refuses (integer_field raw field default)
unfolding integer_field
integer-Refuses raw field default = as_integer-Refuses _

boolean-Refuses :
    (raw : Raw) (field : String) (default : Bool) → Refuses (boolean_field raw field default)
unfolding boolean_field
boolean-Refuses raw field default = as_boolean-Refuses _

port-Refuses : (host : String) (port : ℤ) → Refuses (checked_port host port)
unfolding checked_port
port-Refuses host (pos n) e h = ground arith
port-Refuses host (negsuc n) e h = cc

role-Refuses : (name : Option String) → Refuses (role_of name)
unfolding role_of
role-Refuses none e h = cc
role-Refuses (some name) e h = ground arith

name-Refuses : (name : String) → Refuses (validate_name name)
unfolding validate_name
name-Refuses name = Raises-raise_if _ _

numbers-Refuses : (config : EndpointConfig) → Refuses (validate_numbers config)
unfolding validate_numbers xor
numbers-Refuses config e h = ground arith

keys-Refuses : (config : EndpointConfig) → Refuses (validate_keys config)
unfolding validate_keys xor
keys-Refuses config e h = ground arith

module _ (p : Parsers) where
  path-Refuses : (raw : Raw) (field : String) → Refuses (path_field p raw field)
  unfolding path_field
  path-Refuses raw field e h = ground arith

  endpoint-Refuses : (v : Json) → Refuses (endpoint_of p v)
  unfolding endpoint_of
  endpoint-Refuses v = Raises-bind _ _ _ (as_text-Refuses v) (λ s e.
      Raises-bind _ _ _ (required-Refuses (p.rsplit_colon s)) (λ parts f.
        Raises-bind _ _ _ (required-Refuses (p.ipv4_address parts.0)) (λ host g.
          Raises-bind _ _ _ (required-Refuses (p.parse_int parts.1))
            (λ port h. port-Refuses host port))))

  validate-Refuses : (config : EndpointConfig) → Refuses (validate_config p config)
  unfolding validate_config
  validate-Refuses config =
      Raises-bind _ _ _ (required-Refuses (p.ipv4_interface config.tun_address)) (λ i e.
        Raises-bind _ _ _ (name-Refuses config.tun_name)
          (λ u f. Raises-bind _ _ _ (numbers-Refuses config) (λ v g. keys-Refuses config)))

  -- A field that is read as a number holds an integer that `float` refuses.
  abbrev pub number_fields : List String
  number_fields =
      "handshake_timeout" ∷ "reconnect_delay" ∷ "keepalive_interval" ∷ "liveness_timeout" ∷ []

  abbrev pub HasHuge : Raw → Type 0
  HasHuge raw =
      (field : String) × (in_list field number_fields ≡ true)
      × ((z : ℤ) × (get field raw ≡ some (integer z)) × (p.seconds z ≡ none))

  -- `ValueError`, or `OverflowError` of such a field
  abbrev Fails {ℓ} : {A : Type ℓ} → Raw → Result A → Type ℓ
  Fails raw r =
      (e : Error) → r ≡ err e → (e ≡ Error.value_error) ⊎ ((e ≡ Error.overflow_error) × HasHuge raw)

  Refuses-Fails {ℓ} : {A : Type ℓ} (raw : Raw) (r : Result A) → Refuses r → Fails raw r
  Refuses-Fails raw r h e is = inl (h e is)

  Fails-bind {ℓ κ} :
      {A : Type ℓ} {B : Type κ} (raw : Raw) (r : Result A) (next : A → Result B)
      → Fails raw r
      → ((x : A) → Fails raw (next x))
      → Fails raw (r >>= next)
  Fails-bind raw (err raised) next first rest e h = first e (cc h)
  Fails-bind raw (ok value) next first rest e h = rest value e h

  -- A step that refuses with nothing but `ValueError`
  Fails-then {ℓ κ} :
      {A : Type ℓ} {B : Type κ} (raw : Raw) (r : Result A) (next : A → Result B)
      → Refuses r
      → ((x : A) → Fails raw (next x))
      → Fails raw (r >>= next)
  Fails-then raw r next first rest = Fails-bind raw r next (Refuses-Fails raw r first) rest

  as_number-cases :
      (v : Json) {e : Error}
      → as_number p v ≡ err e
      → (e ≡ Error.value_error)
        ⊎ ((e ≡ Error.overflow_error) × ((z : ℤ) × (v ≡ integer z) × (p.seconds z ≡ none)))
  as_number-cases (integer z) h = elim (Option-cases (p.seconds z)) [
    | inl huge ↦
        let raised : err Error.overflow_error ≡ err _ = rw huge at h in
        inr (sym (cc raised), (z, refl, huge))
    | inr (t, fits) ↦ absurd (ground arith)
  ]
  as_number-cases (real t) h = absurd (cc h)
  as_number-cases _ h = inl (cc h)

  number-Fails :
      (raw : Raw) (field : String) (default : ℤ)
      → in_list field number_fields ≡ true
      → Fails raw (number_field p raw field default)
  unfolding number_field
  number-Fails raw field default listed e h = elim (Option-cases (get field raw)) [
    | inl missing ↦ let clash : ok default ≡ err e = rw missing at h in absurd (cc clash)
    | inr (v, found) ↦ elim (as_number-cases v (rw found at h)) [
      | inl refused ↦ inl refused
      | inr (raised, (z, is, huge)) ↦ inr (raised, (field, listed, (z, found ∙ ap some is, huge)))
    ]
  ]

  config_of-Fails : (raw : Raw) (role : Option EndpointRole) → Fails raw (config_of p raw role)
  unfolding config_of
  config_of-Fails raw role =
      Fails-then raw _ _ (string-Refuses raw "tun_name" (text "mvpn0")) λ tun_name.
        Fails-then raw _ _ (string-Refuses raw "tun_address" null) λ tun_address.
          Fails-then raw _ _ (endpoint-Refuses (or_default null (get "bind" raw))) λ bind.
            Fails-then raw _ _ (endpoint-Refuses (or_default null (get "peer" raw))) λ peer.
              Fails-then raw _ _ (integer-Refuses raw "mtu" (pos 1400)) λ mtu.
                Fails-then raw _ _ (integer-Refuses raw "session_id" (pos 1)) λ session_id.
                  Fails-then raw _ _ (path-Refuses raw "key_file") λ key_file.
                    Fails-then raw _ _ (path-Refuses raw "private_key_file") λ private.
                      Fails-then raw _ _ (path-Refuses raw "peer_public_key_file") λ public.
                        Fails-then raw _ _ (boolean-Refuses raw "ephemeral_handshake" false)
                          λ ephemeral.
                            Fails-bind raw _ _
                              (number-Fails raw "handshake_timeout" (p.literal_seconds 3) refl)
                              λ timeout.
                                Fails-then raw _ _ (integer-Refuses raw "packets_per_key" (pos 0))
                                  λ rate.
                                    Fails-bind raw _ _
                                      (number-Fails raw "reconnect_delay" (p.literal_seconds 1)
                                        refl)
                                      λ delay.
                                        Fails-then raw _ _ (boolean-Refuses raw "json_logs" false)
                                          λ json_logs.
                                            Fails-bind raw _ _
                                              (number-Fails raw "keepalive_interval"
                                                (p.literal_seconds 0) refl)
                                              λ keepalive.
                                                Fails-bind raw _ _
                                                  (number-Fails raw "liveness_timeout"
                                                    (p.literal_seconds 0) refl)
                                                  λ liveness. Refuses-Fails raw _ (ok-Refuses _)

  -- `load_config` after the root of the document was found
  rest-Fails :
      (raw : Raw) (role : Option EndpointRole)
      → Fails raw (
          config_of p raw role >>= λ config.
          (validate_config p config >>= λ (done : Unit {0}). ok config))
  rest-Fails raw role = Fails-bind raw _ _ (config_of-Fails raw role) (λ config.
      Fails-then raw _ _ (validate-Refuses config)
        (λ valid. Refuses-Fails raw _ (ok-Refuses config)))

  -- The document is an object with these fields.
  abbrev pub IsObject : Option Json → Raw → Type 0
  IsObject document raw = (root : Json) × (document ≡ some root) × (as_object p root ≡ ok raw)

  -- Whatever the document holds, or if there is none, `load_config` raises nothing but `ValueError`,
  -- and `OverflowError`, and the latter only where a field of the document that is read as a number
  -- of seconds holds an integer that is too large for a float.
  pub load_config-errors :
      (document : Option Json) (e : Error)
      → load_config p document ≡ err e
      → (e ≡ Error.value_error)
        ⊎ ((e ≡ Error.overflow_error) × ((raw : Raw) × IsObject document raw × HasHuge raw))
  unfolding load_config
  load_config-errors none e h = inl (cc h)
  load_config-errors (some root) e h = elim (Result-cases (as_object p root)) [
    | inr (x, refused) ↦
        let raised : err x ≡ err e = rw refused at h in
        inl (sym (cc raised) ∙ as_object-Refuses p root x refused)
    | inl (raw, is) ↦
        let fails : Fails raw (load_config p (some root)) = rw is (
          Fails-then raw _ _ (Raises-raise_if _ (has_unknown allowed_fields raw)) λ known.
            Fails-then raw _ _
              (Raises-raise_if _ (lacks_one ("tun_address" ∷ "bind" ∷ "peer" ∷ []) raw))
              λ complete.
                Fails-then raw _ _ (optional-Refuses raw "role")
                  λ name. Fails-then raw _ _ (role-Refuses name) λ role. rest-Fails raw role) in
        elim (fails e h) [
          | inl value ↦ inl value
          | inr (raised, huge) ↦ inr (raised, (raw, (root, refl, is), huge))
        ]
  ]
