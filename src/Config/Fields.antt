-- ===== src/Config/Fields.antt =====
-- config.py: the fields of a JSON object, and what their values may be.
use matf_master_vpn.Prelude.{
  ◌&&◌, ◌||◌, not, Bool, true, false, Option, none, some, List, [], ◌∷◌, leb, if◌then◌else◌, String,
  Error, Result, ok, err,
}
use matf_master_vpn.Prelude.Int.{ℤ, pos, negsuc}
use matf_master_vpn.Prelude.Equality.{string_eq}
use matf_master_vpn.OrderedDict.{OrderedDict, get}
use matf_master_vpn.Crypto.{EndpointRole, client, server}
use matf_master_vpn.Transport.{Address}
use matf_master_vpn.Json.{Json, null, boolean, integer, text}

abbrev pub Raw : Type 0
Raw = OrderedDict String Json

abbrev pub given {ℓ} : {A : Type ℓ} → Option A → Bool
given none = false
given (some a) = true

abbrev pub or_default {ℓ} : {A : Type ℓ} → A → Option A → A
or_default default none = default
or_default default (some a) = a

-- `raise ValueError` where there is nothing
abbrev pub required {ℓ} : {A : Type ℓ} → Option A → Result A
required none = err Error.value_error
required (some a) = ok a

abbrev pub as_text : Json → Result String
as_text (text s) = ok s
as_text v = err Error.value_error

abbrev pub as_integer : Json → Result ℤ
as_integer (integer z) = ok z
as_integer v = err Error.value_error

abbrev pub as_boolean : Json → Result Bool
as_boolean (boolean b) = ok b
as_boolean v = err Error.value_error

-- _string, with a default; a field that is missing and has none is `null`
unfoldable pub string_field : Raw → String → Json → Result String
string_field raw field default = as_text (or_default default (get field raw))

abbrev pub as_optional_text : Json → Result (Option String)
as_optional_text null = ok none
as_optional_text (text s) = ok (some s)
as_optional_text v = err Error.value_error

-- _optional_string
unfoldable pub optional_string : Raw → String → Result (Option String)
optional_string raw field = as_optional_text (or_default null (get field raw))

-- _integer
unfoldable pub integer_field : Raw → String → ℤ → Result ℤ
integer_field raw field default = as_integer (or_default (integer default) (get field raw))

-- _boolean
unfoldable pub boolean_field : Raw → String → Bool → Result Bool
boolean_field raw field default = as_boolean (or_default (boolean default) (get field raw))

-- The test of `_endpoint` on the port, a `ValueError` outside its range.
unfoldable pub checked_port : String → ℤ → Result Address
checked_port host (pos port) =
    if leb 1 port && leb port 65535 then ok (host, port) else err Error.value_error
checked_port host (negsuc n) = err Error.value_error

-- `EndpointRole(role) if role is not None else None`
unfoldable pub role_of : Option String → Result (Option EndpointRole)
role_of none = ok none
role_of (some name) =
    if string_eq.beq name "client"
    then ok (some client)
    else if string_eq.beq name "server"
    then ok (some server)
    else err Error.value_error

abbrev pub in_list : String → List String → Bool
in_list s [] = false
in_list s (t ∷ ts) = string_eq.beq s t || in_list s ts

-- `set(raw) - allowed` is not empty.
abbrev pub has_unknown : List String → Raw → Bool
has_unknown allowed [] = false
has_unknown allowed ((key, v) ∷ raw) = not (in_list key allowed) || has_unknown allowed raw

abbrev pub lacks_one : List String → Raw → Bool
lacks_one [] raw = false
lacks_one (field ∷ fields) raw = not (given (get field raw)) || lacks_one fields raw
