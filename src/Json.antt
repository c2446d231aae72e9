-- ===== src/Json.antt =====
-- JSON values as `json.loads` gives them. A `float` is a count of ticks of one fixed length, in
-- which the program's times are counted; `per_second` ticks make a second.
use matf_master_vpn.Prelude.{Bool, List, [], ◌∷◌, String}
use matf_master_vpn.Prelude.Int.{ℤ}
use matf_master_vpn.OrderedDict.{OrderedDict}

mutual
  pub data Json : Type 0 where
    null : Json
    boolean : Bool → Json
    integer : ℤ → Json
    real : ℤ → Json
    text : String → Json
    array : Values → Json
    object : Members → Json

  pub data Values : Type 0 where
    no_values : Values
    value : Json → Values → Values

  pub data Members : Type 0 where
    no_members : Members
    member : String → Json → Members → Members

-- A JSON object as a `dict`; its keys are distinct.
unfoldable pub dict_of : Members → OrderedDict String Json
dict_of no_members = []
dict_of (member key v rest) = (key, v) ∷ dict_of rest

unfoldable pub list_of : Values → List Json
list_of no_values = []
list_of (value v rest) = v ∷ list_of rest
