-- ===== src/Common/Json.antt =====
-- `serde_json::Value` and the accessors that the program calls. An object's keys are distinct, as
-- the parser of that library makes them.
use mathlib.Core.Bool.{Bool}
use mathlib.Core.Option.{Option, none, some}
use place_net_hamlet.Common.Tests.{if◌then◌else◌}
use place_net_hamlet.Common.Texts.{Text, text_same}

mutual
  pub data Json : Type 0 where
    null : Json
    bool : Bool → Json
    number : Text → Json
    string : Text → Json
    array : Items → Json
    object : Fields → Json

  pub data Items : Type 0 where
    nil : Items
    cons : Json → Items → Items

  pub data Fields : Type 0 where
    end : Fields
    field : Text → Json → Fields → Fields

unfoldable pub get_field : Text → Fields → Option Json
get_field key end = none
get_field key (field k v fs) = if text_same k key then some v else get_field key fs

abbrev pub as_object : Json → Option Fields
as_object (object fs) = some fs
as_object _ = none

abbrev pub as_str : Json → Option Text
as_str (string s) = some s
as_str _ = none
