-- ===== src/Capabilities.antt =====
-- src/services/capabilities.rs: which binaries the host has. `Host` stands for the running of a
-- command with its arguments, and for the reading of bytes as text.
use mathlib.Core.Option
use place_net_hamlet.Common.{
  ℕ, ◌≡◌, refl, List, [], ◌∷◌, Option, none, some, Bool, not, Result, to_option, Text, text_eq,
  utf8, is_empty, is_some, split_once, strip_suffix, trim, unwrap_or, same_iff, contains,
  if◌then◌else◌, arith,
}
use place_net_hamlet.Common.Map.{get, insert, get-insert}

abbrev pub Bytes : Type 0
Bytes = List ℕ

pub record Output : Type 0 where
  pub success : Bool
  pub stdout : Bytes
  pub stderr : Bytes

pub record Host : Type 0 where
  pub run : Text → List Text → Result Text Output
  pub from_utf8_lossy : Bytes → Text

pub record BinaryInfo : Type 0 where
  pub path : Text
  pub version : Option Text

-- The binaries by their names, `none` for one that was not found.
pub record ServiceCapabilities : Type 0 where
  pub binaries : List (Text × Option BinaryInfo)

-- `and_then(|info| info.as_ref())`.
abbrev flattened : Option (Option BinaryInfo) → Option BinaryInfo
flattened none = none
flattened (some info) = info

unfoldable pub is_available : Text → ServiceCapabilities → Bool
unfolding get
is_available binary c = is_some (flattened (get binary c.binaries))

unfoldable pub binary_path : Text → ServiceCapabilities → Option Text
unfolding get
binary_path binary c =
    Option.map (λ (info : BinaryInfo). info.path) (flattened (get binary c.binaries))

-- `text.lines().next()`.
unfoldable pub first_line : Text → Option Text
unfolding split_once strip_suffix utf8
first_line text = if is_empty text then none else elim (split_once b'\n' text) [
  | none ↦ some text
  | some (line, rest) ↦ some (unwrap_or line (strip_suffix (utf8 "\r") line))
]

-- The version that an output shows, on whichever of its streams.
unfoldable pub version_of : Host → Output → Option Text
unfolding first_line trim
version_of host o =
    let text =
      if is_empty o.stdout then host.from_utf8_lossy o.stderr else host.from_utf8_lossy o.stdout in
    elim (first_line text) [
      | none ↦ none
      | some line ↦ let shown = trim line in if is_empty shown then none else some shown
    ]

unfoldable pub detect_binary : Host → Text → Option BinaryInfo
unfolding version_of trim
detect_binary host name = elim (to_option (host.run (utf8 "which") (name ∷ []))) [
  | none ↦ none
  | some output ↦
      if not output.success
      then none
      else (let path = trim (host.from_utf8_lossy output.stdout) in
          some (record {
            path = path;
            version = elim (to_option (host.run path (utf8 "--version" ∷ []))) [
              | none ↦ none
              | some o ↦ version_of host o
            ];
          }))
]

-- The loop of `detect_capabilities` over the names, from the map so far.
unfoldable pub detect_each :
    Host → List Text → List (Text × Option BinaryInfo) → List (Text × Option BinaryInfo)
unfolding insert detect_binary
detect_each host [] binaries = binaries
detect_each host (name ∷ names) binaries =
    detect_each host names (insert name (detect_binary host name) binaries)

unfoldable pub detect_capabilities : Host → List Text → ServiceCapabilities
unfolding detect_each
detect_capabilities host required_binaries = record {
  binaries = detect_each host required_binaries [];
}

get-detect_each :
    (host : Host) (name : Text) (names : List Text) (m : List (Text × Option BinaryInfo))
    → get name (detect_each host names m)
      ≡ (if contains name names then some (detect_binary host name) else get name m)
unfolding detect_each contains
get-detect_each host name [] m = refl
get-detect_each host name (n ∷ names) m = ground (
  arith,
  get-detect_each host name names (insert n (detect_binary host n) m),
  get-insert n name (detect_binary host n) m,
  same_iff n name,
)

-- A binary is available after the detection exactly if it is among the required ones and is
-- detected, and its path is the one that is detected.
pub detect_capabilities_lem :
    (host : Host) (names : List Text) (name : Text)
    → let c = detect_capabilities host names in
      let there : Option BinaryInfo =
        if contains name names then detect_binary host name else none in
      (is_available name c ≡ is_some there)
      × (binary_path name c ≡ Option.map (λ (info : BinaryInfo). info.path) there)
unfolding is_available binary_path detect_capabilities
detect_capabilities_lem host names name =
    rw (get-detect_each host name names []) (ground (arith), ground (arith))
