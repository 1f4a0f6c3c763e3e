-- ===== src/Json/Maps.antt =====
-- encoding/json: decoding into a map of raw messages, and a raw message into a string or a list of strings.
pub mod Laws
use gibson_tool_runner.Base.{Bytes, List, [], ◌∷◌, Option, none, some}
use gibson_tool_runner.Registry.{assign}
use gibson_tool_runner.Json.{Value, Members, null, object, no_members, member}
use gibson_tool_runner.Json.Parser.{value_of}
use gibson_tool_runner.Json.Fields.{Setter, set_string, set_strings, json_error}
use gibson_tool_runner.Parsers.Lines.{Decoded, record_of, malformed}

-- Of two members with one key the later one counts.
unfoldable pub entries : List (Bytes × Value) → Members → List (Bytes × Value)
unfolding assign
entries m no_members = m
entries m (member k v ms) = entries (assign k v m) ms

-- `null` leaves the map as it is, with no entry.
unfoldable pub map_of : Option Value → Decoded (List (Bytes × Value))
unfolding entries
map_of (some (object ms)) = record_of (entries [] ms)
map_of (some null) = record_of []
map_of _ = malformed json_error

-- `json.Unmarshal(text, &m)` into a `map[string]json.RawMessage`.
unfoldable pub unmarshal_map : Bytes → Decoded (List (Bytes × Value))
unfolding map_of value_of
unmarshal_map input = map_of (value_of input)

unfoldable pub settled : {A : Type 0} → Option A → Decoded A
settled (some x) = record_of x
settled none = malformed json_error

-- `json.Unmarshal(raw, &s)` into an empty `string`, which `null` leaves empty.
unfoldable pub unmarshal_string : Value → Decoded Bytes
unfolding settled set_string
unmarshal_string raw = settled (set_string raw [])

-- The same into a nil `[]string`.
unfoldable pub unmarshal_strings : Value → Decoded (List Bytes)
unfolding settled
unmarshal_strings raw = settled (set_strings raw [])
