-- ===== src/Collector/Json.antt =====
-- internal/collector/collector.go: `parseJSONResponse` and `ResolveNodeID`. encoding/json is a parameter, one
-- function for each shape, `none` for its error; a float64 is its bit pattern.
pub mod Named
use netdata_postgres_mcp.Base.{
  ℕ, zero, suc, Bool, true, false, not, ◌||◌, List, [], ◌∷◌, ◌++◌, Option, none, some, Result, ok,
  err, if◌then◌else◌,
}
use netdata_postgres_mcp.Base.Text.{Bytes, str, eq_str, is_empty, split_n, trim_space}
use netdata_postgres_mcp.Base.Assoc.{Assoc, lookup}
use netdata_postgres_mcp.Store.Sample.{MetricSample}

-- A value of type interface{}.
pub data JsonValue : Type 0 where
  number : ℕ → JsonValue
  string : Bytes → JsonValue
  other : JsonValue

-- An entry of "result", in the order in which the map is gone through.
pub record Entry : Type 0 where
  pub key : Bytes
  pub labels : Option (List (Bytes × Bytes))
  pub point : List JsonValue

pub record Flat : Type 0 where
  pub labels : List Bytes
  pub rows : List (List JsonValue)

-- toFloat64; a number of an interface{} is a float64.
unfoldable pub to_float64 : JsonValue → Option ℕ
to_float64 (number n) = some n
to_float64 (string s) = none
to_float64 other = none

-- The parts of a key, from the one of an index.
abbrev pub part : List Bytes → ℕ → Bytes
part [] n = []
part (p ∷ parts) zero = trim_space p
part (p ∷ parts) (suc n) = part parts n

-- sample.Context != "" && sample.Dimension != ""
unfoldable pub if_named : MetricSample → List MetricSample
if_named s = if is_empty s.context || is_empty s.dimension then [] else s ∷ []

module _ (node_id : Bytes) (collected_at : ℕ) where
  abbrev pub grouped_value : Entry → Option ℕ → List MetricSample
  grouped_value entry none = []
  grouped_value entry (some val) =
      let parts = split_n b',' 4 entry.key in
      if_named (record {
        node_id = node_id;
        collected_at = collected_at;
        context = part parts 0;
        chart = [];
        family = [];
        instance_name = part parts 3;
        dimension = part parts 1;
        unit = [];
        value = val;
        labels = entry.labels;
      })

  -- Strategy 1, for an entry and for all.
  unfoldable pub grouped_entry : Entry → List JsonValue → List MetricSample
  unfolding to_float64 if_named
  grouped_entry entry [] = []
  grouped_entry entry (v ∷ point) = grouped_value entry (to_float64 v)

  unfoldable pub grouped_samples : List Entry → List MetricSample
  unfolding grouped_entry
  grouped_samples [] = []
  grouped_samples (e ∷ entries) = grouped_entry e e.point ++ grouped_samples entries

  abbrev pub flat_value : Bytes → ℕ → Option ℕ → List MetricSample
  flat_value label ts none = []
  flat_value label ts (some val) =
      record {
        node_id = node_id;
        collected_at = ts;
        context = str "unknown";
        chart = [];
        family = [];
        instance_name = [];
        dimension = label;
        unit = [];
        value = val;
        labels = none;
      }
      ∷ []

  -- The loop over the columns after the first, which ends with the shorter of the row and the labels.
  unfoldable pub flat_columns : ℕ → List Bytes → List JsonValue → List MetricSample
  unfolding to_float64
  flat_columns ts [] row = []
  flat_columns ts (label ∷ labels) [] = []
  flat_columns ts (label ∷ labels) (v ∷ row) =
      flat_value label ts (to_float64 v) ++ flat_columns ts labels row

  -- The string at a key of an object, "" if there is none.
  abbrev pub string_or_empty : Option JsonValue → Bytes
  string_or_empty none = []
  string_or_empty (some (number n)) = []
  string_or_empty (some (string s)) = s
  string_or_empty (some other) = []

  -- The number at a key of an object, 0 if there is none; the bits of 0 are 0.
  abbrev pub number_or_zero : Option JsonValue → ℕ
  number_or_zero none = 0
  number_or_zero (some (number n)) = n
  number_or_zero (some (string s)) = 0
  number_or_zero (some other) = 0

  -- Strategy 3, for an object and for all.
  unfoldable pub object_samples : Assoc JsonValue → List MetricSample
  unfolding if_named lookup
  object_samples obj = if_named (record {
    node_id = node_id;
    collected_at = collected_at;
    context = string_or_empty (lookup (str "context") obj);
    chart = string_or_empty (lookup (str "chart") obj);
    family = string_or_empty (lookup (str "family") obj);
    instance_name = string_or_empty (lookup (str "instance") obj);
    dimension = string_or_empty (lookup (str "dimension") obj);
    unit = string_or_empty (lookup (str "unit") obj);
    value = number_or_zero (lookup (str "value") obj);
    labels = none;
  })

  unfoldable pub objects_samples : List (Assoc JsonValue) → List MetricSample
  unfolding object_samples
  objects_samples [] = []
  objects_samples (obj ∷ objects) = object_samples obj ++ objects_samples objects

  -- `is_positive` is the test `> 0` of a float64, `unix` the instant of so many seconds.
  module _ (is_positive : ℕ → Bool) (unix : ℕ → ℕ) where
    abbrev pub row_time : Option ℕ → ℕ
    row_time none = collected_at
    row_time (some f) = if is_positive f then unix f else collected_at

    -- Strategy 2, for a row and for all; a row of fewer than two values has no columns after the first.
    unfoldable pub flat_row : List Bytes → List JsonValue → List MetricSample
    unfolding flat_columns to_float64
    flat_row [] row = []
    flat_row (first ∷ labels) [] = []
    flat_row (first ∷ labels) (v ∷ row) = flat_columns (row_time (to_float64 v)) labels row

    unfoldable pub flat_samples : List Bytes → List (List JsonValue) → List MetricSample
    unfolding flat_row
    flat_samples labels [] = []
    flat_samples labels (row ∷ rows) = flat_row labels row ++ flat_samples labels rows

    -- What the shapes are tried for, each after the one before; `none` is the error.
    abbrev pub try_objects : Option (List (Assoc JsonValue)) → Option (List MetricSample)
    try_objects none = none
    try_objects (some []) = none
    try_objects (some (obj ∷ objects)) = some (objects_samples (obj ∷ objects))

    abbrev pub try_flat : Option Flat → Option (List (Assoc JsonValue)) → Option (List MetricSample)
    try_flat none objects = try_objects objects
    try_flat (some flat) objects = rows flat.labels flat.rows
      where
        rows : List Bytes → List (List JsonValue) → Option (List MetricSample)
        rows labels [] = try_objects objects
        rows [] (row ∷ more) = try_objects objects
        rows (l ∷ labels) (row ∷ more) = some (flat_samples (l ∷ labels) (row ∷ more))

    abbrev pub try_grouped :
        Option (List Entry)
        → Option Flat
        → Option (List (Assoc JsonValue))
        → Option (List MetricSample)
    try_grouped none flat objects = try_flat flat objects
    try_grouped (some []) flat objects = try_flat flat objects
    try_grouped (some (e ∷ entries)) flat objects = some (grouped_samples (e ∷ entries))

    -- parseJSONResponse
    unfoldable pub parse_json_response :
        (Bytes → Option (List Entry))
        → (Bytes → Option Flat)
        → (Bytes → Option (List (Assoc JsonValue)))
        → Bytes
        → Option (List MetricSample)
    unfolding grouped_samples flat_samples objects_samples
    parse_json_response decode_grouped decode_flat decode_objects body =
        try_grouped (decode_grouped body) (decode_flat body) (decode_objects body)

-- The answer of /api/v1/info: `hostname` and `uid`, if there is one of status 200 that can be decoded.
pub record Info : Type 0 where
  pub hostname : Bytes
  pub uid : Bytes

abbrev pub resolve_info : Option Info → Option Bytes → Option Bytes
resolve_info none host = host
resolve_info (some info) host =
    if not (is_empty info.uid)
    then some info.uid
    else if not (is_empty info.hostname)
    then some info.hostname
    else host

-- ResolveNodeID: the node's identifier, which the collector also keeps; `host` is os.Hostname, and
-- `none` is the error.
unfoldable pub resolve_node_id : Bytes → Option Info → Option Bytes → Option Bytes
resolve_node_id configured info host =
    if is_empty configured then resolve_info info host else some configured
