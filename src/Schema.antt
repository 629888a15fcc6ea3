-- ===== src/Schema.antt =====
-- Canonical schemas: what `canonicalize` and `normalize_types` return and the schema tables store, nested
-- dicts and lists of texts and booleans.
use Prim.Native.Char.{Char, code}
use Prim.Native.Nat.{Ordering}
use Prim.Native.String.{compare}
use schema_pilot_api_contrac.Base.{
  ℕ, suc, ◌/◌, ◌%◌, String, ◌<>◌, Bool, true, false, not, ◌&&◌, ◌||◌, Option, none, some, ltb,
  decimal, ◌==◌, string_eq, nat_eq, bool_eq, if◌then◌else◌,
}

mutual
  pub data Schema : Type 0 where
    literal : String → Schema
    flag : Bool → Schema
    list : SchemaItems → Schema
    dict : SchemaFields → Schema

  pub data SchemaItems : Type 0 where
    no_items : SchemaItems
    item : Schema → SchemaItems → SchemaItems

  pub data SchemaFields : Type 0 where
    no_entries : SchemaFields
    entry : String → Schema → SchemaFields → SchemaFields

-- `d.get(k)`
unfoldable pub get_entry : String → SchemaFields → Option Schema
get_entry k no_entries = none
get_entry k (entry j v fs) = if k == j then some v else get_entry k fs

-- `{k: v for k, v in sorted(d.items(), key=lambda kv: kv[0])}` puts one more item in its place. Of two
-- items with one key, which no dict has, the later one would win.
unfoldable pub insert_entry : String → Schema → SchemaFields → SchemaFields
insert_entry k v no_entries = entry k v no_entries
insert_entry k v (entry j w fs) =
    let rest = insert_entry k v fs in
    elim (compare k j) [
      | Ordering.lt ↦ entry k v (entry j w fs)
      | Ordering.eq ↦ entry j w fs
      | Ordering.gt ↦ entry j w rest
    ]

-- The characters of a text, each as a text of its own.
chars_with : (ℕ → Bool) → String → Bool
chars_with p String.[] = false
chars_with p (String.◌∷◌ c s) = if p (code c) then true else chars_with p s

hex_digit : ℕ → String
hex_digit n =
    if n == 10
    then "a"
    else if n == 11
    then "b"
    else if n == 12
    then "c"
    else if n == 13
    then "d"
    else if n == 14
    then "e"
    else if n == 15
    then "f"
    else decimal n

escape_char : ℕ → Char → String
unfolding hex_digit
escape_char q c =
    let n = code c in
    if n == b'\\'
    then "\\\\"
    else if n == q
    then "\\" <> String.◌∷◌ c ""
    else if n == 10
    then "\\n"
    else if n == 13
    then "\\r"
    else if n == 9
    then "\\t"
    else if ltb n 32 || n == 127
    then "\\x" <> hex_digit (n / 16) <> hex_digit (n % 16)
    else String.◌∷◌ c ""

escape : ℕ → String → String
unfolding escape_char
escape q String.[] = ""
escape q (String.◌∷◌ c s) = escape_char q c <> escape q s

-- `repr(s)` of a text. Characters beyond ASCII that Python does not print are left as they are.
quote : String → String
unfolding escape chars_with
quote s =
    if chars_with (λ c. c == 39) s && not (chars_with (λ c. c == 34) s)
    then "\"" <> escape 34 s <> "\""
    else "'" <> escape 39 s <> "'"

-- `repr(v)`
unfoldable mutual
  unfolding quote

  pub repr : Schema → String
  repr (literal s) = quote s
  repr (flag true) = "True"
  repr (flag false) = "False"
  repr (list xs) = "[" <> repr_items "" xs <> "]"
  repr (dict fs) = "{" <> repr_fields "" fs <> "}"

  pub repr_items : String → SchemaItems → String
  repr_items comma no_items = ""
  repr_items comma (item x xs) = comma <> repr x <> repr_items ", " xs

  pub repr_fields : String → SchemaFields → String
  repr_fields comma no_entries = ""
  repr_fields comma (entry k v fs) = comma <> quote k <> ": " <> repr v <> repr_fields ", " fs

-- `str(v)`
unfoldable pub str : Schema → String
unfolding repr
str (literal s) = s
str v = repr v

-- `bool(v)`
unfoldable pub truthy : Schema → Bool
truthy (literal s) = not (s == "")
truthy (flag b) = b
truthy (list no_items) = false
truthy (list _) = true
truthy (dict no_entries) = false
truthy (dict _) = true

abbrev pub count_entries : SchemaFields → ℕ
count_entries no_entries = 0
count_entries (entry k v fs) = suc (count_entries fs)

-- Python's `==`: the order of a dict's keys does not count.
unfoldable mutual
  pub schema_eq : Schema → Schema → Bool
  schema_eq (literal s) (literal t) = s == t
  schema_eq (flag a) (flag b) = a == b
  schema_eq (list xs) (list ys) = items_eq xs ys
  schema_eq (dict fs) (dict gs) = count_entries fs == count_entries gs && entries_in fs gs
  schema_eq _ _ = false

  pub items_eq : SchemaItems → SchemaItems → Bool
  items_eq no_items no_items = true
  items_eq (item x xs) (item y ys) = schema_eq x y && items_eq xs ys
  items_eq _ _ = false

  pub entries_in : SchemaFields → SchemaFields → Bool
  entries_in no_entries gs = true
  entries_in (entry k v fs) gs = elim (get_entry k gs) [
    | none ↦ false
    | some w ↦ schema_eq v w && entries_in fs gs
  ]
