-- ===== src/Lease/Arguments.antt =====
-- The arguments of a tool call in snulbug/leases.py: the texts under the keys of paths, URLs and
-- commands, wherever they are nested, and whether the lists of a lease allow them.
use Prim.Native.String
use text.Mathlib.Text.{starts_with}
use snulbug.Base.{
  String, Bool, false, not, ◌&&◌, ◌||◌, Option, none, some, List, [], ◌∷◌, ◌++◌, map, any, contains,
  is_empty, ◌==◌, if◌then◌else◌,
}
use snulbug.Base.Json.{
  Json, Items, Fields, null, bool, int, flt, str, arr, obj, nil, cons, end, field,
}
use snulbug.Lease.{Platform, string_list}

abbrev pub path_keys : List String
path_keys =
    "path" ∷ "paths" ∷ "file" ∷ "files" ∷ "filename" ∷ "filenames" ∷ "directory" ∷ "directories"
    ∷ "dir" ∷ "cwd" ∷ []

abbrev pub url_keys : List String
url_keys = "url" ∷ "urls" ∷ "uri" ∷ "uris" ∷ "endpoint" ∷ "endpoints" ∷ "href" ∷ []

abbrev pub command_keys : List String
command_keys = "cmd" ∷ "command" ∷ "commands" ∷ "shell" ∷ "script" ∷ []

-- key.lower().replace("-", "_")
abbrev pub key_name : Platform → String → String
key_name py key = py.replace "-" "_" (py.lower key)

abbrev is_key : Platform → List String → Option String → Bool
is_key py names none = false
is_key py names (some key) = contains names (key_name py key)

-- `_collect_keyed_strings`: a list passes the key that it stands under on to its items
unfoldable mutual
  pub collect : Platform → List String → Option String → Json → List String
  collect py names key null = []
  collect py names key (bool b) = []
  collect py names key (int n) = []
  collect py names key (flt m e) = []
  collect py names key (str s) = if is_key py names key then s ∷ [] else []
  collect py names key (arr xs) = collect_items py names key xs
  collect py names key (obj m) = collect_fields py names m

  pub collect_items : Platform → List String → Option String → Items → List String
  collect_items py names key nil = []
  collect_items py names key (cons x xs) = collect py names key x ++ collect_items py names key xs

  pub collect_fields : Platform → List String → Fields → List String
  collect_fields py names end = []
  collect_fields py names (field k v m) = collect py names (some k) v ++ collect_fields py names m

-- `_collect_hosts`
unfoldable pub hosts_of : Platform → List String → List String
hosts_of py [] = []
hosts_of py (url ∷ urls) = elim (py.url_host url) [
  | none ↦ hosts_of py urls
  | some host ↦ if host == "" then hosts_of py urls else py.lower host ∷ hosts_of py urls
]

-- `_normalize_path`
unfoldable pub normalize_path : Platform → String → String
normalize_path py value =
    let normalized = py.normpath (py.replace "\\" "/" value) in
    if normalized == "" then "." else normalized

-- one round of `_path_allowed`: the root of the project takes every relative path that stays in it
unfoldable pub path_within : Platform → String → String → Bool
path_within py candidate prefix =
    if prefix == "" || prefix == "."
    then not (starts_with candidate "/")
      && (not (candidate == "..") && not (starts_with candidate "../"))
    else candidate == prefix || starts_with candidate (String.◌++◌ (py.rstrip "/" prefix) "/")

-- `_path_allowed`
unfoldable pub path_allowed : Platform → List String → String → Bool
unfolding path_within normalize_path
path_allowed py allow_paths value =
    any (λ allowed. path_within py (normalize_path py value) (normalize_path py allowed))
      allow_paths

-- `_tool_allowed`
unfoldable pub tool_allowed : List String → String → Bool
tool_allowed allow_tools tool = contains allow_tools "*" || contains allow_tools tool

-- a list of a lease that is empty allows everything
abbrev pub some_denied : List String → (String → Bool) → List String → Bool
some_denied allowed allows values = not (is_empty allowed) && any (λ v. not (allows v)) values

abbrev pub paths_denied : Platform → List String → List String → Bool
paths_denied py allow values =
    let allowed = string_list allow in some_denied allowed (path_allowed py allowed) values

abbrev pub hosts_denied : Platform → List String → List String → Bool
hosts_denied py allow values =
    let allowed = map py.lower (string_list allow) in
    some_denied allowed (λ host. contains allowed (py.lower host)) values

abbrev pub commands_denied : Platform → List String → List String → Bool
commands_denied py allow values =
    let allowed = string_list allow in
    some_denied allowed (λ c. contains allowed (py.command_name c) || contains allowed c) values
