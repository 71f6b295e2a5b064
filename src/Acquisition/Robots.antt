-- ===== src/Acquisition/Robots.antt =====
-- newz/acquisition/robots.py: what a host permits to one agent. The regular expression of a
-- directive, the splitting into lines, `unquote` and `float` are parameters; a delay is a text.
pub mod Laws
pub mod Patterns
use Prim.Native.String.{◌++◌ as text_append}
use Prim.Native.Char.{code, Char}
use new_z.Prelude.{
  ℕ, zero, suc, ◌+◌, ◌-◌, ◌*◌, Bool, true, false, not, ◌&&◌, ◌||◌, Option, none, some, List, [],
  ◌∷◌, ◌++◌, map, String, ◌==◌, string_eq, nat_beq, if◌then◌else◌, is_text, ltb, select, get, put,
  is_some,
}
use new_z.Prelude.Search.{text_len, take_text, drop_text, starts_with, find_text}
use new_z.Acquisition.UrlPolicy.{Parts, path_with_query}

pub record Rule : Type 0 where
  pub allow : Bool
  pub path : String

-- `Rule.specificity`
abbrev pub specificity : Rule → ℕ
specificity rule = text_len rule.path

-- `pattern.endswith("$")`
unfoldable pub is_anchored : String → Bool
is_anchored String.[] = false
is_anchored (String.◌∷◌ c String.[]) = nat_beq (code c) 36
is_anchored (String.◌∷◌ c (String.◌∷◌ d rest)) = is_anchored (String.◌∷◌ d rest)

-- A character before the first of some parts.
abbrev to_first : Char → List String → List String
to_first c [] = (String.◌∷◌ c "") ∷ []
to_first c (part ∷ parts) = (String.◌∷◌ c part) ∷ parts

-- `pattern.split("*")`
unfoldable pub split_stars : String → List String
split_stars String.[] = "" ∷ []
split_stars (String.◌∷◌ c rest) =
    let parts = split_stars rest in if nat_beq (code c) 42 then "" ∷ parts else to_first c parts

-- The loop over the parts after the first: where the last of them ends.
unfoldable pub match_parts : String → ℕ → List String → Option ℕ
match_parts path position [] = some position
match_parts path position (part ∷ parts) =
    if not (is_text part)
    then match_parts path position parts
    else elim (find_text (drop_text position path) part) [
      | none ↦ none
      | some found ↦ match_parts path (position + found + text_len part) parts
    ]

-- The first part is a prefix.
unfoldable pub match_first : String → List String → Option ℕ
match_first path [] = some 0
match_first path (part ∷ parts) =
    if not (is_text part)
    then match_parts path 0 parts
    else if starts_with path part
    then match_parts path (text_len part) parts
    else none

abbrev pub ends_at : Bool → ℕ → Option ℕ → Bool
ends_at anchored size none = false
ends_at anchored size (some position) = if anchored then nat_beq position size else true

-- `Rule.matches`
unfoldable pub matches : Rule → String → Bool
matches rule path =
    let anchored = is_anchored rule.path in
    let pattern = if anchored then take_text (text_len rule.path - 1) rule.path else rule.path in
    if not (is_text rule.path)
    then false
    else ends_at anchored (text_len path) (match_first path (split_stars pattern))

pub record Robots : Type 0 where
  pub host : String
  pub rules : List Rule
  pub crawl_delay : Option String
  pub fetched : Bool
  pub detail : String

-- The order of `max`'s key `(specificity, allow)`, and the first of the greatest.
abbrev pub outranks : Rule → Rule → Bool
outranks a b =
    ltb (specificity b) (specificity a)
    || nat_beq (specificity a) (specificity b) && (a.allow && not b.allow)

unfoldable pub best : Rule → List Rule → Rule
best rule [] = rule
best rule (r ∷ rest) = best (if outranks r rule then r else rule) rest

abbrev pub decides : List Rule → Bool
decides [] = true
decides (rule ∷ rest) = (best rule rest).allow

-- `Robots.allows`
unfoldable pub allows : Robots → String → Bool
allows robots path =
    let asked = if is_text path then path else "/" in
    if not robots.fetched then false else decides (select (λ rule. matches rule asked) robots.rules)

-- The loop's state: the rules and the delays of each group, the groups that the lines are for, and
-- whether the last directive opened one.
pub record Groups : Type 0 where
  pub rules : List (String × List Rule)
  pub delays : List (String × String)
  pub current : List String
  pub starting_group : Bool

-- `groups.setdefault(name, [])`
abbrev set_default : List (String × List Rule) → String → List (String × List Rule)
set_default groups name = if is_some (get groups name) then groups else put groups name []

abbrev rules_of : Option (List Rule) → List Rule
rules_of none = []
rules_of (some rules) = rules

-- `groups.setdefault(name, []).append(rule)`, for each name.
unfoldable pub append_rule :
    List (String × List Rule) → Rule → List String → List (String × List Rule)
append_rule groups rule [] = groups
append_rule groups rule (name ∷ names) =
    append_rule (put groups name (rules_of (get groups name) ++ rule ∷ [])) rule names

unfoldable pub set_delays : List (String × String) → String → List String → List (String × String)
set_delays delays value [] = delays
set_delays delays value (name ∷ names) = set_delays (put delays name value) value names

-- `text.split(c, 1)[0]`, of the character with the code.
unfoldable pub before : ℕ → String → String
before n String.[] = ""
before n (String.◌∷◌ c rest) =
    let more = before n rest in if nat_beq (code c) n then "" else String.◌∷◌ c more

-- What the standard library reads of a line. `directive` gives a name and a value, `number` is
-- whether `float` takes a text, `repr` prints a name.
pub record Lines : Type 0 where
  pub splitlines : String → List String
  pub directive : String → Option (String × String)
  pub strip : String → String
  pub lower : String → String
  pub unquote : String → String
  pub is_number : String → Bool
  pub repr : String → String

module _ (lines : Lines) where
  -- One directive.
  unfoldable pub read_directive : Groups → String × String → Groups
  read_directive g (name, value) =
      let field_name = lines.lower name in
      let agent = lines.lower (lines.strip value) in
      if field_name == "user-agent"
      then record {
        rules = set_default g.rules agent;
        delays = g.delays;
        current = (if g.starting_group then g.current else []) ++ agent ∷ [];
        starting_group = true;
      }
      else if field_name == "allow" || field_name == "disallow"
      then record g {
        rules =
            append_rule g.rules record { allow = field_name == "allow"; path = lines.unquote value }
              g.current;
        starting_group = false;
      }
      else if field_name == "crawl-delay" && lines.is_number value
      then record g { delays = set_delays g.delays value g.current; starting_group = false }
      else record g { starting_group = false }

  unfoldable pub read_lines : Groups → List String → Groups
  read_lines g [] = g
  read_lines g (raw ∷ rest) = elim (lines.directive (before 35 raw)) [
    | none ↦ read_lines g rest
    | some d ↦ read_lines (read_directive g d) rest
  ]

  -- The first of the names that has a group.
  unfoldable pub applicable : Groups → String → List String → Robots
  applicable g host [] = record {
    host = host;
    rules = [];
    crawl_delay = none;
    fetched = true;
    detail = "no applicable group";
  }
  applicable g host (name ∷ names) = elim (get g.rules name) [
    | none ↦ applicable g host names
    | some rules ↦ record {
      host = host;
      rules = rules;
      crawl_delay = get g.delays name;
      fetched = true;
      detail = text_append "group " (lines.repr name);
    }
  ]

  abbrev pub no_groups : Groups
  no_groups = record { rules = []; delays = []; current = []; starting_group = false }

  unfoldable pub parse : (body agent host : String) → Robots
  parse body agent host =
      let agent_token = lines.lower (lines.strip (before 47 agent)) in
      applicable (read_lines no_groups (lines.splitlines body)) host
        (agent_token ∷ lines.lower (lines.strip agent) ∷ "*" ∷ [])

-- `RobotsCache.entries`; a time is its number of seconds.
abbrev pub RobotsCache : Type 0
RobotsCache = List (String × (Robots × ℕ))

-- `del entries[host]`
unfoldable pub forget : RobotsCache → String → RobotsCache
forget [] host = []
forget ((name, entry) ∷ rest) host = if name == host then rest else (name, entry) ∷ forget rest host

-- `RobotsCache.get`, which forgets what is no longer fresh.
unfoldable pub cache_get : RobotsCache → String → ℕ → RobotsCache × Option Robots
cache_get entries host now = elim (get entries host) [
  | none ↦ (entries, none)
  | some (robots, expires) ↦
      if ltb now expires then (entries, some robots) else (forget entries host, none)
]

-- `RobotsCache.put`, of `cache_hours`
unfoldable pub cache_put : RobotsCache → String → Robots → ℕ → ℕ → RobotsCache
cache_put entries host robots now hours = put entries host (robots, now + hours * 3600)

-- `path_of`, of the parts of the URL.
abbrev pub path_of : Parts → String
path_of parts = path_with_query parts
